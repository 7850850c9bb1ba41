-- ===== src/Teardown/Policy.antt =====
-- The policy of deinitnet/policy.go: parsePolicy and PrepareMeshPolicyRemoval's edit of a policy.
pub mod Rules
pub mod Mentions
pub mod Sections
pub mod Owners
pub mod Removal
use herdr_distributed_mesh.Prelude.{
  string_eq, ℕ, ◌*◌, ◌^◌, String, Bool, true, false, ◌&&◌, ◌||◌, Option, none, some, List, [], ◌∷◌,
  ◌==◌, not, if◌then◌else◌, length, codes, leb, any,
}
use herdr_distributed_mesh.Teardown.Failures.{
  Answer, failed, answer, Failure, invalid_policy, ambiguous_mesh_policy, demand, ◌>>=◌, ◌>>◌,
}
use herdr_distributed_mesh.Teardown.Json.{
  Json, null, bool, number, text, array, object, Items, nil, item, Fields, end, field, Token,
  Decoded, decoded, refused, starved, decode_value, enough,
}
use herdr_distributed_mesh.Teardown.Values.{
  lookup, index, present, elements, items_of, as_list, as_object, as_text, has_prefix, mentions,
  set_field,
}

-- What the code takes of its libraries. A []byte is a String with one character for each byte.
pub record Codec : Type 0 where
  -- utf8.Valid and json.Valid
  pub valid_utf8 : String → Bool
  pub valid_json : String → Bool
  -- hujson.Standardize
  pub standardize : String → Option String
  -- the tokens that a json.Decoder with UseNumber returns before its first error, and whether
  -- that error is io.EOF
  pub scan : String → List Token × Bool
  -- json.Marshal of a map
  pub marshal : Fields → Option String

-- MaxPolicyBytes
abbrev pub max_policy_bytes : ℕ
max_policy_bytes = 2097152

-- decodeValue at depth 0, and then nothing but io.EOF
unfoldable pub decode_whole : List Token × Bool → Option Json
decode_whole (tokens, clean) = elim (decode_value (enough tokens) 0 tokens) [
  | decoded value [] ↦ if clean then some value else none
  | _ ↦ none
]

unfoldable pub parse_policy : Codec → String → Answer (Fields × String)
parse_policy codec body =
    demand (leb 1 (length (codes body))) invalid_policy
    >> demand (leb (length (codes body)) max_policy_bytes) invalid_policy
    >> demand (codec.valid_utf8 body) invalid_policy
    >> (elim (codec.standardize body) [
      | none ↦ failed invalid_policy
      | some standard ↦ elim (decode_whole (codec.scan standard)) [
        | some (object fields) ↦ elim (codec.marshal fields) [
          | none ↦ failed invalid_policy
          | some canonical ↦ answer (fields, canonical)
        ]
        | _ ↦ failed invalid_policy
      ]
    ])

abbrev pub server_tag : String
server_tag = "tag:herdr-mesh-server"

abbrev pub node_tag : String
node_tag = "tag:herdr-mesh-node"

abbrev pub client_tag : String
client_tag = "tag:herdr-mesh-client"

unfoldable pub managed_tag : String → Bool
managed_tag tag = tag == server_tag || tag == node_tag || tag == client_tag

-- An ACL destination carries a port suffix.
unfoldable pub managed_policy_selector : String → Bool
managed_policy_selector selector =
    managed_tag selector
    || has_prefix selector "tag:herdr-mesh-server:"
    || has_prefix selector "tag:herdr-mesh-node:"
    || has_prefix selector "tag:herdr-mesh-client:"

unfoldable mutual
  pub contains_mesh_reference : Json → Bool
  contains_mesh_reference (text s) = mentions s "tag:herdr-mesh-"
  contains_mesh_reference (array items) = items_mention_mesh items
  contains_mesh_reference (object fields) = fields_mention_mesh fields
  contains_mesh_reference _ = false

  pub items_mention_mesh : Items → Bool
  items_mention_mesh nil = false
  items_mention_mesh (item value items) = contains_mesh_reference value || items_mention_mesh items

  pub fields_mention_mesh : Fields → Bool
  fields_mention_mesh end = false
  fields_mention_mesh (field name value fields) =
      mentions name "tag:herdr-mesh-" || contains_mesh_reference value || fields_mention_mesh fields

-- tagOwnersKey: no answer when both spellings are there, and no key when neither is
unfoldable pub tag_owners_key : Fields → Option (Option String)
tag_owners_key policy =
    if present "tagOwners" policy && present "tagowners" policy
    then none
    else if present "tagOwners" policy
    then some (some "tagOwners")
    else if present "tagowners" policy
    then some (some "tagowners")
    else some none

-- delete(owners, tag) for every managed tag
unfoldable pub delete_managed : Fields → Fields
delete_managed end = end
delete_managed (field tag owners fields) =
    let rest = delete_managed fields in if managed_tag tag then rest else field tag owners rest

-- Whether a list of selectors has a managed one, and whether it has another.
unfoldable pub sort_selectors : List Json → Answer (Bool × Bool)
sort_selectors [] = answer (false, false)
sort_selectors (text selector ∷ selectors) = sort_selectors selectors >>= (λ (mesh, other).
    answer (if managed_policy_selector selector then (true, other) else (mesh, true)))
sort_selectors (_ ∷ selectors) = failed invalid_policy

-- One of the fields `src` and `dst` of a rule: whether it names the mesh.
unfoldable pub names_mesh : Json → Answer Bool
names_mesh (array selectors) =
    sort_selectors (elements selectors)
    >>= (λ (mesh, other). if mesh && other then failed ambiguous_mesh_policy else answer mesh)
names_mesh _ = failed invalid_policy

-- Whether a rule is removed.
unfoldable pub removes : Json → Answer Bool
removes (object rule) =
    names_mesh (index "src" rule)
    >>= (λ src. names_mesh (index "dst" rule) >>= (λ dst. answer (src || dst)))
removes _ = failed invalid_policy

unfoldable pub keep_rules : List Json → Answer (List Json)
keep_rules [] = answer []
keep_rules (rule ∷ rules) =
    removes rule
    >>= (λ remove. keep_rules rules >>= (λ kept. answer (if remove then kept else rule ∷ kept)))

unfoldable pub keep_section : String → Fields → Answer Fields
keep_section section policy = elim (lookup section policy) [
  | none ↦ answer policy
  | some entries ↦ elim (as_list entries) [
    | none ↦ failed invalid_policy
    | some rules ↦
        keep_rules rules >>= (λ kept. answer (set_field section (array (items_of kept)) policy))
  ]
]

unfoldable pub clear_owners : String → Fields → Answer Fields
clear_owners key policy = elim (as_object (index key policy)) [
  | none ↦ failed invalid_policy
  | some owners ↦ answer (set_field key (object (delete_managed owners)) policy)
]

unfoldable pub remove_owners : Fields → Answer Fields
remove_owners policy = elim (tag_owners_key policy) [
  | none ↦ failed invalid_policy
  | some none ↦ answer policy
  | some (some key) ↦ clear_owners key policy
]

-- The edit that PrepareMeshPolicyRemoval makes of the current policy.
unfoldable pub remove_mesh : Fields → Answer Fields
remove_mesh policy = remove_owners policy >>= (λ owned. keep_section "grants" owned >>= (λ granted.
    keep_section "acls" granted >>= (λ listed.
      if fields_mention_mesh listed then failed ambiguous_mesh_policy else answer listed)))
