-- ===== src/Teardown/Additions.antt =====
-- supportedAdditions of deinitnet/policy.go: what the set-up may have added to a policy.
pub mod Ports
pub mod Grants
pub mod Tags
pub mod Others
pub mod Supported
use herdr_distributed_mesh.Prelude.{
  string_eq, ℕ, zero, suc, ◌+◌, ◌-◌, ◌*◌, String, Bool, true, false, ◌&&◌, ◌||◌, Option, none, some,
  List, [], ◌∷◌, ◌++◌, ◌==◌, ◌!=◌, not, if◌then◌else◌, length, codes, leb, all, any, is_some,
  is_none, nat_beq, is_digit,
}
use herdr_distributed_mesh.Teardown.Json.{
  Json, null, text, array, object, Fields, end, field, item, nil,
}
use herdr_distributed_mesh.Teardown.Values.{
  lookup, index, present, as_list, as_object, as_text, field_count, deep_equal, elements,
}
use herdr_distributed_mesh.Teardown.Policy.{
  managed_tag, tag_owners_key, server_tag, node_tag, client_tag,
}

-- The sections to which the set-up adds.
abbrev is_extended : String → Bool
is_extended key = key == "tagOwners" || key == "tagowners" || key == "grants"

-- The loop over the keys of the policy before.
unfoldable pub others_kept : Fields → Fields → Bool
others_kept end applied = true
others_kept (field key value fields) applied =
    (is_extended key || deep_equal value (index key applied))
    && present key applied
    && others_kept fields applied

-- The loop over the keys of the applied policy.
unfoldable pub no_others_added : Fields → Fields → Bool
no_others_added before end = true
no_others_added before (field key value fields) =
    (present key before || is_extended key) && no_others_added before fields

-- Whether a list begins with equal values.
unfoldable pub prefix_equal : List Json → List Json → Bool
prefix_equal [] next = true
prefix_equal (value ∷ values) [] = false
prefix_equal (value ∷ values) (value' ∷ next) = deep_equal value value' && prefix_equal values next

abbrev or_none : Option (List Json) → List Json
or_none none = []
or_none (some values) = values

abbrev or_empty : Option Fields → Fields
or_empty none = end
or_empty (some fields) = fields

abbrev last : List Json → Json
last [] = null
last (value ∷ []) = value
last (value ∷ value' ∷ values) = last (value' ∷ values)

-- The values are `previous` and one new owner.
abbrev one_more : List Json → List Json → Bool
one_more previous added =
    nat_beq (length added) (suc (length previous))
    && prefix_equal previous added
    && elim (as_text (last added)) [
      | none ↦ false
      | some owner ↦ owner != "" && not (any (λ value. deep_equal value (text owner)) previous)
    ]

-- The body of the loop over the applied owners.
unfoldable pub owner_added : Fields → String → Json → Bool
owner_added old tag owners =
    deep_equal (index tag old) owners
    || (managed_tag tag && elim (as_list owners) [
      | none ↦ false
      | some added ↦
          not (present tag old && is_none (as_list (index tag old)))
          && one_more (or_none (as_list (index tag old))) added
    ])

unfoldable pub owners_added : Fields → Fields → Bool
owners_added old end = true
owners_added old (field tag owners fields) = owner_added old tag owners && owners_added old fields

-- The loop over the owners before.
unfoldable pub owners_kept : Fields → Fields → Bool
owners_kept end next = true
owners_kept (field tag owners fields) next =
    present tag next
    && (managed_tag tag || deep_equal owners (index tag next))
    && owners_kept fields next

-- tagOwnersKey answers the empty text when neither spelling is there, and the code looks that up.
abbrev key_text : Option String → String
key_text none = ""
key_text (some key) = key

unfoldable pub owners_extended : Option String → Option String → Fields → Fields → Bool
owners_extended old_key next_key before applied =
    let old = as_object (index (key_text old_key) before) in
    let next = as_object (index (key_text next_key) applied) in
    if is_some old_key && key_text old_key != key_text next_key
    then false
    else if is_none next_key
    then is_none old_key
    else if is_none next || is_some old_key && is_none old
    then false
    else owners_kept (or_empty old) (or_empty next) && owners_added (or_empty old) (or_empty next)

unfoldable pub supported_owners : Fields → Fields → Bool
supported_owners before applied = elim (tag_owners_key before) [
  | none ↦ false
  | some old_key ↦ elim (tag_owners_key applied) [
    | none ↦ false
    | some next_key ↦ owners_extended old_key next_key before applied
  ]
]

unfoldable pub single_string : Json → Option String
single_string (array (item (text s) nil)) = some s
single_string _ = none

-- strings.TrimPrefix and strconv.Atoi after the test that the text begins with "tcp:". The last
-- test of the code, that Itoa prints the port as it was written, leaves no sign and no zero in
-- front.
abbrev decimal : ℕ → List ℕ → ℕ
decimal n [] = n
decimal n (c ∷ cs) = decimal (10 * n + (c - b'0')) cs

abbrev canonical_port : List ℕ → Option ℕ
canonical_port [] = none
canonical_port (c ∷ cs) =
    if all is_digit (c ∷ cs) && not (nat_beq c b'0') && leb (decimal 0 (c ∷ cs)) 65535
    then some (decimal 0 (c ∷ cs))
    else none

abbrev after_prefix : List ℕ → List ℕ → Option (List ℕ)
after_prefix [] cs = some cs
after_prefix (p ∷ ps) [] = none
after_prefix (p ∷ ps) (c ∷ cs) = let rest = after_prefix ps cs in if nat_beq p c then rest else none

unfoldable pub tcp_port : String → Option ℕ
tcp_port ip = elim (after_prefix (codes "tcp:") (codes ip)) [
  | none ↦ none
  | some cs ↦ canonical_port cs
]

abbrev mesh_port : ℕ
mesh_port = 50052

-- The source of an added grant, with the port that it may open.
unfoldable pub source_allows : String → ℕ → Bool
source_allows source port =
    (source == node_tag && nat_beq port mesh_port)
    || source == client_tag
    || (source == "*" && not (nat_beq port mesh_port))

-- The port of a grant that the set-up may have added.
unfoldable pub grant_port : Fields → Option ℕ
grant_port grant = elim (single_string (index "src" grant)) [
  | none ↦ none
  | some source ↦ elim (single_string (index "dst" grant)) [
    | none ↦ none
    | some dest ↦ elim (single_string (index "ip" grant)) [
      | none ↦ none
      | some ip ↦ elim (tcp_port ip) [
        | none ↦ none
        | some port ↦ if dest == server_tag && source_allows source port then some port else none
      ]
    ]
  ]
]

unfoldable pub added_port : Json → Option ℕ
added_port (object grant) = if nat_beq (field_count grant) 3 then grant_port grant else none
added_port _ = none

-- The comparison with an earlier grant.
abbrev same_grant : Json → Json → Bool
same_grant (object grant) (object other) =
    deep_equal (index "src" grant) (index "src" other)
    && deep_equal (index "dst" grant) (index "dst" other)
    && deep_equal (index "ip" grant) (index "ip" other)
same_grant _ _ = false

-- The loop over the added grants: at most one opens a port other than the mesh's, the dashboard.
unfoldable pub grants_added : Bool → List Json → List Json → Bool
grants_added dashboard earlier [] = true
grants_added dashboard earlier (grant ∷ grants) = elim (added_port grant) [
  | none ↦ false
  | some port ↦
      not (dashboard && not (nat_beq port mesh_port))
      && not (any (same_grant grant) earlier)
      && grants_added (dashboard || not (nat_beq port mesh_port)) (earlier ++ grant ∷ []) grants
]

abbrev pub take : ℕ → List Json → List Json
take zero values = []
take (suc n) [] = []
take (suc n) (value ∷ values) = value ∷ take n values

abbrev pub drop : ℕ → List Json → List Json
drop zero values = values
drop (suc n) [] = []
drop (suc n) (value ∷ values) = drop n values

-- The grants before and the applied ones.
unfoldable pub grants_extended : List Json → List Json → Bool
grants_extended old next =
    leb (length old) (length next)
    && leb (length next - length old) 3
    && prefix_equal old next
    && grants_added false (take (length old) next) (drop (length old) next)

unfoldable pub supported_grants : Fields → Fields → Bool
supported_grants before applied =
    if not (present "grants" applied)
    then not (present "grants" before)
    else elim (as_list (index "grants" applied)) [
      | none ↦ false
      | some next ↦
          not (present "grants" before && is_none (as_list (index "grants" before)))
          && grants_extended (or_none (as_list (index "grants" before))) next
    ]

unfoldable pub supported_additions : Fields → Fields → Bool
supported_additions before applied =
    others_kept before applied
    && no_others_added before applied
    && supported_owners before applied
    && supported_grants before applied
