-- ===== src/Teardown/Additions/Tags.antt =====
-- What the set-up may have added to the owners of a tag (the loops of supportedOwners).
use herdr_distributed_mesh.Prelude.{
  string_eq, suc, String, Bool, true, false, not, ◌&&◌, ◌==◌, ==→≡, ◌≡◌, refl, sym, ap, ◌∙◌, subst,
  ◌⊎◌, inl, inr, Option, none, some, List, [], ◌∷◌, ◌++◌, any, length, is_some, is_none,
  nat_beq_iff, Bool-cases, Option-cases, &&-split, arith,
}
use herdr_distributed_mesh.Teardown.Json.{Json, null, text, array, Fields, end, field}
use herdr_distributed_mesh.Teardown.Values.{
  lookup, index, or_null, present, as_list, as_text, deep_equal, items_of,
}
use herdr_distributed_mesh.Teardown.Values.Lookups.{as_text-some, as_list-some}
use herdr_distributed_mesh.Teardown.Roles.{is_role, managed_tag-is_role}
use herdr_distributed_mesh.Teardown.Additions.{
  prefix_equal, last, or_none, one_more, owner_added, owners_added, owners_kept,
}

-- The key is missing from both maps, or has deeply equal values.
abbrev pub SameAt : Option Json → Option Json → Type 0
SameAt none none = Unit
SameAt (some a) (some b) = deep_equal a b ≡ true
SameAt _ _ = ⊥

abbrev pub AreEqual : List Json → List Json → Type 0
AreEqual [] [] = Unit
AreEqual (a ∷ more) (b ∷ others) = (deep_equal a b ≡ true) × AreEqual more others
AreEqual _ _ = ⊥

-- The list that stands at a key, empty where the key is missing.
abbrev pub ListAt : Option Json → List Json → Type 0
ListAt none values = values ≡ []
ListAt (some value) values = as_list value ≡ some values

-- A list and the same list with a new owner behind it, which is a text and is not empty.
pub record OneMore (previous added : List Json) : Type 0 where
  kept : List Json
  owner : String
  shape : added ≡ kept ++ text owner ∷ []
  same : AreEqual previous kept
  filled : (owner == "") ≡ false
  new : any (λ value. deep_equal value (text owner)) previous ≡ false

abbrev pub HasOneMore : Option Json → Option Json → Type 0
HasOneMore old next =
    (previous : List Json) × (added : List Json) × ListAt old previous
    × (next ≡ some (array (items_of added)))
    × OneMore previous added

-- The owners of a tag before and after the set-up: they are the same; or they are those of a role,
-- and one was added; or the tag was missing and stands there with null.
abbrev pub IsTagAdded : String → Option Json → Option Json → Type 0
IsTagAdded tag old next =
    SameAt old next
    ⊎ (((is_role tag ≡ true) × HasOneMore old next) ⊎ ((old ≡ none) × (next ≡ some null)))

split_last :
    (previous added : List Json)
    → length added ≡ suc (length previous)
    → prefix_equal previous added ≡ true
    → (kept : List Json) × (added ≡ kept ++ last added ∷ []) × AreEqual previous kept
unfolding prefix_equal
split_last [] [] l h = absurd (omega arith)
split_last [] (a ∷ []) l h = ([], refl, tt)
split_last [] (a ∷ b ∷ more) l h = absurd (omega arith)
split_last (p ∷ ps) [] l h = absurd (omega arith)
split_last (p ∷ ps) (a ∷ []) l h = absurd (omega arith)
split_last (p ∷ ps) (a ∷ b ∷ more) l h =
    let (first, rest) = &&-split _ _ h in
    let (kept, shape, same) = split_last ps (b ∷ more) (omega arith) rest in
    (a ∷ kept, ap (a ∷◌) shape, (first, same))

negated : (b : Bool) → not b ≡ true → b ≡ false
negated true h = cc (h)
negated false h = refl

one_more-OneMore :
    (previous added : List Json) → one_more previous added ≡ true → OneMore previous added
one_more-OneMore previous added h =
    let (first, owned) = &&-split _ _ h in
    let (size, prefix) = &&-split _ _ first in
    let (kept, shape, same) = split_last previous added ((nat_beq_iff _ _).0 size) prefix in
    elim (Option-cases (as_text (last added))) [
      | inl other ↦ cc (rw other at owned)
      | inr (owner, e) ↦
          let (filled, new) = &&-split _ _ (rw e at owned) in
          record {
            kept = kept;
            owner = owner;
            shape = shape ∙ ap (λ v. kept ++ v ∷ []) (as_text-some _ owner e);
            same = same;
            filled = negated _ filled;
            new = negated _ new;
          }
    ]

-- DeepEqual to nil
deep_equal-null : (value : Json) → deep_equal null value ≡ true → value ≡ null
unfolding deep_equal
deep_equal-null null h = refl
deep_equal-null _ h = cc (h)

-- The test of what was added to the owners of a role, at the owners before.
is_more : Option Json → Json → Bool
is_more old owners = elim (as_list owners) [
  | none ↦ false
  | some added ↦
      not (is_some old && is_none (as_list (or_null old)))
      && one_more (or_none (as_list (or_null old))) added
]

is_more-HasOneMore :
    (old : Option Json) (owners : Json) → is_more old owners ≡ true → HasOneMore old (some owners)
unfolding is_more
is_more-HasOneMore old owners h = elim (Option-cases (as_list owners)) [
  | inl other ↦ cc (rw (is_more, other) at h)
  | inr (added, e) ↦
      let (listed, more) = &&-split _ _ (rw (is_more, e) at h) in
      let (previous, before, grown) = list_at old added listed more in
      (
        previous,
        added,
        before,
        ap some (as_list-some owners added e),
        one_more-OneMore previous added grown,
      )
]
  where
    list_at :
        (old : Option Json) (added : List Json)
        → not (is_some old && is_none (as_list (or_null old))) ≡ true
        → one_more (or_none (as_list (or_null old))) added ≡ true
        → (previous : List Json) × ListAt old previous × (one_more previous added ≡ true)
    list_at none added l m = ([], refl, m)
    list_at (some value) added l m = elim (Option-cases (as_list value)) [
      | inl other ↦ cc (rw other at l)
      | inr (previous, e) ↦ (previous, e, subst (λ l. one_more (or_none l) added ≡ true) e m)
    ]

-- The loop over the applied owners, at one of them.
owner_added-IsTagAdded :
    (old : Fields) (tag : String) (owners : Json)
    → owner_added old tag owners ≡ true
    → IsTagAdded tag (lookup tag old) (some owners)
unfolding owner_added is_more
owner_added-IsTagAdded old tag owners h = elim (Bool-cases (deep_equal (index tag old) owners)) [
  | inl same ↦ kept (lookup tag old) same
  | inr differs ↦
      let (role, more) = &&-split _ _ (rw differs at h) in
      inr (
        inl (sym (managed_tag-is_role tag) ∙ role, is_more-HasOneMore (lookup tag old) owners more))
]
  where
    kept : (a : Option Json) → deep_equal (or_null a) owners ≡ true → IsTagAdded tag a (some owners)
    kept none e = inr (inr (refl, ap some (deep_equal-null owners e)))
    kept (some value) e = inl e

owners_added-IsTagAdded :
    (old next : Fields) (tag : String) (owners : Json)
    → owners_added old next ≡ true
    → lookup tag next ≡ some owners
    → IsTagAdded tag (lookup tag old) (some owners)
unfolding owners_added lookup
owners_added-IsTagAdded old end tag owners h e = cc (e)
owners_added-IsTagAdded old (field name value next) tag owners h e =
    let (first, rest) = &&-split _ _ h in
    elim (Bool-cases (name == tag)) [
      | inl same ↦
          let this : some value ≡ some owners = rw same at e in
          subst (λ v. IsTagAdded tag (lookup tag old) v) this
            (subst (λ t. IsTagAdded t (lookup t old) (some value)) (==→≡ name tag same)
              (owner_added-IsTagAdded old name value first))
      | inr miss ↦ owners_added-IsTagAdded old next tag owners rest (rw miss at e)
    ]

-- No tag that had owners is missing afterwards.
owners_kept-present :
    (old next : Fields) (tag : String) (owners : Json)
    → owners_kept old next ≡ true
    → lookup tag old ≡ some owners
    → present tag next ≡ true
unfolding owners_kept lookup
owners_kept-present end next tag owners h e = cc (e)
owners_kept-present (field name value old) next tag owners h e =
    let (early, rest) = &&-split _ _ h in
    let (first, _) = &&-split _ _ early in
    elim (Bool-cases (name == tag)) [
      | inl same ↦ subst (λ t. present t next ≡ true) (==→≡ name tag same) first
      | inr miss ↦ owners_kept-present old next tag owners rest (rw miss at e)
    ]

-- What the set-up may have made of the owners of every tag.
abbrev pub AreTagsAdded : Fields → Fields → Type 0
AreTagsAdded old next = (tag : String) → IsTagAdded tag (lookup tag old) (lookup tag next)

pub owners-AreTagsAdded :
    (old next : Fields)
    → owners_kept old next ≡ true
    → owners_added old next ≡ true
    → AreTagsAdded old next
owners-AreTagsAdded old next k h tag = elim (Option-cases (lookup tag next)) [
  | inr (owners, e) ↦
      subst (IsTagAdded tag (lookup tag old)) (sym e)
        (owners_added-IsTagAdded old next tag owners h e)
  | inl missing ↦ elim (Option-cases (lookup tag old)) [
    | inl missing' ↦ rw (missing, missing') (inl tt)
    | inr (owners, e) ↦
        let there = owners_kept-present old next tag owners k e in cc (rw missing at there)
  ]
]
