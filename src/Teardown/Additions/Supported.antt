-- ===== src/Teardown/Additions/Supported.antt =====
-- What the set-up may have added to a policy that supportedAdditions accepts.
use herdr_distributed_mesh.Prelude.{
  string_eq, String, true, false, not, ◌&&◌, ◌==◌, ◌!=◌, ==→≡, ◌≡◌, refl, ap, subst, ◌⊎◌, inl, inr,
  Option, none, some, List, [], is_some, is_none, Bool-cases, Option-cases, &&-split,
}
use herdr_distributed_mesh.Teardown.Json.{Json, object, Fields, end}
use herdr_distributed_mesh.Teardown.Values.{lookup, index, or_null, as_list, as_object}
use herdr_distributed_mesh.Teardown.Values.Lookups.{as_object-some}
use herdr_distributed_mesh.Teardown.Policy.{tag_owners_key}
use herdr_distributed_mesh.Teardown.Additions.{
  or_none, or_empty, owners_kept, owners_added, owners_extended, supported_owners, grants_extended,
  supported_grants, supported_additions,
}
use herdr_distributed_mesh.Teardown.Additions.Grants.{Extends, grants_extended-Extends}
use herdr_distributed_mesh.Teardown.Additions.Others.{AreOthersKept, others-AreOthersKept}
use herdr_distributed_mesh.Teardown.Additions.Tags.{ListAt, AreTagsAdded, owners-AreTagsAdded}

-- The owners under a key. Without a key there are none, but the code then looks the empty key up, so
-- that an object that stands there is taken for them.
abbrev pub OwnersUnder : Fields → Option String → Fields → Type 0
OwnersUnder policy none owners = (owners ≡ end) ⊎ (lookup "" policy ≡ some (object owners))
OwnersUnder policy (some key) owners = lookup key policy ≡ some (object owners)

-- The owners are under one spelling, before and after, if there were any before.
pub record AreOwnersAdded (before applied : Fields) : Type 0 where
  old_key : Option String
  next_key : Option String
  old_is : tag_owners_key before ≡ some old_key
  next_is : tag_owners_key applied ≡ some next_key
  same_key : (old_key ≡ none) ⊎ (old_key ≡ next_key)
  old : Fields
  next : Fields
  old_under : OwnersUnder before old_key old
  next_under : OwnersUnder applied next_key next
  added : AreTagsAdded old next

object_at :
    (key : String) (policy owners : Fields)
    → as_object (index key policy) ≡ some owners
    → lookup key policy ≡ some (object owners)
object_at key policy owners h = at_value (lookup key policy) h
  where
    at_value : (m : Option Json) → as_object (or_null m) ≡ some owners → m ≡ some (object owners)
    at_value none e = cc (e)
    at_value (some value) e = ap some (as_object-some value owners e)

same_text : (a b : String) → (a != b) ≡ false → a ≡ b
same_text a b h = elim (Bool-cases (a == b)) [
  | inl same ↦ ==→≡ a b same
  | inr differ ↦ cc (rw differ at h)
]

owners_extended-AreOwnersAdded :
    (old_key next_key : Option String) (before applied : Fields)
    → tag_owners_key before ≡ some old_key
    → tag_owners_key applied ≡ some next_key
    → owners_extended old_key next_key before applied ≡ true
    → AreOwnersAdded before applied
unfolding owners_extended owners_kept owners_added
owners_extended-AreOwnersAdded none none before applied o n h = record {
  old_key = none;
  next_key = none;
  old_is = o;
  next_is = n;
  same_key = inl refl;
  old = end;
  next = end;
  old_under = inl refl;
  next_under = inl refl;
  added = owners-AreTagsAdded end end refl refl;
}
owners_extended-AreOwnersAdded (some key) none before applied o n h =
    elim (Bool-cases (key != "")) [ inl a ↦ cc (rw a at h) | inr b ↦ cc (rw b at h) ]
owners_extended-AreOwnersAdded none (some key) before applied o n h =
    elim (Option-cases (as_object (index key applied))) [
      | inl other ↦ cc (rw other at h)
      | inr (next, e) ↦
          let (kept, added) = &&-split _ _ (rw e at h) in
          record {
            old_key = none;
            next_key = some key;
            old_is = o;
            next_is = n;
            same_key = inl refl;
            old = or_empty (as_object (index "" before));
            next = next;
            old_under = under_nothing (as_object (index "" before)) refl;
            next_under = object_at key applied next e;
            added = owners-AreTagsAdded _ next kept added;
          }
    ]
  where
    under_nothing :
        (m : Option Fields) → as_object (index "" before) ≡ m → OwnersUnder before none (or_empty m)
    under_nothing none e = inl refl
    under_nothing (some owners) e = inr (object_at "" before owners e)
owners_extended-AreOwnersAdded (some key) (some key') before applied o n h =
    elim (Bool-cases (key != key')) [
      | inl differ ↦ cc (rw differ at h)
      | inr same ↦ elim (Option-cases (as_object (index key' applied))) [
        | inl other ↦ cc (rw (same, other) at h)
        | inr (next, e) ↦ elim (Option-cases (as_object (index key before))) [
          | inl other ↦ cc (rw (same, e, other) at h)
          | inr (old, e') ↦
              let (kept, added) = &&-split _ _ (rw (same, e, e') at h) in
              record {
                old_key = some key;
                next_key = some key';
                old_is = o;
                next_is = n;
                same_key = inr (ap some (same_text key key' same));
                old = old;
                next = next;
                old_under = object_at key before old e';
                next_under = object_at key' applied next e;
                added = owners-AreTagsAdded old next kept added;
              }
        ]
      ]
    ]

supported_owners-AreOwnersAdded :
    (before applied : Fields)
    → supported_owners before applied ≡ true
    → AreOwnersAdded before applied
unfolding supported_owners
supported_owners-AreOwnersAdded before applied h = elim (Option-cases (tag_owners_key before)) [
  | inl both ↦ cc (rw (supported_owners, both) at h)
  | inr (old_key, o) ↦ elim (Option-cases (tag_owners_key applied)) [
    | inl both ↦ cc (rw (supported_owners, o, both) at h)
    | inr (next_key, n) ↦
        owners_extended-AreOwnersAdded old_key next_key before applied o n
          (rw (supported_owners, o, n) at h)
  ]
]

-- The grants are a list afterwards, which extends the list before; or there are none at all.
abbrev pub AreGrantsAdded : Option Json → Option Json → Type 0
AreGrantsAdded before none = before ≡ none
AreGrantsAdded before (some applied) =
    (old : List Json) × (next : List Json) × ListAt before old
    × (as_list applied ≡ some next)
    × Extends old next

supported_grants-AreGrantsAdded :
    (before applied : Fields)
    → supported_grants before applied ≡ true
    → AreGrantsAdded (lookup "grants" before) (lookup "grants" applied)
unfolding supported_grants
supported_grants-AreGrantsAdded before applied h = elim (Option-cases (lookup "grants" applied)) [
  | inl missing ↦ rw missing (none_before (lookup "grants" before) (rw missing at h))
  | inr (value, e) ↦ elim (Option-cases (as_list value)) [
    | inl other ↦ cc (rw (supported_grants, e, other) at h)
    | inr (next, listed) ↦
        let (valid, extended) = &&-split _ _ (rw (supported_grants, e, listed) at h) in
        let (old, at_before, extends) = list_before next (lookup "grants" before) valid extended in
        rw e (old, next, at_before, listed, grants_extended-Extends old next extends)
  ]
]
  where
    none_before : (m : Option Json) → not (is_some m) ≡ true → m ≡ none
    none_before none k = refl
    none_before (some value) k = cc (k)

    list_before :
        (next : List Json) (m : Option Json)
        → not (is_some m && is_none (as_list (or_null m))) ≡ true
        → grants_extended (or_none (as_list (or_null m))) next ≡ true
        → (old : List Json) × ListAt m old × (grants_extended old next ≡ true)
    list_before next none k g = ([], refl, g)
    list_before next (some value) k g = elim (Option-cases (as_list value)) [
      | inl other ↦ cc (rw other at k)
      | inr (old, e) ↦ (old, e, subst (λ l. grants_extended (or_none l) next ≡ true) e g)
    ]

-- The applied policy is the policy before with supported additions: other sections are as they were,
-- and tag owners and grants differ only as the records and types above say.
pub record IsSupported (before applied : Fields) : Type 0 where
  others : AreOthersKept before applied
  owners : AreOwnersAdded before applied
  grants : AreGrantsAdded (lookup "grants" before) (lookup "grants" applied)

pub supported_additions-IsSupported :
    (before applied : Fields)
    → supported_additions before applied ≡ true
    → IsSupported before applied
unfolding supported_additions
supported_additions-IsSupported before applied h =
    let (most, grants) = &&-split _ _ h in
    let (sections, owners) = &&-split _ _ most in
    let (kept, added) = &&-split _ _ sections in
    record {
      others = others-AreOthersKept before applied kept added;
      owners = supported_owners-AreOwnersAdded before applied owners;
      grants = supported_grants-AreGrantsAdded before applied grants;
    }
