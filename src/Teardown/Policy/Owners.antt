-- ===== src/Teardown/Policy/Owners.antt =====
-- The tag owners of a policy when the mesh is taken out.
use herdr_distributed_mesh.Prelude.{
  string_eq, String, Bool, true, false, ◌&&◌, ◌≡◌, ◌≢◌, refl, sym, subst, ap, ◌∙◌, Option, none,
  some, ◌==◌, ==→≡, ==-false, ◌⊎◌, Bool-cases, Option-cases, inl, inr, if◌then◌else◌, arith,
}
use herdr_distributed_mesh.Teardown.Failures.{answer, invalid_policy}
use herdr_distributed_mesh.Teardown.Json.{Json, object, Fields, end, field}
use herdr_distributed_mesh.Teardown.Values.{lookup, index, present, as_object, set_field}
use herdr_distributed_mesh.Teardown.Values.Lookups.{
  lookup-set_field, lookup-set_field_other, set_field-same, as_object-some,
}
use herdr_distributed_mesh.Teardown.Policy.{
  managed_tag, tag_owners_key, delete_managed, clear_owners, remove_owners,
}
use herdr_distributed_mesh.Teardown.Policy.Rules.{answer-injective}
use herdr_distributed_mesh.Teardown.Policy.Sections.{failed-answer}
use herdr_distributed_mesh.Teardown.Roles.{is_role, managed_tag-is_role}

-- The entries of the three roles are gone, and every other entry is what it was.
abbrev pub IsCleared : Fields → Fields → Type 0
IsCleared owners owners' =
    (tag : String) → lookup tag owners' ≡ (if is_role tag then none else lookup tag owners)

delete_managed-IsCleared : (owners : Fields) → IsCleared owners (delete_managed owners)
unfolding delete_managed lookup
delete_managed-IsCleared end tag = ground arith
delete_managed-IsCleared (field name value owners) tag = elim (Bool-cases (managed_tag name)) [
  | inl managed ↦ elim (Bool-cases (name == tag)) [
    | inl same ↦
        let role : is_role tag ≡ true =
          sym (managed_tag-is_role tag) ∙ ap managed_tag (sym (==→≡ name tag same)) ∙ managed in
        rw (managed, delete_managed-IsCleared owners tag, role) refl
    | inr miss ↦ rw (managed, miss) (delete_managed-IsCleared owners tag)
  ]
  | inr other ↦ elim (Bool-cases (name == tag)) [
    | inl same ↦
        let role : is_role tag ≡ false =
          sym (managed_tag-is_role tag) ∙ ap managed_tag (sym (==→≡ name tag same)) ∙ other in
        rw (other, same, role) refl
    | inr miss ↦ rw (other, miss) (delete_managed-IsCleared owners tag)
  ]
]

delete_managed-idempotent :
    (owners : Fields) → delete_managed (delete_managed owners) ≡ delete_managed owners
unfolding delete_managed
delete_managed-idempotent end = refl
delete_managed-idempotent (field tag value owners) = elim (Bool-cases (managed_tag tag)) [
  | inl managed ↦ rw managed (delete_managed-idempotent owners)
  | inr other ↦ rw (other, other) (ap (field tag value) (delete_managed-idempotent owners))
]

-- The keys that tagOwnersKey can answer.
abbrev pub IsOwnersKey : String → Type 0
IsOwnersKey key = (key ≡ "tagOwners") ⊎ (key ≡ "tagowners")

pub tag_owners_key-IsOwnersKey :
    (policy : Fields) (key : String)
    → tag_owners_key policy ≡ some (some key)
    → IsOwnersKey key × (present key policy ≡ true)
unfolding tag_owners_key
tag_owners_key-IsOwnersKey policy key h =
    chosen (present "tagOwners" policy) (present "tagowners" policy) refl refl h
  where
    chosen :
        (camel lower : Bool)
        → present "tagOwners" policy ≡ camel
        → present "tagowners" policy ≡ lower
        → (if camel && lower
            then none
            else if camel
            then some (some "tagOwners")
            else if lower
            then some (some "tagowners")
            else some none)
          ≡ some (some key)
        → IsOwnersKey key × (present key policy ≡ true)
    chosen true true c l e = cc (e)
    chosen true false c l e =
        let same : "tagOwners" ≡ key = cc (e) in
        (inl (sym same), subst (λ k. present k policy ≡ true) same c)
    chosen false true c l e =
        let same : "tagowners" ≡ key = cc (e) in
        (inr (sym same), subst (λ k. present k policy ≡ true) same l)
    chosen false false c l e = cc (e)

pub tag_owners_key-cong :
    (policy policy' : Fields)
    → present "tagOwners" policy' ≡ present "tagOwners" policy
    → present "tagowners" policy' ≡ present "tagowners" policy
    → tag_owners_key policy' ≡ tag_owners_key policy
unfolding tag_owners_key
tag_owners_key-cong policy policy' camel lower = rw (camel, lower) refl

present-set_field :
    (name key : String) (value : Json) (policy : Fields)
    → present key policy ≡ true
    → present name (set_field key value policy) ≡ present name policy
present-set_field name key value policy h = elim (Option-cases (lookup key policy)) [
  | inl missing ↦ cc (rw missing at h)
  | inr (old, found) ↦ elim (Bool-cases (key == name)) [
    | inl same ↦
        subst (λ n. present n (set_field key value policy) ≡ present n policy) (==→≡ key name same)
          (rw (lookup-set_field key value old policy found, found) refl)
    | inr other ↦ rw (lookup-set_field_other name key value policy (==-false key name other)) refl
  ]
]

-- The owners of a policy after the edit, of which a second edit takes nothing.
abbrev pub OwnersSettled : Fields → Option String → Type 0
OwnersSettled policy none = Unit
OwnersSettled policy (some key) =
    (owners : Fields) × (lookup key policy ≡ some (object owners))
    × (delete_managed owners ≡ owners)

-- What the edit makes of the owners: they are an object before and after, and are cleared.
abbrev pub OwnersCleared : Fields → Fields → Option String → Type 0
OwnersCleared policy policy' none = Unit
OwnersCleared policy policy' (some key) =
    (owners : Fields) × (owners' : Fields) × (lookup key policy ≡ some (object owners))
    × (lookup key policy' ≡ some (object owners'))
    × IsCleared owners owners'

pub record Unowned (policy policy' : Fields) : Type 0 where
  pub key : Option String
  pub before : tag_owners_key policy ≡ some key
  pub after : tag_owners_key policy' ≡ some key
  pub cleared : OwnersCleared policy policy' key
  pub settled : OwnersSettled policy' key
  pub others :
      (name : String)
      → name ≢ "tagOwners"
      → name ≢ "tagowners"
      → lookup name policy' ≡ lookup name policy

index-present :
    (key : String) (policy : Fields)
    → present key policy ≡ true
    → lookup key policy ≡ some (index key policy)
index-present key policy h = elim (Option-cases (lookup key policy)) [
  | inl missing ↦ cc (rw missing at h)
  | inr (value, found) ↦ rw found refl
]

clear_owners-Unowned :
    (key : String) (policy policy' : Fields)
    → tag_owners_key policy ≡ some (some key)
    → clear_owners key policy ≡ answer policy'
    → Unowned policy policy'
unfolding clear_owners
clear_owners-Unowned key policy policy' k h = elim (Option-cases (as_object (index key policy))) [
  | inl other ↦ absurd (failed-answer invalid_policy policy' (rw (clear_owners, other) at h))
  | inr (owners, shape) ↦
      let (name, there) = tag_owners_key-IsOwnersKey policy key k in
      let found = index-present key policy there ∙ ap some (as_object-some _ owners shape) in
      let set = lookup-set_field key (object (delete_managed owners)) _ policy found in
      subst (Unowned policy) (answer-injective _ policy' (rw (clear_owners, shape) at h)) (record {
        key = some key;
        before = k;
        after =
            tag_owners_key-cong policy _ (present-set_field _ key _ policy there)
              (present-set_field _ key _ policy there)
            ∙ k;
        cleared = (owners, delete_managed owners, found, set, delete_managed-IsCleared owners);
        settled = (delete_managed owners, set, delete_managed-idempotent owners);
        others = λ n camel lower. lookup-set_field_other n key _ policy (unlike name camel lower);
      })
]
  where
    unlike : {k n : String} → IsOwnersKey k → n ≢ "tagOwners" → n ≢ "tagowners" → k ≢ n
    unlike (inl e) camel lower p = camel (sym p ∙ e)
    unlike (inr e) camel lower p = lower (sym p ∙ e)

pub remove_owners-Unowned :
    (policy policy' : Fields) → remove_owners policy ≡ answer policy' → Unowned policy policy'
unfolding remove_owners
remove_owners-Unowned policy policy' h = elim (Option-cases (tag_owners_key policy)) [
  | inl both ↦ absurd (failed-answer invalid_policy policy' (rw (remove_owners, both) at h))
  | inr (none, k) ↦
      subst (Unowned policy) (answer-injective _ policy' (rw (remove_owners, k) at h)) (record {
        key = none;
        before = k;
        after = k;
        cleared = tt;
        settled = tt;
        others = λ n c l. refl;
      })
  | inr (some key, k) ↦ clear_owners-Unowned key policy policy' k (rw (remove_owners, k) at h)
]

pub remove_owners_unchanged :
    (policy : Fields) (key : Option String)
    → tag_owners_key policy ≡ some key
    → OwnersSettled policy key
    → remove_owners policy ≡ answer policy
unfolding remove_owners clear_owners
remove_owners_unchanged policy none k h = rw (remove_owners, k) refl
remove_owners_unchanged policy (some key) k (owners, found, same) =
    let at_key : index key policy ≡ object owners = rw found refl in
    let list : as_object (index key policy) ≡ some owners = ap as_object at_key in
    rw (remove_owners, k, clear_owners, list, same)
      (ap answer (set_field-same key (object owners) policy found))
