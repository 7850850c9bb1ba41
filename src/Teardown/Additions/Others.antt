-- ===== src/Teardown/Additions/Others.antt =====
-- The keys of a policy to which the set-up adds nothing (the first loops of supportedAdditions).
use herdr_distributed_mesh.Prelude.{
  string_eq, String, true, false, ◌||◌, ◌==◌, ==→≡, ◌≡◌, subst, ◌⊎◌, inl, inr, some, Bool-cases,
  Option-cases, &&-split,
}
use herdr_distributed_mesh.Teardown.Json.{Json, Fields, end, field}
use herdr_distributed_mesh.Teardown.Values.{lookup, index, present, deep_equal}
use herdr_distributed_mesh.Teardown.Additions.{is_extended, others_kept, no_others_added}
use herdr_distributed_mesh.Teardown.Additions.Tags.{SameAt}

-- A section to which the set-up adds.
abbrev pub IsExtended : String → Type 0
IsExtended key = (key ≡ "tagOwners") ⊎ ((key ≡ "tagowners") ⊎ (key ≡ "grants"))

is_extended-IsExtended : (key : String) → is_extended key ≡ true → IsExtended key
is_extended-IsExtended key h = elim (Bool-cases (key == "tagOwners")) [
  | inl a ↦ inl (==→≡ _ _ a)
  | inr a' ↦ elim (Bool-cases (key == "tagowners")) [
    | inl b ↦ inr (inl (==→≡ _ _ b))
    | inr b' ↦ elim (Bool-cases (key == "grants")) [
      | inl c ↦ inr (inr (==→≡ _ _ c))
      | inr c' ↦ cc (rw (a', b', c') at h)
    ]
  ]
]

others_kept-at :
    (before applied : Fields) (name : String) (value : Json)
    → others_kept before applied ≡ true
    → lookup name before ≡ some value
    → ((is_extended name || deep_equal value (index name applied)) ≡ true)
      × (present name applied ≡ true)
unfolding others_kept lookup
others_kept-at end applied name value h e = cc (e)
others_kept-at (field key v before) applied name value h e =
    let (early, rest) = &&-split _ _ h in
    let (same, there) = &&-split _ _ early in
    elim (Bool-cases (key == name)) [
      | inl hit ↦
          let this : some v ≡ some value = rw hit at e in
          let k = ==→≡ key name hit in
          let v' : v ≡ value = cc (this) in
          (
            subst (λ n. (is_extended n || deep_equal value (index n applied)) ≡ true) k
                (subst (λ w. (is_extended key || deep_equal w (index key applied)) ≡ true) v' same),
            subst (λ n. present n applied ≡ true) k there,
          )
      | inr miss ↦ others_kept-at before applied name value rest (rw miss at e)
    ]

no_others_added-at :
    (before applied : Fields) (name : String) (value : Json)
    → no_others_added before applied ≡ true
    → lookup name applied ≡ some value
    → (present name before || is_extended name) ≡ true
unfolding no_others_added lookup
no_others_added-at before end name value h e = cc (e)
no_others_added-at before (field key v applied) name value h e =
    let (first, rest) = &&-split _ _ h in
    elim (Bool-cases (key == name)) [
      | inl hit ↦ subst (λ n. (present n before || is_extended n) ≡ true) (==→≡ key name hit) first
      | inr miss ↦ no_others_added-at before applied name value rest (rw miss at e)
    ]

-- Every key outside those sections is in both policies or in neither, with deeply equal values.
abbrev pub AreOthersKept : Fields → Fields → Type 0
AreOthersKept before applied =
    (name : String) → IsExtended name ⊎ SameAt (lookup name before) (lookup name applied)

pub others-AreOthersKept :
    (before applied : Fields)
    → others_kept before applied ≡ true
    → no_others_added before applied ≡ true
    → AreOthersKept before applied
others-AreOthersKept before applied k n name = elim (Bool-cases (is_extended name)) [
  | inl extended ↦ inl (is_extended-IsExtended name extended)
  | inr other ↦ inr (at_other other)
]
  where
    at_other : is_extended name ≡ false → SameAt (lookup name before) (lookup name applied)
    at_other other = elim (Option-cases (lookup name before)) [
      | inr (value, e) ↦
          let (same, there) = others_kept-at before applied name value k e in
          elim (Option-cases (lookup name applied)) [
            | inl gone ↦ cc (rw gone at there)
            | inr (value', e') ↦
                let equal : deep_equal value value' ≡ true = rw (other, e') at same in
                rw (e, e') equal
          ]
      | inl missing ↦ elim (Option-cases (lookup name applied)) [
        | inl missing' ↦ rw (missing, missing') tt
        | inr (value', e') ↦
            let here = no_others_added-at before applied name value' n e' in
            cc (rw (missing, other) at here)
      ]
    ]
