-- ===== src/Teardown/Policy/Sections.antt =====
-- The sections `grants` and `acls` of a policy when the rules of the mesh are taken out.
use herdr_distributed_mesh.Prelude.{
  string_eq, String, Bool, true, false, ◌≡◌, ◌≢◌, refl, sym, subst, ap, ◌∙◌, Option, none, some,
  List, [], ◌∷◌, Option-cases, inl, inr, if◌then◌else◌,
}
use herdr_distributed_mesh.Teardown.Failures.{
  failed, answer, Failure, invalid_policy, ◌>>=◌, >>=-eq-answer,
}
use herdr_distributed_mesh.Teardown.Json.{Json, array, Fields}
use herdr_distributed_mesh.Teardown.Values.{lookup, elements, items_of, as_list}
use herdr_distributed_mesh.Teardown.Values.Lookups.{
  elements-items_of, lookup-set_field, lookup-set_field_other, set_field-same,
}
use herdr_distributed_mesh.Teardown.Policy.{removes, keep_rules, keep_section}
use herdr_distributed_mesh.Teardown.Policy.Rules.{
  answer-injective, IsSifted, no_rules, stayed, gone, Fate, removes-Fate,
}

pub failed-answer {ℓ} : {A : Type ℓ} (e : Failure) (a : A) → failed e ≢ answer a
failed-answer e a h = cc

-- What keep_rules returns is the rules that stay, and it keeps all of those.
abbrev IsKept : List Json → List Json → Type 0
IsKept rules kept = IsSifted rules kept × (keep_rules kept ≡ answer kept)

keep_rules-IsKept : (rules kept : List Json) → keep_rules rules ≡ answer kept → IsKept rules kept
unfolding keep_rules ◌>>=◌
keep_rules-IsKept [] kept h = let e : [] ≡ kept = cc in rw (sym e) (no_rules, refl)
keep_rules-IsKept (rule ∷ rules) kept h =
    let (remove, decided, next) = >>=-eq-answer (removes rule) _ h in
    let (rest, found, last) = >>=-eq-answer (keep_rules rules) _ next in
    subst (IsKept (rule ∷ rules)) (answer-injective _ kept last) (
      joined remove rest decided (removes-Fate rule remove decided)
        (keep_rules-IsKept rules rest found))
  where
    joined :
        (remove : Bool) (rest : List Json)
        → removes rule ≡ answer remove
        → Fate remove rule
        → IsKept rules rest
        → IsKept (rule ∷ rules) (if remove then rest else rule ∷ rest)
    joined true rest decided fate (all, again) = (gone fate all, again)
    joined false rest decided fate (all, again) = (stayed fate all, rw (decided, again) refl)

-- What a section is after the edit: a list of its rules that stay, in their order.
abbrev pub Cleaned : Option Json → Option Json → Type 0
Cleaned none after = after ≡ none
Cleaned (some before) after =
    (rules : List Json) × (kept : List Json) × (as_list before ≡ some rules)
    × (after ≡ some (array (items_of kept)))
    × IsSifted rules kept

-- A section that the edit leaves alone.
abbrev pub Settled : Option Json → Type 0
Settled none = Unit
Settled (some value) =
    (rules : List Json) × (value ≡ array (items_of rules)) × (keep_rules rules ≡ answer rules)

pub record Swept (section : String) (policy policy' : Fields) : Type 0 where
  pub cleaned : Cleaned (lookup section policy) (lookup section policy')
  pub settled : Settled (lookup section policy')
  pub others : (name : String) → section ≢ name → lookup name policy' ≡ lookup name policy

pub keep_section-Swept :
    (section : String) (policy policy' : Fields)
    → keep_section section policy ≡ answer policy'
    → Swept section policy policy'
unfolding ◌>>=◌ keep_section
keep_section-Swept section policy policy' h = elim (Option-cases (lookup section policy)) [
  | inl missing ↦
      subst (Swept section policy)
        (answer-injective policy policy' (rw (keep_section, missing) at h))
        (record { cleaned = rw missing refl; settled = rw missing tt; others = λ name n. refl })
  | inr (entries, found) ↦ elim (Option-cases (as_list entries)) [
    | inl other ↦
        absurd (failed-answer invalid_policy policy' (rw (keep_section, found, other) at h))
    | inr (rules, list) ↦
        let (kept, done, last) =
          >>=-eq-answer (keep_rules rules) _ (rw (keep_section, found, list) at h) in
        let (all, again) = keep_rules-IsKept rules kept done in
        let set = lookup-set_field section (array (items_of kept)) entries policy found in
        subst (Swept section policy) (answer-injective _ policy' last) (record {
          cleaned = rw (found, set) (rules, kept, list, refl, all);
          settled = rw set (kept, refl, again);
          others = λ name n. lookup-set_field_other name section _ policy n;
        })
  ]
]

-- A section that is settled is not changed, whatever object it stands in.
pub keep_section_unchanged :
    (section : String) (policy : Fields)
    → Settled (lookup section policy)
    → keep_section section policy ≡ answer policy
unfolding keep_section ◌>>=◌
keep_section_unchanged section policy h = elim (Option-cases (lookup section policy)) [
  | inl missing ↦ rw (keep_section, missing) refl
  | inr (value, found) ↦
      let (rules, shape, all) : Settled (some value) = rw found at h in
      let kept : keep_rules (elements (items_of rules)) ≡ answer rules =
        rw (elements-items_of rules) all in
      rw (keep_section, found, shape, kept)
        (ap answer (set_field-same section _ policy (found ∙ ap some shape)))
]
