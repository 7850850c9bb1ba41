-- ===== src/Teardown/Policy/Removal.antt =====
-- What PrepareMeshPolicyRemoval makes of a policy, and what a second edit makes of that.
use herdr_distributed_mesh.Prelude.{
  string_eq, String, false, ◌≡◌, ◌≢◌, refl, sym, subst, ap, ◌∙◌, Option, none, some, ==-false,
  Bool-cases, inl, inr, is_some, if◌then◌else◌, All,
}
use herdr_distributed_mesh.Teardown.Failures.{
  failed, answer, ambiguous_mesh_policy, ◌>>=◌, >>=-eq-answer,
}
use herdr_distributed_mesh.Teardown.Json.{Fields}
use herdr_distributed_mesh.Teardown.Values.{lookup}
use herdr_distributed_mesh.Teardown.Policy.{
  tag_owners_key, keep_section, remove_owners, remove_mesh, fields_mention_mesh,
}
use herdr_distributed_mesh.Teardown.Policy.Rules.{answer-injective}
use herdr_distributed_mesh.Teardown.Policy.Mentions.{field_texts, IsSilent, field_texts-IsSilent}
use herdr_distributed_mesh.Teardown.Policy.Sections.{
  failed-answer, Cleaned, Settled, Swept, keep_section-Swept, keep_section_unchanged,
}
use herdr_distributed_mesh.Teardown.Policy.Owners.{
  IsOwnersKey, OwnersCleared, OwnersSettled, Unowned, remove_owners-Unowned,
  remove_owners_unchanged, tag_owners_key-cong, tag_owners_key-IsOwnersKey,
}

-- The mesh is gone from `result`, and nothing else of `policy` is.
pub record IsRemoved (policy result : Fields) : Type 0 where
  silent : All IsSilent (field_texts result)
  grants : Cleaned (lookup "grants" policy) (lookup "grants" result)
  acls : Cleaned (lookup "acls" policy) (lookup "acls" result)
  key : Option String
  owners_key : tag_owners_key policy ≡ some key
  owners : OwnersCleared policy result key
  others :
      (name : String)
      → name ≢ "tagOwners"
      → name ≢ "tagowners"
      → name ≢ "grants"
      → name ≢ "acls"
      → lookup name result ≡ lookup name policy

-- The three edits, and the test that follows them.
record Steps (policy result : Fields) : Type 0 where
  owned : Fields
  granted : Fields
  first : Unowned policy owned
  second : Swept "grants" owned granted
  third : Swept "acls" granted result
  silent : fields_mention_mesh result ≡ false

untold :
    (policy result : Fields)
    → (if fields_mention_mesh policy then failed ambiguous_mesh_policy else answer policy)
      ≡ answer result
    → (policy ≡ result) × (fields_mention_mesh policy ≡ false)
untold policy result h = elim (Bool-cases (fields_mention_mesh policy)) [
  | inl told ↦ absurd (failed-answer ambiguous_mesh_policy result (rw told at h))
  | inr silent ↦ (answer-injective policy result (rw silent at h), silent)
]

remove_mesh-Steps :
    (policy result : Fields) → remove_mesh policy ≡ answer result → Steps policy result
unfolding remove_mesh
remove_mesh-Steps policy result h =
    let (owned, o, h1) = >>=-eq-answer (remove_owners policy) _ h in
    let (granted, g, h2) = >>=-eq-answer (keep_section "grants" owned) _ h1 in
    let (listed, l, h3) = >>=-eq-answer (keep_section "acls" granted) _ h2 in
    let (same, silent) = untold listed result h3 in
    record {
      owned = owned;
      granted = granted;
      first = remove_owners-Unowned policy owned o;
      second = keep_section-Swept "grants" owned granted g;
      third = subst (Swept "acls" granted) same (keep_section-Swept "acls" granted listed l);
      silent = subst (λ p. fields_mention_mesh p ≡ false) same silent;
    }

unlike_key :
    {key : String} (name : String)
    → IsOwnersKey key
    → "tagOwners" ≢ name
    → "tagowners" ≢ name
    → name ≢ key
unlike_key name (inl e) camel lower p = camel (sym (p ∙ e))
unlike_key name (inr e) camel lower p = lower (sym (p ∙ e))

module _ {policy result : Fields} (s : Steps policy result) where
  -- Neither section is a key of owners, so the owners are what the first edit left.
  lookup-owners :
      (name : String) → "grants" ≢ name → "acls" ≢ name → lookup name result ≡ lookup name s.owned
  lookup-owners name g a = s.third.others name a ∙ s.second.others name g

  lookup-key : (key : String) → IsOwnersKey key → lookup key result ≡ lookup key s.owned
  lookup-key key k =
      lookup-owners key (unlike_key "grants" k (==-false _ _ refl) (==-false _ _ refl))
        (unlike_key "acls" k (==-false _ _ refl) (==-false _ _ refl))

  result_key : tag_owners_key result ≡ tag_owners_key s.owned
  result_key =
      tag_owners_key-cong s.owned result (ap is_some (lookup-key "tagOwners" (inl refl)))
        (ap is_some (lookup-key "tagowners" (inr refl)))

  owners_cleared :
      (key : Option String)
      → tag_owners_key policy ≡ some key
      → OwnersCleared policy s.owned key
      → OwnersCleared policy result key
  owners_cleared none k h = tt
  owners_cleared (some key) k (owners, owners', before, after, cleared) = (
    owners,
    owners',
    before,
    lookup-key key (tag_owners_key-IsOwnersKey policy key k).0 ∙ after,
    cleared,
  )

  owners_settled :
      (key : Option String)
      → tag_owners_key policy ≡ some key
      → OwnersSettled s.owned key
      → OwnersSettled result key
  owners_settled none k h = tt
  owners_settled (some key) k (owners, found, same) =
      (owners, lookup-key key (tag_owners_key-IsOwnersKey policy key k).0 ∙ found, same)

-- When the edit answers, no text or key of the result mentions the mesh. The owners of the three mesh
-- roles are gone, and every other tag has the owners that it had. Of `grants` and `acls` every rule
-- that stays is an object whose `src` and `dst` are arrays of selectors none of which names a role,
-- and every rule that goes has a side of one or more selectors that all name a role, and no side
-- that mixes the two; the rules that stay are in their order. Every other key has the value that it
-- had.
pub remove_mesh-IsRemoved :
    (policy result : Fields) → remove_mesh policy ≡ answer result → IsRemoved policy result
remove_mesh-IsRemoved policy result h =
    let s = remove_mesh-Steps policy result h in
    record {
      silent = field_texts-IsSilent result s.silent;
      grants =
          subst (λ before. Cleaned before (lookup "grants" result))
            (s.first.others "grants" (==-false _ _ refl) (==-false _ _ refl))
            (subst (Cleaned (lookup "grants" s.owned))
              (sym (s.third.others "grants" (==-false _ _ refl))) s.second.cleaned);
      acls =
          subst (λ before. Cleaned before (lookup "acls" result))
            (s.second.others "acls" (==-false _ _ refl)
              ∙ s.first.others "acls" (==-false _ _ refl) (==-false _ _ refl))
            s.third.cleaned;
      key = s.first.key;
      owners_key = s.first.before;
      owners = owners_cleared s s.first.key s.first.before s.first.cleared;
      others = λ name camel lower g a.
          lookup-owners s name (λ p. g (sym p)) (λ p. a (sym p)) ∙ s.first.others name camel lower;
    }

-- The edit of an edited policy answers it unchanged.
pub remove_mesh-idempotent :
    (policy result : Fields)
    → remove_mesh policy ≡ answer result
    → remove_mesh result ≡ answer result
unfolding remove_mesh ◌>>=◌
remove_mesh-idempotent policy result h =
    let s = remove_mesh-Steps policy result h in
    let owned =
      remove_owners_unchanged result s.first.key (result_key s ∙ s.first.after)
        (owners_settled s s.first.key s.first.before s.first.settled) in
    let granted =
      keep_section_unchanged "grants" result
        (subst Settled (sym (s.third.others "grants" (==-false _ _ refl))) s.second.settled) in
    let listed = keep_section_unchanged "acls" result s.third.settled in
    let silent = s.silent in rw (owned, granted, listed, silent) refl
