-- ===== src/Fleet/Imports.antt =====
-- ImportBindings (internal/state/store.go) and its conflicts.
use herdr_distributed_mesh.Prelude.{
  string_eq, Bool, true, false, ◌&&◌, ◌||◌, not, some, List, [], ◌∷◌, ◌++◌, ◌==◌, ◌≡◌, refl, ap,
  ◌∙◌, subst, if-rule, any, All, Bool-cases, inl, inr, ==→≡, ==-refl, arith,
}
use herdr_distributed_mesh.Errors.{
  Result, ok, err, ◌>>=◌, >>=-eq-ok, guard-eq-ok, identity_conflict, invalid, transaction,
  Result-cases,
}
use herdr_distributed_mesh.Journal.Store.{Binding}
use herdr_distributed_mesh.Fleet.{
  FleetDb, stable_of, binding_conflicts, insert_binding, bind, bind_all, import_body,
  import_bindings,
}
use herdr_distributed_mesh.Fleet.Steps.{bind_all-kept}

abbrev pub IsBound : List Binding → Binding → Type 0
IsBound bindings b = stable_of b.instance_id bindings ≡ some b.stable_id

-- A row that does not conflict has both columns of the binding or neither.
both_or_neither : (s i t : Bool) → ((s && not i || i && not s) || t) ≡ false → (s ≡ i) × (t ≡ false)
both_or_neither true true t h = (refl, h)
both_or_neither false false t h = (refl, h)
both_or_neither true false t h = cc (h)
both_or_neither false true t h = cc (h)

known-IsBound :
    (b : Binding) (bindings : List Binding)
    → any (binding_conflicts b) bindings ≡ false
    → any (λ o. o.stable_id == b.stable_id) bindings ≡ true
    → IsBound bindings b
unfolding stable_of
known-IsBound b [] free known = cc (known)
known-IsBound b (o ∷ bindings) free known =
    let (alike, rest) =
      both_or_neither (o.stable_id == b.stable_id) (o.instance_id == b.instance_id) _ free in
    elim (Bool-cases (o.instance_id == b.instance_id)) [
      | inl e ↦ rw e (ap some (==→≡ o.stable_id b.stable_id (alike ∙ e)))
      | inr n ↦ rw n (known-IsBound b bindings rest (rw (alike ∙ n) at known))
    ]

new-IsBound :
    (b : Binding) (bindings : List Binding)
    → any (binding_conflicts b) bindings ≡ false
    → any (λ o. o.stable_id == b.stable_id) bindings ≡ false
    → IsBound (bindings ++ b ∷ []) b
unfolding stable_of
new-IsBound b [] free new = rw (==-refl b.instance_id) refl
new-IsBound b (o ∷ bindings) free new =
    let (alike, rest) =
      both_or_neither (o.stable_id == b.stable_id) (o.instance_id == b.instance_id) _ free in
    elim (Bool-cases (o.instance_id == b.instance_id)) [
      | inl e ↦ cc (rw (alike ∙ e) at new)
      | inr n ↦ rw n (new-IsBound b bindings rest (rw (alike ∙ n) at new))
    ]

insert_binding-IsBound :
    (b : Binding) (bindings : List Binding)
    → any (binding_conflicts b) bindings ≡ false
    → IsBound (insert_binding b bindings) b
unfolding insert_binding
insert_binding-IsBound b bindings free =
    if-rule (λ after. IsBound after b) (any (λ o. o.stable_id == b.stable_id) bindings) _ _
      (known-IsBound b bindings free) (new-IsBound b bindings free)

bind-IsBound :
    (b : Binding) (bindings bindings' : List Binding)
    → bind b bindings ≡ ok bindings'
    → IsBound bindings' b
unfolding bind
bind-IsBound b bindings bindings' h =
    let (named, h1) = guard-eq-ok _ invalid _ h in
    let (free, h2) = guard-eq-ok _ identity_conflict _ h1 in
    let e : insert_binding b bindings ≡ bindings' = cc (h2) in
    subst (λ after. IsBound after b) e (insert_binding-IsBound b bindings (not-true _ free))
  where
    not-true : (b : Bool) → not b ≡ true → b ≡ false
    not-true b h = ground arith

bind_all-IsBound :
    (bs bindings bindings' : List Binding)
    → bind_all bs bindings ≡ ok bindings'
    → All (IsBound bindings') bs
unfolding bind_all
bind_all-IsBound [] bindings bindings' h = tt
bind_all-IsBound (b ∷ bs) bindings bindings' h =
    let (mid, first, rest) = >>=-eq-ok (bind b bindings) _ h in
    let (_, binds) = bind_all-kept bs mid bindings' rest in
    (
      binds b.instance_id b.stable_id (bind-IsBound b bindings mid first),
      bind_all-IsBound bs mid bindings' rest,
    )

-- What an import did.
abbrev pub AllOrNothing :
    {Rest : Type 0} → List Binding → FleetDb Rest → Result (Unit {0}) → FleetDb Rest → Type 0
AllOrNothing bs db (ok _) db' = All (IsBound db'.bindings) bs × (db'.latest ≡ db.latest)
AllOrNothing bs db (err e) db' = db' ≡ db

-- An import that succeeds binds every instance of its input to the machine that the input names, and
-- one that fails, as it does when the input has two machines for an instance, changes nothing.
pub import_bindings-AllOrNothing :
    {Rest : Type 0} (bs : List Binding) (db : FleetDb Rest)
    → AllOrNothing bs db (import_bindings bs db).0 (import_bindings bs db).1
unfolding import_bindings transaction import_body ◌>>=◌
import_bindings-AllOrNothing bs db = elim (Result-cases (bind_all bs db.bindings)) [
  | inl (bindings, e) ↦ rw e (bind_all-IsBound bs db.bindings bindings e, refl)
  | inr (why, e) ↦ rw e refl
]
