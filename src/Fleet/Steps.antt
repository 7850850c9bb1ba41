-- ===== src/Fleet/Steps.antt =====
-- How a method changes the bindings.
use herdr_distributed_mesh.Prelude.{
  string_eq, String, Bool, true, false, ◌&&◌, ◌||◌, not, none, some, List, [], ◌∷◌, ◌++◌, ◌==◌, ◌≡◌,
  refl, if-rule, any, Bool-cases, inl, inr, subst, arith,
}
use herdr_distributed_mesh.Errors.{ok, >>=-eq-ok, guard-eq-ok, identity_conflict, invalid}
use herdr_distributed_mesh.Table.{find_row, Distinct}
use herdr_distributed_mesh.Table.Laws.{Distinct-append}
use herdr_distributed_mesh.Journal.Store.{Binding}
use herdr_distributed_mesh.Fleet.{
  stable_key, instance_key, stable_of, binding_conflicts, insert_binding, bind, bind_all,
}

-- The bindings are one to one.
pub record IsOneToOne (bindings : List Binding) : Type 0 where
  pub stable : Distinct stable_key bindings
  pub instance_ids : Distinct instance_key bindings

-- Every binding that was there is there.
abbrev pub Binds : List Binding → List Binding → Type 0
Binds bindings bindings' =
    (id stable : String)
    → stable_of id bindings ≡ some stable
    → stable_of id bindings' ≡ some stable

stable_of-append :
    (id stable : String) (bindings : List Binding) (b : Binding)
    → stable_of id bindings ≡ some stable
    → stable_of id (bindings ++ b ∷ []) ≡ some stable
unfolding stable_of
stable_of-append id stable [] b h = cc (h)
stable_of-append id stable (o ∷ bindings) b h = elim (Bool-cases (o.instance_id == id)) [
  | inl e ↦ rw e (rw e at h)
  | inr n ↦ rw n (stable_of-append id stable bindings b (rw n at h))
]

any-none :
    (key : Binding → String) (id : String) (bindings : List Binding)
    → any (λ o. key o == id) bindings ≡ false
    → find_row key id bindings ≡ none
unfolding find_row
any-none key id [] h = refl
any-none key id (o ∷ bindings) h =
    let (first, rest) = neither (key o == id) _ h in rw first (any-none key id bindings rest)
  where
    neither : (a b : Bool) → (a || b) ≡ false → (a ≡ false) × (b ≡ false)
    neither true b e = cc (e)
    neither false b e = (refl, e)

-- An instance without a conflict whose machine is not bound is not bound either.
instance-new :
    (b : Binding) (bindings : List Binding)
    → any (λ o. o.stable_id == b.stable_id) bindings ≡ false
    → any (binding_conflicts b) bindings ≡ false
    → find_row instance_key b.instance_id bindings ≡ none
unfolding find_row
instance-new b [] h k = refl
instance-new b (o ∷ bindings) h k =
    let (first, rest, conflicts) =
      apart (o.stable_id == b.stable_id) (o.instance_id == b.instance_id) _ _ h k in
    rw first (instance-new b bindings rest conflicts)
  where
    apart :
        (s i r t : Bool)
        → (s || r) ≡ false
        → ((s && not i || i && not s) || t) ≡ false
        → (i ≡ false) × (r ≡ false) × (t ≡ false)
    apart true i r t e f = cc (e)
    apart false true r t e f = cc (f)
    apart false false r t e f = (refl, e, f)

insert_binding-IsOneToOne :
    (b : Binding) (bindings : List Binding)
    → any (binding_conflicts b) bindings ≡ false
    → IsOneToOne bindings
    → IsOneToOne (insert_binding b bindings)
unfolding insert_binding
insert_binding-IsOneToOne b bindings free one =
    if-rule IsOneToOne (any (λ o. o.stable_id == b.stable_id) bindings) _ _ (λ known. one)
      (λ new. record {
        stable =
            Distinct-append stable_key bindings b one.stable (any-none stable_key _ bindings new);
        instance_ids =
            Distinct-append instance_key bindings b one.instance_ids
              (instance-new b bindings new free);
      })

insert_binding-Binds :
    (b : Binding) (bindings : List Binding) → Binds bindings (insert_binding b bindings)
unfolding insert_binding
insert_binding-Binds b bindings =
    if-rule (Binds bindings) (any (λ o. o.stable_id == b.stable_id) bindings) _ _
      (λ known id stable h. h) (λ new id stable h. stable_of-append id stable bindings b h)

pub bind-kept :
    (b : Binding) (bindings bindings' : List Binding)
    → bind b bindings ≡ ok bindings'
    → (IsOneToOne bindings → IsOneToOne bindings') × Binds bindings bindings'
unfolding bind
bind-kept b bindings bindings' h =
    let (named, h1) = guard-eq-ok _ invalid _ h in
    let (free, h2) = guard-eq-ok _ identity_conflict _ h1 in
    let e : insert_binding b bindings ≡ bindings' = cc (h2) in
    (
      λ one. subst IsOneToOne e (insert_binding-IsOneToOne b bindings (not-true _ free) one),
      subst (Binds bindings) e (insert_binding-Binds b bindings),
    )
  where
    not-true : (b : Bool) → not b ≡ true → b ≡ false
    not-true b h = ground arith

pub bind_all-kept :
    (bs bindings bindings' : List Binding)
    → bind_all bs bindings ≡ ok bindings'
    → (IsOneToOne bindings → IsOneToOne bindings') × Binds bindings bindings'
unfolding bind_all
bind_all-kept [] bindings bindings' h =
    let e : bindings ≡ bindings' = cc (h) in
    (λ one. subst IsOneToOne e one, subst (Binds bindings) e (λ id stable k. k))
bind_all-kept (b ∷ bs) bindings bindings' h =
    let (mid, first, rest) = >>=-eq-ok (bind b bindings) _ h in
    let (one, binds) = bind-kept b bindings mid first in
    let (one', binds') = bind_all-kept bs mid bindings' rest in
    (λ o. one' (one o), λ id stable k. binds' id stable (binds id stable k))
