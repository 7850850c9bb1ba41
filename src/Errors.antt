-- ===== src/Errors.antt =====
-- The errors of src/internal/state that its callers tell apart, and transactions.
pub mod Ensures
use herdr_distributed_mesh.Prelude.{◌≡◌, refl, Bool, true, false, ◌⊎◌, inl, inr}

-- `invalid` stands for every error with a text of its own and no name.
pub data Error : Type 0 where
  command_not_found command_conflict command_capacity identity_conflict lifecycle_unresolved : Error
  named_agent_exists named_agent_ambiguous invalid : Error
  project_not_found project_conflict project_capacity : Error

pub data Result {ℓ} (A : Type ℓ) : Type ℓ where
  err : Error → Result A
  ok : A → Result A

-- An early return of an error, unless the test holds.
unfoldable pub guard : Bool → Error → Result (Unit {0})
guard true e = ok tt
guard false e = err e

-- Whoever opens `>>=` opens `guard` too.
infixl 5 ◌>>=◌ ◌>>◌
unfoldable pub ◌>>=◌ {ℓ κ} : {A : Type ℓ} {B : Type κ} → Result A → (A → Result B) → Result B
unfolding guard
ok value >>= next = next value
err why >>= next = err why

abbrev pub ◌>>◌ {ℓ} : {B : Type ℓ} → Result (Unit {0}) → Result B → Result B
first >> rest = first >>= (λ _. rest)

-- Store.transaction: the body's writes are committed together, and an error rolls all of them back.
abbrev pub settle {ℓ κ} : {A : Type ℓ} {Db : Type κ} → Db → Result (A × Db) → Result A × Db
settle db (ok (a, db')) = (ok a, db')
settle db (err e) = (err e, db)

unfoldable pub transaction {ℓ κ} :
    {A : Type ℓ} {Db : Type κ} → (Db → Result (A × Db)) → Db → Result A × Db
transaction body db = settle db (body db)

-- A transaction that returned committed what its body wrote.
pub transaction-eq-ok {ℓ κ} :
    {A : Type ℓ} {Db : Type κ} (body : Db → Result (A × Db)) (db : Db) {a : A}
    → (transaction body db).0 ≡ ok a
    → body db ≡ ok (a, (transaction body db).1)
unfolding transaction
transaction-eq-ok body db {a} h = settled (body db) h
  where
    settled : (m : Result _) → (settle db m).0 ≡ ok a → m ≡ ok (a, (settle db m).1)
    settled (ok (b, db')) e = let same : b ≡ a = cc (e) in rw same refl
    settled (err e) f = cc (f)

-- Inversion of a bind that returned.
pub >>=-eq-ok {ℓ κ} :
    {A : Type ℓ} {B : Type κ} (first : Result A) (next : A → Result B) {final : B}
    → (first >>= next) ≡ ok final
    → (mid : A) × (first ≡ ok mid) × (next mid ≡ ok final)
unfolding ◌>>=◌
>>=-eq-ok (ok mid) next h = (mid, refl, h)
>>=-eq-ok (err why) next h = cc

pub guard-eq-ok {ℓ} :
    {B : Type ℓ} (t : Bool) (e : Error) (k : Result B) {b : B}
    → (guard t e >> k) ≡ ok b
    → (t ≡ true) × (k ≡ ok b)
unfolding ◌>>=◌
guard-eq-ok true e k h = (refl, h)
guard-eq-ok false e k h = cc

pub Result-cases {ℓ} :
    {A : Type ℓ} (m : Result A) → ((a : A) × (m ≡ ok a)) ⊎ ((e : Error) × (m ≡ err e))
Result-cases (ok a) = inl (a, refl)
Result-cases (err e) = inr (e, refl)
