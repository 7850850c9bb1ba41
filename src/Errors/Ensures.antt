-- ===== src/Errors/Ensures.antt =====
-- What a computation guarantees of the value that it returns, with a rule for each way to build one.
use herdr_distributed_mesh.Prelude.{◌≡◌, refl, Bool, true, false, if◌then◌else◌}
use herdr_distributed_mesh.Errors.{Result, ok, err, Error, guard, ◌>>=◌, ◌>>◌}

-- If `m` returns, its value satisfies `P`.
pub record Ensures {ℓ κ} {A : Type ℓ} (m : Result A) (P : A → Type κ) : Type (ℓ ⊔ κ) where
  pub at : (a : A) → m ≡ ok a → P a

module _ {ℓ κ} {A : Type ℓ} {P : A → Type κ} where
  pub Ensures-ok : (a : A) → P a → Ensures (ok a) P
  Ensures-ok a p = record { at = λ b h. let e : a ≡ b = cc in subst_path e p }
    where
      subst_path : {a b : A} → a ≡ b → P a → P b
      subst_path e p = rw e at p

  pub Ensures-err : (e : Error) → Ensures (err e) P
  Ensures-err e = record { at = λ b h. cc }

  pub Ensures-guard :
      (t : Bool) (e : Error) (k : Result A) → (t ≡ true → Ensures k P) → Ensures (guard t e >> k) P
  unfolding ◌>>=◌
  Ensures-guard true e k h = h refl
  Ensures-guard false e k h = Ensures-err e

  pub Ensures-if :
      (b : Bool) (m n : Result A)
      → (b ≡ true → Ensures m P)
      → (b ≡ false → Ensures n P)
      → Ensures (if b then m else n) P
  Ensures-if true m n h k = h refl
  Ensures-if false m n h k = k refl

  pub Ensures-bind {μ} :
      {B : Type μ} (m : Result B) (f : B → Result A)
      → ((b : B) → m ≡ ok b → Ensures (f b) P)
      → Ensures (m >>= f) P
  unfolding ◌>>=◌
  Ensures-bind (ok b) f h = h b refl
  Ensures-bind (err e) f h = Ensures-err e

pub ruleset ensures_rules = (Ensures-ok, Ensures-err, Ensures-guard, Ensures-if, Ensures-bind)
