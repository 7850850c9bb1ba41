-- ===== src/Teardown/Failures.antt =====
-- The errors of internal/deinitnet, and computations that may fail with one.
use herdr_distributed_mesh.Prelude.{◌≡◌, refl, ℕ, Bool, true, false}

-- `invalid_argument` stands for the errors with a text of their own about an argument, and
-- `unread` for those about a response.
pub data Failure : Type 0 where
  device_absent outcome_unknown policy_conflict invalid_policy plan_used client_closed : Failure
  policy_in_use ambiguous_mesh_policy cancelled invalid_argument unread : Failure
  http_error : ℕ → Failure

pub data Answer {ℓ} (A : Type ℓ) : Type ℓ where
  failed : Failure → Answer A
  answer : A → Answer A

unfoldable pub demand : Bool → Failure → Answer (Unit {0})
demand true e = answer tt
demand false e = failed e

infixl 5 ◌>>=◌ ◌>>◌
unfoldable pub ◌>>=◌ {ℓ κ} : {A : Type ℓ} {B : Type κ} → Answer A → (A → Answer B) → Answer B
unfolding demand
answer value >>= next = next value
failed why >>= next = failed why

abbrev pub ◌>>◌ {ℓ} : {B : Type ℓ} → Answer (Unit {0}) → Answer B → Answer B
first >> rest = first >>= (λ _. rest)

-- Inversion of a bind that answered.
pub >>=-eq-answer {ℓ κ} :
    {A : Type ℓ} {B : Type κ} (first : Answer A) (next : A → Answer B) {final : B}
    → (first >>= next) ≡ answer final
    → (mid : A) × (first ≡ answer mid) × (next mid ≡ answer final)
unfolding ◌>>=◌
>>=-eq-answer (answer mid) next h = (mid, refl, h)
>>=-eq-answer (failed why) next h = cc
