-- ===== src/Prelude/Equality.antt =====
-- Equality of values as an interface: `==` on numbers and texts, `proto.Equal` on messages.
use Prim.Native.Nat.{ℕ}
use Prim.Native.String.{String}
use mathlib.Core.Path.{◌≡◌, refl, ap, sym, ◌∙◌}
use mathlib.Core.Logic.{◌↔◌, ◌≢◌}
use mathlib.Core.Bool.{Bool, true, false, ◌||◌, false≢true}
use mathlib.Core.Option.{Option, none, some}
use mathlib.Core.List.{List, [], ◌∷◌}
use text.Mathlib.Text.{◌==◌ as str_beq}
use text.Mathlib.TextEquality.{eq_iff}
use herdr_distributed_mesh.Prelude.Tests.{nat_beq, nat_beq_iff}

pub record Eq {ℓ} (A : Type ℓ) : Type ℓ where
  pub beq : A → A → Bool
  pub reflects : (a b : A) → (beq a b ≡ true) ↔ (a ≡ b)

abbrev negate : Bool → Bool
negate true = false
negate false = true

infix 50 ◌==◌ ◌!=◌
abbrev pub ◌==◌ {ℓ} : {T : Type ℓ} ⦃e : Eq T⦄ → T → T → Bool
◌==◌ ⦃e⦄ left right = e.beq left right

abbrev pub ◌!=◌ {ℓ} : {T : Type ℓ} ⦃e : Eq T⦄ → T → T → Bool
left != right = negate (left == right)

instance abbrev pub string_eq : Eq String
string_eq = record { beq = str_beq; reflects = eq_iff }

instance abbrev pub nat_eq : Eq ℕ
nat_eq = record { beq = nat_beq; reflects = nat_beq_iff }

abbrev pub decided {ℓ} : {P : Type ℓ} → Dec P → Bool
decided (yes p) = true
decided (no n) = false

pub decided_iff {ℓ} : {P : Type ℓ} (d : Dec P) → (decided d ≡ true) ↔ P
decided_iff (yes p) = (λ _. p, λ _. refl)
decided_iff (no n) = (λ e. absurd (false≢true e), λ p. absurd (n p))

-- The interface of a type whose equality is decided.
abbrev pub eq_by {ℓ} : {A : Type ℓ} → Discrete A → Eq A
eq_by d = record { beq = λ a b. decided (d a b); reflects = λ a b. decided_iff (d a b) }

-- proto.Equal on two pointers, of which either may be nil.
abbrev pub option_beq {ℓ} : {A : Type ℓ} → (A → A → Bool) → Option A → Option A → Bool
option_beq f none none = true
option_beq f (some a) (some b) = f a b
option_beq f _ _ = false

pub option_beq_iff {ℓ} :
    {A : Type ℓ} (e : Eq A) (a b : Option A) → (option_beq e.beq a b ≡ true) ↔ (a ≡ b)
option_beq_iff e none none = (λ _. refl, λ _. refl)
option_beq_iff e none (some b) = (λ h. cc, λ h. cc)
option_beq_iff e (some a) none = (λ h. cc, λ h. cc)
option_beq_iff e (some a) (some b) =
    (λ h. ap some ((e.reflects a b).0 h), λ h. (e.reflects a b).1 (cc))

instance abbrev pub option_eq {ℓ} : {A : Type ℓ} ⦃e : Eq A⦄ → Eq (Option A)
option_eq ⦃e⦄ = record { beq = option_beq e.beq; reflects = option_beq_iff e }

dec_of : (b : Bool) {P : Type 0} → (b ≡ true → P) → (P → b ≡ true) → Dec P
dec_of true f g = yes (f refl)
dec_of false f g = no (λ p. false≢true (g p))

unfoldable pub String_discrete : Discrete String
unfolding dec_of
String_discrete s t = dec_of (str_beq s t) (eq_iff s t).0 (eq_iff s t).1

-- Equality of values as reasoning uses it: the instance is the section's parameter.
module _ {ℓ} {A : Type ℓ} ⦃e : Eq A⦄ where
  pub ==-refl : (a : A) → (a == a) ≡ true
  ==-refl a = (e.reflects a a).1 refl

  pub ==→≡ : (a b : A) → (a == b) ≡ true → a ≡ b
  ==→≡ a b = (e.reflects a b).0

  pub ==-false : (a b : A) → (a == b) ≡ false → a ≢ b
  ==-false a b h p = false≢true (sym h ∙ (e.reflects a b).1 p)

  -- slices.Contains
  abbrev pub contains : List A → A → Bool
  contains [] a = false
  contains (x ∷ xs) a = x == a || contains xs a
