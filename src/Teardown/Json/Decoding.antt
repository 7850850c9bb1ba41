-- ===== src/Teardown/Json/Decoding.antt =====
-- The result of the decoder, step by step, and its fuel.
use herdr_distributed_mesh.Prelude.{
  string_eq, ℕ, zero, suc, ◌*◌, ◌<◌, ◌≡◌, ◌≢◌, refl, String, Bool, true, false, List, [], ◌∷◌, ltb,
  contains, length, arith,
}
use herdr_distributed_mesh.Teardown.Json.{
  Token, open_object, close_object, open_array, close_array, null_token, bool_token, number_token,
  text_token, Decoded, decoded, refused, starved, and_then, refused_if, max_depth, decode_value,
  decode_fields, decode_items, enough,
}

-- What holds of a result: `P` of a value and what is left after it, `S` when the fuel ran out.
abbrev pub Each {ℓ} : {A : Type ℓ} → Type 0 → (A → List Token → Type 0) → Decoded A → Type 0
Each S P (decoded a rest) = P a rest
Each S P refused = Unit
Each S P starved = S

pub refused_if-Each {ℓ} :
    {A : Type ℓ} (S : Type 0) (P : A → List Token → Type 0) (b : Bool) (m : Decoded A)
    → (b ≡ false → Each S P m)
    → Each S P (refused_if b m)
unfolding refused_if
refused_if-Each S P true m h = tt
refused_if-Each S P false m h = h refl

pub and_then-Each {ℓ κ} :
    {A : Type ℓ} {B : Type κ} (S : Type 0) (P : A → List Token → Type 0)
    (Q : B → List Token → Type 0) (m : Decoded A) (f : A → List Token → Decoded B)
    → Each S P m
    → ((a : A) (rest : List Token) → P a rest → Each S Q (f a rest))
    → Each S Q (and_then m f)
unfolding and_then
and_then-Each S P Q (decoded a rest) f h next = next a rest h
and_then-Each S P Q refused f h next = tt
and_then-Each S P Q starved f h next = h

-- The fuel did not run out, and what is left is shorter.
abbrev Shorter {ℓ} : {A : Type ℓ} → ℕ → A → List Token → Type 0
Shorter n _ rest = length rest < n

mutual
  unfolding decode_value

  decode_value-Each :
      (fuel depth : ℕ) (tokens : List Token)
      → 2 * length tokens < fuel
      → Each ⊥ (Shorter (length tokens)) (decode_value fuel depth tokens)
  decode_value-Each zero depth tokens h = absurd (omega (arith, h))
  decode_value-Each (suc fuel) depth [] h = tt
  decode_value-Each (suc fuel) depth (open_object ∷ tokens) h =
      refused_if-Each _ _ (ltb max_depth depth) _ (λ _.
        and_then-Each _ (Shorter (length tokens)) _ _ _
          (decode_fields-Each fuel (suc depth) [] tokens (omega (arith, h)))
          (λ fields rest k. omega (arith, k)))
  decode_value-Each (suc fuel) depth (open_array ∷ tokens) h =
      refused_if-Each _ _ (ltb max_depth depth) _ (λ _.
        and_then-Each _ (Shorter (length tokens)) _ _ _
          (decode_items-Each fuel (suc depth) tokens (omega (arith, h)))
          (λ fields rest k. omega (arith, k)))
  decode_value-Each (suc fuel) depth (close_object ∷ tokens) h = tt
  decode_value-Each (suc fuel) depth (close_array ∷ tokens) h = tt
  decode_value-Each (suc fuel) depth (null_token ∷ tokens) h =
      refused_if-Each _ _ (ltb max_depth depth) _ (λ _. omega arith)
  decode_value-Each (suc fuel) depth (bool_token b ∷ tokens) h =
      refused_if-Each _ _ (ltb max_depth depth) _ (λ _. omega arith)
  decode_value-Each (suc fuel) depth (number_token n ∷ tokens) h =
      refused_if-Each _ _ (ltb max_depth depth) _ (λ _. omega arith)
  decode_value-Each (suc fuel) depth (text_token s ∷ tokens) h =
      refused_if-Each _ _ (ltb max_depth depth) _ (λ _. omega arith)

  decode_fields-Each :
      (fuel depth : ℕ) (seen : List String) (tokens : List Token)
      → 2 * length tokens < fuel
      → Each ⊥ (Shorter (length tokens)) (decode_fields fuel depth seen tokens)
  decode_fields-Each zero depth seen tokens h = absurd (omega (arith, h))
  decode_fields-Each (suc fuel) depth seen (close_object ∷ tokens) h = omega arith
  decode_fields-Each (suc fuel) depth seen (text_token name ∷ tokens) h =
      refused_if-Each _ _ (contains seen name) _ (λ _.
        and_then-Each _ (Shorter (length tokens)) _ _ _
          (decode_value-Each fuel depth tokens (omega (arith, h)))
          (λ value rest k.
            and_then-Each _ (Shorter (length rest)) _ _ _
              (decode_fields-Each fuel depth (name ∷ seen) rest (omega (arith, h, k)))
              (λ fields rest' k'. omega (arith, k, k'))))
  decode_fields-Each (suc fuel) depth seen _ h = tt

  decode_items-Each :
      (fuel depth : ℕ) (tokens : List Token)
      → suc (2 * length tokens) < fuel
      → Each ⊥ (Shorter (length tokens)) (decode_items fuel depth tokens)
  decode_items-Each zero depth tokens h = absurd (omega (arith, h))
  decode_items-Each (suc fuel) depth [] h = tt
  decode_items-Each (suc fuel) depth (close_array ∷ tokens) h = omega arith
  decode_items-Each (suc fuel) depth (token ∷ tokens) h =
      and_then-Each _ (Shorter (suc (length tokens))) _ _ _
        (decode_value-Each fuel depth (token ∷ tokens) (omega (arith, h)))
        (λ value rest k.
          and_then-Each _ (Shorter (length rest)) _ _ _
            (decode_items-Each fuel depth rest (omega (arith, h, k)))
            (λ items rest' k'. omega (arith, k, k')))

Each-decided {ℓ} :
    {A : Type ℓ} (P : A → List Token → Type 0) (m : Decoded A) → Each ⊥ P m → m ≢ starved
Each-decided P (decoded a rest) h = λ e. absurd (cc e)
Each-decided P refused h = λ e. absurd (cc e)
Each-decided P starved h = λ e. h

-- decodeValue terminates: with twice as much fuel as there are tokens it never runs out, at any
-- depth.
pub decode_value-terminates :
    (tokens : List Token) (depth : ℕ) → decode_value (enough tokens) depth tokens ≢ starved
decode_value-terminates tokens depth =
    Each-decided _ _ (decode_value-Each (enough tokens) depth tokens (omega arith))
