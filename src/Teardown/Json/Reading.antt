-- ===== src/Teardown/Json/Reading.antt =====
-- What the decoder accepts, against the printing of values.
use herdr_distributed_mesh.Prelude.{
  string_eq, ℕ, zero, suc, ◌≡◌, subst, refl, ap, ◌∙◌, String, Bool, true, false, not, List, [], ◌∷◌,
  ltb, leb, contains, arith, &&-join,
}
use herdr_distributed_mesh.Teardown.Json.{
  Json, Token, open_object, close_object, open_array, close_array, null_token, bool_token,
  number_token, text_token, decoded, max_depth, decode_value, decode_fields, decode_items, enough,
  print_value, print_items, print_fields, acceptable, acceptable_items, acceptable_fields,
}
use herdr_distributed_mesh.Teardown.Json.Decoding.{Each, refused_if-Each, and_then-Each}

-- What was read is the printed value, and the value is acceptable.
abbrev Accepted {ℓ} :
    {A : Type ℓ} → (A → List Token → List Token) → (A → Bool) → List Token → A → List Token → Type 0
Accepted print ok tokens a rest = (tokens ≡ print a rest) × (ok a ≡ true)

not_ltb : (m n : ℕ) → ltb m n ≡ false → leb n m ≡ true
not_ltb m n h = ground arith

mutual
  unfolding decode_value print_value acceptable

  decode_value-reads :
      (fuel depth : ℕ) (tokens : List Token)
      → Each Unit (Accepted print_value (acceptable depth) tokens) (decode_value fuel depth tokens)
  decode_value-reads zero depth tokens = tt
  decode_value-reads (suc fuel) depth [] = tt
  decode_value-reads (suc fuel) depth (open_object ∷ tokens) =
      refused_if-Each _ _ (ltb max_depth depth) _ (λ shallow.
        and_then-Each _ (Accepted print_fields (acceptable_fields (suc depth) []) tokens) _ _ _
          (decode_fields-reads fuel (suc depth) [] tokens)
          (λ fields rest (e, ok).
            (ap (open_object ∷◌) e, &&-join _ _ (not_ltb max_depth depth shallow) ok)))
  decode_value-reads (suc fuel) depth (open_array ∷ tokens) =
      refused_if-Each _ _ (ltb max_depth depth) _ (λ shallow.
        and_then-Each _ (Accepted print_items (acceptable_items (suc depth)) tokens) _ _ _
          (decode_items-reads fuel (suc depth) tokens)
          (λ items rest (e, ok).
            (ap (open_array ∷◌) e, &&-join _ _ (not_ltb max_depth depth shallow) ok)))
  decode_value-reads (suc fuel) depth (close_object ∷ tokens) = tt
  decode_value-reads (suc fuel) depth (close_array ∷ tokens) = tt
  decode_value-reads (suc fuel) depth (null_token ∷ tokens) =
      refused_if-Each _ _ (ltb max_depth depth) _
        (λ shallow. (refl, not_ltb max_depth depth shallow))
  decode_value-reads (suc fuel) depth (bool_token b ∷ tokens) =
      refused_if-Each _ _ (ltb max_depth depth) _
        (λ shallow. (refl, not_ltb max_depth depth shallow))
  decode_value-reads (suc fuel) depth (number_token n ∷ tokens) =
      refused_if-Each _ _ (ltb max_depth depth) _
        (λ shallow. (refl, not_ltb max_depth depth shallow))
  decode_value-reads (suc fuel) depth (text_token s ∷ tokens) =
      refused_if-Each _ _ (ltb max_depth depth) _
        (λ shallow. (refl, not_ltb max_depth depth shallow))

  decode_fields-reads :
      (fuel depth : ℕ) (seen : List String) (tokens : List Token)
      → Each Unit
          (Accepted print_fields (acceptable_fields depth seen) tokens)
          (decode_fields fuel depth seen tokens)
  decode_fields-reads zero depth seen tokens = tt
  decode_fields-reads (suc fuel) depth seen (close_object ∷ tokens) = (refl, refl)
  decode_fields-reads (suc fuel) depth seen (text_token name ∷ tokens) =
      refused_if-Each _ _ (contains seen name) _ (λ new.
        and_then-Each _ (Accepted print_value (acceptable depth) tokens) _ _ _
          (decode_value-reads fuel depth tokens)
          (λ value rest (e, ok).
            and_then-Each _ (Accepted print_fields (acceptable_fields depth (name ∷ seen)) rest) _ _
              _ (decode_fields-reads fuel depth (name ∷ seen) rest)
              (λ fields rest' (e', ok'). (
                ap (text_token name ∷◌) (e ∙ ap (print_value value) e'),
                &&-join _ _ (&&-join _ _ (ap not new) ok) ok',
              ))))
  decode_fields-reads (suc fuel) depth seen _ = tt

  decode_items-reads :
      (fuel depth : ℕ) (tokens : List Token)
      → Each Unit
          (Accepted print_items (acceptable_items depth) tokens)
          (decode_items fuel depth tokens)
  decode_items-reads zero depth tokens = tt
  decode_items-reads (suc fuel) depth [] = tt
  decode_items-reads (suc fuel) depth (close_array ∷ tokens) = (refl, refl)
  decode_items-reads (suc fuel) depth (token ∷ tokens) =
      and_then-Each _ (Accepted print_value (acceptable depth) (token ∷ tokens)) _ _ _
        (decode_value-reads fuel depth (token ∷ tokens))
        (λ value rest (e, ok).
          and_then-Each _ (Accepted print_items (acceptable_items depth) rest) _ _ _
            (decode_items-reads fuel depth rest)
            (λ items rest' (e', ok'). (e ∙ ap (print_value value) e', &&-join _ _ ok ok')))

-- What decodeValue returns is exactly what stood in the tokens: they begin with the printed value,
-- the tokens that are left follow it, and the value has no repeated key and no value deeper than
-- 100.
pub decode_value-exact :
    (tokens rest : List Token) (value : Json)
    → decode_value (enough tokens) 0 tokens ≡ decoded value rest
    → (tokens ≡ print_value value rest) × (acceptable 0 value ≡ true)
decode_value-exact tokens rest value h =
    subst (Each Unit (Accepted print_value (acceptable 0) tokens)) h
      (decode_value-reads (enough tokens) 0 tokens)
