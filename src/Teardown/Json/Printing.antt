-- ===== src/Teardown/Json/Printing.antt =====
-- The decoder on what is printed.
use herdr_distributed_mesh.Prelude.{
  string_eq, ℕ, zero, suc, ◌*◌, ◌<◌, ◌≡◌, refl, ◌∙◌, String, Bool, true, false, not, List, [], ◌∷◌,
  ltb, leb, length, arith, &&-split,
}
use herdr_distributed_mesh.Teardown.Json.{
  Json, null, bool, number, text, array, object, Items, nil, item, Fields, end, field, Token,
  Decoded, decoded, and_then, refused_if, max_depth, decode_value, decode_fields, decode_items,
  enough, print_value, print_items, print_fields, acceptable, acceptable_items, acceptable_fields,
}

-- The value with a suffix is longer than the suffix.
mutual
  unfolding print_value

  print_value-longer :
      (value : Json) (rest : List Token) → length rest < length (print_value value rest)
  print_value-longer null rest = omega arith
  print_value-longer (bool b) rest = omega arith
  print_value-longer (number n) rest = omega arith
  print_value-longer (text s) rest = omega arith
  print_value-longer (array items) rest = omega (arith, print_items-longer items rest)
  print_value-longer (object fields) rest = omega (arith, print_fields-longer fields rest)

  print_items-longer :
      (items : Items) (rest : List Token) → length rest < length (print_items items rest)
  print_items-longer nil rest = omega arith
  print_items-longer (item value items) rest =
      omega
        (arith, print_value-longer value (print_items items rest), print_items-longer items rest)

  print_fields-longer :
      (fields : Fields) (rest : List Token) → length rest < length (print_fields fields rest)
  print_fields-longer end rest = omega arith
  print_fields-longer (field name value fields) rest =
      omega (
        arith,
        print_value-longer value (print_fields fields rest),
        print_fields-longer fields rest,
      )

refused_if-false {ℓ} :
    {A : Type ℓ} (b : Bool) (m n : Decoded A) → b ≡ false → m ≡ n → refused_if b m ≡ n
unfolding refused_if
refused_if-false b m n h e = rw h e

and_then-decoded {ℓ κ} :
    {A : Type ℓ} {B : Type κ} (m : Decoded A) (a : A) (rest : List Token)
    (f : A → List Token → Decoded B) (n : Decoded B)
    → m ≡ decoded a rest
    → f a rest ≡ n
    → and_then m f ≡ n
unfolding and_then
and_then-decoded m a rest f n h e = rw h e

leb-not : (m n : ℕ) → leb n m ≡ true → ltb m n ≡ false
leb-not m n h = ground arith

not-true : (b : Bool) → not b ≡ true → b ≡ false
not-true b h = ground arith

-- A printed value does not begin with the bracket that ends an array.
decode_items-print_value :
    (value : Json) (fuel depth : ℕ) (rest : List Token)
    → decode_items (suc fuel) depth (print_value value rest)
      ≡ and_then (decode_value fuel depth (print_value value rest)) (λ first rest'.
        and_then
          (decode_items fuel depth rest')
          (λ items rest''. decoded (item first items) rest''))
unfolding decode_items print_value
decode_items-print_value null fuel depth rest = refl
decode_items-print_value (bool b) fuel depth rest = refl
decode_items-print_value (number n) fuel depth rest = refl
decode_items-print_value (text s) fuel depth rest = refl
decode_items-print_value (array items) fuel depth rest = refl
decode_items-print_value (object fields) fuel depth rest = refl

mutual
  unfolding decode_value print_value acceptable

  decode_value-print :
      (value : Json) (fuel depth : ℕ) (rest : List Token)
      → acceptable depth value ≡ true
      → 2 * length (print_value value rest) < fuel
      → decode_value fuel depth (print_value value rest) ≡ decoded value rest
  decode_value-print value zero depth rest ok h = absurd (omega (arith, h))
  decode_value-print null (suc fuel) depth rest ok h =
      refused_if-false _ _ _ (leb-not max_depth depth ok) refl
  decode_value-print (bool b) (suc fuel) depth rest ok h =
      refused_if-false _ _ _ (leb-not max_depth depth ok) refl
  decode_value-print (number n) (suc fuel) depth rest ok h =
      refused_if-false _ _ _ (leb-not max_depth depth ok) refl
  decode_value-print (text s) (suc fuel) depth rest ok h =
      refused_if-false _ _ _ (leb-not max_depth depth ok) refl
  decode_value-print (array items) (suc fuel) depth rest ok h =
      let (shallow, all) = &&-split _ _ ok in
      refused_if-false _ _ _ (leb-not max_depth depth shallow) (
        and_then-decoded _ items rest _ _
          (decode_items-print items fuel (suc depth) rest all (omega (arith, h))) refl)
  decode_value-print (object fields) (suc fuel) depth rest ok h =
      let (shallow, all) = &&-split _ _ ok in
      refused_if-false _ _ _ (leb-not max_depth depth shallow) (
        and_then-decoded _ fields rest _ _
          (decode_fields-print fields fuel (suc depth) [] rest all (omega (arith, h))) refl)

  decode_items-print :
      (items : Items) (fuel depth : ℕ) (rest : List Token)
      → acceptable_items depth items ≡ true
      → suc (2 * length (print_items items rest)) < fuel
      → decode_items fuel depth (print_items items rest) ≡ decoded items rest
  decode_items-print items zero depth rest ok h = absurd (omega (arith, h))
  decode_items-print nil (suc fuel) depth rest ok h = refl
  decode_items-print (item value items) (suc fuel) depth rest ok h =
      let (first, others) = &&-split _ _ ok in
      decode_items-print_value value fuel depth (print_items items rest)
      ∙ and_then-decoded _ value (print_items items rest) _ _
          (decode_value-print value fuel depth (print_items items rest) first (omega (arith, h)))
          (and_then-decoded _ items rest _ _
            (decode_items-print items fuel depth rest others
              (omega (arith, h, print_value-longer value (print_items items rest))))
            refl)

  decode_fields-print :
      (fields : Fields) (fuel depth : ℕ) (seen : List String) (rest : List Token)
      → acceptable_fields depth seen fields ≡ true
      → 2 * length (print_fields fields rest) < fuel
      → decode_fields fuel depth seen (print_fields fields rest) ≡ decoded fields rest
  decode_fields-print fields zero depth seen rest ok h = absurd (omega (arith, h))
  decode_fields-print end (suc fuel) depth seen rest ok h = refl
  decode_fields-print (field name value fields) (suc fuel) depth seen rest ok h =
      let (both, others) = &&-split _ _ ok in
      let (new, first) = &&-split _ _ both in
      refused_if-false _ _ _ (not-true _ new) (
        and_then-decoded _ value (print_fields fields rest) _ _
          (decode_value-print value fuel depth (print_fields fields rest) first (omega (arith, h)))
          (and_then-decoded _ fields rest _ _
            (decode_fields-print fields fuel depth (name ∷ seen) rest others
              (omega (arith, h, print_value-longer value (print_fields fields rest))))
            refl))

-- The decoder reads back every acceptable value that is printed, whatever follows it, and leaves
-- what follows.
pub decode_value-round_trip :
    (value : Json) (rest : List Token)
    → acceptable 0 value ≡ true
    → decode_value (enough (print_value value rest)) 0 (print_value value rest) ≡ decoded value rest
decode_value-round_trip value rest ok =
    decode_value-print value (enough (print_value value rest)) 0 rest ok (omega arith)
