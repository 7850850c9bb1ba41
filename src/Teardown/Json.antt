-- ===== src/Teardown/Json.antt =====
-- JSON values as decodeValue of deinitnet/policy.go builds them from the tokens of a json.Decoder.
-- A number keeps its text (UseNumber). A Go map has no order: an object's fields stand in the order
-- in which they were read, and no function below depends on it but `tokens`.
pub mod Decoding
pub mod Reading
pub mod Printing
use herdr_distributed_mesh.Prelude.{
  string_eq, ℕ, zero, suc, String, Bool, true, false, ◌&&◌, ◌||◌, Option, none, some, List, [], ◌∷◌,
  ◌==◌, ltb, leb, not, ◌*◌, length, contains, if◌then◌else◌,
}

mutual
  pub data Json : Type 0 where
    null : Json
    bool : Bool → Json
    number : String → Json
    text : String → Json
    array : Items → Json
    object : Fields → Json

  pub data Items : Type 0 where
    nil : Items
    item : Json → Items → Items

  pub data Fields : Type 0 where
    end : Fields
    field : String → Json → Fields → Fields

-- What Token returns.
pub data Token : Type 0 where
  open_object close_object open_array close_array null_token : Token
  bool_token : Bool → Token
  number_token text_token : String → Token

-- `starved` is not a result of the code: it says that the fuel was too little.
pub data Decoded {ℓ} (A : Type ℓ) : Type ℓ where
  decoded : A → List Token → Decoded A
  refused starved : Decoded A

unfoldable pub and_then {ℓ κ} :
    {A : Type ℓ} {B : Type κ} → Decoded A → (A → List Token → Decoded B) → Decoded B
and_then (decoded a rest) f = f a rest
and_then refused f = refused
and_then starved f = starved

abbrev pub max_depth : ℕ
max_depth = 100

unfoldable pub refused_if {ℓ} : {A : Type ℓ} → Bool → Decoded A → Decoded A
refused_if true result = refused
refused_if false result = result

abbrev pub within {ℓ} : {A : Type ℓ} → ℕ → Decoded A → Decoded A
within depth result = refused_if (ltb max_depth depth) result

-- decodeValue, with its two loops as functions of their own. `seen` holds the keys of `object`.
unfoldable mutual
  pub decode_value : ℕ → ℕ → List Token → Decoded Json
  decode_value zero depth tokens = starved
  decode_value (suc fuel) depth [] = refused
  decode_value (suc fuel) depth (open_object ∷ tokens) = within depth (
      and_then (decode_fields fuel (suc depth) [] tokens)
        (λ fields rest. decoded (object fields) rest))
  decode_value (suc fuel) depth (open_array ∷ tokens) =
      within depth
        (and_then (decode_items fuel (suc depth) tokens) (λ items rest. decoded (array items) rest))
  decode_value (suc fuel) depth (close_object ∷ tokens) = refused
  decode_value (suc fuel) depth (close_array ∷ tokens) = refused
  decode_value (suc fuel) depth (null_token ∷ tokens) = within depth (decoded null tokens)
  decode_value (suc fuel) depth (bool_token b ∷ tokens) = within depth (decoded (bool b) tokens)
  decode_value (suc fuel) depth (number_token n ∷ tokens) = within depth (decoded (number n) tokens)
  decode_value (suc fuel) depth (text_token s ∷ tokens) = within depth (decoded (text s) tokens)

  pub decode_fields : ℕ → ℕ → List String → List Token → Decoded Fields
  decode_fields zero depth seen tokens = starved
  decode_fields (suc fuel) depth seen (close_object ∷ tokens) = decoded end tokens
  decode_fields (suc fuel) depth seen (text_token name ∷ tokens) = refused_if (contains seen name) (
      and_then (decode_value fuel depth tokens) (λ value rest.
        and_then (decode_fields fuel depth (name ∷ seen) rest)
          (λ fields rest'. decoded (field name value fields) rest')))
  decode_fields (suc fuel) depth seen _ = refused

  pub decode_items : ℕ → ℕ → List Token → Decoded Items
  decode_items zero depth tokens = starved
  decode_items (suc fuel) depth [] = refused
  decode_items (suc fuel) depth (close_array ∷ tokens) = decoded nil tokens
  decode_items (suc fuel) depth (token ∷ tokens) =
      and_then (decode_value fuel depth (token ∷ tokens)) (λ value rest.
        and_then (decode_items fuel depth rest) (λ items rest'. decoded (item value items) rest'))

abbrev pub enough : List Token → ℕ
enough tokens = suc (2 * length tokens)

-- The tokens of a value, in the order of its fields.
unfoldable mutual
  pub print_value : Json → List Token → List Token
  print_value null rest = null_token ∷ rest
  print_value (bool b) rest = bool_token b ∷ rest
  print_value (number n) rest = number_token n ∷ rest
  print_value (text s) rest = text_token s ∷ rest
  print_value (array items) rest = open_array ∷ print_items items rest
  print_value (object fields) rest = open_object ∷ print_fields fields rest

  pub print_items : Items → List Token → List Token
  print_items nil rest = close_array ∷ rest
  print_items (item value items) rest = print_value value (print_items items rest)

  pub print_fields : Fields → List Token → List Token
  print_fields end rest = close_object ∷ rest
  print_fields (field name value fields) rest =
      text_token name ∷ print_value value (print_fields fields rest)

-- The values that the decoder accepts: no key twice in an object, and no value deeper than 100.
unfoldable mutual
  pub acceptable : ℕ → Json → Bool
  acceptable depth (array items) = leb depth max_depth && acceptable_items (suc depth) items
  acceptable depth (object fields) = leb depth max_depth && acceptable_fields (suc depth) [] fields
  acceptable depth _ = leb depth max_depth

  pub acceptable_items : ℕ → Items → Bool
  acceptable_items depth nil = true
  acceptable_items depth (item value items) = acceptable depth value && acceptable_items depth items

  pub acceptable_fields : ℕ → List String → Fields → Bool
  acceptable_fields depth seen end = true
  acceptable_fields depth seen (field name value fields) =
      not (contains seen name)
      && acceptable depth value
      && acceptable_fields depth (name ∷ seen) fields
