-- ===== src/Teardown/Values.antt =====
-- How deinitnet reads JSON values: map lookups, type assertions and reflect.DeepEqual.
pub mod Lookups
use herdr_distributed_mesh.Prelude.{
  nat_eq, string_eq, codes, ℕ, suc, String, Bool, true, false, ◌&&◌, ◌||◌, Option, none, some, List,
  [], ◌∷◌, ◌==◌, not, if◌then◌else◌, is_some, nat_beq,
}
use herdr_distributed_mesh.Teardown.Json.{
  Json, null, bool, number, text, array, object, Items, nil, item, Fields, end, field,
}

-- value, exists := object[name]
unfoldable pub lookup : String → Fields → Option Json
lookup name end = none
lookup name (field key value fields) = if key == name then some value else lookup name fields

-- object[name], which is nil for a key that is not there
abbrev pub or_null : Option Json → Json
or_null none = null
or_null (some value) = value

abbrev pub index : String → Fields → Json
index name fields = or_null (lookup name fields)

abbrev pub present : String → Fields → Bool
present name fields = is_some (lookup name fields)

-- len(object)
unfoldable pub field_count : Fields → ℕ
field_count end = 0
field_count (field key value fields) = suc (field_count fields)

unfoldable pub elements : Items → List Json
elements nil = []
elements (item value items) = value ∷ elements items

unfoldable pub items_of : List Json → Items
items_of [] = nil
items_of (value ∷ values) = item value (items_of values)

-- object[name] = value, for a key that is there
unfoldable pub set_field : String → Json → Fields → Fields
set_field name value end = end
set_field name value (field key old fields) =
    let rest = set_field name value fields in
    if key == name then field key value fields else field key old rest

-- list, ok := value.([]any)
abbrev pub as_list : Json → Option (List Json)
as_list (array items) = some (elements items)
as_list _ = none

-- object, ok := value.(map[string]any)
abbrev pub as_object : Json → Option Fields
as_object (object fields) = some fields
as_object _ = none

-- text, ok := value.(string)
abbrev pub as_text : Json → Option String
as_text (text s) = some s
as_text _ = none

abbrev pub is_null : Json → Bool
is_null null = true
is_null _ = false

abbrev bool_beq : Bool → Bool → Bool
bool_beq true b = b
bool_beq false b = not b

-- reflect.DeepEqual: maps are equal when they have equally many keys, and each key of the first
-- has an equal value in the second.
unfoldable mutual
  pub deep_equal : Json → Json → Bool
  deep_equal null null = true
  deep_equal (bool a) (bool b) = bool_beq a b
  deep_equal (number a) (number b) = a == b
  deep_equal (text a) (text b) = a == b
  deep_equal (array items) (array items') = deep_equal_items items items'
  deep_equal (object fields) (object fields') =
      nat_beq (field_count fields) (field_count fields') && deep_equal_fields fields fields'
  deep_equal _ _ = false

  deep_equal_items : Items → Items → Bool
  deep_equal_items nil nil = true
  deep_equal_items (item a items) (item b items') = deep_equal a b && deep_equal_items items items'
  deep_equal_items _ _ = false

  deep_equal_fields : Fields → Fields → Bool
  deep_equal_fields end fields' = true
  deep_equal_fields (field key value fields) fields' =
      elim (lookup key fields') [ none ↦ false | some value' ↦ deep_equal value value' ]
      && deep_equal_fields fields fields'

-- strings.HasPrefix
abbrev begins : List ℕ → List ℕ → Bool
begins [] cs = true
begins (p ∷ ps) [] = false
begins (p ∷ ps) (c ∷ cs) = p == c && begins ps cs

unfoldable pub has_prefix : String → String → Bool
has_prefix s prefix = begins (codes prefix) (codes s)

abbrev occurs : List ℕ → List ℕ → Bool
occurs word [] = begins word []
occurs word (c ∷ cs) = begins word (c ∷ cs) || occurs word cs

-- strings.Contains
unfoldable pub mentions : String → String → Bool
mentions s word = occurs (codes word) (codes s)
