-- ===== src/Teardown/Values/Lookups.antt =====
-- Lookups in an object after a replacement, lists of elements, and type assertions that succeed.
use herdr_distributed_mesh.Prelude.{
  string_eq, String, true, false, ◌≡◌, ◌≢◌, refl, sym, ap, ◌∙◌, some, List, [], ◌∷◌, ◌==◌, ==→≡,
  Bool-cases, inl, inr,
}
use herdr_distributed_mesh.Teardown.Json.{
  Json, text, array, object, Items, nil, item, Fields, end, field,
}
use herdr_distributed_mesh.Teardown.Values.{
  lookup, elements, items_of, set_field, as_list, as_object, as_text,
}

pub elements-items_of : (values : List Json) → elements (items_of values) ≡ values
unfolding elements items_of
elements-items_of [] = refl
elements-items_of (value ∷ values) = ap (value ∷◌) (elements-items_of values)

pub items_of-elements : (items : Items) → items_of (elements items) ≡ items
unfolding elements items_of
items_of-elements nil = refl
items_of-elements (item value items) = ap (item value) (items_of-elements items)

pub as_text-some : (value : Json) (s : String) → as_text value ≡ some s → value ≡ text s
as_text-some (text t) s h = cc
as_text-some _ s h = cc (h)

pub as_list-some :
    (value : Json) (values : List Json)
    → as_list value ≡ some values
    → value ≡ array (items_of values)
as_list-some (array items) values h =
    let e : elements items ≡ values = cc (h) in
    ap array (sym (items_of-elements items) ∙ ap items_of e)
as_list-some _ values h = cc (h)

pub as_object-some :
    (value : Json) (fields : Fields) → as_object value ≡ some fields → value ≡ object fields
as_object-some (object fields') fields h = cc
as_object-some _ fields h = cc

pub lookup-set_field :
    (name : String) (value old : Json) (fields : Fields)
    → lookup name fields ≡ some old
    → lookup name (set_field name value fields) ≡ some value
unfolding lookup set_field
lookup-set_field name value old end h = cc
lookup-set_field name value old (field key v fields) h = elim (Bool-cases (key == name)) [
  | inl same ↦ rw (same, same) refl
  | inr other ↦ rw (other, other) (lookup-set_field name value old fields (rw other at h))
]

pub lookup-set_field_other :
    (other name : String) (value : Json) (fields : Fields)
    → name ≢ other
    → lookup other (set_field name value fields) ≡ lookup other fields
unfolding lookup set_field
lookup-set_field_other other name value end n = refl
lookup-set_field_other other name value (field key v fields) n = elim (Bool-cases (key == name)) [
  | inl same ↦
      let unlike : (key == other) ≡ false = differs key name other n same in rw (same, unlike) refl
  | inr miss ↦ elim (Bool-cases (key == other)) [
    | inl hit ↦ rw (miss, hit) refl
    | inr away ↦ rw (miss, away) (lookup-set_field_other other name value fields n)
  ]
]
  where
    differs :
        (key name other : String) → name ≢ other → (key == name) ≡ true → (key == other) ≡ false
    differs key name other n same = elim (Bool-cases (key == other)) [
      | inl hit ↦ absurd (n (sym (==→≡ key name same) ∙ ==→≡ key other hit))
      | inr miss ↦ miss
    ]

-- A replacement by the value that is there changes nothing.
pub set_field-same :
    (name : String) (value : Json) (fields : Fields)
    → lookup name fields ≡ some value
    → set_field name value fields ≡ fields
unfolding lookup set_field
set_field-same name value end h = refl
set_field-same name value (field key v fields) h = elim (Bool-cases (key == name)) [
  | inl same ↦ let e : some v ≡ some value = rw same at h in rw same (cc)
  | inr other ↦ rw other (ap (field key v) (set_field-same name value fields (rw other at h)))
]
