-- ===== src/Teardown/Policy/Mentions.antt =====
-- The texts of a policy, its keys included, against containsMeshReference.
use herdr_distributed_mesh.Prelude.{
  String, Bool, false, true, ◌||◌, ◌≡◌, refl, List, [], ◌∷◌, ◌++◌, All, All-append,
}
use herdr_distributed_mesh.Teardown.Json.{
  Json, null, bool, number, text, array, object, Items, nil, item, Fields, end, field,
}
use herdr_distributed_mesh.Teardown.Values.{mentions}
use herdr_distributed_mesh.Teardown.Policy.{
  contains_mesh_reference, items_mention_mesh, fields_mention_mesh,
}

unfoldable mutual
  texts : Json → List String
  texts (text s) = s ∷ []
  texts (array items) = item_texts items
  texts (object fields) = field_texts fields
  texts _ = []

  item_texts : Items → List String
  item_texts nil = []
  item_texts (item value items) = texts value ++ item_texts items

  pub field_texts : Fields → List String
  field_texts end = []
  field_texts (field name value fields) = name ∷ (texts value ++ field_texts fields)

abbrev pub IsSilent : String → Type 0
IsSilent s = mentions s "tag:herdr-mesh-" ≡ false

neither : (a b : Bool) → (a || b) ≡ false → (a ≡ false) × (b ≡ false)
neither true b h = cc (h)
neither false b h = (refl, h)

mutual
  unfolding texts item_texts field_texts contains_mesh_reference items_mention_mesh
      fields_mention_mesh

  texts-IsSilent :
      (value : Json) → contains_mesh_reference value ≡ false → All IsSilent (texts value)
  texts-IsSilent null h = tt
  texts-IsSilent (bool b) h = tt
  texts-IsSilent (number s) h = tt
  texts-IsSilent (text s) h = (h, tt)
  texts-IsSilent (array items) h = item_texts-IsSilent items h
  texts-IsSilent (object fields) h = field_texts-IsSilent fields h

  item_texts-IsSilent :
      (items : Items) → items_mention_mesh items ≡ false → All IsSilent (item_texts items)
  item_texts-IsSilent nil h = tt
  item_texts-IsSilent (item value items) h =
      let (first, rest) = neither _ _ h in
      All-append IsSilent (texts value) (item_texts items) (texts-IsSilent value first)
        (item_texts-IsSilent items rest)

  pub field_texts-IsSilent :
      (fields : Fields) → fields_mention_mesh fields ≡ false → All IsSilent (field_texts fields)
  field_texts-IsSilent end h = tt
  field_texts-IsSilent (field name value fields) h =
      let (early, rest) = neither _ _ h in
      let (first, second) = neither _ _ early in
      (
        first,
        All-append IsSilent (texts value) (field_texts fields) (texts-IsSilent value second)
            (field_texts-IsSilent fields rest),
      )
