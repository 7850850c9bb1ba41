-- ===== src/Table.antt =====
-- A database table with a text primary key, as its list of rows: SELECT by key, UPDATE by key and
-- INSERT at the end.
pub mod Laws
use herdr_distributed_mesh.Prelude.{
  string_eq, String, Bool, Option, none, some, List, [], ◌∷◌, ◌==◌, ◌≡◌, if◌then◌else◌,
}

module _ {Row : Type 0} (key : Row → String) where
  -- SELECT ... WHERE key = id
  unfoldable pub find_row : String → List Row → Option Row
  find_row id [] = none
  find_row id (row ∷ rows) = if key row == id then some row else find_row id rows

  -- UPDATE ... WHERE key = id
  unfoldable pub update_row : String → (Row → Row) → List Row → List Row
  update_row id f [] = []
  update_row id f (row ∷ rows) = (if key row == id then f row else row) ∷ update_row id f rows

  -- PRIMARY KEY
  abbrev pub Distinct : List Row → Type 0
  Distinct [] = Unit
  Distinct (row ∷ rows) = (find_row (key row) rows ≡ none) × Distinct rows
