-- ===== src/Fleet/Loading.antt =====
-- LoadFleet on a sound cache.
use mathlib.Core.Option
use herdr_distributed_mesh.Prelude.{
  nat_eq, string_eq, option_eq, suc, ◌≤◌, String, true, Option, none, some, List, [], ◌∷◌, ◌==◌,
  ◌≡◌, refl, ap, if◌then◌else◌, all, map, length, le→leb, Bool-cases, inl, inr, &&-split, ==→≡,
}
use herdr_distributed_mesh.Errors.{ok, ◌>>=◌, transaction}
use herdr_distributed_mesh.Table.{find_row}
use herdr_distributed_mesh.Journal.Store.{Binding}
use herdr_distributed_mesh.Fleet.{
  NodeView, LatestNode, FleetDb, NodeWire, max_nodes, latest_key, valid_latest, owns_latest,
  read_latest, read_fleet, load_fleet,
}
use herdr_distributed_mesh.Fleet.Soundness.{IsFleet, good_row}
use herdr_distributed_mesh.Fleet.Cache.{snapshot}

module _ {Rest : Type 0} where
  -- The snapshot of an instance in a list.
  abbrev pub find_view : String → List (NodeView Rest) → Option (NodeView Rest)
  find_view id [] = none
  find_view id (view ∷ views) =
      let rest = find_view id views in if view.instance_id == id then some view else rest

  length-map : (rows : List (LatestNode Rest)) → length (map (λ r. r.payload) rows) ≡ length rows
  length-map [] = refl
  length-map (row ∷ rows) = ap suc (length-map rows)

module _ {Rest : Type 0} (wire : NodeWire Rest) (bindings : List Binding) where
  read_latest-good :
      (rows : List (LatestNode Rest))
      → all (good_row wire bindings) rows ≡ true
      → read_latest wire bindings rows ≡ ok (map (λ r. r.payload) rows)
  unfolding read_latest ◌>>=◌
  read_latest-good [] h = refl
  read_latest-good (row ∷ rows) h =
      let (first, rest) = &&-split _ _ h in
      let (valid, owned) =
        &&-split (valid_latest wire bindings row) (owns_latest wire bindings row) first in
      rw (valid, owned, read_latest-good rows rest) refl

  find_view-map :
      (id : String) (rows : List (LatestNode Rest))
      → all (good_row wire bindings) rows ≡ true
      → find_view id (map (λ r. r.payload) rows)
        ≡ Option.map (λ r. r.payload) (find_row latest_key id rows)
  unfolding find_row
  find_view-map id [] h = refl
  find_view-map id (row ∷ rows) h =
      let (first, rest) = &&-split _ _ h in
      let (valid, owned) = &&-split _ _ first in
      let (same, bound) = &&-split _ _ owned in
      let e = ==→≡ row.instance_id row.payload.instance_id same in
      elim (Bool-cases (row.payload.instance_id == id)) [
        | inl hit ↦ rw (e, hit) refl
        | inr miss ↦ rw (e, miss) (find_view-map id rows rest)
      ]

-- What LoadFleet returns is the cache: for each instance its snapshot, and nothing else.
pub record IsLoaded {Rest : Type 0} (db : FleetDb Rest) (views : List (NodeView Rest))
    : Type 0 where
  pub whole : (id : String) → find_view id views ≡ snapshot db id
  pub few : length views ≤ max_nodes

-- A sound cache is loaded without an error, and what is loaded has exactly the cached snapshots, at
-- most 128 of them.
pub load_fleet-IsLoaded :
    {Rest : Type 0} (wire : NodeWire Rest) (db : FleetDb Rest)
    → IsFleet wire db
    → (views : List (NodeView Rest)) × ((load_fleet wire db).0 ≡ ok views) × IsLoaded db views
unfolding load_fleet read_fleet transaction ◌>>=◌
load_fleet-IsLoaded wire db f = (
  map (λ r. r.payload) db.latest,
  rw (le→leb (length db.latest) max_nodes f.few, read_latest-good wire db.bindings db.latest f.good)
      refl,
  record {
    whole = λ id. find_view-map wire db.bindings id db.latest f.good;
    few = rw (length-map db.latest) f.few;
  },
)
