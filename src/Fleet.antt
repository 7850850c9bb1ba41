-- ===== src/Fleet.antt =====
-- The coordinator's bindings and its cache of the fleet (internal/state/store.go): which machine an
-- instance runs on, for good, and the latest snapshot of each instance.
pub mod Steps
pub mod Soundness
pub mod Runs
pub mod Imports
pub mod Cache
pub mod Loading
use herdr_distributed_mesh.Prelude.{
  nat_eq, string_eq, option_eq, ℕ, String, Bool, true, false, ◌&&◌, ◌||◌, not, Option, none, some,
  List, [], ◌∷◌, ◌++◌, ◌==◌, if◌then◌else◌, any, keep, length, leb, ltb, is_some, is_none, is_blank,
}
use herdr_distributed_mesh.Errors.{
  Result, ok, err, guard, ◌>>=◌, ◌>>◌, identity_conflict, invalid, transaction,
}
use herdr_distributed_mesh.Table.{find_row, update_row}
use herdr_distributed_mesh.Protocol.Messages.{Timestamp, check_valid}
use herdr_distributed_mesh.Journal.Store.{Binding}

-- NodeView, with the fields that the store carries unread as one value.
pub record NodeView (Rest : Type 0) : Type 0 where
  pub instance_id : String
  pub stable_id : String
  pub last_seen : Option Timestamp
  pub herdr_received_at : Option Timestamp
  pub rest : Rest

-- A row of `latest_nodes`. The BLOB column holds the message that it encodes.
pub record LatestNode (Rest : Type 0) : Type 0 where
  pub instance_id : String
  pub payload : NodeView Rest

pub record FleetDb (Rest : Type 0) : Type 0 where
  pub bindings : List Binding
  pub latest : List (LatestNode Rest)

-- proto.Size, and the search for unknown fields in a message and all that it holds.
pub record NodeWire (Rest : Type 0) : Type 0 where
  pub size : NodeView Rest → ℕ
  pub unknown : NodeView Rest → Bool

abbrev pub max_nodes : ℕ
max_nodes = 128

abbrev pub max_node_bytes : ℕ
max_node_bytes = 266240

abbrev pub stable_key : Binding → String
stable_key b = b.stable_id

abbrev pub instance_key : Binding → String
instance_key b = b.instance_id

-- SELECT stable_id FROM bindings WHERE instance_id = ?
unfoldable pub stable_of : String → List Binding → Option String
stable_of id [] = none
stable_of id (b ∷ bindings) =
    if b.instance_id == id then some b.stable_id else stable_of id bindings

abbrev pub binding_conflicts : Binding → Binding → Bool
binding_conflicts b other =
    other.stable_id == b.stable_id && not (other.instance_id == b.instance_id)
    || other.instance_id == b.instance_id && not (other.stable_id == b.stable_id)

-- INSERT ... ON CONFLICT(stable_id) DO NOTHING
unfoldable pub insert_binding : Binding → List Binding → List Binding
insert_binding b bindings =
    if any (λ other. other.stable_id == b.stable_id) bindings then bindings else bindings ++ b ∷ []

unfoldable pub bind : Binding → List Binding → Result (List Binding)
bind b bindings = do
  guard (not (is_blank b.stable_id || is_blank b.instance_id)) invalid
  guard (not (any (binding_conflicts b) bindings)) identity_conflict
  ok (insert_binding b bindings)

unfoldable pub bind_all : List Binding → List Binding → Result (List Binding)
bind_all [] bindings = ok bindings
bind_all (b ∷ bs) bindings = do bindings' ← bind b bindings; bind_all bs bindings'

module _ {Rest : Type 0} where
  abbrev pub latest_key : LatestNode Rest → String
  latest_key row = row.instance_id

  unfoldable pub import_body : List Binding → FleetDb Rest → Result (Unit {0} × FleetDb Rest)
  import_body bs db = do
    bindings ← bind_all bs db.bindings
    ok (tt, record db { bindings = bindings })

  -- ImportBindings
  unfoldable pub import_bindings : List Binding → FleetDb Rest → Result (Unit {0}) × FleetDb Rest
  import_bindings bs = transaction (import_body bs)

  -- Bind
  unfoldable pub bind_node : String → String → FleetDb Rest → Result (Unit {0}) × FleetDb Rest
  bind_node stable_id instance_id =
      import_bindings (record { stable_id = stable_id; instance_id = instance_id } ∷ [])

  -- DELETE FROM latest_nodes WHERE instance_id = ?
  abbrev pub delete_row : String → List (LatestNode Rest) → List (LatestNode Rest)
  delete_row id rows = keep (λ row. not (row.instance_id == id)) rows

  unfoldable pub delete_rows :
      List String → List (LatestNode Rest) → Result (List (LatestNode Rest))
  delete_rows [] rows = ok rows
  delete_rows (id ∷ ids) rows = do
    guard (not (is_blank id)) invalid
    delete_rows ids (delete_row id rows)

  unfoldable pub delete_body : List String → FleetDb Rest → Result (Unit {0} × FleetDb Rest)
  delete_body ids db = do rows ← delete_rows ids db.latest; ok (tt, record db { latest = rows })

  -- DeleteNodes
  unfoldable pub delete_nodes : List String → FleetDb Rest → Result (Unit {0}) × FleetDb Rest
  delete_nodes ids = transaction (delete_body ids)

  -- INSERT ... ON CONFLICT(instance_id) DO UPDATE SET payload = excluded.payload
  unfoldable pub put_latest : NodeView Rest → List (LatestNode Rest) → List (LatestNode Rest)
  put_latest view rows =
      if is_some (find_row latest_key view.instance_id rows)
      then update_row latest_key view.instance_id (λ row. record row { payload = view }) rows
      else rows ++ record { instance_id = view.instance_id; payload = view } ∷ []

module _ {Rest : Type 0} (wire : NodeWire Rest) where
  abbrev pub is_given_time : Option Timestamp → Bool
  is_given_time none = false
  is_given_time (some t) = check_valid t

  unfoldable pub validate_node : NodeView Rest → Bool
  validate_node view =
      not (is_blank view.instance_id || is_blank view.stable_id)
      && is_given_time view.last_seen
      && (is_none view.herdr_received_at || is_given_time view.herdr_received_at)
      && not (wire.unknown view)

  abbrev pub has_room : String → List (LatestNode Rest) → Bool
  has_room id rows =
      ltb (length rows) max_nodes
      || leb (length rows) max_nodes && is_some (find_row latest_key id rows)

  -- The last test is the CHECK of the column.
  unfoldable pub save_body : NodeView Rest → FleetDb Rest → Result (Unit {0} × FleetDb Rest)
  save_body view db = do
    guard (leb (wire.size view) max_node_bytes) invalid
    guard (validate_node view) invalid
    guard (stable_of view.instance_id db.bindings == some view.stable_id) identity_conflict
    guard (has_room view.instance_id db.latest) invalid
    guard (leb 1 (wire.size view)) invalid
    ok (tt, record db { latest = put_latest view db.latest })

  -- SaveNode
  unfoldable pub save_node : NodeView Rest → FleetDb Rest → Result (Unit {0}) × FleetDb Rest
  save_node view = transaction (save_body view)

  -- What readFleet checks of a row before it compares it with the binding that is joined to it.
  unfoldable pub valid_latest : List Binding → LatestNode Rest → Bool
  valid_latest bindings row =
      is_some (stable_of row.instance_id bindings)
      && leb 1 (wire.size row.payload)
      && leb (wire.size row.payload) max_node_bytes
      && validate_node row.payload

  abbrev pub owns_latest : List Binding → LatestNode Rest → Bool
  owns_latest bindings row =
      row.instance_id == row.payload.instance_id
      && stable_of row.instance_id bindings == some row.payload.stable_id

  -- The rows come in the table's order: no caller depends on ORDER BY.
  unfoldable pub read_latest : List Binding → List (LatestNode Rest) → Result (List (NodeView Rest))
  read_latest bindings [] = ok []
  read_latest bindings (row ∷ rows) = do
    guard (valid_latest bindings row) invalid
    guard (owns_latest bindings row) identity_conflict
    views ← read_latest bindings rows
    ok (row.payload ∷ views)

  unfoldable pub read_fleet : FleetDb Rest → Result (List (NodeView Rest))
  read_fleet db = do
    guard (leb (length db.latest) max_nodes) invalid
    read_latest db.bindings db.latest

  -- LoadFleet
  unfoldable pub load_fleet : FleetDb Rest → Result (List (NodeView Rest)) × FleetDb Rest
  load_fleet = transaction (λ db. do views ← read_fleet db; ok (views, db))
