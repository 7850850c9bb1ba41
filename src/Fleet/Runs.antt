-- ===== src/Fleet/Runs.antt =====
-- The cache under any sequence of the store's methods.
use herdr_distributed_mesh.Prelude.{nat_eq, string_eq, option_eq, String, some, List, [], ◌∷◌, ◌≡◌}
use herdr_distributed_mesh.Journal.Store.{Binding}
use herdr_distributed_mesh.Fleet.{
  NodeView, FleetDb, NodeWire, stable_of, import_bindings, delete_nodes, save_node, load_fleet,
}
use herdr_distributed_mesh.Fleet.Soundness.{
  IsFleet, Keeps, Keeps-refl, transaction-Keeps, import_body-Keeps, save_body-Keeps,
  delete_body-Keeps, load_fleet-unchanged,
}

-- The methods of the store on bindings and snapshots.
pub data FleetCall (Rest : Type 0) : Type 0 where
  import_call : List Binding → FleetCall Rest
  save_call : NodeView Rest → FleetCall Rest
  delete_call : List String → FleetCall Rest
  load_call : FleetCall Rest

module _ {Rest : Type 0} (wire : NodeWire Rest) where
  unfoldable pub do_fleet : FleetCall Rest → FleetDb Rest → FleetDb Rest
  do_fleet (import_call bs) db = (import_bindings bs db).1
  do_fleet (save_call view) db = (save_node wire view db).1
  do_fleet (delete_call ids) db = (delete_nodes ids db).1
  do_fleet load_call db = (load_fleet wire db).1

  unfoldable pub run_fleet : List (FleetCall Rest) → FleetDb Rest → FleetDb Rest
  run_fleet [] db = db
  run_fleet (call ∷ calls) db = run_fleet calls (do_fleet call db)

  do_fleet-Keeps : (call : FleetCall Rest) (db : FleetDb Rest) → Keeps wire db (do_fleet call db)
  unfolding do_fleet import_bindings save_node delete_nodes
  do_fleet-Keeps (import_call bs) db = transaction-Keeps wire _ db (import_body-Keeps wire bs db)
  do_fleet-Keeps (save_call view) db = transaction-Keeps wire _ db (save_body-Keeps wire view db)
  do_fleet-Keeps (delete_call ids) db = transaction-Keeps wire _ db (delete_body-Keeps wire ids db)
  do_fleet-Keeps load_call db = rw (load_fleet-unchanged wire db) (Keeps-refl wire db)

  run_fleet-Keeps :
      (calls : List (FleetCall Rest)) (db : FleetDb Rest) → Keeps wire db (run_fleet calls db)
  unfolding run_fleet
  run_fleet-Keeps [] db = Keeps-refl wire db
  run_fleet-Keeps (call ∷ calls) db =
      let (sound, binds) = do_fleet-Keeps call db in
      let (sound', binds') = run_fleet-Keeps calls (do_fleet call db) in
      (λ f. sound' (sound f), λ id stable h. binds' id stable (binds id stable h))

  -- Whatever methods are called on a sound cache, an empty one among them, it stays sound: the
  -- bindings are one to one, there is one snapshot for an instance and at most 128 in all, and each is
  -- valid and of the machine that its instance is bound to.
  pub run_fleet-IsFleet :
      (calls : List (FleetCall Rest)) (db : FleetDb Rest)
      → IsFleet wire db
      → IsFleet wire (run_fleet calls db)
  run_fleet-IsFleet calls db f = (run_fleet-Keeps calls db).0 f

  -- Whatever methods are called, an instance that is bound to a machine stays bound to that machine.
  pub run_fleet-bound :
      (calls : List (FleetCall Rest)) (db : FleetDb Rest) (id stable : String)
      → stable_of id db.bindings ≡ some stable
      → stable_of id (run_fleet calls db).bindings ≡ some stable
  run_fleet-bound calls db id stable h = (run_fleet-Keeps calls db).1 id stable h
