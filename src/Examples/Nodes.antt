-- ===== src/Examples/Nodes.antt =====
-- Two instances on two machines, with one snapshot, on which the theorems on the cache are applied.
use herdr_distributed_mesh.Prelude.{
  nat_eq, string_eq, option_eq, ◌≡◌, refl, arith, String, false, none, some, List, [], ◌∷◌,
}
use herdr_distributed_mesh.Errors.{ok}
use herdr_distributed_mesh.Table.{find_row}
use herdr_distributed_mesh.Protocol.Messages.{Timestamp}
use herdr_distributed_mesh.Journal.Store.{Binding}
use herdr_distributed_mesh.Fleet.{
  NodeView, FleetDb, NodeWire, stable_of, validate_node, valid_latest, import_bindings, load_fleet,
}
use herdr_distributed_mesh.Fleet.Imports.{AllOrNothing, import_bindings-AllOrNothing}
use herdr_distributed_mesh.Fleet.Soundness.{IsFleet}
use herdr_distributed_mesh.Fleet.Runs.{
  FleetCall, import_call, save_call, delete_call, load_call, do_fleet, run_fleet, run_fleet-IsFleet,
  run_fleet-bound,
}
use herdr_distributed_mesh.Fleet.Cache.{snapshot, map_step, call_succeeds, do_fleet-refines}
use herdr_distributed_mesh.Fleet.Loading.{IsLoaded, load_fleet-IsLoaded}

-- The fields that the store does not read are one text.
abbrev node_wire : NodeWire String
node_wire = record { size = λ view. 120; unknown = λ view. false }

abbrev noon_stamp : Timestamp
noon_stamp = record { seconds = 1700000000; nanos = 0; unknown = false }

abbrev view_of : String → String → NodeView String
view_of instance stable = record {
  instance_id = instance;
  stable_id = stable;
  last_seen = some noon_stamp;
  herdr_received_at = none;
  rest = "idle";
}

abbrev binding_of : String → String → Binding
binding_of stable instance = record { stable_id = stable; instance_id = instance }

abbrev fleet : FleetDb String
fleet = record {
  bindings = binding_of "n1" "desk" ∷ binding_of "n2" "attic" ∷ [];
  latest = record { instance_id = "desk"; payload = view_of "desk" "n1" } ∷ [];
}

fleet-IsFleet : IsFleet node_wire fleet
unfolding find_row valid_latest validate_node stable_of
fleet-IsFleet = record {
  bound = record { stable = (refl, (refl, tt)); instance_ids = (refl, (refl, tt)) };
  unique = (refl, tt);
  few = omega arith;
  good = refl;
}

abbrev calls : List (FleetCall String)
calls =
    save_call (view_of "attic" "n2")
    ∷ save_call (view_of "attic" "n1")
    ∷ import_call (binding_of "n3" "desk" ∷ [])
    ∷ delete_call ("desk" ∷ [])
    ∷ load_call
    ∷ []

-- A cache that was just created.
abbrev fresh : FleetDb String
fresh = record { bindings = []; latest = [] }

abbrev first_calls : List (FleetCall String)
first_calls = import_call (binding_of "n1" "desk" ∷ binding_of "n2" "attic" ∷ []) ∷ calls

fresh-IsFleet : IsFleet node_wire fresh
unfolding find_row
fresh-IsFleet = record {
  bound = record { stable = tt; instance_ids = tt };
  unique = tt;
  few = omega arith;
  good = refl;
}

fleet_example : IsFleet node_wire (run_fleet node_wire first_calls fresh)
fleet_example = run_fleet-IsFleet node_wire first_calls fresh fresh-IsFleet

bound_example : stable_of "desk" (run_fleet node_wire calls fleet).bindings ≡ some "n1"
unfolding stable_of
bound_example = run_fleet-bound node_wire calls fleet "desk" "n1" refl

map_example :
    snapshot (do_fleet node_wire (save_call (view_of "attic" "n2")) fleet) "attic"
    ≡ map_step
        (call_succeeds node_wire (save_call (view_of "attic" "n2")) fleet)
        (save_call (view_of "attic" "n2"))
        (snapshot fleet)
        "attic"
map_example = do_fleet-refines node_wire (save_call (view_of "attic" "n2")) fleet "attic"

load_example :
    (views : List (NodeView String)) × ((load_fleet node_wire fleet).0 ≡ ok views)
    × IsLoaded fleet views
load_example = load_fleet-IsLoaded node_wire fleet fleet-IsFleet

import_example :
    AllOrNothing
      (binding_of "n3" "shed" ∷ binding_of "n4" "shed" ∷ [])
      fleet
      (import_bindings (binding_of "n3" "shed" ∷ binding_of "n4" "shed" ∷ []) fleet).0
      (import_bindings (binding_of "n3" "shed" ∷ binding_of "n4" "shed" ∷ []) fleet).1
import_example =
    import_bindings-AllOrNothing (binding_of "n3" "shed" ∷ binding_of "n4" "shed" ∷ []) fleet
