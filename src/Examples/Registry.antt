-- ===== src/Examples/Registry.antt =====
-- One project of one node, which the operator moves and the node acknowledges.
use herdr_distributed_mesh.Prelude.{
  nat_eq, string_eq, ◌≡◌, refl, String, false, some, none, [], ◌∷◌, List, length, codes,
}
use herdr_distributed_mesh.Projects.Records.{ProjectRecord, ProjectRow, RegisterProjectRequest}
use herdr_distributed_mesh.Projects.Methods.{ProjectWire}
use herdr_distributed_mesh.Projects.History.{find_project, Follows}
use herdr_distributed_mesh.Projects.Runs.{
  ProjectCall, upsert_call, ack_call, adopt_call, run_projects, run_projects-Follows,
}

abbrev project_wire : ProjectWire
project_wire = record { bytes = λ s. length (codes s); record_size = λ r. 90 }

abbrev record_at : String → ProjectRecord
record_at path = record {
  desired = record {
    node_instance_id = "desk";
    project_id = "site";
    generation = 1;
    checkout_path = path;
    worktree_root = "";
    unknown = false;
  };
  applied = none;
  readiness = "pending";
  adoption_status = "";
  unknown = false;
}

abbrev request_at : String → RegisterProjectRequest
request_at path = record {
  node_instance_id = "desk";
  project_id = "site";
  checkout_path = path;
  worktree_root = "";
  unknown = false;
}

abbrev registry : List ProjectRow
registry = record { node_id = "desk"; project_id = "site"; payload = record_at "/srv/site" } ∷ []

abbrev changes : List ProjectCall
changes =
    adopt_call "desk" (request_at "/home/site" ∷ [])
    ∷ upsert_call (request_at "/srv/other")
    ∷ ack_call "desk" (record {
      project_id = "site";
      generation = 2;
      status = "applied";
      checkout_path = "/srv/other";
      worktree_root = "";
      error_code = "";
      unknown = false;
    })
    ∷ []

registry_example :
    (new : ProjectRecord) × (find_project "desk" "site" (run_projects project_wire changes registry)
      ≡ some new)
    × Follows (record_at "/srv/site") new
unfolding find_project
registry_example =
    run_projects-Follows project_wire changes registry "desk" "site" (record_at "/srv/site") refl
