-- ===== src/Projects/Methods.antt =====
-- The methods of Store on the table `projects` (internal/state/projects.go). A method is a function
-- from its arguments and the rows to its result and the rows afterwards.
use herdr_distributed_mesh.Prelude.{
  nat_eq, string_eq, ℕ, suc, String, Bool, false, ◌&&◌, ◌||◌, not, none, some, List, [], ◌∷◌, ◌++◌,
  ◌==◌, if◌then◌else◌, any, keep, length, leb, ltb, contains,
}
use herdr_distributed_mesh.Errors.{
  Result, ok, err, guard, ◌>>=◌, ◌>>◌, invalid, project_not_found, project_conflict,
  project_capacity, transaction,
}
use herdr_distributed_mesh.Protocol.Tokens.{valid_idempotency_key}
use herdr_distributed_mesh.Projects.Records.{
  ProjectConfig, ProjectAck, ProjectRecord, RegisterProjectRequest, ProjectRow,
  max_projects_per_node, max_projects, max_project_bytes, max_generation, validate_project_config,
  validate_project_ack, validate_project_record, project_ack_conflict, same_project_paths,
}

-- The sizes in bytes of a path and of a record's encoding.
pub record ProjectWire : Type 0 where
  pub bytes : String → ℕ
  pub record_size : ProjectRecord → ℕ

abbrev pub has_ids : String → String → ProjectRow → Bool
has_ids node project row = row.node_id == node && row.project_id == project

abbrev pub on_node : String → ProjectRow → Bool
on_node node row = row.node_id == node

abbrev offered : RegisterProjectRequest → ProjectConfig
offered request = record {
  node_instance_id = request.node_instance_id;
  project_id = request.project_id;
  generation = 1;
  checkout_path = request.checkout_path;
  worktree_root = request.worktree_root;
  unknown = false;
}

module _ (wire : ProjectWire) where
  unfoldable pub project_offer : RegisterProjectRequest → Result ProjectConfig
  project_offer request = do
    guard (not request.unknown) invalid
    guard (validate_project_config wire.bytes (offered request)) invalid
    ok (offered request)

  abbrev fits_project : ProjectRecord → Bool
  fits_project r =
      leb 1 (wire.record_size r) && leb (wire.record_size r) max_project_bytes && not r.unknown

  -- What readProjects checks of a row among those that it scans.
  unfoldable pub valid_project_row : List ProjectRow → ProjectRow → Bool
  valid_project_row scanned row =
      fits_project row.payload
      && validate_project_record wire.bytes row.payload
      && row.node_id == row.payload.desired.node_instance_id
      && row.project_id == row.payload.desired.project_id
      && leb (length (keep (on_node row.node_id) scanned)) max_projects_per_node

  unfoldable pub scan_projects : List ProjectRow → List ProjectRow → Result (List ProjectRecord)
  scan_projects scanned [] = ok []
  scan_projects scanned (row ∷ rows) = do
    guard (valid_project_row scanned row) invalid
    records ← scan_projects scanned rows
    ok (row.payload ∷ records)

  -- An empty id is no condition.
  abbrev pub in_scope : String → String → ProjectRow → Bool
  in_scope node project row =
      (node == "" || row.node_id == node) && (project == "" || row.project_id == project)

  unfoldable pub read_projects : String → String → List ProjectRow → Result (List ProjectRecord)
  read_projects node project rows = do
    guard (leb (length rows) max_projects) invalid
    guard (node == "" || leb (length (keep (on_node node) rows)) max_projects_per_node) invalid
    scan_projects (keep (in_scope node project) rows) (keep (in_scope node project) rows)

  unfoldable pub first_project : List ProjectRecord → Result ProjectRecord
  first_project [] = err project_not_found
  first_project (r ∷ more) = ok r

  unfoldable pub read_project : String → String → List ProjectRow → Result ProjectRecord
  read_project node project rows = read_projects node project rows >>= first_project

  abbrev pub replace_project : ProjectRecord → List ProjectRow → List ProjectRow
  replace_project r [] = []
  replace_project r (row ∷ rows) =
      (if has_ids r.desired.node_instance_id r.desired.project_id row
        then record row { payload = r }
        else row)
      ∷ replace_project r rows

  -- INSERT ... ON CONFLICT(node_id, project_id) DO UPDATE SET record = excluded.record
  unfoldable pub put_project : ProjectRecord → List ProjectRow → List ProjectRow
  put_project r rows =
      if any (has_ids r.desired.node_instance_id r.desired.project_id) rows
      then replace_project r rows
      else rows
        ++ record {
          node_id = r.desired.node_instance_id;
          project_id = r.desired.project_id;
          payload = r;
        }
          ∷ []

  unfoldable pub write_project :
      ProjectRecord → List ProjectRow → Result (ProjectRecord × List ProjectRow)
  write_project r rows = do
    guard (validate_project_record wire.bytes r) invalid
    guard (fits_project r) invalid
    ok (r, put_project r rows)

  unfoldable pub new_project : ProjectConfig → List ProjectRow → Result ProjectRecord
  new_project config rows = do
    guard
        (ltb (length rows) max_projects
          && ltb (length (keep (on_node config.node_instance_id) rows)) max_projects_per_node)
        project_capacity
    ok (record {
      desired = config;
      applied = none;
      readiness = "pending";
      adoption_status = "";
      unknown = false;
    })

  -- The record that an operator's request makes of the one that is there.
  unfoldable pub revise_project :
      ProjectConfig → ProjectRecord → List ProjectRow → Result (ProjectRecord × List ProjectRow)
  revise_project config r rows = if same_project_paths r.desired config then ok (r, rows) else (do
    guard (not (r.desired.generation == max_generation)) project_conflict
    write_project
        (record r {
          desired = record config { generation = suc r.desired.generation };
          readiness = "pending";
        })
        rows)

  unfoldable pub upsert_found :
      ProjectConfig
      → Result ProjectRecord
      → List ProjectRow
      → Result (ProjectRecord × List ProjectRow)
  upsert_found config (ok r) rows = revise_project config r rows
  upsert_found config (err project_not_found) rows = do
    r ← new_project config rows
    write_project r rows
  upsert_found config (err e) rows = err e

  -- UpsertProject
  unfoldable pub upsert_project :
      RegisterProjectRequest → List ProjectRow → Result ProjectRecord × List ProjectRow
  upsert_project request = transaction (λ rows. do
    config ← project_offer request
    upsert_found config (read_project config.node_instance_id config.project_id rows) rows)

  -- GetProject
  unfoldable pub get_project : String → String → List ProjectRow → Result ProjectRecord
  get_project node project rows = do
    guard (valid_idempotency_key node && valid_idempotency_key project) invalid
    read_project node project rows

  -- ListProjects
  unfoldable pub list_projects : String → List ProjectRow → Result (List ProjectRecord)
  list_projects node rows = do
    guard (node == "" || valid_idempotency_key node) invalid
    read_projects node "" rows

  -- What an acknowledgement makes of a record.
  unfoldable pub acknowledged :
      ProjectAck → ProjectRecord → List ProjectRow → Result (ProjectRecord × List ProjectRow)
  acknowledged ack r rows = do
    guard (leb ack.generation r.desired.generation) project_conflict
    if ltb ack.generation r.desired.generation then ok (r, rows) else (do
      guard (not (project_ack_conflict r.applied ack)) project_conflict
      write_project (record r { applied = some ack; readiness = ack.status }) rows)

  -- AckProject
  unfoldable pub ack_project :
      String → ProjectAck → List ProjectRow → Result ProjectRecord × List ProjectRow
  ack_project node ack = transaction (λ rows. do
    guard (valid_idempotency_key node) invalid
    guard (validate_project_ack wire.bytes ack) invalid
    r ← read_project node ack.project_id rows
    acknowledged ack r rows)

  -- The offers of a node, checked before the transaction.
  unfoldable pub check_offers :
      String → List String → List RegisterProjectRequest → Result (List ProjectConfig)
  check_offers node seen [] = ok []
  check_offers node seen (offer ∷ offers) = do
    config ← project_offer offer
    guard (config.node_instance_id == node && not (contains seen config.project_id))
        project_conflict
    configs ← check_offers node (config.project_id ∷ seen) offers
    ok (config ∷ configs)

  -- A record's first offer decides its adoption.
  unfoldable pub decide_adoption :
      ProjectConfig → ProjectRecord → List ProjectRow → Result (ProjectRecord × List ProjectRow)
  decide_adoption config r rows =
      if r.adoption_status == ""
      then write_project
          (record r {
            adoption_status = if same_project_paths r.desired config then "adopted" else "conflict";
          })
          rows
      else ok (r, rows)

  unfoldable pub adopt_found :
      ProjectConfig
      → Result ProjectRecord
      → List ProjectRow
      → Result (ProjectRecord × List ProjectRow)
  adopt_found config (ok r) rows = decide_adoption config r rows
  adopt_found config (err project_not_found) rows = do
    r ← new_project config rows
    decide_adoption config r rows
  adopt_found config (err e) rows = err e

  unfoldable pub adopt_all :
      String → List ProjectConfig → List ProjectRow → Result (List ProjectRecord × List ProjectRow)
  adopt_all node [] rows = ok ([], rows)
  adopt_all node (config ∷ configs) rows = do
    step ← adopt_found config (read_project node config.project_id rows) rows
    rest ← adopt_all node configs step.1
    ok (step.0 ∷ rest.0, rest.1)

  -- AdoptProjects
  unfoldable pub adopt_projects :
      String
      → List RegisterProjectRequest
      → List ProjectRow
      → Result (List ProjectRecord) × List ProjectRow
  adopt_projects node offers = transaction (λ rows. do
    guard (valid_idempotency_key node) invalid
    guard (leb (length offers) max_projects_per_node) project_capacity
    configs ← check_offers node [] offers
    adopt_all node configs rows)
