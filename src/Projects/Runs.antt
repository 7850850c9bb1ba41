-- ===== src/Projects/Runs.antt =====
-- The registry under any sequence of the methods of Store (internal/state/projects.go).
use herdr_distributed_mesh.Prelude.{
  nat_eq, string_eq, ◌≡◌, refl, ap, subst, String, true, false, some, List, [], ◌∷◌, ◌==◌, ==→≡,
  All, inl, inr, &&-split,
}
use herdr_distributed_mesh.Errors.{
  Result, ok, >>=-eq-ok, guard-eq-ok, Result-cases, invalid, project_conflict, transaction,
}
use herdr_distributed_mesh.Errors.Ensures.{Ensures-ok, Ensures-guard, Ensures-bind}
use herdr_distributed_mesh.Projects.Records.{
  ProjectConfig, ProjectAck, ProjectRecord, ProjectRow, RegisterProjectRequest,
  validate_project_config, validate_project_ack,
}
use herdr_distributed_mesh.Projects.Methods.{
  ProjectWire, project_offer, read_project, upsert_project, ack_project, check_offers, adopt_all,
  adopt_projects,
}
use herdr_distributed_mesh.Projects.History.{find_project, Follows, Keeps, Keeps-refl, Keeps-trans}
use herdr_distributed_mesh.Projects.Reading.{valid_id-nonempty, read_project-IsFound}
use herdr_distributed_mesh.Projects.Changes.{
  Keeping, upsert_found-Keeping, acknowledged-Keeping, adopt_found-Keeping,
}

-- The two ids of a configuration are there.
abbrev IsNamed : ProjectConfig → Type 0
IsNamed config = ((config.node_instance_id == "") ≡ false) × ((config.project_id == "") ≡ false)

transaction-Keeps :
    {A : Type 0} (body : List ProjectRow → Result (A × List ProjectRow)) (rows : List ProjectRow)
    → Keeping rows (body rows)
    → Keeps rows (transaction body rows).1
unfolding transaction
transaction-Keeps body rows kept = elim (Result-cases (body rows)) [
  | inl (x, e) ↦ rw e (kept.at x e)
  | inr (e, h) ↦ rw h (Keeps-refl rows)
]

module _ (wire : ProjectWire) where
  project_offer-IsNamed :
      (request : RegisterProjectRequest) (config : ProjectConfig)
      → project_offer wire request ≡ ok config
      → IsNamed config
  unfolding project_offer validate_project_config
  project_offer-IsNamed request config h =
      let (_, h1) = guard-eq-ok _ invalid _ h in
      let (valid, h2) = guard-eq-ok _ invalid _ h1 in
      let (v1, _) = &&-split _ _ valid in
      let (v2, _) = &&-split _ _ v1 in
      let (v3, _) = &&-split _ _ v2 in
      let (v4, _) = &&-split _ _ v3 in
      let (n, p) = &&-split _ _ v4 in
      let node : request.node_instance_id ≡ config.node_instance_id = cc (h2) in
      let project : request.project_id ≡ config.project_id = cc (h2) in
      (
        subst (λ i. (i == "") ≡ false) node (valid_id-nonempty request.node_instance_id n),
        subst (λ i. (i == "") ≡ false) project (valid_id-nonempty request.project_id p),
      )

  upsert_project-Keeps :
      (request : RegisterProjectRequest) (rows : List ProjectRow)
      → Keeps rows (upsert_project wire request rows).1
  unfolding upsert_project
  upsert_project-Keeps request rows = transaction-Keeps _ rows (
      Ensures-bind _ _ λ config offered.
        let (n, p) = project_offer-IsNamed request config offered in
        upsert_found-Keeping wire config _ rows refl n p)

  ack_id-nonempty :
      (ack : ProjectAck)
      → validate_project_ack wire.bytes ack ≡ true
      → (ack.project_id == "") ≡ false
  unfolding validate_project_ack
  ack_id-nonempty ack h =
      let (h1, _) = &&-split _ _ h in
      let (h2, _) = &&-split _ _ h1 in
      let (h3, _) = &&-split _ _ h2 in
      let (h4, _) = &&-split _ _ h3 in
      let (id, _) = &&-split _ _ h4 in valid_id-nonempty ack.project_id id

  ack_project-Keeps :
      (node : String) (ack : ProjectAck) (rows : List ProjectRow)
      → Keeps rows (ack_project wire node ack rows).1
  unfolding ack_project
  ack_project-Keeps node ack rows = transaction-Keeps _ rows (
      Ensures-guard _ _ _ λ named. Ensures-guard _ _ _ λ valid. Ensures-bind _ _ λ r looked.
        acknowledged-Keeping wire node ack r rows (
          read_project-IsFound wire node ack.project_id (valid_id-nonempty node named)
            (ack_id-nonempty ack valid) rows r looked))

  abbrev OfNode : String → ProjectConfig → Type 0
  OfNode node config = IsNamed config × (config.node_instance_id ≡ node)

  check_offers-OfNode :
      (offers : List RegisterProjectRequest) (node : String) (seen : List String)
      (configs : List ProjectConfig)
      → check_offers wire node seen offers ≡ ok configs
      → All (OfNode node) configs
  unfolding check_offers
  check_offers-OfNode [] node seen configs h =
      let e : Path (List ProjectConfig) [] configs = cc (h) in subst (All (OfNode node)) e tt
  check_offers-OfNode (offer ∷ offers) node seen configs h =
      let (config, offered, h1) = >>=-eq-ok (project_offer wire offer) _ h in
      let (mine, h2) = guard-eq-ok _ project_conflict _ h1 in
      let (rest, checked, h3) =
        >>=-eq-ok (check_offers wire node (config.project_id ∷ seen) offers) _ h2 in
      let e : config ∷ rest ≡ configs = cc (h3) in
      let (of_node, _) = &&-split _ _ mine in
      subst (All (OfNode node)) e (
        (project_offer-IsNamed offer config offered, ==→≡ config.node_instance_id node of_node),
        check_offers-OfNode offers node (config.project_id ∷ seen) rest checked,
      )

  adopt_all-Keeping :
      (node : String) (configs : List ProjectConfig) (rows : List ProjectRow)
      → All (OfNode node) configs
      → Keeping rows (adopt_all wire node configs rows)
  unfolding adopt_all
  adopt_all-Keeping node [] rows named = Ensures-ok _ (Keeps-refl rows)
  adopt_all-Keeping node (config ∷ configs) rows (((n, p), e), others) =
      Ensures-bind _ _ λ step stepped. Ensures-bind _ _ λ rest finished. Ensures-ok _ (
        Keeps-trans rows step.1 rest.1
          ((adopt_found-Keeping wire config _ rows
              (ap (λ m. read_project wire m config.project_id rows) e) n p).at
            step stepped)
          ((adopt_all-Keeping node configs step.1 others).at rest finished))

  adopt_projects-Keeps :
      (node : String) (offers : List RegisterProjectRequest) (rows : List ProjectRow)
      → Keeps rows (adopt_projects wire node offers rows).1
  unfolding adopt_projects
  adopt_projects-Keeps node offers rows = transaction-Keeps _ rows (
      Ensures-guard _ _ _ λ _. Ensures-guard _ _ _ λ _. Ensures-bind _ _ λ configs checked.
        adopt_all-Keeping node configs rows (check_offers-OfNode offers node [] configs checked))

-- The methods that write.
pub data ProjectCall : Type 0 where
  upsert_call : RegisterProjectRequest → ProjectCall
  ack_call : String → ProjectAck → ProjectCall
  adopt_call : String → List RegisterProjectRequest → ProjectCall

module _ (wire : ProjectWire) where
  unfoldable pub do_project : ProjectCall → List ProjectRow → List ProjectRow
  do_project (upsert_call request) rows = (upsert_project wire request rows).1
  do_project (ack_call node ack) rows = (ack_project wire node ack rows).1
  do_project (adopt_call node offers) rows = (adopt_projects wire node offers rows).1

  unfoldable pub run_projects : List ProjectCall → List ProjectRow → List ProjectRow
  run_projects [] rows = rows
  run_projects (call ∷ calls) rows = run_projects calls (do_project call rows)

  do_project-Keeps :
      (call : ProjectCall) (rows : List ProjectRow) → Keeps rows (do_project call rows)
  unfolding do_project
  do_project-Keeps (upsert_call request) rows = upsert_project-Keeps wire request rows
  do_project-Keeps (ack_call node ack) rows = ack_project-Keeps wire node ack rows
  do_project-Keeps (adopt_call node offers) rows = adopt_projects-Keeps wire node offers rows

  run_projects-Keeps :
      (calls : List ProjectCall) (rows : List ProjectRow) → Keeps rows (run_projects calls rows)
  unfolding run_projects
  run_projects-Keeps [] rows = Keeps-refl rows
  run_projects-Keeps (call ∷ calls) rows =
      Keeps-trans rows (do_project call rows) (run_projects calls (do_project call rows))
        (do_project-Keeps call rows) (run_projects-Keeps calls (do_project call rows))

  -- Whatever methods are called on the registry, every project that it holds is held afterwards, its
  -- generation has not gone back, its desired state is the same if its generation is, and a decision
  -- on its adoption is the one that was made first.
  pub run_projects-Follows :
      (calls : List ProjectCall) (rows : List ProjectRow) (node project : String)
      (old : ProjectRecord)
      → find_project node project rows ≡ some old
      → (new : ProjectRecord) × (find_project node project (run_projects calls rows) ≡ some new)
        × Follows old new
  run_projects-Follows calls rows = run_projects-Keeps calls rows
