-- ===== src/Projects/Changes.antt =====
-- The methods of the registry, one call at a time, against the relation between its states.
use herdr_distributed_mesh.Prelude.{
  nat_eq, string_eq, suc, ◌≡◌, refl, ap, ◌∙◌, subst, String, false, Option, none, some, List, ◌==◌,
  ==→≡, if◌then◌else◌, ltb, arith,
}
use herdr_distributed_mesh.Errors.{Result, ok, err, guard-eq-ok, project_not_found}
use herdr_distributed_mesh.Errors.Ensures.{
  Ensures, Ensures-ok, Ensures-err, Ensures-guard, Ensures-bind, Ensures-if,
}
use herdr_distributed_mesh.Projects.Records.{
  ProjectConfig, ProjectAck, ProjectRecord, ProjectRow, same_project_paths,
}
use herdr_distributed_mesh.Projects.Methods.{
  ProjectWire, read_project, write_project, new_project, revise_project, upsert_found, acknowledged,
  decide_adoption, adopt_found,
}
use herdr_distributed_mesh.Projects.History.{
  find_project, Follows, Keeps, Keeps-refl, put_project-Keeps,
}
use herdr_distributed_mesh.Projects.Reading.{IsFound, read_project-IsFound, read_project-missing}

abbrev pub Keeping : {A : Type 0} → List ProjectRow → Result (A × List ProjectRow) → Type 0
Keeping rows m = Ensures m (λ x. Keeps rows x.1)

module _ (wire : ProjectWire) where
  write_project-Keeping :
      (r : ProjectRecord) (rows : List ProjectRow)
      → ((old : ProjectRecord)
          → find_project r.desired.node_instance_id r.desired.project_id rows ≡ some old
          → Follows old r)
      → Keeping rows (write_project wire r rows)
  unfolding write_project
  write_project-Keeping r rows follows =
      Ensures-guard _ _ _
        λ _. Ensures-guard _ _ _ λ _. Ensures-ok _ (put_project-Keeps wire r rows follows)

  -- What is found under the ids of a found record is that record.
  found-Follows :
      (node project : String) (rows : List ProjectRow) (r new : ProjectRecord)
      → IsFound node project rows r
      → new.desired.node_instance_id ≡ node
      → new.desired.project_id ≡ project
      → Follows r new
      → (old : ProjectRecord)
      → find_project new.desired.node_instance_id new.desired.project_id rows ≡ some old
      → Follows old new
  found-Follows node project rows r new f n p follows old h =
      let here : find_project node project rows ≡ some old =
        subst (λ m. find_project m project rows ≡ some old) n
          (subst (λ q. find_project new.desired.node_instance_id q rows ≡ some old) p h) in
      let same : r ≡ old = one (f.found) here in subst (λ o. Follows o new) same follows
    where
      one : {o : Option ProjectRecord} {a b : ProjectRecord} → o ≡ some a → o ≡ some b → a ≡ b
      one e g = cc (e, g)

  missing-Follows :
      (new : ProjectRecord) (rows : List ProjectRow)
      → find_project new.desired.node_instance_id new.desired.project_id rows ≡ none
      → (old : ProjectRecord)
      → find_project new.desired.node_instance_id new.desired.project_id rows ≡ some old
      → Follows old new
  missing-Follows new rows missing old h = cc (missing, h)

  revise_project-Keeping :
      (config : ProjectConfig) (r : ProjectRecord) (rows : List ProjectRow)
      → IsFound config.node_instance_id config.project_id rows r
      → Keeping rows (revise_project wire config r rows)
  unfolding revise_project
  revise_project-Keeping config r rows f =
      let new : ProjectRecord = record r {
        desired = record config { generation = suc r.desired.generation };
        readiness = "pending";
      } in
      Ensures-if (same_project_paths r.desired config) _ _ (λ same. Ensures-ok _ (Keeps-refl rows))
        (λ other. Ensures-guard _ _ _ λ _. write_project-Keeping new rows (
          found-Follows config.node_instance_id config.project_id rows r new f refl refl (record {
            grows = omega arith;
            revised = λ e. absurd (omega (arith, e));
            decided = λ n. refl;
          })))

  pub upsert_found-Keeping :
      (config : ProjectConfig) (m : Result ProjectRecord) (rows : List ProjectRow)
      → read_project wire config.node_instance_id config.project_id rows ≡ m
      → (config.node_instance_id == "") ≡ false
      → (config.project_id == "") ≡ false
      → Keeping rows (upsert_found wire config m rows)
  unfolding upsert_found new_project
  upsert_found-Keeping config (ok r) rows looked n p =
      revise_project-Keeping config r rows (read_project-IsFound wire _ _ n p rows r looked)
  upsert_found-Keeping config (err project_not_found) rows looked n p =
      Ensures-bind _ _ λ r made. write_project-Keeping r rows (created r (guard-eq-ok _ _ _ made).1)
    where
      created :
          (r : ProjectRecord)
          → ok (record {
            desired = config;
            applied = none;
            readiness = "pending";
            adoption_status = "";
            unknown = false;
          })
            ≡ ok r
          → (old : ProjectRecord)
          → find_project r.desired.node_instance_id r.desired.project_id rows ≡ some old
          → Follows old r
      created r e =
          let same : config ≡ r.desired = cc (e) in
          missing-Follows r rows (
            subst (λ (c : ProjectConfig). find_project c.node_instance_id c.project_id rows ≡ none)
              same (read_project-missing wire _ _ n p rows looked))
  upsert_found-Keeping config (err _) rows looked n p = Ensures-err _

  pub acknowledged-Keeping :
      (node : String) (ack : ProjectAck) (r : ProjectRecord) (rows : List ProjectRow)
      → IsFound node ack.project_id rows r
      → Keeping rows (acknowledged wire ack r rows)
  unfolding acknowledged
  acknowledged-Keeping node ack r rows f =
      let new : ProjectRecord = record r { applied = some ack; readiness = ack.status } in
      Ensures-guard _ _ _ λ _.
        Ensures-if (ltb ack.generation r.desired.generation) _ _
          (λ late. Ensures-ok _ (Keeps-refl rows))
          (λ current. Ensures-guard _ _ _ λ _. write_project-Keeping new rows (
            found-Follows node ack.project_id rows r new f f.node_id f.project_id
              (record { grows = omega arith; revised = λ e. refl; decided = λ n. refl })))

  -- The decision on a record that is there, or on a new one that is not.
  decide_adoption-Keeping :
      (config : ProjectConfig) (r : ProjectRecord) (rows : List ProjectRow)
      → ((new : ProjectRecord)
          → Follows r new
          → new.desired ≡ r.desired
          → (old : ProjectRecord)
          → find_project new.desired.node_instance_id new.desired.project_id rows ≡ some old
          → Follows old new)
      → Keeping rows (decide_adoption wire config r rows)
  unfolding decide_adoption
  decide_adoption-Keeping config r rows follows =
      Ensures-if (r.adoption_status == "") _ _
        (λ undecided.
          let new : ProjectRecord = record r {
            adoption_status = if same_project_paths r.desired config then "adopted" else "conflict";
          } in
          write_project-Keeping new rows (
            follows new
              (record {
                grows = omega arith;
                revised = λ e. refl;
                decided = λ n. absurd (n (==→≡ r.adoption_status "" undecided));
              })
              refl))
        (λ decided. Ensures-ok _ (Keeps-refl rows))

  pub adopt_found-Keeping :
      (config : ProjectConfig) (m : Result ProjectRecord) (rows : List ProjectRow)
      → read_project wire config.node_instance_id config.project_id rows ≡ m
      → (config.node_instance_id == "") ≡ false
      → (config.project_id == "") ≡ false
      → Keeping rows (adopt_found wire config m rows)
  unfolding adopt_found new_project
  adopt_found-Keeping config (ok r) rows looked n p =
      let f = read_project-IsFound wire _ _ n p rows r looked in
      decide_adoption-Keeping config r rows (λ new follows same.
        found-Follows config.node_instance_id config.project_id rows r new f
          (ap (λ c. c.node_instance_id) same ∙ f.node_id)
          (ap (λ c. c.project_id) same ∙ f.project_id) follows)
  adopt_found-Keeping config (err project_not_found) rows looked n p =
      Ensures-bind _ _
        λ r made. decide_adoption-Keeping config r rows (created r (guard-eq-ok _ _ _ made).1)
    where
      created :
          (r : ProjectRecord)
          → ok (record {
            desired = config;
            applied = none;
            readiness = "pending";
            adoption_status = "";
            unknown = false;
          })
            ≡ ok r
          → (new : ProjectRecord) → Follows r new
          → new.desired ≡ r.desired
          → (old : ProjectRecord)
          → find_project new.desired.node_instance_id new.desired.project_id rows ≡ some old
          → Follows old new
      created r e new follows kept =
          let same : config ≡ new.desired = cc (e, kept) in
          missing-Follows new rows (
            subst (λ (c : ProjectConfig). find_project c.node_instance_id c.project_id rows ≡ none)
              same (read_project-missing wire _ _ n p rows looked))
  adopt_found-Keeping config (err _) rows looked n p = Ensures-err _
