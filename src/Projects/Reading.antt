-- ===== src/Projects/Reading.antt =====
-- What a lookup of one project finds.
use herdr_distributed_mesh.Prelude.{
  nat_eq, string_eq, ◌≡◌, ◌≢◌, refl, sym, ap, ◌∙◌, subst, String, true, false, none, some, List, [],
  ◌∷◌, ◌==◌, ==→≡, keep, length, leb, Bool-cases, inl, inr, &&-split,
}
use herdr_distributed_mesh.Errors.{
  Result, Error, ok, err, ◌>>=◌, >>=-eq-ok, guard-eq-ok, Result-cases, invalid, project_not_found,
}
use herdr_distributed_mesh.Protocol.Tokens.{valid_idempotency_key, command_token}
use herdr_distributed_mesh.Projects.Records.{
  ProjectRecord, ProjectRow, max_projects, max_projects_per_node,
}
use herdr_distributed_mesh.Projects.Methods.{
  ProjectWire, has_ids, on_node, in_scope, valid_project_row, scan_projects, read_projects,
  first_project, read_project,
}
use herdr_distributed_mesh.Projects.History.{find_project, has_ids-eq}

bind-ok {ℓ κ} :
    {A : Type ℓ} {B : Type κ} (m : Result A) (a : A) (f : A → Result B) (n : Result B)
    → m ≡ ok a
    → f a ≡ n
    → (m >>= f) ≡ n
unfolding ◌>>=◌
bind-ok m a f n e g = rw e g

-- A valid id is not empty.
pub valid_id-nonempty : (id : String) → valid_idempotency_key id ≡ true → (id == "") ≡ false
unfolding valid_idempotency_key command_token
valid_id-nonempty id h = elim (Bool-cases (id == "")) [
  | inl empty ↦ cc (subst (λ i. valid_idempotency_key i ≡ true) (==→≡ id "" empty) h)
  | inr full ↦ full
]

-- The record that a lookup returns: it stands under its own ids, which are those looked up.
pub record IsFound (node project : String) (rows : List ProjectRow) (r : ProjectRecord)
    : Type 0 where
  pub found : find_project node project rows ≡ some r
  pub node_id : r.desired.node_instance_id ≡ node
  pub project_id : r.desired.project_id ≡ project

module _ (wire : ProjectWire) (node project : String) (has_node : (node == "") ≡ false)
    (has_project : (project == "") ≡ false) where
  row-ids :
      (scanned : List ProjectRow) (row : ProjectRow)
      → valid_project_row wire scanned row ≡ true
      → (row.node_id ≡ row.payload.desired.node_instance_id)
        × (row.project_id ≡ row.payload.desired.project_id)
  unfolding valid_project_row
  row-ids scanned row h =
      let (h1, _) = &&-split _ _ h in
      let (h2, p) = &&-split _ _ h1 in
      let (_, n) = &&-split _ _ h2 in (==→≡ row.node_id _ n, ==→≡ row.project_id _ p)

  scope-ids : (row : ProjectRow) → in_scope wire node project row ≡ has_ids node project row
  scope-ids row = rw (has_node, has_project) refl

  scan-IsFound :
      (scanned rows : List ProjectRow) (r : ProjectRecord)
      → (scan_projects wire scanned (keep (in_scope wire node project) rows) >>= first_project wire)
        ≡ ok r
      → IsFound node project rows r
  unfolding scan_projects first_project find_project ◌>>=◌
  scan-IsFound scanned [] r h = cc (h)
  scan-IsFound scanned (row ∷ rows) r h = elim (Bool-cases (has_ids node project row)) [
    | inl hit ↦
        let (records, read, first) =
          >>=-eq-ok (scan_projects wire scanned (row ∷ keep (in_scope wire node project) rows)) _
            (rw (scope-ids row ∙ hit) at h) in
        let (valid, h1) = guard-eq-ok _ invalid _ read in
        let (rest, _, h2) =
          >>=-eq-ok (scan_projects wire scanned (keep (in_scope wire node project) rows)) _ h1 in
        let is_first : row.payload ≡ r = head_is (row.payload) rest records r h2 first in
        let (n, p) = row-ids scanned row valid in
        let (n', p') = has_ids-eq node project row hit in
        record {
          found = rw hit (ap some is_first);
          node_id = ap (λ q. q.desired.node_instance_id) (sym is_first) ∙ sym n ∙ n';
          project_id = ap (λ q. q.desired.project_id) (sym is_first) ∙ sym p ∙ p';
        }
    | inr miss ↦
        let deeper = scan-IsFound scanned rows r (rw (scope-ids row ∙ miss) at h) in
        record {
          found = rw miss deeper.found;
          node_id = deeper.node_id;
          project_id = deeper.project_id;
        }
  ]
    where
      head_is :
          (a : ProjectRecord) (rest records : List ProjectRecord) (r : ProjectRecord)
          → Path (Result (List ProjectRecord)) (ok (a ∷ rest)) (ok records)
          → first_project wire records ≡ ok r
          → a ≡ r
      head_is a rest [] r e f = cc (e)
      head_is a rest (b ∷ records) r e f = cc (e, f)

  scan-invalid :
      (scanned rows : List ProjectRow) (why : Error)
      → scan_projects wire scanned rows ≡ err why
      → why ≡ invalid
  unfolding scan_projects ◌>>=◌
  scan-invalid scanned [] why h = cc (h)
  scan-invalid scanned (row ∷ rows) why h = elim (Bool-cases (valid_project_row wire scanned row)) [
    | inl v ↦ elim (Result-cases (scan_projects wire scanned rows)) [
      | inl (records, e) ↦ cc (rw (v, e) at h)
      | inr (why', e) ↦
          let f : Path (Result (List ProjectRecord)) (err why') (err why) = rw (v, e) at h in
          cc (f, scan-invalid scanned rows why' e)
    ]
    | inr n ↦
        let f : Path (Result (List ProjectRecord)) (err invalid) (err why) = rw n at h in cc (f)
  ]

  never :
      (scanned : List ProjectRow) (row : ProjectRow) (rows : List ProjectRow)
      → (scan_projects wire scanned (row ∷ rows) >>= first_project wire) ≢ err project_not_found
  unfolding scan_projects first_project ◌>>=◌
  never scanned row rows h = elim (Bool-cases (valid_project_row wire scanned row)) [
    | inl v ↦ elim (Result-cases (scan_projects wire scanned rows)) [
      | inl (records, e) ↦
          let f : Path (Result ProjectRecord) (ok row.payload) (err project_not_found) =
            rw (v, e) at h in
          cc (f)
      | inr (why, e) ↦
          let f : Path (Result ProjectRecord) (err why) (err project_not_found) = rw (v, e) at h in
          cc (f, scan-invalid scanned rows why e)
    ]
    | inr n ↦
        let f : Path (Result ProjectRecord) (err invalid) (err project_not_found) = rw n at h in
        cc (f)
  ]

  scan-missing :
      (scanned rows : List ProjectRow)
      → (scan_projects wire scanned (keep (in_scope wire node project) rows) >>= first_project wire)
        ≡ err project_not_found
      → find_project node project rows ≡ none
  unfolding find_project
  scan-missing scanned [] h = refl
  scan-missing scanned (row ∷ rows) h = elim (Bool-cases (has_ids node project row)) [
    | inl hit ↦
        absurd (
          never scanned row (keep (in_scope wire node project) rows)
            (rw (scope-ids row ∙ hit) at h))
    | inr miss ↦ rw miss (scan-missing scanned rows (rw (scope-ids row ∙ miss) at h))
  ]

  -- A lookup that returns a record has found it.
  pub read_project-IsFound :
      (rows : List ProjectRow) (r : ProjectRecord)
      → read_project wire node project rows ≡ ok r
      → IsFound node project rows r
  unfolding read_project read_projects
  read_project-IsFound rows r h =
      let (records, read, first) = >>=-eq-ok _ _ h in
      let (_, h1) = guard-eq-ok _ invalid _ read in
      let (_, h2) = guard-eq-ok _ invalid _ h1 in
      scan-IsFound (keep (in_scope wire node project) rows) rows r (bind-ok _ records _ _ h2 first)

  -- And one that finds none has no record.
  pub read_project-missing :
      (rows : List ProjectRow)
      → read_project wire node project rows ≡ err project_not_found
      → find_project node project rows ≡ none
  unfolding read_project read_projects ◌>>=◌
  read_project-missing rows h = elim (Bool-cases (leb (length rows) max_projects)) [
    | inl few ↦ elim (Bool-cases (leb (length (keep (on_node node) rows)) max_projects_per_node)) [
      | inl fewer ↦
          scan-missing (keep (in_scope wire node project) rows) rows
            (rw (few, has_node, fewer) at h)
      | inr many ↦
          let f : Path (Result ProjectRecord) (err invalid) (err project_not_found) =
            rw (few, has_node, many) at h in
          cc (f)
    ]
    | inr many ↦
        let f : Path (Result ProjectRecord) (err invalid) (err project_not_found) = rw many at h in
        cc (f)
  ]
