-- ===== src/Journal/Sweeping/Rows.antt =====
-- The loop of a sweep over the rows that its SELECT read.
use mathlib.Core.List.{map, append_assoc}
use herdr_distributed_mesh.Prelude.{
  nat_eq, string_eq, ℕ, String, ◌≡◌, refl, sym, ap, ◌∙◌, Bool, true, false, not, ◌&&◌, List, [],
  ◌∷◌, ◌++◌, arith, inl, inr, Bool-cases, keep, if◌then◌else◌, subst, some,
}
use herdr_distributed_mesh.Errors.{ok, guard-eq-ok, >>=-eq-ok, invalid, ◌>>=◌}
use herdr_distributed_mesh.Table.{Distinct, update_row, find_row}
use herdr_distributed_mesh.Table.Laws.{find_row-middle, update_row-middle, Distinct-update}
use herdr_distributed_mesh.Protocol.Messages.{
  status_eq, CommandStatus, Timestamp, CommandRecord, Wire, timestamp,
}
use herdr_distributed_mesh.Journal.Records.{command_time}
use herdr_distributed_mesh.Journal.Store.{
  Binding, CommandRow, Db, row_id, valid_row, read_rows, put_record, write_record, advance_record,
  transition_command,
}
use herdr_distributed_mesh.Journal.Store.Sweeps.{is_still_running, swept_status, sweep}
use herdr_distributed_mesh.Journal.Evolution.{SameHistory-refl}
use herdr_distributed_mesh.Journal.Steps.{
  Grows, Grows-refl, Grows-trans, valid_row-id, transition_command-ok, transition-Grows,
}

-- What a sweep does to one row.
unfoldable pub swept_row :
    (CommandRow → Bool) → CommandStatus → String → ℕ → CommandRow → CommandRow
swept_row filter status detail now row =
    if filter row && not (is_still_running detail now row.payload)
    then put_record
        (advance_record row.payload (swept_status status row.payload) detail (timestamp now)) row
    else row

abbrev pub tables : List Binding → List CommandRow → Db
tables bindings rows = record { commands = rows; bindings = bindings }

command_time-ok :
    (now : ℕ) (stamp : Timestamp) → command_time now ≡ ok stamp → stamp ≡ timestamp now
unfolding command_time
command_time-ok now stamp h = ground arith

-- The transition of a row's record writes that row.
swept_one :
    (wire : Wire) (bindings : List Binding) (done rows : List CommandRow) (row : CommandRow)
    (status : CommandStatus) (detail : String) (now : ℕ) {r' : CommandRecord} {db' : Db}
    → Distinct row_id (done ++ row ∷ rows)
    → valid_row wire bindings row ≡ true
    → transition_command wire row.payload status detail now (tables bindings (done ++ row ∷ rows))
      ≡ ok (r', db')
    → (db'
        ≡ tables bindings (
            done
            ++ put_record (advance_record row.payload status detail (timestamp now)) row ∷ rows))
      × Grows wire (tables bindings (done ++ row ∷ rows)) db'
unfolding write_record advance_record
swept_one wire bindings done rows row status detail now {r'} {db'} d v h =
    let t = transition_command-ok wire row.payload status detail now _ h in
    let new = advance_record row.payload status detail (timestamp now) in
    let stamp = command_time-ok now t.stamp t.timed in
    let this : r' ≡ new = t.advanced ∙ ap (advance_record row.payload status detail) stamp in
    let id = valid_row-id wire bindings row v in
    let found = find_row-middle row_id done rows row d in
    (
      t.written
          ∙ ap (λ r. write_record r (tables bindings (done ++ row ∷ rows))) this
          ∙ ap (tables bindings) (
              subst
                (λ k.
                  update_row row_id k (put_record new) (done ++ row ∷ rows)
                  ≡ done ++ put_record new row ∷ rows)
                id (update_row-middle row_id (put_record new) done rows row d)),
      transition-Grows wire row.payload row.payload status detail now _
          (record {
            row = row;
            found = subst (λ k. find_row row_id k (done ++ row ∷ rows) ≡ some row) id found;
            payload = refl;
          })
          (SameHistory-refl row.payload) h,
    )

-- A sweep is settled by the rows that its SELECT read: `done` are those already passed.
pub record Swept (wire : Wire) (filter : CommandRow → Bool) (status : CommandStatus)
    (detail : String) (now : ℕ) (bindings : List Binding) (done rows : List CommandRow) (db' : Db)
    : Type 0 where
  pub mapped : db' ≡ tables bindings (done ++ map (swept_row filter status detail now) rows)
  pub grown : Grows wire (tables bindings (done ++ rows)) db'

module _ (wire : Wire) (filter : CommandRow → Bool) (status : CommandStatus) (detail : String)
    (now : ℕ) (bindings : List Binding) where
  -- What is left to show of the rows, whatever was done before them.
  abbrev Sweeps : List CommandRow → List CommandRow → Db → Type 0
  Sweeps = Swept wire filter status detail now bindings

  abbrev swept : CommandRow → CommandRow
  swept = swept_row filter status detail now

  pass_row :
      (done rows : List CommandRow) (row row' : CommandRow) (db' : Db)
      → swept row ≡ row'
      → Grows wire (tables bindings (done ++ row ∷ rows)) (tables bindings (done ++ row' ∷ rows))
      → Sweeps (done ++ row' ∷ []) rows db'
      → Sweeps done (row ∷ rows) db'
  pass_row done rows row row' db' e g s = record {
    mapped =
        s.mapped
        ∙ ap (tables bindings) (
            append_assoc done (row' ∷ []) (map swept rows)
            ∙ ap (λ x. done ++ x ∷ map swept rows) (sym e));
    grown = Grows-trans g (
        subst (λ l. Grows wire (tables bindings l) db') (append_assoc done (row' ∷ []) rows)
          s.grown);
  }

  -- The tables do not depend on which rows count as done.
  shift :
      (P : List CommandRow → Type 0) (done rows : List CommandRow) (row : CommandRow)
      → P (done ++ row ∷ rows)
      → P ((done ++ row ∷ []) ++ rows)
  shift P done rows row = subst P (sym (append_assoc done (row ∷ []) rows))

  -- What the rest of the sweep has to show for the rows after this one.
  Rest : List CommandRow → List CommandRow → List CommandRecord → Db → CommandRow → Type 0
  Rest done rows more db' row =
      Distinct row_id ((done ++ row ∷ []) ++ rows)
      → sweep wire status detail now more (tables bindings ((done ++ row ∷ []) ++ rows))
        ≡ ok (tt, db')
      → Sweeps (done ++ row ∷ []) rows db'

  skipped :
      (done rows : List CommandRow) (more : List CommandRecord) (db' : Db) (row : CommandRow)
      → Distinct row_id (done ++ row ∷ rows)
      → swept row ≡ row
      → sweep wire status detail now more (tables bindings (done ++ row ∷ rows)) ≡ ok (tt, db')
      → Rest done rows more db' row
      → Sweeps done (row ∷ rows) db'
  unfolding Rest
  skipped done rows more db' row d e h rest = pass_row done rows row row db' e (Grows-refl wire _) (
      rest (shift (Distinct row_id) done rows row d) (
        shift (λ l. sweep wire status detail now more (tables bindings l) ≡ ok (tt, db')) done rows
          row h))

  moved_on :
      (done rows : List CommandRow) (more : List CommandRecord) (db' : Db) (row : CommandRow)
      → Distinct row_id (done ++ row ∷ rows)
      → filter row && not (is_still_running detail now row.payload) ≡ true
      → valid_row wire bindings row ≡ true
      → (transition_command wire row.payload
            (swept_status status row.payload)
            detail
            now
            (tables bindings (done ++ row ∷ rows))
          >>= (λ t. sweep wire status detail now more t.1))
        ≡ ok (tt, db')
      → ((row' : CommandRow) → Rest done rows more db' row')
      → Sweeps done (row ∷ rows) db'
  unfolding Rest swept_row
  moved_on done rows more db' row d applies v h rest =
      let (t, moved, h') =
        >>=-eq-ok
          (transition_command wire row.payload (swept_status status row.payload) detail now _) _
          h in
      let (w, g) =
        swept_one wire bindings done rows row (swept_status status row.payload) detail now d v
          moved in
      let new =
        advance_record row.payload (swept_status status row.payload) detail (timestamp now) in
      let row' = put_record new row in
      let d' =
        subst (Distinct row_id) (update_row-middle row_id (put_record new) done rows row d) (
          Distinct-update row_id (put_record new) (λ x. refl) (row_id row) (done ++ row ∷ rows)
            d) in
      pass_row done rows row row' db' (rw applies refl)
        (subst (Grows wire (tables bindings (done ++ row ∷ rows))) w g)
        (rest row' (shift (Distinct row_id) done rows row' d') (
          shift (λ l. sweep wire status detail now more (tables bindings l) ≡ ok (tt, db')) done
            rows row' (subst (λ x. sweep wire status detail now more x ≡ ok (tt, db')) w h')))

  sweep-still :
      (r : CommandRecord) (more : List CommandRecord) (db : Db)
      → is_still_running detail now r ≡ true
      → sweep wire status detail now (r ∷ more) db ≡ sweep wire status detail now more db
  unfolding sweep
  sweep-still r more db e = rw (sweep, e) refl

  sweep-over :
      (r : CommandRecord) (more : List CommandRecord) (db : Db)
      → is_still_running detail now r ≡ false
      → sweep wire status detail now (r ∷ more) db ≡ (
          transition_command wire r (swept_status status r) detail now db
          >>= (λ t. sweep wire status detail now more t.1))
  unfolding sweep
  sweep-over r more db e = rw (sweep, e) refl

  -- The loop over the records of the selected rows.
  pub sweep-Swept :
      (done rows : List CommandRow) (records : List CommandRecord) (db' : Db)
      → Distinct row_id (done ++ rows)
      → read_rows wire bindings (keep filter rows) ≡ ok records
      → sweep wire status detail now records (tables bindings (done ++ rows)) ≡ ok (tt, db')
      → Sweeps done rows db'
  unfolding read_rows sweep swept_row Rest
  sweep-Swept done [] records db' d read h =
      let none_left : [] ≡ records = cc (read) in
      let e : ok (tt, tables bindings (done ++ [])) ≡ ok (tt, db') = rw (← none_left) at h in
      let same : db' ≡ tables bindings (done ++ []) = cc (e) in
      record { mapped = same; grown = rw same (Grows-refl wire _) }
  sweep-Swept done (row ∷ rows) records db' d read h = elim (Bool-cases (filter row)) [
    | inr out ↦
        skipped done rows records db' row d (rw out refl) h
          (λ d' h'. sweep-Swept (done ++ row ∷ []) rows records db' d' (rw out at read) h')
    | inl in_ ↦
        let (v, read') = guard-eq-ok (valid_row wire bindings row) invalid _ (rw in_ at read) in
        let (more, read'', e) = >>=-eq-ok (read_rows wire bindings (keep filter rows)) _ read' in
        let split : row.payload ∷ more ≡ records = cc (e) in
        let h' =
          subst
            (λ l.
              sweep wire status detail now l (tables bindings (done ++ row ∷ rows)) ≡ ok (tt, db'))
            (sym split) h in
        let rest : (row' : CommandRow) → Rest done rows more db' row' =
          λ row' d' k. sweep-Swept (done ++ row' ∷ []) rows more db' d' read'' k in
        elim (Bool-cases (is_still_running detail now row.payload)) [
          | inl still ↦
              skipped done rows more db' row d (rw (in_, still) refl)
                (sym (sweep-still row.payload more _ still) ∙ h') (rest row)
          | inr over ↦
              moved_on done rows more db' row d (rw (in_, over) refl) v
                (sym (sweep-over row.payload more _ over) ∙ h') rest
        ]
  ]
