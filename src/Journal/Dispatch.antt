-- ===== src/Journal/Dispatch.antt =====
-- DispatchCommand (internal/state/commands.go) over any sequence of calls.
use herdr_distributed_mesh.Prelude.{
  ◌<◌, leb-false, arith, nat_eq, string_eq, ℕ, String, ◌≡◌, ◌≢◌, refl, sym, ap, ◌∙◌, true,
  Bool-cases, inl, inr, List, some, ◌==◌, ==→≡, subst, leb, not, ◌||◌, is_blank,
}
use herdr_distributed_mesh.Errors.{ok, invalid, >>=-eq-ok, guard-eq-ok, transaction-eq-ok}
use herdr_distributed_mesh.Errors.Ensures.{Ensures, Ensures-ok, Ensures-guard, Ensures-bind}
use herdr_distributed_mesh.Table.{find_row, update_row}
use herdr_distributed_mesh.Table.Laws.{find_row-update_self}
use herdr_distributed_mesh.Protocol.Messages.{status_eq, accepted, running, CommandRecord, Wire}
use herdr_distributed_mesh.Journal.Records.{command_time, time_of}
use herdr_distributed_mesh.Journal.Store.{
  CommandRow, Db, row_id, put_record, read_command, with_id, write_record, advance_record,
  transition_command,
}
use herdr_distributed_mesh.Journal.Store.Operations.{mark, dispatch_body, dispatch_command}
use herdr_distributed_mesh.Journal.Steps.{
  Holds, IsSound, Grows, read_command-Holds, transition_command-ok,
}
use herdr_distributed_mesh.Journal.Methods.{Call, run, run-Grows, perform, perform-Grows, dispatch}

-- The command's row is there, and its command has left the admission.
record HasLeft (db : Db) (id : String) : Type 0 where
  row : CommandRow
  found : find_row row_id id db.commands ≡ some row
  left : row.payload.status ≢ accepted

HasLeft-Grows :
    (wire : Wire) (db db' : Db) (id : String) → Grows wire db db' → HasLeft db id → HasLeft db' id
HasLeft-Grows wire db db' id g h =
    let (row', found, e) = g.kept id h.row h.found in
    record { row = row'; found = found; left = e.never_back h.left }

-- What a granted dispatch has done: it read an accepted command, and wrote that it runs.
granted_body :
    (wire : Wire) (node id : String) (now : ℕ) (db : Db)
    → Ensures (dispatch_body wire node id now db) (λ x.
      x.0.1 ≡ true
      → (r : CommandRecord) × (read_command wire (with_id id) db ≡ ok r)
        × (r.status ≡ accepted)
        × (transition_command wire r running "dispatched" now db ≡ ok (x.0.0, x.1))
        × (r.command.target_id ≡ node)
        × (now < time_of r.command.expires_at))
unfolding dispatch_body
granted_body wire node id now db = Ensures-bind _ _ λ r read. Ensures-guard _ _ _ λ ours.
    elim (Bool-cases (r.status == accepted)) [
      | inr other ↦ rw other (Ensures-ok _ λ granted. cc (granted))
      | inl pending ↦ rw pending (elim (Bool-cases (leb (time_of r.command.expires_at) now)) [
        | inl late ↦ rw late (Ensures-bind _ _ λ t h. Ensures-ok _ λ granted. cc (granted))
        | inr early ↦ rw early (
            Ensures-bind _ _ λ t h. Ensures-ok (mark true t) λ granted. (
              r,
              read,
              ==→≡ r.status accepted pending,
              h,
              ==→≡ r.command.target_id node ours,
              omega (arith, leb-false (time_of r.command.expires_at) now early),
            ))
      ])
    ]

granted :
    (wire : Wire) (node id : String) (now : ℕ) (db : Db) (r' : CommandRecord)
    → (dispatch_command wire node id now db).0 ≡ ok (r', true)
    → (r : CommandRecord) × (read_command wire (with_id id) db ≡ ok r)
      × (r.status ≡ accepted)
      × (transition_command wire r running "dispatched" now db
          ≡ ok (r', (dispatch_command wire node id now db).1))
      × (r.command.target_id ≡ node)
      × (now < time_of r.command.expires_at)
unfolding dispatch_command
granted wire node id now db r' h =
    let body = transaction-eq-ok _ db h in
    let (_, e) = guard-eq-ok (not (is_blank node || is_blank id)) invalid _ body in
    let (stamp, timed, e') = >>=-eq-ok (command_time now) _ e in
    (granted_body wire node id now db).at _ e' refl

-- A granted dispatch is of a command that the journal holds as accepted, to the node that it is
-- for, before its deadline; and the record that comes back is that command's, running.
pub dispatch_command-timely :
    (wire : Wire) (node id : String) (now : ℕ) (db : Db) (r' : CommandRecord)
    → (dispatch_command wire node id now db).0 ≡ ok (r', true)
    → (r : CommandRecord) × Holds db r
      × (r.command.command_id ≡ id)
      × (r.status ≡ accepted)
      × (r.command.target_id ≡ node)
      × (now < time_of r.command.expires_at)
      × (r'.command ≡ r.command)
      × (r'.status ≡ running)
unfolding advance_record
dispatch_command-timely wire node id now db r' h =
    let (r, read, status, moved, ours, early) = granted wire node id now db r' h in
    let t = transition_command-ok wire r running "dispatched" now db moved in
    let (held, this) = read_command-Holds wire id db read in
    (
      r,
      held,
      this,
      status,
      ours,
      early,
      ap (λ x. x.command) t.advanced,
      ap (λ x. x.status) t.advanced,
    )

-- The row that a granted dispatch leaves behind.
granted-HasLeft :
    (wire : Wire) (node id : String) (now : ℕ) (db : Db) (r' : CommandRecord)
    → (dispatch_command wire node id now db).0 ≡ ok (r', true)
    → HasLeft (dispatch_command wire node id now db).1 id
unfolding write_record advance_record
granted-HasLeft wire node id now db r' h =
    let (r, read, _, moved, _, _) = granted wire node id now db r' h in
    let t = transition_command-ok wire r running "dispatched" now db moved in
    let (held, this) = read_command-Holds wire id db read in
    let same : r'.command.command_id ≡ id = ap (λ x. x.command.command_id) t.advanced ∙ this in
    let status : r'.status ≡ running = ap (λ x. x.status) t.advanced in
    record {
      row = put_record r' held.row;
      found =
          let was = subst (λ k. find_row row_id k db.commands ≡ some held.row) this held.found in
          ap (λ d. find_row row_id id d.commands) t.written
          ∙ ap (λ k. find_row row_id id (update_row row_id k (put_record r') db.commands)) same
          ∙ find_row-update_self row_id (put_record r') (λ x. refl) id db.commands held.row was;
      left = λ e. let never : running ≡ accepted = sym status ∙ e in cc (never);
    }

-- On a sound journal, once a dispatch of a command was granted, no later dispatch of it is, to
-- whatever node and after whatever calls.
pub dispatch_command-granted_once :
    (wire : Wire) (node node' id : String) (now later : ℕ) (db : Db) (r r' : CommandRecord)
    (calls : List Call)
    → IsSound wire db
    → (dispatch_command wire node id now db).0 ≡ ok (r, true)
    → (dispatch_command wire node' id later
        (run wire calls (dispatch_command wire node id now db).1)).0
      ≢ ok (r', true)
unfolding perform
dispatch_command-granted_once wire node node' id now later db r r' calls s first second =
    let db' = (dispatch_command wire node id now db).1 in
    let db'' = run wire calls db' in
    let sound : IsSound wire db' = (perform-Grows wire (dispatch node id now) db s).sound s in
    let left =
      HasLeft-Grows wire db' db'' id (run-Grows wire calls db' sound)
        (granted-HasLeft wire node id now db r first) in
    let (r0, read, status, _, _, _) = granted wire node' id later db'' r' second in
    let (held, this) = read_command-Holds wire id db'' read in
    let was = subst (λ k. find_row row_id k db''.commands ≡ some held.row) this held.found in
    let same : left.row ≡ held.row = cc (was, left.found) in
    left.left (ap (λ x. x.payload.status) same ∙ ap (λ x. x.status) held.payload ∙ status)
