-- ===== src/Journal/Sweeping.antt =====
-- The loop of a sweep over the active commands, against one pass over the rows.
mod Rows
use mathlib.Core.List.{map, append_assoc}
use herdr_distributed_mesh.Prelude.{
  nat_eq, string_eq, ℕ, String, ◌≡◌, refl, sym, ap, ◌∙◌, Bool, true, false, not, ◌&&◌, List, [],
  ◌∷◌, ◌++◌, arith, inl, inr, Bool-cases, keep, if◌then◌else◌, subst, leb, length, some,
}
use herdr_distributed_mesh.Errors.{
  ok, err, Result-cases, guard-eq-ok, >>=-eq-ok, invalid, ◌>>=◌, transaction,
}
use herdr_distributed_mesh.Journal.Growth.{transaction-Grows}
use herdr_distributed_mesh.Table.{Distinct, update_row, find_row}
use herdr_distributed_mesh.Table.Laws.{find_row-middle, update_row-middle, Distinct-update}
use herdr_distributed_mesh.Protocol.Messages.{
  status_eq, CommandStatus, Timestamp, CommandRecord, Wire, timestamp,
}
use herdr_distributed_mesh.Journal.Records.{command_time, max_commands}
use herdr_distributed_mesh.Journal.Store.{
  Binding, CommandRow, Db, row_id, valid_row, read_rows, read_commands, put_record, write_record,
  advance_record, transition_command,
}
use herdr_distributed_mesh.Journal.Store.Sweeps.{
  is_still_running, swept_status, sweep, change_body, change_active_commands,
}
use herdr_distributed_mesh.Journal.Evolution.{SameHistory-refl}
use herdr_distributed_mesh.Journal.Steps.{
  IsSound, Grows, Grows-refl, Grows-trans, valid_row-id, transition_command-ok, transition-Grows,
}
unfoldable pub use Rows.{swept_row}
use Rows.{Swept, sweep-Swept}

-- From the start of the table.
pub sweep-mapped :
    (wire : Wire) (filter : CommandRow → Bool) (status : CommandStatus) (detail : String) (now : ℕ)
    (db db' : Db) (records : List CommandRecord)
    → IsSound wire db
    → read_commands wire filter db ≡ ok records
    → sweep wire status detail now records db ≡ ok (tt, db')
    → (db' ≡ record db { commands = map (swept_row filter status detail now) db.commands })
      × Grows wire db db'
unfolding read_commands
sweep-mapped wire filter status detail now db db' records s read h =
    let few = guard-eq-ok (leb (length db.commands) max_commands) invalid _ read in
    let all_swept =
      sweep-Swept wire filter status detail now db.bindings [] db.commands records db' s.unique
        few.1 h in
    (all_swept.mapped, all_swept.grown)

-- changeActiveCommands
change_body-mapped :
    (wire : Wire) (filter : CommandRow → Bool) (status : CommandStatus) (detail : String) (now : ℕ)
    (db db' : Db)
    → IsSound wire db
    → change_body wire filter status detail now db ≡ ok (tt, db')
    → (db' ≡ record db { commands = map (swept_row filter status detail now) db.commands })
      × Grows wire db db'
unfolding change_body
change_body-mapped wire filter status detail now db db' s h =
    let (stamp, timed, h') = >>=-eq-ok (command_time now) _ h in
    let (records, read, h'') = >>=-eq-ok (read_commands wire filter db) _ h' in
    sweep-mapped wire filter status detail now db db' records s read h''

pub change_active_commands-Grows :
    (wire : Wire) (filter : CommandRow → Bool) (status : CommandStatus) (detail : String) (now : ℕ)
    (db : Db)
    → IsSound wire db
    → Grows wire db (change_active_commands wire filter status detail now db).1
unfolding change_active_commands
change_active_commands-Grows wire filter status detail now db s =
    transaction-Grows wire (change_body wire filter status detail now) db
      (record { at = λ x h. (change_body-mapped wire filter status detail now db x.1 s h).1 })

-- A sweep of a sound journal that returns is one pass over the rows: each row that the filter selects
-- and that is not still running gets its new outcome and one audit event, and every other row stays.
pub change_active_commands-mapped :
    (wire : Wire) (filter : CommandRow → Bool) (status : CommandStatus) (detail : String) (now : ℕ)
    (db : Db)
    → IsSound wire db
    → (change_active_commands wire filter status detail now db).0 ≡ ok tt
    → (change_active_commands wire filter status detail now db).1
      ≡ record db { commands = map (swept_row filter status detail now) db.commands }
unfolding change_active_commands transaction
change_active_commands-mapped wire filter status detail now db s h =
    elim (Result-cases (change_body wire filter status detail now db)) [
      | inl (x, e) ↦ rw e (change_body-mapped wire filter status detail now db x.1 s e).0
      | inr (e, f) ↦ let g : err e ≡ ok tt = rw f at h in cc (g)
    ]
