-- ===== src/NodeJournal/Methods.antt =====
-- The methods of NodeJournal (state/node_journal.go, state/lifecycle.go). `digest` is the hexadecimal
-- SHA-256 of texts joined with a zero byte, which the standard library computes.
use herdr_distributed_mesh.Prelude.{
  nat_eq, string_eq, option_eq, String, Bool, true, false, not, ◌&&◌, Option, none, some, is_blank,
  List, [], ◌∷◌, ◌++◌, ◌==◌, ◌!=◌, any, ltb, length, if◌then◌else◌,
}
use herdr_distributed_mesh.Errors.{
  Result, ok, err, command_not_found, command_conflict, command_capacity, lifecycle_unresolved,
  invalid, guard, ◌>>=◌, ◌>>◌, transaction,
}
use herdr_distributed_mesh.Table.{update_row}
use herdr_distributed_mesh.Protocol.Lifecycle.{is_lifecycle_command}
use herdr_distributed_mesh.Protocol.Commands.{command_project}
use herdr_distributed_mesh.Protocol.Results.{validate_command_result, validate_result_for_command}
use herdr_distributed_mesh.Protocol.Messages.{
  status_eq, result_eq, receipt_eq, CommandStatus, running, rejected, Command, CommandResult, Wire,
  command_unknown, result_unknown,
}
use herdr_distributed_mesh.Journal.Records.{max_commands, fits_journal, admissible_command}
use herdr_distributed_mesh.NodeJournal.{
  NodeRow, NodeDb, node_row_id, read_node_entries, read_node_entry, read_lifecycle,
  matching_node_command, write_node_result, plain_result, recovered_lifecycle_result, is_open_entry,
  check_node_fence,
}

-- What Claim answers: the result that is already known, and whether the claim was granted.
abbrev pub Claimed : Type 0
Claimed = (Option CommandResult × Bool) × NodeDb

abbrev insert_node : NodeRow → NodeDb → NodeDb
insert_node row db = record db { commands = db.commands ++ row ∷ [] }

abbrev pub running_row : Command → NodeRow
running_row command = record {
  command_id = command.command_id;
  status = running;
  delivered = false;
  command = command;
  result = none;
}

abbrev pub rejected_row : Command → CommandResult → NodeRow
rejected_row command result = record {
  command_id = command.command_id;
  status = result.status;
  delivered = false;
  command = command;
  result = some result;
}

-- The entry was there: its result, or the result of an interruption.
unfoldable pub claim_known :
    Wire → NodeRow → Option CommandResult → Command → NodeDb → Result Claimed
claim_known wire row (some result) command db = ok ((some result, false), db)
claim_known wire row none command db = do
  result ← recovered_lifecycle_result wire command db
  db' ← write_node_result wire row.command result db
  ok ((some result, false), db')

unfoldable pub claim_rejected : Wire → Command → String → NodeDb → Result Claimed
claim_rejected wire command detail db = do
  let result = plain_result command.command_id rejected detail
  guard (fits_journal (wire.result_size result) (result_unknown result)) invalid
  ok ((some result, false), insert_node (rejected_row command result) db)

unfoldable pub claim_granted : Command → NodeDb → Result Claimed
claim_granted command db = ok ((none, true), insert_node (running_row command) db)

abbrev pub blocks_project : String → NodeRow → Bool
blocks_project project prior =
    not (is_lifecycle_command prior.command.command_type)
    && (command_project prior.command).0 == project

unfoldable pub claim_in_project : Wire → Command → String → List NodeRow → NodeDb → Result Claimed
claim_in_project wire command project entries db =
    if any (blocks_project project) entries
    then claim_rejected wire command "project_unresolved" db
    else claim_granted command db

abbrev pub mutates_project : Command → Bool
mutates_project command =
    (command_project command).0 != "" && not (is_lifecycle_command command.command_type)

-- The fence around projects with an open mutation.
unfoldable pub claim_project : Wire → String → Command → NodeDb → Result Claimed
claim_project wire node command db =
    if mutates_project command
    then (do
      entries ← read_node_entries wire node is_open_entry db
      claim_in_project wire command (command_project command).0 entries db)
    else claim_granted command db

unfoldable pub claim_fenced : Wire → String → Command → Result (Unit {0}) → NodeDb → Result Claimed
claim_fenced wire node command (ok u) db = claim_project wire node command db
claim_fenced wire node command (err lifecycle_unresolved) db =
    claim_rejected wire command "lifecycle_unresolved" db
claim_fenced wire node command (err e) db = err e

unfoldable pub claim_new : Wire → String → Command → NodeDb → Result Claimed
claim_new wire node command db = do
  guard (ltb (length db.commands) max_commands) command_capacity
  guard (fits_journal (wire.command_size command) (command_unknown command)) invalid
  claim_fenced wire node command (check_node_fence wire node command "" db) db

unfoldable pub claim_found : Wire → String → Command → Result NodeRow → NodeDb → Result Claimed
claim_found wire node command (ok row) db = do
  guard (matching_node_command row.command command) command_conflict
  claim_known wire row row.result command db
claim_found wire node command (err command_not_found) db = claim_new wire node command db
claim_found wire node command (err e) db = err e

-- Claim
unfoldable pub claim :
    Wire → String → Command → NodeDb → Result (Option CommandResult × Bool) × NodeDb
claim wire node command = transaction λ db. do
  guard (admissible_command wire command node) invalid
  claim_found wire node command (read_node_entry wire node command.command_id db) db

-- A lifecycle result reports exactly the checkpoint.
unfoldable pub agrees_with_checkpoint : Wire → Command → CommandResult → NodeDb → Result (Unit {0})
agrees_with_checkpoint wire command result db =
    if is_lifecycle_command command.command_type
    then (do
      old ← read_lifecycle wire command db
      guard (old == result.agent_lifecycle) command_conflict)
    else ok tt

unfoldable pub complete_entry :
    Wire → NodeRow → Option CommandResult → CommandResult → NodeDb → Result (Unit {0} × NodeDb)
complete_entry wire row (some old) result db = do
  guard (old == result) command_conflict
  ok (tt, db)
complete_entry wire row none result db = do
  db' ← write_node_result wire row.command result db
  ok (tt, db')

-- Complete
unfoldable pub complete : Wire → String → CommandResult → NodeDb → Result (Unit {0}) × NodeDb
complete wire node result = transaction λ db. do
  guard (validate_command_result result) command_conflict
  row ← read_node_entry wire node result.command_id db
  guard (validate_result_for_command wire result row.command) command_conflict
  agrees_with_checkpoint wire row.command result db
  complete_entry wire row row.result result db

-- The results of entries, of which a terminal one always has one.
unfoldable pub results_of : List NodeRow → List CommandResult
results_of [] = []
results_of (row ∷ rows) = elim row.result [
  | none ↦ results_of rows
  | some result ↦ result ∷ results_of rows
]

-- PendingResults
unfoldable pub pending_results : Wire → String → NodeDb → Result (List CommandResult)
pending_results wire node db = do
  entries ← read_node_entries wire node (λ row. not row.delivered && row.status != running) db
  ok (results_of entries)

abbrev answers : Option CommandResult → CommandStatus → Bool
answers none status = false
answers (some result) status = result.status == status

abbrev pub set_delivered : NodeRow → NodeRow
set_delivered row = record row { delivered = true }

unfoldable pub acknowledge_body :
    Wire → String → String → CommandStatus → NodeDb → Result (Unit {0} × NodeDb)
acknowledge_body wire node id status db = do
  row ← read_node_entry wire node id db
  guard (answers row.result status) command_conflict
  if row.delivered
      then ok (tt, db)
      else ok (tt, record db { commands = update_row node_row_id id set_delivered db.commands })

-- Acknowledge
unfoldable pub acknowledge :
    Wire → String → String → CommandStatus → NodeDb → Result (Unit {0}) × NodeDb
acknowledge wire node id status =
    transaction λ db. do guard (not (is_blank id)) invalid; acknowledge_body wire node id status db

-- The loop of Recover.
unfoldable pub recover_entries : Wire → List NodeRow → NodeDb → Result (Unit {0} × NodeDb)
recover_entries wire [] db = ok (tt, db)
recover_entries wire (row ∷ rows) db = do
  result ← recovered_lifecycle_result wire row.command db
  db' ← write_node_result wire row.command result db
  recover_entries wire rows db'

-- Recover
unfoldable pub recover_node : Wire → String → NodeDb → Result (Unit {0}) × NodeDb
recover_node wire node = transaction λ db. do
  entries ← read_node_entries wire node (λ row. row.status == running) db
  recover_entries wire entries db
