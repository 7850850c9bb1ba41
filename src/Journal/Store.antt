-- ===== src/Journal/Store.antt =====
-- The tables of the coordinator, how they are read, and the steps that write one record
-- (state/commands.go). The methods of Store that are built from them are in the modules below.
pub mod Operations
pub mod Completion
pub mod Sweeps
use herdr_distributed_mesh.Prelude.{
  nat_eq, string_eq, option_eq, ℕ, ◌+◌, String, Bool, true, false, not, ◌&&◌, ◌||◌, Option, none,
  some, is_some, is_none, List, [], ◌∷◌, ◌++◌, ◌==◌, ◌!=◌, leb, ltb, length, all, any, keep,
  if◌then◌else◌,
}
use herdr_distributed_mesh.Errors.{
  Result, ok, err, Error, command_not_found, command_conflict, invalid, guard, ◌>>=◌, ◌>>◌,
}
use herdr_distributed_mesh.Table.{find_row, update_row}
use herdr_distributed_mesh.Protocol.Messages.{
  status_eq, CommandStatus, Timestamp, Actor, Command, CommandAudit, CommandRecord, Wire,
  record_unknown,
}
use herdr_distributed_mesh.Journal.Outcomes.{valid_command_outcome, valid_command_transition}
use herdr_distributed_mesh.Journal.Records.{
  max_commands, max_command_audit, fits_journal, validate_command_record, command_time,
}

-- The table `bindings`.
pub record Binding : Type 0 where
  pub stable_id : String
  pub instance_id : String

-- The table `commands`. `payload` is the message that the BLOB column `record` encodes.
pub record CommandRow : Type 0 where
  pub command_id : String
  pub actor_id : String
  pub idempotency_key : String
  pub target_id : String
  pub expires_seconds : ℕ
  pub expires_nanos : ℕ
  pub status : CommandStatus
  pub payload : CommandRecord

pub record Db : Type 0 where
  pub commands : List CommandRow
  pub bindings : List Binding

abbrev pub row_id : CommandRow → String
row_id row = row.command_id

abbrev pub actor_of : Option Actor → String
actor_of none = ""
actor_of (some actor) = actor.actor_id

abbrev pub seconds_of : Option Timestamp → ℕ
seconds_of none = 0
seconds_of (some t) = t.seconds

abbrev pub nanos_of : Option Timestamp → ℕ
nanos_of none = 0
nanos_of (some t) = t.nanos

abbrev pub is_bound : String → List Binding → Bool
is_bound target = any (λ b. b.instance_id == target)

-- The indexed columns are those of the command in the payload.
unfoldable pub agrees_with_columns : CommandRow → Bool
agrees_with_columns row =
    row.command_id == row.payload.command.command_id
    && row.actor_id == actor_of row.payload.command.actor
    && row.idempotency_key == row.payload.command.idempotency_key
    && row.target_id == row.payload.command.target_id
    && row.expires_seconds == seconds_of row.payload.command.expires_at
    && row.expires_nanos == nanos_of row.payload.command.expires_at
    && row.status == row.payload.status

-- What readCommands checks of a row before it returns the record.
unfoldable pub valid_row : Wire → List Binding → CommandRow → Bool
unfolding agrees_with_columns
valid_row wire bindings row =
    fits_journal (wire.record_size row.payload) (record_unknown row.payload)
    && validate_command_record wire row.payload
    && agrees_with_columns row
    && is_bound row.target_id bindings

unfoldable pub read_rows : Wire → List Binding → List CommandRow → Result (List CommandRecord)
read_rows wire bindings [] = ok []
read_rows wire bindings (row ∷ rows) = do
  guard (valid_row wire bindings row) invalid
  records ← read_rows wire bindings rows
  ok (row.payload ∷ records)

-- readCommands, with the WHERE clause as a test. No caller depends on the order of the rows.
unfoldable pub read_commands : Wire → (CommandRow → Bool) → Db → Result (List CommandRecord)
unfolding read_rows
read_commands wire filter db = do
  guard (leb (length db.commands) max_commands) invalid
  read_rows wire db.bindings (keep filter db.commands)

unfoldable pub the_only : List CommandRecord → Result CommandRecord
the_only [] = err command_not_found
the_only (record_ ∷ []) = ok record_
the_only (record_ ∷ more) = err invalid

unfoldable pub read_command : Wire → (CommandRow → Bool) → Db → Result CommandRecord
unfolding read_commands the_only
read_command wire filter db = read_commands wire filter db >>= the_only

abbrev pub with_id : String → CommandRow → Bool
with_id id row = row.command_id == id

abbrev pub with_key : String → String → CommandRow → Bool
with_key actor key row = row.actor_id == actor && row.idempotency_key == key

-- What an UPDATE of a command sets.
abbrev pub put_record : CommandRecord → CommandRow → CommandRow
put_record r row = record row { status = r.status; payload = r }

-- UPDATE commands SET status = ?, record = ? WHERE command_id = ?
unfoldable pub write_record : CommandRecord → Db → Db
write_record r db = record db {
  commands = update_row row_id r.command.command_id (put_record r) db.commands;
}

-- The checks before a write: validateCommandRecord and marshalCommandMessage.
unfoldable pub check_record : Wire → CommandRecord → Result (Unit {0})
check_record wire r = do
  guard (validate_command_record wire r) invalid
  guard (fits_journal (wire.record_size r) (record_unknown r)) invalid

abbrev pub audit_event : CommandStatus → String → Timestamp → CommandAudit
audit_event status detail stamp = record {
  status = status;
  detail = detail;
  occurred_at = some stamp;
  unknown = false;
}

-- A record with one more event, which is its new outcome.
unfoldable pub advance_record : CommandRecord → CommandStatus → String → Timestamp → CommandRecord
advance_record r status detail stamp = record r {
  status = status;
  detail = detail;
  updated_at = some stamp;
  audit = r.audit ++ audit_event status detail stamp ∷ [];
}

-- transitionCommand: the record after the transition, and the tables with it.
unfoldable pub transition_command :
    Wire → CommandRecord → CommandStatus → String → ℕ → Db → Result (CommandRecord × Db)
unfolding check_record advance_record
transition_command wire r status detail now db = do
  guard
      (valid_command_transition r.command.command_type r.status status detail
        && valid_command_outcome r.command.command_type status detail)
      command_conflict
  guard (ltb (length r.audit) max_command_audit) invalid
  stamp ← command_time now
  let r' = advance_record r status detail stamp
  check_record wire r'
  ok (r', write_record r' db)
