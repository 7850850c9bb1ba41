-- ===== src/NodeJournal.antt =====
-- The tables of a node's journal, how they are read, and the result of an interrupted command
-- (state/node_journal.go, state/lifecycle.go, state/lifecycle_scope.go).
pub mod Methods
pub mod Recovered
pub mod Claims
pub mod Retention
pub mod Scopes
use herdr_distributed_mesh.Prelude.{
  nat_eq, string_eq, option_eq, ℕ, String, Bool, true, false, not, ◌&&◌, ◌||◌, Option, none, some,
  is_some, is_none, List, [], ◌∷◌, ◌==◌, ◌!=◌, leb, length, keep, if◌then◌else◌,
}
use herdr_distributed_mesh.Errors.{
  Result, ok, err, command_not_found, command_conflict, lifecycle_unresolved, invalid, guard, ◌>>=◌,
  ◌>>◌,
}
use herdr_distributed_mesh.Table.{find_row, update_row}
use herdr_distributed_mesh.Protocol.Lifecycle.{is_lifecycle_command}
use herdr_distributed_mesh.Protocol.Lifecycle.Receipt.{validate_lifecycle_receipt}
use herdr_distributed_mesh.Protocol.Lifecycle.Advance.{
  lifecycle_complete, lifecycle_has_unknown, lifecycle_has_effect,
}
use herdr_distributed_mesh.Protocol.Commands.{session_ensure_command_type}
use herdr_distributed_mesh.Protocol.Results.{validate_result_for_command}
use herdr_distributed_mesh.Protocol.Messages.{
  status_eq, command_eq, result_eq, CommandStatus, running, succeeded, failed, rejected,
  indeterminate, Command, CommandResult, AgentLifecycleReceipt, Wire, command_unknown,
  result_unknown, receipt_unknown,
}
use herdr_distributed_mesh.Journal.Records.{max_commands, fits_journal, admissible_command}
use herdr_distributed_mesh.Journal.Fence.{lifecycle_incarnation, lifecycle_conflict}

-- The table `node_commands`, and with it nodeCommandEntry: a NULL result is `none`.
pub record NodeRow : Type 0 where
  pub command_id : String
  pub status : CommandStatus
  pub delivered : Bool
  pub command : Command
  pub result : Option CommandResult

-- The table `node_lifecycle`.
pub record Checkpoint : Type 0 where
  pub command_id : String
  pub sequence : ℕ
  pub receipt : AgentLifecycleReceipt

-- The table `node_command_scopes`.
pub record Scope : Type 0 where
  pub command_id : String
  pub incarnation : String
  pub workspace_key : String
  pub terminal_key : String

pub record NodeDb : Type 0 where
  pub commands : List NodeRow
  pub lifecycle : List Checkpoint
  pub scopes : List Scope

abbrev pub node_row_id : NodeRow → String
node_row_id row = row.command_id

abbrev pub checkpoint_id : Checkpoint → String
checkpoint_id checkpoint = checkpoint.command_id

abbrev pub scope_id : Scope → String
scope_id scope = scope.command_id

abbrev pub with_node_id : String → NodeRow → Bool
with_node_id id row = row.command_id == id

abbrev valid_node_result : Wire → NodeRow → Option CommandResult → Bool
valid_node_result wire row none = false
valid_node_result wire row (some result) =
    fits_journal (wire.result_size result) (result_unknown result)
    && validate_result_for_command wire result row.command
    && result.command_id == row.command_id
    && result.status == row.status

-- What readNodeEntries checks of a row before it returns the entry.
unfoldable pub valid_node_row : Wire → String → NodeRow → Bool
valid_node_row wire node row =
    fits_journal (wire.command_size row.command) (command_unknown row.command)
    && admissible_command wire row.command node
    && row.command_id == row.command.command_id
    && (if row.status == running
        then is_none row.result && not row.delivered
        else valid_node_result wire row row.result)

unfoldable pub read_node_rows : Wire → String → List NodeRow → Result (List NodeRow)
read_node_rows wire node [] = ok []
read_node_rows wire node (row ∷ rows) = do
  guard (valid_node_row wire node row) invalid
  entries ← read_node_rows wire node rows
  ok (row ∷ entries)

-- readNodeEntries, with the WHERE clause as a test. No caller depends on the order of the rows.
unfoldable pub read_node_entries : Wire → String → (NodeRow → Bool) → NodeDb → Result (List NodeRow)
read_node_entries wire node filter db = do
  guard (leb (length db.commands) max_commands) invalid
  read_node_rows wire node (keep filter db.commands)

unfoldable pub the_only_entry : List NodeRow → Result NodeRow
the_only_entry [] = err command_not_found
the_only_entry (row ∷ []) = ok row
the_only_entry (row ∷ more) = err invalid

-- readNodeEntry
unfoldable pub read_node_entry : Wire → String → String → NodeDb → Result NodeRow
read_node_entry wire node id db =
    read_node_entries wire node (with_node_id id) db >>= the_only_entry

abbrev checked_receipt : Wire → Command → Option Checkpoint → Result (Option AgentLifecycleReceipt)
checked_receipt wire command none = ok none
checked_receipt wire command (some checkpoint) = do
  guard
      (fits_journal (wire.receipt_size checkpoint.receipt) (receipt_unknown checkpoint.receipt)
        && checkpoint.sequence == checkpoint.receipt.sequence
        && validate_lifecycle_receipt wire checkpoint.receipt command)
      invalid
  ok (some checkpoint.receipt)

-- readLifecycle
unfoldable pub read_lifecycle : Wire → Command → NodeDb → Result (Option AgentLifecycleReceipt)
read_lifecycle wire command db =
    checked_receipt wire command (find_row checkpoint_id command.command_id db.lifecycle)

unfoldable pub matching_node_command : Command → Command → Bool
matching_node_command original proposed =
    record original { ttl = none } == record proposed { ttl = none }

abbrev pub put_result : CommandResult → NodeRow → NodeRow
put_result result row = record row {
  status = result.status;
  result = some result;
  delivered = false;
}

-- writeNodeResult
unfoldable pub write_node_result : Wire → Command → CommandResult → NodeDb → Result NodeDb
write_node_result wire command result db = do
  guard (validate_result_for_command wire result command) invalid
  guard (fits_journal (wire.result_size result) (result_unknown result)) invalid
  ok (record db {
    commands = update_row node_row_id result.command_id (put_result result) db.commands;
  })

abbrev pub plain_result : String → CommandStatus → String → CommandResult
plain_result id status detail = record {
  command_id = id;
  status = status;
  detail = detail;
  payload = false;
  workspace_ensure = none;
  worktree_create = none;
  agent_control = none;
  session_ensure = none;
  agent_lifecycle = none;
  unknown = false;
}

unfoldable pub interrupted_node_result : String → CommandResult
interrupted_node_result id = plain_result id indeterminate "node_restarted"

unfoldable pub interrupted_command_result : Command → CommandResult
interrupted_command_result command =
    let result = interrupted_node_result command.command_id in
    if command.command_type == session_ensure_command_type
    then record result { detail = "startup_uncertain" }
    else result

-- The switch of recoveredLifecycleResult: what the receipt is evidence of.
unfoldable pub judged_result :
    CommandResult → Option AgentLifecycleReceipt → Command → CommandResult
judged_result result receipt command =
    if lifecycle_complete receipt command
    then record result {
      status = succeeded;
      detail = if is_some command.agent_stop then "agent_stopped" else "agent_started";
    }
    else if lifecycle_has_unknown receipt
    then record result { status = indeterminate; detail = "lifecycle_uncertain" }
    else if lifecycle_has_effect receipt
    then record result { status = failed; detail = "lifecycle_partial" }
    else record result { status = rejected }

-- recoveredLifecycleResult
unfoldable pub recovered_lifecycle_result : Wire → Command → NodeDb → Result CommandResult
recovered_lifecycle_result wire command db =
    let result = interrupted_command_result command in
    if is_lifecycle_command command.command_type
    then (do
      receipt ← read_lifecycle wire command db
      ok (judged_result (record result { agent_lifecycle = receipt }) receipt command))
    else ok result

-- SELECT incarnation FROM node_command_scopes WHERE command_id = ?
abbrev pinned_incarnation : Option Scope → String
pinned_incarnation none = ""
pinned_incarnation (some scope) = scope.incarnation

abbrev entry_status : Option CommandResult → CommandStatus
entry_status none = running
entry_status (some result) = result.status

-- The loop of checkNodeLifecycleFence over the open entries.
unfoldable pub fence_entries : Wire → Command → String → NodeDb → List NodeRow → Result (Unit {0})
fence_entries wire command scope db [] = ok tt
fence_entries wire command scope db (prior ∷ entries) =
    let rest = fence_entries wire command scope db entries in
    let pinned = pinned_incarnation (find_row scope_id prior.command.command_id db.scopes) in
    do
      receipt ←
          (if is_lifecycle_command prior.command.command_type
            then read_lifecycle wire prior.command db
            else ok none)
      guard
          (pinned != "" && scope != "" && pinned != scope
            || not (
                lifecycle_conflict prior.command receipt (entry_status prior.result) command scope))
          lifecycle_unresolved
      rest

abbrev pub is_open_entry : NodeRow → Bool
is_open_entry row = row.status == running || row.status == indeterminate

-- checkNodeLifecycleFence
unfoldable pub check_node_fence : Wire → String → Command → String → NodeDb → Result (Unit {0})
check_node_fence wire node command incarnation db =
    let scope = if incarnation == "" then lifecycle_incarnation command none else incarnation in
    if is_none command.agent_start && is_none command.agent_control then ok tt else do
      entries ← read_node_entries wire node is_open_entry db
      fence_entries wire command scope db entries
