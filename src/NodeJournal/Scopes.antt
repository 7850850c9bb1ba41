-- ===== src/NodeJournal/Scopes.antt =====
-- The methods of NodeJournal that pin native resources and save evidence (state/lifecycle.go,
-- state/lifecycle_scope.go).
use herdr_distributed_mesh.Prelude.{
  nat_eq, string_eq, option_eq, String, Bool, true, ◌&&◌, ◌||◌, Option, none, some, is_some,
  is_none, List, [], ◌∷◌, ◌++◌, ◌==◌, ◌!=◌, if◌then◌else◌,
}
use herdr_distributed_mesh.Errors.{
  Result, ok, command_conflict, invalid, guard, ◌>>=◌, ◌>>◌, transaction,
}
use herdr_distributed_mesh.Table.{find_row, update_row}
use herdr_distributed_mesh.Protocol.Tokens.{valid_idempotency_key, valid_session_incarnation}
use herdr_distributed_mesh.Protocol.Lifecycle.Receipt.{handle_target}
use herdr_distributed_mesh.Protocol.Lifecycle.Advance.{validate_lifecycle_advance}
use herdr_distributed_mesh.Protocol.Commands.{command_session}
use herdr_distributed_mesh.Protocol.Messages.{
  AgentControl, AgentLifecycleHandle, AgentLifecycleReceipt, Command, Wire, receipt_unknown,
}
use herdr_distributed_mesh.Journal.Records.{fits_journal}
use herdr_distributed_mesh.Journal.Fence.{incarnation_of, terminal_of}
use herdr_distributed_mesh.NodeJournal.{
  Checkpoint, Scope, NodeDb, checkpoint_id, scope_id, read_node_entry, read_lifecycle,
  check_node_fence,
}

-- INSERT ... ON CONFLICT(command_id) DO UPDATE
abbrev upsert : {Row : Type 0} → (Row → String) → Row → (Row → Row) → List Row → List Row
upsert key row f rows =
    if is_some (find_row key (key row) rows)
    then update_row key (key row) f rows
    else rows ++ row ∷ []

-- What PinAgentCommand pins: the terminal of the control's target.
abbrev control_terminal : Option AgentControl → String
control_terminal none = ""
control_terminal (some control) = terminal_of control.target

abbrev workspace_of : Option AgentLifecycleHandle → String
workspace_of none = ""
workspace_of (some handle) = handle.workspace_id

-- A pinned identity stays, once it is set.
abbrev keeps_scope : Option Scope → String → String → String → Bool
keeps_scope none incarnation workspace_key terminal_key = true
keeps_scope (some old) incarnation workspace_key terminal_key =
    old.incarnation == incarnation
    && (old.workspace_key == "" || old.workspace_key == workspace_key)
    && (old.terminal_key == "" || old.terminal_key == terminal_key)

module _ (digest : List String → String) where
  unfoldable pub lifecycle_resource_key : String → String → String → String → Result String
  lifecycle_resource_key node incarnation kind id = do
    guard
        (valid_idempotency_key node
          && valid_session_incarnation incarnation
          && valid_idempotency_key id
          && (kind == "workspace" || kind == "terminal"))
        invalid
    ok (digest (node ∷ incarnation ∷ kind ∷ id ∷ []))

  abbrev key_of : String → String → String → String → Result String
  key_of node incarnation kind id =
      if id != "" then lifecycle_resource_key node incarnation kind id else ok ""

  -- pinCommandScope
  unfoldable pub pin_command_scope :
      String → Command → String → String → String → NodeDb → Result NodeDb
  pin_command_scope node command incarnation workspace terminal db = do
    guard (valid_session_incarnation incarnation) command_conflict
    let expected = (command_session command).1
    guard (expected == "" || expected == incarnation) command_conflict
    workspace_key ← key_of node incarnation "workspace" workspace
    terminal_key ← key_of node incarnation "terminal" terminal
    let old = find_row scope_id command.command_id db.scopes
    guard (keeps_scope old incarnation workspace_key terminal_key) command_conflict
    let row : Scope = record {
      command_id = command.command_id;
      incarnation = incarnation;
      workspace_key = workspace_key;
      terminal_key = terminal_key;
    }
    let set : Scope → Scope =
        λ s. record s { workspace_key = workspace_key; terminal_key = terminal_key }
    ok (record db { scopes = upsert scope_id row set db.scopes })

  -- PinAgentCommand
  unfoldable pub pin_agent_command :
      Wire → String → String → String → NodeDb → Result (Unit {0}) × NodeDb
  pin_agent_command wire node id incarnation = transaction λ db. do
    row ← read_node_entry wire node id db
    guard (is_none row.result && is_some row.command.agent_control) command_conflict
    check_node_fence wire node row.command incarnation db
    let terminal = control_terminal row.command.agent_control
    db' ← pin_command_scope node row.command incarnation "" terminal db
    ok (tt, db')

  -- SaveLifecycle
  unfoldable pub save_lifecycle :
      Wire → String → String → AgentLifecycleReceipt → NodeDb → Result (Unit {0}) × NodeDb
  save_lifecycle wire node id receipt = transaction λ db. do
    row ← read_node_entry wire node id db
    guard (is_none row.result) command_conflict
    old ← read_lifecycle wire row.command db
    guard (validate_lifecycle_advance wire old receipt row.command) invalid
    let target = handle_target receipt.handle
    check_node_fence wire node row.command (incarnation_of target) db
    db' ←
        pin_command_scope node row.command (incarnation_of target) (workspace_of receipt.handle)
          (terminal_of target) db
    guard (fits_journal (wire.receipt_size receipt) (receipt_unknown receipt)) invalid
    let checkpoint : Checkpoint = record {
      command_id = id;
      sequence = receipt.sequence;
      receipt = receipt;
    }
    ok (
      tt,
      record db' { lifecycle = upsert checkpoint_id checkpoint (λ _. checkpoint) db'.lifecycle },
    )

-- GetLifecycle
unfoldable pub get_lifecycle :
    Wire → String → String → NodeDb → Result (Option AgentLifecycleReceipt)
get_lifecycle wire node id db = do
  row ← read_node_entry wire node id db
  read_lifecycle wire row.command db
