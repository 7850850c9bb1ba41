-- ===== src/Journal/Store/Completion.antt =====
-- FinishCommand, finishLifecycleRecord (state/lifecycle_reconcile.go) and SaveCommandProgress
-- (state/lifecycle.go): how results and evidence from a node reach the record.
use herdr_distributed_mesh.Prelude.{
  string_eq, option_eq, ℕ, String, Bool, false, not, ◌&&◌, ◌||◌, Option, none, some, is_none,
  is_blank, List, [], ◌∷◌, ◌==◌, ◌!=◌, leb, if◌then◌else◌,
}
use herdr_distributed_mesh.Errors.{
  Result, ok, command_conflict, identity_conflict, invalid, guard, ◌>>=◌, ◌>>◌, transaction,
}
use herdr_distributed_mesh.Protocol.Tokens.{valid_command_id}
use herdr_distributed_mesh.Protocol.Lifecycle.{is_lifecycle_command}
use herdr_distributed_mesh.Protocol.Lifecycle.Advance.{validate_lifecycle_advance}
use herdr_distributed_mesh.Protocol.Commands.{is_terminal_command}
use herdr_distributed_mesh.Protocol.Results.{validate_command_result, validate_result_for_command}
use herdr_distributed_mesh.Protocol.Messages.{
  status_eq, result_eq, CommandStatus, running, indeterminate, AgentLifecycleReceipt, CommandResult,
  CommandRecord, Wire,
}
use herdr_distributed_mesh.Journal.Records.{command_time, record_result}
use herdr_distributed_mesh.Journal.Store.{
  Binding, Db, read_command, with_id, write_record, check_record, transition_command,
}

-- A proto message that a node reports while a lifecycle command runs.
pub record CommandProgress : Type 0 where
  pub command_id : String
  pub agent_lifecycle : Option AgentLifecycleReceipt
  pub unknown : Bool

-- SELECT stable_id FROM bindings WHERE instance_id = ?
unfoldable pub bound_stable_id : String → List Binding → Option String
bound_stable_id node [] = none
bound_stable_id node (b ∷ bindings) =
    if b.instance_id == node then some b.stable_id else bound_stable_id node bindings

abbrev pub is_active : CommandStatus → Bool
is_active status = status == running || status == indeterminate

-- The receipt that the record holds afterwards: the reported one, if it extends the old one.
unfoldable pub merged_receipt :
    Wire → Option AgentLifecycleReceipt → CommandRecord → Result (Option AgentLifecycleReceipt)
merged_receipt wire none r = do guard (is_none r.agent_lifecycle) command_conflict; ok none
merged_receipt wire (some receipt) r = do
  guard (validate_lifecycle_advance wire r.agent_lifecycle receipt r.command) command_conflict
  ok (some receipt)

-- finishLifecycleRecord
unfoldable pub finish_lifecycle_record :
    Wire → CommandRecord → CommandResult → ℕ → Db → Result (CommandRecord × Db)
unfolding merged_receipt
finish_lifecycle_record wire r result now db = if record_result r == result then ok (r, db) else do
  guard (is_active r.status) command_conflict
  receipt ← merged_receipt wire result.agent_lifecycle r
  let r' = record r { agent_lifecycle = receipt }
  if r.status != result.status || r.detail != result.detail
      then transition_command wire r' result.status result.detail now db
      else (do check_record wire r'; ok (r', write_record r' db))

-- Only a session's start may refine the uncertainty of a lost stream.
unfoldable pub keeps_uncertainty : CommandRecord → CommandResult → Bool
keeps_uncertainty r result =
    result.status == indeterminate
    && is_terminal_command r.status
    && (is_none r.command.session_ensure
        || r.status != indeterminate
        || r.detail != "node_disconnected"
        || result.detail != "startup_uncertain")

abbrev newest {ℓ} : {A : Type ℓ} → Option A → Option A → Option A
newest none old = old
newest (some a) old = some a

-- The record with the typed data of the result.
unfoldable pub with_data : CommandRecord → CommandResult → CommandRecord
with_data r result = record r {
  workspace_ensure = newest result.workspace_ensure r.workspace_ensure;
  worktree_create = newest result.worktree_create r.worktree_create;
  agent_control = newest result.agent_control r.agent_control;
  session_ensure = newest result.session_ensure r.session_ensure;
}

unfoldable pub finish_ordinary :
    Wire → CommandRecord → CommandResult → ℕ → Db → Result (CommandRecord × Db)
unfolding keeps_uncertainty with_data
finish_ordinary wire r result now db =
    if keeps_uncertainty r result || record_result r == result then ok (r, db) else do
      guard (is_active r.status) command_conflict
      transition_command wire (with_data r result) result.status result.detail now db

unfoldable pub finish_body :
    Wire → String → String → CommandResult → ℕ → Db → Result (CommandRecord × Db)
finish_body wire node stable result now db = do
  r ← read_command wire (with_id result.command_id) db
  guard (bound_stable_id node db.bindings == some stable && node == r.command.target_id)
      identity_conflict
  guard (validate_result_for_command wire result r.command) command_conflict
  if is_lifecycle_command r.command.command_type
      then finish_lifecycle_record wire r result now db
      else finish_ordinary wire r result now db

-- FinishCommand
unfoldable pub finish_command :
    Wire → String → String → CommandResult → ℕ → Db → Result CommandRecord × Db
unfolding finish_body
finish_command wire node stable result now = transaction λ db. do
  guard (not (is_blank node || is_blank stable)) invalid
  guard (validate_command_result result) command_conflict
  stamp ← command_time now
  finish_body wire node stable result now db

-- A delayed prefix of the evidence that the record already holds.
abbrev pub is_delayed : Option AgentLifecycleReceipt → Option AgentLifecycleReceipt → Bool
is_delayed (some held) (some reported) = leb reported.sequence held.sequence
is_delayed _ _ = false

abbrev pub advances :
    Wire → Option AgentLifecycleReceipt → Option AgentLifecycleReceipt → CommandRecord → Bool
advances wire old none r = false
advances wire old (some next) r = validate_lifecycle_advance wire old next r.command

unfoldable pub progress_body : Wire → String → CommandProgress → Db → Result (Unit {0} × Db)
progress_body wire node progress db = do
  r ← read_command wire (with_id progress.command_id) db
  guard (r.command.target_id == node) command_conflict
  if is_delayed r.agent_lifecycle progress.agent_lifecycle
      then (do
        guard (advances wire progress.agent_lifecycle r.agent_lifecycle r) command_conflict
        ok (tt, db))
      else (do
        guard (is_active r.status) command_conflict
        guard (advances wire r.agent_lifecycle progress.agent_lifecycle r) command_conflict
        let r' = record r { agent_lifecycle = progress.agent_lifecycle }
        check_record wire r'
        ok (tt, write_record r' db))

-- SaveCommandProgress
unfoldable pub save_command_progress : Wire → String → CommandProgress → Db → Result (Unit {0}) × Db
unfolding progress_body
save_command_progress wire node progress = transaction λ db. do
  guard (not progress.unknown && valid_command_id progress.command_id) command_conflict
  progress_body wire node progress db
