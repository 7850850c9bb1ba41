-- ===== src/Journal/Records.antt =====
-- When a stored record is well formed (validateCommand to recordResult of state/commands.go), and
-- what makes two requests the same.
use herdr_distributed_mesh.Prelude.{
  nat_eq, string_eq, option_eq, ℕ, ◌+◌, String, Bool, true, false, not, ◌&&◌, Option, none, some,
  is_some, is_none, List, [], ◌∷◌, ◌==◌, ◌!=◌, leb, ltb, length, if◌then◌else◌,
}
use herdr_distributed_mesh.Errors.{Result, ok, err, invalid}
use herdr_distributed_mesh.Protocol.Lifecycle.{is_lifecycle_command}
use herdr_distributed_mesh.Protocol.Lifecycle.Receipt.{
  validate_lifecycle_receipt, max_lifecycle_receipt_bytes,
}
use herdr_distributed_mesh.Protocol.Commands.{validate_command, is_terminal_command}
use herdr_distributed_mesh.Protocol.Results.{validate_result_for_command}
use herdr_distributed_mesh.Protocol.Messages.{
  timestamp_eq, status_eq, command_eq, accepted, succeeded, unavailable, Timestamp, Duration,
  check_valid, as_time, as_duration, timestamp, AgentLifecycleReceipt, Command, CommandResult,
  CommandAudit, CommandRecord, Wire, record_unknown,
}
use herdr_distributed_mesh.Journal.Outcomes.{valid_command_outcome, valid_command_transition}

abbrev pub max_commands : ℕ
max_commands = 4096

abbrev pub max_command_bytes : ℕ
max_command_bytes = 16384

abbrev pub max_command_audit : ℕ
max_command_audit = 16

-- commandTime
unfoldable pub command_time : ℕ → Result Timestamp
command_time now = let stamp = timestamp now in if check_valid stamp then ok stamp else err invalid

-- The conditions of marshalCommandMessage, and of decodeCommandMessage on the same message.
unfoldable pub fits_journal : ℕ → Bool → Bool
fits_journal size unknown = ltb 0 size && leb size max_command_bytes && not unknown

unfoldable pub admissible_command : Wire → Command → String → Bool
admissible_command wire command target =
    leb (wire.command_size command) max_command_bytes
    && not (
        is_lifecycle_command command.command_type
        && ltb max_command_bytes (wire.command_size command + max_lifecycle_receipt_bytes + 1024))
    && validate_command wire command target

unfoldable pub record_result : CommandRecord → CommandResult
record_result r = record {
  command_id = r.command.command_id;
  status = r.status;
  detail = r.detail;
  payload = false;
  workspace_ensure = r.workspace_ensure;
  worktree_create = r.worktree_create;
  agent_control = r.agent_control;
  session_ensure = r.session_ensure;
  agent_lifecycle = r.agent_lifecycle;
  unknown = false;
}

abbrev holds_receipt : Wire → Option AgentLifecycleReceipt → Command → Bool
holds_receipt wire none command = true
holds_receipt wire (some receipt) command = validate_lifecycle_receipt wire receipt command

-- The typed data of the outcome agrees with the status.
unfoldable pub valid_outcome_data : Wire → CommandRecord → Bool
unfolding record_result
valid_outcome_data wire r =
    if is_lifecycle_command r.command.command_type
    then holds_receipt wire r.agent_lifecycle r.command
      && (if is_terminal_command r.status && r.status != unavailable
          then validate_result_for_command wire (record_result r) r.command
          else true)
    else is_none r.agent_lifecycle
      && (if r.status == succeeded
          then validate_result_for_command wire (record_result r) r.command
          else is_none r.workspace_ensure
            && is_none r.worktree_create
            && is_none r.agent_control
            && is_none r.session_ensure)

abbrev pub is_valid_time : Option Timestamp → Bool
is_valid_time none = false
is_valid_time (some t) = check_valid t

abbrev pub time_of : Option Timestamp → ℕ
time_of none = 0
time_of (some t) = as_time t

abbrev duration_of : Option Duration → ℕ
duration_of none = 0
duration_of (some d) = as_duration d

unfoldable pub valid_deadline : CommandRecord → Bool
valid_deadline r =
    ltb (time_of r.created_at) (time_of r.command.expires_at)
    && leb (time_of r.command.expires_at) (time_of r.created_at + duration_of r.command.ttl)

-- One event after the admission.
abbrev follows_event : String → CommandAudit → CommandAudit → Bool
follows_event kind previous event =
    is_valid_time event.occurred_at
    && valid_command_outcome kind event.status event.detail
    && leb (time_of previous.occurred_at) (time_of event.occurred_at)
    && valid_command_transition kind previous.status event.status event.detail

unfoldable pub valid_chain : String → CommandAudit → List CommandAudit → Bool
valid_chain kind previous [] = true
valid_chain kind previous (event ∷ events) =
    follows_event kind previous event && valid_chain kind event events

unfoldable pub last_event : CommandAudit → List CommandAudit → CommandAudit
last_event previous [] = previous
last_event previous (event ∷ events) = last_event event events

-- The audit begins with the admission, each event may follow the one before it, and the last one
-- is the record's outcome.
unfoldable pub valid_audit : CommandRecord → List CommandAudit → Bool
unfolding valid_chain last_event
valid_audit r [] = false
valid_audit r (admission ∷ events) =
    is_valid_time admission.occurred_at
    && valid_command_outcome r.command.command_type admission.status admission.detail
    && admission.status == accepted
    && admission.occurred_at == r.created_at
    && valid_chain r.command.command_type admission events
    && (last_event admission events).status == r.status
    && (last_event admission events).detail == r.detail
    && (last_event admission events).occurred_at == r.updated_at

unfoldable pub validate_command_record : Wire → CommandRecord → Bool
validate_command_record wire r =
    admissible_command wire r.command r.command.target_id
    && valid_outcome_data wire r
    && is_valid_time r.created_at
    && is_valid_time r.updated_at
    && leb (length r.audit) max_command_audit
    && not (record_unknown r)
    && valid_deadline r
    && valid_audit r r.audit

-- The request of a command without what the coordinator resolved for it.
abbrev unresolved : Command → Command
unresolved c = record c {
  workspace_ensure = none;
  worktree_create = none;
  agent_control = none;
  session_ensure = none;
  agent_start = none;
  agent_stop = none;
}

abbrev without_identity : Command → Command
without_identity c = record c { command_id = ""; expires_at = none; execution_expires_at = none }

unfoldable pub matching_request : Command → Command → Bool
matching_request original proposed =
    let a = without_identity original in
    let b = without_identity proposed in
    if is_some original.submitted_request && is_some proposed.submitted_request
    then unresolved a == unresolved b
    else a == b
