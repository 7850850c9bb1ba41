-- ===== src/Protocol/Commands.antt =====
-- Which commands a node may be sent (protocol/commands.go, validateCommandBody of
-- protocol/agent.go, CommandProject and CommandSession, ValidateSubmittedRequest of
-- protocol/projects.go with its lifecycle part).
mod Body
mod Submitted
use herdr_distributed_mesh.Prelude.{
  nat_eq, string_eq, ℕ, ◌+◌, ◌*◌, String, Bool, true, false, not, ◌&&◌, ◌||◌, Option, none, some,
  is_some, is_none, ◌==◌, ◌!=◌, leb, ltb, if◌then◌else◌,
}
use herdr_distributed_mesh.Protocol.Tokens.{command_token, valid_command_id}
use herdr_distributed_mesh.Protocol.Lifecycle.{is_lifecycle_command, lifecycle_execution_deadline}
use herdr_distributed_mesh.Protocol.Lifecycle.Receipt.{max_lifecycle_receipt_bytes}
use herdr_distributed_mesh.Protocol.Messages.{
  role_eq, origin_eq, role_controller, origin_unspecified, Actor, Timestamp, check_valid, as_time,
  AgentStart, AgentStop, Command, Wire, WorktreeCreate, CommandStatus, succeeded, failed, timed_out,
  rejected, indeterminate, unavailable,
}
use Body.{zero_commit, with_base_commit}
use Submitted.{validate_submitted_request}
unfoldable pub use Body.{
  probe_command_type, session_ensure_command_type, workspace_ensure_command_type,
  worktree_create_command_type, agent_control_command_type, command_project, command_session,
  valid_command_body, valid_ttl,
}

abbrev valid_actor : Option Actor → Bool
valid_actor none = false
valid_actor (some actor) =
    command_token actor.actor_id
    && actor.role == role_controller
    && actor.origin == origin_unspecified
    && actor.hop_count == 0
    && not actor.unknown

-- A timestamp that is set, valid and free of unknown fields.
abbrev pub is_stamped : Option Timestamp → Bool
is_stamped none = false
is_stamped (some t) = check_valid t && not t.unknown

abbrev is_deadline : Option Timestamp → ℕ → Bool
is_deadline none expected = false
is_deadline (some t) expected = as_time t == expected

abbrev is_execution_deadline : Option Timestamp → Option ℕ → Bool
is_execution_deadline t none = false
is_execution_deadline t (some expected) = is_stamped t && is_deadline t expected

abbrev expiry_time : Option Timestamp → ℕ
expiry_time none = 0
expiry_time (some t) = as_time t

abbrev valid_deadlines : Option AgentStart → Command → Bool
valid_deadlines (some start) command =
    is_some command.submitted_request
    && is_execution_deadline command.execution_expires_at
        (lifecycle_execution_deadline (expiry_time command.expires_at) start.startup_timeout_ms)
valid_deadlines none command =
    is_none command.execution_expires_at
    && not (is_some command.agent_stop && is_none command.submitted_request)

-- The base commit of a managed worktree request is resolved by the node.
abbrev checked_worktree : Command → Option WorktreeCreate
checked_worktree command =
    if is_some command.submitted_request
    then with_base_commit command.worktree_create
    else command.worktree_create

unfoldable pub validate_command : Wire → Command → String → Bool
validate_command wire command node =
    valid_command_id command.command_id
    && command.target_id == node
    && command_token command.target_id
    && command_token command.idempotency_key
    && not command.unknown
    && not (
        is_lifecycle_command command.command_type
        && ltb 16384 (wire.command_size command + max_lifecycle_receipt_bytes + 1024))
    && (is_none command.submitted_request || validate_submitted_request command)
    && valid_command_body command.command_type command.workspace_ensure (checked_worktree command)
        command.agent_control command.session_ensure command.agent_start command.agent_stop
    && valid_actor command.actor
    && not command.payload
    && not command.preconditions
    && is_stamped command.expires_at
    && valid_deadlines command.agent_start command
    && valid_ttl command.ttl

-- CommandExecutionDeadline
abbrev execution_or : Option Timestamp → Option Timestamp → ℕ
execution_or (some t) expires_at = as_time t
execution_or none expires_at = expiry_time expires_at

unfoldable pub command_execution_deadline : Command → ℕ
command_execution_deadline command = execution_or command.execution_expires_at command.expires_at

unfoldable pub is_terminal_command : CommandStatus → Bool
is_terminal_command succeeded = true
is_terminal_command failed = true
is_terminal_command timed_out = true
is_terminal_command rejected = true
is_terminal_command indeterminate = true
is_terminal_command unavailable = true
is_terminal_command _ = false
