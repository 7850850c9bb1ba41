-- ===== src/Journal/Outcomes.antt =====
-- Which details belong to a status, and which statuses may follow one another (the predicates at
-- the top of state/commands.go).
use herdr_distributed_mesh.Prelude.{
  nat_eq, string_eq, String, Bool, true, false, ◌&&◌, ◌||◌, List, [], ◌∷◌, ◌==◌, contains,
  if◌then◌else◌,
}
use herdr_distributed_mesh.Protocol.Sessions.{valid_session_error}
use herdr_distributed_mesh.Protocol.Lifecycle.{is_lifecycle_command, valid_lifecycle_detail}
use herdr_distributed_mesh.Protocol.Commands.{
  is_terminal_command, session_ensure_command_type, workspace_ensure_command_type,
  worktree_create_command_type, agent_control_command_type,
}
use herdr_distributed_mesh.Protocol.Messages.{
  status_eq, CommandStatus, accepted, running, succeeded, failed, timed_out, rejected,
  indeterminate, unavailable,
}

unfoldable pub project_mutation : String → Bool
project_mutation kind =
    kind == workspace_ensure_command_type || kind == worktree_create_command_type

unfoldable pub authorization_sensitive_command : String → Bool
unfolding project_mutation
authorization_sensitive_command kind =
    project_mutation kind
    || kind == agent_control_command_type
    || kind == session_ensure_command_type
    || is_lifecycle_command kind

abbrev succeeded_detail : String → String → Bool
succeeded_detail kind detail =
    if kind == session_ensure_command_type
    then detail == "session_ready"
    else if kind == agent_control_command_type
    then detail == "agent_prompt_sent"
      || detail == "agent_input_sent"
      || detail == "agent_interrupt_sent"
    else if kind == worktree_create_command_type
    then detail == "worktree_created"
    else if kind == workspace_ensure_command_type
    then detail == "workspace_created" || detail == "workspace_present"
    else detail == "pong"

abbrev control_rejections : List String
control_rejections =
    "journal_full" ∷ "precondition_failed" ∷ "agent_busy" ∷ "agent_blocked" ∷ "target_changed"
    ∷ "herdr_unavailable" ∷ "unsupported" ∷ "authorization_changed" ∷ "lifecycle_unresolved" ∷ []

abbrev mutation_rejections : List String
mutation_rejections =
    "journal_full" ∷ "project_unresolved" ∷ "project_not_authorized" ∷ "precondition_failed"
    ∷ "ambiguous_workspace" ∷ "herdr_unavailable" ∷ "authorization_changed" ∷ []

abbrev rejected_detail : String → String → Bool
rejected_detail kind detail =
    if authorization_sensitive_command kind && valid_session_error detail
    then true
    else if kind == session_ensure_command_type
    then detail == "journal_full" || detail == "authorization_changed"
    else if kind == agent_control_command_type
    then contains control_rejections detail
    else if project_mutation kind
    then contains mutation_rejections detail
    else detail == "journal_full"

abbrev indeterminate_detail : String → String → Bool
indeterminate_detail kind detail =
    detail == "node_restarted"
    || detail == "server_restarted"
    || detail == "node_disconnected"
    || detail == "deadline_expired"
    || (project_mutation kind || kind == agent_control_command_type)
      && detail == "herdr_outcome_unknown"
    || kind == session_ensure_command_type && detail == "startup_uncertain"

abbrev status_detail : String → CommandStatus → String → Bool
status_detail kind accepted detail = detail == "accepted"
status_detail kind running detail = detail == "dispatched"
status_detail kind succeeded detail = succeeded_detail kind detail
status_detail kind timed_out detail = detail == "deadline_expired"
status_detail kind rejected detail = rejected_detail kind detail
status_detail kind indeterminate detail = indeterminate_detail kind detail
status_detail kind unavailable detail =
    detail == "node_disconnected" || detail == "server_restarted"
status_detail kind _ detail = false

unfoldable pub valid_command_outcome : String → CommandStatus → String → Bool
unfolding authorization_sensitive_command project_mutation is_terminal_command
valid_command_outcome kind status detail =
    if is_lifecycle_command kind && is_terminal_command status
    then valid_lifecycle_detail detail
    else status_detail kind status detail

abbrev follows : String → CommandStatus → CommandStatus → String → Bool
follows kind accepted to detail =
    to == running
    || to == timed_out
    || to == unavailable
    || authorization_sensitive_command kind && to == rejected && detail == "authorization_changed"
follows kind running to detail =
    to == succeeded || to == timed_out || to == rejected || to == indeterminate
follows kind indeterminate to detail =
    to == succeeded
    || to == timed_out
    || to == rejected
    || kind == session_ensure_command_type && to == indeterminate && detail == "startup_uncertain"
follows kind _ to detail = false

unfoldable pub valid_command_transition : String → CommandStatus → CommandStatus → String → Bool
unfolding authorization_sensitive_command
valid_command_transition kind from to detail =
    is_lifecycle_command kind
      && (from == running || from == indeterminate)
      && (to == failed || to == indeterminate)
    || follows kind from to detail
