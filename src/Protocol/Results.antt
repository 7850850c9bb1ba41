-- ===== src/Protocol/Results.antt =====
-- Which results a node may report (ValidateProbeResult of protocol/commands.go, ValidateCommandResult
-- and ValidateResultForCommand of protocol/workspace.go).
use herdr_distributed_mesh.Prelude.{
  nat_eq, string_eq, String, Bool, true, false, not, ◌&&◌, ◌||◌, Option, none, some, is_some,
  is_none, ◌==◌, if◌then◌else◌,
}
use herdr_distributed_mesh.Protocol.Tokens.{valid_command_id}
use herdr_distributed_mesh.Protocol.Sessions.{validate_session_ensure_result, matches_session}
use herdr_distributed_mesh.Protocol.Agents.{
  validate_agent_control_result, equal_agent_target, agent_control_success_detail,
}
use herdr_distributed_mesh.Protocol.Workspaces.{validate_workspace_result, validate_worktree_result}
use herdr_distributed_mesh.Protocol.Lifecycle.{is_lifecycle_command, valid_lifecycle_detail}
use herdr_distributed_mesh.Protocol.Lifecycle.Advance.{validate_lifecycle_result}
use herdr_distributed_mesh.Protocol.Commands.{
  is_terminal_command, probe_command_type, session_ensure_command_type,
  workspace_ensure_command_type, worktree_create_command_type, agent_control_command_type,
}
use herdr_distributed_mesh.Protocol.Messages.{
  status_eq, CommandStatus, succeeded, timed_out, rejected, indeterminate, SessionView,
  SessionEnsure, AgentControl, AgentControlResult, WorkspaceEnsure, WorkspaceEnsureResult,
  WorktreeCreate, WorktreeCreateResult, Command, CommandResult, Wire,
}

abbrev probe_outcome : CommandStatus → String → Bool
probe_outcome succeeded detail = detail == "pong"
probe_outcome timed_out detail = detail == "deadline_expired"
probe_outcome rejected detail = detail == "journal_full"
probe_outcome indeterminate detail = detail == "node_restarted"
probe_outcome _ detail = false

unfoldable pub validate_probe_result : CommandResult → Bool
validate_probe_result result =
    valid_command_id result.command_id
    && not result.payload
    && is_none result.workspace_ensure
    && is_none result.worktree_create
    && is_none result.agent_control
    && is_none result.session_ensure
    && is_none result.agent_lifecycle
    && not result.unknown
    && probe_outcome result.status result.detail

-- The first test of ValidateCommandResult.
unfoldable pub plausible_lifecycle_result : CommandResult → Bool
plausible_lifecycle_result result =
    valid_command_id result.command_id
    && valid_lifecycle_detail result.detail
    && is_terminal_command result.status
    && not result.unknown
    && not result.payload
    && is_none result.workspace_ensure
    && is_none result.worktree_create
    && is_none result.agent_control
    && is_none result.session_ensure
    && (is_some result.agent_lifecycle
        || result.detail == "lifecycle_unresolved"
        || result.detail == "persistence_failed"
        || result.status == rejected && result.detail == "node_restarted")

unfoldable pub validate_command_result : CommandResult → Bool
unfolding plausible_lifecycle_result
validate_command_result result =
    plausible_lifecycle_result result
    || validate_session_ensure_result result
    || validate_probe_result result
    || validate_workspace_result result
    || validate_worktree_result result
    || validate_agent_control_result result

abbrev names_session : Option SessionView → Option SessionEnsure → Bool
names_session none ensure = true
names_session (some value) none = false
names_session (some value) (some ensure) = value.name == ensure.name

abbrev answers_control : Option AgentControlResult → Option AgentControl → String → Bool
answers_control none control detail = true
answers_control (some value) none detail = false
answers_control (some value) (some control) detail =
    equal_agent_target value.target control.target
    && detail == agent_control_success_detail control.action

abbrev answers_workspace : Option WorkspaceEnsureResult → Option WorkspaceEnsure → Bool
answers_workspace none ensure = true
answers_workspace (some value) none = false
answers_workspace (some value) (some want) =
    value.project_id == want.project_id
    && value.binding_revision == want.binding_revision
    && matches_session value.session_name value.session_incarnation want.session_name
        want.session_incarnation

abbrev answers_worktree : Option WorktreeCreateResult → Option WorktreeCreate → Bool → Bool
answers_worktree none create managed = true
answers_worktree (some value) none managed = false
answers_worktree (some value) (some want) managed =
    value.project_id == want.project_id
    && value.binding_revision == want.binding_revision
    && matches_session value.session_name value.session_incarnation want.session_name
        want.session_incarnation
    && value.name == want.name
    && value.branch == want.branch
    && (value.base_commit == want.base_commit || managed && want.base_commit == "")

-- The switch over the command's type.
abbrev result_for_type : Wire → CommandResult → Command → Bool
result_for_type wire result command =
    if is_lifecycle_command command.command_type
    then validate_lifecycle_result wire result command
    else if command.command_type == session_ensure_command_type
    then validate_session_ensure_result result
      && names_session result.session_ensure command.session_ensure
    else if command.command_type == agent_control_command_type
    then validate_agent_control_result result
      && answers_control result.agent_control command.agent_control result.detail
    else if command.command_type == probe_command_type
    then validate_probe_result result
    else if command.command_type == workspace_ensure_command_type
    then validate_workspace_result result
      && answers_workspace result.workspace_ensure command.workspace_ensure
    else command.command_type == worktree_create_command_type
      && validate_worktree_result result
      && answers_worktree result.worktree_create command.worktree_create
          (is_some command.submitted_request)

unfoldable pub validate_result_for_command : Wire → CommandResult → Command → Bool
validate_result_for_command wire result command =
    result.command_id == command.command_id
    && not (is_some result.agent_lifecycle && not (is_lifecycle_command command.command_type))
    && result_for_type wire result command
