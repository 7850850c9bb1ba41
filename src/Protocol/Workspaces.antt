-- ===== src/Protocol/Workspaces.antt =====
-- `workspace.ensure.v1` and `worktree.create.v1`: arguments and results (protocol/workspace.go,
-- protocol/worktree.go).
use herdr_distributed_mesh.Prelude.{
  nat_eq, string_eq, String, Bool, true, false, not, ◌&&◌, ◌||◌, Option, none, some, is_none, List,
  [], ◌∷◌, ◌==◌, contains, if◌then◌else◌,
}
use herdr_distributed_mesh.Protocol.Tokens.{
  command_token, valid_command_id, valid_worktree_name, commit_id,
}
use herdr_distributed_mesh.Protocol.Sessions.{validate_session_selector, valid_session_error}
use herdr_distributed_mesh.Protocol.Messages.{
  CommandStatus, succeeded, timed_out, rejected, indeterminate, WorkspaceEnsure,
  WorkspaceEnsureResult, WorktreeCreate, WorktreeCreateResult, CommandResult,
}

unfoldable pub validate_workspace_ensure : Option WorkspaceEnsure → Bool
validate_workspace_ensure none = false
validate_workspace_ensure (some request) =
    command_token request.project_id
    && command_token request.binding_revision
    && not request.unknown
    && validate_session_selector request.session_name request.session_incarnation false

abbrev pub project_rejections : List String
project_rejections =
    "journal_full" ∷ "project_unresolved" ∷ "project_not_authorized" ∷ "precondition_failed"
    ∷ "ambiguous_workspace" ∷ "herdr_unavailable" ∷ "authorization_changed" ∷ []

abbrev is_ensured : Option WorkspaceEnsureResult → String → Bool
is_ensured none detail = false
is_ensured (some value) detail =
    command_token value.project_id
    && command_token value.binding_revision
    && command_token value.workspace_id
    && not value.unknown
    && validate_session_selector value.session_name value.session_incarnation true
    && (if value.created then detail == "workspace_created" else detail == "workspace_present")

abbrev workspace_failure : CommandStatus → String → Bool
workspace_failure rejected detail = valid_session_error detail || contains project_rejections detail
workspace_failure timed_out detail = detail == "deadline_expired"
workspace_failure indeterminate detail =
    detail == "node_restarted" || detail == "herdr_outcome_unknown"
workspace_failure _ detail = false

abbrev workspace_outcome : CommandStatus → CommandResult → Bool
workspace_outcome succeeded result = is_ensured result.workspace_ensure result.detail
workspace_outcome status result =
    is_none result.workspace_ensure && workspace_failure status result.detail

unfoldable pub validate_workspace_result : CommandResult → Bool
validate_workspace_result result =
    valid_command_id result.command_id
    && not result.payload
    && is_none result.worktree_create
    && is_none result.agent_control
    && is_none result.session_ensure
    && is_none result.agent_lifecycle
    && not result.unknown
    && workspace_outcome result.status result

unfoldable pub validate_worktree_create : Option WorktreeCreate → Bool
validate_worktree_create none = false
validate_worktree_create (some request) =
    command_token request.project_id
    && command_token request.binding_revision
    && valid_worktree_name request.name
    && valid_worktree_name request.branch
    && commit_id request.base_commit
    && not request.unknown
    && validate_session_selector request.session_name request.session_incarnation false

-- The success data without its session, as the last call of ValidateWorktreeResult checks it.
abbrev as_worktree_create : WorktreeCreateResult → WorktreeCreate
as_worktree_create value = record {
  project_id = value.project_id;
  binding_revision = value.binding_revision;
  name = value.name;
  branch = value.branch;
  base_commit = value.base_commit;
  session_name = "";
  session_incarnation = "";
  unknown = false;
}

abbrev is_created : Option WorktreeCreateResult → Bool
is_created none = false
is_created (some value) =
    command_token value.workspace_id
    && not value.unknown
    && validate_session_selector value.session_name value.session_incarnation true
    && validate_worktree_create (some (as_worktree_create value))

abbrev worktree_outcome : CommandStatus → CommandResult → Bool
worktree_outcome succeeded result =
    result.detail == "worktree_created" && is_created result.worktree_create
worktree_outcome _ result = is_none result.worktree_create && validate_workspace_result result

unfoldable pub validate_worktree_result : CommandResult → Bool
validate_worktree_result result =
    valid_command_id result.command_id
    && not result.payload
    && is_none result.workspace_ensure
    && is_none result.agent_control
    && is_none result.session_ensure
    && is_none result.agent_lifecycle
    && not result.unknown
    && worktree_outcome result.status result
