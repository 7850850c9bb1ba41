-- ===== src/Protocol/Commands/Body.antt =====
-- The arguments that belong to each command type, and the project and session that they name.
use herdr_distributed_mesh.Prelude.{
  nat_eq, string_eq, ℕ, ◌*◌, String, Bool, false, not, ◌&&◌, ◌||◌, Option, none, some, is_some,
  is_none, ◌==◌, leb, ltb, if◌then◌else◌,
}
use herdr_distributed_mesh.Protocol.Sessions.{validate_session_ensure}
use herdr_distributed_mesh.Protocol.Agents.{validate_agent_control}
use herdr_distributed_mesh.Protocol.Workspaces.{validate_workspace_ensure, validate_worktree_create}
use herdr_distributed_mesh.Protocol.Lifecycle.{
  is_lifecycle_command, agent_start_command_type, agent_stop_command_type, validate_agent_start,
  validate_agent_stop,
}
use herdr_distributed_mesh.Protocol.Messages.{
  Duration, check_duration, as_duration, second, WorkspaceEnsure, WorktreeCreate, AgentControl,
  SessionEnsure, AgentStart, AgentStop, AgentTarget, Command,
}

abbrev pub probe_command_type : String
probe_command_type = "node.ping.v1"

abbrev pub session_ensure_command_type : String
session_ensure_command_type = "sessions.ensure.v1"

abbrev pub workspace_ensure_command_type : String
workspace_ensure_command_type = "workspace.ensure.v1"

abbrev pub worktree_create_command_type : String
worktree_create_command_type = "worktree.create.v1"

abbrev pub agent_control_command_type : String
agent_control_command_type = "agent.control.v1"

unfoldable pub valid_command_body :
    String
    → Option WorkspaceEnsure
    → Option WorktreeCreate
    → Option AgentControl
    → Option SessionEnsure
    → Option AgentStart
    → Option AgentStop
    → Bool
valid_command_body kind workspace worktree agent session start stop =
    if is_some start || is_some stop || is_lifecycle_command kind
    then is_none workspace
      && is_none worktree
      && is_none agent
      && is_none session
      && (if kind == agent_start_command_type && is_none stop
          then validate_agent_start start
          else kind == agent_stop_command_type && is_none start && validate_agent_stop stop)
    else if is_some session
    then kind == session_ensure_command_type
      && is_none workspace
      && is_none worktree
      && is_none agent
      && validate_session_ensure session
    else if kind == probe_command_type
    then is_none workspace && is_none worktree && is_none agent
    else if kind == workspace_ensure_command_type
    then is_none worktree && is_none agent && validate_workspace_ensure workspace
    else if kind == worktree_create_command_type
    then is_none workspace && is_none agent && validate_worktree_create worktree
    else kind == agent_control_command_type
      && is_none workspace
      && is_none worktree
      && validate_agent_control agent

abbrev pub max_command_ttl : ℕ
max_command_ttl = 30 * second

unfoldable pub valid_ttl : Option Duration → Bool
valid_ttl none = false
valid_ttl (some ttl) =
    check_duration ttl
    && not ttl.unknown
    && ltb 0 (as_duration ttl)
    && leb (as_duration ttl) max_command_ttl

-- The commit that stands in for one that the node resolves.
abbrev pub zero_commit : String
zero_commit = "0000000000000000000000000000000000000000"

abbrev pub with_base_commit : Option WorktreeCreate → Option WorktreeCreate
with_base_commit none = none
with_base_commit (some w) =
    some (if w.base_commit == "" then record w { base_commit = zero_commit } else w)

-- The getters of protobuf, which answer the empty text for nil.
abbrev start_project : Option AgentStart → String × String
start_project none = ("", "")
start_project (some v) = (v.project_id, v.binding_revision)

abbrev workspace_project : Option WorkspaceEnsure → String × String
workspace_project none = ("", "")
workspace_project (some v) = (v.project_id, v.binding_revision)

abbrev worktree_project : Option WorktreeCreate → String × String
worktree_project none = ("", "")
worktree_project (some v) = (v.project_id, v.binding_revision)

unfoldable pub command_project : Command → String × String
command_project command =
    if command.command_type == agent_start_command_type
    then start_project command.agent_start
    else if command.command_type == workspace_ensure_command_type
    then workspace_project command.workspace_ensure
    else if command.command_type == worktree_create_command_type
    then worktree_project command.worktree_create
    else ("", "")

abbrev target_session : Option AgentTarget → String × String
target_session none = ("", "")
target_session (some t) = (t.session_name, t.session_incarnation)

abbrev start_session : Option AgentStart → String × String
start_session none = ("", "")
start_session (some v) = (v.session_name, v.session_incarnation)

abbrev stop_session : Option AgentStop → String × String
stop_session none = ("", "")
stop_session (some v) = target_session v.target

abbrev workspace_session : Option WorkspaceEnsure → String × String
workspace_session none = ("", "")
workspace_session (some v) = (v.session_name, v.session_incarnation)

abbrev worktree_session : Option WorktreeCreate → String × String
worktree_session none = ("", "")
worktree_session (some v) = (v.session_name, v.session_incarnation)

abbrev control_session : Option AgentControl → String × String
control_session none = ("", "")
control_session (some v) = target_session v.target

abbrev ensured_session : Option SessionEnsure → String × String
ensured_session none = ("", "")
ensured_session (some v) = (v.name, "")

unfoldable pub command_session : Command → String × String
command_session command =
    if command.command_type == agent_start_command_type
    then start_session command.agent_start
    else if command.command_type == agent_stop_command_type
    then stop_session command.agent_stop
    else if command.command_type == workspace_ensure_command_type
    then workspace_session command.workspace_ensure
    else if command.command_type == worktree_create_command_type
    then worktree_session command.worktree_create
    else if command.command_type == agent_control_command_type
    then control_session command.agent_control
    else if command.command_type == session_ensure_command_type
    then ensured_session command.session_ensure
    else ("", "")
