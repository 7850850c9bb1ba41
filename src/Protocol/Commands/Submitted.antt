-- ===== src/Protocol/Commands/Submitted.antt =====
-- The original request of an operator: its normal form, and its agreement with the command that was
-- resolved from it.
use text.Mathlib.Text.{starts_with}
use herdr_distributed_mesh.Prelude.{
  nat_eq, string_eq, option_eq, String, Bool, false, not, ◌&&◌, ◌||◌, Option, none, some, is_some,
  ◌==◌, ◌!=◌, if◌then◌else◌,
}
use herdr_distributed_mesh.Protocol.Tokens.{command_token, valid_idempotency_key}
use herdr_distributed_mesh.Protocol.Sessions.{matches_session}
use herdr_distributed_mesh.Protocol.Lifecycle.{
  normalize_agent_startup_timeout, agent_start_command_type, agent_stop_command_type,
}
use herdr_distributed_mesh.Protocol.Messages.{
  request_eq, session_ensure_eq, agent_control_eq, agent_start_eq, agent_stop_eq, Duration,
  WorkspaceEnsure, WorktreeCreate, AgentStart, SubmitCommandRequest, Command,
}
use herdr_distributed_mesh.Protocol.Commands.Body.{
  valid_command_body, valid_ttl, with_base_commit, command_project, command_session,
  session_ensure_command_type, agent_control_command_type,
}

-- What the check of the body supplies for the fields that the coordinator resolves.
abbrev managed_start : Option AgentStart → Option AgentStart
managed_start none = none
managed_start (some v) =
    some (if v.binding_revision == "" then record v { binding_revision = "managed" } else v)

abbrev managed_workspace : Option WorkspaceEnsure → Option WorkspaceEnsure
managed_workspace none = none
managed_workspace (some v) =
    some (if v.binding_revision == "" then record v { binding_revision = "managed" } else v)

abbrev managed_revision : WorktreeCreate → WorktreeCreate
managed_revision v =
    if v.binding_revision == "" then record v { binding_revision = "managed" } else v

abbrev managed_branch : WorktreeCreate → WorktreeCreate
managed_branch v = if v.branch == "" then record v { branch = v.name } else v

abbrev managed_worktree : Option WorktreeCreate → Option WorktreeCreate
managed_worktree none = none
managed_worktree (some v) = with_base_commit (some (managed_branch (managed_revision v)))

abbrev normal_timeout : Option AgentStart → Option AgentStart
normal_timeout none = none
normal_timeout (some v) = elim (normalize_agent_startup_timeout v.startup_timeout_ms) [
  | none ↦ some (record v { startup_timeout_ms = 0 })
  | some ms ↦ some (record v { startup_timeout_ms = ms })
]

-- DefaultCommandTTL
abbrev default_command_ttl : Duration
default_command_ttl = record { seconds = 10; nanos = 0; unknown = false }

abbrev normal_ttl : Option Duration → Option Duration
normal_ttl none = some default_command_ttl
normal_ttl (some ttl) = some ttl

unfoldable pub normalize_command_request : SubmitCommandRequest → Option SubmitCommandRequest
normalize_command_request request =
    let copy = record request {
      agent_start = normal_timeout request.agent_start;
      ttl = normal_ttl request.ttl;
    } in
    if not request.unknown
      && command_token request.node_instance_id
      && valid_idempotency_key request.idempotency_key
      && valid_command_body request.command_type (managed_workspace request.workspace_ensure)
          (managed_worktree request.worktree_create) request.agent_control request.session_ensure
          (managed_start request.agent_start) request.agent_stop
      && valid_ttl copy.ttl
    then some copy
    else none

-- A revision that the operator gave is kept; one left open was resolved to a managed generation.
abbrev resolves_revision : String → String → Bool
resolves_revision submitted revision =
    if submitted == "" then starts_with revision "managed:" else submitted == revision

unfoldable pub resolved_start : AgentStart → AgentStart → AgentStart
resolved_start want got = record want {
  binding_revision = got.binding_revision;
  session_incarnation = got.session_incarnation;
  initial_prompt = "";
}

abbrev validate_start_submitted : Option AgentStart → Option AgentStart → Bool
validate_start_submitted (some got) (some want) =
    got.initial_prompt == ""
    && (want.binding_revision == "" || want.binding_revision == got.binding_revision)
    && matches_session got.session_name got.session_incarnation want.session_name
        want.session_incarnation
    && resolved_start want got == got
validate_start_submitted _ _ = false

unfoldable pub validate_lifecycle_submitted : Command → SubmitCommandRequest → Bool
unfolding resolved_start
validate_lifecycle_submitted c r =
    if c.command_type == agent_stop_command_type
    then c.agent_stop == r.agent_stop
    else validate_start_submitted c.agent_start r.agent_start

abbrev validate_workspace_submitted : WorkspaceEnsure → Command → Bool
validate_workspace_submitted w c =
    is_some c.workspace_ensure
    && w.project_id == (command_project c).0
    && resolves_revision w.binding_revision (command_project c).1
    && matches_session (command_session c).0 (command_session c).1 w.session_name
        w.session_incarnation

abbrev validate_worktree_submitted : WorktreeCreate → Option WorktreeCreate → Command → Bool
validate_worktree_submitted w none c = false
validate_worktree_submitted w (some got) c =
    w.project_id == (command_project c).0
    && resolves_revision w.binding_revision (command_project c).1
    && matches_session (command_session c).0 (command_session c).1 w.session_name
        w.session_incarnation
    && w.name == got.name
    && (if w.branch == "" then w.name == got.branch else w.branch == got.branch)
    && w.base_commit == got.base_commit

abbrev validate_project_submitted : Option WorkspaceEnsure → Option WorktreeCreate → Command → Bool
validate_project_submitted (some w) worktree c = validate_workspace_submitted w c
validate_project_submitted none (some w) c = validate_worktree_submitted w c.worktree_create c
validate_project_submitted none none c = false

abbrev validate_submitted_as : SubmitCommandRequest → Command → Bool
validate_submitted_as r c =
    if c.command_type == agent_start_command_type || c.command_type == agent_stop_command_type
    then validate_lifecycle_submitted c r
    else if c.command_type == session_ensure_command_type
    then r.session_ensure == c.session_ensure
    else if c.command_type == agent_control_command_type
    then r.agent_control == c.agent_control
    else (command_project c).0 != ""
      && not (
          not (starts_with (command_project c).1 "managed:")
          && (command_session c).0 == ""
          && (command_session c).1 == "")
      && validate_project_submitted r.workspace_ensure r.worktree_create c

abbrev validate_normal : Option SubmitCommandRequest → SubmitCommandRequest → Command → Bool
validate_normal none submitted c = false
validate_normal (some r) submitted c =
    r == submitted
    && r.node_instance_id == c.target_id
    && r.command_type == c.command_type
    && r.idempotency_key == c.idempotency_key
    && validate_submitted_as r c

abbrev validate_submitted : Option SubmitCommandRequest → Command → Bool
validate_submitted none c = false
validate_submitted (some submitted) c =
    validate_normal (normalize_command_request submitted) submitted c

unfoldable pub validate_submitted_request : Command → Bool
unfolding normalize_command_request validate_lifecycle_submitted
validate_submitted_request c = validate_submitted c.submitted_request c
