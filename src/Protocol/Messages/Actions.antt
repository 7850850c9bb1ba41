-- ===== src/Protocol/Messages/Actions.antt =====
-- What a command asks of a node, and what a node answers.
use native.Mathlib.Decide.{ℕ_discrete}
use herdr_distributed_mesh.Prelude.{ℕ, String, Bool, Option, List, Eq, eq_by, String_discrete}
use herdr_distributed_mesh.Protocol.Messages.Basic.{
  Timestamp, AgentControlAction, Timestamp-discrete, AgentControlAction-discrete,
}

pub record AgentTarget : Type 0 where
  pub pane_id : String
  pub terminal_id : String
  pub agent_session_id : String
  pub session_name : String
  pub session_incarnation : String
  pub unknown : Bool

pub record AgentControl : Type 0 where
  pub action : AgentControlAction
  pub target : Option AgentTarget
  pub text : String
  pub keys : List String
  pub unknown : Bool

pub record AgentControlResult : Type 0 where
  pub target : Option AgentTarget
  pub observed_status : String
  pub state_change_seq : ℕ
  pub unknown : Bool

pub record WorkspaceEnsure : Type 0 where
  pub project_id : String
  pub binding_revision : String
  pub session_name : String
  pub session_incarnation : String
  pub unknown : Bool

pub record WorkspaceEnsureResult : Type 0 where
  pub project_id : String
  pub binding_revision : String
  pub workspace_id : String
  pub created : Bool
  pub session_name : String
  pub session_incarnation : String
  pub unknown : Bool

pub record WorktreeCreate : Type 0 where
  pub project_id : String
  pub binding_revision : String
  pub name : String
  pub branch : String
  pub base_commit : String
  pub session_name : String
  pub session_incarnation : String
  pub unknown : Bool

pub record WorktreeCreateResult : Type 0 where
  pub project_id : String
  pub binding_revision : String
  pub workspace_id : String
  pub name : String
  pub branch : String
  pub base_commit : String
  pub session_name : String
  pub session_incarnation : String
  pub unknown : Bool

pub record SessionEnsure : Type 0 where
  pub name : String
  pub unknown : Bool

-- `herdr` stands for the pointer to a HerdrState, of which the rules ask only whether it is nil.
pub record SessionView : Type 0 where
  pub name : String
  pub incarnation : String
  pub status : String
  pub error_code : String
  pub herdr : Bool
  pub herdr_received_at : Option Timestamp
  pub stale : Bool
  pub unknown : Bool

pub record AgentStart : Type 0 where
  pub project_id : String
  pub binding_revision : String
  pub workspace_id : String
  pub name : String
  pub provider : String
  pub session_name : String
  pub session_incarnation : String
  pub startup_timeout_ms : ℕ
  pub initial_prompt : String
  pub unknown : Bool

pub record AgentStop : Type 0 where
  pub target : Option AgentTarget
  pub workspace_id : String
  pub tab_id : String
  pub provider : String
  pub unknown : Bool

-- `proto.Equal`: all fields agree.
unfoldable pub AgentTarget-discrete : Discrete AgentTarget
unfolding String_discrete
AgentTarget-discrete = hlevel (String_discrete)

unfoldable pub AgentControl-discrete : Discrete AgentControl
unfolding String_discrete AgentTarget-discrete AgentControlAction-discrete
AgentControl-discrete = hlevel (String_discrete, AgentTarget-discrete, AgentControlAction-discrete)

unfoldable pub AgentControlResult-discrete : Discrete AgentControlResult
unfolding ℕ_discrete String_discrete AgentTarget-discrete
AgentControlResult-discrete = hlevel (ℕ_discrete, String_discrete, AgentTarget-discrete)

unfoldable pub WorkspaceEnsure-discrete : Discrete WorkspaceEnsure
unfolding String_discrete
WorkspaceEnsure-discrete = hlevel (String_discrete)

unfoldable pub WorkspaceEnsureResult-discrete : Discrete WorkspaceEnsureResult
unfolding String_discrete
WorkspaceEnsureResult-discrete = hlevel (String_discrete)

unfoldable pub WorktreeCreate-discrete : Discrete WorktreeCreate
unfolding String_discrete
WorktreeCreate-discrete = hlevel (String_discrete)

unfoldable pub WorktreeCreateResult-discrete : Discrete WorktreeCreateResult
unfolding String_discrete
WorktreeCreateResult-discrete = hlevel (String_discrete)

unfoldable pub SessionEnsure-discrete : Discrete SessionEnsure
unfolding String_discrete
SessionEnsure-discrete = hlevel (String_discrete)

unfoldable pub SessionView-discrete : Discrete SessionView
unfolding String_discrete Timestamp-discrete
SessionView-discrete = hlevel (String_discrete, Timestamp-discrete)

unfoldable pub AgentStart-discrete : Discrete AgentStart
unfolding ℕ_discrete String_discrete
AgentStart-discrete = hlevel (ℕ_discrete, String_discrete)

unfoldable pub AgentStop-discrete : Discrete AgentStop
unfolding String_discrete AgentTarget-discrete
AgentStop-discrete = hlevel (String_discrete, AgentTarget-discrete)

instance abbrev pub agent_target_eq : Eq AgentTarget
agent_target_eq = eq_by AgentTarget-discrete

instance abbrev pub agent_control_eq : Eq AgentControl
agent_control_eq = eq_by AgentControl-discrete

instance abbrev pub agent_control_result_eq : Eq AgentControlResult
agent_control_result_eq = eq_by AgentControlResult-discrete

instance abbrev pub workspace_ensure_eq : Eq WorkspaceEnsure
workspace_ensure_eq = eq_by WorkspaceEnsure-discrete

instance abbrev pub workspace_ensure_result_eq : Eq WorkspaceEnsureResult
workspace_ensure_result_eq = eq_by WorkspaceEnsureResult-discrete

instance abbrev pub worktree_create_eq : Eq WorktreeCreate
worktree_create_eq = eq_by WorktreeCreate-discrete

instance abbrev pub worktree_create_result_eq : Eq WorktreeCreateResult
worktree_create_result_eq = eq_by WorktreeCreateResult-discrete

instance abbrev pub session_ensure_eq : Eq SessionEnsure
session_ensure_eq = eq_by SessionEnsure-discrete

instance abbrev pub session_view_eq : Eq SessionView
session_view_eq = eq_by SessionView-discrete

instance abbrev pub agent_start_eq : Eq AgentStart
agent_start_eq = eq_by AgentStart-discrete

instance abbrev pub agent_stop_eq : Eq AgentStop
agent_stop_eq = eq_by AgentStop-discrete
