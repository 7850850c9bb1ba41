-- ===== src/Protocol/Messages/Commands.antt =====
-- Requests, commands, their results and their durable records.
use herdr_distributed_mesh.Prelude.{ℕ, String, Bool, Option, List, Eq, eq_by, String_discrete}
use herdr_distributed_mesh.Protocol.Messages.Basic.{
  CommandStatus, Timestamp, Duration, Actor, Timestamp-discrete, Duration-discrete, Actor-discrete,
  CommandStatus-discrete,
}
use herdr_distributed_mesh.Protocol.Messages.Actions.{
  AgentControl, AgentControlResult, WorkspaceEnsure, WorkspaceEnsureResult, WorktreeCreate,
  WorktreeCreateResult, SessionEnsure, SessionView, AgentStart, AgentStop, AgentControl-discrete,
  AgentControlResult-discrete, WorkspaceEnsure-discrete, WorkspaceEnsureResult-discrete,
  WorktreeCreate-discrete, WorktreeCreateResult-discrete, SessionEnsure-discrete,
  SessionView-discrete, AgentStart-discrete, AgentStop-discrete,
}
use herdr_distributed_mesh.Protocol.Messages.Receipt.{
  AgentLifecycleReceipt, AgentLifecycleReceipt-discrete,
}

pub record SubmitCommandRequest : Type 0 where
  pub node_instance_id : String
  pub idempotency_key : String
  pub command_type : String
  pub ttl : Option Duration
  pub workspace_ensure : Option WorkspaceEnsure
  pub worktree_create : Option WorktreeCreate
  pub agent_control : Option AgentControl
  pub session_ensure : Option SessionEnsure
  pub agent_start : Option AgentStart
  pub agent_stop : Option AgentStop
  pub unknown : Bool

-- `preconditions` and `payload` say whether the untyped structs, which are never accepted, are set.
pub record Command : Type 0 where
  pub command_id : String
  pub idempotency_key : String
  pub command_type : String
  pub target_id : String
  pub actor : Option Actor
  pub ttl : Option Duration
  pub preconditions : Bool
  pub payload : Bool
  pub expires_at : Option Timestamp
  pub workspace_ensure : Option WorkspaceEnsure
  pub worktree_create : Option WorktreeCreate
  pub agent_control : Option AgentControl
  pub submitted_request : Option SubmitCommandRequest
  pub session_ensure : Option SessionEnsure
  pub agent_start : Option AgentStart
  pub agent_stop : Option AgentStop
  pub execution_expires_at : Option Timestamp
  pub unknown : Bool

pub record CommandResult : Type 0 where
  pub command_id : String
  pub status : CommandStatus
  pub detail : String
  pub payload : Bool
  pub workspace_ensure : Option WorkspaceEnsureResult
  pub worktree_create : Option WorktreeCreateResult
  pub agent_control : Option AgentControlResult
  pub session_ensure : Option SessionView
  pub agent_lifecycle : Option AgentLifecycleReceipt
  pub unknown : Bool

pub record CommandAudit : Type 0 where
  pub status : CommandStatus
  pub detail : String
  pub occurred_at : Option Timestamp
  pub unknown : Bool

pub record CommandRecord : Type 0 where
  pub command : Command
  pub status : CommandStatus
  pub detail : String
  pub created_at : Option Timestamp
  pub updated_at : Option Timestamp
  pub audit : List CommandAudit
  pub workspace_ensure : Option WorkspaceEnsureResult
  pub worktree_create : Option WorktreeCreateResult
  pub agent_control : Option AgentControlResult
  pub session_ensure : Option SessionView
  pub agent_lifecycle : Option AgentLifecycleReceipt
  pub unknown : Bool

-- `proto.Size`, which protobuf provides.
pub record Wire : Type 0 where
  pub command_size : Command → ℕ
  pub receipt_size : AgentLifecycleReceipt → ℕ
  pub result_size : CommandResult → ℕ
  pub record_size : CommandRecord → ℕ

ruleset action_deciders = (
  WorkspaceEnsure-discrete, WorktreeCreate-discrete, AgentControl-discrete, SessionEnsure-discrete,
  AgentStart-discrete, AgentStop-discrete, String_discrete, Duration-discrete,
)

unfoldable pub SubmitCommandRequest-discrete : Discrete SubmitCommandRequest
unfolding String_discrete Duration-discrete WorkspaceEnsure-discrete WorktreeCreate-discrete
    AgentControl-discrete SessionEnsure-discrete AgentStart-discrete AgentStop-discrete
SubmitCommandRequest-discrete = hlevel action_deciders

unfoldable pub Command-discrete : Discrete Command
unfolding String_discrete Duration-discrete WorkspaceEnsure-discrete WorktreeCreate-discrete
    AgentControl-discrete SessionEnsure-discrete AgentStart-discrete AgentStop-discrete
    Timestamp-discrete Actor-discrete SubmitCommandRequest-discrete
Command-discrete =
    hlevel (action_deciders, Timestamp-discrete, Actor-discrete, SubmitCommandRequest-discrete)

unfoldable pub CommandResult-discrete : Discrete CommandResult
unfolding String_discrete CommandStatus-discrete WorkspaceEnsureResult-discrete
    WorktreeCreateResult-discrete AgentControlResult-discrete SessionView-discrete
    AgentLifecycleReceipt-discrete
CommandResult-discrete = hlevel (
  String_discrete, CommandStatus-discrete, WorkspaceEnsureResult-discrete,
  WorktreeCreateResult-discrete, AgentControlResult-discrete, SessionView-discrete,
  AgentLifecycleReceipt-discrete,
)

instance abbrev pub request_eq : Eq SubmitCommandRequest
request_eq = eq_by SubmitCommandRequest-discrete

instance abbrev pub command_eq : Eq Command
command_eq = eq_by Command-discrete

instance abbrev pub result_eq : Eq CommandResult
result_eq = eq_by CommandResult-discrete
