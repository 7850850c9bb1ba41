-- ===== src/Protocol/Messages/Unknown.antt =====
-- unknownFields of state/store.go: a field that the schema does not know, at any depth.
use herdr_distributed_mesh.Prelude.{Bool, false, ◌||◌, Option, none, some, any}
use herdr_distributed_mesh.Protocol.Messages.Basic.{Timestamp}
use herdr_distributed_mesh.Protocol.Messages.Actions.{
  AgentTarget, AgentControl, AgentControlResult, SessionView, AgentStop,
}
use herdr_distributed_mesh.Protocol.Messages.Receipt.{AgentLifecycleHandle, AgentLifecycleReceipt}
use herdr_distributed_mesh.Protocol.Messages.Commands.{
  SubmitCommandRequest, Command, CommandResult, CommandAudit, CommandRecord,
}

-- A message that is not set holds nothing unknown.
abbrev set_and {ℓ} : {A : Type ℓ} → (A → Bool) → Option A → Bool
set_and f none = false
set_and f (some a) = f a

abbrev stamp_unknown : Option Timestamp → Bool
stamp_unknown = set_and (λ t. t.unknown)

abbrev target_unknown : Option AgentTarget → Bool
target_unknown = set_and (λ t. t.unknown)

abbrev control_unknown : Option AgentControl → Bool
control_unknown = set_and (λ c. c.unknown || target_unknown c.target)

abbrev control_result_unknown : Option AgentControlResult → Bool
control_result_unknown = set_and (λ c. c.unknown || target_unknown c.target)

abbrev stop_unknown : Option AgentStop → Bool
stop_unknown = set_and (λ s. s.unknown || target_unknown s.target)

abbrev view_unknown : Option SessionView → Bool
view_unknown = set_and (λ v. v.unknown || stamp_unknown v.herdr_received_at)

abbrev handle_unknown : Option AgentLifecycleHandle → Bool
handle_unknown = set_and (λ h. h.unknown || target_unknown h.target)

abbrev pub receipt_unknown : AgentLifecycleReceipt → Bool
receipt_unknown r = r.unknown || handle_unknown r.handle || any (λ s. s.unknown) r.stages

unfoldable pub request_unknown : SubmitCommandRequest → Bool
request_unknown r =
    r.unknown
    || set_and (λ d. d.unknown) r.ttl
    || set_and (λ w. w.unknown) r.workspace_ensure
    || set_and (λ w. w.unknown) r.worktree_create
    || control_unknown r.agent_control
    || set_and (λ s. s.unknown) r.session_ensure
    || set_and (λ s. s.unknown) r.agent_start
    || stop_unknown r.agent_stop

unfoldable pub command_unknown : Command → Bool
unfolding request_unknown
command_unknown c =
    c.unknown
    || set_and (λ a. a.unknown) c.actor
    || set_and (λ d. d.unknown) c.ttl
    || stamp_unknown c.expires_at
    || set_and (λ w. w.unknown) c.workspace_ensure
    || set_and (λ w. w.unknown) c.worktree_create
    || control_unknown c.agent_control
    || set_and request_unknown c.submitted_request
    || set_and (λ s. s.unknown) c.session_ensure
    || set_and (λ s. s.unknown) c.agent_start
    || stop_unknown c.agent_stop
    || stamp_unknown c.execution_expires_at

unfoldable pub result_unknown : CommandResult → Bool
result_unknown r =
    r.unknown
    || set_and (λ w. w.unknown) r.workspace_ensure
    || set_and (λ w. w.unknown) r.worktree_create
    || control_result_unknown r.agent_control
    || view_unknown r.session_ensure
    || set_and receipt_unknown r.agent_lifecycle

unfoldable pub record_unknown : CommandRecord → Bool
unfolding command_unknown
record_unknown r =
    r.unknown
    || command_unknown r.command
    || stamp_unknown r.created_at
    || stamp_unknown r.updated_at
    || any (λ (a : CommandAudit). a.unknown || stamp_unknown a.occurred_at) r.audit
    || set_and (λ w. w.unknown) r.workspace_ensure
    || set_and (λ w. w.unknown) r.worktree_create
    || control_result_unknown r.agent_control
    || view_unknown r.session_ensure
    || set_and receipt_unknown r.agent_lifecycle
