-- ===== src/Protocol/Lifecycle/Advance.antt =====
-- How evidence may grow, and which outcome it supports (ValidateLifecycleAdvance to
-- ValidateLifecycleResult of protocol/lifecycle.go).
use herdr_distributed_mesh.Prelude.{
  nat_eq, string_eq, option_eq, String, Bool, true, false, not, ◌&&◌, ◌||◌, Option, none, some,
  is_some, is_none, List, [], ◌∷◌, ◌==◌, ◌!=◌, contains, length, if◌then◌else◌,
}
use herdr_distributed_mesh.Protocol.Lifecycle.{valid_lifecycle_detail}
use herdr_distributed_mesh.Protocol.Lifecycle.Receipt.{
  validate_lifecycle_receipt, submitted_prompt, handle_target,
}
use herdr_distributed_mesh.Protocol.Messages.{
  stage_eq, receipt_eq, AgentTarget, AgentLifecycleHandle, AgentLifecycleStage,
  AgentLifecycleReceipt, Command, CommandResult, CommandStatus, succeeded, failed, timed_out,
  rejected, indeterminate, Wire,
}

-- proto.Equal(event, next.Stages[i]) for each event of the old receipt
unfoldable pub keeps_stages : List AgentLifecycleStage → List AgentLifecycleStage → Bool
keeps_stages [] next = true
keeps_stages (event ∷ old) [] = false
keeps_stages (event ∷ old) (event' ∷ next) = event == event' && keeps_stages old next

-- An identity that was pinned stays.
abbrev keeps_id : String → String → Bool
keeps_id old next = old == "" || old == next

unfoldable pub keeps_target : AgentTarget → AgentTarget → Bool
keeps_target a b =
    keeps_id a.pane_id b.pane_id
    && keeps_id a.terminal_id b.terminal_id
    && keeps_id a.agent_session_id b.agent_session_id
    && keeps_id a.session_name b.session_name
    && keeps_id a.session_incarnation b.session_incarnation

unfoldable pub keeps_handle : AgentLifecycleHandle → AgentLifecycleHandle → Bool
keeps_handle a b =
    keeps_id a.workspace_id b.workspace_id
    && keeps_id a.tab_id b.tab_id
    && (a.provider == "" || a.provider == "unknown" || a.provider == b.provider)

-- Both receipts are valid here, so neither handle nor target is nil.
abbrev both {ℓ} : {A : Type ℓ} → (A → A → Bool) → Option A → Option A → Bool
both f (some a) (some b) = f a b
both f _ _ = false

unfoldable pub extends_receipt : AgentLifecycleReceipt → AgentLifecycleReceipt → Bool
unfolding keeps_stages keeps_target keeps_handle
extends_receipt old next =
    keeps_stages old.stages next.stages
    && both keeps_handle old.handle next.handle
    && both keeps_target (handle_target old.handle) (handle_target next.handle)
    && not (length old.stages == length next.stages && old != next)

unfoldable pub validate_lifecycle_advance :
    Wire → Option AgentLifecycleReceipt → AgentLifecycleReceipt → Command → Bool
unfolding extends_receipt
validate_lifecycle_advance wire none next command = validate_lifecycle_receipt wire next command
validate_lifecycle_advance wire (some old) next command =
    validate_lifecycle_receipt wire next command
    && validate_lifecycle_receipt wire old command
    && extends_receipt old next

unfoldable pub lifecycle_has_unknown : Option AgentLifecycleReceipt → Bool
lifecycle_has_unknown none = false
lifecycle_has_unknown (some r) =
    r.pane_outcome == "unknown"
    || r.launch_outcome == "unknown"
    || r.prompt_outcome == "unknown"
    || r.stop_outcome == "unknown"

unfoldable pub lifecycle_has_effect : Option AgentLifecycleReceipt → Bool
lifecycle_has_effect none = false
lifecycle_has_effect (some r) =
    r.pane_outcome != "not_attempted"
    || r.launch_outcome != "not_attempted"
    || r.prompt_outcome != "not_attempted"
    || r.stop_outcome != "not_attempted"

unfoldable pub lifecycle_complete : Option AgentLifecycleReceipt → Command → Bool
lifecycle_complete none c = false
lifecycle_complete (some r) c =
    if is_some c.agent_stop
    then r.stop_outcome == "confirmed"
    else r.pane_outcome == "confirmed"
      && r.launch_outcome == "confirmed"
      && (submitted_prompt c.submitted_request == "" || r.prompt_outcome == "confirmed")

-- The switch of ValidateLifecycleResult: does the evidence support the status?
unfoldable pub supports_status :
    CommandStatus → String → Option AgentLifecycleReceipt → Command → Bool
supports_status succeeded detail r command =
    lifecycle_complete r command
    && (is_some command.agent_start && detail == "agent_started"
        || is_some command.agent_stop && detail == "agent_stopped")
supports_status indeterminate detail r command =
    is_none r
    || lifecycle_has_unknown r
    || detail == "persistence_failed"
    || contains ("node_disconnected" ∷ "server_restarted" ∷ "deadline_expired" ∷ []) detail
supports_status failed detail r command =
    lifecycle_has_effect r && not (lifecycle_has_unknown r) && not (lifecycle_complete r command)
supports_status timed_out detail r command =
    not (lifecycle_has_effect r) && detail == "deadline_expired"
supports_status rejected detail r command = not (lifecycle_has_effect r)
supports_status _ detail r command = false

abbrev pub valid_receipt_of : Wire → Option AgentLifecycleReceipt → Command → Bool
valid_receipt_of wire none command = true
valid_receipt_of wire (some r) command = validate_lifecycle_receipt wire r command

abbrev pub claims_success : String → Bool
claims_success detail = detail == "agent_started" || detail == "agent_stopped"

abbrev pub is_succeeded : CommandStatus → Bool
is_succeeded succeeded = true
is_succeeded _ = false

unfoldable pub validate_lifecycle_result : Wire → CommandResult → Command → Bool
validate_lifecycle_result wire result command =
    result.command_id == command.command_id
    && valid_lifecycle_detail result.detail
    && not result.unknown
    && not result.payload
    && is_none result.workspace_ensure
    && is_none result.worktree_create
    && is_none result.agent_control
    && is_none result.session_ensure
    && not (not (is_succeeded result.status) && claims_success result.detail)
    && valid_receipt_of wire result.agent_lifecycle command
    && supports_status result.status result.detail result.agent_lifecycle command
