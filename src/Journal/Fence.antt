-- ===== src/Journal/Fence.antt =====
-- The fence around native targets with unresolved effects (lifecycleIncarnation and
-- lifecycleConflict of state/lifecycle.go).
use herdr_distributed_mesh.Prelude.{
  nat_eq, string_eq, String, Bool, false, not, ◌&&◌, ◌||◌, Option, none, some, is_none, ◌==◌, ◌!=◌,
  if◌then◌else◌,
}
use herdr_distributed_mesh.Protocol.Commands.{command_session}
use herdr_distributed_mesh.Protocol.Lifecycle.Advance.{lifecycle_has_unknown}
use herdr_distributed_mesh.Protocol.Lifecycle.Receipt.{handle_target}
use herdr_distributed_mesh.Protocol.Messages.{
  status_eq, action_eq, CommandStatus, accepted, running, indeterminate, interrupt, AgentTarget,
  AgentControl, AgentStart, AgentStop, AgentLifecycleReceipt, Command,
}

abbrev pub incarnation_of : Option AgentTarget → String
incarnation_of none = ""
incarnation_of (some t) = t.session_incarnation

abbrev pub terminal_of : Option AgentTarget → String
terminal_of none = ""
terminal_of (some t) = t.terminal_id

unfoldable pub lifecycle_incarnation : Command → Option AgentLifecycleReceipt → String
lifecycle_incarnation c none = (command_session c).1
lifecycle_incarnation c (some r) = incarnation_of (handle_target r.handle)

abbrev is_ordinary : AgentControl → Bool
is_ordinary control = control.action != interrupt

abbrev receipt_terminal : Option AgentLifecycleReceipt → String
receipt_terminal none = ""
receipt_terminal (some r) = terminal_of (handle_target r.handle)

abbrev ordinary : Option AgentControl → Option AgentControl
ordinary none = none
ordinary (some control) = if is_ordinary control then some control else none

abbrev conflicts_with_stop : Option AgentStop → String → Bool
conflicts_with_stop none terminal = false
conflicts_with_stop (some stop) terminal = terminal_of stop.target == terminal

abbrev conflicts_with_start :
    Option AgentStart → Option AgentStop → Option AgentLifecycleReceipt → String → Bool
conflicts_with_start (some start) stop receipt terminal =
    is_none receipt || receipt_terminal receipt == "" || receipt_terminal receipt == terminal
conflicts_with_start none stop receipt terminal = conflicts_with_stop stop terminal

abbrev conflicts_with_control :
    Option AgentControl → Command → Option AgentLifecycleReceipt → String → Bool
conflicts_with_control (some old) prior receipt terminal = terminal_of old.target == terminal
conflicts_with_control none prior receipt terminal =
    conflicts_with_start prior.agent_start prior.agent_stop receipt terminal

-- What an ordinary prompt or input conflicts with.
abbrev control_conflict : Option AgentControl → Command → Option AgentLifecycleReceipt → Bool
control_conflict none prior receipt = false
control_conflict (some control) prior receipt =
    conflicts_with_control (ordinary prior.agent_control) prior receipt (terminal_of control.target)

abbrev starts_conflict : Option AgentStart → Option AgentStart → Bool → Bool
starts_conflict (some current) (some prior) otherwise = current.workspace_id == prior.workspace_id
starts_conflict _ _ otherwise = otherwise

-- A prior command whose effects are still open.
unfoldable pub is_unresolved : CommandStatus → Option AgentLifecycleReceipt → Bool
is_unresolved status receipt =
    status == accepted
    || status == running
    || status == indeterminate
    || lifecycle_has_unknown receipt

abbrev scope_of : String → Command → String
scope_of incarnation current =
    if incarnation == "" then lifecycle_incarnation current none else incarnation

unfoldable pub lifecycle_conflict :
    Command → Option AgentLifecycleReceipt → CommandStatus → Command → String → Bool
unfolding lifecycle_incarnation is_unresolved
lifecycle_conflict prior receipt status current incarnation =
    prior.command_id != current.command_id
    && prior.target_id == current.target_id
    && is_unresolved status receipt
    && not (
        lifecycle_incarnation prior receipt != ""
        && scope_of incarnation current != ""
        && lifecycle_incarnation prior receipt != scope_of incarnation current)
    && starts_conflict current.agent_start prior.agent_start
        (control_conflict (ordinary current.agent_control) prior receipt)
