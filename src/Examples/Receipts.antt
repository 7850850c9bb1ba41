-- ===== src/Examples/Receipts.antt =====
-- A stop of an agent, and the receipt of a node that closed its pane.
use herdr_distributed_mesh.Prelude.{◌≡◌, refl, true, false, some, [], ◌∷◌}
use herdr_distributed_mesh.Protocol.Tokens.{command_token, valid_session_incarnation, validate_name}
use herdr_distributed_mesh.Protocol.Sessions.{validate_session_selector}
use herdr_distributed_mesh.Protocol.Agents.{valid_agent_status}
use herdr_distributed_mesh.Protocol.Lifecycle.{is_lifecycle_command}
use herdr_distributed_mesh.Protocol.Lifecycle.Receipt.{
  receipt_bounds, valid_handle, valid_stop_identity, valid_evidence, valid_event, valid_intent,
  valid_completion, last_outcome, set_outcome, replay_stages, agrees_with,
  validate_lifecycle_receipt,
}
use herdr_distributed_mesh.Protocol.Messages.{
  AgentTarget, AgentLifecycleStage, AgentLifecycleReceipt, Command, AgentTarget-discrete,
}
use herdr_distributed_mesh.Examples.Pings.{wire, ping}

abbrev target : AgentTarget
target = record {
  pane_id = "pane-1";
  terminal_id = "terminal-1";
  agent_session_id = "";
  session_name = "default";
  session_incarnation = "00112233445566778899aabbccddeeff00112233445566778899aabbccddeeff";
  unknown = false;
}

abbrev pub stop_agent : Command
stop_agent = record ping {
  command_type = "agent.stop.v1";
  agent_stop = some record {
    target = some target;
    workspace_id = "workspace-1";
    tab_id = "tab-1";
    provider = "claude";
    unknown = false;
  };
}

abbrev close_intent : AgentLifecycleStage
close_intent = record { stage = "close_pane"; before = true; outcome = "unknown"; unknown = false }

abbrev close_done : AgentLifecycleStage
close_done = record { stage = "close_pane"; before = false; outcome = "confirmed"; unknown = false }

abbrev pub closed : AgentLifecycleReceipt
closed = record {
  handle = some record {
    target = some target;
    workspace_id = "workspace-1";
    tab_id = "tab-1";
    provider = "claude";
    unknown = false;
  };
  pane_outcome = "not_attempted";
  launch_outcome = "not_attempted";
  prompt_outcome = "not_attempted";
  stop_outcome = "confirmed";
  observed_status = "";
  sequence = 2;
  stages = close_intent ∷ close_done ∷ [];
  unknown = false;
}

pub closed-valid : validate_lifecycle_receipt wire closed stop_agent ≡ true
unfolding validate_lifecycle_receipt is_lifecycle_command receipt_bounds valid_evidence valid_handle
    valid_stop_identity replay_stages valid_event valid_intent valid_completion last_outcome
    set_outcome agrees_with command_token valid_session_incarnation validate_session_selector
    validate_name valid_agent_status AgentTarget-discrete
closed-valid = refl
