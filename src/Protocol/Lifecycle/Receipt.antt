-- ===== src/Protocol/Lifecycle/Receipt.antt =====
-- ValidateLifecycleReceipt of protocol/lifecycle.go: which durable evidence of native effects a
-- command may carry.
use herdr_distributed_mesh.Prelude.{
  nat_eq, string_eq, option_eq, ℕ, String, Bool, true, false, not, ◌&&◌, ◌||◌, Option, none, some,
  is_some, List, [], ◌∷◌, ◌==◌, ◌!=◌, contains, leb, all, any, length, if◌then◌else◌,
}
use herdr_distributed_mesh.Protocol.Tokens.{command_token, valid_session_incarnation}
use herdr_distributed_mesh.Protocol.Sessions.{validate_session_selector, matches_session}
use herdr_distributed_mesh.Protocol.Agents.{valid_agent_status}
use herdr_distributed_mesh.Protocol.Lifecycle.{is_lifecycle_command}
use herdr_distributed_mesh.Protocol.Messages.{
  agent_target_eq, AgentTarget, AgentStart, AgentStop, AgentLifecycleHandle, AgentLifecycleStage,
  AgentLifecycleReceipt, SubmitCommandRequest, Command, Wire,
}

abbrev pub max_lifecycle_receipt_bytes : ℕ
max_lifecycle_receipt_bytes = 4096

abbrev pub max_lifecycle_events : ℕ
max_lifecycle_events = 8

abbrev is_outcome : String → Bool
is_outcome = contains ("not_attempted" ∷ "unknown" ∷ "confirmed" ∷ [])

unfoldable pub lifecycle_stage_outcome : AgentLifecycleReceipt → String → String
lifecycle_stage_outcome r stage =
    if stage == "create_pane"
    then r.pane_outcome
    else if stage == "launch"
    then r.launch_outcome
    else if stage == "prompt"
    then r.prompt_outcome
    else if stage == "close_pane"
    then r.stop_outcome
    else ""

-- command.SubmittedRequest.GetAgentStart().GetInitialPrompt()
abbrev start_prompt : Option AgentStart → String
start_prompt none = ""
start_prompt (some start) = start.initial_prompt

abbrev pub submitted_prompt : Option SubmitCommandRequest → String
submitted_prompt none = ""
submitted_prompt (some request) = start_prompt request.agent_start

-- The bounds on counts, the four summaries and the observed status.
unfoldable pub receipt_bounds : Wire → AgentLifecycleReceipt → Bool
receipt_bounds wire r =
    leb (wire.receipt_size r) max_lifecycle_receipt_bytes
    && not r.unknown
    && leb (length r.stages) max_lifecycle_events
    && r.sequence == length r.stages
    && all is_outcome (r.pane_outcome ∷ r.launch_outcome ∷ r.prompt_outcome ∷ r.stop_outcome ∷ [])
    && (r.observed_status == "" || valid_agent_status r.observed_status)

unfoldable pub valid_handle : AgentLifecycleHandle → AgentTarget → Bool
valid_handle h target =
    not h.unknown
    && not target.unknown
    && valid_session_incarnation target.session_incarnation
    && validate_session_selector target.session_name target.session_incarnation true
    && all (λ id. id == "" || command_token id)
        (h.workspace_id ∷ h.tab_id ∷ target.pane_id ∷ target.terminal_id ∷ target.agent_session_id
          ∷ [])

unfoldable pub valid_start_identity :
    AgentLifecycleReceipt → AgentLifecycleHandle → AgentTarget → AgentStart → Bool
valid_start_identity r h target w =
    h.workspace_id == w.workspace_id
    && matches_session target.session_name target.session_incarnation w.session_name
        w.session_incarnation
    && (h.provider == "" || h.provider == "unknown" || h.provider == w.provider)
    && r.stop_outcome == "not_attempted"

unfoldable pub valid_start_dependencies :
    AgentLifecycleReceipt → AgentLifecycleHandle → AgentTarget → AgentStart → String → Bool
valid_start_dependencies r h target w initial_prompt =
    not (
      r.pane_outcome == "confirmed"
      && (h.tab_id == "" || target.pane_id == "" || target.terminal_id == ""))
    && not (
        r.launch_outcome == "confirmed"
        && (r.pane_outcome != "confirmed" || h.provider != w.provider))
    && not (
        r.prompt_outcome != "not_attempted"
        && (r.launch_outcome != "confirmed" || initial_prompt == ""))

unfoldable pub valid_stop_identity :
    AgentLifecycleReceipt → AgentLifecycleHandle → Option AgentStop → Bool
valid_stop_identity r h none = false
valid_stop_identity r h (some w) =
    h.workspace_id == w.workspace_id
    && h.tab_id == w.tab_id
    && h.provider == w.provider
    && h.target == w.target
    && r.pane_outcome == "not_attempted"
    && r.launch_outcome == "not_attempted"
    && r.prompt_outcome == "not_attempted"

-- The map `last` of the loop over the stages.
pub record Last : Type 0 where
  pub create_pane : String
  pub launch : String
  pub prompt : String
  pub close_pane : String

abbrev pub none_attempted : Last
none_attempted = record {
  create_pane = "not_attempted";
  launch = "not_attempted";
  prompt = "not_attempted";
  close_pane = "not_attempted";
}

-- last[stage], the empty text where the map has no such stage
unfoldable pub last_outcome : Last → String → String
last_outcome last stage =
    if stage == "create_pane"
    then last.create_pane
    else if stage == "launch"
    then last.launch
    else if stage == "prompt"
    then last.prompt
    else if stage == "close_pane"
    then last.close_pane
    else ""

-- last[stage] = outcome, for a stage that the map has
unfoldable pub set_outcome : Last → String → String → Last
set_outcome last stage outcome =
    if stage == "create_pane"
    then record last { create_pane = outcome }
    else if stage == "launch"
    then record last { launch = outcome }
    else if stage == "prompt"
    then record last { prompt = outcome }
    else record last { close_pane = outcome }

-- The events before this one, the latest first.
abbrev pub Prior : Type 0
Prior = List AgentLifecycleStage

abbrev ends_with_intent : Prior → Bool
ends_with_intent [] = false
ends_with_intent (event ∷ prior) = event.before

abbrev completes : Prior → AgentLifecycleStage → Bool
completes [] event = false
completes (intent ∷ prior) event = intent.before && intent.stage == event.stage

unfoldable pub valid_intent : Prior → Last → AgentLifecycleStage → Bool
valid_intent prior last event =
    event.outcome == "unknown"
    && last_outcome last event.stage == "not_attempted"
    && not (ends_with_intent prior)
    && not (event.stage == "launch" && last.create_pane != "confirmed")
    && not (event.stage == "prompt" && last.launch != "confirmed")
    && not (any (λ earlier. earlier.stage == event.stage) prior)

unfoldable pub valid_completion : Prior → AgentLifecycleStage → Bool
valid_completion prior event = completes prior event && is_outcome event.outcome

-- One round of the loop; `starting` and `stopping` say which arguments the command has.
unfoldable pub valid_event : Bool → Bool → Prior → Last → AgentLifecycleStage → Bool
valid_event starting stopping prior last event =
    not event.unknown
    && last_outcome last event.stage != ""
    && not (starting && event.stage == "close_pane" || stopping && event.stage != "close_pane")
    && (if event.before then valid_intent prior last event else valid_completion prior event)

-- The loop: the final map, or `none` at the first event that is refused.
unfoldable pub replay_stages : Bool → Bool → Prior → Last → List AgentLifecycleStage → Option Last
replay_stages starting stopping prior last [] = some last
replay_stages starting stopping prior last (event ∷ events) =
    let rest =
      replay_stages starting stopping (event ∷ prior) (set_outcome last event.stage event.outcome)
        events in
    if valid_event starting stopping prior last event then rest else none

unfoldable pub agrees_with : AgentLifecycleReceipt → Option Last → Bool
agrees_with r none = false
agrees_with r (some last) =
    r.pane_outcome == last.create_pane
    && r.launch_outcome == last.launch
    && r.prompt_outcome == last.prompt
    && r.stop_outcome == last.close_pane

abbrev valid_identity :
    AgentLifecycleReceipt → AgentLifecycleHandle → AgentTarget → Option AgentStart → Command → Bool
valid_identity r h target (some w) command =
    valid_start_identity r h target w
    && valid_start_dependencies r h target w (submitted_prompt command.submitted_request)
valid_identity r h target none command = valid_stop_identity r h command.agent_stop

abbrev pub handle_target : Option AgentLifecycleHandle → Option AgentTarget
handle_target none = none
handle_target (some h) = h.target

unfoldable pub valid_evidence :
    AgentLifecycleReceipt → Option AgentLifecycleHandle → Option AgentTarget → Command → Bool
valid_evidence r (some h) (some target) command =
    valid_handle h target && valid_identity r h target command.agent_start command
valid_evidence r _ _ command = false

unfoldable pub validate_lifecycle_receipt : Wire → AgentLifecycleReceipt → Command → Bool
validate_lifecycle_receipt wire r command =
    is_lifecycle_command command.command_type
    && receipt_bounds wire r
    && valid_evidence r r.handle (handle_target r.handle) command
    && agrees_with r (
        replay_stages (is_some command.agent_start) (is_some command.agent_stop) [] none_attempted
          r.stages)
