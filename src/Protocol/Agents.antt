-- ===== src/Protocol/Agents.antt =====
-- Agent targets, prompts, keys and the results of `agent.control.v1` (protocol/agent.go).
use Prim.Native.String.{len}
use herdr_distributed_mesh.Prelude.{
  nat_eq, string_eq, ℕ, String, Bool, true, false, not, ◌&&◌, ◌||◌, Option, none, some, is_none,
  List, [], ◌∷◌, ◌==◌, ◌!=◌, contains, leb, all, length, codes, in_range, is_control, is_blank,
  if◌then◌else◌,
}
use herdr_distributed_mesh.Protocol.Tokens.{command_token, valid_command_id}
use herdr_distributed_mesh.Protocol.Sessions.{validate_session_selector, valid_session_error}
use herdr_distributed_mesh.Protocol.Messages.{
  CommandStatus, succeeded, timed_out, rejected, indeterminate, AgentControlAction,
  action_unspecified, prompt, input, interrupt, AgentTarget, AgentControl, AgentControlResult,
  CommandResult, agent_target_eq,
}

abbrev pub max_agent_prompt_bytes : ℕ
max_agent_prompt_bytes = 8192

unfoldable pub validate_agent_target : Option AgentTarget → Bool → Bool
validate_agent_target none require_terminal = false
validate_agent_target (some target) require_terminal =
    not target.unknown
    && command_token target.pane_id
    && not (require_terminal && target.terminal_id == "")
    && (target.terminal_id == "" || command_token target.terminal_id)
    && (target.agent_session_id == "" || command_token target.agent_session_id)
    && validate_session_selector target.session_name target.session_incarnation require_terminal

unfoldable pub valid_agent_status : String → Bool
valid_agent_status = contains ("idle" ∷ "working" ∷ "blocked" ∷ "done" ∷ "unknown" ∷ [])

-- '\n', '\r' and '\t'
abbrev is_layout : ℕ → Bool
is_layout c = c == 10 || c == 13 || c == 9

abbrev valid_prompt_text : String → Bool
valid_prompt_text text = all (λ r. not (is_control r) || is_layout r) (codes text)

abbrev named_keys : List String
named_keys =
    "enter" ∷ "esc" ∷ "tab" ∷ "shift+tab" ∷ "up" ∷ "down" ∷ "left" ∷ "right" ∷ "backspace"
    ∷ "delete" ∷ "home" ∷ "end" ∷ "ctrl+c" ∷ []

abbrev is_printable_key : List ℕ → Bool
is_printable_key (c ∷ []) = in_range 32 126 c
is_printable_key _ = false

unfoldable pub valid_agent_key : String → Bool
valid_agent_key key = is_printable_key (codes key) || contains named_keys key

unfoldable pub validate_agent_control_input : AgentControlAction → String → List String → Bool
validate_agent_control_input prompt text keys =
    length keys == 0
    && not (is_blank text)
    && leb (len text) max_agent_prompt_bytes
    && valid_prompt_text text
validate_agent_control_input input text keys =
    text == "" && length keys != 0 && leb (length keys) 8 && all valid_agent_key keys
validate_agent_control_input interrupt text keys = text == "" && length keys == 0
validate_agent_control_input action_unspecified text keys = false

unfoldable pub validate_agent_control : Option AgentControl → Bool
validate_agent_control none = false
validate_agent_control (some value) =
    not value.unknown
    && validate_agent_target value.target true
    && validate_agent_control_input value.action value.text value.keys

unfoldable pub matches_target_fields : AgentTarget → AgentTarget → Bool
matches_target_fields actual want =
    (if want.session_incarnation == "" then record actual { session_incarnation = "" } else actual)
    == want

unfoldable pub equal_agent_target : Option AgentTarget → Option AgentTarget → Bool
unfolding matches_target_fields
equal_agent_target none none = true
equal_agent_target (some a) (some b) = matches_target_fields a b
equal_agent_target _ _ = false

unfoldable pub agent_control_success_detail : AgentControlAction → String
agent_control_success_detail prompt = "agent_prompt_sent"
agent_control_success_detail input = "agent_input_sent"
agent_control_success_detail interrupt = "agent_interrupt_sent"
agent_control_success_detail action_unspecified = ""

abbrev is_acknowledged : Option AgentControlResult → Bool
is_acknowledged none = false
is_acknowledged (some value) =
    not value.unknown
    && validate_agent_target value.target true
    && valid_agent_status value.observed_status

abbrev pub agent_rejections : List String
agent_rejections =
    "journal_full" ∷ "precondition_failed" ∷ "agent_busy" ∷ "agent_blocked" ∷ "target_changed"
    ∷ "herdr_unavailable" ∷ "unsupported" ∷ "authorization_changed" ∷ "lifecycle_unresolved" ∷ []

abbrev agent_failure : CommandStatus → String → Bool
agent_failure rejected detail = valid_session_error detail || contains agent_rejections detail
agent_failure timed_out detail = detail == "deadline_expired"
agent_failure indeterminate detail = detail == "node_restarted" || detail == "herdr_outcome_unknown"
agent_failure _ detail = false

abbrev agent_outcome : CommandStatus → CommandResult → Bool
agent_outcome succeeded result =
    is_acknowledged result.agent_control
    && contains ("agent_prompt_sent" ∷ "agent_input_sent" ∷ "agent_interrupt_sent" ∷ [])
        result.detail
agent_outcome status result = is_none result.agent_control && agent_failure status result.detail

unfoldable pub validate_agent_control_result : CommandResult → Bool
validate_agent_control_result result =
    valid_command_id result.command_id
    && not result.unknown
    && not result.payload
    && is_none result.workspace_ensure
    && is_none result.worktree_create
    && is_none result.session_ensure
    && is_none result.agent_lifecycle
    && agent_outcome result.status result
