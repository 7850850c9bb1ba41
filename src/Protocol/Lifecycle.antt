-- ===== src/Protocol/Lifecycle.antt =====
-- Starting and stopping agents: arguments and deadlines (protocol/lifecycle_limits.go, the
-- validators of arguments in protocol/lifecycle.go). The modules below hold the evidence rules.
pub mod Receipt
pub mod Advance
pub mod Evidence
use herdr_distributed_mesh.Prelude.{
  nat_eq, string_eq, ℕ, ◌+◌, ◌*◌, String, Bool, true, false, not, ◌&&◌, ◌||◌, Option, none, some,
  is_some, List, [], ◌∷◌, ◌==◌, contains, leb, ltb, if◌then◌else◌,
}
use herdr_distributed_mesh.Protocol.Tokens.{command_token, valid_session_incarnation}
use herdr_distributed_mesh.Protocol.Sessions.{validate_session_selector, valid_session_error}
use herdr_distributed_mesh.Protocol.Agents.{validate_agent_target, validate_agent_control_input}
use herdr_distributed_mesh.Protocol.Messages.{
  AgentStart, AgentStop, AgentTarget, millisecond, second, prompt,
}

abbrev pub agent_start_command_type : String
agent_start_command_type = "agent.start.v1"

abbrev pub agent_stop_command_type : String
agent_stop_command_type = "agent.stop.v1"

abbrev pub default_agent_startup_timeout_ms : ℕ
default_agent_startup_timeout_ms = 30000

abbrev pub max_agent_startup_timeout_ms : ℕ
max_agent_startup_timeout_ms = 300000

abbrev pub lifecycle_setup_allowance : ℕ
lifecycle_setup_allowance = 30 * second

unfoldable pub is_lifecycle_command : String → Bool
is_lifecycle_command kind = kind == agent_start_command_type || kind == agent_stop_command_type

unfoldable pub normalize_agent_startup_timeout : ℕ → Option ℕ
normalize_agent_startup_timeout ms =
    if ms == 0
    then some default_agent_startup_timeout_ms
    else if leb ms 3000 || ltb max_agent_startup_timeout_ms ms
    then none
    else some ms

unfoldable pub lifecycle_execution_deadline : ℕ → ℕ → Option ℕ
unfolding normalize_agent_startup_timeout
lifecycle_execution_deadline dispatch_deadline startup_ms =
    elim (normalize_agent_startup_timeout startup_ms) [
      | none ↦ none
      | some ms ↦ some (dispatch_deadline + (ms * millisecond + lifecycle_setup_allowance))
    ]

unfoldable pub supported_lifecycle_provider : String → Bool
supported_lifecycle_provider = contains (
    "pi" ∷ "claude" ∷ "codex" ∷ "gemini" ∷ "cursor" ∷ "devin" ∷ "agy" ∷ "cline" ∷ "omp"
    ∷ "mastracode" ∷ "opencode" ∷ "copilot" ∷ "kimi" ∷ "kiro" ∷ "droid" ∷ "amp" ∷ "grok" ∷ "hermes"
    ∷ "kilo" ∷ "qodercli" ∷ "maki" ∷ [])

unfoldable pub validate_agent_start : Option AgentStart → Bool
unfolding normalize_agent_startup_timeout
validate_agent_start none = false
validate_agent_start (some value) =
    not value.unknown
    && command_token value.project_id
    && command_token value.binding_revision
    && command_token value.workspace_id
    && command_token value.name
    && supported_lifecycle_provider value.provider
    && is_some (normalize_agent_startup_timeout value.startup_timeout_ms)
    && (value.initial_prompt == "" || validate_agent_control_input prompt value.initial_prompt [])
    && validate_session_selector value.session_name value.session_incarnation false

abbrev is_pinned : Option AgentTarget → Bool
is_pinned none = false
is_pinned (some target) = valid_session_incarnation target.session_incarnation

unfoldable pub validate_agent_stop : Option AgentStop → Bool
validate_agent_stop none = false
validate_agent_stop (some value) =
    not value.unknown
    && validate_agent_target value.target true
    && is_pinned value.target
    && command_token value.workspace_id
    && command_token value.tab_id
    && supported_lifecycle_provider value.provider

unfoldable pub valid_lifecycle_detail : String → Bool
valid_lifecycle_detail detail =
    contains
      ("agent_started" ∷ "agent_stopped" ∷ "lifecycle_partial" ∷ "lifecycle_uncertain"
        ∷ "lifecycle_unresolved" ∷ "node_restarted" ∷ "server_restarted" ∷ "node_disconnected"
        ∷ "deadline_expired" ∷ "journal_full" ∷ "precondition_failed" ∷ "target_changed"
        ∷ "agent_busy" ∷ "agent_blocked" ∷ "herdr_unavailable" ∷ "unsupported"
        ∷ "authorization_changed" ∷ "project_not_authorized" ∷ "persistence_failed" ∷ [])
      detail
    || valid_session_error detail
