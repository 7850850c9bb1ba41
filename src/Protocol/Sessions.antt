-- ===== src/Protocol/Sessions.antt =====
-- Session selectors and the results of `sessions.ensure.v1` (protocol/sessions.go). A function that
-- returns an `error` is its test here: `true` stands for nil.
use herdr_distributed_mesh.Prelude.{
  nat_eq, string_eq, String, Bool, false, not, ◌&&◌, ◌||◌, Option, none, some, is_none, [], ◌∷◌,
  ◌==◌, ◌!=◌, contains,
}
use herdr_distributed_mesh.Protocol.Tokens.{
  valid_command_id, valid_session_incarnation, validate_name,
}
use herdr_distributed_mesh.Protocol.Messages.{
  CommandStatus, succeeded, timed_out, rejected, indeterminate, SessionEnsure, SessionView,
  CommandResult,
}

-- An empty name selects the configured default.
unfoldable pub validate_session_selector : String → String → Bool → Bool
validate_session_selector name incarnation require_incarnation =
    (name == "" || validate_name name)
    && (incarnation == "" || valid_session_incarnation incarnation)
    && not (require_incarnation && name != "" && incarnation == "")

unfoldable pub validate_session_ensure : Option SessionEnsure → Bool
validate_session_ensure none = false
validate_session_ensure (some value) = not value.unknown && validate_name value.name

unfoldable pub valid_session_error : String → Bool
valid_session_error = contains (
    "session_manager_unavailable" ∷ "session_unavailable" ∷ "session_replaced"
    ∷ "session_start_failed" ∷ "unsupported_protocol" ∷ "session_default_unmanaged"
    ∷ "session_capacity" ∷ "precondition_failed" ∷ [])

abbrev is_ready : Option SessionView → Bool
is_ready none = false
is_ready (some value) =
    not value.unknown
    && validate_name value.name
    && valid_session_incarnation value.incarnation
    && value.status == "ready"
    && value.error_code == ""
    && not value.herdr
    && is_none value.herdr_received_at
    && not value.stale

abbrev session_failure : CommandStatus → String → Bool
session_failure rejected detail =
    detail == "journal_full" || detail == "authorization_changed" || valid_session_error detail
session_failure timed_out detail = detail == "deadline_expired"
session_failure indeterminate detail = detail == "node_restarted" || detail == "startup_uncertain"
session_failure _ detail = false

abbrev session_outcome : CommandStatus → CommandResult → Bool
session_outcome succeeded result =
    is_ready result.session_ensure && result.detail == "session_ready"
session_outcome status result =
    is_none result.session_ensure && session_failure status result.detail

unfoldable pub validate_session_ensure_result : CommandResult → Bool
validate_session_ensure_result result =
    valid_command_id result.command_id
    && not result.unknown
    && not result.payload
    && is_none result.workspace_ensure
    && is_none result.worktree_create
    && is_none result.agent_control
    && is_none result.agent_lifecycle
    && session_outcome result.status result

unfoldable pub matches_session : String → String → String → String → Bool
matches_session actual_name actual_incarnation name incarnation =
    actual_name == name && (incarnation == "" || actual_incarnation == incarnation)
