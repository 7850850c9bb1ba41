-- ===== src/Examples/Pings.antt =====
-- One ping command, and the journal around it.
use herdr_distributed_mesh.Prelude.{ℕ, ◌+◌, ◌*◌, ◌≡◌, refl, true, false, none, some, [], ◌∷◌}
use herdr_distributed_mesh.Protocol.Lifecycle.{is_lifecycle_command}
use herdr_distributed_mesh.Protocol.Tokens.{valid_command_id, command_token}
use herdr_distributed_mesh.Protocol.Commands.{
  validate_command, command_execution_deadline, valid_command_body, valid_ttl, is_terminal_command,
}
use herdr_distributed_mesh.Errors.{ok, transaction, ◌>>=◌}
use herdr_distributed_mesh.Protocol.Messages.{
  Command, CommandRecord, running, Wire, second, timestamp, record_unknown, Role-discrete,
  ActorOrigin-discrete, CommandStatus-discrete, Timestamp-discrete, role_controller,
  origin_unspecified,
}
use herdr_distributed_mesh.Journal.Records.{
  admissible_command, command_time, validate_command_record, valid_outcome_data, valid_deadline,
  valid_audit, fits_journal, valid_chain, last_event,
}
use herdr_distributed_mesh.Journal.Outcomes.{
  valid_command_outcome, valid_command_transition, authorization_sensitive_command,
  project_mutation,
}
use herdr_distributed_mesh.Journal.Store.{
  read_command, read_commands, read_rows, the_only, check_record, write_record, valid_row,
  agrees_with_columns, transition_command, Db, advance_record,
}
use herdr_distributed_mesh.Journal.Store.Operations.{
  admission, row_for, create_body, retry_or_admit, admit_command, check_fence, check_named_agent,
  create_command, dispatch_command, dispatch_body,
}
use herdr_distributed_mesh.Journal.Store.Sweeps.{
  recover_commands, expire_commands, lose_node_commands, change_active_commands, change_body, sweep,
  is_still_running,
}
use herdr_distributed_mesh.Table.{find_row, update_row}
use herdr_distributed_mesh.Journal.Steps.{IsSound}

-- The sizes do not matter to these commands, which are small.
abbrev pub wire : Wire
wire = record {
  command_size = λ _. 120;
  receipt_size = λ _. 200;
  result_size = λ _. 80;
  record_size = λ _. 300;
}

-- A time in the year 2026, in nanoseconds since year 1.
abbrev pub noon : ℕ
noon = 63_900_000_000 * second

abbrev pub ping : Command
ping = record {
  command_id = "00112233445566778899aabbccddeeff";
  idempotency_key = "ping-1";
  command_type = "node.ping.v1";
  target_id = "node-1";
  actor = some record {
    actor_id = "operator";
    role = role_controller;
    origin = origin_unspecified;
    hop_count = 0;
    unknown = false;
  };
  ttl = some record { seconds = 30; nanos = 0; unknown = false };
  preconditions = false;
  payload = false;
  expires_at = some (timestamp (noon + 30 * second));
  workspace_ensure = none;
  worktree_create = none;
  agent_control = none;
  submitted_request = none;
  session_ensure = none;
  agent_start = none;
  agent_stop = none;
  execution_expires_at = none;
  unknown = false;
}

abbrev pub empty_journal : Db
empty_journal = record {
  commands = [];
  bindings = record { stable_id = "stable-1"; instance_id = "node-1" } ∷ [];
}

abbrev pub accepted_ping : CommandRecord
accepted_ping = admission ping (timestamp noon)

-- The journal that holds the accepted ping.
abbrev pub journal : Db
journal = record empty_journal { commands = row_for accepted_ping ∷ [] }

abbrev pub running_ping : CommandRecord
running_ping = advance_record accepted_ping running "dispatched" (timestamp (noon + second))

pub ping-created : create_command wire ping noon empty_journal ≡ (ok (accepted_ping, true), journal)
unfolding create_command transaction ◌>>=◌ admissible_command is_lifecycle_command validate_command
    valid_command_id command_token valid_command_body Role-discrete ActorOrigin-discrete valid_ttl
    command_time read_command check_fence check_named_agent validate_command_record
    valid_outcome_data valid_deadline valid_audit valid_command_outcome fits_journal record_unknown
    is_terminal_command create_body retry_or_admit admit_command read_rows read_commands the_only
    check_record CommandStatus-discrete Timestamp-discrete valid_chain last_event
ping-created = refl

abbrev pub running_journal : Db
running_journal = record empty_journal { commands = row_for running_ping ∷ [] }

pub ping-dispatched :
    dispatch_command wire "node-1" ping.command_id (noon + second) journal
    ≡ (ok (running_ping, true), running_journal)
unfolding dispatch_command dispatch_body transition_command valid_command_transition advance_record
    authorization_sensitive_command project_mutation write_record update_row transaction ◌>>=◌
    admissible_command is_lifecycle_command validate_command valid_command_id command_token
    valid_command_body Role-discrete ActorOrigin-discrete valid_ttl command_time read_command
    validate_command_record valid_outcome_data valid_deadline valid_audit valid_command_outcome
    fits_journal record_unknown is_terminal_command read_rows read_commands the_only check_record
    valid_row agrees_with_columns CommandStatus-discrete Timestamp-discrete valid_chain last_event
ping-dispatched = refl

pub journal-IsSound : IsSound wire journal
unfolding admissible_command is_lifecycle_command validate_command valid_command_id command_token
    valid_command_body Role-discrete ActorOrigin-discrete valid_ttl validate_command_record
    valid_outcome_data valid_deadline valid_audit valid_command_outcome fits_journal record_unknown
    is_terminal_command valid_row agrees_with_columns find_row CommandStatus-discrete
    Timestamp-discrete valid_chain last_event
journal-IsSound = record { unique = (refl, tt); keys = (refl, tt); rows = refl; few = refl }

abbrev pub late : ℕ
late = noon + 60 * second

-- The three sweeps of the accepted ping, at a time past its deadline.
pub ping-swept :
    ((recover_commands wire late journal).0 ≡ ok tt)
    × ((expire_commands wire late journal).0 ≡ ok tt)
    × ((lose_node_commands wire "node-1" late journal).0 ≡ ok tt)
unfolding recover_commands expire_commands lose_node_commands change_active_commands change_body
    sweep is_still_running transition_command valid_command_transition advance_record
    command_execution_deadline authorization_sensitive_command project_mutation write_record
    update_row transaction ◌>>=◌ admissible_command is_lifecycle_command validate_command
    valid_command_id command_token valid_command_body Role-discrete ActorOrigin-discrete valid_ttl
    command_time validate_command_record valid_outcome_data valid_deadline valid_audit
    valid_command_outcome fits_journal record_unknown is_terminal_command read_rows read_commands
    check_record valid_row agrees_with_columns CommandStatus-discrete Timestamp-discrete valid_chain
    last_event
ping-swept = (refl, refl, refl)
