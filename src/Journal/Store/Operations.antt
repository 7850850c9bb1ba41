-- ===== src/Journal/Store/Operations.antt =====
-- The methods of Store on one command: lookup, admission, rejection, dispatch and completion. A
-- method's store is open and its context is not cancelled; a lost database is not modelled.
use herdr_distributed_mesh.Prelude.{
  nat_eq, string_eq, option_eq, ℕ, String, Bool, true, false, not, ◌&&◌, ◌||◌, Option, none, some,
  is_none, is_blank, List, [], ◌∷◌, ◌++◌, ◌==◌, ◌!=◌, leb, ltb, length, any, keep, if◌then◌else◌,
}
use herdr_distributed_mesh.Errors.{
  Result, ok, err, command_not_found, command_conflict, command_capacity, identity_conflict,
  lifecycle_unresolved, named_agent_exists, named_agent_ambiguous, invalid, guard, ◌>>=◌, ◌>>◌,
  transaction,
}
use herdr_distributed_mesh.Protocol.Tokens.{valid_idempotency_key}
use herdr_distributed_mesh.Protocol.Sessions.{validate_session_selector}
use herdr_distributed_mesh.Protocol.Messages.{
  status_eq, receipt_eq, result_eq, CommandStatus, accepted, running, rejected, timed_out,
  indeterminate, Timestamp, AgentStart, Command, CommandRecord, Wire,
}
use herdr_distributed_mesh.Journal.Outcomes.{authorization_sensitive_command}
use herdr_distributed_mesh.Journal.Records.{
  max_commands, admissible_command, command_time, matching_request, time_of,
}
use herdr_distributed_mesh.Journal.Fence.{lifecycle_conflict}
use herdr_distributed_mesh.Journal.Store.{
  Binding, CommandRow, Db, actor_of, seconds_of, nanos_of, read_commands, read_command, with_id,
  with_key, check_record, transition_command,
}

-- FindCommand, GetCommand and GetOperatorCommand
unfoldable pub find_command : Wire → String → String → Db → Result CommandRecord
find_command wire actor key db = do
  guard (not (is_blank actor || is_blank key)) invalid
  read_command wire (with_key actor key) db

unfoldable pub get_command : Wire → String → String → Db → Result CommandRecord
get_command wire actor id db = do
  guard (not (is_blank actor || is_blank id)) invalid
  read_command wire (λ row. row.actor_id == actor && row.command_id == id) db

unfoldable pub get_operator_command : Wire → String → Db → Result CommandRecord
get_operator_command wire id db = do
  guard (not (is_blank id)) invalid
  read_command wire (with_id id) db

abbrev is_open : CommandStatus → Bool
is_open status = status == accepted || status == running || status == indeterminate

-- checkCoordinatorLifecycleFence
unfoldable pub check_fence : Wire → Command → Db → Result (Unit {0})
check_fence wire command db =
    if is_none command.agent_start && is_none command.agent_control then ok tt else do
      records ←
          read_commands wire (λ row. row.target_id == command.target_id && is_open row.status) db
      guard
          (not (
            any
              (λ prior.
                lifecycle_conflict prior.command prior.agent_lifecycle prior.status command "")
              records))
          lifecycle_unresolved

abbrev claims_name : Option AgentStart → String → String → Bool
claims_name none name session = false
claims_name (some start) name session = start.name == name && start.session_name == session

-- checkNamedAgentClaim
unfoldable pub check_named_agent : Wire → Command → Option AgentStart → Db → Result (Unit {0})
check_named_agent wire command none db = ok tt
check_named_agent wire command (some start) db = do
  records ← read_commands wire (λ row. row.target_id == command.target_id) db
  guard (not (any (λ r. claims_name r.command.agent_start start.name start.session_name) records))
      named_agent_exists

unfoldable pub the_named : List CommandRecord → Result CommandRecord
the_named [] = err command_not_found
the_named (r ∷ []) = ok r
the_named (r ∷ more) = err named_agent_ambiguous

-- FindNamedAgent
unfoldable pub find_named_agent : Wire → String → String → String → Db → Result CommandRecord
unfolding the_named
find_named_agent wire node session name db = do
  guard
      (valid_idempotency_key node
        && valid_idempotency_key name
        && validate_session_selector session "" false)
      invalid
  records ← read_commands wire (λ row. row.target_id == node) db
  the_named (keep (λ r. claims_name r.command.agent_start name session) records)

abbrev pub admission : Command → Timestamp → CommandRecord
admission command stamp = record {
  command = command;
  status = accepted;
  detail = "accepted";
  created_at = some stamp;
  updated_at = some stamp;
  audit =
      record { status = accepted; detail = "accepted"; occurred_at = some stamp; unknown = false }
      ∷ [];
  workspace_ensure = none;
  worktree_create = none;
  agent_control = none;
  session_ensure = none;
  agent_lifecycle = none;
  unknown = false;
}

abbrev pub row_for : CommandRecord → CommandRow
row_for r = record {
  command_id = r.command.command_id;
  actor_id = actor_of r.command.actor;
  idempotency_key = r.command.idempotency_key;
  target_id = r.command.target_id;
  expires_seconds = seconds_of r.command.expires_at;
  expires_nanos = nanos_of r.command.expires_at;
  status = r.status;
  payload = r;
}

abbrev pub count_bound : String → List Binding → ℕ
count_bound target bindings = length (keep (λ b. b.instance_id == target) bindings)

-- The part of CreateCommand's transaction after the lookup found no earlier request.
unfoldable pub admit_command : Wire → Command → Timestamp → Db → Result (CommandRecord × Db)
unfolding check_record
admit_command wire command stamp db = do
  guard (length (keep (with_id command.command_id) db.commands) == 0) command_conflict
  guard (count_bound command.target_id db.bindings == 1) identity_conflict
  guard (ltb (length db.commands) max_commands) command_capacity
  check_fence wire command db
  check_named_agent wire command command.agent_start db
  let r = admission command stamp
  check_record wire r
  ok (r, record db { commands = db.commands ++ row_for r ∷ [] })

-- The lookup by actor and key: a matching earlier request is answered by its record.
unfoldable pub retry_or_admit :
    Wire → Command → Timestamp → Result CommandRecord → Db → Result ((CommandRecord × Bool) × Db)
unfolding admit_command
retry_or_admit wire command stamp (ok existing) db = do
  guard (matching_request existing.command command) command_conflict
  ok ((existing, false), db)
retry_or_admit wire command stamp (err command_not_found) db = do
  admitted ← admit_command wire command stamp db
  ok ((admitted.0, true), admitted.1)
retry_or_admit wire command stamp (err e) db = err e

unfoldable pub create_body : Wire → Command → Timestamp → Db → Result ((CommandRecord × Bool) × Db)
unfolding retry_or_admit
create_body wire command stamp db =
    retry_or_admit wire command stamp
      (read_command wire (with_key (actor_of command.actor) command.idempotency_key) db) db

-- CreateCommand
unfoldable pub create_command : Wire → Command → ℕ → Db → Result (CommandRecord × Bool) × Db
unfolding create_body
create_command wire command now = transaction λ db. do
  guard (admissible_command wire command command.target_id) invalid
  stamp ← command_time now
  create_body wire command stamp db

unfoldable pub reject_body : Wire → String → String → String → ℕ → Db → Result (CommandRecord × Db)
reject_body wire node id detail now db = do
  r ← read_command wire (with_id id) db
  guard (r.command.target_id == node) identity_conflict
  guard (authorization_sensitive_command r.command.command_type) command_conflict
  if r.status == accepted then transition_command wire r rejected detail now db else ok (r, db)

-- RejectCommand
unfoldable pub reject_command : Wire → String → String → String → ℕ → Db → Result CommandRecord × Db
unfolding reject_body
reject_command wire node id detail now = transaction λ db. do
  guard (not (is_blank node || is_blank id) && detail == "authorization_changed") invalid
  stamp ← command_time now
  reject_body wire node id detail now db

abbrev pub mark : {B : Type 0} → B → CommandRecord × Db → (CommandRecord × B) × Db
mark b (r, db) = ((r, b), db)

unfoldable pub dispatch_body :
    Wire → String → String → ℕ → Db → Result ((CommandRecord × Bool) × Db)
dispatch_body wire node id now db = do
  r ← read_command wire (with_id id) db
  guard (r.command.target_id == node) identity_conflict
  if r.status != accepted
      then ok ((r, false), db)
      else (if leb (time_of r.command.expires_at) now
          then transition_command wire r timed_out "deadline_expired" now db
            >>= (λ t. ok (mark false t))
          else transition_command wire r running "dispatched" now db >>= (λ t. ok (mark true t)))

-- DispatchCommand: whether this call granted the dispatch comes back beside the record.
unfoldable pub dispatch_command :
    Wire → String → String → ℕ → Db → Result (CommandRecord × Bool) × Db
unfolding dispatch_body
dispatch_command wire node id now = transaction λ db. do
  guard (not (is_blank node || is_blank id)) invalid
  stamp ← command_time now
  dispatch_body wire node id now db
