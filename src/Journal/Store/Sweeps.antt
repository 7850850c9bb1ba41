-- ===== src/Journal/Store/Sweeps.antt =====
-- The sweeps over all active commands: LoseNodeCommands, ExpireCommands and RecoverCommands.
use herdr_distributed_mesh.Prelude.{
  nat_eq, string_eq, ℕ, String, Bool, true, false, ◌&&◌, ◌||◌, List, [], ◌∷◌, ◌==◌, leb, ltb,
  is_blank, if◌then◌else◌,
}
use herdr_distributed_mesh.Errors.{Result, ok, err, invalid, ◌>>=◌, transaction}
use herdr_distributed_mesh.Protocol.Commands.{command_execution_deadline}
use herdr_distributed_mesh.Protocol.Messages.{
  status_eq, CommandStatus, accepted, running, timed_out, indeterminate, unavailable, Timestamp,
  CommandRecord, Wire, timestamp,
}
use herdr_distributed_mesh.Journal.Records.{command_time}
use herdr_distributed_mesh.Journal.Store.{CommandRow, Db, read_commands, transition_command}

-- A running command is not expired before its execution deadline.
unfoldable pub is_still_running : String → ℕ → CommandRecord → Bool
is_still_running detail now r =
    detail == "deadline_expired"
    && r.status == running
    && ltb now (command_execution_deadline r.command)

abbrev pub swept_status : CommandStatus → CommandRecord → CommandStatus
swept_status accepted_status r = if r.status == running then indeterminate else accepted_status

-- The loop over the records that the SELECT returned.
unfoldable pub sweep :
    Wire → CommandStatus → String → ℕ → List CommandRecord → Db → Result (Unit {0} × Db)
sweep wire status detail now [] db = ok (tt, db)
sweep wire status detail now (r ∷ records) db = elim (is_still_running detail now r) [
  | true ↦ sweep wire status detail now records db
  | false ↦
      transition_command wire r (swept_status status r) detail now db
      >>= (λ t. sweep wire status detail now records t.1)
]

unfoldable pub change_body :
    Wire → (CommandRow → Bool) → CommandStatus → String → ℕ → Db → Result (Unit {0} × Db)
unfolding sweep
change_body wire filter status detail now db = do
  stamp ← command_time now
  records ← read_commands wire filter db
  sweep wire status detail now records db

-- changeActiveCommands
unfoldable pub change_active_commands :
    Wire → (CommandRow → Bool) → CommandStatus → String → ℕ → Db → Result (Unit {0}) × Db
unfolding change_body
change_active_commands wire filter status detail now =
    transaction (change_body wire filter status detail now)

abbrev pub is_pending : CommandStatus → Bool
is_pending status = status == accepted || status == running

unfoldable pub lose_node_commands : Wire → String → ℕ → Db → Result (Unit {0}) × Db
unfolding change_active_commands
lose_node_commands wire node now db =
    if is_blank node
    then (err invalid, db)
    else change_active_commands wire (λ row. row.target_id == node && is_pending row.status)
        unavailable "node_disconnected" now db

-- The deadline of a row, by its two columns, is not after the time.
abbrev pub has_expired : Timestamp → CommandRow → Bool
has_expired stamp row =
    ltb row.expires_seconds stamp.seconds
    || row.expires_seconds == stamp.seconds && leb row.expires_nanos stamp.nanos

unfoldable pub expire_commands : Wire → ℕ → Db → Result (Unit {0}) × Db
unfolding change_active_commands
expire_commands wire now =
    change_active_commands wire (λ row. is_pending row.status && has_expired (timestamp now) row)
      timed_out "deadline_expired" now

unfoldable pub recover_commands : Wire → ℕ → Db → Result (Unit {0}) × Db
unfolding change_active_commands
recover_commands wire now =
    change_active_commands wire (λ row. is_pending row.status) unavailable "server_restarted" now
