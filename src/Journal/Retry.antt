-- ===== src/Journal/Retry.antt =====
-- A request that is made again, after any calls.
use herdr_distributed_mesh.Prelude.{
  nat_eq, string_eq, ◌≡◌, refl, Bool, false, some, Bool-cases, inl, inr, if◌then◌else◌,
}
use herdr_distributed_mesh.Errors.{Result, ok, err, ◌>>=◌, command_conflict, transaction}
use herdr_distributed_mesh.Table.{find_row}
use herdr_distributed_mesh.Protocol.Messages.{Command, CommandRecord, Timestamp, Wire}
use herdr_distributed_mesh.Journal.Records.{matching_request}
use herdr_distributed_mesh.Journal.Store.{Db, row_id}
use herdr_distributed_mesh.Journal.Store.Operations.{row_for, retry_or_admit}

-- The record of a command that was just admitted is in its row.
record IsAdmitted (command : Command) (r : CommandRecord) (db : Db) : Type 0 where
  same : r.command ≡ command
  found : find_row row_id r.command.command_id db.commands ≡ some (row_for r)

-- The answer to a request that was made before: the record that its command has by then, if the
-- request is the same, and a conflict otherwise. The tables stay as they are.
unfoldable pub retry_answer : Command → CommandRecord → Db → Result (CommandRecord × Bool) × Db
retry_answer command r db =
    if matching_request r.command command then (ok (r, false), db) else (err command_conflict, db)

retry_or_admit-retry :
    (wire : Wire) (command : Command) (stamp : Timestamp) (r : CommandRecord) (db : Db)
    → transaction (λ d. retry_or_admit wire command stamp (ok r) d) db ≡ retry_answer command r db
unfolding transaction retry_or_admit retry_answer ◌>>=◌
retry_or_admit-retry wire command stamp r db =
    elim (Bool-cases (matching_request r.command command)) [
      | inl same ↦ rw same refl
      | inr other ↦ rw other refl
    ]
