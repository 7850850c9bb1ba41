-- ===== src/NodeJournal/Retention.antt =====
-- The commands that a node's journal knows, before and after a call of its methods.
use herdr_distributed_mesh.Prelude.{
  nat_eq, string_eq, String, ◌≡◌, refl, ◌∙◌, Option, none, some, List, [], ◌∷◌, ◌++◌, Bool-cases,
  inl, inr, any,
}
use herdr_distributed_mesh.Errors.{
  Result, ok, err, command_not_found, lifecycle_unresolved, transaction, Result-cases,
}
use herdr_distributed_mesh.Errors.Ensures.{
  Ensures, Ensures-ok, Ensures-err, Ensures-guard, Ensures-bind,
}
use herdr_distributed_mesh.Table.{find_row, update_row}
use herdr_distributed_mesh.Table.Laws.{find_row-append, find_row-update_any}
use herdr_distributed_mesh.Protocol.Messages.{
  status_eq, CommandStatus, Command, CommandResult, Wire,
}
use herdr_distributed_mesh.NodeJournal.{NodeRow, NodeDb, node_row_id, put_result, write_node_result}
use herdr_distributed_mesh.NodeJournal.Methods.{
  set_delivered, claim_known, claim_rejected, claim_granted, claim_project, claim_in_project,
  blocks_project, mutates_project, claim_fenced, claim_new, claim_found, complete_entry,
  acknowledge_body, recover_entries,
}

-- The same command is in the row.
abbrev SameCommand : NodeRow → NodeRow → Type 0
SameCommand row row' = row'.command ≡ row.command

-- Every command that was there is there still.
pub record Retains (db db' : NodeDb) : Type 0 where
  pub kept :
      (id : String) (row : NodeRow)
      → find_row node_row_id id db.commands ≡ some row
      → (row' : NodeRow) × (find_row node_row_id id db'.commands ≡ some row') × SameCommand row row'

pub Retains-refl : (db : NodeDb) → Retains db db
Retains-refl db = record { kept = λ id row h. (row, h, refl) }

pub Retains-trans : {a b c : NodeDb} → Retains a b → Retains b c → Retains a c
Retains-trans g h = record {
  kept = λ id row e.
      let (row', e', p) = g.kept id row e in
      let (row'', e'', q) = h.kept id row' e' in (row'', e'', q ∙ p);
}

-- An UPDATE that keeps the id and the command of a row.
update-Retains :
    (f : NodeRow → NodeRow) (id : String) (db : NodeDb)
    → ((row : NodeRow) → node_row_id (f row) ≡ node_row_id row)
    → ((row : NodeRow) → SameCommand row (f row))
    → Retains db (record db { commands = update_row node_row_id id f db.commands })
update-Retains f id db keeps same = record {
  kept = λ j row h.
      find_row-update_any node_row_id f keeps SameCommand (λ r. refl) same id j db.commands row h;
}

insert-Retains :
    (new : NodeRow) (db : NodeDb) → Retains db (record db { commands = db.commands ++ new ∷ [] })
insert-Retains new db = record {
  kept = λ id row h. (row, find_row-append node_row_id id db.commands new row h, refl);
}

abbrev pub Retaining {ℓ} : {A : Type ℓ} → NodeDb → Result (A × NodeDb) → Type ℓ
Retaining db m = Ensures m (λ x. Retains db x.1)

write-Retains :
    (wire : Wire) (command : Command) (result : CommandResult) (db : NodeDb)
    → Ensures (write_node_result wire command result db) (Retains db)
unfolding write_node_result
write-Retains wire command result db = Ensures-guard _ _ _ λ _. Ensures-guard _ _ _ λ _.
    Ensures-ok _ (update-Retains (put_result result) result.command_id db (λ r. refl) (λ r. refl))

pub transaction-Retains {ℓ} :
    {A : Type ℓ} (body : NodeDb → Result (A × NodeDb)) (db : NodeDb)
    → Retaining db (body db)
    → Retains db (transaction body db).1
unfolding transaction
transaction-Retains body db retains = elim (Result-cases (body db)) [
  | inl (x, e) ↦ rw e (retains.at x e)
  | inr (e, h) ↦ rw h (Retains-refl db)
]

rejected-Retains :
    (wire : Wire) (command : Command) (detail : String) (db : NodeDb)
    → Retaining db (claim_rejected wire command detail db)
unfolding claim_rejected
rejected-Retains wire command detail db =
    Ensures-guard _ _ _ λ _. Ensures-ok _ (insert-Retains _ db)

known-Retains :
    (wire : Wire) (row : NodeRow) (old : Option CommandResult) (command : Command) (db : NodeDb)
    → Retaining db (claim_known wire row old command db)
unfolding claim_known
known-Retains wire row (some result) command db = Ensures-ok _ (Retains-refl db)
known-Retains wire row none command db = Ensures-bind _ _ λ result _.
    Ensures-bind _ _ λ db' h. Ensures-ok _ ((write-Retains wire row.command result db).at db' h)

granted-Retains : (command : Command) (db : NodeDb) → Retaining db (claim_granted command db)
unfolding claim_granted
granted-Retains command db = Ensures-ok _ (insert-Retains _ db)

in_project-Retains :
    (wire : Wire) (command : Command) (project : String) (entries : List NodeRow) (db : NodeDb)
    → Retaining db (claim_in_project wire command project entries db)
unfolding claim_in_project
in_project-Retains wire command project entries db =
    elim (Bool-cases (any (blocks_project project) entries)) [
      | inl blocked ↦ rw blocked (rejected-Retains wire command "project_unresolved" db)
      | inr clear ↦ rw clear (granted-Retains command db)
    ]

project-Retains :
    (wire : Wire) (node : String) (command : Command) (db : NodeDb)
    → Retaining db (claim_project wire node command db)
unfolding claim_project
project-Retains wire node command db = elim (Bool-cases (mutates_project command)) [
  | inl mutates ↦
      rw mutates (Ensures-bind _ _ λ entries _. in_project-Retains wire command _ entries db)
  | inr other ↦ rw other (granted-Retains command db)
]

fenced-Retains :
    (wire : Wire) (node : String) (command : Command) (fence : Result (Unit {0})) (db : NodeDb)
    → Retaining db (claim_fenced wire node command fence db)
unfolding claim_fenced
fenced-Retains wire node command (ok u) db = project-Retains wire node command db
fenced-Retains wire node command (err lifecycle_unresolved) db = rejected-Retains wire command _ db
fenced-Retains wire node command (err _) db = Ensures-err _

pub found-Retains :
    (wire : Wire) (node : String) (command : Command) (found : Result NodeRow) (db : NodeDb)
    → Retaining db (claim_found wire node command found db)
unfolding claim_found claim_new
found-Retains wire node command (ok row) db =
    Ensures-guard _ _ _ λ _. known-Retains wire row row.result command db
found-Retains wire node command (err command_not_found) db =
    Ensures-guard _ _ _ λ _. Ensures-guard _ _ _ λ _. fenced-Retains wire node command _ db
found-Retains wire node command (err _) db = Ensures-err _

pub complete_entry-Retains :
    (wire : Wire) (row : NodeRow) (old : Option CommandResult) (result : CommandResult)
    (db : NodeDb)
    → Retaining db (complete_entry wire row old result db)
unfolding complete_entry
complete_entry-Retains wire row (some old) result db =
    Ensures-guard _ _ _ λ _. Ensures-ok _ (Retains-refl db)
complete_entry-Retains wire row none result db =
    Ensures-bind _ _ λ db' h. Ensures-ok _ ((write-Retains wire row.command result db).at db' h)

pub acknowledge-Retains :
    (wire : Wire) (node id : String) (status : CommandStatus) (db : NodeDb)
    → Retaining db (acknowledge_body wire node id status db)
unfolding acknowledge_body
acknowledge-Retains wire node id status db = Ensures-bind _ _ λ row _. Ensures-guard _ _ _ λ _.
    elim (Bool-cases row.delivered) [
      | inl done ↦ rw done (Ensures-ok _ (Retains-refl db))
      | inr waiting ↦
          rw waiting (Ensures-ok _ (update-Retains set_delivered id db (λ r. refl) (λ r. refl)))
    ]

pub recover-Retains :
    (wire : Wire) (entries : List NodeRow) (db : NodeDb)
    → Retaining db (recover_entries wire entries db)
unfolding recover_entries
recover-Retains wire [] db = Ensures-ok _ (Retains-refl db)
recover-Retains wire (row ∷ rows) db = Ensures-bind _ _ λ result _. Ensures-bind _ _ λ db' h.
    record {
      at = λ x e.
          Retains-trans ((write-Retains wire row.command result db).at db' h)
            ((recover-Retains wire rows db').at x e);
    }
