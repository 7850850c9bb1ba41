-- ===== src/NodeJournal/Claims.antt =====
-- The claims of a command over any sequence of calls on a node's journal.
use herdr_distributed_mesh.Prelude.{
  nat_eq, string_eq, String, ◌≡◌, ◌≢◌, refl, sym, ◌∙◌, true, false, Option, none, some, List, [],
  ◌∷◌, ◌++◌, keep, Bool-cases, inl, inr, subst, leb, length, arith, any, ==-refl,
}
use herdr_distributed_mesh.Errors.{
  Result, ok, err, command_not_found, lifecycle_unresolved, ◌>>=◌, transaction-eq-ok, guard-eq-ok,
  invalid, Result-cases,
}
use herdr_distributed_mesh.Errors.Ensures.{
  Ensures, Ensures-ok, Ensures-err, Ensures-guard, Ensures-bind,
}
use herdr_distributed_mesh.Table.{find_row}
use herdr_distributed_mesh.Table.Laws.{keep-none, find_row-append_new}
use herdr_distributed_mesh.Protocol.Messages.{
  CommandStatus, Command, CommandResult, AgentLifecycleReceipt, Wire,
}
use herdr_distributed_mesh.Protocol.Commands.{command_project}
use herdr_distributed_mesh.Journal.Records.{max_commands, admissible_command}
use herdr_distributed_mesh.NodeJournal.{
  NodeRow, NodeDb, node_row_id, with_node_id, read_node_rows, read_node_entries, read_node_entry,
  the_only_entry,
}
use herdr_distributed_mesh.NodeJournal.Methods.{
  Claimed, running_row, mutates_project, blocks_project, claim_new, claim_project, claim_in_project,
  claim_fenced, claim, claim_found, claim_known, claim_rejected, claim_granted, complete,
  acknowledge, recover_node,
}
use herdr_distributed_mesh.NodeJournal.Scopes.{pin_command_scope, pin_agent_command, save_lifecycle}
use herdr_distributed_mesh.NodeJournal.Retention.{
  Retains, Retains-refl, Retains-trans, transaction-Retains, found-Retains, complete_entry-Retains,
  acknowledge-Retains, recover-Retains,
}

-- One call of a method that writes.
pub data NodeCall : Type 0 where
  claims : Command → NodeCall
  completes : CommandResult → NodeCall
  acknowledges : String → CommandStatus → NodeCall
  recovers : NodeCall
  pins : String → String → NodeCall
  saves : String → AgentLifecycleReceipt → NodeCall

module _ (digest : List String → String) (wire : Wire) (node : String) where
  -- PinAgentCommand and SaveLifecycle write other tables.
  pin_scope-Retains :
      (command : Command) (incarnation workspace terminal : String) (db : NodeDb)
      → Ensures
          (pin_command_scope digest node command incarnation workspace terminal db)
          (λ db'. db'.commands ≡ db.commands)
  unfolding pin_command_scope
  pin_scope-Retains command incarnation workspace terminal db = Ensures-guard _ _ _ λ _.
      Ensures-guard _ _ _ λ _.
        Ensures-bind _ _ λ _ _. Ensures-bind _ _ λ _ _. Ensures-guard _ _ _ λ _. Ensures-ok _ refl

  same-Retains : (db db' : NodeDb) → db'.commands ≡ db.commands → Retains db db'
  same-Retains db db' same = record { kept = λ id row h. (row, rw same h, refl) }

  unfoldable pub perform_node : NodeCall → NodeDb → NodeDb
  perform_node (claims command) db = (claim wire node command db).1
  perform_node (completes result) db = (complete wire node result db).1
  perform_node (acknowledges id status) db = (acknowledge wire node id status db).1
  perform_node recovers db = (recover_node wire node db).1
  perform_node (pins id incarnation) db = (pin_agent_command digest wire node id incarnation db).1
  perform_node (saves id receipt) db = (save_lifecycle digest wire node id receipt db).1

  unfoldable pub run_node : List NodeCall → NodeDb → NodeDb
  run_node [] db = db
  run_node (call ∷ calls) db = run_node calls (perform_node call db)

  claim-Retains : (command : Command) (db : NodeDb) → Retains db (claim wire node command db).1
  unfolding claim
  claim-Retains command db =
      transaction-Retains _ db (Ensures-guard _ _ _ λ _. found-Retains wire node command _ db)

  perform-Retains : (call : NodeCall) (db : NodeDb) → Retains db (perform_node call db)
  unfolding perform_node complete acknowledge recover_node pin_agent_command save_lifecycle
  perform-Retains (claims command) db = claim-Retains command db
  perform-Retains (completes result) db = transaction-Retains _ db (
      Ensures-guard _ _ _ λ _. Ensures-bind _ _ λ row _.
        Ensures-guard _ _ _
          λ _. Ensures-bind _ _ λ _ _. complete_entry-Retains wire row row.result result db)
  perform-Retains (acknowledges id status) db =
      transaction-Retains _ db (Ensures-guard _ _ _ λ _. acknowledge-Retains wire node id status db)
  perform-Retains recovers db =
      transaction-Retains _ db (Ensures-bind _ _ λ entries _. recover-Retains wire entries db)
  perform-Retains (pins id incarnation) db = transaction-Retains _ db (
      Ensures-bind _ _ λ row _. Ensures-guard _ _ _ λ _. Ensures-bind _ _ λ _ _.
        Ensures-bind _ _ λ db' h.
          Ensures-ok _
            (same-Retains db db' ((pin_scope-Retains row.command incarnation "" _ db).at db' h)))
  perform-Retains (saves id receipt) db = transaction-Retains _ db (
      Ensures-bind _ _ λ row _. Ensures-guard _ _ _ λ _. Ensures-bind _ _ λ old _.
        Ensures-guard _ _ _ λ _. Ensures-bind _ _ λ _ _. Ensures-bind _ _ λ db' h.
          Ensures-guard _ _ _ λ _.
            Ensures-ok _ (same-Retains db _ ((pin_scope-Retains row.command _ _ _ db).at db' h)))

  -- Whatever sequence of methods is called, every command that a node's journal holds is held
  -- afterwards, under the same id and with the same contents.
  pub run_node-Retains : (calls : List NodeCall) (db : NodeDb) → Retains db (run_node calls db)
  unfolding run_node
  run_node-Retains [] db = Retains-refl db
  run_node-Retains (call ∷ calls) db =
      Retains-trans (perform-Retains call db) (run_node-Retains calls (perform_node call db))

rows-found :
    (wire : Wire) (node : String) (rows : List NodeRow)
    → read_node_rows wire node rows ≢ err command_not_found
unfolding read_node_rows ◌>>=◌
rows-found wire node [] h = cc (h)
rows-found wire node (row ∷ rows) h = elim (Result-cases (read_node_rows wire node rows)) [
  | inl (entries, e) ↦ ground arith
  | inr (why, e) ↦ let below = rows-found wire node rows in ground arith
]

entry-absent :
    (wire : Wire) (node : String) (rows : List NodeRow)
    → (read_node_rows wire node rows >>= the_only_entry) ≡ err command_not_found
    → rows ≡ []
unfolding read_node_rows ◌>>=◌ the_only_entry
entry-absent wire node [] h = refl
entry-absent wire node (row ∷ rows) h = elim (Result-cases (read_node_rows wire node rows)) [
  | inl (entries, e) ↦ absurd (ground arith)
  | inr (why, e) ↦ let below = rows-found wire node rows in absurd (ground arith)
]

read_node_entry-absent :
    (wire : Wire) (node id : String) (db : NodeDb)
    → read_node_entry wire node id db ≡ err command_not_found
    → find_row node_row_id id db.commands ≡ none
unfolding read_node_entry read_node_entries ◌>>=◌
read_node_entry-absent wire node id db h =
    elim (Bool-cases (leb (length db.commands) max_commands)) [
      | inl few ↦
          keep-none node_row_id id db.commands
            (entry-absent wire node (keep (with_node_id id) db.commands) (rw few at h))
      | inr many ↦ let e : err invalid ≡ err command_not_found = rw many at h in cc (e)
    ]

-- What a granted claim has done: it found no entry, and inserted a running one.
abbrev Grants : Result NodeRow → Command → NodeDb → Claimed → Type 0
Grants m command db x =
    x.0.1 ≡ true
    → (m ≡ err command_not_found) × (x.1.commands ≡ db.commands ++ running_row command ∷ [])

abbrev Inserts : Command → NodeDb → Claimed → Type 0
Inserts command db x = x.0.1 ≡ true → x.1.commands ≡ db.commands ++ running_row command ∷ []

rejected-Inserts :
    (wire : Wire) (command : Command) (detail : String) (db : NodeDb)
    → Ensures (claim_rejected wire command detail db) (Inserts command db)
unfolding claim_rejected
rejected-Inserts wire command detail db = Ensures-guard _ _ _ λ _. Ensures-ok _ λ g. cc (g)

granted-Inserts :
    (command : Command) (db : NodeDb) → Ensures (claim_granted command db) (Inserts command db)
unfolding claim_granted
granted-Inserts command db = Ensures-ok _ λ g. refl

project-Inserts :
    (wire : Wire) (node : String) (command : Command) (db : NodeDb)
    → Ensures (claim_project wire node command db) (Inserts command db)
unfolding claim_project claim_in_project
project-Inserts wire node command db = elim (Bool-cases (mutates_project command)) [
  | inr other ↦ rw other (granted-Inserts command db)
  | inl mutates ↦ rw mutates (
      Ensures-bind _ _ λ entries _.
        elim (Bool-cases (any (blocks_project (command_project command).0) entries)) [
          | inl blocked ↦ rw blocked (rejected-Inserts wire command "project_unresolved" db)
          | inr clear ↦ rw clear (granted-Inserts command db)
        ])
]

fenced-Inserts :
    (wire : Wire) (node : String) (command : Command) (fence : Result (Unit {0})) (db : NodeDb)
    → Ensures (claim_fenced wire node command fence db) (Inserts command db)
unfolding claim_fenced
fenced-Inserts wire node command (ok u) db = project-Inserts wire node command db
fenced-Inserts wire node command (err lifecycle_unresolved) db = rejected-Inserts wire command _ db
fenced-Inserts wire node command (err _) db = Ensures-err _

known-false :
    (wire : Wire) (row : NodeRow) (old : Option CommandResult) (command : Command) (db : NodeDb)
    → Ensures (claim_known wire row old command db) (λ x. x.0.1 ≡ false)
unfolding claim_known
known-false wire row (some result) command db = Ensures-ok _ refl
known-false wire row none command db =
    Ensures-bind _ _ λ _ _. Ensures-bind _ _ λ _ _. Ensures-ok _ refl

found-Grants :
    (wire : Wire) (node : String) (command : Command) (m : Result NodeRow) (db : NodeDb)
    → Ensures (claim_found wire node command m db) (Grants m command db)
unfolding claim_found claim_new
found-Grants wire node command (ok row) db = Ensures-guard _ _ _ λ _. record {
  at = λ x h g.
      let denied = (known-false wire row row.result command db).at x h in
      let e : true ≡ false = sym g ∙ denied in cc (e);
}
found-Grants wire node command (err command_not_found) db = Ensures-guard _ _ _ λ _.
    Ensures-guard _ _ _
      λ _. record { at = λ x h g. (refl, (fenced-Inserts wire node command _ db).at x h g) }
found-Grants wire node command (err _) db = Ensures-err _

claim-Grants :
    (wire : Wire) (node : String) (command : Command) (db : NodeDb) (result : Option CommandResult)
    → (claim wire node command db).0 ≡ ok (result, true)
    → (find_row node_row_id command.command_id db.commands ≡ none)
      × ((claim wire node command db).1.commands ≡ db.commands ++ running_row command ∷ [])
unfolding claim
claim-Grants wire node command db result h =
    let body = transaction-eq-ok _ db h in
    let (_, e) = guard-eq-ok (admissible_command wire command node) invalid _ body in
    let (absent, inserted) = (found-Grants wire node command _ db).at _ e refl in
    (read_node_entry-absent wire node command.command_id db absent, inserted)

-- Once the claim of a command was granted by a node's journal, no later claim under the same
-- command id is, after whatever calls.
pub claim-granted_once :
    (digest : List String → String) (wire : Wire) (node : String) (command again : Command)
    (db : NodeDb) (result result' : Option CommandResult) (calls : List NodeCall)
    → again.command_id ≡ command.command_id
    → (claim wire node command db).0 ≡ ok (result, true)
    → (claim wire node again (run_node digest wire node calls (claim wire node command db).1)).0
      ≢ ok (result', true)
claim-granted_once digest wire node command again db result result' calls same first second =
    let db' = (claim wire node command db).1 in
    let (absent, inserted) = claim-Grants wire node command db result first in
    let (absent', _) =
      claim-Grants wire node again (run_node digest wire node calls db') result' second in
    let id = command.command_id in
    let there : find_row node_row_id id db'.commands ≡ some (running_row command) = rw inserted (
      find_row-append_new node_row_id id db.commands (running_row command) absent
      ∙ rw (==-refl id) refl) in
    let (row, found, _) =
      (run_node-Retains digest wire node calls db').kept id (running_row command) there in
    let db'' = run_node digest wire node calls db' in
    let gone = subst (λ k. find_row node_row_id k db''.commands ≡ none) same absent' in
    cc (found, gone)
