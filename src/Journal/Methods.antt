-- ===== src/Journal/Methods.antt =====
-- The methods of Store that write, called one after another, and what holds of every sequence of
-- calls whatever their arguments and times.
pub use herdr_distributed_mesh.Journal.Store.Completion.{CommandProgress}
use herdr_distributed_mesh.Prelude.{
  string_eq, nat_eq, ℕ, String, Bool-cases, inl, inr, List, [], ◌∷◌, is_blank,
}
use herdr_distributed_mesh.Errors.Ensures.{Ensures-guard, Ensures-bind}
use herdr_distributed_mesh.Protocol.Messages.{status_eq, Command, CommandResult, Wire}
use herdr_distributed_mesh.Journal.Store.{Db}
use herdr_distributed_mesh.Journal.Store.Operations.{
  create_command, reject_command, dispatch_command,
}
use herdr_distributed_mesh.Journal.Store.Completion.{finish_command, save_command_progress}
use herdr_distributed_mesh.Journal.Store.Sweeps.{
  lose_node_commands, expire_commands, recover_commands,
}
use herdr_distributed_mesh.Journal.Steps.{IsSound, Grows, Grows-refl, Grows-trans}
use herdr_distributed_mesh.Journal.Growth.{
  transaction-Grows, reject_body-Grows, dispatch_body-Grows, finish_body-Grows, progress_body-Grows,
}
use herdr_distributed_mesh.Journal.Admission.{create_body-Grows}
use herdr_distributed_mesh.Journal.Sweeping.{change_active_commands-Grows}

-- One call, with its arguments and the time it is made at.
pub data Call : Type 0 where
  create : Command → ℕ → Call
  reject : String → String → String → ℕ → Call
  dispatch : String → String → ℕ → Call
  finish : String → String → CommandResult → ℕ → Call
  progress : String → CommandProgress → Call
  lose : String → ℕ → Call
  expire recover : ℕ → Call

unfoldable pub perform : Wire → Call → Db → Db
perform wire (create command now) db = (create_command wire command now db).1
perform wire (reject node id detail now) db = (reject_command wire node id detail now db).1
perform wire (dispatch node id now) db = (dispatch_command wire node id now db).1
perform wire (finish node stable result now) db = (finish_command wire node stable result now db).1
perform wire (progress node report) db = (save_command_progress wire node report db).1
perform wire (lose node now) db = (lose_node_commands wire node now db).1
perform wire (expire now) db = (expire_commands wire now db).1
perform wire (recover now) db = (recover_commands wire now db).1

unfoldable pub run : Wire → List Call → Db → Db
unfolding perform
run wire [] db = db
run wire (call ∷ calls) db = run wire calls (perform wire call db)

lose-Grows :
    (wire : Wire) (node : String) (now : ℕ) (db : Db)
    → IsSound wire db
    → Grows wire db (lose_node_commands wire node now db).1
unfolding lose_node_commands
lose-Grows wire node now db s = elim (Bool-cases (is_blank node)) [
  | inl blank ↦ rw blank (Grows-refl wire db)
  | inr named ↦ rw named (change_active_commands-Grows wire _ _ _ now db s)
]

pub perform-Grows :
    (wire : Wire) (call : Call) (db : Db) → IsSound wire db → Grows wire db (perform wire call db)
unfolding perform create_command reject_command dispatch_command finish_command
    save_command_progress expire_commands recover_commands
perform-Grows wire (create command now) db s =
    transaction-Grows wire _ db
      (Ensures-guard _ _ _ λ _. Ensures-bind _ _ λ stamp _. create_body-Grows wire command stamp db)
perform-Grows wire (reject node id detail now) db s =
    transaction-Grows wire _ db (
      Ensures-guard _ _ _ λ _. Ensures-bind _ _ λ _ _. reject_body-Grows wire node id detail now db)
perform-Grows wire (dispatch node id now) db s =
    transaction-Grows wire _ db
      (Ensures-guard _ _ _ λ _. Ensures-bind _ _ λ _ _. dispatch_body-Grows wire node id now db)
perform-Grows wire (finish node stable result now) db s = transaction-Grows wire _ db (
    Ensures-guard _ _ _ λ _.
      Ensures-guard _ _ _
        λ _. Ensures-bind _ _ λ _ _. finish_body-Grows wire node stable result now db)
perform-Grows wire (progress node report) db s =
    transaction-Grows wire _ db (Ensures-guard _ _ _ λ _. progress_body-Grows wire node report db)
perform-Grows wire (lose node now) db s = lose-Grows wire node now db s
perform-Grows wire (expire now) db s = change_active_commands-Grows wire _ _ _ now db s
perform-Grows wire (recover now) db s = change_active_commands-Grows wire _ _ _ now db s

-- Whatever sequence of methods is called on a sound journal, every command that it holds is held
-- afterwards, with the same request and creation time, an audit and lifecycle evidence that were
-- only added to, and the same record once its outcome was conclusive; and the journal is sound.
pub run-Grows :
    (wire : Wire) (calls : List Call) (db : Db)
    → IsSound wire db
    → Grows wire db (run wire calls db)
unfolding run
run-Grows wire [] db s = Grows-refl wire db
run-Grows wire (call ∷ calls) db s =
    let step = perform-Grows wire call db s in
    Grows-trans step (run-Grows wire calls (perform wire call db) (step.sound s))
