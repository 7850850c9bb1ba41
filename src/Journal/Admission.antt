-- ===== src/Journal/Admission.antt =====
-- The row of a new command among the other rows.
use herdr_distributed_mesh.Prelude.{
  nat_eq, string_eq, String, ◌≡◌, refl, Bool, true, false, List, [], ◌∷◌, ◌++◌, ◌==◌, ==-refl,
  arith, inl, inr, Bool-cases, &&-split, &&-join, ltb, length, length-append, all, any, keep,
  le→leb, ltb→lt,
}
use herdr_distributed_mesh.Errors.{Result, ok, err, command_not_found}
use herdr_distributed_mesh.Errors.Ensures.{Ensures-ok, Ensures-err, Ensures-guard, Ensures-bind}
use herdr_distributed_mesh.Table.Laws.{find_row-append, Distinct-append, keep-none}
use herdr_distributed_mesh.Protocol.Messages.{status_eq, Command, CommandRecord, Timestamp, Wire}
use herdr_distributed_mesh.Journal.Records.{max_commands}
use herdr_distributed_mesh.Journal.Store.{
  Binding, Db, row_id, is_bound, valid_row, agrees_with_columns, with_id, with_key, read_command,
  actor_of, seconds_of, nanos_of, check_record,
}
use herdr_distributed_mesh.Journal.Store.Operations.{
  count_bound, admission, row_for, admit_command, retry_or_admit, create_body,
}
use herdr_distributed_mesh.Journal.Evolution.{Evolves-refl}
use herdr_distributed_mesh.Journal.Keys.{shares_key, OneKey-append, read_command-none}
use herdr_distributed_mesh.Journal.Steps.{Grows, Grows-refl, check_record-ok}
use herdr_distributed_mesh.Journal.Growth.{Growing}

keep-none_any {ℓ} : {A : Type ℓ} (p : A → Bool) (xs : List A) → any p xs ≡ false → keep p xs ≡ []
keep-none_any p [] h = refl
keep-none_any p (x ∷ xs) h = elim (Bool-cases (p x)) [
  | inl e ↦ let f : true ≡ false = rw e at h in cc (f)
  | inr n ↦ rw n (keep-none_any p xs (rw n at h))
]

bound_once :
    (node : String) (bindings : List Binding)
    → (count_bound node bindings == 1) ≡ true
    → is_bound node bindings ≡ true
bound_once node bindings h = elim (Bool-cases (is_bound node bindings)) [
  | inl e ↦ e
  | inr n ↦
      let f : false ≡ true = rw (keep-none_any (λ b. b.instance_id == node) bindings n) at h in
      cc (f)
]

pub no_rows {ℓ} : {A : Type ℓ} (xs : List A) → (length xs == 0) ≡ true → xs ≡ []
no_rows [] h = refl
no_rows (x ∷ xs) h = absurd (ground arith)

all-append {ℓ} :
    {A : Type ℓ} (p : A → Bool) (xs ys : List A)
    → all p xs ≡ true
    → all p ys ≡ true
    → all p (xs ++ ys) ≡ true
all-append p [] ys h k = k
all-append p (x ∷ xs) ys h k =
    let (a, b) = &&-split (p x) (all p xs) h in
    &&-join (p x) (all p (xs ++ ys)) a (all-append p xs ys b k)

row_for-valid :
    (wire : Wire) (bindings : List Binding) (r : CommandRecord)
    → check_record wire r ≡ ok tt
    → is_bound r.command.target_id bindings ≡ true
    → valid_row wire bindings (row_for r) ≡ true
unfolding valid_row agrees_with_columns
row_for-valid wire bindings r c b =
    let (good, fits) = check_record-ok wire r c in
    let command = r.command in
    rw
      (
        good,
        fits,
        b,
        ==-refl command.command_id,
        ==-refl (actor_of command.actor),
        ==-refl command.idempotency_key,
        ==-refl command.target_id,
        ==-refl r.status,
        ==-refl (seconds_of command.expires_at),
        ==-refl (nanos_of command.expires_at),
      )
      refl

-- An INSERT of a checked record under a new id.
insert-Grows :
    (wire : Wire) (r : CommandRecord) (db : Db)
    → (length (keep (with_id r.command.command_id) db.commands) == 0) ≡ true
    → (count_bound r.command.target_id db.bindings == 1) ≡ true
    → ltb (length db.commands) max_commands ≡ true
    → check_record wire r ≡ ok tt
    → any (shares_key (row_for r)) db.commands ≡ false
    → Grows wire db (record db { commands = db.commands ++ row_for r ∷ [] })
insert-Grows wire r db fresh bound small c new =
    let row = row_for r in
    let id = r.command.command_id in
    record {
      bindings = refl;
      kept = λ id' old h.
          (old, find_row-append row_id id' db.commands row old h, Evolves-refl old.payload);
      sound = λ s. record {
        unique =
            Distinct-append row_id db.commands row s.unique
              (keep-none row_id id db.commands (no_rows (keep (with_id id) db.commands) fresh));
        keys = OneKey-append db.commands row s.keys new;
        rows =
            let test = valid_row wire db.bindings in
            all-append test db.commands (row ∷ []) s.rows (
              &&-join (test row) true
                (row_for-valid wire db.bindings r c
                  (bound_once r.command.target_id db.bindings bound))
                refl);
        few = le→leb (length (db.commands ++ row ∷ [])) max_commands (
            omega (
              arith,
              length-append db.commands (row ∷ []),
              ltb→lt (length db.commands) max_commands small,
            ));
      };
    }

admit_command-Grows :
    (wire : Wire) (command : Command) (stamp : Timestamp) (db : Db)
    → any (with_key (actor_of command.actor) command.idempotency_key) db.commands ≡ false
    → Growing wire db (admit_command wire command stamp db)
unfolding admit_command
admit_command-Grows wire command stamp db new = Ensures-guard _ _ _ λ fresh.
    Ensures-guard _ _ _ λ bound. Ensures-guard _ _ _ λ small. Ensures-bind _ _ λ u fenced.
      Ensures-bind _ _ λ u' named. Ensures-bind _ _ λ u'' checked.
        Ensures-ok _ (insert-Grows wire (admission command stamp) db fresh bound small checked new)

retry_or_admit-Grows :
    (wire : Wire) (command : Command) (stamp : Timestamp) (m : Result CommandRecord) (db : Db)
    → read_command wire (with_key (actor_of command.actor) command.idempotency_key) db ≡ m
    → Growing wire db (retry_or_admit wire command stamp m db)
unfolding retry_or_admit
retry_or_admit-Grows wire command stamp (ok existing) db looked =
    Ensures-guard _ _ _ λ _. Ensures-ok _ (Grows-refl wire db)
retry_or_admit-Grows wire command stamp (err command_not_found) db looked = Ensures-bind _ _ λ x h.
    Ensures-ok _
      ((admit_command-Grows wire command stamp db (read_command-none wire _ db looked)).at x h)
retry_or_admit-Grows wire command stamp (err _) db looked = Ensures-err _

pub create_body-Grows :
    (wire : Wire) (command : Command) (stamp : Timestamp) (db : Db)
    → Growing wire db (create_body wire command stamp db)
unfolding create_body
create_body-Grows wire command stamp db = retry_or_admit-Grows wire command stamp _ db refl
