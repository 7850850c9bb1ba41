-- ===== src/Journal/Steps.antt =====
-- The two ways a method writes: it replaces the record of a row that it has read, or adds a row.
use herdr_distributed_mesh.Prelude.{
  nat_eq, string_eq, ℕ, ◌≡◌, refl, sym, ap, ◌∙◌, Bool, true, some, List, [], ◌∷◌, ◌==◌, ==→≡,
  ==-false, ==-refl, all, subst, arith, inl, inr, Bool-cases, String, keep, leb, length,
}
use herdr_distributed_mesh.Errors.{ok, err, Result-cases, ◌>>=◌, invalid}
use herdr_distributed_mesh.Table.{find_row, update_row, Distinct}
use herdr_distributed_mesh.Table.Laws.{
  find_row-key, find_row-update_self, find_row-update_ne, keep-find_row, all-find_row, all-update,
  length-update_row, Distinct-update,
}
use herdr_distributed_mesh.Protocol.Messages.{
  status_eq, record_unknown, CommandStatus, CommandRecord, Timestamp, Wire,
}
use herdr_distributed_mesh.Journal.Records.{
  command_time, max_commands, fits_journal, validate_command_record,
}
use herdr_distributed_mesh.Journal.Outcomes.{valid_command_transition}
use herdr_distributed_mesh.Journal.Store.{
  Binding, CommandRow, Db, row_id, put_record, valid_row, agrees_with_columns, read_rows,
  read_commands, the_only, read_command, with_id, write_record, check_record, advance_record,
  transition_command,
}
use herdr_distributed_mesh.Journal.Keys.{OneKey, OneKey-update_row}
use herdr_distributed_mesh.Journal.Evolution.{
  Evolves, Evolves-refl, Evolves-trans, SameHistory, advance-Evolves,
}

-- The row of a command holds this record.
pub record Holds (db : Db) (r : CommandRecord) : Type 0 where
  pub row : CommandRow
  pub found : find_row row_id r.command.command_id db.commands ≡ some row
  pub payload : row.payload ≡ r

-- The keys are unique, every row would be returned by a read, and there are not too many.
pub record IsSound (wire : Wire) (db : Db) : Type 0 where
  pub unique : Distinct row_id db.commands
  pub keys : OneKey db.commands
  pub rows : all (valid_row wire db.bindings) db.commands ≡ true
  pub few : leb (length db.commands) max_commands ≡ true

-- Every command that was there is there still, its record has evolved, and the tables are as
-- sound as they were.
pub record Grows (wire : Wire) (db db' : Db) : Type 0 where
  pub bindings : db'.bindings ≡ db.bindings
  pub kept :
      (id : String) (row : CommandRow)
      → find_row row_id id db.commands ≡ some row
      → (row' : CommandRow) × (find_row row_id id db'.commands ≡ some row')
        × Evolves row.payload row'.payload
  pub sound : IsSound wire db → IsSound wire db'

pub Grows-refl : (wire : Wire) (db : Db) → Grows wire db db
Grows-refl wire db = record {
  bindings = refl;
  kept = λ id row h. (row, h, Evolves-refl row.payload);
  sound = λ s. s;
}

pub Grows-trans : {wire : Wire} {a b c : Db} → Grows wire a b → Grows wire b c → Grows wire a c
Grows-trans g h = record {
  bindings = h.bindings ∙ g.bindings;
  kept = λ id row e.
      let (row', e', p) = g.kept id row e in
      let (row'', e'', q) = h.kept id row' e' in (row'', e'', Evolves-trans p q);
  sound = λ s. h.sound (g.sound s);
}

-- A SELECT that returned one record selected one row, and it is valid.
only_row :
    (wire : Wire) (bindings : List Binding) (rows : List CommandRow) {r : CommandRecord}
    → (read_rows wire bindings rows >>= the_only) ≡ ok r
    → (row : CommandRow) × (rows ≡ row ∷ [])
      × (row.payload ≡ r)
      × (valid_row wire bindings row ≡ true)
unfolding read_rows the_only ◌>>=◌
only_row wire bindings [] h = cc
only_row wire bindings (row ∷ []) h = elim (Bool-cases (valid_row wire bindings row)) [
  | inl v ↦ let e : ok row.payload ≡ ok _ = rw v at h in (row, refl, cc (e), v)
  | inr n ↦ let e : err invalid ≡ ok _ = rw n at h in cc (e)
]
only_row wire bindings (row ∷ row' ∷ rows) h = ground arith

-- A lookup that returned a record selected one row, and it is valid.
pub read_command-row :
    (wire : Wire) (filter : CommandRow → Bool) (db : Db) {r : CommandRecord}
    → read_command wire filter db ≡ ok r
    → (row : CommandRow) × (keep filter db.commands ≡ row ∷ [])
      × (row.payload ≡ r)
      × (valid_row wire db.bindings row ≡ true)
unfolding read_command read_commands ◌>>=◌
read_command-row wire filter db {r} h = elim (Bool-cases (leb (length db.commands) max_commands)) [
  | inl small ↦ only_row wire db.bindings (keep filter db.commands) (rw small at h)
  | inr large ↦ let e : err invalid ≡ ok r = rw large at h in cc (e)
]

-- The columns of a valid row are those of its record.
pub valid_row-id :
    (wire : Wire) (bindings : List Binding) (row : CommandRow)
    → valid_row wire bindings row ≡ true
    → row.command_id ≡ row.payload.command.command_id
unfolding valid_row
valid_row-id wire bindings row v = ==→≡ row.command_id row.payload.command.command_id (ground arith)

-- A record that was read by its id is in the row of that id.
pub read_command-Holds :
    (wire : Wire) (id : String) (db : Db) {r : CommandRecord}
    → read_command wire (with_id id) db ≡ ok r
    → Holds db r × (r.command.command_id ≡ id)
read_command-Holds wire id db {r} h =
    let (row, rows, p, v) = read_command-row wire (with_id id) db h in
    let found = keep-find_row row_id id db.commands row [] rows in
    let this : r.command.command_id ≡ id =
      sym (ap (λ x. x.command.command_id) p)
      ∙ sym (valid_row-id wire db.bindings row v)
      ∙ find_row-key row_id id db.commands row found in
    (record { row = row; found = rw this found; payload = p }, this)

pub check_record-ok :
    (wire : Wire) (r : CommandRecord)
    → check_record wire r ≡ ok tt
    → (validate_command_record wire r ≡ true)
      × (fits_journal (wire.record_size r) (record_unknown r) ≡ true)
unfolding check_record ◌>>=◌
check_record-ok wire r h = ground arith

-- A checked record may be written to the row of its command.
put_record-valid :
    (wire : Wire) (bindings : List Binding) (row : CommandRow) (r : CommandRecord)
    → r.command ≡ row.payload.command
    → check_record wire r ≡ ok tt
    → valid_row wire bindings row ≡ true
    → valid_row wire bindings (put_record r row) ≡ true
unfolding valid_row agrees_with_columns
put_record-valid wire bindings row r same c v =
    let (good, fits) = check_record-ok wire r c in
    rw (good, fits, same, ==-refl r.status) (ground arith)

write_record-IsSound :
    (wire : Wire) (db : Db) (r r' : CommandRecord)
    → Holds db r
    → r'.command ≡ r.command
    → check_record wire r' ≡ ok tt
    → IsSound wire db
    → IsSound wire (write_record r' db)
unfolding write_record
write_record-IsSound wire db r r' held same c s =
    let id = r'.command.command_id in
    let test = valid_row wire db.bindings in
    let found : find_row row_id id db.commands ≡ some held.row = rw same held.found in
    let was : r'.command ≡ held.row.payload.command = rw held.payload same in
    let v = all-find_row row_id test id db.commands held.row s.rows found in
    let v' = put_record-valid wire db.bindings held.row r' was c v in
    record {
      unique = Distinct-update row_id (put_record r') (λ x. refl) id db.commands s.unique;
      keys = OneKey-update_row id r' db.commands s.keys;
      rows =
          all-update row_id test (put_record r') id db.commands held.row s.unique found v' s.rows;
      few = rw (length-update_row row_id (put_record r') id db.commands) s.few;
    }

pub write_record-Grows :
    (wire : Wire) (db : Db) (r r' : CommandRecord)
    → Holds db r
    → Evolves r r'
    → check_record wire r' ≡ ok tt
    → Grows wire db (write_record r' db)
unfolding write_record
write_record-Grows wire db r r' held e c = record {
  bindings = refl;
  sound = write_record-IsSound wire db r r' held e.command c;
  kept = λ id row h. elim (Bool-cases (r'.command.command_id == id)) [
    | inl same ↦
        let this : r'.command.command_id ≡ id = ==→≡ r'.command.command_id id same in
        let was : r.command.command_id ≡ id = ap (λ c. c.command_id) (sym e.command) ∙ this in
        let found : find_row row_id id db.commands ≡ some held.row = rw (← was) held.found in
        let mine : row.payload ≡ r = cc (found, h, held.payload) in
        let rows = λ (k : String). update_row row_id k (put_record r') db.commands in
        (
          put_record r' row,
          subst (λ k. find_row row_id id (rows k) ≡ some (put_record r' row)) (sym this)
              (find_row-update_self row_id (put_record r') (λ x. refl) id db.commands row h),
          rw mine e,
        )
    | inr other ↦ (
      row,
      find_row-update_ne row_id (put_record r') (λ x. refl) r'.command.command_id id db.commands
            (==-false r'.command.command_id id other)
          ∙ h,
      Evolves-refl row.payload,
    )
  ];
}

-- What a transition that went through has done.
pub record Transitioned (wire : Wire) (r : CommandRecord) (status : CommandStatus) (detail : String)
    (now : ℕ) (db : Db) (r' : CommandRecord) (db' : Db) : Type 0 where
  pub stamp : Timestamp
  pub timed : command_time now ≡ ok stamp
  pub advanced : r' ≡ advance_record r status detail stamp
  pub written : db' ≡ write_record r' db
  pub allowed : valid_command_transition r.command.command_type r.status status detail ≡ true
  pub checked : check_record wire r' ≡ ok tt

pub transition_command-ok :
    (wire : Wire) (r : CommandRecord) (status : CommandStatus) (detail : String) (now : ℕ) (db : Db)
    {r' : CommandRecord} {db' : Db}
    → transition_command wire r status detail now db ≡ ok (r', db')
    → Transitioned wire r status detail now db r' db'
unfolding transition_command ◌>>=◌
transition_command-ok wire r status detail now db {r'} {db'} h =
    elim (Result-cases (command_time now)) [
      | inl (stamp, t) ↦ record {
        stamp = stamp;
        timed = t;
        advanced = ground arith;
        written = ground arith;
        allowed = ground arith;
        checked = ground arith;
      }
      | inr (e, t) ↦ ground arith
    ]

-- A transition from the record of a row, with new data put in, grows the tables.
pub transition-Grows :
    (wire : Wire) (base r : CommandRecord) (status : CommandStatus) (detail : String) (now : ℕ)
    (db : Db) {r' : CommandRecord} {db' : Db}
    → Holds db base
    → SameHistory base r
    → transition_command wire r status detail now db ≡ ok (r', db')
    → Grows wire db db'
transition-Grows wire base r status detail now db {r'} held same h =
    let t = transition_command-ok wire r status detail now db h in
    let e : Evolves base r' =
      rw t.advanced (advance-Evolves base r status detail t.stamp same t.allowed) in
    rw t.written (write_record-Grows wire db base r' held e t.checked)
