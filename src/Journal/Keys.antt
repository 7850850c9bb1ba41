-- ===== src/Journal/Keys.antt =====
-- The UNIQUE key of an actor's requests: one row for an actor and an idempotency key.
use herdr_distributed_mesh.Prelude.{
  nat_eq, string_eq, ◌≡◌, ◌≢◌, refl, sym, ap, ◌∙◌, String, Bool, true, false, ◌||◌, List, [], ◌∷◌,
  ◌++◌, ◌==◌, ==→≡, ==-refl, ==-false, any, keep, some, leb, length, Bool-cases, inl, inr, subst,
}
use herdr_distributed_mesh.Errors.{Result-cases, Error, ok, err, command_not_found, ◌>>=◌, invalid}
use herdr_distributed_mesh.Table.{find_row, update_row}
use herdr_distributed_mesh.Protocol.Messages.{CommandRecord, Wire}
use herdr_distributed_mesh.Journal.Records.{max_commands}
use herdr_distributed_mesh.Journal.Store.{
  Binding, CommandRow, Db, row_id, put_record, with_key, valid_row, read_rows, read_commands,
  the_only, read_command,
}

-- Whether a row has the key of another row.
abbrev pub shares_key : CommandRow → CommandRow → Bool
shares_key row other = with_key row.actor_id row.idempotency_key other

-- UNIQUE (actor_id, idempotency_key)
abbrev pub OneKey : List CommandRow → Type 0
OneKey [] = Unit
OneKey (row ∷ rows) = (any (shares_key row) rows ≡ false) × OneKey rows

==-swap : (a b : String) → (a == b) ≡ (b == a)
==-swap a b = elim (Bool-cases (a == b)) [
  | inl e ↦ e ∙ sym (subst (λ c. (c == a) ≡ true) (==→≡ a b e) (==-refl a))
  | inr n ↦ elim (Bool-cases (b == a)) [
    | inl e ↦ absurd (==-false a b n (sym (==→≡ b a e)))
    | inr n' ↦ n ∙ sym n'
  ]
]

shares_key-swap : (row other : CommandRow) → shares_key row other ≡ shares_key other row
shares_key-swap row other =
    rw (==-swap other.actor_id row.actor_id, ==-swap other.idempotency_key row.idempotency_key) refl

neither : (a b : Bool) → (a || b) ≡ false → (a ≡ false) × (b ≡ false)
neither true b e = cc (e)
neither false b e = (refl, e)

-- An UPDATE of a record changes neither column of the key.
any-update_row :
    (row : CommandRow) (id : String) (r : CommandRecord) (rows : List CommandRow)
    → any (shares_key row) (update_row row_id id (put_record r) rows) ≡ any (shares_key row) rows
unfolding update_row
any-update_row row id r [] = refl
any-update_row row id r (x ∷ rows) =
    let rest = any-update_row row id r rows in
    elim (Bool-cases (x.command_id == id)) [ inl e ↦ rw (e, rest) refl | inr n ↦ rw (n, rest) refl ]

pub OneKey-update_row :
    (id : String) (r : CommandRecord) (rows : List CommandRow)
    → OneKey rows
    → OneKey (update_row row_id id (put_record r) rows)
unfolding update_row
OneKey-update_row id r [] h = tt
OneKey-update_row id r (x ∷ rows) (first, rest) = elim (Bool-cases (x.command_id == id)) [
  | inl e ↦ rw e (any-update_row x id r rows ∙ first, OneKey-update_row id r rows rest)
  | inr n ↦ rw n (any-update_row x id r rows ∙ first, OneKey-update_row id r rows rest)
]

any-append :
    (row new : CommandRow) (rows : List CommandRow)
    → any (shares_key row) rows ≡ false
    → shares_key row new ≡ false
    → any (shares_key row) (rows ++ new ∷ []) ≡ false
any-append row new [] h k = rw k refl
any-append row new (x ∷ rows) h k =
    let (first, rest) = neither (shares_key row x) _ h in rw first (any-append row new rows rest k)

pub OneKey-append :
    (rows : List CommandRow) (new : CommandRow)
    → OneKey rows
    → any (shares_key new) rows ≡ false
    → OneKey (rows ++ new ∷ [])
OneKey-append [] new h k = (refl, tt)
OneKey-append (x ∷ rows) new (first, rest) k =
    let (here, there) = neither (shares_key new x) _ k in
    (any-append x new rows first (shares_key-swap x new ∙ here), OneKey-append rows new rest there)

keep-none_shared :
    (row : CommandRow) (rows : List CommandRow)
    → any (shares_key row) rows ≡ false
    → keep (shares_key row) rows ≡ []
keep-none_shared row [] h = refl
keep-none_shared row (x ∷ rows) h =
    let (first, rest) = neither (shares_key row x) _ h in rw first (keep-none_shared row rows rest)

-- A row that is found does not share the key of one that no row shares.
found-apart :
    (other row : CommandRow) (id : String) (rows : List CommandRow)
    → find_row row_id id rows ≡ some row
    → any (shares_key other) rows ≡ false
    → shares_key other row ≡ false
unfolding find_row
found-apart other row id [] h k = cc (h)
found-apart other row id (x ∷ rows) h k =
    let (first, rest) = neither (shares_key other x) _ k in
    elim (Bool-cases (x.command_id == id)) [
      | inl e ↦
          let found : some x ≡ some row = rw e at h in
          let same : x ≡ row = cc (found) in subst (λ r. shares_key other r ≡ false) same first
      | inr n ↦ found-apart other row id rows (rw n at h) rest
    ]

-- A SELECT by the key of a row that is there reads that row alone.
pub keep-OneKey :
    (row : CommandRow) (id : String) (rows : List CommandRow)
    → OneKey rows
    → find_row row_id id rows ≡ some row
    → keep (shares_key row) rows ≡ row ∷ []
unfolding find_row
keep-OneKey row id [] h k = cc (k)
keep-OneKey row id (x ∷ rows) (first, rest) k = elim (Bool-cases (x.command_id == id)) [
  | inl e ↦
      let found : some x ≡ some row = rw e at k in
      let same : x ≡ row = cc (found) in
      subst (λ r. keep (shares_key r) (x ∷ rows) ≡ r ∷ []) same
        (rw (==-refl x.actor_id, ==-refl x.idempotency_key)
          (ap (x ∷◌) (keep-none_shared x rows first)))
  | inr n ↦
      let there = rw n at k in
      let away : shares_key row x ≡ false =
        shares_key-swap row x ∙ found-apart x row id rows there first in
      rw away (keep-OneKey row id rows rest there)
]

read_rows-invalid :
    (wire : Wire) (bindings : List Binding) (rows : List CommandRow) (why : Error)
    → read_rows wire bindings rows ≡ err why
    → why ≡ invalid
unfolding read_rows ◌>>=◌
read_rows-invalid wire bindings [] why h = cc (h)
read_rows-invalid wire bindings (row ∷ rows) why h =
    elim (Bool-cases (valid_row wire bindings row)) [
      | inl v ↦ elim (Result-cases (read_rows wire bindings rows)) [
        | inl (records, e) ↦ cc (rw (v, e) at h)
        | inr (why', e) ↦
            let f : err why' ≡ err why = rw (v, e) at h in
            cc (f, read_rows-invalid wire bindings rows why' e)
      ]
      | inr n ↦ let f : err invalid ≡ err why = rw n at h in cc (f)
    ]

read_rows-nonempty :
    (wire : Wire) (bindings : List Binding) (row : CommandRow) (rows : List CommandRow)
    → read_rows wire bindings (row ∷ rows) ≢ ok []
unfolding read_rows ◌>>=◌
read_rows-nonempty wire bindings row rows h = elim (Bool-cases (valid_row wire bindings row)) [
  | inl v ↦ elim (Result-cases (read_rows wire bindings rows)) [
    | inl (records, e) ↦ let f : ok (row.payload ∷ records) ≡ ok [] = rw (v, e) at h in cc (f)
    | inr (why, e) ↦ let f : err why ≡ ok [] = rw (v, e) at h in cc (f)
  ]
  | inr n ↦ let f : err invalid ≡ ok [] = rw n at h in cc (f)
]

no_row :
    (wire : Wire) (bindings : List Binding) (rows : List CommandRow)
    → (read_rows wire bindings rows >>= the_only) ≡ err command_not_found
    → rows ≡ []
unfolding the_only ◌>>=◌
no_row wire bindings [] h = refl
no_row wire bindings (row ∷ rows) h = elim (Result-cases (read_rows wire bindings (row ∷ rows))) [
  | inl (records, e) ↦
      absurd
        (read_rows-nonempty wire bindings row rows (e ∙ ap ok (refused_list records (rw e at h))))
  | inr (why, e) ↦
      let f : err why ≡ err command_not_found = rw e at h in
      absurd (cc (f, read_rows-invalid wire bindings (row ∷ rows) why e))
]
  where
    refused_list :
        (records : List CommandRecord) → the_only records ≡ err command_not_found → records ≡ []
    refused_list [] k = refl
    refused_list (r ∷ []) k = cc (k)
    refused_list (r ∷ r' ∷ records) k = cc (k)

any-keep : (p : CommandRow → Bool) (rows : List CommandRow) → keep p rows ≡ [] → any p rows ≡ false
any-keep p [] h = refl
any-keep p (row ∷ rows) h = elim (Bool-cases (p row)) [
  | inl e ↦ let f : row ∷ keep p rows ≡ [] = rw e at h in cc (f)
  | inr n ↦ rw n (any-keep p rows (rw n at h))
]

-- A lookup found no command because no row matches.
pub read_command-none :
    (wire : Wire) (filter : CommandRow → Bool) (db : Db)
    → read_command wire filter db ≡ err command_not_found
    → any filter db.commands ≡ false
unfolding read_command read_commands ◌>>=◌
read_command-none wire filter db h = elim (Bool-cases (leb (length db.commands) max_commands)) [
  | inl small ↦
      any-keep filter db.commands
        (no_row wire db.bindings (keep filter db.commands) (rw small at h))
  | inr large ↦ let e : err invalid ≡ err command_not_found = rw large at h in cc (e)
]
