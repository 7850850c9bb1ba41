-- ===== src/Journal/Recovery.antt =====
-- What is left pending after RecoverCommands, LoseNodeCommands and ExpireCommands.
use mathlib.Core.List.{map}
use herdr_distributed_mesh.Prelude.{
  nat_eq, string_eq, ℕ, String, ◌≡◌, refl, sym, ap, ◌∙◌, Bool, true, false, not, Bool-cases, inl,
  inr, List, [], ◌∷◌, ◌&&◌, ◌==◌, ==→≡, subst, &&-split, all, All, ltb, arith, is_blank,
}
use herdr_distributed_mesh.Errors.{ok, err, invalid}
use herdr_distributed_mesh.Protocol.Messages.{
  status_eq, CommandStatus, unspecified, accepted, running, succeeded, failed, timed_out, rejected,
  indeterminate, unavailable, CommandRecord, Wire, timestamp,
}
use herdr_distributed_mesh.Protocol.Commands.{command_execution_deadline}
use herdr_distributed_mesh.Journal.Store.{
  Binding, CommandRow, Db, valid_row, agrees_with_columns, put_record, advance_record,
}
use herdr_distributed_mesh.Journal.Store.Sweeps.{
  is_still_running, swept_status, is_pending, has_expired, lose_node_commands, recover_commands,
}
use herdr_distributed_mesh.Journal.Steps.{IsSound}
use herdr_distributed_mesh.Journal.Sweeping.{swept_row, change_active_commands-mapped}

-- The indexed status of a valid row is that of its record.
valid_row-status :
    (wire : Wire) (bindings : List Binding) (row : CommandRow)
    → valid_row wire bindings row ≡ true
    → row.status ≡ row.payload.status
unfolding valid_row agrees_with_columns
valid_row-status wire bindings row v = ==→≡ row.status row.payload.status (ground arith)

-- Two maps over valid rows that agree on each valid row.
map-valid :
    (p : CommandRow → Bool) (f g : CommandRow → CommandRow) (rows : List CommandRow)
    → all p rows ≡ true
    → ((row : CommandRow) → p row ≡ true → f row ≡ g row)
    → map f rows ≡ map g rows
map-valid p f g [] v same = refl
map-valid p f g (row ∷ rows) v same =
    let (a, b) = &&-split (p row) (all p rows) v in cc (same row a, map-valid p f g rows b same)

All-map-valid {κ} :
    (p : CommandRow → Bool) (f : CommandRow → CommandRow) (P : CommandRow → Type κ)
    (rows : List CommandRow)
    → all p rows ≡ true
    → ((row : CommandRow) → p row ≡ true → P (f row))
    → All P (map f rows)
All-map-valid p f P [] v each = tt
All-map-valid p f P (row ∷ rows) v each =
    let (a, b) = &&-split (p row) (all p rows) v in (each row a, All-map-valid p f P rows b each)

-- A restart's effect on one row, by the status of its record.
abbrev pub restart : ℕ → CommandRow → CommandStatus → CommandRow
restart now row accepted =
    put_record (advance_record row.payload unavailable "server_restarted" (timestamp now)) row
restart now row running =
    put_record (advance_record row.payload indeterminate "server_restarted" (timestamp now)) row
restart now row _ = row

swept-restart :
    (now : ℕ) (row : CommandRow) (status : CommandStatus)
    → row.payload.status ≡ status
    → row.status ≡ status
    → swept_row (λ row. is_pending row.status) unavailable "server_restarted" now row
      ≡ restart now row status
unfolding swept_row is_still_running advance_record
swept-restart now row accepted p s = rw (s, p) refl
swept-restart now row running p s = rw (s, p) refl
swept-restart now row unspecified p s = rw (s, p) refl
swept-restart now row succeeded p s = rw (s, p) refl
swept-restart now row failed p s = rw (s, p) refl
swept-restart now row timed_out p s = rw (s, p) refl
swept-restart now row rejected p s = rw (s, p) refl
swept-restart now row indeterminate p s = rw (s, p) refl
swept-restart now row unavailable p s = rw (s, p) refl

-- A recovery of a sound journal that returns has turned each accepted command into an unavailable
-- one and each running command into an indeterminate one, with one audit event, in its own row,
-- and has left every other row as it was.
pub recover_commands-restart :
    (wire : Wire) (now : ℕ) (db : Db)
    → IsSound wire db
    → (recover_commands wire now db).0 ≡ ok tt
    → (recover_commands wire now db).1
      ≡ record db { commands = map (λ row. restart now row row.payload.status) db.commands }
unfolding recover_commands
recover_commands-restart wire now db s h =
    change_active_commands-mapped wire _ unavailable "server_restarted" now db s h
    ∙ ap (λ rows. record db { commands = rows })
        (map-valid (valid_row wire db.bindings) _ _ db.commands s.rows (λ row v.
          swept-restart now row row.payload.status refl (valid_row-status wire db.bindings row v)))

-- A row that an expiry has passed over: it is not pending, or its deadline is ahead, or it runs
-- and may still run.
abbrev pub MayRemain : ℕ → CommandRow → Type 0
MayRemain now row =
    (is_pending row.status && has_expired (timestamp now) row) ≡ true
    → (row.status ≡ running) × (ltb now (command_execution_deadline row.payload.command) ≡ true)

module _ (filter : CommandRow → Bool) (status : CommandStatus) (detail : String) (now : ℕ) where
  abbrev changes : CommandRow → Bool
  changes row = filter row && not (is_still_running detail now row.payload)

  swept_row-changed :
      (row : CommandRow)
      → changes row ≡ true
      → swept_row filter status detail now row
        ≡ put_record
            (advance_record row.payload (swept_status status row.payload) detail (timestamp now))
            row
  unfolding swept_row
  swept_row-changed row h = rw h refl

  swept_row-kept :
      (row : CommandRow) → changes row ≡ false → swept_row filter status detail now row ≡ row
  unfolding swept_row
  swept_row-kept row h = rw h refl

  -- A swept row is not pending, since neither of its two outcomes is.
  swept_status-is_pending :
      (r : CommandRecord) → is_pending status ≡ false → is_pending (swept_status status r) ≡ false
  swept_status-is_pending r h = elim (Bool-cases (r.status == running)) [
    | inl e ↦ rw e refl
    | inr n ↦ rw n h
  ]

abbrev pub waits_for : String → CommandRow → Bool
waits_for node row = row.target_id == node && is_pending row.status

swept-waits_for :
    (node : String) (now : ℕ) (row : CommandRow)
    → waits_for node (swept_row (waits_for node) unavailable "node_disconnected" now row) ≡ false
unfolding advance_record is_still_running
swept-waits_for node now row =
    elim (Bool-cases (changes (waits_for node) unavailable "node_disconnected" now row)) [
      | inl moved ↦
          rw (swept_row-changed (waits_for node) unavailable "node_disconnected" now row moved) (
            let settled =
              swept_status-is_pending (waits_for node) unavailable "node_disconnected" now
                row.payload refl in
            ground arith)
      | inr kept ↦
          rw (swept_row-kept (waits_for node) unavailable "node_disconnected" now row kept)
            (ground arith)
    ]

-- After the loss of a node that returns, on a sound journal, no command of the node is accepted or
-- running.
pub lose_node_commands-released :
    (wire : Wire) (node : String) (now : ℕ) (db : Db)
    → IsSound wire db
    → (lose_node_commands wire node now db).0 ≡ ok tt
    → All (λ row. waits_for node row ≡ false) (lose_node_commands wire node now db).1.commands
unfolding lose_node_commands
lose_node_commands-released wire node now db s h = elim (Bool-cases (is_blank node)) [
  | inl blank ↦ let e : err invalid ≡ ok tt = rw blank at h in cc (e)
  | inr named ↦ rw named (
      subst (λ d. All (λ row. waits_for node row ≡ false) d.commands)
        (sym (
          change_active_commands-mapped wire (waits_for node) unavailable "node_disconnected" now db
            s (rw named at h)))
        (All-map-valid (valid_row wire db.bindings) _ (λ row. waits_for node row ≡ false)
          db.commands s.rows (λ row v. swept-waits_for node now row)))
]
