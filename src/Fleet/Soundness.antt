-- ===== src/Fleet/Soundness.antt =====
-- The invariant of the bindings and snapshots (internal/state/store.go), and what each method does
-- to it.
use herdr_distributed_mesh.Prelude.{
  nat_eq, string_eq, option_eq, ℕ, ◌≤◌, ◌<◌, String, Bool, true, false, ◌&&◌, ◌||◌, none, some,
  List, [], ◌∷◌, ◌++◌, ◌==◌, ◌≡◌, refl, ap, subst, all, length, length-append, leb, ltb, is_some,
  Bool-cases, Option-cases, inl, inr, arith, &&-split, &&-join, ==→≡, ==-refl,
}
use herdr_distributed_mesh.Errors.{
  Result, ok, ◌>>=◌, >>=-eq-ok, guard-eq-ok, identity_conflict, invalid, transaction, Result-cases,
}
use herdr_distributed_mesh.Table.{find_row, Distinct}
use herdr_distributed_mesh.Table.Laws.{
  Distinct-update, Distinct-append, length-update_row, all-update, find_row-key,
}
use herdr_distributed_mesh.Journal.Store.{Binding}
use herdr_distributed_mesh.Fleet.{
  NodeView, LatestNode, FleetDb, NodeWire, max_nodes, max_node_bytes, latest_key, stable_of,
  bind_all, import_body, delete_row, delete_rows, delete_body, put_latest, validate_node, has_room,
  save_body, valid_latest, owns_latest, load_fleet, read_fleet,
}
use herdr_distributed_mesh.Fleet.Steps.{IsOneToOne, Binds, bind_all-kept}

module _ {Rest : Type 0} (wire : NodeWire Rest) where
  abbrev pub good_row : List Binding → LatestNode Rest → Bool
  good_row bindings row = valid_latest wire bindings row && owns_latest wire bindings row

  pub record IsFleet (db : FleetDb Rest) : Type 0 where
    pub bound : IsOneToOne db.bindings
    pub unique : Distinct latest_key db.latest
    pub few : length db.latest ≤ max_nodes
    pub good : all (good_row db.bindings) db.latest ≡ true

  -- A row stays good when bindings are added.
  good_row-Binds :
      (bindings bindings' : List Binding) (row : LatestNode Rest)
      → Binds bindings bindings'
      → good_row bindings row ≡ true
      → good_row bindings' row ≡ true
  unfolding valid_latest
  good_row-Binds bindings bindings' row kept h =
      elim (Option-cases (stable_of row.instance_id bindings)) [
        | inl missing ↦ cc (rw missing at h)
        | inr (stable, found) ↦ rw (kept row.instance_id stable found) (rw found at h)
      ]

  all-Binds :
      (bindings bindings' : List Binding) (rows : List (LatestNode Rest))
      → Binds bindings bindings'
      → all (good_row bindings) rows ≡ true
      → all (good_row bindings') rows ≡ true
  all-Binds bindings bindings' [] kept h = refl
  all-Binds bindings bindings' (row ∷ rows) kept h =
      let (first, rest) = &&-split _ _ h in
      &&-join _ _ (good_row-Binds bindings bindings' row kept first)
        (all-Binds bindings bindings' rows kept rest)

  -- What a delete keeps.
  find_row-delete :
      (id j : String) (rows : List (LatestNode Rest))
      → find_row latest_key j rows ≡ none
      → find_row latest_key j (delete_row id rows) ≡ none
  unfolding find_row
  find_row-delete id j [] h = refl
  find_row-delete id j (row ∷ rows) h = elim (Bool-cases (row.instance_id == j)) [
    | inl e ↦ cc (rw e at h)
    | inr n ↦ elim (Bool-cases (row.instance_id == id)) [
      | inl gone ↦ rw gone (find_row-delete id j rows (rw n at h))
      | inr stays ↦ rw (stays, n) (find_row-delete id j rows (rw n at h))
    ]
  ]

  Distinct-delete :
      (id : String) (rows : List (LatestNode Rest))
      → Distinct latest_key rows
      → Distinct latest_key (delete_row id rows)
  Distinct-delete id [] d = tt
  Distinct-delete id (row ∷ rows) d = elim (Bool-cases (row.instance_id == id)) [
    | inl gone ↦ rw gone (Distinct-delete id rows d.1)
    | inr stays ↦
        rw stays (find_row-delete id row.instance_id rows d.0, Distinct-delete id rows d.1)
  ]

  length-delete :
      (id : String) (rows : List (LatestNode Rest)) → length (delete_row id rows) ≤ length rows
  length-delete id [] = omega arith
  length-delete id (row ∷ rows) = elim (Bool-cases (row.instance_id == id)) [
    | inl gone ↦ rw gone (omega (arith, length-delete id rows))
    | inr stays ↦ rw stays (omega (arith, length-delete id rows))
  ]

  all-delete :
      (p : LatestNode Rest → Bool) (id : String) (rows : List (LatestNode Rest))
      → all p rows ≡ true
      → all p (delete_row id rows) ≡ true
  all-delete p id [] h = refl
  all-delete p id (row ∷ rows) h =
      let (first, rest) = &&-split _ _ h in
      elim (Bool-cases (row.instance_id == id)) [
        | inl gone ↦ rw gone (all-delete p id rows rest)
        | inr stays ↦ rw stays (&&-join _ _ first (all-delete p id rows rest))
      ]

  all-append :
      (p : LatestNode Rest → Bool) (row : LatestNode Rest) (rows : List (LatestNode Rest))
      → all p rows ≡ true
      → p row ≡ true
      → all p (rows ++ row ∷ []) ≡ true
  all-append p row [] h k = &&-join _ _ k refl
  all-append p row (r ∷ rows) h k =
      let (first, rest) = &&-split _ _ h in &&-join _ _ first (all-append p row rows rest k)

  -- The tests that SaveNode makes before it writes.
  pub record IsSavable (view : NodeView Rest) (db : FleetDb Rest) : Type 0 where
    small : leb (wire.size view) max_node_bytes ≡ true
    validated : validate_node wire view ≡ true
    owned : (stable_of view.instance_id db.bindings == some view.stable_id) ≡ true
    room : has_room wire view.instance_id db.latest ≡ true
    filled : leb 1 (wire.size view) ≡ true

  saved-good :
      (view : NodeView Rest) (db : FleetDb Rest) (row : LatestNode Rest)
      → IsSavable view db
      → row.instance_id ≡ view.instance_id
      → good_row db.bindings (record row { payload = view }) ≡ true
  unfolding valid_latest
  saved-good view db row s same =
      let bound = ==→≡ (stable_of view.instance_id db.bindings) (some view.stable_id) s.owned in
      rw same (
        &&-join _ _
          (&&-join _ _ (&&-join _ _ (&&-join _ _ (ap is_some bound) s.filled) s.small) s.validated)
          (&&-join _ _ (==-refl view.instance_id) s.owned))

  put_latest-IsFleet :
      (view : NodeView Rest) (db : FleetDb Rest)
      → IsSavable view db
      → IsFleet db
      → IsFleet (record db { latest = put_latest view db.latest })
  unfolding put_latest
  put_latest-IsFleet view db s f =
      elim (Option-cases (find_row latest_key view.instance_id db.latest)) [
        | inl missing ↦
            let new : LatestNode Rest = record { instance_id = view.instance_id; payload = view } in
            rw missing (record {
              bound = f.bound;
              unique = Distinct-append latest_key db.latest new f.unique missing;
              few =
                  omega (arith, length-append db.latest (new ∷ []), below db.latest missing s.room);
              good = all-append _ new db.latest f.good (saved-good view db new s refl);
            })
        | inr (row, found) ↦
            let write = λ (r : LatestNode Rest). record r { payload = view } in
            rw found (record {
              bound = f.bound;
              unique =
                  Distinct-update latest_key write (λ r. refl) view.instance_id db.latest f.unique;
              few = rw (length-update_row latest_key write view.instance_id db.latest) f.few;
              good =
                  all-update latest_key _ write view.instance_id db.latest row f.unique found
                    (saved-good view db row s
                      (find_row-key latest_key view.instance_id db.latest row found))
                    f.good;
            })
      ]
    where
      strictly : (n : ℕ) → (ltb n max_nodes || leb n max_nodes && false) ≡ true → n < max_nodes
      strictly n h = ground arith

      below :
          (rows : List (LatestNode Rest))
          → find_row latest_key view.instance_id rows ≡ none
          → has_room wire view.instance_id rows ≡ true
          → length rows < max_nodes
      below rows missing room = strictly (length rows) (rw missing at room)

  pub save_body-IsSavable :
      (view : NodeView Rest) (db : FleetDb Rest) (r : Unit {0} × FleetDb Rest)
      → save_body wire view db ≡ ok r
      → IsSavable view db × (record db { latest = put_latest view db.latest } ≡ r.1)
  unfolding save_body
  save_body-IsSavable view db r h =
      let (small, h1) = guard-eq-ok _ invalid _ h in
      let (validated, h2) = guard-eq-ok _ invalid _ h1 in
      let (owned, h3) = guard-eq-ok _ identity_conflict _ h2 in
      let (room, h4) = guard-eq-ok _ invalid _ h3 in
      let (filled, h5) = guard-eq-ok _ invalid _ h4 in
      (
        record {
          small = small;
          validated = validated;
          owned = owned;
          room = room;
          filled = filled;
        },
        cc (h5),
      )

  -- What a method does to the cache: it stays sound, and no binding is taken back.
  abbrev pub Keeps : FleetDb Rest → FleetDb Rest → Type 0
  Keeps db db' = (IsFleet db → IsFleet db') × Binds db.bindings db'.bindings

  pub Keeps-refl : (db : FleetDb Rest) → Keeps db db
  Keeps-refl db = (λ f. f, λ id stable h. h)

  pub transaction-Keeps :
      {A : Type 0} (body : FleetDb Rest → Result (A × FleetDb Rest)) (db : FleetDb Rest)
      → ((r : A × FleetDb Rest) → body db ≡ ok r → Keeps db r.1)
      → Keeps db (transaction body db).1
  unfolding transaction
  transaction-Keeps body db h = elim (Result-cases (body db)) [
    | inl (r, e) ↦ rw e (h r e)
    | inr (why, e) ↦ rw e (Keeps-refl db)
  ]

  pub import_body-Keeps :
      (bs : List Binding) (db : FleetDb Rest) (r : Unit {0} × FleetDb Rest)
      → import_body bs db ≡ ok r
      → Keeps db r.1
  unfolding import_body
  import_body-Keeps bs db r h =
      let (bindings, bound, h1) = >>=-eq-ok (bind_all bs db.bindings) _ h in
      let (one, binds) = bind_all-kept bs db.bindings bindings bound in
      let e : record db { bindings = bindings } ≡ r.1 = cc (h1) in
      subst (Keeps db) e (
        λ f. record {
          bound = one f.bound;
          unique = f.unique;
          few = f.few;
          good = all-Binds db.bindings bindings db.latest binds f.good;
        },
        binds,
      )

  delete_rows-IsFleet :
      (ids : List String) (db : FleetDb Rest) (rows : List (LatestNode Rest))
      → delete_rows ids db.latest ≡ ok rows
      → IsFleet db
      → IsFleet (record db { latest = rows })
  unfolding delete_rows
  delete_rows-IsFleet [] db rows h f =
      let e : db.latest ≡ rows = cc (h) in
      subst (λ l. IsFleet (record db { latest = l })) e
        (record { bound = f.bound; unique = f.unique; few = f.few; good = f.good })
  delete_rows-IsFleet (id ∷ ids) db rows h f =
      let (_, h1) = guard-eq-ok _ invalid _ h in
      delete_rows-IsFleet ids (record db { latest = delete_row id db.latest }) rows h1
        (record {
          bound = f.bound;
          unique = Distinct-delete id db.latest f.unique;
          few = omega (arith, length-delete id db.latest, f.few);
          good = all-delete _ id db.latest f.good;
        })

  pub delete_body-Keeps :
      (ids : List String) (db : FleetDb Rest) (r : Unit {0} × FleetDb Rest)
      → delete_body ids db ≡ ok r
      → Keeps db r.1
  unfolding delete_body
  delete_body-Keeps ids db r h =
      let (rows, gone, h1) = >>=-eq-ok (delete_rows ids db.latest) _ h in
      let e : record db { latest = rows } ≡ r.1 = cc (h1) in
      subst (Keeps db) e (λ f. delete_rows-IsFleet ids db rows gone f, λ id stable k. k)

  pub save_body-Keeps :
      (view : NodeView Rest) (db : FleetDb Rest) (r : Unit {0} × FleetDb Rest)
      → save_body wire view db ≡ ok r
      → Keeps db r.1
  save_body-Keeps view db r h =
      let (s, e) = save_body-IsSavable view db r h in
      subst (Keeps db) e (λ f. put_latest-IsFleet view db s f, λ id stable k. k)

  pub load_fleet-unchanged : (db : FleetDb Rest) → (load_fleet wire db).1 ≡ db
  unfolding load_fleet transaction ◌>>=◌
  load_fleet-unchanged db = elim (Result-cases (read_fleet wire db)) [
    | inl (views, e) ↦ rw e refl
    | inr (why, e) ↦ rw e refl
  ]
