-- ===== src/Fleet/Cache.antt =====
-- The cache as a map from instances to snapshots, and what each method does to the map.
use mathlib.Core.Option
use herdr_distributed_mesh.Prelude.{
  nat_eq, string_eq, option_eq, String, Bool, true, false, ◌||◌, Option, none, some, List, [], ◌∷◌,
  ◌++◌, ◌==◌, ◌≡◌, refl, sym, ap, ◌∙◌, subst, if◌then◌else◌, if-rule, contains, is_some, Bool-cases,
  Option-cases, inl, inr, ==→≡, ==-refl, ==-false,
}
use herdr_distributed_mesh.Errors.{
  Result, ok, err, >>=-eq-ok, guard-eq-ok, invalid, transaction, Result-cases,
}
use herdr_distributed_mesh.Table.{find_row}
use herdr_distributed_mesh.Table.Laws.{
  find_row-update_self, find_row-update_ne, find_row-append, find_row-append_new,
}
use herdr_distributed_mesh.Journal.Store.{Binding}
use herdr_distributed_mesh.Fleet.{
  NodeView, LatestNode, FleetDb, NodeWire, latest_key, bind_all, import_body, import_bindings,
  delete_row, delete_rows, delete_body, delete_nodes, put_latest, save_body, save_node, load_fleet,
}
use herdr_distributed_mesh.Fleet.Soundness.{save_body-IsSavable, load_fleet-unchanged}
use herdr_distributed_mesh.Fleet.Runs.{
  FleetCall, import_call, save_call, delete_call, load_call, do_fleet,
}

abbrev pub succeeds : {A : Type 0} → Result A → Bool
succeeds (ok a) = true
succeeds (err e) = false

none_anyway : {A : Type 0} (b : Bool) → Path (Option A) none (if b then none else none)
none_anyway true = refl
none_anyway false = refl

module _ {Rest : Type 0} where
  -- The cache as a map.
  abbrev pub snapshot : FleetDb Rest → String → Option (NodeView Rest)
  snapshot db id = Option.map (λ row. row.payload) (find_row latest_key id db.latest)

  -- The map after a call that succeeded, or that failed.
  abbrev pub map_step :
      Bool → FleetCall Rest → (String → Option (NodeView Rest)) → String → Option (NodeView Rest)
  map_step true (save_call view) nodes id = if view.instance_id == id then some view else nodes id
  map_step true (delete_call ids) nodes id = if contains ids id then none else nodes id
  map_step _ _ nodes id = nodes id

  find_row-append_other :
      (id : String) (rows : List (LatestNode Rest)) (new : LatestNode Rest)
      → (new.instance_id == id) ≡ false
      → find_row latest_key id (rows ++ new ∷ []) ≡ find_row latest_key id rows
  find_row-append_other id rows new h = elim (Option-cases (find_row latest_key id rows)) [
    | inl missing ↦ rw (find_row-append_new latest_key id rows new missing, h) (sym missing)
    | inr (row, found) ↦ find_row-append latest_key id rows new row found ∙ sym found
  ]

  put_latest_self :
      (view : NodeView Rest) (rows : List (LatestNode Rest))
      → Option.map
          (λ row. row.payload)
          (find_row latest_key view.instance_id (put_latest view rows))
        ≡ some view
  unfolding put_latest
  put_latest_self view rows = elim (Option-cases (find_row latest_key view.instance_id rows)) [
    | inl missing ↦
        let new : LatestNode Rest = record { instance_id = view.instance_id; payload = view } in
        rw
          (
            missing,
            find_row-append_new latest_key view.instance_id rows new missing,
            ==-refl view.instance_id,
          )
          refl
    | inr (row, found) ↦
        rw
          (
            put_latest,
            found,
            find_row-update_self latest_key (λ r. record r { payload = view }) (λ r. refl)
                view.instance_id rows row found,
          )
          refl
  ]

  put_latest_other :
      (view : NodeView Rest) (rows : List (LatestNode Rest)) (id : String)
      → (view.instance_id == id) ≡ false
      → find_row latest_key id (put_latest view rows) ≡ find_row latest_key id rows
  unfolding put_latest
  put_latest_other view rows id other =
      if-rule (λ after. find_row latest_key id after ≡ find_row latest_key id rows)
        (is_some (find_row latest_key view.instance_id rows)) _ _
        (λ there.
          find_row-update_ne latest_key (λ r. record r { payload = view }) (λ r. refl)
            view.instance_id id rows (==-false view.instance_id id other))
        (λ new. find_row-append_other id rows _ other)

  find_row-delete_row :
      (gone id : String) (rows : List (LatestNode Rest))
      → find_row latest_key id (delete_row gone rows)
        ≡ (if gone == id then none else find_row latest_key id rows)
  unfolding find_row
  find_row-delete_row gone id [] = none_anyway (gone == id)
  find_row-delete_row gone id (row ∷ rows) = elim (Bool-cases (row.instance_id == gone)) [
    | inl g ↦ elim (Bool-cases (gone == id)) [
      | inl e ↦ rw (g, e) (find_row-delete_row gone id rows ∙ rw e refl)
      | inr n ↦
          let away : (row.instance_id == id) ≡ false = rw (==→≡ row.instance_id gone g) n in
          rw (g, n, away) (find_row-delete_row gone id rows ∙ rw n refl)
    ]
    | inr k ↦ elim (Bool-cases (row.instance_id == id)) [
      | inl e ↦
          let left : (gone == id) ≡ false = unlike row.instance_id gone id e k in
          rw (k, left, e) refl
      | inr n ↦ rw (k, n) (find_row-delete_row gone id rows)
    ]
  ]
    where
      unlike : (a b c : String) → (a == c) ≡ true → (a == b) ≡ false → (b == c) ≡ false
      unlike a b c e k = elim (Bool-cases (b == c)) [
        | inl same ↦ absurd (==-false a b k (==→≡ a c e ∙ sym (==→≡ b c same)))
        | inr other ↦ other
      ]

  abbrev payload_of : Option (LatestNode Rest) → Option (NodeView Rest)
  payload_of row = Option.map (λ r. r.payload) row

  delete_rows-snapshot :
      (ids : List String) (rows rows' : List (LatestNode Rest)) (id : String)
      → delete_rows ids rows ≡ ok rows'
      → payload_of (find_row latest_key id rows')
        ≡ (if contains ids id then none else payload_of (find_row latest_key id rows))
  unfolding delete_rows
  delete_rows-snapshot [] rows rows' id h = let e : rows ≡ rows' = cc (h) in rw e refl
  delete_rows-snapshot (gone ∷ ids) rows rows' id h =
      let (_, h1) = guard-eq-ok _ invalid _ h in
      delete_rows-snapshot ids (delete_row gone rows) rows' id h1
      ∙ rw (find_row-delete_row gone id rows)
          (both (gone == id) (contains ids id) (find_row latest_key id rows))
    where
      both :
          (a b : Bool) (row : Option (LatestNode Rest))
          → (if b then none else payload_of (if a then none else row))
            ≡ (if a || b then none else payload_of row)
      both true true row = refl
      both true false row = refl
      both false b row = refl

  import_body-latest :
      (bs : List Binding) (db : FleetDb Rest) (r : Unit {0} × FleetDb Rest) (id : String)
      → import_body bs db ≡ ok r
      → snapshot r.1 id ≡ snapshot db id
  unfolding import_body
  import_body-latest bs db r id h =
      let (bindings, bound, h1) = >>=-eq-ok (bind_all bs db.bindings) _ h in
      let e : record db { bindings = bindings } ≡ r.1 = cc (h1) in
      subst (λ d. snapshot d id ≡ snapshot db id) e refl

  delete_body-snapshot :
      (ids : List String) (db : FleetDb Rest) (r : Unit {0} × FleetDb Rest) (id : String)
      → delete_body ids db ≡ ok r
      → snapshot r.1 id ≡ map_step true (delete_call ids) (snapshot db) id
  unfolding delete_body
  delete_body-snapshot ids db r id h =
      let (rows, gone, h1) = >>=-eq-ok (delete_rows ids db.latest) _ h in
      let e : record db { latest = rows } ≡ r.1 = cc (h1) in
      subst (λ d. snapshot d id ≡ map_step true (delete_call ids) (snapshot db) id) e
        (delete_rows-snapshot ids db.latest rows id gone)

  -- What a transaction does to the map, if its body does so when it returns.
  transaction-refines :
      (call : FleetCall Rest) (body : FleetDb Rest → Result (Unit {0} × FleetDb Rest))
      (db : FleetDb Rest) (id : String)
      → ((r : Unit {0} × FleetDb Rest)
          → body db ≡ ok r
          → snapshot r.1 id ≡ map_step true call (snapshot db) id)
      → snapshot (transaction body db).1 id
        ≡ map_step (succeeds (transaction body db).0) call (snapshot db) id
  unfolding transaction
  transaction-refines call body db id h = elim (Result-cases (body db)) [
    | inl (r, e) ↦ rw e (h r e)
    | inr (why, e) ↦ rw e (failed_step call)
  ]
    where
      failed_step : (call : FleetCall Rest) → snapshot db id ≡ map_step false call (snapshot db) id
      failed_step (save_call view) = refl
      failed_step (delete_call ids) = refl
      failed_step (import_call bs) = refl
      failed_step load_call = refl

module _ {Rest : Type 0} (wire : NodeWire Rest) where
  -- Whether a call succeeds.
  abbrev pub call_succeeds : FleetCall Rest → FleetDb Rest → Bool
  call_succeeds (import_call bs) db = succeeds (import_bindings bs db).0
  call_succeeds (save_call view) db = succeeds (save_node wire view db).0
  call_succeeds (delete_call ids) db = succeeds (delete_nodes ids db).0
  call_succeeds load_call db = succeeds (load_fleet wire db).0

  -- Each method, succeeding or failing, does to the cache what it does to a map from instances to
  -- snapshots: a save puts one snapshot, a deletion takes the named ones, an import and a load change
  -- none, and nothing that failed changes any.
  pub do_fleet-refines :
      (call : FleetCall Rest) (db : FleetDb Rest) (id : String)
      → snapshot (do_fleet wire call db) id ≡ map_step (call_succeeds call db) call (snapshot db) id
  unfolding do_fleet import_bindings save_node delete_nodes
  do_fleet-refines (import_call bs) db id =
      transaction-refines (import_call bs) (import_body bs) db id
        (λ r h. import_body-latest bs db r id h)
  do_fleet-refines (save_call view) db id =
      transaction-refines (save_call view) (save_body wire view) db id (λ r h.
        let (_, e) = save_body-IsSavable wire view db r h in
        subst (λ d. snapshot d id ≡ map_step true (save_call view) (snapshot db) id) e (saved id))
    where
      saved :
          (id : String)
          → payload_of (find_row latest_key id (put_latest view db.latest))
            ≡ map_step true (save_call view) (snapshot db) id
      saved id = elim (Bool-cases (view.instance_id == id)) [
        | inl same ↦ rw same (
            subst (λ i. payload_of (find_row latest_key i (put_latest view db.latest)) ≡ some view)
              (==→≡ view.instance_id id same) (put_latest_self view db.latest))
        | inr other ↦ rw other (ap payload_of (put_latest_other view db.latest id other))
      ]
  do_fleet-refines (delete_call ids) db id =
      transaction-refines (delete_call ids) (delete_body ids) db id
        (λ r h. delete_body-snapshot ids db r id h)
  do_fleet-refines load_call db id =
      rw (load_fleet-unchanged wire db) (loaded (succeeds (load_fleet wire db).0))
    where
      loaded : (b : Bool) → snapshot db id ≡ map_step b load_call (snapshot db) id
      loaded true = refl
      loaded false = refl
