-- ===== src/Table/Laws.antt =====
-- What SELECT finds after UPDATE and INSERT.
use mathlib.Core.Option
use text.Mathlib.TextEquality.{eq_iff}
use herdr_distributed_mesh.Prelude.{
  suc, length, ==-refl, ◌≢◌, ◌∙◌, Bool, true, all, &&-split, &&-join, string_eq, String, none, some,
  List, [], ◌∷◌, ◌++◌, ◌==◌, ◌≡◌, refl, if◌then◌else◌, inl, inr, Bool-cases, keep, arith, ==→≡, ap,
  sym,
}
use herdr_distributed_mesh.Table.{find_row, update_row, Distinct}

module _ {Row : Type 0} (key : Row → String) where
  pub find_row-key :
      (id : String) (rows : List Row) (row : Row) → find_row key id rows ≡ some row → key row ≡ id
  unfolding find_row
  find_row-key id [] row h = cc
  find_row-key id (r ∷ rows) row h = elim (Bool-cases (key r == id)) [
    | inl e ↦ let p : find_row key id (r ∷ rows) ≡ some r = rw e in cc (p, ==→≡ (key r) id e)
    | inr n ↦ find_row-key id rows row (rw n at h)
  ]

  pub find_row-append :
      (id : String) (rows : List Row) (new : Row) (row : Row)
      → find_row key id rows ≡ some row
      → find_row key id (rows ++ new ∷ []) ≡ some row
  unfolding find_row
  find_row-append id [] new row h = cc
  find_row-append id (r ∷ rows) new row h = elim (Bool-cases (key r == id)) [
    | inl e ↦ rw e (rw e at h)
    | inr n ↦ rw n (find_row-append id rows new row (rw n at h))
  ]

  pub find_row-append_new :
      (id : String) (rows : List Row) (new : Row)
      → find_row key id rows ≡ none
      → find_row key id (rows ++ new ∷ []) ≡ (if key new == id then some new else none)
  unfolding find_row
  find_row-append_new id [] new h = refl
  find_row-append_new id (r ∷ rows) new h = elim (Bool-cases (key r == id)) [
    | inl e ↦ let p : find_row key id (r ∷ rows) ≡ some r = rw e in cc (p)
    | inr n ↦ rw n (find_row-append_new id rows new (rw n at h))
  ]

  module _ (f : Row → Row) (keeps : (row : Row) → key (f row) ≡ key row) where
    pub find_row-update_self :
        (id : String) (rows : List Row) (row : Row)
        → find_row key id rows ≡ some row
        → find_row key id (update_row key id f rows) ≡ some (f row)
    unfolding find_row update_row
    find_row-update_self id [] row h = cc
    find_row-update_self id (r ∷ rows) row h = elim (Bool-cases (key r == id)) [
      | inl e ↦ let p : some r ≡ some row = rw e at h in rw (e, keeps r, e) (ap (Option.map f) p)
      | inr n ↦ rw (n, n) (find_row-update_self id rows row (rw n at h))
    ]

    pub find_row-update_ne :
        (id j : String) (rows : List Row)
        → id ≢ j
        → find_row key j (update_row key id f rows) ≡ find_row key j rows
    unfolding find_row update_row
    find_row-update_ne id j [] h = refl
    find_row-update_ne id j (r ∷ rows) h = elim (Bool-cases (key r == id)) [
      | inl e ↦ elim (Bool-cases (key r == j)) [
        | inl e' ↦ absurd (h (sym (==→≡ (key r) id e) ∙ ==→≡ (key r) j e'))
        | inr n' ↦ rw (e, keeps r, n') (find_row-update_ne id j rows h)
      ]
      | inr n ↦ rw (n, find_row-update_ne id j rows h)
    ]

    -- Whatever is true of each row and its update is true of what is found before and after.
    pub find_row-update_any {κ} :
        (P : Row → Row → Type κ)
        → ((row : Row) → P row row)
        → ((row : Row) → P row (f row))
        → (id j : String) (rows : List Row) (row : Row) → find_row key j rows ≡ some row
        → (row' : Row) × (find_row key j (update_row key id f rows) ≡ some row') × P row row'
    unfolding find_row update_row
    find_row-update_any P same moved id j [] row h = cc
    find_row-update_any P same moved id j (r ∷ rows) row h =
        let rest = λ (k : find_row key j rows ≡ some row).
          find_row-update_any P same moved id j rows row k in
        elim (Bool-cases (key r == j)) [
          | inl e ↦
              let p : some r ≡ some row = rw e at h in
              let q : row ≡ r = cc (p) in
              elim (Bool-cases (key r == id)) [
                | inl u ↦ (f r, rw (u, keeps r, e) refl, rw q (moved r))
                | inr u ↦ (r, rw (u, e) refl, rw q (same r))
              ]
          | inr n ↦
              let (row', found, x) = rest (rw n at h) in
              elim (Bool-cases (key r == id)) [
                | inl u ↦ (row', rw (u, keeps r, n) found, x)
                | inr u ↦ (row', rw (u, n) found, x)
              ]
        ]

    pub update_row-none :
        (id j : String) (rows : List Row)
        → find_row key j rows ≡ none
        → find_row key j (update_row key id f rows) ≡ none
    unfolding find_row update_row
    update_row-none id j [] h = refl
    update_row-none id j (r ∷ rows) h = elim (Bool-cases (key r == j)) [
      | inl e ↦ let p : some r ≡ none = rw e at h in cc (p)
      | inr n ↦ elim (Bool-cases (key r == id)) [
        | inl e ↦ rw (e, keeps r, n) (update_row-none id j rows (rw n at h))
        | inr n' ↦ rw (n', n) (update_row-none id j rows (rw n at h))
      ]
    ]

    pub Distinct-update :
        (id : String) (rows : List Row)
        → Distinct key rows
        → Distinct key (update_row key id f rows)
    unfolding update_row
    Distinct-update id [] d = d
    Distinct-update id (r ∷ rows) d = elim (Bool-cases (key r == id)) [
      | inl e ↦
          rw e (rw (keeps r) (update_row-none id (key r) rows d.0), Distinct-update id rows d.1)
      | inr n ↦ rw n (update_row-none id (key r) rows d.0, Distinct-update id rows d.1)
    ]

  pub Distinct-append :
      (rows : List Row) (new : Row)
      → Distinct key rows
      → find_row key (key new) rows ≡ none
      → Distinct key (rows ++ new ∷ [])
  unfolding find_row
  Distinct-append [] new d h = (refl, tt)
  Distinct-append (r ∷ rows) new d h = elim (Bool-cases (key r == key new)) [
    | inl e ↦ let p : some r ≡ none = rw e at h in cc (p)
    | inr n ↦ (
      rw (find_row-append_new (key r) rows new d.0)
          (ground (arith, eq_iff (key r) (key new), eq_iff (key new) (key r))),
      Distinct-append rows new d.1 (rw n at h),
    )
  ]

  -- A SELECT by key that returned one row found the first row of that key.
  pub keep-find_row :
      (id : String) (rows : List Row) (row : Row) (more : List Row)
      → keep (λ r. key r == id) rows ≡ row ∷ more
      → find_row key id rows ≡ some row
  unfolding find_row
  keep-find_row id [] row more h = cc
  keep-find_row id (r ∷ rows) row more h = elim (Bool-cases (key r == id)) [
    | inl e ↦ let p : r ∷ keep (λ r'. key r' == id) rows ≡ row ∷ more = rw e at h in rw e (cc (p))
    | inr n ↦ rw n (keep-find_row id rows row more (rw n at h))
  ]

  -- And one that returned no row found none.
  pub keep-none :
      (id : String) (rows : List Row)
      → keep (λ r. key r == id) rows ≡ []
      → find_row key id rows ≡ none
  unfolding find_row
  keep-none id [] h = refl
  keep-none id (r ∷ rows) h = elim (Bool-cases (key r == id)) [
    | inl e ↦ let p : r ∷ keep (λ r'. key r' == id) rows ≡ [] = rw e at h in cc (p)
    | inr n ↦ rw n (keep-none id rows (rw n at h))
  ]

  pub all-find_row :
      (p : Row → Bool) (id : String) (rows : List Row) (row : Row)
      → all p rows ≡ true
      → find_row key id rows ≡ some row
      → p row ≡ true
  unfolding find_row
  all-find_row p id [] row a h = cc
  all-find_row p id (r ∷ rows) row a h = elim (Bool-cases (key r == id)) [
    | inl e ↦
        let same : some r ≡ some row = rw e at h in cc (same, (&&-split (p r) (all p rows) a).0)
    | inr n ↦ all-find_row p id rows row (&&-split (p r) (all p rows) a).1 (rw n at h)
  ]

  -- An UPDATE of a key that no row has changes nothing.
  pub update-absent :
      (f : Row → Row) (id : String) (rows : List Row)
      → find_row key id rows ≡ none
      → update_row key id f rows ≡ rows
  unfolding find_row update_row
  update-absent f id [] h = refl
  update-absent f id (r ∷ rows) h = elim (Bool-cases (key r == id)) [
    | inl e ↦ let p : some r ≡ none = rw e at h in cc (p)
    | inr n ↦ rw n (rw (update-absent f id rows (rw n at h)))
  ]

  -- A row with other rows before it, none of which has its key.
  pub find_row-middle :
      (done rows : List Row) (row : Row)
      → Distinct key (done ++ row ∷ rows)
      → find_row key (key row) (done ++ row ∷ rows) ≡ some row
  unfolding find_row
  find_row-middle [] rows row d = rw (==-refl (key row)) refl
  find_row-middle (r ∷ done) rows row d =
      let rest = find_row-middle done rows row d.1 in
      elim (Bool-cases (key r == key row)) [
        | inl e ↦
            let absent = d.0 in
            let found : find_row key (key r) (done ++ row ∷ rows) ≡ some row =
              rw (==→≡ (key r) (key row) e) rest in
            cc (absent, found)
        | inr n ↦ rw n rest
      ]

  pub update_row-middle :
      (f : Row → Row) (done rows : List Row) (row : Row)
      → Distinct key (done ++ row ∷ rows)
      → update_row key (key row) f (done ++ row ∷ rows) ≡ done ++ f row ∷ rows
  unfolding find_row update_row
  update_row-middle f [] rows row d =
      rw (==-refl (key row)) (rw (update-absent f (key row) rows d.0))
  update_row-middle f (r ∷ done) rows row d = elim (Bool-cases (key r == key row)) [
    | inl e ↦
        let absent = d.0 in
        let found : find_row key (key r) (done ++ row ∷ rows) ≡ some row =
          rw (==→≡ (key r) (key row) e) (find_row-middle done rows row d.1) in
        cc (absent, found)
    | inr n ↦ rw n (rw (update_row-middle f done rows row d.1))
  ]

  pub length-update_row :
      (f : Row → Row) (id : String) (rows : List Row)
      → length (update_row key id f rows) ≡ length rows
  unfolding update_row
  length-update_row f id [] = refl
  length-update_row f id (r ∷ rows) = ap suc (length-update_row f id rows)

  -- A test that every row passes still does, if the written row passes it.
  pub all-update :
      (p : Row → Bool) (f : Row → Row) (id : String) (rows : List Row) (row : Row)
      → Distinct key rows
      → find_row key id rows ≡ some row
      → p (f row) ≡ true
      → all p rows ≡ true
      → all p (update_row key id f rows) ≡ true
  unfolding find_row update_row
  all-update p f id [] row d h k a = refl
  all-update p f id (r ∷ rows) row d h k a = elim (Bool-cases (key r == id)) [
    | inl e ↦
        let same : some r ≡ some row = rw e at h in
        let absent : find_row key id rows ≡ none = rw (==→≡ (key r) id e) at d.0 in
        rw (e, update-absent f id rows absent)
          (&&-join (p (f r)) (all p rows) (cc (same, k)) (&&-split (p r) (all p rows) a).1)
    | inr n ↦ rw n (
        &&-join (p r) (all p (update_row key id f rows)) (&&-split (p r) (all p rows) a).0
          (all-update p f id rows row d.1 (rw n at h) k (&&-split (p r) (all p rows) a).1))
  ]
