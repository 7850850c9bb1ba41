-- ===== src/Projects/History.antt =====
-- How one state of the registry follows another: records, generations, desired states and decisions
-- on adoption.
use herdr_distributed_mesh.Prelude.{
  nat_eq, string_eq, ◌≤◌, ◌≡◌, ◌≢◌, refl, sym, ◌∙◌, subst, String, true, Option, none, some, List,
  [], ◌∷◌, ◌++◌, ==→≡, if◌then◌else◌, if-rule, any, Bool-cases, inl, inr, ◌⊎◌, &&-split, arith,
}
use herdr_distributed_mesh.Projects.Records.{ProjectRecord, ProjectRow}
use herdr_distributed_mesh.Projects.Methods.{ProjectWire, has_ids, replace_project, put_project}

-- SELECT record FROM projects WHERE node_id = ? AND project_id = ?
unfoldable pub find_project : String → String → List ProjectRow → Option ProjectRecord
find_project node project [] = none
find_project node project (row ∷ rows) =
    let rest = find_project node project rows in
    if has_ids node project row then some row.payload else rest

-- What may become of a record.
pub record Follows (old new : ProjectRecord) : Type 0 where
  pub grows : old.desired.generation ≤ new.desired.generation
  pub revised : new.desired.generation ≡ old.desired.generation → new.desired ≡ old.desired
  pub decided : old.adoption_status ≢ "" → new.adoption_status ≡ old.adoption_status

pub Follows-refl : (r : ProjectRecord) → Follows r r
Follows-refl r = record { grows = omega arith; revised = λ e. refl; decided = λ n. refl }

pub Follows-trans : (a b c : ProjectRecord) → Follows a b → Follows b c → Follows a c
Follows-trans a b c f g = record {
  grows = omega (arith, f.grows, g.grows);
  revised = λ e.
      let same : b.desired.generation ≡ a.desired.generation = omega (arith, f.grows, g.grows, e) in
      g.revised (e ∙ sym same) ∙ f.revised same;
  decided = λ n. let kept = f.decided n in g.decided (λ e. n (sym kept ∙ e)) ∙ kept;
}

-- Every record that was there is there, and has only changed as it may.
abbrev pub Keeps : List ProjectRow → List ProjectRow → Type 0
Keeps rows rows' =
    (node project : String) (old : ProjectRecord)
    → find_project node project rows ≡ some old
    → (new : ProjectRecord) × (find_project node project rows' ≡ some new) × Follows old new

pub Keeps-refl : (rows : List ProjectRow) → Keeps rows rows
Keeps-refl rows node project old h = (old, h, Follows-refl old)

pub Keeps-trans : (a b c : List ProjectRow) → Keeps a b → Keeps b c → Keeps a c
Keeps-trans a b c f g node project old h =
    let (mid, found, first) = f node project old h in
    let (new, found', second) = g node project mid found in
    (new, found', Follows-trans old mid new first second)

pub has_ids-eq :
    (node project : String) (row : ProjectRow)
    → has_ids node project row ≡ true
    → (row.node_id ≡ node) × (row.project_id ≡ project)
has_ids-eq node project row h =
    let (a, b) = &&-split _ _ h in (==→≡ row.node_id node a, ==→≡ row.project_id project b)

-- A record is found after a replacement, or the one that replaced it.
find_project-replace :
    (wire : ProjectWire) (r : ProjectRecord) (node project : String) (rows : List ProjectRow)
    (old : ProjectRecord)
    → find_project node project rows ≡ some old
    → (new : ProjectRecord) × (find_project node project (replace_project wire r rows) ≡ some new)
      × ((new ≡ old)
          ⊎ (new ≡ r) × (node ≡ r.desired.node_instance_id) × (project ≡ r.desired.project_id))
unfolding find_project
find_project-replace wire r node project [] old h = cc (h)
find_project-replace wire r node project (row ∷ rows) old h =
    elim (Bool-cases (has_ids r.desired.node_instance_id r.desired.project_id row)) [
      | inl mine ↦ elim (Bool-cases (has_ids node project row)) [
        | inl hit ↦
            let (n, p) = has_ids-eq node project row hit in
            let (n', p') = has_ids-eq _ _ row mine in
            (r, rw (mine, hit) refl, inr (refl, sym n ∙ n', sym p ∙ p'))
        | inr miss ↦
            let (new, found, which) =
              find_project-replace wire r node project rows old (rw miss at h) in
            (new, rw (mine, miss) found, which)
      ]
      | inr other ↦ elim (Bool-cases (has_ids node project row)) [
        | inl hit ↦
            let e : some row.payload ≡ some old = rw hit at h in
            (row.payload, rw (other, hit) refl, inl (cc (e)))
        | inr miss ↦
            let (new, found, which) =
              find_project-replace wire r node project rows old (rw miss at h) in
            (new, rw (other, miss) found, which)
      ]
    ]

find_project-append :
    (node project : String) (rows : List ProjectRow) (row : ProjectRow) (old : ProjectRecord)
    → find_project node project rows ≡ some old
    → find_project node project (rows ++ row ∷ []) ≡ some old
unfolding find_project
find_project-append node project [] row old h = cc (h)
find_project-append node project (x ∷ rows) row old h = elim (Bool-cases (has_ids node project x)) [
  | inl hit ↦ rw hit (rw hit at h)
  | inr miss ↦ rw miss (find_project-append node project rows row old (rw miss at h))
]

-- A write keeps the registry if what it writes follows what stood under its ids.
pub put_project-Keeps :
    (wire : ProjectWire) (r : ProjectRecord) (rows : List ProjectRow)
    → ((old : ProjectRecord)
        → find_project r.desired.node_instance_id r.desired.project_id rows ≡ some old
        → Follows old r)
    → Keeps rows (put_project wire r rows)
unfolding put_project
put_project-Keeps wire r rows follows =
    if-rule (Keeps rows) (any (has_ids r.desired.node_instance_id r.desired.project_id) rows) _ _
      (λ there node project old h.
        let (new, found, which) = find_project-replace wire r node project rows old h in
        (new, found, replaced node project old new h which))
      (λ fresh node project old h.
        (old, find_project-append node project rows _ old h, Follows-refl old))
  where
    replaced :
        (node project : String) (old new : ProjectRecord)
        → find_project node project rows ≡ some old
        → (new ≡ old)
          ⊎ (new ≡ r) × (node ≡ r.desired.node_instance_id) × (project ≡ r.desired.project_id)
        → Follows old new
    replaced node project old new h (inl same) = subst (Follows old) (sym same) (Follows-refl old)
    replaced node project old new h (inr (same, n, p)) = subst (Follows old) (sym same) (
        follows old (
          subst (λ m. find_project m r.desired.project_id rows ≡ some old) n
            (subst (λ q. find_project node q rows ≡ some old) p h)))
