-- ===== src/Teardown/Additions/Grants.antt =====
-- What the set-up may have added to the grants, and what the removal of the mesh makes of it.
use herdr_distributed_mesh.Prelude.{
  string_eq, ℕ, zero, suc, ◌-◌, ◌≤◌, String, Bool, true, false, ◌||◌, ◌≡◌, not, refl, ap, ◌∙◌, some,
  List, [], ◌∷◌, ◌++◌, nat_beq, nat_beq_iff, leb→le, length, keep, All, arith, Bool-cases,
  Option-cases, inl, inr, &&-split, &&-join,
}
use herdr_distributed_mesh.Teardown.Failures.{Answer, failed, answer, ◌>>=◌}
use herdr_distributed_mesh.Teardown.Json.{Json, text, array, object, Fields, item, nil}
use herdr_distributed_mesh.Teardown.Values.{field_count, elements}
use herdr_distributed_mesh.Teardown.Policy.{
  managed_tag, managed_policy_selector, server_tag, sort_selectors, names_mesh, removes,
}
use herdr_distributed_mesh.Teardown.Policy.Rules.{answer-injective}
use herdr_distributed_mesh.Teardown.Additions.Ports.{IsGrant, grant_port-IsGrant}
use herdr_distributed_mesh.Teardown.Additions.{
  added_port, grants_added, grants_extended, prefix_equal, take, drop,
}

-- A rule that the edit keeps.
unfoldable pub stays : Json → Bool
stays rule = elim (removes rule) [ answer remove ↦ not remove | failed e ↦ false ]

pub removes-stays :
    (rule : Json) (remove : Bool) → removes rule ≡ answer remove → stays rule ≡ not remove
unfolding stays
removes-stays rule remove h = elimed (removes rule) h
  where
    elimed :
        (m : Answer Bool)
        → m ≡ answer remove
        → elim m [ answer remove ↦ not remove | failed e ↦ false ] ≡ not remove
    elimed (answer r) e = ap not (answer-injective r remove e)
    elimed (failed e) f = cc (f)

-- A list of one selector is unmixed.
names_mesh-single :
    (s : String) → names_mesh (array (item (text s) nil)) ≡ answer (managed_policy_selector s)
unfolding names_mesh sort_selectors elements ◌>>=◌
names_mesh-single s = elim (Bool-cases (managed_policy_selector s)) [
  | inl mesh ↦ rw mesh refl
  | inr other ↦ rw other refl
]

server_tag-managed : managed_policy_selector server_tag ≡ true
unfolding managed_policy_selector managed_tag
server_tag-managed = refl

-- Every grant that the set-up may add is a rule that the removal removes.
added_port-removes :
    (grant : Json) (port : ℕ) → added_port grant ≡ some port → removes grant ≡ answer true
unfolding added_port removes ◌>>=◌
added_port-removes (object grant) port h = elim (Bool-cases (nat_beq (field_count grant) 3)) [
  | inl three ↦
      let a = grant_port-IsGrant grant port (rw three at h) in
      rw
        (a.src, a.dst, names_mesh-single a.source, names_mesh-single server_tag, server_tag-managed)
        (ap answer (or_true (managed_policy_selector a.source)))
  | inr more ↦ cc (rw more at h)
]
  where
    or_true : (b : Bool) → (b || true) ≡ true
    or_true b = ground arith
added_port-removes _ port h = cc (h)

-- A grant that the set-up may have added, with three fields.
abbrev pub HasPort : Json → Type 0
HasPort grant =
    (port : ℕ) × (added_port grant ≡ some port)
    × (fields : Fields) × (grant ≡ object fields)
    × (field_count fields ≡ 3)
    × IsGrant fields port

added_port-HasPort : (grant : Json) (port : ℕ) → added_port grant ≡ some port → HasPort grant
unfolding added_port
added_port-HasPort (object grant) port h = elim (Bool-cases (nat_beq (field_count grant) 3)) [
  | inl three ↦ (
    port,
    h,
    grant,
    refl,
    (nat_beq_iff _ _).0 three,
    grant_port-IsGrant grant port (rw three at h),
  )
  | inr more ↦ cc (rw more at h)
]
added_port-HasPort _ port h = cc (h)

grants_added-HasPort :
    (grants : List Json) (dashboard : Bool) (earlier : List Json)
    → grants_added dashboard earlier grants ≡ true
    → All HasPort grants
unfolding grants_added
grants_added-HasPort [] dashboard earlier h = tt
grants_added-HasPort (grant ∷ grants) dashboard earlier h = elim (Option-cases (added_port grant)) [
  | inl missing ↦ cc (rw (grants_added, missing) at h)
  | inr (port, p) ↦
      let (_, rest) = &&-split _ _ (rw (grants_added, p) at h) in
      (added_port-HasPort grant port p, grants_added-HasPort grants _ _ rest)
]

keep-HasPort : (grants : List Json) → All HasPort grants → keep stays grants ≡ []
keep-HasPort [] h = refl
keep-HasPort (grant ∷ grants) ((port, p, _, _, _, _), h) =
    rw (removes-stays grant true (added_port-removes grant port p)) (keep-HasPort grants h)

keep-append : (p : Json → Bool) (xs ys : List Json) → keep p (xs ++ ys) ≡ keep p xs ++ keep p ys
keep-append p [] ys = refl
keep-append p (x ∷ xs) ys = elim (Bool-cases (p x)) [
  | inl yes' ↦ rw yes' (ap (x ∷◌) (keep-append p xs ys))
  | inr no' ↦ rw no' (keep-append p xs ys)
]

append-[] : (xs : List Json) → xs ++ [] ≡ xs
append-[] [] = refl
append-[] (x ∷ xs) = ap (x ∷◌) (append-[] xs)

take-drop : (n : ℕ) (xs : List Json) → xs ≡ take n xs ++ drop n xs
take-drop zero xs = refl
take-drop (suc n) [] = refl
take-drop (suc n) (x ∷ xs) = ap (x ∷◌) (take-drop n xs)

length-drop : (n : ℕ) (xs : List Json) → length (drop n xs) ≡ length xs - n
length-drop zero xs = omega arith
length-drop (suc n) [] = omega arith
length-drop (suc n) (x ∷ xs) = length-drop n xs ∙ omega arith

prefix_equal-take :
    (old next : List Json)
    → prefix_equal old next ≡ true
    → prefix_equal old (take (length old) next) ≡ true
unfolding prefix_equal
prefix_equal-take [] next h = refl
prefix_equal-take (value ∷ old) [] h = cc (h)
prefix_equal-take (value ∷ old) (value' ∷ next) h =
    let (first, rest) = &&-split _ _ h in &&-join _ _ first (prefix_equal-take old next rest)

-- The grants are those before, in their order and deeply equal, and at most three that were added,
-- all of which the removal of the mesh takes out.
pub record Extends (old next : List Json) : Type 0 where
  kept : List Json
  added : List Json
  shape : next ≡ kept ++ added
  same : prefix_equal old kept ≡ true
  few : length added ≤ 3
  allowed : All HasPort added
  undone : keep stays next ≡ keep stays kept

pub grants_extended-Extends :
    (old next : List Json) → grants_extended old next ≡ true → Extends old next
unfolding grants_extended
grants_extended-Extends old next h =
    let (first, added) = &&-split _ _ h in
    let (second, prefix) = &&-split _ _ first in
    let (_, few) = &&-split _ _ second in
    let ports = grants_added-HasPort _ false _ added in
    record {
      kept = take (length old) next;
      added = drop (length old) next;
      shape = take-drop (length old) next;
      same = prefix_equal-take old next prefix;
      few = rw (length-drop (length old) next) (leb→le _ _ few);
      allowed = ports;
      undone =
          ap (keep stays) (take-drop (length old) next)
          ∙ keep-append stays (take (length old) next) (drop (length old) next)
          ∙ ap (keep stays (take (length old) next) ++◌) (keep-HasPort _ ports)
          ∙ append-[] _;
    }
