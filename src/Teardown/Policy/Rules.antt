-- ===== src/Teardown/Policy/Rules.antt =====
-- The rules that the edit of PrepareMeshPolicyRemoval keeps and those that it drops, described by
-- their selectors alone.
use herdr_distributed_mesh.Prelude.{
  String, Bool, true, false, ◌&&◌, ◌||◌, ◌≡◌, refl, sym, ap, subst, ◌∙◌, ◌⊎◌, inl, inr, List, [],
  ◌∷◌, All, map, if◌then◌else◌, Bool-cases,
}
use herdr_distributed_mesh.Teardown.Failures.{
  Answer, failed, answer, ambiguous_mesh_policy, >>=-eq-answer,
}
use herdr_distributed_mesh.Teardown.Json.{Json, text, array, object, Fields}
use herdr_distributed_mesh.Teardown.Values.{index, elements, items_of}
use herdr_distributed_mesh.Teardown.Values.Lookups.{items_of-elements}
use herdr_distributed_mesh.Teardown.Policy.{
  managed_policy_selector, sort_selectors, names_mesh, removes,
}
use herdr_distributed_mesh.Teardown.Roles.{names_role, managed_policy_selector-names_role}

pub answer-injective {ℓ} : {A : Type ℓ} (a b : A) → answer a ≡ answer b → a ≡ b
answer-injective a b h = cc

-- The value is the array of these texts.
abbrev pub IsArrayOf : List String → Json → Type 0
IsArrayOf ss value = value ≡ array (items_of (map text ss))

-- One or more selectors, all of them of the mesh.
abbrev pub IsMesh : Json → Type 0
IsMesh value =
    (s : String) × (ss : List String) × IsArrayOf (s ∷ ss) value
    × All (λ t. names_role t ≡ true) (s ∷ ss)

-- Selectors, perhaps none, of which no one is of the mesh.
abbrev pub IsForeign : Json → Type 0
IsForeign value = (ss : List String) × IsArrayOf ss value × All (λ t. names_role t ≡ false) ss

abbrev pub IsStaying : Json → Type 0
IsStaying rule =
    (fields : Fields) × (rule ≡ object fields)
    × IsForeign (index "src" fields)
    × IsForeign (index "dst" fields)

abbrev pub IsGoing : Json → Type 0
IsGoing rule =
    (fields : Fields) × (rule ≡ object fields)
    × ((IsMesh (index "src" fields)
          × (IsMesh (index "dst" fields) ⊎ IsForeign (index "dst" fields)))
        ⊎ (IsForeign (index "src" fields) × IsMesh (index "dst" fields)))

-- The rules that stay, in their order.
pub data IsSifted : List Json → List Json → Type 0 where
  no_rules : IsSifted [] []
  stayed :
      {rule : Json} {rules kept : List Json}
      → IsStaying rule
      → IsSifted rules kept
      → IsSifted (rule ∷ rules) (rule ∷ kept)
  gone :
      {rule : Json} {rules kept : List Json}
      → IsGoing rule
      → IsSifted rules kept
      → IsSifted (rule ∷ rules) kept

-- What sort_selectors finds among values.
record Selectors (values : List Json) (mesh other : Bool) : Type 0 where
  names : List String
  shape : values ≡ map text names
  if_foreign : mesh ≡ false → All (λ t. names_role t ≡ false) names
  if_mesh : other ≡ false → All (λ t. names_role t ≡ true) names
  if_any : mesh ≡ true → (s : String) × (ss : List String) × (names ≡ s ∷ ss)

sort_selectors-Selectors :
    (values : List Json) (mesh other : Bool)
    → sort_selectors values ≡ answer (mesh, other)
    → Selectors values mesh other
unfolding sort_selectors
sort_selectors-Selectors [] mesh other h = record {
  names = [];
  shape = refl;
  if_foreign = λ e. tt;
  if_mesh = λ e. tt;
  if_any = λ e. let f : false ≡ mesh = cc (h) in cc (e, f);
}
sort_selectors-Selectors (text s ∷ values) mesh other h =
    let ((mesh', other'), e, k) = >>=-eq-answer (sort_selectors values) _ h in
    joined mesh' other' (sort_selectors-Selectors values mesh' other' e)
      (Bool-cases (managed_policy_selector s)) k
  where
    joined :
        (mesh' other' : Bool)
        → Selectors values mesh' other'
        → ((managed_policy_selector s ≡ true) ⊎ (managed_policy_selector s ≡ false))
        → ◌≡◌ {A = Answer (Bool × Bool)}
            (answer (if managed_policy_selector s then (true, other') else (mesh', true)))
            (answer (mesh, other))
        → Selectors (text s ∷ values) mesh other
    joined mesh' other' rest (inl role) k =
        let p : ◌≡◌ {A = Bool × Bool} (true, other') (mesh, other) =
          answer-injective _ _ (rw role at k) in
        record {
          names = s ∷ rest.names;
          shape = ap (text s ∷◌) rest.shape;
          if_foreign = λ f. let wrong : true ≡ false = ap (λ q. q.0) p ∙ f in cc (wrong);
          if_mesh = λ f. (
            sym (managed_policy_selector-names_role s) ∙ role,
            rest.if_mesh (ap (λ q. q.1) p ∙ f),
          );
          if_any = λ f. (s, rest.names, refl);
        }
    joined mesh' other' rest (inr away) k =
        let p : ◌≡◌ {A = Bool × Bool} (mesh', true) (mesh, other) =
          answer-injective _ _ (rw away at k) in
        record {
          names = s ∷ rest.names;
          shape = ap (text s ∷◌) rest.shape;
          if_foreign = λ f. (
            sym (managed_policy_selector-names_role s) ∙ away,
            rest.if_foreign (ap (λ q. q.0) p ∙ f),
          );
          if_mesh = λ f. let wrong : true ≡ false = ap (λ q. q.1) p ∙ f in cc (wrong);
          if_any = λ f. (s, rest.names, refl);
        }
sort_selectors-Selectors (_ ∷ values) mesh other h = cc (h)

-- A side of a rule that names the mesh names nothing else.
abbrev Side : Bool → Json → Type 0
Side true value = IsMesh value
Side false value = IsForeign value

names_mesh-Side : (value : Json) (mesh : Bool) → names_mesh value ≡ answer mesh → Side mesh value
unfolding names_mesh
names_mesh-Side (array items) mesh h =
    let ((mesh', other), e, k) = >>=-eq-answer (sort_selectors (elements items)) _ h in
    side mesh' other (sort_selectors-Selectors (elements items) mesh' other e) k
  where
    array_of :
        (ss : List String)
        → elements items ≡ map text ss
        → array items ≡ array (items_of (map text ss))
    array_of ss e = ap array (sym (items_of-elements items) ∙ ap items_of e)

    side :
        (mesh' other : Bool)
        → Selectors (elements items) mesh' other
        → (if mesh' && other then failed ambiguous_mesh_policy else answer mesh') ≡ answer mesh
        → Side mesh (array items)
    side true true s k = cc (k)
    side true false s k =
        let e : true ≡ mesh = cc (k) in
        let (t, ts, n) = s.if_any refl in
        let all : All (λ t. names_role t ≡ true) (t ∷ ts) =
          subst (All (λ t. names_role t ≡ true)) n (s.if_mesh refl) in
        subst (λ m. Side m (array items)) e
          (t, ts, array_of (t ∷ ts) (s.shape ∙ ap (map text) n), all)
    side false other s k =
        let e : false ≡ mesh = cc (k) in
        subst (λ m. Side m (array items)) e (s.names, array_of s.names s.shape, s.if_foreign refl)
names_mesh-Side _ mesh h = cc (h)

-- The rule goes or stays, as `removes` answers.
abbrev pub Fate : Bool → Json → Type 0
Fate true rule = IsGoing rule
Fate false rule = IsStaying rule

pub removes-Fate : (rule : Json) (remove : Bool) → removes rule ≡ answer remove → Fate remove rule
unfolding removes
removes-Fate (object fields) remove h =
    let (src, e, h1) = >>=-eq-answer (names_mesh (index "src" fields)) _ h in
    let (dst, e', h2) = >>=-eq-answer (names_mesh (index "dst" fields)) _ h1 in
    subst (λ r. Fate r (object fields)) (answer-injective _ _ h2)
      (fate src dst (names_mesh-Side _ src e) (names_mesh-Side _ dst e'))
  where
    fate :
        (src dst : Bool)
        → Side src (index "src" fields)
        → Side dst (index "dst" fields)
        → Fate (src || dst) (object fields)
    fate true true s d = (fields, refl, inl (s, inl d))
    fate true false s d = (fields, refl, inl (s, inr d))
    fate false true s d = (fields, refl, inr (s, d))
    fate false false s d = (fields, refl, s, d)
removes-Fate _ remove h = cc (h)
