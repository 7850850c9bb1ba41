-- ===== src/Teardown/Additions/Ports.antt =====
-- What a grant is that the set-up may have added, and its port.
use herdr_distributed_mesh.Prelude.{
  string_eq, ◌==◌, ℕ, String, Bool, true, false, ◌&&◌, ◌≡◌, ◌≢◌, ◌⊎◌, refl, subst, ap, ◌∙◌, none,
  some, ==→≡, nat_beq, nat_beq_iff, arith, Bool-cases, Option-cases, inl, inr, &&-split,
  if◌then◌else◌,
}
use herdr_distributed_mesh.Teardown.Json.{Json, text, array, Fields, item, nil}
use herdr_distributed_mesh.Teardown.Values.{index}
use herdr_distributed_mesh.Teardown.Policy.{server_tag, client_tag, node_tag}
use herdr_distributed_mesh.Teardown.Additions.{single_string, grant_port, tcp_port, source_allows}

single_string-some :
    (value : Json) (s : String) → single_string value ≡ some s → value ≡ array (item (text s) nil)
unfolding single_string
single_string-some (array (item (text t) nil)) s h = let e : t ≡ s = cc (h) in rw e refl
single_string-some _ s h = cc (h)

-- A source may open a port: a node the mesh's, a client any, and everyone any but the mesh's.
abbrev pub Opens : String → ℕ → Type 0
Opens source port =
    ((source ≡ "tag:herdr-mesh-node") × (port ≡ 50052))
    ⊎ ((source ≡ "tag:herdr-mesh-client") ⊎ ((source ≡ "*") × (port ≢ 50052)))

-- A grant of one source, to the server, for one TCP port that the source may open.
pub record IsGrant (grant : Fields) (port : ℕ) : Type 0 where
  pub source : String
  ip : String
  pub src : index "src" grant ≡ array (item (text source) nil)
  pub dst : index "dst" grant ≡ array (item (text "tag:herdr-mesh-server") nil)
  ips : index "ip" grant ≡ array (item (text ip) nil)
  is_port : tcp_port ip ≡ some port
  opens : Opens source port

source_allows-Opens :
    (source : String) (port : ℕ) → source_allows source port ≡ true → Opens source port
unfolding source_allows
source_allows-Opens source port h = elim (Bool-cases (source == client_tag)) [
  | inl client ↦ inr (inl (==→≡ _ _ client))
  | inr other ↦ elim (Bool-cases (source == node_tag)) [
    | inl node ↦ elim (Bool-cases (nat_beq port 50052)) [
      | inl mesh ↦ inl (==→≡ _ _ node, (nat_beq_iff port 50052).0 mesh)
      | inr dashboard ↦
          let wild : (source == "*") ≡ true = starred _ _ (rw (other, node, dashboard) at h) in
          inr (inr (==→≡ _ _ wild, λ e. unlike port dashboard e))
    ]
    | inr nobody ↦ elim (Bool-cases (nat_beq port 50052)) [
      | inl mesh ↦ absurd (never _ (rw (other, nobody, mesh) at h))
      | inr dashboard ↦
          let wild : (source == "*") ≡ true = starred _ _ (rw (other, nobody, dashboard) at h) in
          inr (inr (==→≡ _ _ wild, λ e. unlike port dashboard e))
    ]
  ]
]
  where
    starred : (x y : Bool) → (x && y) ≡ true → x ≡ true
    starred x y e = (&&-split x y e).0

    never : (x : Bool) → (x && false) ≡ true → ⊥
    never x e = ground arith

    unlike : (n : ℕ) → nat_beq n 50052 ≡ false → n ≡ 50052 → ⊥
    unlike n f e = let t = (nat_beq_iff n 50052).1 e in absurd (cc (f, t))

pub grant_port-IsGrant :
    (grant : Fields) (port : ℕ) → grant_port grant ≡ some port → IsGrant grant port
unfolding grant_port
grant_port-IsGrant grant port h = elim (Option-cases (single_string (index "src" grant))) [
  | inl missing ↦ cc (rw (grant_port, missing) at h)
  | inr (source, src) ↦ elim (Option-cases (single_string (index "dst" grant))) [
    | inl missing ↦ cc (rw (grant_port, src, missing) at h)
    | inr (dest, dst) ↦ elim (Option-cases (single_string (index "ip" grant))) [
      | inl missing ↦ cc (rw (grant_port, src, dst, missing) at h)
      | inr (ip, e) ↦ elim (Option-cases (tcp_port ip)) [
        | inl missing ↦ cc (rw (grant_port, src, dst, e, missing) at h)
        | inr (port', p) ↦
            let (there, allows, same) = both port' _ _ (rw (grant_port, src, dst, e, p) at h) in
            let to : dest ≡ server_tag = ==→≡ _ _ there in
            record {
              source = source;
              ip = ip;
              src = single_string-some _ source src;
              dst = single_string-some _ server_tag (dst ∙ ap some to);
              ips = single_string-some _ ip e;
              is_port = p ∙ ap some same;
              opens = subst (Opens source) same (source_allows-Opens source port' allows);
            }
      ]
    ]
  ]
]
  where
    both :
        (port' : ℕ) (a b : Bool)
        → (if a && b then some port' else none) ≡ some port
        → (a ≡ true) × (b ≡ true) × (port' ≡ port)
    both port' true true e = (refl, refl, cc)
    both port' true false e = cc (e)
    both port' false b e = cc (e)
