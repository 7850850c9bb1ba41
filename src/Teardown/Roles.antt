-- ===== src/Teardown/Roles.antt =====
-- The three roles of the mesh, spelled out for the theorems on deinitnet: managedTag and
-- managedPolicySelector are compared with them.
use herdr_distributed_mesh.Prelude.{
  string_eq, String, Bool, false, ◌||◌, List, [], ◌∷◌, ◌==◌, ◌≡◌, any, arith, joined,
}
use herdr_distributed_mesh.Teardown.Values.{has_prefix}
use herdr_distributed_mesh.Teardown.Policy.{managed_tag, managed_policy_selector}

abbrev pub mesh_roles : List String
mesh_roles = "tag:herdr-mesh-server" ∷ "tag:herdr-mesh-node" ∷ "tag:herdr-mesh-client" ∷ []

unfoldable pub is_role : String → Bool
is_role tag = any (λ role. tag == role) mesh_roles

-- A role, or a role with a colon and a port.
unfoldable pub names_role : String → Bool
names_role selector =
    any (λ role. selector == role || has_prefix selector (joined role ":")) mesh_roles

pub managed_tag-is_role : (tag : String) → managed_tag tag ≡ is_role tag
unfolding managed_tag is_role
managed_tag-is_role tag =
    three (tag == "tag:herdr-mesh-server") (tag == "tag:herdr-mesh-node")
      (tag == "tag:herdr-mesh-client")
  where
    three : (a b c : Bool) → (a || b || c) ≡ (a || (b || (c || false)))
    three a b c = ground arith

pub managed_policy_selector-names_role :
    (selector : String) → managed_policy_selector selector ≡ names_role selector
unfolding managed_policy_selector managed_tag names_role
managed_policy_selector-names_role selector =
    six (selector == "tag:herdr-mesh-server") (selector == "tag:herdr-mesh-node")
      (selector == "tag:herdr-mesh-client") (has_prefix selector "tag:herdr-mesh-server:")
      (has_prefix selector "tag:herdr-mesh-node:") (has_prefix selector "tag:herdr-mesh-client:")
  where
    six :
        (a b c x y z : Bool)
        → ((a || b || c) || x || y || z) ≡ ((a || x) || ((b || y) || ((c || z) || false)))
    six a b c x y z = ground arith
