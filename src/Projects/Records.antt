-- ===== src/Projects/Records.antt =====
-- The messages and the rows of the project registry (internal/state/projects.go), and their
-- validators.
use herdr_distributed_mesh.Prelude.{
  nat_eq, string_eq, ℕ, String, Bool, true, false, ◌&&◌, ◌||◌, not, Option, none, some, [], ◌∷◌,
  ◌==◌, if◌then◌else◌, any, leb, codes, is_control, is_blank, contains,
}
use herdr_distributed_mesh.Protocol.Tokens.{valid_idempotency_key}

pub record ProjectConfig : Type 0 where
  pub node_instance_id : String
  pub project_id : String
  pub generation : ℕ
  pub checkout_path : String
  pub worktree_root : String
  pub unknown : Bool

pub record ProjectAck : Type 0 where
  pub project_id : String
  pub generation : ℕ
  pub status : String
  pub checkout_path : String
  pub worktree_root : String
  pub error_code : String
  pub unknown : Bool

pub record ProjectRecord : Type 0 where
  pub desired : ProjectConfig
  pub applied : Option ProjectAck
  pub readiness : String
  pub adoption_status : String
  pub unknown : Bool

pub record RegisterProjectRequest : Type 0 where
  pub node_instance_id : String
  pub project_id : String
  pub checkout_path : String
  pub worktree_root : String
  pub unknown : Bool

-- A row of `projects`. The BLOB column holds the message that it encodes. Rows stand in the order
-- of their insertion: the ORDER BY of the queries is not represented.
pub record ProjectRow : Type 0 where
  pub node_id : String
  pub project_id : String
  pub payload : ProjectRecord

abbrev pub max_projects_per_node : ℕ
max_projects_per_node = 128

abbrev pub max_projects : ℕ
max_projects = 16384

abbrev pub max_project_bytes : ℕ
max_project_bytes = 32768

abbrev pub max_generation : ℕ
max_generation = 18446744073709551615

-- len(path), in bytes, is the parameter `bytes`.
unfoldable pub valid_project_path : (String → ℕ) → String → Bool → Bool
valid_project_path bytes path optional =
    (optional || not (is_blank path)) && leb (bytes path) 4096 && not (any is_control (codes path))

unfoldable pub validate_project_config : (String → ℕ) → ProjectConfig → Bool
validate_project_config bytes config =
    valid_idempotency_key config.node_instance_id
    && valid_idempotency_key config.project_id
    && not (config.generation == 0)
    && valid_project_path bytes config.checkout_path false
    && valid_project_path bytes config.worktree_root true
    && not config.unknown

unfoldable pub validate_project_ack : (String → ℕ) → ProjectAck → Bool
validate_project_ack bytes ack =
    valid_idempotency_key ack.project_id
    && not (ack.generation == 0)
    && valid_project_path bytes ack.checkout_path (ack.status == "invalid")
    && valid_project_path bytes ack.worktree_root true
    && not ack.unknown
    && ((ack.status == "applied" && ack.error_code == "")
        || (ack.status == "invalid" && valid_idempotency_key ack.error_code))

-- The readiness that an acknowledgement supports at a generation.
abbrev readiness_of : ProjectConfig → Option ProjectAck → String
readiness_of desired none = "pending"
readiness_of desired (some ack) =
    if ack.generation == desired.generation then ack.status else "pending"

abbrev agrees_with_desired : (String → ℕ) → ProjectConfig → Option ProjectAck → Bool
agrees_with_desired bytes desired none = true
agrees_with_desired bytes desired (some ack) =
    validate_project_ack bytes ack
    && ack.project_id == desired.project_id
    && leb ack.generation desired.generation

unfoldable pub validate_project_record : (String → ℕ) → ProjectRecord → Bool
validate_project_record bytes r =
    validate_project_config bytes r.desired
    && contains ("" ∷ "adopted" ∷ "conflict" ∷ []) r.adoption_status
    && agrees_with_desired bytes r.desired r.applied
    && r.readiness == readiness_of r.desired r.applied

-- An acknowledgement after another at the same generation.
abbrev conflicts_after : ProjectAck → Option ProjectAck → (ProjectAck → ProjectAck → Bool) → Bool
conflicts_after next none equal = false
conflicts_after next (some previous) equal =
    previous.generation == next.generation
    && previous.status == "applied"
    && next.status == "applied"
    && not (equal previous next)

-- proto.Equal on acknowledgements that were checked to have no unknown field.
unfoldable pub ack_equal : ProjectAck → ProjectAck → Bool
ack_equal a b =
    a.project_id == b.project_id
    && a.generation == b.generation
    && a.status == b.status
    && a.checkout_path == b.checkout_path
    && a.worktree_root == b.worktree_root
    && a.error_code == b.error_code

unfoldable pub project_ack_conflict : Option ProjectAck → ProjectAck → Bool
project_ack_conflict previous next = conflicts_after next previous ack_equal

unfoldable pub same_project_paths : ProjectConfig → ProjectConfig → Bool
same_project_paths a b = a.checkout_path == b.checkout_path && a.worktree_root == b.worktree_root
