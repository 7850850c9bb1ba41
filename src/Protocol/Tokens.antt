-- ===== src/Protocol/Tokens.antt =====
-- The identifier tokens that bound every name on the wire (protocol/commands.go, sessions.go,
-- worktree.go, and ValidateName of herdrsession/manager.go).
use native.Mathlib.Decide.{ℕ_discrete}
use herdr_distributed_mesh.Prelude.{
  nat_eq, string_eq, ℕ, ◌+◌, String, Bool, not, ◌&&◌, ◌||◌, List, [], ◌∷◌, map, decided, false,
  ◌==◌, contains, codes, is_alnum, is_lower, is_upper, is_digit, is_hex, matches, matches_head,
  if◌then◌else◌,
}

-- [A-Za-z0-9:_-]
abbrev is_token_char : ℕ → Bool
is_token_char c = is_alnum c || c == b':' || c == b'_' || c == b'-'

-- ^[A-Za-z0-9:_-]{1,128}$
unfoldable pub command_token : String → Bool
command_token s = matches is_token_char 1 128 (codes s)

-- ^[a-f0-9]{32}$
unfoldable pub valid_command_id : String → Bool
valid_command_id s = matches is_hex 32 32 (codes s)

unfoldable pub valid_idempotency_key : String → Bool
unfolding command_token
valid_idempotency_key key = command_token key

-- ^[a-f0-9]{64}$
unfoldable pub valid_session_incarnation : String → Bool
valid_session_incarnation s = matches is_hex 64 64 (codes s)

-- [A-Za-z0-9_-]
abbrev is_name_char : ℕ → Bool
is_name_char c = is_alnum c || c == b'_' || c == b'-'

-- strings.ToLower, on the ASCII names that the pattern admits
abbrev to_lower : ℕ → ℕ
to_lower c = if is_upper c then c + 32 else c

Codes-discrete : Discrete (List ℕ)
unfolding ℕ_discrete
Codes-discrete = hlevel ℕ_discrete

-- strings.ToLower before the switch of ValidateName
abbrev is_reserved : List ℕ → List String → Bool
is_reserved cs [] = false
is_reserved cs (name ∷ names) = decided (Codes-discrete (codes name) cs) || is_reserved cs names

abbrev reserved_devices : List String
reserved_devices =
    "con" ∷ "prn" ∷ "aux" ∷ "nul" ∷ "com1" ∷ "com2" ∷ "com3" ∷ "com4" ∷ "com5" ∷ "com6" ∷ "com7"
    ∷ "com8" ∷ "com9" ∷ "lpt1" ∷ "lpt2" ∷ "lpt3" ∷ "lpt4" ∷ "lpt5" ∷ "lpt6" ∷ "lpt7" ∷ "lpt8"
    ∷ "lpt9" ∷ []

-- ^[A-Za-z0-9][A-Za-z0-9_-]{0,63}$, and no device name of Windows
unfoldable pub validate_name : String → Bool
unfolding Codes-discrete
validate_name name =
    matches_head is_alnum is_name_char 63 (codes name)
    && not (is_reserved (map to_lower (codes name)) reserved_devices)

-- [a-z0-9]
abbrev is_leaf_head : ℕ → Bool
is_leaf_head c = is_lower c || is_digit c

-- [a-z0-9_-]
abbrev is_leaf_char : ℕ → Bool
is_leaf_char c = is_leaf_head c || c == b'_' || c == b'-'

-- ^(con|prn|aux|nul|com[0-9]|lpt[0-9])$
abbrev reserved_leaf : List String
reserved_leaf = "com0" ∷ "lpt0" ∷ reserved_devices

unfoldable pub valid_worktree_name : String → Bool
valid_worktree_name name =
    matches_head is_leaf_head is_leaf_char 63 (codes name) && not (contains reserved_leaf name)

-- ^([a-f0-9]{40}|[a-f0-9]{64})$
unfoldable pub commit_id : String → Bool
commit_id s = matches is_hex 40 40 (codes s) || matches is_hex 64 64 (codes s)
