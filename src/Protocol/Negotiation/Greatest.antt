-- ===== src/Protocol/Negotiation/Greatest.antt =====
-- The version that two peers agree on, against the versions that both support.
use herdr_distributed_mesh.Prelude.{nat_eq, ℕ, ◌≡◌, ◌≤◌, ◌<◌, some, min, arith}
use herdr_distributed_mesh.Protocol.Negotiation.{ProtocolRange, negotiate_with}

-- A version that both peers support.
abbrev pub IsCommon : ℕ → ℕ → ProtocolRange → ℕ → Type 0
IsCommon least greatest remote v =
    (least ≤ v) × (v ≤ greatest) × (remote.minimum ≤ v) × (v ≤ remote.maximum)

-- The agreed version is common to both peers, and no common version is greater.
pub negotiate_with-greatest :
    (least greatest : ℕ) (remote : ProtocolRange) (v : ℕ)
    → negotiate_with least greatest remote ≡ some v
    → IsCommon least greatest remote v × ((w : ℕ) → IsCommon least greatest remote w → w ≤ v)
unfolding negotiate_with
negotiate_with-greatest least greatest remote v h =
    ((ground arith, ground arith, ground arith, ground arith), λ w c. ground arith)

-- If the peers have a version in common, and the remote range does not begin at 0, they agree on
-- one.
pub negotiate_with-agrees :
    (least greatest : ℕ) (remote : ProtocolRange) (w : ℕ)
    → 0 < remote.minimum
    → IsCommon least greatest remote w
    → negotiate_with least greatest remote ≡ some (min remote.maximum greatest)
unfolding negotiate_with
negotiate_with-agrees least greatest remote w pos c = ground arith
