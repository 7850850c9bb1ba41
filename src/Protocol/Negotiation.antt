-- ===== src/Protocol/Negotiation.antt =====
-- The version range that two peers agree on (protocol/protocol.go).
use Prim.Native.String.{len}
pub mod Greatest
use herdr_distributed_mesh.Prelude.{
  nat_eq, string_eq, ℕ, String, Bool, not, false, ◌&&◌, ◌||◌, Option, none, some, is_some, ◌==◌,
  ltb, leb, min, max, if◌then◌else◌,
}
use herdr_distributed_mesh.Protocol.Messages.{role_eq, Role, role_node}

pub record ProtocolRange : Type 0 where
  pub minimum : ℕ
  pub maximum : ℕ

abbrev pub minimum_version : ℕ
minimum_version = 1

abbrev pub maximum_version : ℕ
maximum_version = 1

unfoldable pub negotiate_with : ℕ → ℕ → ProtocolRange → Option ℕ
negotiate_with least greatest remote =
    if remote.minimum == 0 || remote.maximum == 0
    then none
    else if ltb remote.maximum remote.minimum
    then none
    else (let minimum = max remote.minimum least in
        let maximum = min remote.maximum greatest in
        if ltb maximum minimum then none else some maximum)

-- Negotiate; `none` is an error.
unfoldable pub negotiate : Option ProtocolRange → Option ℕ
unfolding negotiate_with
negotiate none = none
negotiate (some remote) = negotiate_with minimum_version maximum_version remote

pub record Hello : Type 0 where
  pub protocol : Option ProtocolRange
  pub instance_id : String
  pub role : Role

unfoldable pub validate_node_hello : Option Hello → Bool
unfolding negotiate
validate_node_hello none = false
validate_node_hello (some hello) =
    not (hello.instance_id == "")
    && leb (len hello.instance_id) 128
    && hello.role == role_node
    && is_some (negotiate hello.protocol)

-- herdrcompat.SupportsProtocol
unfoldable pub supports_protocol : ℕ → Bool
supports_protocol version = version == 18 || version == 20 || version == 22
