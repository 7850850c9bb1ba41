-- ===== src/Teardown/Devices.antt =====
-- checkDeviceList of deinitnet/dependencies.go: the search of a device list for the mesh's roles.
pub mod Listed
pub mod Unused
use herdr_distributed_mesh.Prelude.{
  nat_eq, string_eq, ℕ, String, Bool, true, false, ◌&&◌, ◌||◌, not, Option, none, some, List, [],
  ◌∷◌, ◌==◌, if◌then◌else◌, length, codes, leb, ltb, contains,
}
use herdr_distributed_mesh.Teardown.Failures.{
  Answer, failed, answer, Failure, unread, policy_in_use, demand, ◌>>=◌, ◌>>◌,
}
use herdr_distributed_mesh.Teardown.Json.{Json, Fields}
use herdr_distributed_mesh.Teardown.Values.{
  lookup, index, field_count, as_list, as_object, as_text, is_null, has_prefix,
}
use herdr_distributed_mesh.Teardown.Policy.{Codec, managed_tag, decode_whole}
use herdr_distributed_mesh.Teardown.Client.{device_id}

-- maxDeviceListBytes, maxListedDevices
abbrev pub max_device_list_bytes : ℕ
max_device_list_bytes = 2097152

abbrev pub max_listed_devices : ℕ
max_listed_devices = 10000

-- `seen`, and what the loop over "id" and "nodeId" found.
pub record Ids : Type 0 where
  pub seen : List String
  pub has_id : Bool
  pub excluded : Bool

abbrev same_bool : Bool → Bool → Bool
same_bool true b = b
same_bool false b = not b

-- The id of one of the two fields.
unfoldable pub read_id : String → String → Json → Ids → Answer Ids
read_id retained name value ids = elim (as_text value) [
  | none ↦ failed unread
  | some id ↦
      if device_id id
        && same_bool (name == "nodeId") (has_prefix id "n")
        && not (contains ids.seen id)
      then answer (record {
        seen = id ∷ ids.seen;
        has_id = true;
        excluded = ids.excluded || id == retained;
      })
      else failed unread
]

unfoldable pub read_field : String → String → Fields → Ids → Answer Ids
read_field retained name device ids = elim (lookup name device) [
  | none ↦ answer ids
  | some value ↦ read_id retained name value ids
]

unfoldable pub read_ids : String → Fields → List String → Answer Ids
read_ids retained device seen =
    read_field retained "id" device (record { seen = seen; has_id = false; excluded = false })
    >>= read_field retained "nodeId" device

abbrev is_tag : String → Bool
is_tag tag = has_prefix tag "tag:" && ltb 4 (length (codes tag))

-- The loop over a device's tags: whether one of them is a mesh role.
unfoldable pub has_role : List Json → Answer Bool
has_role [] = answer false
has_role (value ∷ values) = elim (as_text value) [
  | none ↦ failed unread
  | some tag ↦
      demand (is_tag tag) unread
      >> (has_role values >>= (λ others. answer (managed_tag tag || others)))
]

-- Untagged devices can omit tags or encode them as null.
unfoldable pub device_role : Json → Answer Bool
device_role tags =
    if is_null tags
    then answer false
    else elim (as_list tags) [ none ↦ failed unread | some values ↦ has_role values ]

-- The loop over the devices: whether one that is not excluded has a mesh role.
unfoldable pub roles_in_use : String → List String → List Json → Answer Bool
roles_in_use retained seen [] = answer false
roles_in_use retained seen (item ∷ items) = elim (as_object item) [
  | none ↦ failed unread
  | some device ↦ read_ids retained device seen >>= (λ ids.
      demand ids.has_id unread
      >> (device_role (index "tags" device) >>= (λ role.
          roles_in_use retained ids.seen items
          >>= (λ others. answer (not ids.excluded && role || others)))))
]

-- The envelope: an object with nothing but a list of devices.
unfoldable pub device_items : Option Json → Answer (List Json)
device_items none = failed unread
device_items (some value) = elim (as_object value) [
  | none ↦ failed unread
  | some object ↦
      demand (field_count object == 1) unread >> (elim (as_list (index "devices" object)) [
        | none ↦ failed unread
        | some devices ↦ demand (leb (length devices) max_listed_devices) unread >> answer devices
      ])
]

unfoldable pub check_device_list : Codec → String → String → Answer (Unit {0})
check_device_list codec body retained =
    demand (leb (length (codes body)) max_device_list_bytes) unread
    >> demand (codec.valid_utf8 body) unread
    >> demand (codec.valid_json body) unread
    >> (device_items (decode_whole (codec.scan body)) >>= (λ devices.
        roles_in_use retained [] devices >>= (λ in_use. demand (not in_use) policy_in_use)))
