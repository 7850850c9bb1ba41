-- ===== src/Teardown/Devices/Unused.antt =====
-- What checkDeviceList has found of a device list that passes.
use herdr_distributed_mesh.Prelude.{
  nat_eq, string_eq, String, true, false, ◌≡◌, some, List, All, ◌⊎◌,
}
use herdr_distributed_mesh.Teardown.Json.{Json, text, Fields}
use herdr_distributed_mesh.Teardown.Values.{lookup, index, as_list, as_object, is_null}
use herdr_distributed_mesh.Teardown.Client.{device_id}
use herdr_distributed_mesh.Teardown.Roles.{is_role}

-- No tag in the list is a mesh role.
abbrev pub IsPlain : Json → Type 0
IsPlain value = (tag : String) × (value ≡ text tag) × (is_role tag ≡ false)

-- The device is the retained one: one of its two ids is the retained id.
abbrev pub IsRetained : String → Fields → Type 0
IsRetained retained device =
    (device_id retained ≡ true)
    × ((lookup "id" device ≡ some (text retained))
        ⊎ (lookup "nodeId" device ≡ some (text retained)))

-- The device has no mesh role: its tags are null or missing, or are a list without one.
abbrev pub HasNoRole : Fields → Type 0
HasNoRole device =
    (is_null (index "tags" device) ≡ true)
    ⊎ ((values : List Json) × (as_list (index "tags" device) ≡ some values) × All IsPlain values)

abbrev pub IsUnused : String → Json → Type 0
IsUnused retained item =
    (device : Fields) × (as_object item ≡ some device)
    × (IsRetained retained device ⊎ HasNoRole device)

abbrev HasId : String → String → Fields → Type 0
HasId retained name device =
    (device_id retained ≡ true) × (lookup name device ≡ some (text retained))
