-- ===== src/Examples/Policies.antt =====
-- A tailnet's policy before and after the set-up, a list of its devices, and a network that serves
-- them.
use herdr_distributed_mesh.Prelude.{
  nat_eq, string_eq, ℕ, suc, String, true, false, some, [], ◌==◌, if◌then◌else◌,
}
use herdr_distributed_mesh.Teardown.Json.{
  Json, text, array, object, Fields, end, field, item, nil, print_value,
}
use herdr_distributed_mesh.Teardown.Values.{deep_equal}
use herdr_distributed_mesh.Teardown.Policy.{Codec}
use herdr_distributed_mesh.Teardown.Client.{Client, Network, Context, Request, replied, post}
use herdr_distributed_mesh.Teardown.Plan.{PolicyPlan}

abbrev list_of_one : String → Json
list_of_one s = array (item (text s) nil)

abbrev grant_from : String → String → String → Json
grant_from src dst ip = object (
    field "src" (list_of_one src) (field "dst" (list_of_one dst) (field "ip" (list_of_one ip) end)))

-- A grant of the owner's own, and two that the set-up adds.
abbrev pub own_grant : Json
own_grant = grant_from "group:dev" "tag:web" "tcp:443"

abbrev pub mesh_grant : Json
mesh_grant = grant_from "tag:herdr-mesh-node" "tag:herdr-mesh-server" "tcp:50052"

abbrev pub dashboard_grant : Json
dashboard_grant = grant_from "*" "tag:herdr-mesh-server" "tcp:8080"

abbrev pub policy_before : Fields
policy_before = field "grants" (array (item own_grant nil)) end

abbrev pub policy_applied : Fields
policy_applied =
    field "grants" (array (item own_grant (item mesh_grant (item dashboard_grant nil)))) end

abbrev device : String → String → Json
device id tag = object (field "nodeId" (text id) (field "tags" (list_of_one tag) end))

-- Two devices, of which one has a mesh role, and one without a role.
abbrev device_list : Json
device_list = object (
    field "devices"
      (array (item (device "nWeb" "tag:web") (item (device "nMesh" "tag:herdr-mesh-node") nil)))
      end)

abbrev free_list : Json
free_list = object (field "devices" (array (item (device "nWeb" "tag:web") nil)) end)

-- The documents are named by one word each.
abbrev document : String → Json
document body =
    if body == "before"
    then object policy_before
    else if body == "applied"
    then object policy_applied
    else if body == "devices"
    then device_list
    else free_list

abbrev pub codec : Codec
codec = record {
  valid_utf8 = λ body. true;
  valid_json = λ body. true;
  standardize = some;
  scan = λ body. (print_value (document body) [], true);
  marshal = λ fields.
      if deep_equal (object fields) (object policy_before) then some "before" else some "applied";
}

-- A network whose world counts the exchanges, with one of the device lists.
abbrev reply_body : String → Request → String
reply_body devices r =
    if r.path == "/tailnet/example.com/devices"
    then devices
    else elim r.method [ post ↦ "before" | _ ↦ "applied" ]

abbrev pub network : String → Network ℕ
network devices = record {
  send = λ r n. (replied 200 "\"e1\"" (some (reply_body devices r)), suc n);
  unmarshal_device = λ body. some ("nMesh", "17");
}

-- A context that is never done.
abbrev pub patient : Context ℕ
patient = λ n. false

abbrev pub client : Client ℕ
client = record { identity = 1; closed = false; world = 0; sent = [] }

abbrev pub restoring_plan : PolicyPlan
restoring_plan = record {
  client = 1;
  tailnet = "example.com";
  etag = "\"e1\"";
  desired = "before";
  unchanged = false;
  attempted = false;
}
