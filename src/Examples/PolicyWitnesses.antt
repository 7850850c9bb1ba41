-- ===== src/Examples/PolicyWitnesses.antt =====
-- The theorems on the network removal, each at an input where its conditions hold.
use herdr_distributed_mesh.Prelude.{
  nat_eq, string_eq, ◌≡◌, ◌≢◌, ◌≤◌, suc, refl, String, true, List, [], ◌∷◌,
}
use herdr_distributed_mesh.Teardown.Failures.{answer, ◌>>=◌, demand}
use herdr_distributed_mesh.Teardown.Json.{
  Json, object, field, end, Token, open_object, close_object, text_token, null_token, decoded,
  starved, decode_value, and_then, refused_if, enough, print_value, acceptable,
}
use herdr_distributed_mesh.Teardown.Json.Decoding.{decode_value-terminates}
use herdr_distributed_mesh.Teardown.Json.Reading.{decode_value-exact}
use herdr_distributed_mesh.Teardown.Json.Printing.{decode_value-round_trip}
use herdr_distributed_mesh.Teardown.Values.{
  lookup, elements, items_of, has_prefix, set_field, mentions, deep_equal, field_count,
}
use herdr_distributed_mesh.Teardown.Policy.{
  remove_owners, tag_owners_key, keep_section, keep_rules, removes, names_mesh, sort_selectors,
  managed_policy_selector, managed_tag, fields_mention_mesh, remove_mesh, decode_whole,
  parse_policy,
}
use herdr_distributed_mesh.Teardown.Client.{
  read_response, definite_rejection, device_id, request, device_request, verify_device, get_device,
  delete_reply, confirm_delete, send_delete, after_get, delete_device, get, delete,
}
use herdr_distributed_mesh.Teardown.Client.Logs.{Sends, writes}
use herdr_distributed_mesh.Teardown.Client.Deleting.{
  IsDevice, delete_device-Sends, delete_device-verified,
}
use herdr_distributed_mesh.Teardown.Devices.{
  read_id, read_field, read_ids, has_role, device_role, roles_in_use, device_items,
  check_device_list,
}
use herdr_distributed_mesh.Teardown.Plan.{
  valid_tailnet, valid_etag, read_policy, get_policy, plan_removal, prepare_mesh_policy_removal,
  read_devices, check_policy_dependencies, post_reply, confirm_post, post_policy, attempt,
}
use herdr_distributed_mesh.Teardown.Plan.Attempts.{
  attempt-checked, do_calls-once, do_calls, apply_call, reconcile_call, check_call, close_call,
}
use herdr_distributed_mesh.Teardown.Plan.Prepared.{
  IsRemoving, prepare_mesh_policy_removal-IsRemoving,
}
use herdr_distributed_mesh.Teardown.Policy.Removal.{
  IsRemoved, remove_mesh-IsRemoved, remove_mesh-idempotent,
}
use herdr_distributed_mesh.Examples.Policies.{
  policy_before, policy_applied, codec, network, patient, client, restoring_plan,
}

abbrev unclosed : List Token
unclosed = open_object ∷ text_token "grants" ∷ open_object ∷ []

terminates_example : decode_value (enough unclosed) 7 unclosed ≢ starved
terminates_example = decode_value-terminates unclosed 7

exact_example :
    (open_object ∷ text_token "a" ∷ null_token ∷ close_object ∷ null_token ∷ []
      ≡ print_value (object (field "a" Json.null end)) (null_token ∷ []))
    × (acceptable 0 (object (field "a" Json.null end)) ≡ true)
unfolding decode_value and_then refused_if
exact_example =
    decode_value-exact (open_object ∷ text_token "a" ∷ null_token ∷ close_object ∷ null_token ∷ [])
      (null_token ∷ []) (object (field "a" Json.null end)) refl

round_trip_example :
    decode_value
      (enough (print_value (object policy_applied) []))
      0
      (print_value (object policy_applied) [])
    ≡ decoded (object policy_applied) []
unfolding acceptable
round_trip_example = decode_value-round_trip (object policy_applied) [] refl

applied-cleaned : remove_mesh policy_applied ≡ answer policy_before
unfolding remove_mesh ◌>>=◌ remove_owners tag_owners_key lookup keep_section keep_rules elements
    items_of removes names_mesh sort_selectors managed_policy_selector managed_tag has_prefix
    set_field fields_mention_mesh mentions
applied-cleaned = refl

removed_example : IsRemoved policy_applied policy_before
removed_example = remove_mesh-IsRemoved policy_applied policy_before applied-cleaned

idempotent_example : remove_mesh policy_before ≡ answer policy_before
idempotent_example = remove_mesh-idempotent policy_applied policy_before applied-cleaned

deleting_example :
    Sends
      (device_request (network "devices") get "nMesh"
        ∷ device_request (network "devices") delete "nMesh"
        ∷ device_request (network "devices") get "nMesh"
        ∷ [])
      client
      (delete_device (network "devices") patient "nMesh" client).1
deleting_example = delete_device-Sends (network "devices") patient "nMesh" client

verified_example :
    (found : String × String) × ((get_device (network "devices") patient "nMesh" client).0
      ≡ answer found)
    × IsDevice "nMesh" found
unfolding delete_device get_device request read_response device_id verify_device after_get
    send_delete delete_reply confirm_delete writes
verified_example =
    delete_device-verified (network "devices") patient "nMesh" client (λ same. absurd (cc same))

checked_example :
    (check_policy_dependencies (network "free") codec patient restoring_plan "" client).0
    ≡ answer tt
unfolding attempt check_policy_dependencies request read_response read_devices check_device_list
    demand ◌>>=◌ device_items decode_whole decode_value and_then refused_if print_value roles_in_use
    read_ids read_field read_id has_role device_role lookup elements field_count has_prefix
    managed_tag device_id post_policy post_reply definite_rejection parse_policy deep_equal
    confirm_post writes
checked_example =
    attempt-checked (network "free") codec patient restoring_plan client (λ same. absurd (cc same))

once_example :
    writes
      (do_calls
        (network "free")
        codec
        (check_call patient ""
          ∷ apply_call patient
          ∷ apply_call patient
          ∷ reconcile_call patient
          ∷ close_call
          ∷ apply_call patient
          ∷ [])
        (client, restoring_plan)).0.sent
    ≤ suc (writes client.sent)
once_example =
    do_calls-once (network "free") codec
      (check_call patient ""
        ∷ apply_call patient
        ∷ apply_call patient
        ∷ reconcile_call patient
        ∷ close_call
        ∷ apply_call patient
        ∷ [])
      restoring_plan client

mesh_removal_example :
    IsRemoving codec
      (get_policy (network "free") codec patient "example.com" client).0
      restoring_plan
unfolding prepare_mesh_policy_removal plan_removal valid_tailnet parse_policy get_policy request
    read_response read_policy valid_etag deep_equal lookup field_count elements demand ◌>>=◌
    decode_whole decode_value and_then refused_if print_value has_prefix remove_mesh remove_owners
    tag_owners_key keep_section keep_rules items_of removes names_mesh sort_selectors
    managed_policy_selector managed_tag set_field fields_mention_mesh mentions
mesh_removal_example =
    prepare_mesh_policy_removal-IsRemoving (network "free") codec patient "example.com" client
      restoring_plan refl
