-- ===== src/Teardown/Plan/Requests.antt =====
-- Which requests the calls on a plan send, in which order.
use herdr_distributed_mesh.Prelude.{
  nat_eq, string_eq, ◌≡◌, refl, String, not, ◌&&◌, Option, none, some, List, [], ◌∷◌, ◌!=◌, inl,
  inr, ◌⊎◌, if◌then◌else◌,
}
use herdr_distributed_mesh.Teardown.Failures.{Answer, failed, answer}
use herdr_distributed_mesh.Teardown.Policy.{Codec, max_policy_bytes}
use herdr_distributed_mesh.Teardown.Client.{Request, Client, Network, Context, device_id}
use herdr_distributed_mesh.Teardown.Client.Logs.{
  Sends, Sends-nothing, Sends-if, Sends-choice, Sends-trans, request-Sends,
}
use herdr_distributed_mesh.Teardown.Devices.{max_device_list_bytes}
use herdr_distributed_mesh.Teardown.Plan.{
  PolicyPlan, PolicyResult, acl_get, acl_post, devices_get, get_policy, check_policy_dependencies,
  reconcile_policy, confirm_post, post_policy, attempt,
}

module _ {W : Type 0} (net : Network W) (codec : Codec) (ctx : Context W) (plan : PolicyPlan) where
  pub reconcile_policy-Sends :
      (c : Client W) → Sends (acl_get plan.tailnet ∷ []) c (reconcile_policy net codec ctx plan c).1
  unfolding reconcile_policy get_policy
  reconcile_policy-Sends c =
      Sends-if (plan.client != c.identity) _ _ (Sends-nothing _ c)
        (request-Sends net ctx (acl_get plan.tailnet) max_policy_bytes c)

  pub check_policy_dependencies-Sends :
      (retained : String) (c : Client W)
      → Sends
          (devices_get plan.tailnet ∷ [])
          c
          (check_policy_dependencies net codec ctx plan retained c).1
  unfolding check_policy_dependencies
  check_policy_dependencies-Sends retained c =
      Sends-if (plan.client != c.identity) _ _ (Sends-nothing _ c) (
        Sends-if plan.unchanged _ _ (Sends-nothing _ c) (
          Sends-if (retained != "" && not (device_id retained)) _ _ (Sends-nothing _ c)
            (request-Sends net ctx (devices_get plan.tailnet) max_device_list_bytes c)))

  confirm_post-Sends :
      (result : Option (Answer PolicyResult)) (c : Client W)
      → Sends (acl_get plan.tailnet ∷ []) c (confirm_post net codec ctx plan result c).1
  unfolding confirm_post
  confirm_post-Sends (some result) c = Sends-nothing _ c
  confirm_post-Sends none c = reconcile_policy-Sends c

  abbrev pub post_script : List Request
  post_script = acl_post plan ∷ acl_get plan.tailnet ∷ []

  pub post_policy-Sends :
      (free : Answer (Unit {0})) (c : Client W)
      → Sends post_script c (post_policy net codec ctx plan free c).1
  unfolding post_policy
  post_policy-Sends (failed e) c = Sends-nothing _ c
  post_policy-Sends (answer u) c =
      Sends-trans (request-Sends net ctx (acl_post plan) max_policy_bytes c)
        (confirm_post-Sends _ _)

  -- Without a check that passed nothing is posted.
  pub post_policy-unchecked :
      (free : Answer (Unit {0})) (c : Client W)
      → (free ≡ answer tt) ⊎ ((post_policy net codec ctx plan free c).1 ≡ c)
  unfolding post_policy
  post_policy-unchecked (failed e) c = inr refl
  post_policy-unchecked (answer u) c = inl refl

  abbrev pub apply_script : List Request
  apply_script =
      if plan.unchanged then acl_get plan.tailnet ∷ [] else devices_get plan.tailnet ∷ post_script

  pub attempt-Sends : (c : Client W) → Sends apply_script c (attempt net codec ctx plan c).1
  unfolding attempt
  attempt-Sends c =
      Sends-choice plan.unchanged _ _ (reconcile_policy-Sends c)
        (Sends-trans (check_policy_dependencies-Sends "" c) (post_policy-Sends _ _))
