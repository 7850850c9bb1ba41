-- ===== src/Teardown/Plan/Prepared.antt =====
-- What a prepared plan would post, and where it comes from.
use herdr_distributed_mesh.Prelude.{
  nat_eq, string_eq, ℕ, ◌≡◌, refl, sym, ap, ◌∙◌, String, Bool, true, false, not, Option, none, some,
  ◌==◌, ◌⊎◌, if◌then◌else◌,
}
use herdr_distributed_mesh.Teardown.Failures.{
  Answer, failed, answer, invalid_policy, invalid_argument, >>=-eq-answer,
}
use herdr_distributed_mesh.Teardown.Json.{Fields}
use herdr_distributed_mesh.Teardown.Policy.{Codec, parse_policy, remove_mesh}
use herdr_distributed_mesh.Teardown.Policy.Removal.{IsRemoved, remove_mesh-IsRemoved}
use herdr_distributed_mesh.Teardown.Additions.Supported.{IsSupported}
use herdr_distributed_mesh.Teardown.Client.{Client, Network, Context}
use herdr_distributed_mesh.Teardown.Plan.{
  PolicyPlan, valid_tailnet, get_policy, plan_removal, prepare_mesh_policy_removal,
}

-- A plan made from two snapshots: the current policy is one of them, and the first is what it posts.
pub record IsRestoring (old next : String) (current : String × String) (plan : PolicyPlan)
    : Type 0 where
  either : (current.0 ≡ old) ⊎ (current.0 ≡ next)
  restores : plan.desired ≡ old
  guarded : plan.etag ≡ current.1
  fresh : plan.attempted ≡ false
  unchanged : plan.unchanged ≡ (current.0 == old)

-- The snapshots that a plan was prepared from.
pub record IsPrepared (codec : Codec) (before applied : String) (current : Answer (String × String))
    (plan : PolicyPlan) : Type 0 where
  old : Fields × String
  next : Fields × String
  parsed : parse_policy codec before ≡ answer old
  parsed_next : parse_policy codec applied ≡ answer next
  supported : IsSupported old.0 next.0
  read : String × String
  got : current ≡ answer read
  restoring : IsRestoring old.1 next.1 read plan

-- A plan for the removal of the mesh from a policy.
pub record IsRemoving (codec : Codec) (current : Answer (String × String)) (plan : PolicyPlan)
    : Type 0 where
  read : String × String
  got : current ≡ answer read
  policy : Fields × String
  parsed : parse_policy codec read.0 ≡ answer policy
  result : Fields
  removed : IsRemoved policy.0 result
  posts : codec.marshal result ≡ some plan.desired
  guarded : plan.etag ≡ read.1

plan_removal-IsRemoving :
    {W : Type 0} (net : Network W) (codec : Codec) (client : ℕ) (tailnet : String)
    (m : Answer (String × String)) (plan : PolicyPlan)
    → plan_removal net codec client tailnet m ≡ answer plan
    → IsRemoving codec m plan
unfolding plan_removal
plan_removal-IsRemoving net codec client tailnet (failed e) plan h = cc (h)
plan_removal-IsRemoving net codec client tailnet (answer read) plan h =
    let (policy, parsed, h1) = >>=-eq-answer (parse_policy codec read.0) _ h in
    let (result, removed, h2) = >>=-eq-answer (remove_mesh policy.0) _ h1 in
    posting policy parsed result (remove_mesh-IsRemoved policy.0 result removed)
      (codec.marshal result) refl h2
  where
    planned : (a b : PolicyPlan) → answer a ≡ answer b → a ≡ b
    planned a b e = cc

    posting :
        (policy : Fields × String)
        → parse_policy codec read.0 ≡ answer policy
        → (result : Fields) → IsRemoved policy.0 result
        → (m : Option String) → codec.marshal result ≡ m
        → elim m [
          | none ↦ failed invalid_policy
          | some desired ↦ answer (record {
            client = client;
            tailnet = tailnet;
            etag = read.1;
            desired = desired;
            unchanged = read.0 == desired;
            attempted = false;
          })
        ]
          ≡ answer plan
        → IsRemoving codec (answer read) plan
    posting policy parsed result removed none e q = cc (q)
    posting policy parsed result removed (some desired) e q =
        let same = planned _ plan q in
        record {
          read = read;
          got = refl;
          policy = policy;
          parsed = parsed;
          result = result;
          removed = removed;
          posts = e ∙ ap (λ p. some p.desired) same;
          guarded = sym (ap (λ p. p.etag) same);
        }

-- A plan that PrepareMeshPolicyRemoval returns posts the text of the policy that was read, less the
-- owners of the three mesh roles and the rules whose sources or destinations are roles only, with
-- all other rules, owners and keys as they were and no text that mentions the mesh, under the ETag
-- that was read with it.
pub prepare_mesh_policy_removal-IsRemoving :
    {W : Type 0} (net : Network W) (codec : Codec) (ctx : Context W) (tailnet : String)
    (c : Client W) (plan : PolicyPlan)
    → (prepare_mesh_policy_removal net codec ctx tailnet c).0 ≡ answer plan
    → IsRemoving codec (get_policy net codec ctx tailnet c).0 plan
unfolding prepare_mesh_policy_removal
prepare_mesh_policy_removal-IsRemoving {W} net codec ctx tailnet c plan h =
    plan_removal-IsRemoving net codec c.identity tailnet _ plan
      (valid_only (valid_tailnet tailnet) _ _ refl h)
  where
    valid_only :
        (valid : Bool) (x y : Answer PolicyPlan × Client W)
        → x.0 ≡ failed invalid_argument
        → (if not valid then x else y).0 ≡ answer plan
        → y.0 ≡ answer plan
    valid_only true x y f e = e
    valid_only false x y f e = cc (f, e)
