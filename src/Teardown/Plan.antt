-- ===== src/Teardown/Plan.antt =====
-- Policy plans (deinitnet/policy.go, CheckPolicyDependencies of dependencies.go): a plan is prepared
-- from the current policy, applied at most once, and can be reconciled without a change. The mutex
-- of a plan makes each call one step. A nil plan is refused as a plan of another client is.
pub mod Requests
pub mod Attempts
pub mod Prepared
use herdr_distributed_mesh.Prelude.{
  nat_eq, string_eq, ℕ, String, Bool, true, false, ◌&&◌, ◌||◌, not, Option, none, some, List, [],
  ◌∷◌, ◌==◌, ◌!=◌, if◌then◌else◌, length, codes, leb, all, in_range, is_alnum, matches_head, joined,
  nat_beq,
}
use herdr_distributed_mesh.Teardown.Failures.{
  Answer, failed, answer, Failure, invalid_argument, invalid_policy, policy_conflict, plan_used,
  cancelled, client_closed, outcome_unknown, unread, http_error, demand, ◌>>=◌, ◌>>◌,
}
use herdr_distributed_mesh.Teardown.Json.{Json, Fields}
use herdr_distributed_mesh.Teardown.Values.{has_prefix}
use herdr_distributed_mesh.Teardown.Policy.{Codec, parse_policy, remove_mesh, max_policy_bytes}
use herdr_distributed_mesh.Teardown.Additions.{supported_additions}
use herdr_distributed_mesh.Teardown.Client.{
  Method, get, post, Request, Response, Client, Network, Context, request, definite_rejection,
  device_id,
}
use herdr_distributed_mesh.Teardown.Devices.{check_device_list, max_device_list_bytes}

-- [A-Za-z0-9@.-]
abbrev is_tailnet_char : ℕ → Bool
is_tailnet_char c = is_alnum c || c == b'@' || c == b'.' || c == b'-'

unfoldable pub valid_tailnet : String → Bool
valid_tailnet tailnet =
    matches_head is_alnum is_tailnet_char 252 (codes tailnet)
    && tailnet != "."
    && tailnet != ".."
    && not (has_prefix tailnet "tskey-")

abbrev is_etag_char : ℕ → Bool
is_etag_char c = in_range 0x21 0x7e c && not (nat_beq c b'"')

-- What is between the quotes, and the quote that ends it.
abbrev closes_etag : List ℕ → Bool
closes_etag [] = false
closes_etag (c ∷ []) = nat_beq c b'"'
closes_etag (c ∷ c' ∷ cs) = is_etag_char c && closes_etag (c' ∷ cs)

abbrev opens_etag : List ℕ → Bool
opens_etag [] = false
opens_etag (c ∷ cs) = nat_beq c b'"' && closes_etag cs

unfoldable pub valid_etag : String → Bool
valid_etag etag =
    leb 2 (length (codes etag)) && leb (length (codes etag)) 256 && opens_etag (codes etag)

pub record PolicyPlan : Type 0 where
  pub client : ℕ
  pub tailnet : String
  pub etag : String
  pub desired : String
  pub unchanged : Bool
  pub attempted : Bool

-- PolicyResult: neither flag, for a POST that was answered, or one of them.
pub data PolicyResult : Type 0 where
  accepted already_clean reconciled : PolicyResult

abbrev pub acl_get : String → Request
acl_get tailnet = record {
  method = get;
  path = joined "/tailnet/" (joined tailnet "/acl");
  body = none;
  if_match = "";
}

abbrev pub acl_post : PolicyPlan → Request
acl_post plan = record {
  method = post;
  path = joined "/tailnet/" (joined plan.tailnet "/acl");
  body = some plan.desired;
  if_match = plan.etag;
}

abbrev pub devices_get : String → Request
devices_get tailnet = record {
  method = get;
  path = joined "/tailnet/" (joined tailnet "/devices");
  body = none;
  if_match = "";
}

module _ {W : Type 0} (net : Network W) (codec : Codec) where
  -- What getPolicy makes of the response: the canonical policy and its ETag.
  unfoldable pub read_policy : Answer Response → Answer (String × String)
  read_policy (failed e) = failed e
  read_policy (answer r) =
      demand (r.status == 200) (http_error r.status)
      >> demand (valid_etag r.etag) unread
      >> (parse_policy codec r.body >>= (λ (_, canonical). answer (canonical, r.etag)))

  unfoldable pub get_policy : Context W → String → Client W → Answer (String × String) × Client W
  get_policy ctx tailnet c =
      let (r, c') = request net ctx (acl_get tailnet) max_policy_bytes c in (read_policy r, c')

  -- The comparison of the current policy with the two retained snapshots.
  unfoldable pub plan_between :
      ℕ → String → Fields × String → Fields × String → Answer (String × String) → Answer PolicyPlan
  plan_between client tailnet old next (failed e) = failed e
  plan_between client tailnet (_, before) (_, applied) (answer (current, etag)) =
      demand (current == before || current == applied) policy_conflict
      >> answer (record {
        client = client;
        tailnet = tailnet;
        etag = etag;
        desired = before;
        unchanged = current == before;
        attempted = false;
      })

  unfoldable pub check_snapshots :
      String → String → String → Answer ((Fields × String) × (Fields × String))
  check_snapshots tailnet before applied =
      demand (valid_tailnet tailnet) invalid_argument
      >> (parse_policy codec before >>= (λ old. parse_policy codec applied >>= (λ next.
          demand (supported_additions old.0 next.0) invalid_policy >> answer (old, next))))

  unfoldable pub prepare_from :
      Context W
      → String
      → Answer ((Fields × String) × (Fields × String))
      → Client W
      → Answer PolicyPlan × Client W
  prepare_from ctx tailnet (failed e) c = (failed e, c)
  prepare_from ctx tailnet (answer (old, next)) c =
      let (current, c') = get_policy ctx tailnet c in
      (plan_between c.identity tailnet old next current, c')

  unfoldable pub prepare_policy :
      Context W → String → String → String → Client W → Answer PolicyPlan × Client W
  prepare_policy ctx tailnet before applied c =
      prepare_from ctx tailnet (check_snapshots tailnet before applied) c

  unfoldable pub plan_removal : ℕ → String → Answer (String × String) → Answer PolicyPlan
  plan_removal client tailnet (failed e) = failed e
  plan_removal client tailnet (answer (current, etag)) =
      parse_policy codec current >>= (λ (policy, _). remove_mesh policy >>= (λ result.
        elim (codec.marshal result) [
          | none ↦ failed invalid_policy
          | some desired ↦ answer (record {
            client = client;
            tailnet = tailnet;
            etag = etag;
            desired = desired;
            unchanged = current == desired;
            attempted = false;
          })
        ]))

  unfoldable pub prepare_mesh_policy_removal :
      Context W → String → Client W → Answer PolicyPlan × Client W
  prepare_mesh_policy_removal ctx tailnet c =
      if not (valid_tailnet tailnet)
      then (failed invalid_argument, c)
      else let (current, c') = get_policy ctx tailnet c in
        (plan_removal c.identity tailnet current, c')

  -- What CheckPolicyDependencies makes of the device list.
  unfoldable pub read_devices : String → Answer Response → Answer (Unit {0})
  read_devices retained (failed e) = failed e
  read_devices retained (answer r) =
      demand (r.status == 200) (http_error r.status) >> check_device_list codec r.body retained

  unfoldable pub check_policy_dependencies :
      Context W → PolicyPlan → String → Client W → Answer (Unit {0}) × Client W
  check_policy_dependencies ctx plan retained c =
      if plan.client != c.identity
      then (failed invalid_argument, c)
      else if plan.unchanged
      then (answer tt, c)
      else if retained != "" && not (device_id retained)
      then (failed invalid_argument, c)
      else let (r, c') = request net ctx (devices_get plan.tailnet) max_device_list_bytes c in
        (read_devices retained r, c')

  abbrev is_desired : PolicyPlan → Answer (String × String) → Answer Bool
  is_desired plan current = current >>= (λ (canonical, _). answer (canonical == plan.desired))

  unfoldable pub reconcile_policy : Context W → PolicyPlan → Client W → Answer Bool × Client W
  reconcile_policy ctx plan c =
      if plan.client != c.identity
      then (failed invalid_argument, c)
      else let (current, c') = get_policy ctx plan.tailnet c in (is_desired plan current, c')

  -- The reply to the POST. `none` is an uncertain outcome.
  abbrev is_applied : PolicyPlan → String → Option (Answer PolicyResult)
  is_applied plan body = elim (parse_policy codec body) [
    | answer (_, actual) ↦ if actual == plan.desired then some (answer accepted) else none
    | failed e ↦ none
  ]

  unfoldable pub post_reply : PolicyPlan → Answer Response → Option (Answer PolicyResult)
  post_reply plan (answer r) =
      if r.status == 412
      then some (failed policy_conflict)
      else if definite_rejection r.status
      then some (failed (http_error r.status))
      else if r.status == 200
      then is_applied plan r.body
      else none
  post_reply plan (failed client_closed) = some (failed client_closed)
  post_reply plan (failed e) = none

  abbrev confirmed : Answer Bool → Answer PolicyResult
  confirmed (answer true) = answer reconciled
  confirmed _ = failed outcome_unknown

  unfoldable pub confirm_post :
      Context W
      → PolicyPlan
      → Option (Answer PolicyResult)
      → Client W
      → Answer PolicyResult × Client W
  confirm_post ctx plan (some result) c = (result, c)
  confirm_post ctx plan none c =
      let (clean, c') = reconcile_policy ctx plan c in (confirmed clean, c')

  -- What follows the check of the devices.
  unfoldable pub post_policy :
      Context W → PolicyPlan → Answer (Unit {0}) → Client W → Answer PolicyResult × Client W
  post_policy ctx plan (failed e) c = (failed e, c)
  post_policy ctx plan (answer _) c =
      let (r, c') = request net ctx (acl_post plan) max_policy_bytes c in
      confirm_post ctx plan (post_reply plan r) c'

  abbrev clean_result : Answer Bool → Answer PolicyResult
  clean_result (answer true) = answer already_clean
  clean_result (answer false) = failed policy_conflict
  clean_result (failed e) = failed e

  unfoldable pub attempt : Context W → PolicyPlan → Client W → Answer PolicyResult × Client W
  attempt ctx plan c =
      if plan.unchanged
      then (let (clean, c') = reconcile_policy ctx plan c in (clean_result clean, c'))
      else let (free, c') = check_policy_dependencies ctx plan "" c in post_policy ctx plan free c'

  unfoldable pub apply_policy :
      Context W → PolicyPlan → Client W → (Answer PolicyResult × Client W) × PolicyPlan
  apply_policy ctx plan c =
      if plan.client != c.identity
      then ((failed invalid_argument, c), plan)
      else if plan.attempted
      then ((failed plan_used, c), plan)
      else if ctx c.world
      then ((failed cancelled, c), plan)
      else (attempt ctx (record plan { attempted = true }) c, record plan { attempted = true })
