-- ===== src/Teardown/Plan/Attempts.antt =====
-- The writes of a plan, over any sequence of calls on it.
use herdr_distributed_mesh.Prelude.{
  nat_eq, string_eq, ℕ, suc, ◌+◌, ◌≤◌, ◌≡◌, ◌≢◌, refl, ap, ◌∙◌, String, Bool, true, false, List, [],
  ◌∷◌, ◌!=◌, if-rule, inl, inr, ◌⊎◌, arith, if◌then◌else◌,
}
use herdr_distributed_mesh.Teardown.Failures.{Answer, answer}
use herdr_distributed_mesh.Teardown.Policy.{Codec}
use herdr_distributed_mesh.Teardown.Client.{Client, Network, Context, close}
use herdr_distributed_mesh.Teardown.Client.Logs.{Sends-writes, Sends-same_writes, writes}
use herdr_distributed_mesh.Teardown.Plan.{
  PolicyPlan, PolicyResult, acl_get, devices_get, check_policy_dependencies, reconcile_policy,
  post_policy, attempt, apply_policy,
}
use herdr_distributed_mesh.Teardown.Plan.Requests.{
  reconcile_policy-Sends, check_policy_dependencies-Sends, post_policy-unchecked, attempt-Sends,
  apply_script,
}

-- A choice that wrote something took the branch that can.
writes-choice {ℓ} :
    {W : Type 0} {A : Type 0} {G : Type ℓ} (b : Bool) (x y : A × Client W) (n : ℕ)
    → writes x.1.sent ≡ n
    → G ⊎ (writes y.1.sent ≡ n)
    → writes (if b then x else y).1.sent ≢ n
    → G
writes-choice true x y n same other h = absurd (h same)
writes-choice false x y n same (inl g) h = g
writes-choice false x y n same (inr e) h = absurd (h e)

acl_get-reads : (tailnet : String) → writes (acl_get tailnet ∷ []) ≡ 0
unfolding writes
acl_get-reads tailnet = omega arith

devices_get-reads : (tailnet : String) → writes (devices_get tailnet ∷ []) ≡ 0
unfolding writes
devices_get-reads tailnet = omega arith

-- An application that changes something did so after the check of the devices passed, for the plan
-- and without an excluded device.
pub attempt-checked :
    {W : Type 0} (net : Network W) (codec : Codec) (ctx : Context W) (plan : PolicyPlan)
    (c : Client W)
    → writes (attempt net codec ctx plan c).1.sent ≢ writes c.sent
    → (check_policy_dependencies net codec ctx plan "" c).0 ≡ answer tt
unfolding attempt
attempt-checked net codec ctx plan c h =
    writes-choice plan.unchanged _ _ (writes c.sent)
      (Sends-same_writes (reconcile_policy-Sends net codec ctx plan c) (acl_get-reads plan.tailnet))
      checked h
  where
    checked :
        ((check_policy_dependencies net codec ctx plan "" c).0 ≡ answer tt)
        ⊎ (writes
              (post_policy net codec ctx plan
                (check_policy_dependencies net codec ctx plan "" c).0
                (check_policy_dependencies net codec ctx plan "" c).1).1.sent
            ≡ writes c.sent)
    checked =
        elim (post_policy-unchecked net codec ctx plan
          (check_policy_dependencies net codec ctx plan "" c).0
          (check_policy_dependencies net codec ctx plan "" c).1) [
            | inl passed ↦ inl passed
            | inr same ↦ inr (
                ap (λ c'. writes c'.sent) same
                ∙ Sends-same_writes (check_policy_dependencies-Sends net codec ctx plan "" c)
                    (devices_get-reads plan.tailnet))
          ]

apply_script-writes :
    {W : Type 0} (net : Network W) (codec : Codec) (ctx : Context W) (plan : PolicyPlan)
    → writes (apply_script net codec ctx plan) ≤ 1
unfolding writes
apply_script-writes net codec ctx plan =
    if-rule (λ script. writes script ≤ 1) plan.unchanged _ _ (λ _. omega arith) (λ _. omega arith)

-- What can be done with a plan, each call in a context of its own.
pub data PlanCall (W : Type 0) : Type 0 where
  apply_call : Context W → PlanCall W
  reconcile_call : Context W → PlanCall W
  check_call : Context W → String → PlanCall W
  close_call : PlanCall W

module _ {W : Type 0} (net : Network W) (codec : Codec) where
  unfoldable pub do_call : PlanCall W → Client W × PolicyPlan → Client W × PolicyPlan
  do_call (apply_call ctx) (c, plan) =
      let (reply, plan') = apply_policy net codec ctx plan c in (reply.1, plan')
  do_call (reconcile_call ctx) (c, plan) = ((reconcile_policy net codec ctx plan c).1, plan)
  do_call (check_call ctx retained) (c, plan) =
      ((check_policy_dependencies net codec ctx plan retained c).1, plan)
  do_call close_call (c, plan) = (close c, plan)

  unfoldable pub do_calls : List (PlanCall W) → Client W × PolicyPlan → Client W × PolicyPlan
  do_calls [] s = s
  do_calls (call ∷ calls) s = do_calls calls (do_call call s)

  -- The posts that a plan may still make.
  abbrev left : PolicyPlan → ℕ
  left plan = if plan.attempted then 0 else 1

  -- A call never gives a plan a second post.
  abbrev Spends : Client W × PolicyPlan → Client W × PolicyPlan → Type 0
  Spends s s' = writes s'.0.sent + left s'.1 ≤ writes s.0.sent + left s.1

  apply_policy-Spends :
      (ctx : Context W) (plan : PolicyPlan) (c : Client W)
      → Spends
          (c, plan)
          ((apply_policy net codec ctx plan c).0.1, (apply_policy net codec ctx plan c).1)
  unfolding apply_policy
  apply_policy-Spends ctx plan c =
      if-rule Fits (plan.client != c.identity) _ _ (λ foreign. omega arith)
        (λ own.
          if-rule Fits plan.attempted _ _ (λ used. omega arith)
            (λ fresh.
              if-rule Fits (ctx c.world) _ _ (λ done. omega arith)
                (λ going. omega (
                  arith,
                  Sends-writes (attempt-Sends net codec ctx (record plan { attempted = true }) c),
                  apply_script-writes net codec ctx (record plan { attempted = true }),
                  fresh-left plan fresh,
                ))))
    where
      Fits : (Answer PolicyResult × Client W) × PolicyPlan → Type 0
      Fits r = Spends (c, plan) (r.0.1, r.1)

      fresh-left : (plan : PolicyPlan) → plan.attempted ≡ false → left plan ≡ 1
      fresh-left plan h = rw h refl

  do_call-Spends : (call : PlanCall W) (s : Client W × PolicyPlan) → Spends s (do_call call s)
  unfolding do_call close
  do_call-Spends (apply_call ctx) (c, plan) = apply_policy-Spends ctx plan c
  do_call-Spends (reconcile_call ctx) (c, plan) = omega (
    arith,
    Sends-same_writes (reconcile_policy-Sends net codec ctx plan c) (acl_get-reads plan.tailnet),
  )
  do_call-Spends (check_call ctx retained) (c, plan) = omega (
    arith,
    Sends-same_writes (check_policy_dependencies-Sends net codec ctx plan retained c)
        (devices_get-reads plan.tailnet),
  )
  do_call-Spends close_call (c, plan) = omega arith

  do_calls-Spends :
      (calls : List (PlanCall W)) (s : Client W × PolicyPlan) → Spends s (do_calls calls s)
  unfolding do_calls
  do_calls-Spends [] s = omega arith
  do_calls-Spends (call ∷ calls) s =
      omega (arith, do_call-Spends call s, do_calls-Spends calls (do_call call s))

-- Whatever is done with a plan, and in whatever contexts, all of it together changes the tailnet at
-- most once.
pub do_calls-once :
    {W : Type 0} (net : Network W) (codec : Codec) (calls : List (PlanCall W)) (plan : PolicyPlan)
    (c : Client W)
    → writes (do_calls net codec calls (c, plan)).0.sent ≤ suc (writes c.sent)
do_calls-once net codec calls plan c =
    once _ _ _ _ (do_calls-Spends net codec calls (c, plan))
      (if-rule (λ n. n ≤ 1) plan.attempted _ _ (λ _. omega arith) (λ _. omega arith))
  where
    once : (a b x y : ℕ) → a + x ≤ b + y → y ≤ 1 → a ≤ suc b
    once a b x y h k = omega (arith, h, k)
