-- ===== src/Protocol/Lifecycle/Evidence.antt =====
-- What a valid lifecycle receipt is evidence of.
use herdr_distributed_mesh.Prelude.{
  nat_eq, string_eq, option_eq, ℕ, String, ◌≡◌, refl, ap, ◌∙◌, ◌≤◌, ◌+◌, Bool, true, false, ◌&&◌,
  Option, none, some, is_some, List, [], ◌∷◌, ◌==◌, ==→≡, ==-false, any, if◌then◌else◌, Bool-cases,
  inl, inr, arith, &&-split,
}
use herdr_distributed_mesh.Protocol.Messages.{
  AgentLifecycleStage, AgentLifecycleReceipt, Command, Wire,
}
use herdr_distributed_mesh.Protocol.Lifecycle.Receipt.{
  Last, Prior, none_attempted, last_outcome, set_outcome, valid_event, valid_intent, replay_stages,
  agrees_with, validate_lifecycle_receipt,
}

abbrev is_intent : String → AgentLifecycleStage → Bool
is_intent stage event = event.before && event.stage == stage

-- How often the node recorded that it is about to act.
unfoldable pub intents : String → List AgentLifecycleStage → ℕ
intents stage [] = 0
intents stage (event ∷ events) =
    if is_intent stage event then 1 + intents stage events else intents stage events

abbrev has_stage : String → Prior → Bool
has_stage stage = any (λ event. event.stage == stage)

-- The outcome of the latest event about a stage, or the given one if there is none.
unfoldable pub latest : String → String → List AgentLifecycleStage → String
latest stage outcome [] = outcome
latest stage outcome (event ∷ events) =
    latest stage (if event.stage == stage then event.outcome else outcome) events

-- The four stages.
data Known (stage : String) : Type 0 where
  pane : stage ≡ "create_pane" → Known stage
  launch : stage ≡ "launch" → Known stage
  prompt : stage ≡ "prompt" → Known stage
  close : stage ≡ "close_pane" → Known stage

set-look :
    (stage at_ outcome : String) (last : Last)
    → Known stage
    → Known at_
    → last_outcome (set_outcome last at_ outcome) stage
      ≡ (if at_ == stage then outcome else last_outcome last stage)
unfolding last_outcome set_outcome
set-look stage at_ outcome last (pane e) (pane f) = rw (e, f) refl
set-look stage at_ outcome last (pane e) (launch f) = rw (e, f) refl
set-look stage at_ outcome last (pane e) (prompt f) = rw (e, f) refl
set-look stage at_ outcome last (pane e) (close f) = rw (e, f) refl
set-look stage at_ outcome last (launch e) (pane f) = rw (e, f) refl
set-look stage at_ outcome last (launch e) (launch f) = rw (e, f) refl
set-look stage at_ outcome last (launch e) (prompt f) = rw (e, f) refl
set-look stage at_ outcome last (launch e) (close f) = rw (e, f) refl
set-look stage at_ outcome last (prompt e) (pane f) = rw (e, f) refl
set-look stage at_ outcome last (prompt e) (launch f) = rw (e, f) refl
set-look stage at_ outcome last (prompt e) (prompt f) = rw (e, f) refl
set-look stage at_ outcome last (prompt e) (close f) = rw (e, f) refl
set-look stage at_ outcome last (close e) (pane f) = rw (e, f) refl
set-look stage at_ outcome last (close e) (launch f) = rw (e, f) refl
set-look stage at_ outcome last (close e) (prompt f) = rw (e, f) refl
set-look stage at_ outcome last (close e) (close f) = rw (e, f) refl

module _ (starting stopping : Bool) where
  replay-head :
      (prior : Prior) (last final : Last) (event : AgentLifecycleStage)
      (events : List AgentLifecycleStage)
      → replay_stages starting stopping prior last (event ∷ events) ≡ some final
      → (valid_event starting stopping prior last event ≡ true)
        × (replay_stages starting stopping
              (event ∷ prior)
              (set_outcome last event.stage event.outcome)
              events
            ≡ some final)
  unfolding replay_stages
  replay-head prior last final event events h =
      elim (Bool-cases (valid_event starting stopping prior last event)) [
        | inl v ↦ (v, (rw v at h))
        | inr n ↦ let e : none ≡ some final = rw n at h in cc (e)
      ]

  -- An intent is for a stage that no earlier event is about.
  valid_event-new :
      (stage : String) (prior : Prior) (last : Last) (event : AgentLifecycleStage)
      → valid_event starting stopping prior last event ≡ true
      → is_intent stage event ≡ true
      → has_stage stage prior ≡ false
  unfolding valid_event valid_intent
  valid_event-new stage prior last event v i =
      let (b, e) = &&-split event.before (event.stage == stage) i in
      let fresh : has_stage event.stage prior ≡ false = ground arith in
      rw (← ==→≡ event.stage stage e) fresh

  -- No intent for a stage that an earlier event is about, and at most one for another.
  replay-intents :
      (stage : String) (prior : Prior) (last final : Last) (events : List AgentLifecycleStage)
      → replay_stages starting stopping prior last events ≡ some final
      → intents stage events ≤ (if has_stage stage prior then 0 else 1)
  unfolding intents
  replay-intents stage prior last final [] h = ground arith
  replay-intents stage prior last final (event ∷ events) h =
      let (v, h') = replay-head prior last final event events h in
      let rest = replay-intents stage (event ∷ prior) _ final events h' in
      elim (Bool-cases (is_intent stage event)) [
        | inl i ↦
            let fresh = valid_event-new stage prior last event v i in
            let (b, e) = &&-split event.before (event.stage == stage) i in ground arith
        | inr n ↦ ground arith
      ]

  valid_event-Known :
      (prior : Prior) (last : Last) (event : AgentLifecycleStage)
      → valid_event starting stopping prior last event ≡ true
      → Known event.stage
  unfolding valid_event last_outcome
  valid_event-Known prior last event v =
      let named : (last_outcome last event.stage == "") ≡ false = ground arith in
      elim (Bool-cases (event.stage == "create_pane")) [
        | inl e ↦ pane (==→≡ event.stage "create_pane" e)
        | inr a ↦ elim (Bool-cases (event.stage == "launch")) [
          | inl e ↦ launch (==→≡ event.stage "launch" e)
          | inr b ↦ elim (Bool-cases (event.stage == "prompt")) [
            | inl e ↦ prompt (==→≡ event.stage "prompt" e)
            | inr c ↦ elim (Bool-cases (event.stage == "close_pane")) [
              | inl e ↦ close (==→≡ event.stage "close_pane" e)
              | inr d ↦
                  let blank : last_outcome last event.stage ≡ "" = rw (a, b, c, d) refl in
                  absurd (==-false (last_outcome last event.stage) "" named blank)
            ]
          ]
        ]
      ]

  -- The loop's map holds the outcome of the latest event of each stage.
  replay-latest :
      (stage : String) (prior : Prior) (last final : Last) (events : List AgentLifecycleStage)
      → Known stage
      → replay_stages starting stopping prior last events ≡ some final
      → last_outcome final stage ≡ latest stage (last_outcome last stage) events
  unfolding latest replay_stages
  replay-latest stage prior last final [] k h = let e : last ≡ final = cc (h) in rw e refl
  replay-latest stage prior last final (event ∷ events) k h =
      let (v, h') = replay-head prior last final event events h in
      replay-latest stage (event ∷ prior) _ final events k h'
      ∙ ap (λ o. latest stage o events)
          (set-look stage event.stage event.outcome last k (valid_event-Known prior last event v))

agreeing :
    (r : AgentLifecycleReceipt) (o : Option Last)
    → agrees_with r o ≡ true
    → (final : Last) × (o ≡ some final) × (agrees_with r (some final) ≡ true)
unfolding agrees_with
agreeing r none h = cc
agreeing r (some final) h = (final, refl, h)

receipt-replayed :
    (wire : Wire) (r : AgentLifecycleReceipt) (command : Command)
    → validate_lifecycle_receipt wire r command ≡ true
    → (final : Last) × (replay_stages
          (is_some command.agent_start)
          (is_some command.agent_stop)
          []
          none_attempted
          r.stages
        ≡ some final)
      × (agrees_with r (some final) ≡ true)
unfolding validate_lifecycle_receipt
receipt-replayed wire r command v =
    agreeing r
      (replay_stages (is_some command.agent_start) (is_some command.agent_stop) [] none_attempted
        r.stages)
      (ground arith)

-- A valid receipt records at most one intent for each stage.
pub validate_lifecycle_receipt-intents :
    (wire : Wire) (r : AgentLifecycleReceipt) (command : Command) (stage : String)
    → validate_lifecycle_receipt wire r command ≡ true
    → intents stage r.stages ≤ 1
validate_lifecycle_receipt-intents wire r command stage v =
    let (final, e, _) = receipt-replayed wire r command v in
    replay-intents (is_some command.agent_start) (is_some command.agent_stop) stage []
      none_attempted final r.stages e

-- The four summaries of a valid receipt are the outcomes of the latest events of the four stages,
-- and a stage without an event was not attempted.
pub validate_lifecycle_receipt-latest :
    (wire : Wire) (r : AgentLifecycleReceipt) (command : Command)
    → validate_lifecycle_receipt wire r command ≡ true
    → (r.pane_outcome ≡ latest "create_pane" "not_attempted" r.stages)
      × (r.launch_outcome ≡ latest "launch" "not_attempted" r.stages)
      × (r.prompt_outcome ≡ latest "prompt" "not_attempted" r.stages)
      × (r.stop_outcome ≡ latest "close_pane" "not_attempted" r.stages)
unfolding agrees_with last_outcome
validate_lifecycle_receipt-latest wire r command v =
    let (final, e, agrees) = receipt-replayed wire r command v in
    let at_end = λ (stage : String) (k : Known stage).
      replay-latest (is_some command.agent_start) (is_some command.agent_stop) stage []
        none_attempted final r.stages k e in
    (
      ==→≡ r.pane_outcome final.create_pane (ground arith) ∙ at_end "create_pane" (pane refl),
      ==→≡ r.launch_outcome final.launch (ground arith) ∙ at_end "launch" (launch refl),
      ==→≡ r.prompt_outcome final.prompt (ground arith) ∙ at_end "prompt" (prompt refl),
      ==→≡ r.stop_outcome final.close_pane (ground arith) ∙ at_end "close_pane" (close refl),
    )
