-- ===== src/Examples/Witnesses.antt =====
-- The theorems of the modules, each at an input where its conditions hold.
use herdr_distributed_mesh.Prelude.{
  ◌≡◌, ◌≢◌, ◌≤◌, ◌<◌, ◌+◌, refl, ap, true, false, none, arith, some, none, List, [], ◌∷◌, All, map,
}
use herdr_distributed_mesh.Errors.{ok}
use herdr_distributed_mesh.Protocol.Messages.{
  CommandRecord, running, accepted, unavailable, succeeded, failed, second,
}
use herdr_distributed_mesh.Protocol.Negotiation.{ProtocolRange, negotiate_with}
use herdr_distributed_mesh.Protocol.Negotiation.Greatest.{
  IsCommon, negotiate_with-greatest, negotiate_with-agrees,
}
use herdr_distributed_mesh.Protocol.Lifecycle.Evidence.{
  intents, latest, validate_lifecycle_receipt-intents, validate_lifecycle_receipt-latest,
}
use herdr_distributed_mesh.Journal.Store.Operations.{dispatch_command}
use herdr_distributed_mesh.Journal.Store.Sweeps.{
  recover_commands, lose_node_commands, change_active_commands, is_pending,
}
use herdr_distributed_mesh.Journal.Outcomes.{valid_command_transition}
use herdr_distributed_mesh.Journal.Evolution.{conclusive_last}
use herdr_distributed_mesh.Journal.Steps.{Grows, Holds}
use herdr_distributed_mesh.Journal.Methods.{Call, dispatch, recover, expire, run, run-Grows}
use herdr_distributed_mesh.Journal.Dispatch.{dispatch_command-granted_once, dispatch_command-timely}
use herdr_distributed_mesh.Journal.Sweeping.{swept_row, change_active_commands-mapped}
use herdr_distributed_mesh.Journal.Records.{time_of}
use herdr_distributed_mesh.Journal.Recovery.{
  restart, waits_for, recover_commands-restart, lose_node_commands-released,
}
use herdr_distributed_mesh.Examples.Pings.{
  wire, noon, late, ping, journal, running_ping, journal-IsSound, ping-dispatched, ping-swept,
}
use herdr_distributed_mesh.Protocol.Lifecycle.{is_lifecycle_command}
use herdr_distributed_mesh.Protocol.Lifecycle.Advance.{validate_lifecycle_result}
use herdr_distributed_mesh.NodeJournal.{judged_result, interrupted_command_result}
use herdr_distributed_mesh.NodeJournal.Recovered.{judged_result-valid}
use herdr_distributed_mesh.NodeJournal.Methods.{claim}
use herdr_distributed_mesh.NodeJournal.Retention.{Retains}
use herdr_distributed_mesh.NodeJournal.Claims.{
  claims, recovers, run_node, run_node-Retains, claim-granted_once,
}
use herdr_distributed_mesh.Examples.NodePings.{idle, busy, ping-claimed}
use herdr_distributed_mesh.Examples.Receipts.{stop_agent, closed, closed-valid}

abbrev dispatched_then_restarted : List Call
dispatched_then_restarted = dispatch "node-1" ping.command_id (noon + second) ∷ recover late ∷ []

run-Grows_example : Grows wire journal (run wire dispatched_then_restarted journal)
run-Grows_example = run-Grows wire dispatched_then_restarted journal journal-IsSound

granted_once_example :
    (dispatch_command wire "node-2" ping.command_id late (
      run wire
        (expire late ∷ [])
        (dispatch_command wire "node-1" ping.command_id (noon + second) journal).1)).0
    ≢ ok (running_ping, true)
granted_once_example =
    dispatch_command-granted_once wire "node-1" "node-2" ping.command_id (noon + second) late
      journal running_ping running_ping (expire late ∷ []) journal-IsSound
      (ap (λ x. x.0) ping-dispatched)

restart_example : (recover_commands wire late journal).1 ≡ record journal {
  commands = map (λ row. restart late row row.payload.status) journal.commands;
}
restart_example = recover_commands-restart wire late journal journal-IsSound ping-swept.0

released_example :
    All
      (λ row. waits_for "node-1" row ≡ false)
      (lose_node_commands wire "node-1" late journal).1.commands
released_example =
    lose_node_commands-released wire "node-1" late journal journal-IsSound ping-swept.2

conclusive_example : valid_command_transition "node.ping.v1" succeeded failed "pong" ≡ false
conclusive_example = conclusive_last "node.ping.v1" succeeded failed "pong" refl

intents_example : intents "close_pane" closed.stages ≤ 1
intents_example =
    validate_lifecycle_receipt-intents wire closed stop_agent "close_pane" closed-valid

latest_example :
    (closed.pane_outcome ≡ latest "create_pane" "not_attempted" closed.stages)
    × (closed.launch_outcome ≡ latest "launch" "not_attempted" closed.stages)
    × (closed.prompt_outcome ≡ latest "prompt" "not_attempted" closed.stages)
    × (closed.stop_outcome ≡ latest "close_pane" "not_attempted" closed.stages)
latest_example = validate_lifecycle_receipt-latest wire closed stop_agent closed-valid

abbrev peer : ProtocolRange
peer = record { minimum = 2; maximum = 5 }

greatest_example : IsCommon 1 4 peer 4 × ((w : _) → IsCommon 1 4 peer w → w ≤ 4)
greatest_example = negotiate_with-greatest 1 4 peer 4 (unfold negotiate_with in refl)

agrees_example : negotiate_with 1 4 peer ≡ some 4
agrees_example =
    negotiate_with-agrees 1 4 peer 3 (omega arith)
      (omega arith, omega arith, omega arith, omega arith)

claimed_example :
    (claim wire "node-1" ping
      (run_node (λ parts. "") wire "node-1" (recovers ∷ []) (claim wire "node-1" ping idle).1)).0
    ≢ ok (none, true)
claimed_example =
    claim-granted_once (λ parts. "") wire "node-1" ping ping idle none none (recovers ∷ []) refl
      (ap (λ x. x.0) ping-claimed)

node_run_example :
    Retains busy (run_node (λ parts. "") wire "node-1" (claims ping ∷ recovers ∷ []) busy)
node_run_example = run_node-Retains (λ parts. "") wire "node-1" (claims ping ∷ recovers ∷ []) busy

-- The node restarts after it closed the pane, before it reported.
judged_example :
    validate_lifecycle_result wire
      (judged_result
        (record (interrupted_command_result stop_agent) { agent_lifecycle = some closed })
        (some closed)
        stop_agent)
      stop_agent
    ≡ true
judged_example =
    judged_result-valid wire stop_agent (some closed) (unfold is_lifecycle_command in refl) refl
      closed-valid

timely_example :
    (r : CommandRecord) × Holds journal r
    × (r.command.command_id ≡ ping.command_id)
    × (r.status ≡ accepted)
    × (r.command.target_id ≡ "node-1")
    × (noon + second < time_of r.command.expires_at)
    × (running_ping.command ≡ r.command)
    × (running_ping.status ≡ running)
timely_example =
    dispatch_command-timely wire "node-1" ping.command_id (noon + second) journal running_ping
      (ap (λ x. x.0) ping-dispatched)

swept_example :
    (change_active_commands wire
      (λ row. is_pending row.status)
      unavailable
      "server_restarted"
      late
      journal).1
    ≡ record journal {
      commands =
          map
            (swept_row (λ row. is_pending row.status) unavailable "server_restarted" late)
            journal.commands;
    }
swept_example =
    change_active_commands-mapped wire (λ row. is_pending row.status) unavailable "server_restarted"
      late journal journal-IsSound (unfold recover_commands in ping-swept.0)
