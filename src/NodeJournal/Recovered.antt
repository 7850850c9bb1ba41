-- ===== src/NodeJournal/Recovered.antt =====
-- The result that a node reports of an interrupted start or stop, against ValidateLifecycleResult.
use herdr_distributed_mesh.Prelude.{
  nat_eq, string_eq, option_eq, ◌≡◌, refl, true, false, not, ◌&&◌, ◌||◌, Option, is_some, String,
  ◌==◌, ==→≡, ==-refl, Bool-cases, inl, inr, arith,
}
use herdr_distributed_mesh.Protocol.Lifecycle.{is_lifecycle_command, valid_lifecycle_detail}
use herdr_distributed_mesh.Protocol.Lifecycle.Advance.{
  valid_receipt_of, claims_success, is_succeeded, supports_status, lifecycle_complete,
  lifecycle_has_unknown, lifecycle_has_effect, validate_lifecycle_result,
}
use herdr_distributed_mesh.Protocol.Commands.{session_ensure_command_type}
use herdr_distributed_mesh.Protocol.Messages.{
  status_eq, AgentLifecycleReceipt, Command, CommandStatus, succeeded, failed, rejected,
  indeterminate, Wire,
}
use herdr_distributed_mesh.NodeJournal.{
  plain_result, interrupted_node_result, interrupted_command_result, judged_result,
}

-- A start or stop is not a session's start.
interrupted-lifecycle :
    (command : Command)
    → is_lifecycle_command command.command_type ≡ true
    → interrupted_command_result command ≡ interrupted_node_result command.command_id
unfolding interrupted_command_result is_lifecycle_command
interrupted-lifecycle command kind =
    elim (Bool-cases (command.command_type == session_ensure_command_type)) [
      | inl e ↦
          let this = ==→≡ command.command_type session_ensure_command_type e in
          let wrong : false ≡ true = rw this at kind in cc (wrong)
      | inr n ↦ rw n refl
    ]

-- A result with no data but a receipt is as valid as its detail and its status.
bare-valid :
    (wire : Wire) (command : Command) (receipt : Option AgentLifecycleReceipt)
    (status : CommandStatus) (detail : String)
    → valid_receipt_of wire receipt command ≡ true
    → valid_lifecycle_detail detail ≡ true
    → (not (is_succeeded status) && claims_success detail) ≡ false
    → supports_status status detail receipt command ≡ true
    → validate_lifecycle_result wire
        (record (plain_result command.command_id status detail) { agent_lifecycle = receipt })
        command
      ≡ true
unfolding validate_lifecycle_result
bare-valid wire command receipt status detail v d c s =
    rw (==-refl command.command_id, v, d, c, s) refl

-- For a command of a lifecycle type that carries a start or a stop, the result that a restarted
-- node judges from its checkpoint, if there is one and it is valid, is valid for the command.
pub judged_result-valid :
    (wire : Wire) (command : Command) (receipt : Option AgentLifecycleReceipt)
    → is_lifecycle_command command.command_type ≡ true
    → (is_some command.agent_start || is_some command.agent_stop) ≡ true
    → valid_receipt_of wire receipt command ≡ true
    → validate_lifecycle_result wire
        (judged_result
          (record (interrupted_command_result command) { agent_lifecycle = receipt })
          receipt
          command)
        command
      ≡ true
unfolding judged_result interrupted_node_result
judged_result-valid wire command receipt kind body valid =
    rw (interrupted-lifecycle command kind)
      (elim (Bool-cases (lifecycle_complete receipt command)) [
        | inl whole ↦ rw whole (elim (Bool-cases (is_some command.agent_stop)) [
          | inl stops ↦ rw stops (
              bare-valid wire command receipt succeeded "agent_stopped" valid
                (unfold valid_lifecycle_detail in refl) refl
                (unfold supports_status in ground arith))
          | inr starts ↦ rw starts (
              bare-valid wire command receipt succeeded "agent_started" valid
                (unfold valid_lifecycle_detail in refl) refl
                (unfold supports_status in ground arith))
        ])
        | inr partial ↦ rw partial (elim (Bool-cases (lifecycle_has_unknown receipt)) [
          | inl open_ ↦ rw open_ (
              bare-valid wire command receipt indeterminate "lifecycle_uncertain" valid
                (unfold valid_lifecycle_detail in refl) refl
                (unfold supports_status in ground arith))
          | inr known ↦ rw known (elim (Bool-cases (lifecycle_has_effect receipt)) [
            | inl some_ ↦ rw some_ (
                bare-valid wire command receipt failed "lifecycle_partial" valid
                  (unfold valid_lifecycle_detail in refl) refl
                  (unfold supports_status in ground arith))
            | inr nothing ↦ rw nothing (
                bare-valid wire command receipt rejected "node_restarted" valid
                  (unfold valid_lifecycle_detail in refl) refl
                  (unfold supports_status in ground arith))
          ])
        ])
      ])
