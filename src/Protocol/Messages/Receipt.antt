-- ===== src/Protocol/Messages/Receipt.antt =====
-- The durable evidence of an agent's start or stop.
use native.Mathlib.Decide.{ℕ_discrete}
use herdr_distributed_mesh.Prelude.{ℕ, String, Bool, Option, List, Eq, eq_by, String_discrete}
use herdr_distributed_mesh.Protocol.Messages.Actions.{AgentTarget, AgentTarget-discrete}

pub record AgentLifecycleHandle : Type 0 where
  pub target : Option AgentTarget
  pub workspace_id : String
  pub tab_id : String
  pub provider : String
  pub unknown : Bool

pub record AgentLifecycleStage : Type 0 where
  pub stage : String
  pub before : Bool
  pub outcome : String
  pub unknown : Bool

pub record AgentLifecycleReceipt : Type 0 where
  pub handle : Option AgentLifecycleHandle
  pub pane_outcome : String
  pub launch_outcome : String
  pub prompt_outcome : String
  pub stop_outcome : String
  pub observed_status : String
  pub sequence : ℕ
  pub stages : List AgentLifecycleStage
  pub unknown : Bool

unfoldable pub AgentLifecycleHandle-discrete : Discrete AgentLifecycleHandle
unfolding String_discrete AgentTarget-discrete
AgentLifecycleHandle-discrete = hlevel (String_discrete, AgentTarget-discrete)

unfoldable pub AgentLifecycleStage-discrete : Discrete AgentLifecycleStage
unfolding String_discrete
AgentLifecycleStage-discrete = hlevel String_discrete

unfoldable pub AgentLifecycleReceipt-discrete : Discrete AgentLifecycleReceipt
unfolding ℕ_discrete String_discrete AgentLifecycleHandle-discrete AgentLifecycleStage-discrete
AgentLifecycleReceipt-discrete =
    hlevel
      (ℕ_discrete, String_discrete, AgentLifecycleHandle-discrete, AgentLifecycleStage-discrete)

instance abbrev pub stage_eq : Eq AgentLifecycleStage
stage_eq = eq_by AgentLifecycleStage-discrete

instance abbrev pub receipt_eq : Eq AgentLifecycleReceipt
receipt_eq = eq_by AgentLifecycleReceipt-discrete
