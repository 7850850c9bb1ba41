-- ===== src/Protocol/Messages/Basic.antt =====
-- Enums, times and actors.
use native.Mathlib.Decide.{ℕ_discrete}
use herdr_distributed_mesh.Prelude.{
  ℕ, String, Bool, ◌+◌, ◌*◌, ◌/◌, ◌%◌, ◌&&◌, true, ◌≡◌, ◌↔◌, arith, ltb, leb, nat_beq, Eq, eq_by,
  String_discrete,
}

pub data Role : Type 0 where
  role_unspecified role_node role_controller role_observer : Role

pub data ActorOrigin : Type 0 where
  origin_unspecified origin_human origin_agent origin_system : ActorOrigin

pub data CommandStatus : Type 0 where
  unspecified accepted running succeeded failed timed_out rejected indeterminate unavailable :
      CommandStatus

pub data AgentControlAction : Type 0 where
  action_unspecified prompt input interrupt : AgentControlAction

-- google.protobuf.Timestamp. Its seconds are counted from year 1, where the valid range begins, so
-- that they are natural; a negative count, which CheckValid refuses, is not represented.
pub record Timestamp : Type 0 where
  pub seconds : ℕ
  pub nanos : ℕ
  pub unknown : Bool

-- google.protobuf.Duration. A negative one, which `validTTL` refuses, is not represented.
pub record Duration : Type 0 where
  pub seconds : ℕ
  pub nanos : ℕ
  pub unknown : Bool

abbrev pub second : ℕ
second = 1_000_000_000

abbrev pub millisecond : ℕ
millisecond = 1_000_000

-- `CheckValid` of a Timestamp: years 1 to 9999.
abbrev pub check_valid : Timestamp → Bool
check_valid t = ltb t.seconds 315_537_897_600 && ltb t.nanos second

-- `CheckValid` of a Duration: about 10,000 years.
abbrev pub check_duration : Duration → Bool
check_duration d = leb d.seconds 315_576_000_000 && ltb d.nanos second

-- `AsTime` and `AsDuration`; a `time.Time` is its nanoseconds since year 1.
abbrev pub as_time : Timestamp → ℕ
as_time t = t.seconds * second + t.nanos

abbrev pub as_duration : Duration → ℕ
as_duration d = d.seconds * second + d.nanos

-- timestamppb.New
abbrev pub timestamp : ℕ → Timestamp
timestamp now = record { seconds = now / second; nanos = now % second; unknown = Bool.false }

pub record Actor : Type 0 where
  pub actor_id : String
  pub role : Role
  pub origin : ActorOrigin
  pub hop_count : ℕ
  pub unknown : Bool

unfoldable pub Timestamp-discrete : Discrete Timestamp
unfolding ℕ_discrete
Timestamp-discrete = hlevel ℕ_discrete

unfoldable pub Duration-discrete : Discrete Duration
unfolding ℕ_discrete
Duration-discrete = hlevel ℕ_discrete

unfoldable pub Actor-discrete : Discrete Actor
unfolding ℕ_discrete String_discrete
Actor-discrete = hlevel (ℕ_discrete, String_discrete)

instance abbrev pub timestamp_eq : Eq Timestamp
timestamp_eq = eq_by Timestamp-discrete

-- The numbers of the enums' values, by which they are compared.
abbrev pub status_number : CommandStatus → ℕ
status_number unspecified = 0
status_number accepted = 1
status_number running = 2
status_number succeeded = 3
status_number failed = 4
status_number timed_out = 5
status_number rejected = 6
status_number indeterminate = 7
status_number unavailable = 8

abbrev pub action_number : AgentControlAction → ℕ
action_number action_unspecified = 0
action_number prompt = 1
action_number input = 2
action_number interrupt = 3

abbrev pub status_beq : CommandStatus → CommandStatus → Bool
status_beq a b = nat_beq (status_number a) (status_number b)

abbrev pub action_beq : AgentControlAction → AgentControlAction → Bool
action_beq a b = nat_beq (action_number a) (action_number b)

pub status_beq_iff : (a b : CommandStatus) → (status_beq a b ≡ true) ↔ (a ≡ b)
status_beq_iff a b = ground arith

pub action_beq_iff : (a b : AgentControlAction) → (action_beq a b ≡ true) ↔ (a ≡ b)
action_beq_iff a b = ground arith

instance abbrev pub status_eq : Eq CommandStatus
status_eq = record { beq = status_beq; reflects = status_beq_iff }

instance abbrev pub action_eq : Eq AgentControlAction
action_eq = record { beq = action_beq; reflects = action_beq_iff }

unfoldable pub CommandStatus-discrete : Discrete CommandStatus
CommandStatus-discrete = hlevel

unfoldable pub AgentControlAction-discrete : Discrete AgentControlAction
AgentControlAction-discrete = hlevel

unfoldable pub Role-discrete : Discrete Role
Role-discrete = hlevel

unfoldable pub ActorOrigin-discrete : Discrete ActorOrigin
ActorOrigin-discrete = hlevel

instance abbrev pub role_eq : Eq Role
role_eq = eq_by Role-discrete

instance abbrev pub origin_eq : Eq ActorOrigin
origin_eq = eq_by ActorOrigin-discrete
