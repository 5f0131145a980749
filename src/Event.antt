-- ===== src/Event.antt =====
-- internal/evalevent/event.go: the wire types of the evaluation event protocol, and the errors of
-- the package. A `uint64` is a number below 2^64 with its wrap-around written out; a Go string type
-- with named constants is a data type with those constants and `other` for any other string.
pub mod Validate
use skill_up.Base.{ℕ, ◌+◌, ◌-◌, ◌%◌, Bool, true, false, Option, List, Str}

abbrev pub u64_mod : ℕ
u64_mod = 18446744073709551616

-- `a + b` and `a - b` on `uint64`.
abbrev pub add_u64 : ℕ → ℕ → ℕ
add_u64 a b = (a + b) % u64_mod

abbrev pub sub_u64 : ℕ → ℕ → ℕ
sub_u64 a b = (a + u64_mod - b) % u64_mod

abbrev pub protocol_version_current : ℕ
protocol_version_current = 1

abbrev pub max_safe_integer : ℕ
max_safe_integer = 9007199254740991

abbrev pub event_version_v1 : ℕ
event_version_v1 = 1

pub data EventType : Type 0 where
  run_started : EventType
  run_progress : EventType
  iteration_started : EventType
  case_started : EventType
  case_completed : EventType
  iteration_completed : EventType
  run_finished : EventType

pub data Configuration : Type 0 where
  with_skill : Configuration
  without_skill : Configuration
  other : Str → Configuration

pub data CaseStatus : Type 0 where
  pass : CaseStatus
  fail : CaseStatus
  error : CaseStatus
  skip : CaseStatus
  other : Str → CaseStatus

pub data RunStatus : Type 0 where
  completed : RunStatus
  error : RunStatus
  cancelled : RunStatus
  other : Str → RunStatus

pub data RunPhase : Type 0 where
  preparing : RunPhase
  executing : RunPhase
  finalizing : RunPhase
  other : Str → RunPhase

-- A `float64`: not a number, an infinity with its sign, or a finite value, which is a sign and a
-- fraction `num / den`. (Every finite double is such a fraction.)
pub data Float64 : Type 0 where
  nan : Float64
  inf : Bool → Float64
  finite : Bool → ℕ → ℕ → Float64

-- The names of fields in messages.
pub data Field : Type 0 where
  engine skill_name task_total iterations_total passed failed errored skipped : Field
  completed_tasks running_tasks elapsed_ms iteration task_id case_id task_index title : Field
  duration_ms invocation_completed_tasks : Field

pub record ResultCounts : Type 0 where
  pub passed : ℕ
  pub failed : ℕ
  pub errored : ℕ
  pub skipped : ℕ

pub record RunStartedPayload : Type 0 where
  pub engine : Str
  pub skill_name : Str
  pub task_total : ℕ
  pub iterations_total : ℕ

pub record RunProgressPayload : Type 0 where
  pub counts : ResultCounts
  pub phase : RunPhase
  pub task_total : ℕ
  pub completed_tasks : ℕ
  pub running_tasks : ℕ
  pub elapsed_ms : ℕ

pub record TaskFields : Type 0 where
  pub task_id : Str
  pub iteration : ℕ
  pub case_id : Str
  pub configuration : Configuration
  pub task_index : ℕ
  pub task_total : ℕ
  pub title : Str

pub record CaseCompletedPayload : Type 0 where
  pub fields : TaskFields
  pub completed_tasks : ℕ
  pub status : CaseStatus
  pub pass_rate : Option Float64
  pub duration_ms : ℕ

pub record IterationCompletedPayload : Type 0 where
  pub counts : ResultCounts
  pub iteration : ℕ
  pub invocation_completed_tasks : ℕ
  pub duration_ms : ℕ

pub record RunFinishedPayload : Type 0 where
  pub counts : ResultCounts
  pub status : RunStatus
  pub completed_tasks : ℕ
  pub duration_ms : ℕ

-- The sealed interface `Payload`, with its seven implementations.
pub data Payload : Type 0 where
  run_started : RunStartedPayload → Payload
  run_progress : RunProgressPayload → Payload
  iteration_started : ℕ → Payload
  case_started : TaskFields → Payload
  case_completed : CaseCompletedPayload → Payload
  iteration_completed : IterationCompletedPayload → Payload
  run_finished : RunFinishedPayload → Payload

pub record Event : Type 0 where
  pub protocol_version : ℕ
  pub event_version : ℕ
  pub sequence_number : ℕ
  pub invocation_id : Str
  pub time : ℕ
  pub type : EventType
  pub last_event : Bool
  pub attributes : List (Str × Str)
  pub payload : Payload

-- The `error` values of the package, by the place that makes them; `external` is an error of code
-- outside it, such as a sink's or a cancelled context's, with its text.
pub data Err : Type 0 where
  external : Str → Err
  join : Err → Err → Err
  must_not_be_empty invalid_utf8 below_one exceeds_safe : Field → Err
  count_sum_exceeds completed_ne_sum running_exceeds_total index_exceeds_total : Err
  completed_exceeds_total bad_pass_rate : Err
  invalid_configuration : Configuration → Err
  invalid_case_status : CaseStatus → Err
  invalid_run_status : RunStatus → Err
  invalid_phase : RunPhase → Err
  nil_sink too_many_attributes attributes_too_large : Err
  invalid_attribute_key reserved_attribute_key empty_attribute long_attribute : Str → Err
  invalid_invocation_id : Err → Err
  publisher_closed already_finalized nil_payload sequence_exceeds : Err
  invalid_payload publish_failed : EventType → Err → Err
  close_failed : Err → Err
  nil_publisher negative_interval nil_dereference inconsistent_plan : Err
  empty_plan bad_task_total : Err
  empty_iteration duplicate_iteration unknown_iteration : ℕ → Err
  wrong_iteration bad_configuration bad_index duplicate_task_id unknown_task : Str → Err
  duplicate_index missing_index : ℕ → Err
  already_started not_started already_finished : Err
  not_executing : RunPhase → Err
  finalizing_is_owned : Err
  not_forward : RunPhase → RunPhase → Err
  iteration_already_started iteration_not_active iteration_not_running : ℕ → Err
  iteration_unfinished : ℕ → Err
  task_already_started task_not_running : Str → Err
  completed_run_short : ℕ → ℕ → Err
  completed_run_iteration : ℕ → Err
