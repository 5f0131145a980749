-- ===== src/Event/Validate.antt =====
-- internal/evalevent/event.go: the `valid` and `validate` methods. A `nil` error is `none`, and a
-- sequence of checks that each return their error is a `do` block.
use skill_up.Base.{
  ℕ, Bool, true, false, ◌||◌, not, Option, none, some, Str, is_empty, valid_string, ltb, ◌==◌,
}
use skill_up.Event.{
  add_u64, sub_u64, max_safe_integer, event_version_v1, EventType, Configuration, CaseStatus,
  RunStatus, RunPhase, Float64, Field, ResultCounts, RunStartedPayload, RunProgressPayload,
  TaskFields, CaseCompletedPayload, IterationCompletedPayload, RunFinishedPayload, Payload, Err,
  must_not_be_empty, invalid_utf8, below_one, exceeds_safe, count_sum_exceeds, completed_ne_sum,
  running_exceeds_total, index_exceeds_total, completed_exceeds_total, bad_pass_rate,
  invalid_configuration, invalid_case_status, invalid_run_status, invalid_phase,
}

infixl 5 ◌>>◌
abbrev pub ◌>>◌ : Option Err → Option Err → Option Err
none >> k = k
some e >> k = some e

-- `if !ok { return e }`.
abbrev pub require : Bool → Err → Option Err
require true e = none
require false e = some e

unfoldable pub configuration_valid : Configuration → Bool
configuration_valid Configuration.with_skill = true
configuration_valid Configuration.without_skill = true
configuration_valid (Configuration.other s) = false

unfoldable pub case_status_valid : CaseStatus → Bool
case_status_valid (CaseStatus.other s) = false
case_status_valid _ = true

unfoldable pub run_status_valid : RunStatus → Bool
run_status_valid (RunStatus.other s) = false
run_status_valid _ = true

unfoldable pub phase_valid : RunPhase → Bool
phase_valid (RunPhase.other s) = false
phase_valid _ = true

unfoldable pub validate_safe_integer : Field → ℕ → Option Err
validate_safe_integer name value = require (not (ltb max_safe_integer value)) (exceeds_safe name)

unfoldable pub validate_positive_integer : Field → ℕ → Option Err
unfolding validate_safe_integer
validate_positive_integer name value = do
  require (not (value == 0)) (below_one name)
  validate_safe_integer name value

unfoldable pub validate_string : Field → Str → Option Err
validate_string name value = require (valid_string value) (invalid_utf8 name)

unfoldable pub validate_non_empty_string : Field → Str → Option Err
unfolding validate_string
validate_non_empty_string name value = do
  require (not (is_empty value)) (must_not_be_empty name)
  validate_string name value

-- `math.IsNaN(v) || math.IsInf(v, 0) || v < 0 || v > 1` does not hold.
unfoldable pub pass_rate_valid : Float64 → Bool
pass_rate_valid Float64.nan = false
pass_rate_valid (Float64.inf negative) = false
pass_rate_valid (Float64.finite true num den) = num == 0
pass_rate_valid (Float64.finite false num den) = not (ltb den num)

unfoldable pub validate_pass_rate : Option Float64 → Option Err
unfolding pass_rate_valid
validate_pass_rate none = none
validate_pass_rate (some v) = require (pass_rate_valid v) bad_pass_rate

unfoldable pub counts_total : ResultCounts → ℕ
counts_total c = add_u64 (add_u64 (add_u64 c.passed c.failed) c.errored) c.skipped

-- The source ranges over a map to check the four counts, in no fixed order; here it is the order
-- of the fields.
unfoldable pub counts_validate : ResultCounts → Option Err
unfolding validate_safe_integer
counts_validate c = do
  validate_safe_integer Field.passed c.passed
  validate_safe_integer Field.failed c.failed
  validate_safe_integer Field.errored c.errored
  validate_safe_integer Field.skipped c.skipped
  require
      (not (
        ltb (sub_u64 max_safe_integer c.failed) c.passed
        || ltb (sub_u64 max_safe_integer c.errored) (add_u64 c.passed c.failed)
        || ltb (sub_u64 max_safe_integer c.skipped)
            (add_u64 (add_u64 c.passed c.failed) c.errored)))
      count_sum_exceeds

unfoldable pub run_started_validate : RunStartedPayload → Option Err
unfolding validate_non_empty_string validate_positive_integer
run_started_validate p = do
  validate_non_empty_string Field.engine p.engine
  validate_non_empty_string Field.skill_name p.skill_name
  validate_positive_integer Field.task_total p.task_total
  validate_positive_integer Field.iterations_total p.iterations_total

unfoldable pub run_progress_validate : RunProgressPayload → Option Err
unfolding phase_valid validate_positive_integer validate_safe_integer counts_validate counts_total
run_progress_validate p = do
  require (phase_valid p.phase) (invalid_phase p.phase)
  validate_positive_integer Field.task_total p.task_total
  validate_safe_integer Field.completed_tasks p.completed_tasks
  validate_safe_integer Field.running_tasks p.running_tasks
  validate_safe_integer Field.elapsed_ms p.elapsed_ms
  counts_validate p.counts
  require (p.completed_tasks == counts_total p.counts) completed_ne_sum
  require
      (not (
        ltb p.task_total p.completed_tasks
        || ltb (sub_u64 p.task_total p.completed_tasks) p.running_tasks))
      running_exceeds_total

unfoldable pub task_fields_validate : TaskFields → Option Err
unfolding validate_non_empty_string validate_positive_integer configuration_valid validate_string
task_fields_validate f = do
  validate_non_empty_string Field.task_id f.task_id
  validate_positive_integer Field.iteration f.iteration
  validate_non_empty_string Field.case_id f.case_id
  require (configuration_valid f.configuration) (invalid_configuration f.configuration)
  validate_positive_integer Field.task_total f.task_total
  validate_positive_integer Field.task_index f.task_index
  require (not (ltb f.task_total f.task_index)) index_exceeds_total
  validate_string Field.title f.title

unfoldable pub case_completed_validate : CaseCompletedPayload → Option Err
unfolding task_fields_validate validate_safe_integer case_status_valid validate_pass_rate
case_completed_validate p = do
  task_fields_validate p.fields
  validate_safe_integer Field.completed_tasks p.completed_tasks
  require (not (ltb p.fields.task_total p.completed_tasks)) completed_exceeds_total
  require (case_status_valid p.status) (invalid_case_status p.status)
  validate_pass_rate p.pass_rate
  validate_safe_integer Field.duration_ms p.duration_ms

unfoldable pub iteration_completed_validate : IterationCompletedPayload → Option Err
unfolding validate_positive_integer validate_safe_integer counts_validate
iteration_completed_validate p = do
  validate_positive_integer Field.iteration p.iteration
  validate_safe_integer Field.invocation_completed_tasks p.invocation_completed_tasks
  counts_validate p.counts
  validate_safe_integer Field.duration_ms p.duration_ms

unfoldable pub run_finished_validate : RunFinishedPayload → Option Err
unfolding run_status_valid validate_safe_integer counts_validate counts_total
run_finished_validate p = do
  require (run_status_valid p.status) (invalid_run_status p.status)
  validate_safe_integer Field.completed_tasks p.completed_tasks
  counts_validate p.counts
  require (p.completed_tasks == counts_total p.counts) completed_ne_sum
  validate_safe_integer Field.duration_ms p.duration_ms

unfoldable pub validate : Payload → Option Err
validate (Payload.run_started p) = run_started_validate p
validate (Payload.run_progress p) = run_progress_validate p
validate (Payload.iteration_started n) = validate_positive_integer Field.iteration n
validate (Payload.case_started f) = task_fields_validate f
validate (Payload.case_completed p) = case_completed_validate p
validate (Payload.iteration_completed p) = iteration_completed_validate p
validate (Payload.run_finished p) = run_finished_validate p

unfoldable pub event_type : Payload → EventType
event_type (Payload.run_started p) = EventType.run_started
event_type (Payload.run_progress p) = EventType.run_progress
event_type (Payload.iteration_started n) = EventType.iteration_started
event_type (Payload.case_started f) = EventType.case_started
event_type (Payload.case_completed p) = EventType.case_completed
event_type (Payload.iteration_completed p) = EventType.iteration_completed
event_type (Payload.run_finished p) = EventType.run_finished

-- Every payload has the same version.
unfoldable pub event_version : Payload → ℕ
event_version p = event_version_v1

-- A copy of the payload that shares no memory with it: the same value.
unfoldable pub snapshot : Payload → Payload
snapshot p = p
