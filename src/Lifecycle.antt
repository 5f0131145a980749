-- ===== src/Lifecycle.antt =====
-- internal/evalevent/lifecycle.go: `Lifecycle`. Each exported method holds the mutex from its first
-- read to its return, so it is one step: a function from the old state to the new one and the
-- error that it returns. All that a method checks comes before all that it changes.
pub mod State
pub mod Planning
pub mod Invariant
pub mod Begin
pub mod Complete
pub mod Rest
pub mod Calls
pub mod Keeps
pub mod Snapshots
pub mod Payloads
pub mod Errors
pub mod Sound
pub mod Safe
pub mod Started
pub mod Defects
pub mod Finality
pub mod Heartbeat
pub mod Order
pub mod Tests
use skill_up.Base.{
  ℕ, zero, suc, ◌+◌, Bool, true, false, not, ◌&&◌, ◌||◌, Option, none, some, List, [], ◌∷◌, Str,
  length, ltb, leb, ◌==◌, if◌then◌else◌, lookup, str_key, nat_key, Result, ok, err,
}
use skill_up.Base.Int.{ℤ, pos, negsuc}
use skill_up.Base.Results
use skill_up.Event.{
  CaseStatus, RunStatus, RunPhase, Float64, Field, RunProgressPayload, TaskFields, Payload, Err,
  nil_publisher, negative_interval, nil_dereference, unknown_iteration, unknown_task,
  already_started, not_started, already_finished, not_executing, finalizing_is_owned, not_forward,
  invalid_phase, invalid_case_status, invalid_run_status, iteration_already_started,
  iteration_not_active, iteration_not_running, iteration_unfinished, task_already_started,
  task_not_running, completed_run_short, completed_run_iteration,
}
use skill_up.Event.Validate.{
  ◌>>◌, require, phase_valid, case_status_valid, run_status_valid, validate_non_empty_string,
  validate_pass_rate,
}
use skill_up.Publisher.{Ctx, Publisher, publish, publish_last, get_or}
use State.{
  Task, Plan, LifecycleTask, LifecycleIteration, Progress, zero_counts, phase_rank, elapsed_ms,
  begin_run, begin_iteration, begin_task, complete_task, complete_iteration, finish_run,
}
use Planning.{snapshot_plan}

-- `clock` gives the clock's successive answers. Of the heartbeat's two channels and its flag the
-- state says whether they are closed and set; its ticker is a source of calls of `heartbeat`.
pub record Lifecycle : Type 0 where
  pub publisher : Publisher
  pub clock : ℕ → ℕ
  pub clock_reads : ℕ
  pub interval : ℤ
  pub progress : Progress
  pub open progress use *
  pub heartbeat_stop : Bool
  pub heartbeat_done : Bool
  pub heartbeat_started : Bool

pub record LifecycleOptions : Type 0 where
  pub clock : Option (ℕ → ℕ)
  pub heartbeat_interval : ℤ

-- 30 seconds, in nanoseconds.
abbrev pub default_heartbeat_interval : ℤ
default_heartbeat_interval = pos 30000000000

unfoldable pub resolve_interval : ℤ → Result Err ℤ
resolve_interval (pos zero) = ok default_heartbeat_interval
resolve_interval (pos (suc n)) = ok (pos (suc n))
resolve_interval (negsuc n) = err negative_interval

unfoldable pub require_publisher : Option Publisher → Result Err Publisher
require_publisher none = err nil_publisher
require_publisher (some p) = ok p

abbrev pub fresh_lifecycle : Publisher → (ℕ → ℕ) → ℤ → Planning.Snapshot → ℕ → Lifecycle
fresh_lifecycle publisher clock interval s task_total = record {
  publisher = publisher;
  clock = clock;
  clock_reads = 0;
  interval = interval;
  progress = record {
    tasks = s.tasks;
    iterations = s.iterations;
    task_total = task_total;
    started = false;
    finished = false;
    phase = RunPhase.other [];
    run_started_at = 0;
    completed = 0;
    result_counts = zero_counts;
    active_task_ids = [];
  };
  heartbeat_stop = false;
  heartbeat_done = false;
  heartbeat_started = false;
}

-- `system_clock` is `time.Now`.
unfoldable pub new_lifecycle :
    (ℕ → ℕ) → Option Publisher → Plan → LifecycleOptions → Result Err Lifecycle
unfolding require_publisher resolve_interval
new_lifecycle system_clock publisher plan opts = Results.◌>>=◌ (require_publisher publisher) λ p.
    Results.◌>>=◌ (snapshot_plan plan) λ planned.
      Results.◌>>=◌ (resolve_interval opts.heartbeat_interval) λ interval.
        ok (fresh_lifecycle p (get_or opts.clock system_clock) interval planned.0 planned.1)

-- What a method returns: the state that it leaves, and its error.
abbrev pub Outcome : Type 0
Outcome = Lifecycle × Option Err

-- `if err := check; err != nil { return err }`, before anything is changed.
abbrev pub guarded : Option Err → Lifecycle → Outcome → Outcome
guarded none l r = r
guarded (some e) l r = (l, some e)

-- `if err := m(); err != nil { return err }; return k()`.
infixl 20 ◌▸◌
abbrev pub ◌▸◌ : Outcome → (Lifecycle → Outcome) → Outcome
(l, none) ▸ k = k l
(l, some e) ▸ k = (l, some e)

-- `l.clock.Now()`: its answer, and the state after the call.
abbrev pub now : Lifecycle → ℕ
now l = l.clock l.clock_reads

abbrev pub after_now : Lifecycle → Lifecycle
after_now l = record l { clock_reads = suc l.clock_reads }

abbrev pub with_progress : Lifecycle → Progress → Lifecycle
with_progress l s = record l { progress = s }

unfoldable pub task_fields : Progress → Task → TaskFields
task_fields s task = record {
  task_id = task.id;
  iteration = task.iteration;
  case_id = task.case_id;
  configuration = task.configuration;
  task_index = task.index;
  task_total = s.task_total;
  title = task.title;
}

unfoldable pub progress_payload : Progress → ℕ → RunProgressPayload
progress_payload s now = record {
  counts = s.result_counts;
  phase = s.phase;
  task_total = s.task_total;
  completed_tasks = s.completed;
  running_tasks = length s.active_task_ids;
  elapsed_ms = elapsed_ms s.run_started_at now;
}

-- `recordPublicationError`: the first error asks the heartbeat to stop.
unfoldable pub record_publication : Lifecycle → Publisher × Option Err → Outcome
record_publication l (p, none) = (record l { publisher = p }, none)
record_publication l (p, some e) = (record l { publisher = p; heartbeat_stop = true }, some e)

unfoldable pub publish_locked : Ctx → Payload → Lifecycle → Outcome
publish_locked ctx payload l = record_publication l (publish l.publisher ctx (some payload))

unfoldable pub publish_last_locked : Ctx → Payload → Lifecycle → Outcome
publish_last_locked ctx payload l =
    record_publication l (publish_last l.publisher ctx (some payload))

unfoldable pub publish_progress_locked : Ctx → Lifecycle → Outcome
publish_progress_locked ctx l =
    publish_locked ctx (Payload.run_progress (progress_payload l.progress (now l))) (after_now l)

unfoldable pub ensure_active : Progress → Option Err
ensure_active s = do require s.started not_started; require (not s.finished) already_finished

abbrev is_executing : RunPhase → Bool
is_executing RunPhase.executing = true
is_executing _ = false

unfoldable pub ensure_executing : Progress → Option Err
ensure_executing s = do ensure_active s; require (is_executing s.phase) (not_executing s.phase)

abbrev pub is_positive : ℤ → Bool
is_positive (pos n) = ltb 0 n
is_positive (negsuc n) = false

-- Without an interval there is no goroutine, and `heartbeatDone` is closed at once.
unfoldable pub start_heartbeat : Lifecycle → Lifecycle
start_heartbeat l =
    if is_positive l.interval
    then record l { heartbeat_started = true }
    else record l { heartbeat_done = true }

unfoldable pub check_start : Str → Str → Progress → Option Err
check_start engine skill_name s = do
  require (not s.started) already_started
  validate_non_empty_string Field.engine engine
  validate_non_empty_string Field.skill_name skill_name

-- The two publications of `Start`, behind the change that it makes.
unfoldable pub announce_run : Ctx → Str → Str → Lifecycle → Outcome
announce_run ctx engine skill_name l =
    publish_locked ctx
      (Payload.run_started (record {
        engine = engine;
        skill_name = skill_name;
        task_total = l.task_total;
        iterations_total = length l.iterations;
      }))
      (after_now (with_progress l (begin_run (now l) l.progress)))
    ▸ publish_progress_locked ctx

unfoldable pub start : Ctx → Str → Str → Lifecycle → Outcome
unfolding announce_run
start ctx engine skill_name l =
    guarded (check_start engine skill_name l.progress) l
      (announce_run ctx engine skill_name l ▸ λ l'. (start_heartbeat l', none))

abbrev is_finalizing : RunPhase → Bool
is_finalizing RunPhase.finalizing = true
is_finalizing _ = false

unfoldable pub check_phase : RunPhase → Progress → Option Err
check_phase phase s = do
  ensure_active s
  require (phase_valid phase) (invalid_phase phase)
  require (not (is_finalizing phase)) finalizing_is_owned
  require (ltb (phase_rank s.phase) (phase_rank phase)) (not_forward s.phase phase)

unfoldable pub set_phase : Ctx → RunPhase → Lifecycle → Outcome
set_phase ctx phase l =
    guarded (check_phase phase l.progress) l
      (publish_progress_locked ctx (with_progress l (record l.progress { phase = phase })))

unfoldable pub heartbeat : Ctx → Lifecycle → Outcome
heartbeat ctx l = guarded (ensure_active l.progress) l (publish_progress_locked ctx l)

-- The iteration of a number, and the task of an identifier, or the refusal.
abbrev pub with_iteration : ℕ → Lifecycle → (LifecycleIteration → Outcome) → Outcome
with_iteration number l k = elim (lookup number l.iterations) [
  | none ↦ (l, some (unknown_iteration number))
  | some it ↦ k it
]

abbrev pub with_task : Str → Lifecycle → (LifecycleTask → Outcome) → Outcome
with_task id l k = elim (lookup id l.tasks) [ none ↦ (l, some (unknown_task id)) | some t ↦ k t ]

-- `l.iterations[task.task.Iteration]`, whose `nil` the source dereferences: `nil_dereference`
-- stands for the panic.
abbrev pub with_iteration_of : LifecycleTask → Lifecycle → (LifecycleIteration → Outcome) → Outcome
with_iteration_of t l k = elim (lookup t.task.iteration l.iterations) [
  | none ↦ (l, some nil_dereference)
  | some it ↦ k it
]

unfoldable pub check_new_iteration : ℕ → LifecycleIteration → Option Err
check_new_iteration number it = require (not it.started) (iteration_already_started number)

unfoldable pub iteration_started : Ctx → ℕ → Lifecycle → Outcome
iteration_started ctx number l = guarded (ensure_executing l.progress) l (
    with_iteration number l λ it. guarded (check_new_iteration number it) l (
      publish_locked ctx (Payload.iteration_started number)
        (after_now (with_progress l (begin_iteration (now l) number it l.progress)))))

unfoldable pub check_new_task : Str → LifecycleTask → LifecycleIteration → Option Err
check_new_task id t it = do
  require (it.started && not it.completed) (iteration_not_active t.task.iteration)
  require (not t.started) (task_already_started id)

unfoldable pub case_started : Ctx → Str → Lifecycle → Outcome
case_started ctx id l = guarded (ensure_executing l.progress) l (
    with_task id l λ t. with_iteration_of t l λ it. guarded (check_new_task id t it) l (
      publish_locked ctx (Payload.case_started (task_fields l.progress t.task))
        (after_now (with_progress l (begin_task (now l) id t l.progress)))
      ▸ publish_progress_locked ctx))

unfoldable pub check_result : CaseStatus → Option Float64 → Progress → Option Err
check_result status pass_rate s = do
  ensure_executing s
  require (case_status_valid status) (invalid_case_status status)
  validate_pass_rate pass_rate

unfoldable pub check_running_task : Str → LifecycleTask → Option Err
check_running_task id t = require (t.started && not t.completed) (task_not_running id)

unfoldable pub case_completed : Ctx → Str → CaseStatus → Option Float64 → Lifecycle → Outcome
case_completed ctx id status pass_rate l = guarded (check_result status pass_rate l.progress) l (
    with_task id l λ t. guarded (check_running_task id t) l (
      with_iteration_of t l λ it.
        let s = complete_task id t it status l.progress in
        publish_locked ctx
          (Payload.case_completed (record {
            fields = task_fields s t.task;
            completed_tasks = s.completed;
            status = status;
            pass_rate = pass_rate;
            duration_ms = elapsed_ms t.started_at (now l);
          }))
          (after_now (with_progress l s))
        ▸ publish_progress_locked ctx))

unfoldable pub check_full_iteration : ℕ → LifecycleIteration → Option Err
check_full_iteration number it = do
  require (it.started && not it.completed) (iteration_not_running number)
  require (it.completed_n == length it.iteration.tasks) (iteration_unfinished number)

unfoldable pub iteration_completed : Ctx → ℕ → Lifecycle → Outcome
iteration_completed ctx number l = guarded (ensure_executing l.progress) l (
    with_iteration number l λ it. guarded (check_full_iteration number it) l (
      publish_locked ctx
        (Payload.iteration_completed (record {
          counts = it.result;
          iteration = number;
          invocation_completed_tasks = l.completed;
          duration_ms = elapsed_ms it.started_at (now l);
        }))
        (after_now (with_progress l (complete_iteration number it l.progress)))))

-- The source ranges over the map of iterations, in no fixed order, for one that is unfinished.
unfoldable pub unfinished_iteration : List (ℕ × LifecycleIteration) → Option Err
unfinished_iteration [] = none
unfinished_iteration ((number, it) ∷ rest) =
    if it.completed then unfinished_iteration rest else some (completed_run_iteration number)

-- The tests that `Finish` makes for `RunStatusCompleted` alone.
unfoldable pub check_completed : RunStatus → Progress → Option Err
check_completed RunStatus.completed s = do
  require (s.completed == s.task_total) (completed_run_short s.completed s.task_total)
  unfinished_iteration s.iterations
check_completed _ s = none

unfoldable pub check_finish : RunStatus → Progress → Option Err
check_finish status s = do
  ensure_active s
  require (run_status_valid status) (invalid_run_status status)
  check_completed status s

-- The progress error, if there is one, before the error of the final event.
abbrev pub first_error : Option Err → Option Err → Option Err
first_error (some e) r = some e
first_error none r = r

publish_finished : Ctx → RunStatus → Outcome → Outcome
publish_finished ctx status (l, progress_err) =
    let (l', finished_err) =
      publish_last_locked ctx
        (Payload.run_finished (record {
          counts = l.result_counts;
          status = status;
          completed_tasks = l.completed;
          duration_ms = elapsed_ms l.run_started_at (now l);
        }))
        (after_now l) in
    (l', first_error progress_err finished_err)

-- `Finish` below its wait for the heartbeat, which is `stop_heartbeat`.
unfoldable pub finish_locked : Ctx → RunStatus → Lifecycle → Outcome
unfolding publish_finished
finish_locked ctx status l = guarded (check_finish status l.progress) l (
    publish_finished ctx status
      (publish_progress_locked ctx (with_progress l (finish_run l.progress))))

-- `requestHeartbeatStop`, and the wait for a goroutine that was started to close `heartbeatDone`.
unfoldable pub stop_heartbeat : Lifecycle → Lifecycle
stop_heartbeat l = record l {
  heartbeat_stop = true;
  heartbeat_done = l.heartbeat_done || l.heartbeat_started;
}

-- `Finish`, where no heartbeat comes in between.
unfoldable pub finish : Ctx → RunStatus → Lifecycle → Outcome
finish ctx status l = finish_locked ctx status (stop_heartbeat l)
