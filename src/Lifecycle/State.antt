-- ===== src/Lifecycle/State.antt =====
-- internal/evalevent/lifecycle.go: the plan of a run, the state that the lifecycle keeps of its
-- tasks and iterations, and the changes that the handlers make to it. The fields of `Lifecycle`
-- that describe the progress of the run stand in `Progress`; those for publication and timing are
-- in the parent module.
use skill_up.Base.{
  ℕ, ◌-◌, ◌/◌, min, Bool, true, not, Option, List, [], Str, leb, ltb, ◌==◌, ◌||◌, if◌then◌else◌,
  add, remove, insert, str_key, nat_key,
}
use skill_up.Event.{
  add_u64, Configuration, CaseStatus, RunPhase, ResultCounts, Field, Err, wrong_iteration,
  bad_configuration, bad_index,
}
use skill_up.Event.Validate.{
  ◌>>◌, require, configuration_valid, validate_non_empty_string, validate_string,
}

pub record Task : Type 0 where
  pub id : Str
  pub iteration : ℕ
  pub case_id : Str
  pub configuration : Configuration
  pub index : ℕ
  pub title : Str

pub record Iteration : Type 0 where
  pub number : ℕ
  pub tasks : List Task

pub record Plan : Type 0 where
  pub iterations : List Iteration

-- Instants are nanoseconds from a common origin.
pub record LifecycleTask : Type 0 where
  pub task : Task
  pub started : Bool
  pub completed : Bool
  pub started_at : ℕ

pub record LifecycleIteration : Type 0 where
  pub iteration : Iteration
  pub started : Bool
  pub completed : Bool
  pub started_at : ℕ
  pub result : ResultCounts
  pub completed_n : ℕ

pub record Progress : Type 0 where
  pub tasks : List (Str × LifecycleTask)
  pub iterations : List (ℕ × LifecycleIteration)
  pub task_total : ℕ
  pub started : Bool
  pub finished : Bool
  pub phase : RunPhase
  pub run_started_at : ℕ
  pub completed : ℕ
  pub result_counts : ResultCounts
  pub active_task_ids : List Str

abbrev pub zero_counts : ResultCounts
zero_counts = record { passed = 0; failed = 0; errored = 0; skipped = 0 }

unfoldable pub add_status : ResultCounts → CaseStatus → ResultCounts
add_status c CaseStatus.pass = record c { passed = add_u64 c.passed 1 }
add_status c CaseStatus.fail = record c { failed = add_u64 c.failed 1 }
add_status c CaseStatus.error = record c { errored = add_u64 c.errored 1 }
add_status c CaseStatus.skip = record c { skipped = add_u64 c.skipped 1 }
add_status c (CaseStatus.other s) = c

unfoldable pub phase_rank : RunPhase → ℕ
phase_rank RunPhase.preparing = 1
phase_rank RunPhase.executing = 2
phase_rank RunPhase.finalizing = 3
phase_rank (RunPhase.other s) = 0

-- `end.Sub(start)` is at most the longest `time.Duration`, and not positive where `end` is not
-- after `start`.
abbrev pub max_duration : ℕ
max_duration = 9223372036854775807

unfoldable pub elapsed_ms : ℕ → ℕ → ℕ
elapsed_ms start end = if leb end start then 0 else min (end - start) max_duration / 1000000

-- The change that `Start` makes.
unfoldable pub begin_run : ℕ → Progress → Progress
begin_run now s = record s { started = true; phase = RunPhase.preparing; run_started_at = now }

unfoldable pub begin_iteration : ℕ → ℕ → LifecycleIteration → Progress → Progress
begin_iteration now number it s = record s {
  iterations = insert number (record it { started = true; started_at = now }) s.iterations;
}

unfoldable pub begin_task : ℕ → Str → LifecycleTask → Progress → Progress
begin_task now id t s = record s {
  tasks = insert id (record t { started = true; started_at = now }) s.tasks;
  active_task_ids = add id s.active_task_ids;
}

unfoldable pub complete_task :
    Str → LifecycleTask → LifecycleIteration → CaseStatus → Progress → Progress
complete_task id t it status s = record s {
  tasks = insert id (record t { completed = true }) s.tasks;
  active_task_ids = remove id s.active_task_ids;
  completed = add_u64 s.completed 1;
  result_counts = add_status s.result_counts status;
  iterations =
      insert t.task.iteration
        (record it { completed_n = add_u64 it.completed_n 1; result = add_status it.result status })
        s.iterations;
}

unfoldable pub complete_iteration : ℕ → LifecycleIteration → Progress → Progress
complete_iteration number it s = record s {
  iterations = insert number (record it { completed = true }) s.iterations;
}

unfoldable pub finish_run : Progress → Progress
finish_run s = record s { phase = RunPhase.finalizing; active_task_ids = []; finished = true }

unfoldable pub validate_plan_task : Task → ℕ → ℕ → Option Err
validate_plan_task task iteration task_total = do
  validate_non_empty_string Field.task_id task.id
  require (task.iteration == iteration) (wrong_iteration task.id)
  validate_non_empty_string Field.case_id task.case_id
  require (configuration_valid task.configuration) (bad_configuration task.id)
  require (not (task.index == 0 || ltb task_total task.index)) (bad_index task.id)
  validate_string Field.title task.title
