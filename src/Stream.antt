-- ===== src/Stream.antt =====
-- internal/cli/run_events.go: the event stream of `skill-up run`: its flags, the plan of events
-- for a plan of tasks, and the observer that turns the evaluator's callbacks into calls of the
-- lifecycle.
pub mod Flags
pub mod Adapter
pub mod Accepts
pub mod Opening
pub mod Tests
use skill_up.Base.{
  ℕ, zero, suc, ◌+◌, ◌||◌, Bool, true, false, not, Option, none, some, List, [], ◌∷◌, Str, codes,
  length, str_eq, ltb, ◌==◌, if◌then◌else◌, Result, ok, err,
}
use skill_up.Base.Int.{ℤ, pos, negsuc, int_eq}
use skill_up.Base.Results.{◌>>=◌, ◌>>◌, check}
use skill_up.Event
use skill_up.Event.{max_safe_integer, Configuration, RunStatus}
use skill_up.Lifecycle.State.{Task, Iteration}
use skill_up.Lifecycle.State
use skill_up.Planner
use skill_up.Planner.{
  CaseConfig, PlannedTask, IterationPlan, wrap, configuration_with_skill,
  configuration_without_skill,
}

-- The errors of this file; `event` is one of the event package.
pub data Err : Type 0 where
  event : Event.Err → Err
  out_of_range : Str → Err
  no_case task_iteration task_total : Str → Err
  in_task : Str → Err → Err
  unsupported_configuration unsupported_status : Str → Err
  task_count : ℤ → ℤ → Err
  attribute_without_log empty_path stdout_path : Err
  invalid_attribute duplicate_attribute : Str → Err
  invalid_attributes : Event.Err → Err

unfoldable pub positive_safe_event_integer : Str → ℤ → Result Err ℕ
positive_safe_event_integer name (negsuc n) = err (out_of_range name)
positive_safe_event_integer name (pos n) =
    if ltb n 1 || ltb max_safe_integer n then err (out_of_range name) else ok n

unfoldable pub evaluation_event_configuration : Str → Result Err Configuration
evaluation_event_configuration s =
    if str_eq s configuration_with_skill
    then ok Configuration.with_skill
    else if str_eq s configuration_without_skill
    then ok Configuration.without_skill
    else err (unsupported_configuration s)

abbrev pub unless : Bool → Err → Result Err (Unit {0})
unless true e = ok tt
unless false e = err e

-- `fmt.Errorf("task %q: %w", task.ID, err)`.
abbrev pub naming : {A : Type 0} → Str → Result Err A → Result Err A
naming id (ok a) = ok a
naming id (err e) = err (in_task id e)

abbrev pub require_case : Str → Option CaseConfig → Result Err CaseConfig
require_case id none = err (no_case id)
require_case id (some c) = ok c

-- The body of the inner loop. `number` is the iteration's, before and after its conversion.
unfoldable pub event_task : ℤ → ℤ → ℕ → PlannedTask → Result Err Task
event_task total number iteration task = do
  c ← require_case task.id task.case
  unless (int_eq task.iteration number) (task_iteration task.id)
  unless (int_eq task.global_total total) (task_total task.id)
  index ← naming task.id (positive_safe_event_integer (codes "task index") task.global_index)
  configuration ← naming task.id (evaluation_event_configuration task.configuration)
  ok (record {
    id = task.id;
    iteration = iteration;
    case_id = c.id;
    configuration = configuration;
    index = index;
    title = c.title;
  })

unfoldable pub event_tasks : ℤ → ℤ → ℕ → List PlannedTask → Result Err (List Task)
event_tasks total number iteration [] = ok []
event_tasks total number iteration (t ∷ ts) = do
  task ← event_task total number iteration t
  rest ← event_tasks total number iteration ts
  ok (task ∷ rest)

unfoldable pub event_iterations : ℤ → List IterationPlan → Result Err (List Iteration)
event_iterations total [] = ok []
event_iterations total (it ∷ its) = do
  number ← positive_safe_event_integer (codes "iteration") it.number
  tasks ← event_tasks total it.number number it.tasks
  rest ← event_iterations total its
  ok (record { number = number; tasks = tasks } ∷ rest)

-- `taskCount`, as it stands after the loops.
unfoldable pub task_count_of : List Iteration → ℕ
task_count_of [] = 0
task_count_of (it ∷ its) = length it.tasks + task_count_of its

unfoldable pub evaluation_event_plan : Planner.Plan → Result Err State.Plan
evaluation_event_plan plan = do
  iterations ← event_iterations plan.task_total plan.iterations
  unless (int_eq (wrap (task_count_of iterations)) plan.task_total)
      (task_count (wrap (task_count_of iterations)) plan.task_total)
  ok (record { iterations = iterations })

-- Whether the context, or the error of the evaluation, is a cancellation or an exceeded deadline;
-- and whether there is such an error.
unfoldable pub event_run_status : Bool → Bool → Bool → RunStatus
event_run_status ctx_cancelled err_cancelled failed =
    if ctx_cancelled || err_cancelled
    then RunStatus.cancelled
    else if failed
    then RunStatus.error
    else RunStatus.completed
