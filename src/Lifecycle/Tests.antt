-- ===== src/Lifecycle/Tests.antt =====
-- internal/evalevent/lifecycle.go: runs of a plan of two tasks, at which the theorems are applied.
use skill_up.Base.{
  ℕ, ◌≡◌, refl, ◌↔◌, true, none, some, List, [], ◌∷◌, codes, str_eq, ok, All, lookup, insert,
  member, valid_string, str_key, nat_key,
}
use skill_up.Base.Int.{pos}
use skill_up.Event.{Configuration, CaseStatus, RunStatus, RunPhase}
use skill_up.Event.Validate.{
  validate_positive_integer, validate_non_empty_string, validate_string, configuration_valid,
}
use skill_up.Publisher.Tests.{test_platform, test_config, test_publisher, test_publisher-new}
use skill_up.Lifecycle.State.{Task, Iteration, Plan, validate_plan_task}
use skill_up.Lifecycle.Planning.{
  fresh_task, fresh_iteration, snapshot_plan, count_tasks, add_iterations, add_iteration, add_tasks,
  add_task, first_missing,
}
use skill_up.Lifecycle.{
  Lifecycle, LifecycleOptions, new_lifecycle, fresh_lifecycle, require_publisher, resolve_interval,
  check_finish,
}
use skill_up.Lifecycle.Invariant.{Inv}
use skill_up.Lifecycle.Calls.{
  Call, starts, sets_phase, starts_iteration, starts_case, completes_case, completes_iteration,
  finishes, step, run,
}
use skill_up.Lifecycle.Keeps.{IsLive}
use skill_up.Lifecycle.Sound.{run-new_lifecycle-Inv}
use skill_up.Lifecycle.Errors.{IsClean}
use skill_up.Lifecycle.Defects.{run-step-IsClean}
use skill_up.Lifecycle.Order.{IsLater, run-run-IsLater}
use skill_up.Lifecycle.Finality.{
  HasCompletedTask, HasCompletedIteration, check_finish-completed_iff, IsRefused, step-IsRefused,
}

abbrev task_1 : Task
task_1 = record {
  id = codes "t1";
  iteration = 1;
  case_id = codes "case";
  configuration = Configuration.with_skill;
  index = 1;
  title = codes "A";
}

abbrev task_2 : Task
task_2 = record {
  id = codes "t2";
  iteration = 1;
  case_id = codes "case";
  configuration = Configuration.without_skill;
  index = 2;
  title = [];
}

abbrev iteration_1 : Iteration
iteration_1 = record { number = 1; tasks = task_1 ∷ task_2 ∷ [] }

abbrev pub two_tasks : Plan
two_tasks = record { iterations = iteration_1 ∷ [] }

abbrev pub clock : ℕ → ℕ
clock n = n

abbrev pub options : LifecycleOptions
options = record { clock = none; heartbeat_interval = pos 0 }

abbrev pub two_tasks_lifecycle : Lifecycle
two_tasks_lifecycle =
    fresh_lifecycle test_publisher clock (pos 30000000000)
      (record {
        tasks = (codes "t1", fresh_task task_1) ∷ (codes "t2", fresh_task task_2) ∷ [];
        iterations = (1, fresh_iteration iteration_1) ∷ [];
        indices = 2 ∷ 1 ∷ [];
      })
      2

pub two_tasks_lifecycle-new :
    new_lifecycle clock (some test_publisher) two_tasks options ≡ ok two_tasks_lifecycle
unfolding new_lifecycle require_publisher resolve_interval snapshot_plan count_tasks add_iterations
    add_iteration add_tasks add_task first_missing validate_plan_task validate_positive_integer
    validate_non_empty_string validate_string configuration_valid lookup insert member str_eq
    valid_string
two_tasks_lifecycle-new = refl

abbrev pub opening : List Call
opening =
    starts none (codes "engine") (codes "skill")
    ∷ sets_phase none RunPhase.executing
    ∷ starts_iteration none 1
    ∷ starts_case none (codes "t1")
    ∷ []

abbrev closing : List Call
closing =
    completes_case none (codes "t1") CaseStatus.pass none
    ∷ starts_case none (codes "t2")
    ∷ completes_case none (codes "t2") CaseStatus.fail none
    ∷ completes_iteration none 1
    ∷ []

run-new_lifecycle-Inv_example : Inv (run opening two_tasks_lifecycle).progress
run-new_lifecycle-Inv_example =
    run-new_lifecycle-Inv clock (some test_publisher) two_tasks options two_tasks_lifecycle opening
      two_tasks_lifecycle-new

run-step-IsClean_example :
    IsClean (step (finishes none RunStatus.completed) (run opening two_tasks_lifecycle)).1
run-step-IsClean_example =
    run-step-IsClean test_platform test_config test_publisher clock two_tasks options
      two_tasks_lifecycle opening (finishes none RunStatus.completed) test_publisher-new
      two_tasks_lifecycle-new

run-run-IsLater_example :
    IsLater
      (run opening two_tasks_lifecycle).progress
      (run closing (run opening two_tasks_lifecycle)).progress
run-run-IsLater_example =
    run-run-IsLater clock (some test_publisher) two_tasks options two_tasks_lifecycle opening
      closing two_tasks_lifecycle-new

sound : Inv (run opening two_tasks_lifecycle).progress
sound =
    run-new_lifecycle-Inv clock (some test_publisher) two_tasks options two_tasks_lifecycle opening
      two_tasks_lifecycle-new

check_finish-completed_iff_example :
    let s = (run opening two_tasks_lifecycle).progress in
    (check_finish RunStatus.completed s ≡ none)
    ↔ (IsLive s × All HasCompletedTask s.tasks × All HasCompletedIteration s.iterations)
check_finish-completed_iff_example =
    check_finish-completed_iff (run opening two_tasks_lifecycle).progress sound

abbrev finished_lifecycle : Lifecycle
finished_lifecycle = record two_tasks_lifecycle {
  progress = record two_tasks_lifecycle.progress {
    started = true;
    finished = true;
    phase = RunPhase.finalizing;
  };
}

step-IsRefused_example :
    IsRefused finished_lifecycle (step (starts_case none (codes "t1")) finished_lifecycle)
step-IsRefused_example = step-IsRefused (starts_case none (codes "t1")) finished_lifecycle refl refl
