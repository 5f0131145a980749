-- ===== src/Lifecycle/Planning.antt =====
-- internal/evalevent/lifecycle.go: `snapshotPlan` and `ValidatePlan`.
use skill_up.Base.{
  ℕ, zero, suc, ◌+◌, Bool, true, false, not, ◌&&◌, ◌||◌, Option, none, some, List, [], ◌∷◌, Str,
  length, is_empty, ltb, ◌==◌, if◌then◌else◌, member, lookup, insert, str_key, nat_key, Result, ok,
  err,
}
use skill_up.Base.Results.{◌>>=◌, ◌>>◌, check}
use skill_up.Event.{
  max_safe_integer, Field, Err, empty_plan, bad_task_total, empty_iteration, duplicate_iteration,
  duplicate_task_id, duplicate_index, missing_index, inconsistent_plan,
}
use skill_up.Event.Validate.{require, validate_positive_integer}
use skill_up.Lifecycle.State.{
  Task, Iteration, Plan, LifecycleTask, LifecycleIteration, zero_counts, validate_plan_task,
}

-- The three maps that the loops fill; `indices` is a set.
pub record Snapshot : Type 0 where
  pub tasks : List (Str × LifecycleTask)
  pub iterations : List (ℕ × LifecycleIteration)
  pub indices : List ℕ

abbrev pub is_some : {A : Type 0} → Option A → Bool
is_some none = false
is_some (some a) = true

abbrev pub fresh_task : Task → LifecycleTask
fresh_task task = record { task = task; started = false; completed = false; started_at = 0 }

abbrev pub fresh_iteration : Iteration → LifecycleIteration
fresh_iteration it = record {
  iteration = it;
  started = false;
  completed = false;
  started_at = 0;
  result = zero_counts;
  completed_n = 0;
}

-- The body of the inner loop.
unfoldable pub add_task : ℕ → ℕ → Task → Snapshot → Result Err Snapshot
add_task task_total number task s = do
  check (validate_plan_task task number task_total)
  check (require (not (is_some (lookup task.id s.tasks))) (duplicate_task_id task.id))
  check (require (not (member task.index s.indices)) (duplicate_index task.index))
  ok (record s {
    indices = task.index ∷ s.indices;
    tasks = insert task.id (fresh_task task) s.tasks;
  })

unfoldable pub add_tasks : ℕ → ℕ → List Task → Snapshot → Result Err Snapshot
add_tasks task_total number [] s = ok s
add_tasks task_total number (task ∷ rest) s =
    add_task task_total number task s >>= λ s'. add_tasks task_total number rest s'

-- The body of the outer loop.
unfoldable pub add_iteration : ℕ → Iteration → Snapshot → Result Err Snapshot
add_iteration task_total it s = do
  check (validate_positive_integer Field.iteration it.number)
  check (require (not (is_empty it.tasks)) (empty_iteration it.number))
  check (require (not (is_some (lookup it.number s.iterations))) (duplicate_iteration it.number))
  add_tasks task_total it.number it.tasks
      (record s { iterations = insert it.number (fresh_iteration it) s.iterations })

unfoldable pub add_iterations : ℕ → List Iteration → Snapshot → Result Err Snapshot
add_iterations task_total [] s = ok s
add_iterations task_total (it ∷ rest) s =
    add_iteration task_total it s >>= λ s'. add_iterations task_total rest s'

-- The first of `rounds` numbers from `index` that is missing from the set.
unfoldable pub first_missing : ℕ → ℕ → List ℕ → Option ℕ
first_missing zero index indices = none
first_missing (suc rounds) index indices =
    let rest = first_missing rounds (suc index) indices in
    if member index indices then rest else some index

unfoldable pub count_tasks : List Iteration → ℕ
count_tasks [] = 0
count_tasks (it ∷ rest) = length it.tasks + count_tasks rest

abbrev pub check_missing : Option ℕ → Option Err
check_missing none = none
check_missing (some index) = some (missing_index index)

abbrev pub empty_snapshot : Snapshot
empty_snapshot = record { tasks = []; iterations = []; indices = [] }

unfoldable pub snapshot_plan : Plan → Result Err (Snapshot × ℕ)
snapshot_plan plan = do
  check (require (not (is_empty plan.iterations)) empty_plan)
  check (
      require
        (not
          (count_tasks plan.iterations == 0 || ltb max_safe_integer (count_tasks plan.iterations)))
        bad_task_total)
  s ← add_iterations (count_tasks plan.iterations) plan.iterations empty_snapshot
  check (check_missing (first_missing (count_tasks plan.iterations) 1 s.indices))
  ok (s, count_tasks plan.iterations)

unfoldable pub validate_plan : Plan → Option Err
validate_plan plan = elim (snapshot_plan plan) [
  | err e ↦ some e
  | ok (s, task_total) ↦
      require (length s.tasks == task_total && length s.iterations == length plan.iterations)
        inconsistent_plan
]
