-- ===== src/Lifecycle/Invariant.antt =====
-- internal/evalevent/lifecycle.go: what holds of the progress of a run between two calls.
use skill_up.Base.{
  ℕ, ◌+◌, ◌≤◌, ◌≡◌, Bool, true, false, not, ◌&&◌, Option, none, some, List, ◌∷◌, Str, arith, length,
  count, bit, count-le-length, All, ◌==◌, lookup, occurrences, str_key, nat_key,
}
use skill_up.Event.{max_safe_integer, Field, ResultCounts}
use skill_up.Event.Validate.{validate_positive_integer}
use skill_up.Lifecycle.State.{LifecycleTask, LifecycleIteration, Progress, validate_plan_task}

abbrev pub Tasks : Type 0
Tasks = List (Str × LifecycleTask)

abbrev pub Iterations : Type 0
Iterations = List (ℕ × LifecycleIteration)

-- The number of tasks that pass a test.
unfoldable pub tally : (LifecycleTask → Bool) → Tasks → ℕ
tally p tasks = count (λ (e : Str × LifecycleTask). p e.1) tasks

abbrev pub is_running : LifecycleTask → Bool
is_running t = t.started && not t.completed

abbrev pub is_completed : LifecycleTask → Bool
is_completed t = t.completed

abbrev pub is_in : ℕ → LifecycleTask → Bool
is_in n t = t.task.iteration == n

abbrev pub is_completed_in : ℕ → LifecycleTask → Bool
is_completed_in n t = t.completed && t.task.iteration == n

abbrev pub runs : Option LifecycleTask → Bool
runs none = false
runs (some t) = is_running t

abbrev pub sum_counts : ResultCounts → ℕ
sum_counts c = c.passed + c.failed + c.errored + c.skipped

-- The plan's facts about a task: they were checked, under its own key.
pub record IsPlanned (task_total : ℕ) (e : Str × LifecycleTask) : Type 0 where
  pub checked : validate_plan_task e.1.task e.1.task.iteration task_total ≡ none
  pub own_key : e.1.task.id ≡ e.0
  pub in_range : validate_positive_integer Field.iteration e.1.task.iteration ≡ none

-- An iteration counts the completed tasks of its number, and is completed only with all of them.
pub record IsTallied (tasks : Tasks) (n : ℕ) (it : LifecycleIteration) : Type 0 where
  pub in_range : validate_positive_integer Field.iteration n ≡ none
  pub completed_n : it.completed_n ≡ tally (is_completed_in n) tasks
  pub result : sum_counts it.result ≡ it.completed_n
  pub size : length it.iteration.tasks ≡ tally (is_in n) tasks
  pub all_completed : it.completed ≡ true → it.completed_n ≡ length it.iteration.tasks

pub record Inv (s : Progress) : Type 0 where
  pub total : length s.tasks ≡ s.task_total
  pub positive : 1 ≤ s.task_total
  pub bounded : s.task_total ≤ max_safe_integer
  pub planned : All (IsPlanned s.task_total) s.tasks
  pub scheduled :
      (id : Str) (t : LifecycleTask)
      → lookup id s.tasks ≡ some t
      → (it : LifecycleIteration) × (lookup t.task.iteration s.iterations ≡ some it)
  pub started_first :
      (id : Str) (t : LifecycleTask)
      → lookup id s.tasks ≡ some t
      → t.completed ≡ true
      → t.started ≡ true
  pub active :
      s.finished ≡ false
      → (id : Str) → occurrences id s.active_task_ids ≡ bit (runs (lookup id s.tasks))
  pub running : s.finished ≡ false → length s.active_task_ids ≡ tally is_running s.tasks
  pub idle : s.finished ≡ true → length s.active_task_ids ≡ 0
  pub completed : s.completed ≡ tally is_completed s.tasks
  pub counted : sum_counts s.result_counts ≡ s.completed
  pub iterations :
      (n : ℕ) (it : LifecycleIteration) → lookup n s.iterations ≡ some it → IsTallied s.tasks n it
  pub iterations_total : 1 ≤ length s.iterations
  pub iterations_bounded : length s.iterations ≤ max_safe_integer

-- The tasks that run and those that are completed are different tasks.
pub running-completed-le :
    (tasks : Tasks) → tally is_running tasks + tally is_completed tasks ≤ length tasks
unfolding tally count
running-completed-le List.[] = omega arith
running-completed-le (e ∷ es) = ground (arith, running-completed-le es)

pub tally-le-length : (p : LifecycleTask → Bool) (tasks : Tasks) → tally p tasks ≤ length tasks
unfolding tally
tally-le-length p tasks = count-le-length _ tasks

pub completed_in-le :
    (n : ℕ) (tasks : Tasks) → tally (is_completed_in n) tasks ≤ tally (is_in n) tasks
unfolding tally count
completed_in-le n List.[] = omega arith
completed_in-le n (e ∷ es) = ground (arith, completed_in-le n es)
