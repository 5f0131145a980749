-- ===== src/Lifecycle/Payloads.antt =====
-- internal/evalevent/lifecycle.go: the payloads that the methods build are valid, so that
-- `Publisher.publishEvent` never refuses one as invalid.
use skill_up.Base.{
  ℕ, ◌+◌, ◌≤◌, ◌≡◌, true, Option, none, some, Str, arith, length, lookup, str_key, nat_key,
  All-lookup, Bool-cases, inl, inr,
}
use skill_up.Event.{max_safe_integer, CaseStatus, RunStatus, Float64, Field, ResultCounts}
use skill_up.Event.Validate.{
  validate_safe_integer, validate_positive_integer, validate_non_empty_string, counts_validate,
  counts_total, run_started_validate, run_progress_validate, task_fields_validate,
  case_completed_validate, iteration_completed_validate, run_finished_validate, phase_valid,
  case_status_valid, run_status_valid, validate_pass_rate,
}
use skill_up.Lifecycle.State.{
  LifecycleTask, LifecycleIteration, Progress, elapsed_ms, validate_plan_task,
}
use skill_up.Lifecycle.Invariant.{
  is_completed, is_completed_in, sum_counts, IsPlanned, Inv, running-completed-le, tally-le-length,
}
use skill_up.Lifecycle.{task_fields, progress_payload}

-- The longest duration has fewer milliseconds than the largest safe integer.
pub elapsed_ms-safe :
    (start end : ℕ) (name : Field) → validate_safe_integer name (elapsed_ms start end) ≡ none
unfolding elapsed_ms validate_safe_integer
elapsed_ms-safe start end name = ground arith

counts_validate-safe :
    (c : ResultCounts) → sum_counts c ≤ max_safe_integer → counts_validate c ≡ none
unfolding counts_validate validate_safe_integer
counts_validate-safe c h = ground arith

counts_total-sum :
    (c : ResultCounts) → sum_counts c ≤ max_safe_integer → counts_total c ≡ sum_counts c
unfolding counts_total
counts_total-sum c h = omega arith

module _ (s : Progress) (v : Inv s) where
  pub completed-le : s.completed ≤ s.task_total
  completed-le = omega (arith, v.completed, v.total, tally-le-length is_completed s.tasks)

  pub running-le : s.completed + length s.active_task_ids ≤ s.task_total
  running-le = elim (Bool-cases s.finished) [
    | inl y ↦ omega (arith, v.idle y, completed-le)
    | inr n ↦ omega (arith, v.running n, v.completed, v.total, running-completed-le s.tasks)
  ]

  safe_counts : sum_counts s.result_counts ≤ max_safe_integer
  safe_counts = omega (arith, v.counted, completed-le, v.bounded)

  -- A progress snapshot is valid in every phase of the run.
  pub progress_payload-valid :
      (now : ℕ) → phase_valid s.phase ≡ true → run_progress_validate (progress_payload s now) ≡ none
  unfolding run_progress_validate progress_payload validate_positive_integer validate_safe_integer
  progress_payload-valid now h = ground (
    arith,
    elapsed_ms-safe s.run_started_at now Field.elapsed_ms,
    counts_validate-safe s.result_counts safe_counts,
    counts_total-sum s.result_counts safe_counts,
    v.counted,
    v.positive,
    v.bounded,
    completed-le,
    running-le,
  )

  -- The fields of a planned task are valid.
  pub task_fields-valid :
      (id : Str) (t : LifecycleTask)
      → lookup id s.tasks ≡ some t
      → task_fields_validate (task_fields s t.task) ≡ none
  unfolding task_fields_validate task_fields validate_plan_task validate_positive_integer
      validate_safe_integer
  task_fields-valid id t h =
      let w = All-lookup (IsPlanned s.task_total) id t s.tasks v.planned h in
      ground (arith, w.checked, w.in_range, v.positive, v.bounded)

  -- So are the payloads of a task that completes, of an iteration that does, and of the end.
  pub case_completed-valid :
      (id : Str) (t : LifecycleTask) (status : CaseStatus) (rate : Option Float64) (now : ℕ)
      → lookup id s.tasks ≡ some t
      → case_status_valid status ≡ true
      → validate_pass_rate rate ≡ none
      → case_completed_validate (record {
        fields = task_fields s t.task;
        completed_tasks = s.completed;
        status = status;
        pass_rate = rate;
        duration_ms = elapsed_ms t.started_at now;
      })
        ≡ none
  unfolding case_completed_validate validate_safe_integer task_fields
  case_completed-valid id t status rate now h st ra = ground (
    arith,
    task_fields-valid id t h,
    st,
    ra,
    elapsed_ms-safe t.started_at now Field.duration_ms,
    completed-le,
    v.bounded,
  )

  pub iteration_completed-valid :
      (n : ℕ) (it : LifecycleIteration) (now : ℕ)
      → lookup n s.iterations ≡ some it
      → iteration_completed_validate (record {
        counts = it.result;
        iteration = n;
        invocation_completed_tasks = s.completed;
        duration_ms = elapsed_ms it.started_at now;
      })
        ≡ none
  unfolding iteration_completed_validate validate_safe_integer
  iteration_completed-valid n it now h =
      let w = v.iterations n it h in
      ground (
        arith,
        w.in_range,
        counts_validate-safe it.result (
            omega (
              arith,
              w.result,
              w.completed_n,
              tally-le-length (is_completed_in n) s.tasks,
              v.total,
              v.bounded,
            )),
        elapsed_ms-safe it.started_at now Field.duration_ms,
        completed-le,
        v.bounded,
      )

  pub run_finished-valid :
      (status : RunStatus) (now : ℕ)
      → run_status_valid status ≡ true
      → run_finished_validate (record {
        counts = s.result_counts;
        status = status;
        completed_tasks = s.completed;
        duration_ms = elapsed_ms s.run_started_at now;
      })
        ≡ none
  unfolding run_finished_validate validate_safe_integer
  run_finished-valid status now h = ground (
    arith,
    h,
    elapsed_ms-safe s.run_started_at now Field.duration_ms,
    counts_validate-safe s.result_counts safe_counts,
    counts_total-sum s.result_counts safe_counts,
    v.counted,
    completed-le,
    v.bounded,
  )

  pub run_started-valid :
      (engine name : Str)
      → validate_non_empty_string Field.engine engine ≡ none
      → validate_non_empty_string Field.skill_name name ≡ none
      → run_started_validate (record {
        engine = engine;
        skill_name = name;
        task_total = s.task_total;
        iterations_total = length s.iterations;
      })
        ≡ none
  unfolding run_started_validate validate_positive_integer validate_safe_integer
  run_started-valid engine name e n =
      ground (arith, e, n, v.positive, v.bounded, v.iterations_total, v.iterations_bounded)
