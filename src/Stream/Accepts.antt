-- ===== src/Stream/Accepts.antt =====
-- internal/cli/run_events.go: `evaluationEventPlan` accepts the plans of the evaluator.
use skill_up.Base.{
  ℕ, zero, suc, ◌+◌, ◌*◌, ◌≤◌, ◌≡◌, refl, ap, ◌⊎◌, inl, inr, Option, some, List, [], ◌∷◌, Str,
  codes, length, All, All-append, Result, ok, arith, str_eq,
}
use skill_up.Base.Int.{ℤ, int_eq_self}
use skill_up.Event.{max_safe_integer, Configuration}
use skill_up.Lifecycle.State
use skill_up.Lifecycle.State.{Task, Iteration}
use skill_up.Planner.{
  CaseConfig, PlannedTask, wrap, at_least_one, task_id, new_planned_task, plan_configurations,
  plan_cases, plan_iterations, build_plan, configuration_with_skill, configuration_without_skill,
}
use skill_up.Planner.Numbering.{wrap-small, plan_cases-Numbered}
use skill_up.Stream.{
  Err, positive_safe_event_integer, evaluation_event_configuration, event_task, event_tasks,
  event_iterations, task_count_of, evaluation_event_plan,
}

-- A name of a configuration that the evaluator uses.
abbrev pub IsConfiguration : Str → Type 0
IsConfiguration s = (s ≡ configuration_with_skill) ⊎ (s ≡ configuration_without_skill)

abbrev pub IsCase : Option CaseConfig → Type 0
IsCase c = (k : CaseConfig) × (c ≡ some k)

-- `r` is a value with a property.
abbrev Gives : {A : Type 0} → (A → Type 0) → Result Err A → Type 0
Gives {A} P r = (a : A) × (r ≡ ok a) × P a

configuration-Gives :
    (s : Str) → IsConfiguration s → Gives (λ c. Unit {0}) (evaluation_event_configuration s)
unfolding evaluation_event_configuration str_eq
configuration-Gives s (inl e) = (Configuration.with_skill, rw e refl, tt)
configuration-Gives s (inr e) = (Configuration.without_skill, rw e refl, tt)

in_range :
    (name : Str) (n : ℕ)
    → 1 ≤ n
    → n ≤ max_safe_integer
    → positive_safe_event_integer name (wrap n) ≡ ok n
unfolding positive_safe_event_integer
in_range name n a b = rw (wrap-small n (omega (arith, b))) (ground (arith, a, b))

abbrev HasLength : {A : Type 0} → ℕ → List A → Type 0
HasLength n ts = length ts ≡ n

module _ (total : ℤ) (number n : ℕ) where
  event_task-Gives :
      (index : ℕ) (case : Option CaseConfig) (c : Str)
      → IsCase case
      → IsConfiguration c
      → suc index ≤ max_safe_integer
      → Gives
          (λ t. Unit {0})
          (event_task total
            (wrap number)
            n
            (new_planned_task (suc index) total (wrap number) case c))
  unfolding event_task new_planned_task
  event_task-Gives index case c (k, e) conf le =
      let (g, f, u) = configuration-Gives c conf in
      let t : Task = record {
        id = task_id (wrap (suc index));
        iteration = n;
        case_id = k.id;
        configuration = g;
        index = suc index;
        title = k.title;
      } in
      (
        t,
        rw
            (
              e,
              int_eq_self (wrap number),
              int_eq_self total,
              in_range (codes "task index") (suc index) (omega arith) le,
              f,
            )
            refl,
        tt,
      )

  abbrev IsTaken : PlannedTask → Type 0
  IsTaken t = Gives (λ u. Unit {0}) (event_task total (wrap number) n t)

  tasks-Gives :
      (ts : List PlannedTask)
      → All IsTaken ts
      → Gives (HasLength (length ts)) (event_tasks total (wrap number) n ts)
  unfolding event_tasks
  tasks-Gives [] h = ([], refl, refl)
  tasks-Gives (t ∷ ts) ((u, e, x), h) =
      let (us, f, l) = tasks-Gives ts h in (u ∷ us, rw (e, f) refl, ap suc l)

  configurations-IsTaken :
      (case : Option CaseConfig) (index : ℕ) (cs : List Str)
      → IsCase case
      → All IsConfiguration cs
      → index + length cs ≤ max_safe_integer
      → All IsTaken (plan_configurations total (wrap number) case index cs)
  unfolding plan_configurations
  configurations-IsTaken case index [] k h le = tt
  configurations-IsTaken case index (c ∷ cs) k h le = (
    event_task-Gives index case c k h.0 (omega (arith, le)),
    configurations-IsTaken case (suc index) cs k h.1 (omega (arith, le)),
  )

  cases-IsTaken :
      (confs : List Str) (index : ℕ) (cases : List (Option CaseConfig))
      → All IsCase cases
      → All IsConfiguration confs
      → index + length cases * length confs ≤ max_safe_integer
      → All IsTaken (plan_cases total (wrap number) confs index cases)
  unfolding plan_cases
  cases-IsTaken confs index [] k h le = tt
  cases-IsTaken confs index (c ∷ cs) k h le =
      All-append IsTaken (plan_configurations total (wrap number) c index confs) _
        (configurations-IsTaken c index confs k.0 h (grind (arith, le)))
        (cases-IsTaken confs (index + length confs) cs k.1 h (grind (arith, le)))

iterations-Gives :
    (total : ℤ) (cases : List (Option CaseConfig)) (confs : List Str) (m number index : ℕ)
    → All IsCase cases
    → All IsConfiguration confs
    → 1 ≤ number
    → number + m ≤ suc max_safe_integer
    → index + m * (length cases * length confs) ≤ max_safe_integer
    → Gives
        (λ its. task_count_of its ≡ m * (length cases * length confs))
        (event_iterations total (plan_iterations total cases confs m number index))
unfolding event_iterations plan_iterations task_count_of
iterations-Gives total cases confs zero number index k h big le sum = ([], refl, omega arith)
iterations-Gives total cases confs (suc m) number index k h big le sum =
    let tasks = plan_cases total (wrap number) confs index cases in
    let (us, e, l) =
      tasks-Gives total number number tasks
        (cases-IsTaken total number number confs index cases k h (grind (arith, sum))) in
    let (its, f, c) =
      iterations-Gives total cases confs m (suc number) (index + length cases * length confs) k h
        (omega arith) (omega (arith, le)) (grind (arith, sum)) in
    (
      record { number = number; tasks = us } ∷ its,
      rw (in_range (codes "iteration") number big (omega (arith, le)), e, f) refl,
      grind (arith, c, l, (plan_cases-Numbered total (wrap number) confs index cases).1),
    )

at_least_one-pos : (i : ℤ) → 1 ≤ at_least_one i
unfolding at_least_one
at_least_one-pos i = ground arith

-- The event plan of a plan that the evaluator builds exists: if every case is there, every
-- configuration is one of the two, and neither the number of the last iteration nor that of the
-- tasks is above the largest safe integer, then `evaluationEventPlan` returns no error, and a plan with as many tasks.
pub evaluation_event_plan-build_plan :
    (cases : List (Option CaseConfig)) (start count : ℤ) (confs : List Str)
    → All IsCase cases
    → All IsConfiguration confs
    → at_least_one start + at_least_one count ≤ suc max_safe_integer
    → at_least_one count * (length cases * length confs) ≤ max_safe_integer
    → (plan : State.Plan) × (evaluation_event_plan (build_plan cases start count confs) ≡ ok plan)
      × (task_count_of plan.iterations ≡ at_least_one count * (length cases * length confs))
unfolding evaluation_event_plan build_plan
evaluation_event_plan-build_plan cases start count confs k h le sum =
    let total = wrap (length cases * at_least_one count * length confs) in
    let (its, e, c) =
      iterations-Gives total cases confs (at_least_one count) (at_least_one start) 0 k h
        (at_least_one-pos start) le (omega (arith, sum)) in
    let same : task_count_of its ≡ length cases * at_least_one count * length confs =
      grind (arith, c) in
    (record { iterations = its }, rw (e, same, int_eq_self total) refl, c)
