-- ===== src/Planner/Numbering.antt =====
-- internal/evaluator/plan.go: the tasks of a plan.
use skill_up.Base.{
  ℕ, zero, suc, ◌+◌, ◌*◌, ◌≤◌, ◌<◌, ◌≡◌, refl, ◌∙◌, sym, ap, subst, Option, List, [], ◌∷◌, ◌++◌,
  Str, length, length-append, All, arith,
}
use skill_up.Base.Int.{ℤ, pos}
use skill_up.Planner.Decimal.{format_int, decimal-injective}
use skill_up.Planner.{
  CaseConfig, PlannedTask, IterationPlan, wrap, at_least_one, task_id, new_planned_task,
  plan_configurations, plan_cases, plan_iterations, build_plan,
}

-- The tasks of all iterations, in the order in which they were made.
abbrev pub all_tasks : List IterationPlan → List PlannedTask
all_tasks [] = []
all_tasks (it ∷ its) = it.tasks ++ all_tasks its

-- Task by task: its index and identifier, and the total and the iteration that it carries.
abbrev pub Numbered : ℤ → ℕ → List PlannedTask → Type 0
Numbered total k [] = Unit {0}
Numbered total k (t ∷ ts) =
    (t.global_index ≡ wrap k)
    × (t.id ≡ task_id (wrap k))
    × (t.global_total ≡ total)
    × Numbered total (suc k) ts

Numbered-append :
    (total : ℤ) (k m : ℕ) (ts us : List PlannedTask)
    → m ≡ k + length ts
    → Numbered total k ts
    → Numbered total m us
    → Numbered total k (ts ++ us)
Numbered-append total k m [] us h a b = subst (λ j. Numbered total j us) (omega (arith, h)) b
Numbered-append total k m (t ∷ ts) us h (i, d, o, a) b =
    (i, d, o, Numbered-append total (suc k) m ts us (omega (arith, h)) a b)

plan_configurations-Numbered :
    (total number : ℤ) (case : Option CaseConfig) (k : ℕ) (cs : List Str)
    → Numbered total (suc k) (plan_configurations total number case k cs)
      × (length (plan_configurations total number case k cs) ≡ length cs)
unfolding plan_configurations new_planned_task
plan_configurations-Numbered total number case k [] = (tt, refl)
plan_configurations-Numbered total number case k (c ∷ cs) =
    let (a, e) = plan_configurations-Numbered total number case (suc k) cs in
    ((refl, refl, refl, a), ap suc e)

pub plan_cases-Numbered :
    (total number : ℤ) (confs : List Str) (k : ℕ) (cases : List (Option CaseConfig))
    → Numbered total (suc k) (plan_cases total number confs k cases)
      × (length (plan_cases total number confs k cases) ≡ length cases * length confs)
unfolding plan_cases
plan_cases-Numbered total number confs k [] = (tt, omega arith)
plan_cases-Numbered total number confs k (c ∷ cs) =
    let (a, e) = plan_configurations-Numbered total number c k confs in
    let (b, f) = plan_cases-Numbered total number confs (k + length confs) cs in
    (
      Numbered-append total (suc k) _ (plan_configurations total number c k confs) _
          (omega (arith, e)) a b,
      grind (
        arith,
        e,
        f,
        length-append (plan_configurations total number c k confs)
            (plan_cases total number confs (k + length confs) cs),
      ),
    )

plan_iterations-Numbered :
    (total : ℤ) (cases : List (Option CaseConfig)) (confs : List Str) (m number k : ℕ)
    → Numbered total (suc k) (all_tasks (plan_iterations total cases confs m number k))
      × (length (all_tasks (plan_iterations total cases confs m number k))
          ≡ m * (length cases * length confs))
unfolding plan_iterations
plan_iterations-Numbered total cases confs zero number k = (tt, omega arith)
plan_iterations-Numbered total cases confs (suc m) number k =
    let (a, e) = plan_cases-Numbered total (wrap number) confs k cases in
    let (b, f) =
      plan_iterations-Numbered total cases confs m (suc number) (k + length cases * length confs) in
    (
      Numbered-append total (suc k) _ (plan_cases total (wrap number) confs k cases) _
          (omega (arith, e)) a b,
      grind (
        arith,
        e,
        f,
        length-append (plan_cases total (wrap number) confs k cases) (
            all_tasks
              (plan_iterations total cases confs m (suc number) (k + length cases * length confs))),
      ),
    )

-- The tasks of a plan are numbered from 1 across all iterations, carry the identifier of their
-- number and the plan's total, and are as many as the product of the three counts.
pub build_plan-Numbered :
    (cases : List (Option CaseConfig)) (start count : ℤ) (confs : List Str)
    → let plan = build_plan cases start count confs in
      Numbered plan.task_total 1 (all_tasks plan.iterations)
      × (length (all_tasks plan.iterations) ≡ at_least_one count * (length cases * length confs))
unfolding build_plan
build_plan-Numbered cases start count confs =
    plan_iterations-Numbered _ cases confs (at_least_one count) (at_least_one start) 0

-- No two tasks have the same identifier.
abbrev pub Distinct : List PlannedTask → Type 0
Distinct [] = Unit {0}
Distinct (t ∷ ts) = All (λ (u : PlannedTask). ¬ (t.id ≡ u.id)) ts × Distinct ts

pub wrap-small : (n : ℕ) → n < 9223372036854775808 → wrap n ≡ pos n
unfolding wrap
wrap-small n h = ground (arith, h)

task_id-injective : (m n : ℕ) → task_id (pos m) ≡ task_id (pos n) → m ≡ n
unfolding task_id format_int
task_id-injective m n h = decimal-injective m n (ground (arith, h))

other_ids :
    (total : ℤ) (j k : ℕ) (ts : List PlannedTask)
    → j < k
    → k + length ts ≤ 9223372036854775808
    → Numbered total k ts
    → All (λ (u : PlannedTask). ¬ (task_id (pos j) ≡ u.id)) ts
other_ids total j k [] lt le h = tt
other_ids total j k (t ∷ ts) lt le (i, d, o, h) = (
  (λ e. absurd (
      omega (
        arith,
        lt,
        task_id-injective j k (e ∙ d ∙ ap task_id (wrap-small k (omega (arith, le)))),
      ))),
  other_ids total j (suc k) ts (omega (arith, lt)) (omega (arith, le)) h,
)

Numbered-Distinct :
    (total : ℤ) (k : ℕ) (ts : List PlannedTask)
    → k + length ts ≤ 9223372036854775808
    → Numbered total k ts
    → Distinct ts
Numbered-Distinct total k [] le h = tt
Numbered-Distinct total k (t ∷ ts) le (i, d, o, h) = (
  subst (λ s. All (λ (u : PlannedTask). ¬ (s ≡ u.id)) ts)
      (sym (d ∙ ap task_id (wrap-small k (omega (arith, le)))))
      (other_ids total k (suc k) ts (omega arith) (omega (arith, le)) h),
  Numbered-Distinct total (suc k) ts (omega (arith, le)) h,
)

-- If the number of tasks fits an `int`, then no two tasks of a plan have the same identifier.
pub build_plan-Distinct :
    (cases : List (Option CaseConfig)) (start count : ℤ) (confs : List Str)
    → at_least_one count * (length cases * length confs) < 9223372036854775808
    → Distinct (all_tasks (build_plan cases start count confs).iterations)
build_plan-Distinct cases start count confs h =
    let (n, e) = build_plan-Numbered cases start count confs in
    Numbered-Distinct _ 1 _ (omega (arith, h, e)) n
