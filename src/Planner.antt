-- ===== src/Planner.antt =====
-- internal/evaluator/plan.go: the expansion of cases, iterations and configurations into tasks.
pub mod Decimal
pub mod Numbering
pub mod Tests
use skill_up.Base.{
  ℕ, zero, suc, ◌+◌, ◌-◌, ◌*◌, ◌%◌, ◌^◌, Bool, Option, List, [], ◌∷◌, ◌++◌, Str, codes, length, ltb,
  if◌then◌else◌,
}
use skill_up.Base.Int.{ℤ, pos, negsuc}
use Decimal.{format_int}

-- Of a case, the fields that the plan of a run reads.
pub record CaseConfig : Type 0 where
  pub id : Str
  pub title : Str

pub record PlannedTask : Type 0 where
  pub id : Str
  pub global_index : ℤ
  pub global_total : ℤ
  pub iteration : ℤ
  pub case : Option CaseConfig
  pub configuration : Str

pub record IterationPlan : Type 0 where
  pub number : ℤ
  pub tasks : List PlannedTask

pub record Plan : Type 0 where
  pub start_iteration : ℤ
  pub iterations : List IterationPlan
  pub task_total : ℤ

abbrev pub configuration_with_skill : Str
configuration_with_skill = codes "with_skill"

abbrev pub configuration_without_skill : Str
configuration_without_skill = codes "without_skill"

-- The 64-bit `int` that a sum or a product of natural numbers wraps to.
unfoldable pub wrap : ℕ → ℤ
wrap n = let r = n % 2 ^ 64 in if ltb r (2 ^ 63) then pos r else negsuc (2 ^ 64 - 1 - r)

-- `if n < 1 { n = 1 }`.
unfoldable pub at_least_one : ℤ → ℕ
at_least_one (pos zero) = 1
at_least_one (pos (suc n)) = suc n
at_least_one (negsuc n) = 1

unfoldable pub task_id : ℤ → Str
task_id index = codes "task-" ++ format_int index

unfoldable pub new_planned_task : ℕ → ℤ → ℤ → Option CaseConfig → Str → PlannedTask
new_planned_task index total iteration case configuration = record {
  id = task_id (wrap index);
  global_index = wrap index;
  global_total = total;
  iteration = iteration;
  case = case;
  configuration = configuration;
}

-- The three loops. `index` is `globalIndex` before the loop; `number` and `total` are as in the
-- source.
unfoldable pub plan_configurations : ℤ → ℤ → Option CaseConfig → ℕ → List Str → List PlannedTask
plan_configurations total number case index [] = []
plan_configurations total number case index (c ∷ cs) =
    new_planned_task (suc index) total number case c
    ∷ plan_configurations total number case (suc index) cs

unfoldable pub plan_cases : ℤ → ℤ → List Str → ℕ → List (Option CaseConfig) → List PlannedTask
plan_cases total number configurations index [] = []
plan_cases total number configurations index (c ∷ cs) =
    plan_configurations total number c index configurations
    ++ plan_cases total number configurations (index + length configurations) cs

unfoldable pub plan_iterations :
    ℤ → List (Option CaseConfig) → List Str → ℕ → ℕ → ℕ → List IterationPlan
plan_iterations total cases configurations zero number index = []
plan_iterations total cases configurations (suc m) number index =
    record {
      number = wrap number;
      tasks = plan_cases total (wrap number) configurations index cases;
    }
    ∷ plan_iterations total cases configurations m (suc number)
        (index + length cases * length configurations)

unfoldable pub build_plan : List (Option CaseConfig) → ℤ → ℤ → List Str → Plan
build_plan cases start_iteration iteration_count configurations =
    let start = at_least_one start_iteration in
    let count = at_least_one iteration_count in
    let task_total = wrap (length cases * count * length configurations) in
    record {
      start_iteration = wrap start;
      iterations = plan_iterations task_total cases configurations count start 0;
      task_total = task_total;
    }
