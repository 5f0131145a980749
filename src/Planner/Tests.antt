-- ===== src/Planner/Tests.antt =====
-- internal/evaluator/plan.go: a plan of one case, two iterations and two configurations.
use skill_up.Base.{◌*◌, ◌≡◌, Option, some, List, [], ◌∷◌, Str, codes, length, arith}
use skill_up.Base.Int.{pos}
use skill_up.Planner.{
  CaseConfig, at_least_one, build_plan, configuration_with_skill, configuration_without_skill,
}
use skill_up.Planner.Numbering.{
  Numbered, all_tasks, Distinct, build_plan-Numbered, build_plan-Distinct,
}

abbrev pub one_case : List (Option CaseConfig)
one_case = some (record { id = codes "case-a"; title = codes "A" }) ∷ []

abbrev pub both : List Str
both = configuration_with_skill ∷ configuration_without_skill ∷ []

build_plan-Numbered_example :
    let plan = build_plan one_case (pos 0) (pos 2) both in
    Numbered plan.task_total 1 (all_tasks plan.iterations)
    × (length (all_tasks plan.iterations) ≡ at_least_one (pos 2) * (length one_case * length both))
build_plan-Numbered_example = build_plan-Numbered one_case (pos 0) (pos 2) both

build_plan-Distinct_example :
    Distinct (all_tasks (build_plan one_case (pos 0) (pos 2) both).iterations)
unfolding at_least_one
build_plan-Distinct_example = build_plan-Distinct one_case (pos 0) (pos 2) both (omega arith)
