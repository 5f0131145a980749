-- ===== src/Judge/Rules/Evaluate.antt =====
-- internal/judge/rule_based.go: the choice of a rule's evaluator, and the judge itself.
use skill_up.Base.{
  false, not, Option, none, some, List, [], ◌∷◌, ◌++◌, Str, codes, is_empty, if◌then◌else◌,
}
use skill_up.Judge.{AssertionResult}
use skill_up.Judge.Verdict.{JudgeResult, new_result}
use skill_up.Judge.Files.{Platform}
use skill_up.Judge.Rules.{
  Rule, RuleInput, unknown_rule, Library, Verdict, eval_output_contains, eval_exit_code,
  eval_files_exist, eval_files_not_exist, eval_turn_response_contains,
  eval_turn_response_not_contains,
}
use skill_up.Judge.Rules.Patterns.{
  eval_output_matches, eval_tool_called, eval_tool_called_in_turn, eval_tool_not_called_in_turn,
}

-- A case of the switch, on a field that may be nil.
abbrev pub when_set {ℓ} : {A : Type 0} {B : Type ℓ} → Option A → (A → B) → B → B
when_set none here later = later
when_set (some a) here later = here a

-- The texts of an assertion, as `fmt.Sprintf` writes them for a rule and its verdict.
pub record Format (V : Type 0) : Type 0 where
  pub text : Rule V → Verdict V → Str
  pub evidence : Rule V → Verdict V → Str

module _ {V : Type 0} (p : Platform) (lib : Library V) where
  unfoldable pub evaluate_assertion : Rule V → RuleInput V → Verdict V
  evaluate_assertion rule input =
      when_set rule.output_contains (λ r. eval_output_contains r input.final_message)
        (when_set rule.output_matches (λ r. eval_output_matches lib r input.final_message)
          (when_set rule.exit_code (λ n. eval_exit_code n input.exit_code)
            (when_set rule.tool_called (λ r. eval_tool_called lib r input.transcript)
              (if not (is_empty rule.files_exist)
                then eval_files_exist p rule.files_exist input.workspace_path
                else if not (is_empty rule.files_not_exist)
                then eval_files_not_exist p rule.files_not_exist input.workspace_path
                else when_set rule.turn_response_contains
                    (λ r. eval_turn_response_contains r input.turn_results)
                    (when_set rule.turn_response_not_contains
                      (λ r. eval_turn_response_not_contains r.0 r.1 input.turn_results)
                      (when_set rule.tool_called_in_turn
                        (λ r. eval_tool_called_in_turn lib r.0 r.1 input.turn_results)
                        (when_set rule.tool_not_called_in_turn
                          (λ r. eval_tool_not_called_in_turn lib r.0 r.1 input.turn_results)
                          (false, unknown_rule))))))))

  module _ (format : Format V) where
    abbrev assertion_for : Rule V → Verdict V → AssertionResult
    assertion_for rule v = record {
      text = format.text rule v;
      passed = v.0;
      evidence = format.evidence rule v;
    }

    -- The assertion for a failure rule that holds.
    abbrev failure_for : Rule V → Verdict V → AssertionResult
    failure_for rule v = record {
      text = codes "failure: " ++ format.text rule v;
      passed = false;
      evidence = codes "failure rule matched: " ++ format.evidence rule v;
    }

    unfoldable pub matched_failures : List (Rule V) → RuleInput V → List AssertionResult
    matched_failures [] input = []
    matched_failures (rule ∷ rules) input =
        let v = evaluate_assertion rule input in
        let rest = matched_failures rules input in if v.0 then failure_for rule v ∷ rest else rest

    unfoldable pub success_assertions : List (Rule V) → RuleInput V → List AssertionResult
    success_assertions [] input = []
    success_assertions (rule ∷ rules) input =
        assertion_for rule (evaluate_assertion rule input) ∷ success_assertions rules input

    -- `Evaluate`, on the rules for success and for failure.
    unfoldable pub evaluate : List (Rule V) → List (Rule V) → RuleInput V → JudgeResult
    evaluate success failure input =
        let failures = matched_failures failure input in
        if not (is_empty failures)
        then new_result failures input.turns_executed input.turns_total
        else new_result (success_assertions success input) input.turns_executed input.turns_total
