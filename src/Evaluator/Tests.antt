-- ===== src/Evaluator/Tests.antt =====
-- internal/evaluator/evaluator.go: cases at which the theorems are applied.
use skill_up.Base.{
  ℕ, ◌≡◌, refl, subst, if◌then◌else◌, ◌↔◌, ◌*◌, ◌^◌, true, none, some, [], ◌∷◌, codes, Result, ok,
  contains, has_prefix, str_eq, ◌==◌, arith, member, add, str_key,
}
use skill_up.Base.Int.{pos}
use skill_up.Config.Expect.{Expect}
use skill_up.Judge.{Status}
use skill_up.Judge.Verdict.{JudgeResult, new_result}
use skill_up.Judge.Expect.Met.{IsMet}
use skill_up.Judge.Tests.{full_platform, hello_expect, hello_input}
use skill_up.Evaluator.{Err, EvalResult, deadline_exceeded, is_timeout_error}
use skill_up.Evaluator.Expectations.{
  merge_expect_config, merge_and_deduplicate, merge_distinct, keep_new,
}
use skill_up.Evaluator.Expectations.Union.{left_over, merge_expect_config-IsMet}
use skill_up.Evaluator.Grading.{NewJudge, Case, merged, evaluate_case_session}
use skill_up.Evaluator.Grading.Outcome.{
  JudgePasses, evaluate_case_session-pass_iff, evaluate_case_session-unmet,
}
use skill_up.Evaluator.Grading.Summary.{
  IsCounted, AreCounted, Counts, new_result-IsCounted, evaluate_case_session-AreCounted,
}
use skill_up.Evaluator.Retry.{
  RetryPolicy, max_attempts, with_case_timeout, Attempt, execute_case, attempt_from, outcome,
  should_retry, retry_reason_for_result, retry_allowed, listed, equal_fold, retry_backoff_delay,
  annotate_case_timeout_error,
}
use skill_up.Evaluator.Retry.Attempts.{IsSettled, execute_case-IsSettled, execute_case-delays}
use skill_up.Planner.{wrap, at_least_one}

-- Expectations of another text, and of an exit code other than 0.
abbrev bye_expect : Expect
bye_expect = record {
  must_contain = some (codes "bye" ∷ []);
  must_not_contain = none;
  exit_code = some (pos 1);
  files_exist = none;
  files_not_exist = none;
  golden_file = [];
  file_contains = none;
}

merge_expect_config-IsMet_example :
    IsMet full_platform (merge_expect_config (some hello_expect) (some bye_expect)) hello_input ↔ (
      IsMet full_platform (left_over hello_expect bye_expect) hello_input
      × IsMet full_platform bye_expect hello_input)
merge_expect_config-IsMet_example =
    merge_expect_config-IsMet full_platform hello_expect bye_expect hello_input

abbrev bye_case : Case
bye_case = record {
  defaults = hello_expect;
  expect = bye_expect;
  config_name = codes "with_skill";
  turns_total = pos 1;
}

abbrev fresh : EvalResult
fresh = record {
  status = Status.other [];
  turns = pos 1;
  grading = none;
  expect_result = none;
  error = none;
  configuration = [];
}

-- A judge without assertions.
abbrev content : NewJudge
content = ok (some (λ i. ok (new_result [] (pos 1) (pos 1))))

evaluate_case_session-pass_iff_example :
    ((evaluate_case_session (λ d. []) full_platform bye_case hello_input content fresh).status
      ≡ Status.pass)
    ↔ (IsMet full_platform (merged bye_case) hello_input × JudgePasses content hello_input)
evaluate_case_session-pass_iff_example =
    evaluate_case_session-pass_iff (λ d. []) full_platform bye_case hello_input content fresh

bye_case-unmet : ¬ IsMet full_platform (merged bye_case) hello_input
unfolding merge_expect_config merge_and_deduplicate merge_distinct keep_new contains has_prefix add
    member str_eq
bye_case-unmet v = cc (v.exits)

evaluate_case_session-unmet_example :
    let final = evaluate_case_session (λ d. []) full_platform bye_case hello_input content fresh in
    (final.status ≡ Status.fail)
    × ((g : JudgeResult) × (final.grading ≡ some g) × (g.status ≡ Status.fail))
evaluate_case_session-unmet_example =
    evaluate_case_session-unmet (λ d. []) full_platform bye_case hello_input content fresh
      bye_case-unmet

content-Counts : Counts content hello_input
content-Counts g h = subst IsCounted (same h) (new_result-IsCounted [] (pos 1) (pos 1))
  where
    same : {a b : JudgeResult} → ◌≡◌ {A = Result Err JudgeResult} (ok a) (ok b) → a ≡ b
    same h = cc

evaluate_case_session-AreCounted_example :
    AreCounted
      (evaluate_case_session (λ d. []) full_platform bye_case hello_input content fresh).grading
evaluate_case_session-AreCounted_example =
    evaluate_case_session-AreCounted (λ d. []) full_platform bye_case hello_input content fresh refl
      refl content-Counts

abbrev twice : RetryPolicy
twice = record { max_retries = pos 2; retry_on = codes "Timeout" ∷ [] }

-- The first attempt runs out of time, the second one passes.
abbrev attempts : ℕ → Attempt
attempts n = record {
  result =
      if n == 1
      then record fresh { status = Status.error; error = some deadline_exceeded }
      else record fresh { status = Status.pass };
  case_deadline = n == 1;
  slept = true;
}

second_attempt : (execute_case twice (pos 0) (pos 9) attempts).1 ≡ 2
unfolding execute_case attempt_from max_attempts at_least_one wrap outcome should_retry
    retry_reason_for_result retry_allowed listed equal_fold is_timeout_error
    annotate_case_timeout_error with_case_timeout str_eq
second_attempt = refl

execute_case-IsSettled_example :
    IsSettled twice
      (with_case_timeout (pos 0) (pos 9))
      attempts
      1
      (max_attempts (pos 2))
      (execute_case twice (pos 0) (pos 9) attempts)
execute_case-IsSettled_example = execute_case-IsSettled twice (pos 0) (pos 9) attempts

execute_case-delays_example : retry_backoff_delay 1 ≡ pos (2 ^ 1 * 1000000000)
execute_case-delays_example =
    execute_case-delays 2 (codes "Timeout" ∷ []) (pos 0) (pos 9) attempts (omega arith) 1
      (omega arith) (omega (arith, second_attempt))
