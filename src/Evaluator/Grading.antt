-- ===== src/Evaluator/Grading.antt =====
-- internal/evaluator/evaluator.go: the pre-check of the expectations, the judge, and the report
-- of both.
pub mod Outcome
pub mod Summary
use skill_up.Base.{
  ◌+◌, Bool, true, false, Option, none, some, List, [], ◌∷◌, ◌++◌, Str, codes, length, is_empty,
  ltb, Result, ok, err, if◌then◌else◌,
}
use skill_up.Base.Int.{ℤ}
use skill_up.Config.Expect.{Expect}
use skill_up.Judge.{Status, AssertionResult}
use skill_up.Judge.Verdict.{JudgeResult, new_result, pass_rate_of}
use skill_up.Judge.Files.{Platform}
use skill_up.Judge.Expect.{Input, Detail, ExpectResult, check_expect, to_assertion_results}
use skill_up.Evaluator.{Err, wrapped, EvalResult}
use skill_up.Evaluator.Expectations.{merge_expect_config, resolve_expect_config}

-- What `newJudgeForCase` returns: an error, no judge, or one that grades an input.
abbrev pub NewJudge : Type 0
NewJudge = Result Err (Option (Input → Result Err JudgeResult))

-- The configured case: its defaults, its expectations, its configuration and number of turns.
pub record Case : Type 0 where
  pub defaults : Expect
  pub expect : Expect
  pub config_name : Str
  pub turns_total : ℤ

abbrev pub merged : Case → Expect
merged c = merge_expect_config (some c.defaults) (some c.expect)

-- `format` writes a failure out.
module _ (format : Detail → Str) (p : Platform) (c : Case) (input : Input) where
  -- After `CheckExpect`: the result with the check in it, and whether the case has failed.
  abbrev pub after_check : EvalResult → ExpectResult → EvalResult × Bool
  after_check r e = if e.passed then (record r { expect_result = some e }, false) else (
    record r {
      expect_result = some e;
      grading = some (new_result (to_assertion_results format e) r.turns c.turns_total);
      status = Status.fail;
      configuration = c.config_name;
    },
    true,
  )

  abbrev pub with_expect : EvalResult → Option Expect → EvalResult × Bool
  with_expect r none = (r, false)
  with_expect r (some e) = after_check r (check_expect p (some e) input)

  unfoldable pub run_expect_pre_check : EvalResult → EvalResult × Bool
  run_expect_pre_check r = with_expect r (resolve_expect_config (merged c))

-- The end of `runJudgePhaseWithSpan`.
abbrev pub graded : Str → EvalResult → Result Err JudgeResult → EvalResult
graded config_name r (err e) = record r {
  status = Status.error;
  error = some (wrapped (codes "judge evaluation failed") e);
  configuration = config_name;
}
graded config_name r (ok g) = record r {
  grading = some g;
  status = g.status;
  configuration = config_name;
}

unfoldable pub run_judge_phase : Case → Input → NewJudge → EvalResult → EvalResult
run_judge_phase c input (err e) r = record r {
  status = Status.error;
  error = some e;
  configuration = c.config_name;
}
run_judge_phase c input (ok none) r = record r {
  status = Status.pass;
  grading = some (new_result [] r.turns c.turns_total);
  configuration = c.config_name;
}
run_judge_phase c input (ok (some judge)) r = graded c.config_name r (judge input)

-- The assertions of the pre-check stand before those of the judge and count as passed.
unfoldable pub prepend_assertions : List AssertionResult → JudgeResult → JudgeResult
prepend_assertions more g =
    let passed = g.summary.passed + length more in
    let total = g.summary.total + length more in
    record g {
      assertion_results = more ++ g.assertion_results;
      summary = record (g.summary) {
        passed = passed;
        total = total;
        pass_rate = if ltb 0 total then pass_rate_of passed total else g.summary.pass_rate;
      };
    }

abbrev pub with_assertions : List AssertionResult → EvalResult → Option JudgeResult → EvalResult
with_assertions more r none = r
with_assertions more r (some g) =
    if is_empty more then r else record r { grading = some (prepend_assertions more g) }

abbrev pub expect_assertions : (Detail → Str) → Option ExpectResult → List AssertionResult
expect_assertions format none = []
expect_assertions format (some e) = to_assertion_results format e

abbrev pub finish_session :
    (Detail → Str) → Case → Input → NewJudge → EvalResult × Bool → EvalResult
finish_session format c input judge (r, true) = r
finish_session format c input judge (r, false) =
    let final = run_judge_phase c input judge r in
    with_assertions (expect_assertions format r.expect_result) final final.grading

unfoldable pub evaluate_case_session :
    (Detail → Str) → Platform → Case → Input → NewJudge → EvalResult → EvalResult
evaluate_case_session format p c input judge r =
    finish_session format c input judge (run_expect_pre_check format p c input r)
