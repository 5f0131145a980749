-- ===== src/Evaluator/Grading/Summary.antt =====
-- internal/evaluator/evaluator.go: the counts of a report with the assertions of the pre-check.
use skill_up.Base.{
  Str, ℕ, ◌≤◌, ltb, sym, ◌∙◌, ◌+◌, ◌≡◌, refl, Bool, true, false, Option, none, some, List, [], ◌∷◌,
  ◌++◌, All, arith, Result, ok, err, length, length-append, count, if◌then◌else◌,
}
use skill_up.Event.{Float64}
use skill_up.Base.Int.{ℤ}
use skill_up.Config.Expect.{Expect}
use skill_up.Judge.{AssertionResult}
use skill_up.Judge.Verdict.{
  JudgeResult, HasPassed, IsRate, is_passed, is_failed, new_result, new_result-summary,
  pass_rate_of, pass_rate_of-IsRate,
}
use skill_up.Judge.Files.{Platform}
use skill_up.Judge.Expect.{Input, Detail, check_expect}
use skill_up.Judge.Expect.Report.{to_assertion_results-check_expect}
use skill_up.Evaluator.{Err, EvalResult}
use skill_up.Evaluator.Expectations.{resolve_expect_config}
use skill_up.Evaluator.Grading.{
  NewJudge, Case, merged, with_expect, run_expect_pre_check, graded, run_judge_phase,
  prepend_assertions, with_assertions, expect_assertions, finish_session, evaluate_case_session,
}

-- The summary counts the assertions of the report: those that passed, those that failed, all of them,
-- and the share of those that passed if there are any.
pub record IsCounted (g : JudgeResult) : Type 0 where
  pub passed : g.summary.passed ≡ count is_passed g.assertion_results
  pub failed : g.summary.failed ≡ count is_failed g.assertion_results
  pub total : g.summary.total ≡ length g.assertion_results
  pub rate : IsRate g.assertion_results g.summary.pass_rate

abbrev pub AreCounted : Option JudgeResult → Type 0
AreCounted none = Unit {0}
AreCounted (some g) = IsCounted g

-- A judge whose reports are counted, as those of `NewResult` are.
abbrev pub Counts : NewJudge → Input → Type 0
Counts (err e) input = Unit {0}
Counts (ok none) input = Unit {0}
Counts (ok (some judge)) input = (g : JudgeResult) → judge input ≡ ok g → IsCounted g

pub new_result-IsCounted :
    (xs : List AssertionResult) (executed total : ℤ) → IsCounted (new_result xs executed total)
unfolding new_result
new_result-IsCounted xs executed total =
    let (a, b, c, d, e) = new_result-summary xs executed total in
    record { passed = a; failed = b; total = c; rate = d }

count-append_passed :
    (xs ys : List AssertionResult)
    → All HasPassed xs
    → count is_passed (xs ++ ys) ≡ count is_passed ys + length xs
unfolding count
count-append_passed [] ys h = omega arith
count-append_passed (x ∷ xs) ys h = ground (arith, h.0, count-append_passed xs ys h.1)

count-append_failed :
    (xs ys : List AssertionResult)
    → All HasPassed xs
    → count is_failed (xs ++ ys) ≡ count is_failed ys
unfolding count
count-append_failed [] ys h = refl
count-append_failed (x ∷ xs) ys h = ground (arith, h.0, count-append_failed xs ys h.1)

-- The rate of a report that has an assertion is computed anew.
guarded-IsRate :
    (xs : List AssertionResult) (passed total : ℕ) (old : Float64)
    → passed ≡ count is_passed xs
    → total ≡ length xs
    → IsRate xs (if ltb 0 total then pass_rate_of passed total else old)
guarded-IsRate [] passed total old p t = tt
guarded-IsRate (x ∷ xs) passed total old p t =
    rw (show_pos total (omega (arith, t))) (pass_rate_of-IsRate (x ∷ xs) passed total p t)
  where
    show_pos : (n : ℕ) → 1 ≤ n → ltb 0 n ≡ true
    show_pos n h = ground (arith, h)

prepend_assertions-IsCounted :
    (more : List AssertionResult) (g : JudgeResult)
    → All HasPassed more
    → IsCounted g
    → IsCounted (prepend_assertions more g)
unfolding prepend_assertions
prepend_assertions-IsCounted more g h v =
    let passed : g.summary.passed + length more ≡ count is_passed (more ++ g.assertion_results) =
      omega (arith, v.passed, count-append_passed more g.assertion_results h) in
    let total : g.summary.total + length more ≡ length (more ++ g.assertion_results) =
      omega (arith, v.total, length-append more g.assertion_results) in
    record {
      passed = passed;
      failed = v.failed ∙ sym (count-append_failed more g.assertion_results h);
      total = total;
      rate = guarded-IsRate (more ++ g.assertion_results) _ _ _ passed total;
    }

with_assertions-AreCounted :
    (more : List AssertionResult) (r : EvalResult) (g : Option JudgeResult)
    → r.grading ≡ g
    → All HasPassed more
    → AreCounted g
    → AreCounted (with_assertions more r g).grading
with_assertions-AreCounted more r none e h v = rw e tt
with_assertions-AreCounted [] r (some g) e h v = rw e v
with_assertions-AreCounted (a ∷ more) r (some g) e h v =
    prepend_assertions-IsCounted (a ∷ more) g h v

graded-AreCounted :
    (name : Str) (r : EvalResult) (result : Result Err JudgeResult)
    → r.grading ≡ none
    → ((g : JudgeResult) → result ≡ ok g → IsCounted g)
    → AreCounted (graded name r result).grading
graded-AreCounted name r (err e) q h = rw q tt
graded-AreCounted name r (ok g) q h = h g refl

run_judge_phase-AreCounted :
    (c : Case) (input : Input) (judge : NewJudge) (r : EvalResult)
    → r.grading ≡ none
    → Counts judge input
    → AreCounted (run_judge_phase c input judge r).grading
unfolding run_judge_phase
run_judge_phase-AreCounted c input (err e) r q h = rw q tt
run_judge_phase-AreCounted c input (ok none) r q h = new_result-IsCounted [] r.turns c.turns_total
run_judge_phase-AreCounted c input (ok (some judge)) r q h =
    graded-AreCounted c.config_name r (judge input) q h

-- What the pre-check leaves for the judge, or for the report if it stops the case.
abbrev Ready : (Detail → Str) → EvalResult × Bool → Type 0
Ready format (r, true) = AreCounted r.grading
Ready format (r, false) =
    (r.grading ≡ none) × All HasPassed (expect_assertions format r.expect_result)

choose-Ready :
    (format : Detail → Str) (b : Bool) (x y : EvalResult)
    → (b ≡ true → Ready format (x, false))
    → AreCounted y.grading
    → Ready format (if b then (x, false) else (y, true))
choose-Ready format true x y h v = h refl
choose-Ready format false x y h v = v

with_expect-Ready :
    (format : Detail → Str) (p : Platform) (c : Case) (input : Input) (r : EvalResult)
    (e : Option Expect)
    → r.grading ≡ none
    → r.expect_result ≡ none
    → Ready format (with_expect format p c input r e)
with_expect-Ready format p c input r none q n = (q, rw n tt)
with_expect-Ready format p c input r (some e) q n =
    choose-Ready format (check_expect p (some e) input).passed _ _
      (λ h. (q, (to_assertion_results-check_expect format p (some e) input).1 h))
      (new_result-IsCounted _ r.turns c.turns_total)

finish_session-AreCounted :
    (format : Detail → Str) (c : Case) (input : Input) (judge : NewJudge) (x : EvalResult × Bool)
    → Ready format x
    → Counts judge input
    → AreCounted (finish_session format c input judge x).grading
finish_session-AreCounted format c input judge (r, true) v h = v
finish_session-AreCounted format c input judge (r, false) v h =
    with_assertions-AreCounted _ _ _ refl v.1 (run_judge_phase-AreCounted c input judge r v.0 h)

-- If the result starts without a report and without an outcome of the pre-check, and the summary of
-- every report that the judge gives counts its assertions, then however the case ends, the summary
-- of its report counts the assertions in it, those of the pre-check among them: the passed ones, the
-- failed ones, all, and the share of the passed ones if there are any.
pub evaluate_case_session-AreCounted :
    (format : Detail → Str) (p : Platform) (c : Case) (input : Input) (judge : NewJudge)
    (r : EvalResult)
    → r.grading ≡ none
    → r.expect_result ≡ none
    → Counts judge input
    → AreCounted (evaluate_case_session format p c input judge r).grading
unfolding evaluate_case_session run_expect_pre_check
evaluate_case_session-AreCounted format p c input judge r q n h =
    finish_session-AreCounted format c input judge
      (with_expect format p c input r (resolve_expect_config (merged c)))
      (with_expect-Ready format p c input r (resolve_expect_config (merged c)) q n) h
