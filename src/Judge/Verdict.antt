-- ===== src/Judge/Verdict.antt =====
-- internal/judge/judge.go: the verdict on a case from the outcomes of its assertions.
use skill_up.Base.{
  ℕ, zero, suc, ◌+◌, ◌≡◌, refl, ◌↔◌, Bool, true, false, not, Option, none, some, List, [], ◌∷◌, Str,
  length, count, All, ltb, if◌then◌else◌, arith, Bool-cases, inl, inr,
}
use skill_up.Base.Int.{ℤ}
use skill_up.Event.{Float64}
use skill_up.Event.Validate.{validate_pass_rate, pass_rate_valid}
use skill_up.Judge.{Status, AssertionResult}

pub record ResultSummary : Type 0 where
  pub passed : ℕ
  pub failed : ℕ
  pub total : ℕ
  pub pass_rate : Float64

-- The fields of `Result` that the constructors set; the session of the judge is not among them.
pub record JudgeResult : Type 0 where
  pub status : Status
  pub skip_reason : Option Str
  pub error_reason : Option Str
  pub turns_executed : ℤ
  pub turns_total : ℤ
  pub assertion_results : List AssertionResult
  pub summary : ResultSummary

-- The loop of `NewResult`, and what it counts.
unfoldable pub tally_assertions : List AssertionResult → ℕ × ℕ → ℕ × ℕ
tally_assertions [] counts = counts
tally_assertions (a ∷ rest) (passed, failed) =
    tally_assertions rest (if a.passed then (suc passed, failed) else (passed, suc failed))

-- The division of two counts as `float64`, before it is rounded.
abbrev pub float_div : ℕ → ℕ → Float64
float_div zero zero = Float64.nan
float_div (suc n) zero = Float64.inf false
float_div n (suc m) = Float64.finite false n (suc m)

-- `float64(passed) / float64(total)`, unless there is nothing to divide by.
unfoldable pub pass_rate_of : ℕ → ℕ → Float64
pass_rate_of passed total = if ltb 0 total then float_div passed total else Float64.finite false 1 1

unfoldable pub new_result : List AssertionResult → ℤ → ℤ → JudgeResult
new_result assertions turns_executed turns_total =
    let (passed, failed) = tally_assertions assertions (0, 0) in
    record {
      status = if ltb 0 failed then Status.fail else Status.pass;
      skip_reason = none;
      error_reason = none;
      turns_executed = turns_executed;
      turns_total = turns_total;
      assertion_results = assertions;
      summary = record {
        passed = passed;
        failed = failed;
        total = passed + failed;
        pass_rate = pass_rate_of passed (passed + failed);
      };
    }

abbrev empty_summary : ResultSummary
empty_summary = record { passed = 0; failed = 0; total = 0; pass_rate = Float64.finite false 0 1 }

abbrev pub new_skip_result : Str → ℤ → ℤ → JudgeResult
new_skip_result reason turns_executed turns_total = record {
  status = Status.skip;
  skip_reason = some reason;
  error_reason = none;
  turns_executed = turns_executed;
  turns_total = turns_total;
  assertion_results = [];
  summary = empty_summary;
}

-- `reason` is the text of the error.
abbrev pub new_error_result : Str → ℤ → ℤ → JudgeResult
new_error_result reason turns_executed turns_total = record {
  status = Status.error;
  skip_reason = none;
  error_reason = some reason;
  turns_executed = turns_executed;
  turns_total = turns_total;
  assertion_results = [];
  summary = empty_summary;
}

abbrev pub HasPassed : AssertionResult → Type 0
HasPassed a = a.passed ≡ true

abbrev pub is_passed : AssertionResult → Bool
is_passed a = a.passed

abbrev pub is_failed : AssertionResult → Bool
is_failed a = not a.passed

tally_assertions-count :
    (xs : List AssertionResult) (p f : ℕ)
    → ((tally_assertions xs (p, f)).0 ≡ p + count is_passed xs)
      × ((tally_assertions xs (p, f)).1 ≡ f + count is_failed xs)
unfolding tally_assertions count
tally_assertions-count [] p f = (omega arith, omega arith)
tally_assertions-count (a ∷ xs) p f = elim (Bool-cases a.passed) [
  | inl y ↦
      let (b, c) = tally_assertions-count xs (suc p) f in rw y (omega (arith, b), omega (arith, c))
  | inr n ↦
      let (b, c) = tally_assertions-count xs p (suc f) in rw n (omega (arith, b), omega (arith, c))
]

count-sum : (xs : List AssertionResult) → count is_passed xs + count is_failed xs ≡ length xs
unfolding count
count-sum [] = omega arith
count-sum (a ∷ xs) = ground (arith, count-sum xs)

none_failed : (xs : List AssertionResult) → count is_failed xs ≡ 0 → All HasPassed xs
unfolding count
none_failed [] h = tt
none_failed (a ∷ xs) h = (ground (arith, h), none_failed xs (ground (arith, h)))

All-passed : (xs : List AssertionResult) → All HasPassed xs → count is_failed xs ≡ 0
unfolding count
All-passed [] h = refl
All-passed (a ∷ xs) h = ground (arith, h.0, All-passed xs h.1)

-- A verdict of `NewResult` is PASS exactly if every assertion passed, and is otherwise FAIL.
pub new_result-status :
    (xs : List AssertionResult) (executed total : ℤ)
    → (((new_result xs executed total).status ≡ Status.pass) ↔ All HasPassed xs)
      × (((new_result xs executed total).status ≡ Status.fail) ↔ (¬ All HasPassed xs))
unfolding new_result
new_result-status xs executed total =
    let (p, f) = tally_assertions-count xs 0 0 in
    (
      ((λ h. none_failed xs (ground (arith, h, f))), λ h. ground (arith, f, All-passed xs h)),
      (
        (λ h k. absurd (ground (arith, h, f, All-passed xs k))),
        λ h. elim (Bool-cases (ltb 0 (tally_assertions xs (0, 0)).1)) [
          | inl y ↦ rw y refl
          | inr n ↦ absurd (h (none_failed xs (ground (arith, n, f))))
        ],
      ),
    )

-- The pass rate of assertions, if there are any, is the share of those that passed.
abbrev pub IsRate : List AssertionResult → Float64 → Type 0
IsRate [] v = Unit {0}
IsRate (a ∷ xs) v = v ≡ Float64.finite false (count is_passed (a ∷ xs)) (suc (length xs))

pub pass_rate_of-IsRate :
    (xs : List AssertionResult) (passed total : ℕ)
    → passed ≡ count is_passed xs
    → total ≡ length xs
    → IsRate xs (pass_rate_of passed total)
unfolding pass_rate_of
pass_rate_of-IsRate [] passed total p t = tt
pass_rate_of-IsRate (a ∷ xs) passed total p t = rw (p, t) (ground arith)

pass_rate_of-valid :
    (passed failed : ℕ) → pass_rate_valid (pass_rate_of passed (passed + failed)) ≡ true
unfolding pass_rate_of pass_rate_valid
pass_rate_of-valid zero zero = refl
pass_rate_of-valid zero (suc f) = ground arith
pass_rate_of-valid (suc p) f = ground arith

-- The summary of a verdict counts the assertions that passed, those that failed, and all of them;
-- the pass rate of a list that is not empty is the share of those that passed; and the event stream
-- accepts the pass rate of any list.
pub new_result-summary :
    (xs : List AssertionResult) (executed total : ℤ)
    → let s = (new_result xs executed total).summary in
      (s.passed ≡ count is_passed xs)
      × (s.failed ≡ count is_failed xs)
      × (s.total ≡ length xs)
      × IsRate xs s.pass_rate
      × (validate_pass_rate (some s.pass_rate) ≡ none)
unfolding new_result validate_pass_rate
new_result-summary xs executed total =
    let (p, f) = tally_assertions-count xs 0 0 in
    let sum = count-sum xs in
    (
      omega (arith, p),
      omega (arith, f),
      omega (arith, p, f, sum),
      pass_rate_of-IsRate xs _ _ (omega (arith, p)) (omega (arith, p, f, sum)),
      rw pass_rate_of-valid refl,
    )
