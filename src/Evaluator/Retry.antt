-- ===== src/Evaluator/Retry.antt =====
-- internal/evaluator/evaluator.go: the attempts of a case, its timeout, and the delays between
-- attempts.
pub mod Attempts
use skill_up.Base.{
  ℕ, zero, suc, ◌+◌, ◌-◌, ◌*◌, ◌^◌, max, Bool, true, false, not, ◌&&◌, ◌||◌, Option, none, some,
  List, [], ◌∷◌, Str, codes, map, is_empty, str_eq, leb, ltb, ◌==◌, if◌then◌else◌,
}
use skill_up.Base.Int.{ℤ, pos, negsuc}
use skill_up.Judge.{Status}
use skill_up.Planner.{wrap, at_least_one}
use skill_up.Evaluator.{Err, annotated, is_timeout_error, EvalResult}

pub record RetryPolicy : Type 0 where
  pub max_retries : ℤ
  pub retry_on : List Str

abbrev pub is_positive : ℤ → Bool
is_positive (pos n) = ltb 0 n
is_positive (negsuc n) = false

-- `max(n+1, 1)`, where `n + 1` wraps around at the largest int.
unfoldable pub max_attempts : ℤ → ℕ
max_attempts (pos n) = at_least_one (wrap (suc n))
max_attempts (negsuc n) = 1

-- The configuration keys that name a case's timeout.
abbrev pub case_timeout_key : Str
case_timeout_key = codes "case.constraints.timeout_seconds"

abbrev pub default_timeout_key : Str
default_timeout_key = codes "cases.defaults.timeout_seconds"

-- `withCaseTimeout`, without the context: the source of the timeout and its seconds.
unfoldable pub with_case_timeout : ℤ → ℤ → Str × ℤ
with_case_timeout default_seconds case_seconds =
    if is_positive case_seconds
    then (case_timeout_key, case_seconds)
    else if is_positive default_seconds
    then (default_timeout_key, default_seconds)
    else ([], pos 0)

abbrev annotate : Str → ℤ → EvalResult → Option Err → EvalResult
annotate source seconds r none = r
annotate source seconds r (some e) =
    if is_empty source || not (is_positive seconds)
    then r
    else if is_timeout_error e
    then record r { error = some (annotated e seconds source) }
    else r

unfoldable pub annotate_case_timeout_error : Str → ℤ → EvalResult → EvalResult
annotate_case_timeout_error source seconds r = annotate source seconds r r.error

-- `strings.EqualFold` with a text of ASCII letters other than k and s, which are the only ones
-- that fold with a letter beyond ASCII.
abbrev fold : ℕ → ℕ
fold c = if leb 65 c && leb c 90 then c + 32 else c

unfoldable pub equal_fold : Str → Str → Bool
equal_fold s t = str_eq (map fold s) (map fold t)

unfoldable pub listed : List Str → Str → Bool
listed [] reason = false
listed (a ∷ allowed) reason = equal_fold a reason || listed allowed reason

unfoldable pub retry_allowed : RetryPolicy → Str → Bool
retry_allowed policy reason =
    if is_empty reason || not (is_positive policy.max_retries)
    then false
    else listed policy.retry_on reason

abbrev reason_of : Status → Option Err → Option Str
reason_of Status.error (some e) =
    some (if is_timeout_error e then codes "timeout" else codes "error")
reason_of _ _ = none

-- The reason, and `none` where the second result is false.
unfoldable pub retry_reason_for_result : EvalResult → Option Str
retry_reason_for_result r = reason_of r.status r.error

abbrev allowed_for : RetryPolicy → Option Str → Bool
allowed_for policy none = false
allowed_for policy (some reason) = retry_allowed policy reason

-- The first two of the three tests that end the loop, negated.
unfoldable pub should_retry : RetryPolicy → EvalResult → Bool
should_retry policy r = allowed_for policy (retry_reason_for_result r)

-- `time.Duration(1<<attempt) * time.Second`, in nanoseconds, which wraps around.
unfoldable pub retry_backoff_delay : ℕ → ℤ
retry_backoff_delay attempt = wrap (2 ^ max attempt 1 * 1000000000)

-- What happens at an attempt: the result of `executeCaseOnce`, whether the deadline of the attempt
-- has fired while the outer context is alive, and whether the sleep after it ends undisturbed.
pub record Attempt : Type 0 where
  pub result : EvalResult
  pub case_deadline : Bool
  pub slept : Bool

-- The result of an attempt when the loop tests it.
unfoldable pub outcome : Str × ℤ → Attempt → EvalResult
outcome (source, seconds) a =
    if a.case_deadline then annotate_case_timeout_error source seconds a.result else a.result

-- The loop from an attempt on, with so many attempts left after it; the result and the number of
-- its attempt.
unfoldable pub attempt_from : RetryPolicy → Str × ℤ → (ℕ → Attempt) → ℕ → ℕ → EvalResult × ℕ
attempt_from policy timeout attempts zero n = (outcome timeout (attempts n), n)
attempt_from policy timeout attempts (suc left) n =
    let r = outcome timeout (attempts n) in
    let rest = attempt_from policy timeout attempts left (suc n) in
    if not (should_retry policy r) then (r, n) else if (attempts n).slept then rest else (r, n)

unfoldable pub execute_case : RetryPolicy → ℤ → ℤ → (ℕ → Attempt) → EvalResult × ℕ
execute_case policy default_seconds case_seconds attempts =
    attempt_from policy (with_case_timeout default_seconds case_seconds) attempts
      (max_attempts policy.max_retries - 1) 1
