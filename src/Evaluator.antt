-- ===== src/Evaluator.antt =====
-- internal/evaluator/evaluator.go: how the evaluator judges and retries a case.
pub mod Expectations
pub mod Grading
pub mod Retry
pub mod Tests
use skill_up.Base.{Bool, true, false, Option, List, Str}
use skill_up.Base.Int.{ℤ}
use skill_up.Judge.{Status}
use skill_up.Judge.Verdict.{JudgeResult}
use skill_up.Judge.Expect.{ExpectResult}

-- An error and what it wraps: `context.DeadlineExceeded`, another one, `%w` with a text before
-- it, and the note that names the case timeout and the key that sets it.
pub data Err : Type 0 where
  deadline_exceeded : Err
  plain : Str → Err
  wrapped : Str → Err → Err
  annotated : Err → ℤ → Str → Err

-- `errors.Is(err, context.DeadlineExceeded)`.
unfoldable pub is_timeout_error : Err → Bool
is_timeout_error deadline_exceeded = true
is_timeout_error (plain text) = false
is_timeout_error (wrapped text e) = is_timeout_error e
is_timeout_error (annotated e seconds source) = is_timeout_error e

-- Of a result, the fields that judging and retrying read or set.
pub record EvalResult : Type 0 where
  pub status : Status
  pub turns : ℤ
  pub grading : Option JudgeResult
  pub expect_result : Option ExpectResult
  pub error : Option Err
  pub configuration : Str
