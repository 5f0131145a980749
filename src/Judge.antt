-- ===== src/Judge.antt =====
-- internal/judge: the verdict on a case, and the configuration of its judge.
pub mod Verdict
pub mod Files
pub mod Expect
pub mod Rules
pub mod Interpreter
pub mod Merge
pub mod Tests
use skill_up.Base.{Bool, Str}

pub data Status : Type 0 where
  pass : Status
  fail : Status
  skip : Status
  error : Status
  other : Str → Status

pub record AssertionResult : Type 0 where
  pub text : Str
  pub passed : Bool
  pub evidence : Str
