-- ===== src/Evaluator/Retry/Attempts.antt =====
-- internal/evaluator/evaluator.go: how many attempts a case gets, and which result counts.
use skill_up.Base.{
  ℕ, zero, suc, ◌+◌, ◌-◌, ◌*◌, ◌^◌, ◌≤◌, ◌<◌, max, ◌≡◌, refl, ap, subst, ◌∙◌, List, ◌&&◌, &&-true,
  ◌⊎◌, inl, inr, Bool, true, false, Str, arith, Bool-cases,
}
use skill_up.Base.Int.{ℤ, pos, negsuc, int_eq, int_eq→eq}
use native.Mathlib.Decide.{dec_lt}
use skill_up.Judge.{Status}
use skill_up.Planner.{wrap, at_least_one}
use skill_up.Planner.Numbering.{wrap-small}
use skill_up.Evaluator.{EvalResult}
use skill_up.Evaluator.Retry.{
  RetryPolicy, max_attempts, with_case_timeout, retry_reason_for_result, should_retry,
  retry_backoff_delay, Attempt, outcome, attempt_from, execute_case,
}

-- A result that the policy lets the case try again after: an error whose kind it lists.
pub record IsRetried (policy : RetryPolicy) (r : EvalResult) : Type 0 where
  pub status : r.status ≡ Status.error
  pub allowed : should_retry policy r ≡ true

should_retry-IsRetried :
    (policy : RetryPolicy) (r : EvalResult) → should_retry policy r ≡ true → IsRetried policy r
unfolding should_retry retry_reason_for_result
should_retry-IsRetried policy r h = record { status = ground (arith, h); allowed = h }

-- What the loop gives from its attempt `n` on, when `last` is the last attempt that it may make.
pub record IsSettled (policy : RetryPolicy) (timeout : Str × ℤ) (attempts : ℕ → Attempt)
    (first last : ℕ) (x : EvalResult × ℕ) : Type 0 where
  pub at_least : first ≤ x.1
  pub at_most : x.1 ≤ last
  pub final : x.0 ≡ outcome timeout (attempts x.1)
  pub before :
      (k : ℕ)
      → first ≤ k
      → k < x.1
      → IsRetried policy (outcome timeout (attempts k)) × ((attempts k).slept ≡ true)
  pub ended : (x.1 ≡ last) ⊎ ((should_retry policy x.0 ≡ false) ⊎ ((attempts x.1).slept ≡ false))

-- A loop that ends at its first attempt.
stop-IsSettled :
    (policy : RetryPolicy) (timeout : Str × ℤ) (attempts : ℕ → Attempt) (n last : ℕ)
    → n ≤ last
    → (n ≡ last)
      ⊎ ((should_retry policy (outcome timeout (attempts n)) ≡ false)
          ⊎ ((attempts n).slept ≡ false))
    → IsSettled policy timeout attempts n last (outcome timeout (attempts n), n)
stop-IsSettled policy timeout attempts n last le why = record {
  at_least = omega arith;
  at_most = le;
  final = refl;
  before = λ k a b. absurd (omega (arith, a, b));
  ended = why;
}

-- An attempt that is tried again after does not end the loop.
later-IsSettled :
    (policy : RetryPolicy) (timeout : Str × ℤ) (attempts : ℕ → Attempt) (n last : ℕ)
    (x : EvalResult × ℕ)
    → should_retry policy (outcome timeout (attempts n)) ≡ true
    → (attempts n).slept ≡ true
    → IsSettled policy timeout attempts (suc n) last x
    → IsSettled policy timeout attempts n last x
later-IsSettled policy timeout attempts n last x again slept v = record {
  at_least = omega (arith, v.at_least);
  at_most = v.at_most;
  final = v.final;
  before = λ k a b. elim (dec_lt n k) [
    | yes later ↦ v.before k (omega (arith, later)) b
    | no here ↦
        let same : n ≡ k = omega (arith, a, here) in
        rw (← same) (should_retry-IsRetried policy (outcome timeout (attempts n)) again, slept)
  ];
  ended = v.ended;
}

attempt_from-IsSettled :
    (policy : RetryPolicy) (timeout : Str × ℤ) (attempts : ℕ → Attempt) (left n last : ℕ)
    → n + left ≡ last
    → IsSettled policy timeout attempts n last (attempt_from policy timeout attempts left n)
unfolding attempt_from outcome
attempt_from-IsSettled policy timeout attempts zero n last e =
    stop-IsSettled policy timeout attempts n last (omega (arith, e)) (inl (omega (arith, e)))
attempt_from-IsSettled policy timeout attempts (suc left) n last e =
    elim (Bool-cases (should_retry policy (outcome timeout (attempts n)))) [
      | inr no_more ↦
          rw no_more
            (stop-IsSettled policy timeout attempts n last (omega (arith, e)) (inr (inl no_more)))
      | inl again ↦ elim (Bool-cases (attempts n).slept) [
        | inr cut ↦
            rw (again, cut)
              (stop-IsSettled policy timeout attempts n last (omega (arith, e)) (inr (inr cut)))
        | inl slept ↦
            rw (again, slept)
              (later-IsSettled policy timeout attempts n last _ again slept (
                attempt_from-IsSettled policy timeout attempts left (suc n) last
                  (omega (arith, e))))
      ]
    ]

max_attempts-pos : (n : ℤ) → 1 ≤ max_attempts n
unfolding max_attempts at_least_one
max_attempts-pos (pos n) = ground arith
max_attempts-pos (negsuc n) = omega arith

-- A case is attempted at least once and at most as often as its policy says; the loop ends with
-- the result of its last attempt, which is the first one that is not tried again: every attempt
-- before it ended with an error that the policy lists, and slept, and it is itself the last that
-- is allowed, or is not to be tried again, or its sleep was cut short.
pub execute_case-IsSettled :
    (policy : RetryPolicy) (default_seconds case_seconds : ℤ) (attempts : ℕ → Attempt)
    → IsSettled policy
        (with_case_timeout default_seconds case_seconds)
        attempts
        1
        (max_attempts policy.max_retries)
        (execute_case policy default_seconds case_seconds attempts)
unfolding execute_case
execute_case-IsSettled policy default_seconds case_seconds attempts =
    attempt_from-IsSettled policy (with_case_timeout default_seconds case_seconds) attempts
      (max_attempts policy.max_retries - 1) 1 (max_attempts policy.max_retries)
      (omega (arith, max_attempts-pos policy.max_retries))

delay_is : ℕ → Bool
delay_is n = int_eq (retry_backoff_delay n) (pos (2 ^ max n 1 * 1000000000))

all_delays : ℕ → Bool
all_delays zero = true
all_delays (suc n) = delay_is n && all_delays n

all_delays_sound : (m n : ℕ) → all_delays m ≡ true → n < m → delay_is n ≡ true
unfolding all_delays
all_delays_sound zero n h lt = absurd (omega arith)
all_delays_sound (suc m) n h lt = elim (dec_lt n m) [
  | yes below ↦ all_delays_sound m n (&&-true _ _ h).1 below
  | no last ↦
      let same : m ≡ n = omega (arith, lt, last) in
      subst (λ k. delay_is k ≡ true) same (&&-true _ _ h).0
]

delays_table : all_delays 34 ≡ true
unfolding all_delays delay_is retry_backoff_delay wrap int_eq
delays_table = refl

delay-small : (n : ℕ) → n < 34 → retry_backoff_delay n ≡ pos (2 ^ max n 1 * 1000000000)
unfolding delay_is
delay-small n h = int_eq→eq _ _ (all_delays_sound 34 n delays_table h)

-- With 33 retries or fewer the delay after an attempt that is followed by another one is 2 to
-- the number of the attempt, in seconds: no delay overflows.
pub execute_case-delays :
    (retries : ℕ) (allowed : List Str) (default_seconds case_seconds : ℤ) (attempts : ℕ → Attempt)
    → retries ≤ 33
    → let policy : RetryPolicy = record { max_retries = pos retries; retry_on = allowed } in
      (k : ℕ)
      → 1 ≤ k
      → k < (execute_case policy default_seconds case_seconds attempts).1
      → retry_backoff_delay k ≡ pos (2 ^ k * 1000000000)
unfolding max_attempts at_least_one
execute_case-delays retries allowed default_seconds case_seconds attempts few k lo hi =
    let policy : RetryPolicy = record { max_retries = pos retries; retry_on = allowed } in
    let v = execute_case-IsSettled policy default_seconds case_seconds attempts in
    let top : max_attempts (pos retries) ≡ suc retries =
      ground (arith, wrap-small (suc retries) (omega (arith, few))) in
    let one : max k 1 ≡ k = omega (arith, lo) in
    delay-small k (omega (arith, v.at_most, top, hi, few))
    ∙ ap (λ (j : ℕ). pos (2 ^ j * 1000000000)) one
