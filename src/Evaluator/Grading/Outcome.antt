-- ===== src/Evaluator/Grading/Outcome.antt =====
-- internal/evaluator/evaluator.go: when a case passes, and what its report says.
use skill_up.Base.{
  ◌≡◌, refl, sym, ◌∙◌, subst, ◌↔◌, inl, inr, Bool, true, false, Option, none, some, List, [], ◌∷◌,
  Str, All, arith, Bool-cases, Result, ok, err,
}
use skill_up.Base.Int.{ℤ}
use skill_up.Config.Expect.{Slice, items, Expect}
use skill_up.Judge.{Status, AssertionResult}
use skill_up.Judge.Verdict.{JudgeResult, new_result, new_result-status}
use skill_up.Judge.Files.{Platform}
use skill_up.Judge.Expect.{Input, Detail, check_expect, to_assertion_results}
use skill_up.Judge.Expect.Checks.{ExitsWith}
use skill_up.Judge.Expect.Met.{IsMet, check_expect-passed_iff}
use skill_up.Judge.Expect.Report.{to_assertion_results-check_expect}
use skill_up.Evaluator.{EvalResult}
use skill_up.Evaluator.Expectations.{is_nil, resolve_expect_config}
use skill_up.Evaluator.Grading.{
  NewJudge, Case, merged, with_expect, run_expect_pre_check, graded, run_judge_phase,
  with_assertions, finish_session, evaluate_case_session,
}

is_nil-All : {A : Type 0} (P : A → Type 0) (s : Slice A) → is_nil s ≡ true → All P (items s)
is_nil-All P none h = tt
is_nil-All P (some xs) h = cc

exit_of_nil : (n : Option ℤ) (actual : ℤ) → is_nil n ≡ true → ExitsWith n actual
exit_of_nil none actual h = tt
exit_of_nil (some n) actual h = cc

-- Expectations that count as not configured are met by anything.
resolve_expect_config-none :
    (p : Platform) (e : Expect) (input : Input) → resolve_expect_config e ≡ none → IsMet p e input
unfolding resolve_expect_config
resolve_expect_config-none p e input h = record {
  contained = is_nil-All _ e.must_contain (ground (arith, h));
  not_contained = is_nil-All _ e.must_not_contain (ground (arith, h));
  exits = exit_of_nil e.exit_code input.exit_code (ground (arith, h));
  existing = is_nil-All _ e.files_exist (ground (arith, h));
  not_existing = is_nil-All _ e.files_not_exist (ground (arith, h));
  golden = inl (ground (arith, h));
  texts = is_nil-All _ e.file_contains (ground (arith, h));
}

resolve_expect_config-some : (e f : Expect) → resolve_expect_config e ≡ some f → f ≡ e
unfolding resolve_expect_config
resolve_expect_config-some e f h = ground (arith, h)

module _ (format : Detail → Str) (p : Platform) (c : Case) (input : Input) (r : EvalResult) where
  -- The pre-check lets a case through exactly if its merged expectations are met.
  with_expect-IsMet :
      (e : Option Expect)
      → resolve_expect_config (merged c) ≡ e
      → ((with_expect format p c input r e).1 ≡ false) ↔ IsMet p (merged c) input
  with_expect-IsMet none h = ((λ q. resolve_expect_config-none p (merged c) input h), λ v. refl)
  with_expect-IsMet (some e) h =
      let same = resolve_expect_config-some (merged c) e h in
      let (to, from) = check_expect-passed_iff p e input in
      (
        (λ q. subst (λ x. IsMet p x input) same (to (ground (arith, q)))),
        λ v. ground (arith, from (subst (λ x. IsMet p x input) (sym same) v)),
      )

  pub run_expect_pre_check-IsMet :
      ((run_expect_pre_check format p c input r).1 ≡ false) ↔ IsMet p (merged c) input
  unfolding run_expect_pre_check
  run_expect_pre_check-IsMet = with_expect-IsMet (resolve_expect_config (merged c)) refl

  -- What the pre-check leaves behind if it stops the case: a failure, graded as one.
  with_expect_stop :
      (e : Option Expect)
      → (with_expect format p c input r e).1 ≡ true
      → ((with_expect format p c input r e).0.status ≡ Status.fail)
        × ((g : JudgeResult) × ((with_expect format p c input r e).0.grading ≡ some g)
            × (g.status ≡ Status.fail))
  with_expect_stop none h = cc
  with_expect_stop (some e) h =
      let q : (check_expect p (some e) input).passed ≡ false = ground (arith, h) in
      let (to, from) = to_assertion_results-check_expect format p (some e) input in
      (
        ground (arith, q),
        (
          new_result (to_assertion_results format (check_expect p (some e) input)) r.turns
              c.turns_total,
          ground (arith, q),
          (new_result-status _ r.turns c.turns_total).1.1 (λ a. cc (to a, q)),
        ),
      )

-- The judge of a case lets it pass: there is none, or it grades the input as passed.
abbrev pub JudgePasses : NewJudge → Input → Type 0
JudgePasses (err e) input = ⊥
JudgePasses (ok none) input = Unit {0}
JudgePasses (ok (some judge)) input =
    (g : JudgeResult) × (judge input ≡ ok g) × (g.status ≡ Status.pass)

graded-pass :
    (config_name : Str) (r : EvalResult) (result : Result _ JudgeResult)
    → ((graded config_name r result).status ≡ Status.pass)
      ↔ ((g : JudgeResult) × (result ≡ ok g) × (g.status ≡ Status.pass))
graded-pass config_name r (err e) = ((λ h. cc), λ (g, q, h). cc)
graded-pass config_name r (ok g) = ((λ h. (g, refl, h)), λ (g', q, h). cc)

run_judge_phase-pass :
    (c : Case) (input : Input) (judge : NewJudge) (r : EvalResult)
    → ((run_judge_phase c input judge r).status ≡ Status.pass) ↔ JudgePasses judge input
unfolding run_judge_phase
run_judge_phase-pass c input (err e) r = ((λ h. cc), λ h. absurd h)
run_judge_phase-pass c input (ok none) r = ((λ h. tt), λ h. refl)
run_judge_phase-pass c input (ok (some judge)) r = graded-pass c.config_name r (judge input)

-- The assertions of the pre-check do not change the status.
with_assertions-status :
    (more : List AssertionResult) (r : EvalResult) (g : Option JudgeResult)
    → (with_assertions more r g).status ≡ r.status
with_assertions-status more r none = refl
with_assertions-status [] r (some g) = refl
with_assertions-status (a ∷ more) r (some g) = refl

finish_session-continue :
    (format : Detail → Str) (c : Case) (input : Input) (judge : NewJudge) (x : EvalResult × Bool)
    → x.1 ≡ false
    → (finish_session format c input judge x).status ≡ (run_judge_phase c input judge x.0).status
finish_session-continue format c input judge (r, false) h = with_assertions-status _ _ _
finish_session-continue format c input judge (r, true) h = cc

finish_session-stop :
    (format : Detail → Str) (c : Case) (input : Input) (judge : NewJudge) (x : EvalResult × Bool)
    → x.1 ≡ true
    → finish_session format c input judge x ≡ x.0
finish_session-stop format c input judge (r, true) h = refl
finish_session-stop format c input judge (r, false) h = cc

module _ (format : Detail → Str) (p : Platform) (c : Case) (input : Input) (judge : NewJudge)
    (r : EvalResult) where
  -- A case passes exactly if its merged expectations are met and its judge, if it has one, grades
  -- what the run left behind as passed.
  pub evaluate_case_session-pass_iff :
      ((evaluate_case_session format p c input judge r).status ≡ Status.pass)
      ↔ (IsMet p (merged c) input × JudgePasses judge input)
  unfolding evaluate_case_session run_expect_pre_check
  evaluate_case_session-pass_iff =
      let x = run_expect_pre_check format p c input r in
      let (met, go) = run_expect_pre_check-IsMet format p c input r in
      let (to, from) = run_judge_phase-pass c input judge x.0 in
      (
        (λ h. elim (Bool-cases x.1) [
          | inl stop ↦
              absurd (cc (h, finish_session-stop format c input judge x stop, stopped stop))
          | inr on ↦ (met on, to (sym (finish_session-continue format c input judge x on) ∙ h))
        ]),
        λ (v, w). finish_session-continue format c input judge x (go v) ∙ from w,
      )
    where
      stopped :
          (run_expect_pre_check format p c input r).1 ≡ true
          → (run_expect_pre_check format p c input r).0.status ≡ Status.fail
      stopped h = (with_expect_stop format p c input r (resolve_expect_config (merged c)) h).0

  -- A case whose expectations are not met fails, and its report says so too, whatever the judge
  -- would have said.
  pub evaluate_case_session-unmet :
      (¬ IsMet p (merged c) input)
      → let final = evaluate_case_session format p c input judge r in
        (final.status ≡ Status.fail)
        × ((g : JudgeResult) × (final.grading ≡ some g) × (g.status ≡ Status.fail))
  unfolding evaluate_case_session run_expect_pre_check
  evaluate_case_session-unmet h =
      let x = run_expect_pre_check format p c input r in
      elim (Bool-cases x.1) [
        | inl stop ↦
            subst
              (λ (f : EvalResult).
                (f.status ≡ Status.fail)
                × ((g : JudgeResult) × (f.grading ≡ some g) × (g.status ≡ Status.fail)))
              (sym (finish_session-stop format c input judge x stop))
              (with_expect_stop format p c input r (resolve_expect_config (merged c)) stop)
        | inr on ↦ absurd (h ((run_expect_pre_check-IsMet format p c input r).0 on))
      ]
