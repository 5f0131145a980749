-- ===== src/Judge/Rules/Outcome.antt =====
-- internal/judge/rule_based.go: the verdict of the judge.
use skill_up.Base.{
  ◌≡◌, refl, ◌↔◌, true, false, List, [], ◌∷◌, is_empty, All, arith, Bool-cases, inl, inr,
}
use skill_up.Judge.{Status}
use skill_up.Judge.Verdict.{HasPassed, new_result-status}
use skill_up.Judge.Files.{Platform}
use skill_up.Judge.Rules.{Rule, RuleInput, Library}
use skill_up.Judge.Rules.Evaluate.{
  Format, evaluate_assertion, matched_failures, success_assertions, evaluate,
}
use skill_up.Judge.Rules.Holds.{RuleHolds, evaluate_assertion-RuleHolds}

module _ {V : Type 0} (p : Platform) (lib : Library V) (format : Format V)
    (input : RuleInput V) where
  abbrev Fires : Rule V → Type 0
  Fires rule = RuleHolds p lib input rule

  matched_failures-nil :
      (rules : List (Rule V))
      → (is_empty (matched_failures p lib format rules input) ≡ true)
        ↔ All (λ (r : Rule V). ¬ Fires r) rules
  unfolding matched_failures
  matched_failures-nil [] = ((λ h. tt), λ h. refl)
  matched_failures-nil (rule ∷ rules) =
      let (to, from) = matched_failures-nil rules in
      let (holds, back) = evaluate_assertion-RuleHolds p lib input rule in
      elim (Bool-cases (evaluate_assertion p lib rule input).0) [
        | inl y ↦ ((λ h. absurd (ground (arith, h, y))), λ h. absurd (h.0 (holds y)))
        | inr n ↦ (
          (λ h. ((λ f. absurd (cc (back f, n))), to (ground (arith, h, n)))),
          λ h. ground (arith, n, from h.1),
        )
      ]

  -- A failure that matched is recorded as an assertion that did not pass.
  matched_failures-fail :
      (rules : List (Rule V))
      → is_empty (matched_failures p lib format rules input) ≡ false
      → ¬ All HasPassed (matched_failures p lib format rules input)
  unfolding matched_failures
  matched_failures-fail [] h a = cc
  matched_failures-fail (rule ∷ rules) h a =
      elim (Bool-cases (evaluate_assertion p lib rule input).0) [
        | inl y ↦ absurd (ground (arith, a, y))
        | inr n ↦ matched_failures-fail rules (ground (arith, h, n)) (ground (arith, a, n))
      ]

  success_assertions-passed :
      (rules : List (Rule V))
      → All HasPassed (success_assertions p lib format rules input) ↔ All Fires rules
  unfolding success_assertions
  success_assertions-passed [] = ((λ h. tt), λ h. tt)
  success_assertions-passed (rule ∷ rules) =
      let (to, from) = success_assertions-passed rules in
      let (holds, back) = evaluate_assertion-RuleHolds p lib input rule in
      ((λ h. (holds h.0, to h.1)), λ h. (back h.0, from h.1))

  -- The judge says PASS exactly if no failure rule holds of the run and every success rule does.
  pub evaluate-pass_iff :
      (success failure : List (Rule V))
      → ((evaluate p lib format success failure input).status ≡ Status.pass) ↔ (
          All (λ (r : Rule V). ¬ RuleHolds p lib input r) failure
          × All (λ (r : Rule V). RuleHolds p lib input r) success)
  unfolding evaluate
  evaluate-pass_iff success failure =
      let (none_fire, quiet) = matched_failures-nil failure in
      let (fire, passed) = success_assertions-passed success in
      let (to, from) =
        (new_result-status (success_assertions p lib format success input) input.turns_executed
          input.turns_total).0 in
      let (to', from') =
        (new_result-status (matched_failures p lib format failure input) input.turns_executed
          input.turns_total).0 in
      elim (Bool-cases (is_empty (matched_failures p lib format failure input))) [
        | inl y ↦ rw y ((λ h. (none_fire y, fire (to h))), λ h. from (passed h.1))
        | inr n ↦ rw n (
          (λ h. absurd (matched_failures-fail failure n (to' h))),
          λ h. absurd (cc (quiet h.0, n)),
        )
      ]
