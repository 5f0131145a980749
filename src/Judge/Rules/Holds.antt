-- ===== src/Judge/Rules/Holds.antt =====
-- internal/judge/rule_based.go: what each rule says of a run, and the verdict of all rules.
use skill_up.Base.{
  Some, Result-cases, ◌≡◌, refl, ◌↔◌, ◌⊎◌, inl, inr, Bool, true, false, not, Option, none, some,
  List, [], ◌∷◌, Str, contains, is_empty, All, arith, Bool-cases, ok, if◌then◌else◌, str_key,
}
use skill_up.Base.Int.{ℤ, int_eq→eq, int_eq_self}
use skill_up.Judge.Files.{Platform, file_exists_in_workspace}
use skill_up.Judge.Rules.{
  Message, InputTurn, ToolRule, TurnTexts, Rule, RuleInput, Library, Verdict, eval_exit_code,
  tool_calls, first_absent, first_present, eval_files_exist, eval_files_not_exist, lookup_turn,
  on_turn, eval_turn_response_contains, eval_turn_response_not_contains, response_contains,
}
use skill_up.Judge.Rules.Patterns.{
  eval_tool_called, any_call, eval_tool_called_in_turn, eval_tool_not_called_in_turn,
}
use skill_up.Judge.Rules.Texts.{
  First, Satisfies, eval_output_contains-Satisfies, eval_output_matches-Satisfies,
  missing_texts-nil, any_found-First, first_found_text-nil,
}
use skill_up.Judge.Rules.Tools.{IsCall, any_call-Some}
use skill_up.Judge.Rules.Evaluate.{when_set, evaluate_assertion}

first_absent-none :
    {V : Type 0} (p : Platform) (w : Str) (fs : List Str)
    → (first_absent {V = V} p w fs ≡ none)
      ↔ All (λ (f : Str). file_exists_in_workspace p w f ≡ ok true) fs
unfolding first_absent
first_absent-none p w [] = ((λ h. tt), λ h. refl)
first_absent-none {V} p w (f ∷ fs) =
    let (to, from) = first_absent-none {V = V} p w fs in
    ((λ h. (ground (arith, h), to (ground (arith, h)))), λ h. ground (arith, h.0, from h.1))

first_present-none :
    {V : Type 0} (p : Platform) (w : Str) (fs : List Str)
    → (first_present {V = V} p w fs ≡ none)
      ↔ All (λ (f : Str). file_exists_in_workspace p w f ≡ ok false) fs
unfolding first_present
first_present-none p w [] = ((λ h. tt), λ h. refl)
first_present-none {V} p w (f ∷ fs) =
    let (to, from) = first_present-none {V = V} p w fs in
    ((λ h. (ground (arith, h), to (ground (arith, h)))), λ h. ground (arith, h.0, from h.1))

module _ {V : Type 0} (p : Platform) (lib : Library V) (input : RuleInput V) where
  -- The turn with the number was completed and has a property.
  abbrev pub OfTurn : ℤ → (InputTurn V → Type 0) → Type 0
  OfTurn n P = (t : InputTurn V) × (lookup_turn n input.turn_results ≡ ok t) × P t

  -- A keyword is in a text, or is not.
  abbrev pub In : Str → Str → Type 0
  In text k = contains text k ≡ true

  abbrev pub NotIn : Str → Str → Type 0
  NotIn text k = contains text k ≡ false

  -- A rule holds of a run: what its first field that is set asks for is so.
  abbrev pub RuleHolds : Rule V → Type 0
  RuleHolds rule =
      when_set rule.output_contains (Satisfies (In input.final_message) (NotIn input.final_message))
        (when_set rule.output_matches
          (Satisfies (λ k. lib.match_string k input.final_message ≡ ok true)
            (λ k. lib.match_string k input.final_message ≡ ok false))
          (when_set rule.exit_code (λ n. input.exit_code ≡ n)
            (when_set rule.tool_called (λ r. Some (IsCall lib r) input.transcript)
              (if not (is_empty rule.files_exist)
                then All (λ f. file_exists_in_workspace p input.workspace_path f ≡ ok true)
                    rule.files_exist
                else if not (is_empty rule.files_not_exist)
                then All (λ f. file_exists_in_workspace p input.workspace_path f ≡ ok false)
                    rule.files_not_exist
                else when_set rule.turn_response_contains
                    (λ r. OfTurn r.turn (λ t.
                      All (In t.response) r.contains_all
                      × ((is_empty r.contains_any ≡ true)
                          ⊎ First (In t.response) (NotIn t.response) r.contains_any)))
                    (when_set rule.turn_response_not_contains
                      (λ r. OfTurn r.0 (λ t. All (NotIn t.response) r.1))
                      (when_set rule.tool_called_in_turn
                        (λ r. OfTurn r.0 (λ t. Some (IsCall lib r.1) t.transcript))
                        (when_set rule.tool_not_called_in_turn
                          (λ r. OfTurn r.0 (λ t.
                            ¬ Some (IsCall lib (record { name = r.1; args = [] })) t.transcript))
                          ⊥)))))))

  abbrev Agrees : Verdict V → Type 0 → Type 0
  Agrees v P = (v.0 ≡ true) ↔ P

  -- A verdict on a turn is that on the turn that is found.
  on_turn-OfTurn :
      (n : ℤ) (check : InputTurn V → Verdict V) (P : InputTurn V → Type 0)
      → ((t : InputTurn V) → Agrees (check t) (P t))
      → Agrees (on_turn (lookup_turn n input.turn_results) check) (OfTurn n P)
  on_turn-OfTurn n check P each = (
    (λ h. elim (Result-cases (lookup_turn n input.turn_results)) [
      | inr (e, q) ↦ ground (arith, h, q)
      | inl (t, q) ↦ (t, q, (each t).0 (ground (arith, h, q)))
    ]),
    λ (t, q, h). ground (arith, q, (each t).1 h),
  )

  when_set-Agrees :
      {A : Type 0} (o : Option A) (v : A → Verdict V) (w : Verdict V) (P : A → Type 0) (Q : Type 0)
      → ((a : A) → Agrees (v a) (P a))
      → Agrees w Q
      → Agrees (when_set o v w) (when_set o P Q)
  when_set-Agrees none v w P Q h k = k
  when_set-Agrees (some a) v w P Q h k = h a

  if-Agrees :
      (b : Bool) (v w : Verdict V) (P Q : Type 0)
      → Agrees v P
      → Agrees w Q
      → Agrees (if b then v else w) (if b then P else Q)
  if-Agrees true v w P Q h k = h
  if-Agrees false v w P Q h k = k

  exit_code-Agrees : (n : ℤ) → Agrees (eval_exit_code n input.exit_code) (input.exit_code ≡ n)
  unfolding eval_exit_code
  exit_code-Agrees n =
      ((λ h. int_eq→eq input.exit_code n (ground (arith, h))), λ h. rw (h, int_eq_self n) refl)

  tool_called-Agrees :
      (r : ToolRule V) (ms : List (Message V))
      → Agrees (eval_tool_called lib r ms) (Some (IsCall lib r) ms)
  unfolding eval_tool_called
  tool_called-Agrees r ms =
      let (to, from) = any_call-Some lib r ms in
      ((λ h. to (ground (arith, h))), λ h. ground (arith, from h))

  files_exist-Agrees :
      (w : Str) (fs : List Str)
      → Agrees (eval_files_exist p fs w) (All (λ f. file_exists_in_workspace p w f ≡ ok true) fs)
  unfolding eval_files_exist
  files_exist-Agrees w fs =
      let (to, from) = first_absent-none {V = V} p w fs in
      ((λ h. to (ground (arith, h))), λ h. ground (arith, from h))

  files_not_exist-Agrees :
      (w : Str) (fs : List Str)
      → Agrees
          (eval_files_not_exist p fs w)
          (All (λ f. file_exists_in_workspace p w f ≡ ok false) fs)
  unfolding eval_files_not_exist
  files_not_exist-Agrees w fs =
      let (to, from) = first_present-none {V = V} p w fs in
      ((λ h. to (ground (arith, h))), λ h. ground (arith, from h))

  response_contains-Agrees :
      (r : TurnTexts) (t : InputTurn V)
      → Agrees (response_contains r t) (
          All (In t.response) r.contains_all
          × ((is_empty r.contains_any ≡ true)
              ⊎ First (In t.response) (NotIn t.response) r.contains_any))
  response_contains-Agrees r t =
      let (to, from) = missing_texts-nil t.response r.contains_all in
      let (to', from') = any_found-First t.response r.contains_any in
      (
        (λ h. (
          to (ground (arith, h)),
          elim (Bool-cases (is_empty r.contains_any)) [
            | inl y ↦ inl y
            | inr n ↦ inr (to' (ground (arith, h, n)))
          ],
        )),
        λ (a, b). elim b [
          | inl y ↦ ground (arith, y, from a)
          | inr f ↦ ground (arith, from' f, from a)
        ],
      )

  turn_contains-Agrees :
      (r : TurnTexts)
      → Agrees (eval_turn_response_contains r input.turn_results) (
          OfTurn r.turn (λ t.
            All (In t.response) r.contains_all
            × ((is_empty r.contains_any ≡ true)
                ⊎ First (In t.response) (NotIn t.response) r.contains_any)))
  unfolding eval_turn_response_contains
  turn_contains-Agrees r =
      on_turn-OfTurn r.turn (response_contains r) _ (response_contains-Agrees r)

  turn_not_contains-Agrees :
      (n : ℤ) (texts : List Str)
      → Agrees
          (eval_turn_response_not_contains n texts input.turn_results)
          (OfTurn n (λ t. All (NotIn t.response) texts))
  unfolding eval_turn_response_not_contains
  turn_not_contains-Agrees n texts = on_turn-OfTurn n _ _ (λ t.
      let (to, from) = first_found_text-nil t.response texts in
      ((λ h. to (ground (arith, h))), λ h. ground (arith, from h)))

  turn_called-Agrees :
      (n : ℤ) (r : ToolRule V)
      → Agrees
          (eval_tool_called_in_turn lib n r input.turn_results)
          (OfTurn n (λ t. Some (IsCall lib r) t.transcript))
  unfolding eval_tool_called_in_turn
  turn_called-Agrees n r = on_turn-OfTurn n _ _ (λ t.
      let (to, from) = any_call-Some lib r t.transcript in
      ((λ h. to (ground (arith, h))), λ h. ground (arith, from h)))

  turn_not_called-Agrees :
      (n : ℤ) (name : Str)
      → Agrees
          (eval_tool_not_called_in_turn lib n name input.turn_results)
          (OfTurn n (λ t. ¬ Some (IsCall lib (record { name = name; args = [] })) t.transcript))
  unfolding eval_tool_not_called_in_turn
  turn_not_called-Agrees n name = on_turn-OfTurn n _ _ (λ t.
      let rule : ToolRule V = record { name = name; args = [] } in
      let (to, from) = any_call-Some lib rule t.transcript in
      (
        (λ h c. absurd (ground (arith, h, from c))),
        λ h. elim (Bool-cases (any_call lib rule (tool_calls t.transcript))) [
          | inl y ↦ absurd (h (to y))
          | inr n' ↦ ground (arith, n')
        ],
      ))

  -- The evaluator of a rule says that it holds exactly if it does.
  pub evaluate_assertion-RuleHolds :
      (rule : Rule V) → ((evaluate_assertion p lib rule input).0 ≡ true) ↔ RuleHolds rule
  unfolding evaluate_assertion
  evaluate_assertion-RuleHolds rule =
      when_set-Agrees rule.output_contains _ _ _ _
        (λ r. eval_output_contains-Satisfies V r input.final_message)
        (when_set-Agrees rule.output_matches _ _ _ _
          (λ r. eval_output_matches-Satisfies lib r input.final_message)
          (when_set-Agrees rule.exit_code _ _ _ _ exit_code-Agrees (
            when_set-Agrees rule.tool_called _ _ _ _ (λ r. tool_called-Agrees r input.transcript)
              (if-Agrees (not (is_empty rule.files_exist)) _ _ _ _
                (files_exist-Agrees input.workspace_path rule.files_exist)
                (if-Agrees (not (is_empty rule.files_not_exist)) _ _ _ _
                  (files_not_exist-Agrees input.workspace_path rule.files_not_exist)
                  (when_set-Agrees rule.turn_response_contains _ _ _ _ turn_contains-Agrees (
                    when_set-Agrees rule.turn_response_not_contains _ _ _ _
                      (λ r. turn_not_contains-Agrees r.0 r.1)
                      (when_set-Agrees rule.tool_called_in_turn _ _ _ _
                        (λ r. turn_called-Agrees r.0 r.1)
                        (when_set-Agrees rule.tool_not_called_in_turn _ _ _ _
                          (λ r. turn_not_called-Agrees r.0 r.1)
                          ((λ h. absurd (cc h)), λ h. absurd h))))))))))
