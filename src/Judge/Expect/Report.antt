-- ===== src/Judge/Expect/Report.antt =====
-- internal/judge/expect.go: the assertions that a report gets from the expectations.
use skill_up.Base.{
  ◌≡◌, refl, ◌↔◌, Bool, true, false, Option, none, some, List, [], ◌∷◌, ◌++◌, Str, is_empty, All,
  All-append, arith, lookup, insert, member, str_key, str_eq_refl, lookup-insert_self,
  lookup-insert-some,
}
use skill_up.Base.Int.{ℤ}
use skill_up.Config.Expect.{FileContainsCheck, Expect}
use skill_up.Judge.Verdict.{HasPassed}
use skill_up.Judge.Files.{Platform}
use skill_up.Judge.Expect.{
  Input, Detail, ExpectFailure, Checked, run_rule, must_contain_rule, must_not_contain_rule,
  exit_code_rule, files_exist_rule, files_not_exist_rule, golden_file_rule, file_contains_rule,
  check_must_contain, check_must_not_contain, check_exit_code, check_files_exist,
  check_files_not_exist, check_golden_file, check_file_contains, check_rules, check_expect,
  collect_details, assertions_of, to_assertion_results,
}

-- A failure is one of a rule.
abbrev Of : Str → ExpectFailure → Type 0
Of rule f = f.rule ≡ rule

check_must_contain-Of :
    (ks : List Str) (m : Str) → All (Of must_contain_rule) (check_must_contain ks m)
unfolding check_must_contain
check_must_contain-Of [] m = tt
check_must_contain-Of (k ∷ ks) m = ground (arith, check_must_contain-Of ks m)

check_must_not_contain-Of :
    (ks : List Str) (m : Str) → All (Of must_not_contain_rule) (check_must_not_contain ks m)
unfolding check_must_not_contain
check_must_not_contain-Of [] m = tt
check_must_not_contain-Of (k ∷ ks) m = ground (arith, check_must_not_contain-Of ks m)

check_exit_code-Of :
    (n : Option ℤ) (actual : ℤ) → All (Of exit_code_rule) (check_exit_code n actual)
unfolding check_exit_code
check_exit_code-Of none actual = tt
check_exit_code-Of (some n) actual = ground arith

check_files_exist-Of :
    (p : Platform) (fs : List Str) (w : Str) → All (Of files_exist_rule) (check_files_exist p fs w)
unfolding check_files_exist
check_files_exist-Of p [] w = tt
check_files_exist-Of p (f ∷ fs) w = ground (arith, check_files_exist-Of p fs w)

check_files_not_exist-Of :
    (p : Platform) (fs : List Str) (w : Str)
    → All (Of files_not_exist_rule) (check_files_not_exist p fs w)
unfolding check_files_not_exist
check_files_not_exist-Of p [] w = tt
check_files_not_exist-Of p (f ∷ fs) w = ground (arith, check_files_not_exist-Of p fs w)

check_golden_file-Of :
    (p : Platform) (golden message skill_dir workspace : Str)
    → All (Of golden_file_rule) (check_golden_file p golden message skill_dir workspace)
unfolding check_golden_file
check_golden_file-Of p golden message skill_dir workspace = ground arith

check_file_contains-Of :
    (p : Platform) (fcs : List FileContainsCheck) (w : Str)
    → All (Of file_contains_rule) (check_file_contains p fcs w)
unfolding check_file_contains
check_file_contains-Of p [] w = tt
check_file_contains-Of p (fc ∷ fcs) w = ground (arith, check_file_contains-Of p fcs w)

-- A failure is one of the rules that were configured.
abbrev Listed : List Str → ExpectFailure → Type 0
Listed rules f = member f.rule rules ≡ true

member-append : (r : Str) (xs ys : List Str) → member r xs ≡ true → member r (xs ++ ys) ≡ true
unfolding member
member-append r [] ys h = cc
member-append r (x ∷ xs) ys h = ground (arith, member-append r xs ys)

member-last : (r : Str) (xs : List Str) → member r (xs ++ r ∷ []) ≡ true
unfolding member
member-last r [] = rw (str_eq_refl r) refl
member-last r (x ∷ xs) = ground (arith, member-last r xs)

Listed-append :
    (rules more : List Str) (fs : List ExpectFailure)
    → All (Listed rules) fs
    → All (Listed (rules ++ more)) fs
Listed-append rules more [] h = tt
Listed-append rules more (f ∷ fs) h =
    (member-append f.rule rules more h.0, Listed-append rules more fs h.1)

Of-Listed :
    (rule : Str) (rules : List Str) (fs : List ExpectFailure)
    → All (Of rule) fs
    → All (Listed (rules ++ rule ∷ [])) fs
Of-Listed rule rules [] h = tt
Of-Listed rule rules (f ∷ fs) h = (rw (h.0) (member-last rule rules), Of-Listed rule rules fs h.1)

abbrev Covered : Checked → Type 0
Covered (failures, rules) = All (Listed rules) failures

run_rule-Covered :
    (configured : Bool) (rule : Str) (found : List ExpectFailure) (c : Checked)
    → All (Of rule) found
    → Covered c
    → Covered (run_rule configured rule found c)
unfolding run_rule
run_rule-Covered false rule found (fs, rules) h v = v
run_rule-Covered true rule found (fs, rules) h v =
    All-append _ fs found (Listed-append rules (rule ∷ []) fs v) (Of-Listed rule rules found h)

check_rules-Covered : (p : Platform) (e : Expect) (input : Input) → Covered (check_rules p e input)
unfolding check_rules
check_rules-Covered p e input = run_rule-Covered _ _ _ _ (check_file_contains-Of p _ _) (
    run_rule-Covered _ _ _ _ (check_golden_file-Of p _ _ _ _) (
      run_rule-Covered _ _ _ _ (check_files_not_exist-Of p _ _) (
        run_rule-Covered _ _ _ _ (check_files_exist-Of p _ _) (
          run_rule-Covered _ _ _ _ (check_exit_code-Of _ _) (
            run_rule-Covered _ _ _ _ (check_must_not_contain-Of _ _)
              (run_rule-Covered _ _ _ ([], []) (check_must_contain-Of _ _) tt))))))

-- A rule that has details keeps having some.
collect_details-some :
    (fs : List ExpectFailure) (m : List (Str × List Detail)) (r : Str) (ds : List Detail)
    → lookup r m ≡ some ds
    → (w : List Detail) × (lookup r (collect_details fs m) ≡ some w)
unfolding collect_details
collect_details-some [] m r ds h = (ds, h)
collect_details-some (f ∷ fs) m r ds h =
    let (w, q) = lookup-insert-some f.rule r _ ds m h in
    collect_details-some fs (insert f.rule _ m) r w q

assertions_of-fail :
    (format : Detail → Str) (rules : List Str) (m : List (Str × List Detail)) (r : Str)
    (ds : List Detail)
    → member r rules ≡ true
    → lookup r m ≡ some ds
    → ¬ All HasPassed (assertions_of format rules m)
unfolding assertions_of member
assertions_of-fail format [] m r ds h q a = cc
assertions_of-fail format (x ∷ rules) m r ds h q a =
    ground (arith, h, q, a.0, str_key.eq_sound x r, assertions_of-fail format rules m r ds, a.1)

assertions_of-pass :
    (format : Detail → Str) (rules : List Str) → All HasPassed (assertions_of format rules [])
unfolding assertions_of lookup
assertions_of-pass format [] = tt
assertions_of-pass format (r ∷ rules) = (refl, assertions_of-pass format rules)

results_of-passed :
    (format : Detail → Str) (fs : List ExpectFailure) (rules : List Str) (passed : Bool)
    → passed ≡ is_empty fs
    → All (Listed rules) fs
    → All HasPassed (
        to_assertion_results format
          (record { passed = passed; failures = fs; configured_rules = rules }))
      ↔ (passed ≡ true)
unfolding to_assertion_results collect_details
results_of-passed format [] rules passed e h = ((λ a. e), λ q. assertions_of-pass format rules)
results_of-passed format (f ∷ fs) rules passed e h =
    let (ds, q) = collect_details-some fs _ f.rule _ (lookup-insert_self f.rule _ []) in
    ((λ a. absurd (assertions_of-fail format rules _ f.rule ds h.0 q a)), λ r. cc)

-- The report of a pre-check shows only assertions that passed exactly if the pre-check passed:
-- each failure is under a rule that the report has a line for.
pub to_assertion_results-check_expect :
    (format : Detail → Str) (p : Platform) (e : Option Expect) (input : Input)
    → All HasPassed (to_assertion_results format (check_expect p e input))
      ↔ ((check_expect p e input).passed ≡ true)
unfolding check_expect
to_assertion_results-check_expect format p none input = results_of-passed format [] [] true refl tt
to_assertion_results-check_expect format p (some e) input =
    results_of-passed format _ _ _ refl (check_rules-Covered p e input)
