-- ===== src/Judge/Expect/Met.antt =====
-- internal/judge/expect.go: what it means that the expectations are met.
use skill_up.Base.{
  ◌≡◌, refl, ◌↔◌, ◌⊎◌, Bool, true, false, not, Option, none, some, List, [], ◌∷◌, ◌++◌, Str,
  contains, is_empty, All, arith, ok,
}
use skill_up.Base.Int.{ℤ}
use skill_up.Base.Trim.{trim_space}
use skill_up.Config.Expect.{items, FileContainsCheck, Expect}
use skill_up.Judge.Files.{Platform, file_exists_in_workspace}
use skill_up.Judge.Expect.{
  Input, ExpectFailure, Checked, run_rule, is_set, golden_base, check_exit_code, check_golden_file,
  check_rules, check_expect,
}
use skill_up.Judge.Expect.Checks.{
  ExitsWith, HasText, check_must_contain-nil, check_must_not_contain-nil, check_exit_code-nil,
  check_files_exist-nil, check_files_not_exist-nil, check_golden_file-nil, check_file_contains-nil,
}

-- Every expectation holds of what a run left behind.
pub record IsMet (p : Platform) (e : Expect) (input : Input) : Type 0 where
  pub contained : All (λ (k : Str). contains input.final_message k ≡ true) (items e.must_contain)
  pub not_contained :
      All (λ (k : Str). contains input.final_message k ≡ false) (items e.must_not_contain)
  pub exits : ExitsWith e.exit_code input.exit_code
  pub existing :
      All
        (λ (f : Str). file_exists_in_workspace p input.workspace_path f ≡ ok true)
        (items e.files_exist)
  pub not_existing :
      All
        (λ (f : Str). file_exists_in_workspace p input.workspace_path f ≡ ok false)
        (items e.files_not_exist)
  pub golden :
      (is_empty e.golden_file ≡ true)
      ⊎ HasText p
          (golden_base input.skill_dir input.workspace_path)
          e.golden_file
          (λ (t : Str). trim_space t ≡ trim_space input.final_message)
  pub texts :
      All
        (λ (fc : FileContainsCheck).
          HasText p input.workspace_path fc.path (λ (t : Str). contains t fc.content ≡ true))
        (items e.file_contains)

append-eq-nil : (xs ys : List ExpectFailure) → ((xs ++ ys) ≡ []) ↔ ((xs ≡ []) × (ys ≡ []))
append-eq-nil [] ys = ((λ h. (refl, h)), λ h. h.1)
append-eq-nil (x ∷ xs) ys = ((λ h. cc), λ h. cc)

-- A rule whose checks find nothing where it is not configured adds what its checks find.
run_rule-nil :
    (configured : Bool) (rule : Str) (found : List ExpectFailure) (c : Checked)
    → (configured ≡ false → found ≡ [])
    → ((run_rule configured rule found c).0 ≡ []) ↔ ((c.0 ≡ []) × (found ≡ []))
unfolding run_rule
run_rule-nil true rule found (fs, rs) off = append-eq-nil fs found
run_rule-nil false rule found (fs, rs) off = ((λ h. (h, off refl)), λ h. h.0)

-- A rule over a list of checks adds those of all its entries.
run_rule-All :
    {A : Type 0} (P : A → Type 0) (xs : List A) (rule : Str) (found : List ExpectFailure)
    (c : Checked)
    → ((found ≡ []) ↔ All P xs)
    → ((run_rule (not (is_empty xs)) rule found c).0 ≡ []) ↔ ((c.0 ≡ []) × All P xs)
run_rule-All P [] rule found c (to, from) =
    let (a, b) = run_rule-nil false rule found c (λ h. from tt) in
    ((λ h. ((a h).0, tt)), λ h. b (h.0, from tt))
run_rule-All P (x ∷ xs) rule found c (to, from) =
    let (a, b) = run_rule-nil true rule found c (λ h. absurd (cc h)) in
    ((λ h. ((a h).0, to (a h).1)), λ h. b (h.0, from h.1))

exit_rule-nil :
    (n : Option ℤ) (actual : ℤ) (rule : Str) (c : Checked)
    → ((run_rule (is_set n) rule (check_exit_code n actual) c).0 ≡ [])
      ↔ ((c.0 ≡ []) × (check_exit_code n actual ≡ []))
unfolding check_exit_code
exit_rule-nil none actual rule c = run_rule-nil false rule _ c (λ h. refl)
exit_rule-nil (some n) actual rule c = run_rule-nil true rule _ c (λ h. absurd (cc h))

golden_rule-nil :
    (p : Platform) (golden message skill_dir workspace rule : Str) (c : Checked)
    → ((run_rule
          (not (is_empty golden))
          rule
          (check_golden_file p golden message skill_dir workspace)
          c).0
        ≡ [])
      ↔ ((c.0 ≡ []) × (check_golden_file p golden message skill_dir workspace ≡ []))
unfolding check_golden_file
golden_rule-nil p [] message skill_dir workspace rule c = run_rule-nil false rule _ c (λ h. refl)
golden_rule-nil p (b ∷ s) message skill_dir workspace rule c =
    run_rule-nil true rule _ c (λ h. absurd (cc h))

-- The rules find no failure exactly if every expectation is met.
check_rules-nil :
    (p : Platform) (e : Expect) (input : Input) → ((check_rules p e input).0 ≡ []) ↔ IsMet p e input
unfolding check_rules
check_rules-nil p e input =
    let m = input.final_message in
    let w = input.workspace_path in
    let (to1, from1) =
      run_rule-All _ (items e.must_contain) _ _ ([], [])
        (check_must_contain-nil m (items e.must_contain)) in
    let (to2, from2) =
      run_rule-All _ (items e.must_not_contain) _ _ _
        (check_must_not_contain-nil m (items e.must_not_contain)) in
    let (to3, from3) = exit_rule-nil e.exit_code input.exit_code _ _ in
    let (to3', from3') = check_exit_code-nil e.exit_code input.exit_code in
    let (to4, from4) =
      run_rule-All _ (items e.files_exist) _ _ _
        (check_files_exist-nil p w (items e.files_exist)) in
    let (to5, from5) =
      run_rule-All _ (items e.files_not_exist) _ _ _
        (check_files_not_exist-nil p w (items e.files_not_exist)) in
    let (to6, from6) = golden_rule-nil p e.golden_file m input.skill_dir w _ _ in
    let (to6', from6') = check_golden_file-nil p e.golden_file m input.skill_dir w in
    let (to7, from7) =
      run_rule-All _ (items e.file_contains) _ _ _
        (check_file_contains-nil p w (items e.file_contains)) in
    (
      (λ h.
          let (h6, texts) = to7 h in
          let (h5, golden) = to6 h6 in
          let (h4, not_existing) = to5 h5 in
          let (h3, existing) = to4 h4 in
          let (h2, exits) = to3 h3 in
          let (h1, not_contained) = to2 h2 in
          let (h0, contained) = to1 h1 in
          record {
            contained = contained;
            not_contained = not_contained;
            exits = to3' exits;
            existing = existing;
            not_existing = not_existing;
            golden = to6' golden;
            texts = texts;
          }),
      λ v. from7 (
        from6 (
          from5 (
            from4 (
              from3 (from2 (from1 (refl, v.contained), v.not_contained), from3' v.exits),
              v.existing,
            ),
            v.not_existing,
          ),
          from6' v.golden,
        ),
        v.texts,
      ),
    )

-- The pre-check passes exactly if every configured expectation is met: each text is there or
-- not there, the exit code is the one, each file exists or does not, the golden file is the final
-- message up to white space around it, and each file can be read and has its text.
pub check_expect-passed_iff :
    (p : Platform) (e : Expect) (input : Input)
    → ((check_expect p (some e) input).passed ≡ true) ↔ IsMet p e input
unfolding check_expect
check_expect-passed_iff p e input =
    let (to, from) = check_rules-nil p e input in
    ((λ h. to (is_empty_iff h)), λ v. rw (from v) refl)
  where
    is_empty_iff : {xs : List ExpectFailure} → is_empty xs ≡ true → xs ≡ []
    is_empty_iff {xs} h = ground (arith, h)
