-- ===== src/Judge/Expect.antt =====
-- internal/judge/expect.go: the expectations that are checked before any judge.
pub mod Checks
pub mod Met
pub mod Report
use skill_up.Base.{
  ℕ, zero, suc, ◌+◌, ◌-◌, Bool, true, false, not, Option, none, some, List, [], ◌∷◌, ◌++◌, map, Str,
  codes, length, contains, is_empty, str_eq, min, ltb, ◌==◌, if◌then◌else◌, Result, ok, err, lookup,
  insert, str_key,
}
use skill_up.Base.Int.{ℤ, int_eq}
use skill_up.Base.Trim.{trim_space, join}
use skill_up.Config.Expect.{items, FileContainsCheck, Expect}
use skill_up.Judge.{AssertionResult}
use skill_up.Judge.Files.{Platform, PathErr, safe_path, file_exists_in_workspace}

-- Of `judge.Input`, what the expectations read.
pub record Input : Type 0 where
  pub final_message : Str
  pub exit_code : ℤ
  pub workspace_path : Str
  pub skill_dir : Str

pub data Hint : Type 0 where
  first_diff : ℕ → Str → Str → Hint
  length_mismatch : ℕ → ℕ → Hint
  unknown_diff : Hint

-- What a failure's text says, before `fmt.Sprintf` writes it out.
pub data Detail : Type 0 where
  missing_keyword forbidden_keyword file_missing file_present : Str → Detail
  exit_code_differs : ℤ → ℤ → Detail
  invalid_path invalid_golden_path : Str → PathErr → Detail
  unreadable_file unreadable_golden : Str → Str → Detail
  golden_differs : Str → Hint → Detail
  text_missing : Str → Str → Detail

pub record ExpectFailure : Type 0 where
  pub rule : Str
  pub detail : Detail

pub record ExpectResult : Type 0 where
  pub passed : Bool
  pub failures : List ExpectFailure
  pub configured_rules : List Str

abbrev fail_with : Str → Detail → ExpectFailure
fail_with rule detail = record { rule = rule; detail = detail }

abbrev pub must_contain_rule : Str
must_contain_rule = codes "must_contain"

abbrev pub must_not_contain_rule : Str
must_not_contain_rule = codes "must_not_contain"

abbrev pub exit_code_rule : Str
exit_code_rule = codes "exit_code"

abbrev pub files_exist_rule : Str
files_exist_rule = codes "files_exist"

abbrev pub files_not_exist_rule : Str
files_not_exist_rule = codes "files_not_exist"

abbrev pub golden_file_rule : Str
golden_file_rule = codes "golden_file"

abbrev pub file_contains_rule : Str
file_contains_rule = codes "file_contains"

unfoldable pub check_must_contain : List Str → Str → List ExpectFailure
check_must_contain [] message = []
check_must_contain (kw ∷ kws) message =
    let rest = check_must_contain kws message in
    if contains message kw then rest else fail_with must_contain_rule (missing_keyword kw) ∷ rest

unfoldable pub check_must_not_contain : List Str → Str → List ExpectFailure
check_must_not_contain [] message = []
check_must_not_contain (kw ∷ kws) message =
    let rest = check_must_not_contain kws message in
    if contains message kw
    then fail_with must_not_contain_rule (forbidden_keyword kw) ∷ rest
    else rest

unfoldable pub check_exit_code : Option ℤ → ℤ → List ExpectFailure
check_exit_code none actual = []
check_exit_code (some expected) actual =
    if int_eq actual expected
    then []
    else fail_with exit_code_rule (exit_code_differs expected actual) ∷ []

-- The body of the loop of `checkFilesExist`.
abbrev required_file : Str → Result PathErr Bool → List ExpectFailure → List ExpectFailure
required_file f (err e) rest = fail_with files_exist_rule (invalid_path f e) ∷ rest
required_file f (ok true) rest = rest
required_file f (ok false) rest = fail_with files_exist_rule (file_missing f) ∷ rest

unfoldable pub check_files_exist : Platform → List Str → Str → List ExpectFailure
check_files_exist p [] workspace = []
check_files_exist p (f ∷ fs) workspace =
    required_file f (file_exists_in_workspace p workspace f) (check_files_exist p fs workspace)

-- The body of the loop of `checkFilesNotExist`.
abbrev forbidden_file : Str → Result PathErr Bool → List ExpectFailure → List ExpectFailure
forbidden_file f (err e) rest = fail_with files_not_exist_rule (invalid_path f e) ∷ rest
forbidden_file f (ok true) rest = fail_with files_not_exist_rule (file_present f) ∷ rest
forbidden_file f (ok false) rest = rest

unfoldable pub check_files_not_exist : Platform → List Str → Str → List ExpectFailure
check_files_not_exist p [] workspace = []
check_files_not_exist p (f ∷ fs) workspace =
    forbidden_file f (file_exists_in_workspace p workspace f) (check_files_not_exist p fs workspace)

unfoldable pub drop : ℕ → Str → Str
drop zero s = s
drop (suc n) [] = []
drop (suc n) (x ∷ s) = drop n s

unfoldable pub take : ℕ → Str → Str
take zero s = []
take (suc n) [] = []
take (suc n) (x ∷ s) = x ∷ take n s

-- The loop of `diffHint` from offset `i` on; `none` if it finds no difference.
unfoldable pub first_difference : ℕ → Str → Str → Option ℕ
first_difference i [] actual = none
first_difference i (x ∷ xs) [] = none
first_difference i (x ∷ xs) (y ∷ ys) =
    let rest = first_difference (suc i) xs ys in if x == y then rest else some i

-- `s[max(i-20, 0):min(i+20, maxLen)]`.
abbrev window : ℕ → ℕ → Str → Str
window i max_len s = let start = i - 20 in take (min (i + 20) max_len - start) (drop start s)

abbrev hint_of : Option ℕ → Str → Str → Hint
hint_of (some i) expected actual =
    let max_len = min (length expected) (length actual) in
    first_diff i (window i max_len expected) (window i max_len actual)
hint_of none expected actual =
    if length expected == length actual
    then unknown_diff
    else length_mismatch (length expected) (length actual)

unfoldable pub diff_hint : Str → Str → Hint
diff_hint expected actual = hint_of (first_difference 0 expected actual) expected actual

-- What is done with the contents of the golden file.
abbrev compare_golden : Str → Str → Result Str Str → List ExpectFailure
compare_golden golden message (err e) = fail_with golden_file_rule (unreadable_golden golden e) ∷ []
compare_golden golden message (ok text) =
    let expected = trim_space text in
    let actual = trim_space message in
    if str_eq expected actual
    then []
    else fail_with golden_file_rule (golden_differs golden (diff_hint expected actual)) ∷ []

abbrev read_golden : Platform → Str → Str → Result PathErr Str → List ExpectFailure
read_golden p golden message (err e) =
    fail_with golden_file_rule (invalid_golden_path golden e) ∷ []
read_golden p golden message (ok abs) = compare_golden golden message (p.read_file abs)

abbrev pub golden_base : Str → Str → Str
golden_base skill_dir workspace = if is_empty skill_dir then workspace else skill_dir

unfoldable pub check_golden_file : Platform → Str → Str → Str → Str → List ExpectFailure
check_golden_file p golden message skill_dir workspace =
    if is_empty golden
    then []
    else read_golden p golden message (safe_path p (golden_base skill_dir workspace) golden)

abbrev find_text : FileContainsCheck → Result Str Str → List ExpectFailure → List ExpectFailure
find_text fc (err e) rest = fail_with file_contains_rule (unreadable_file fc.path e) ∷ rest
find_text fc (ok text) rest =
    if contains text fc.content
    then rest
    else fail_with file_contains_rule (text_missing fc.path fc.content) ∷ rest

-- The body of the loop of `checkFileContains`.
abbrev read_checked :
    Platform → FileContainsCheck → Result PathErr Str → List ExpectFailure → List ExpectFailure
read_checked p fc (err e) rest = fail_with file_contains_rule (invalid_path fc.path e) ∷ rest
read_checked p fc (ok abs) rest = find_text fc (p.read_file abs) rest

unfoldable pub check_file_contains : Platform → List FileContainsCheck → Str → List ExpectFailure
check_file_contains p [] workspace = []
check_file_contains p (fc ∷ fcs) workspace =
    read_checked p fc (safe_path p workspace fc.path) (check_file_contains p fcs workspace)

-- `failures` and `configuredRules`.
abbrev pub Checked : Type 0
Checked = List ExpectFailure × List Str

-- One rule: if it is configured, its name and its failures are appended.
unfoldable pub run_rule : Bool → Str → List ExpectFailure → Checked → Checked
run_rule configured rule found (failures, rules) =
    if configured then (failures ++ found, rules ++ rule ∷ []) else (failures, rules)

abbrev pub is_set : Option ℤ → Bool
is_set none = false
is_set (some n) = true

unfoldable pub check_rules : Platform → Expect → Input → Checked
check_rules p e input =
    let files = input.workspace_path in
    let message = input.final_message in
    run_rule (not (is_empty (items e.file_contains))) file_contains_rule
      (check_file_contains p (items e.file_contains) files)
      (run_rule (not (is_empty e.golden_file)) golden_file_rule
        (check_golden_file p e.golden_file message input.skill_dir files)
        (run_rule (not (is_empty (items e.files_not_exist))) files_not_exist_rule
          (check_files_not_exist p (items e.files_not_exist) files)
          (run_rule (not (is_empty (items e.files_exist))) files_exist_rule
            (check_files_exist p (items e.files_exist) files)
            (run_rule (is_set e.exit_code) exit_code_rule
              (check_exit_code e.exit_code input.exit_code)
              (run_rule (not (is_empty (items e.must_not_contain))) must_not_contain_rule
                (check_must_not_contain (items e.must_not_contain) message)
                (run_rule (not (is_empty (items e.must_contain))) must_contain_rule
                  (check_must_contain (items e.must_contain) message) ([], [])))))))

unfoldable pub check_expect : Platform → Option Expect → Input → ExpectResult
check_expect p none input = record { passed = true; failures = []; configured_rules = [] }
check_expect p (some e) input =
    let (failures, rules) = check_rules p e input in
    record { passed = is_empty failures; failures = failures; configured_rules = rules }

-- `failDetails[f.Rule] = append(failDetails[f.Rule], f.Detail)`.
abbrev details_so_far : Option (List Detail) → List Detail
details_so_far none = []
details_so_far (some ds) = ds

unfoldable pub collect_details :
    List ExpectFailure → List (Str × List Detail) → List (Str × List Detail)
collect_details [] m = m
collect_details (f ∷ fs) m =
    collect_details fs (insert f.rule (details_so_far (lookup f.rule m) ++ f.detail ∷ []) m)

-- The result for one rule; `format` is what `fmt.Sprintf` makes of a failure.
abbrev pub assertion_of : (Detail → Str) → Str → Option (List Detail) → AssertionResult
assertion_of format rule (some details) = record {
  text = codes "expect." ++ rule;
  passed = false;
  evidence = join (codes "; ") (map format details);
}
assertion_of format rule none = record {
  text = codes "expect." ++ rule;
  passed = true;
  evidence = codes "all checks passed";
}

unfoldable pub assertions_of :
    (Detail → Str) → List Str → List (Str × List Detail) → List AssertionResult
assertions_of format [] details = []
assertions_of format (rule ∷ rules) details =
    assertion_of format rule (lookup rule details) ∷ assertions_of format rules details

unfoldable pub to_assertion_results : (Detail → Str) → ExpectResult → List AssertionResult
to_assertion_results format r =
    assertions_of format r.configured_rules (collect_details r.failures [])
