-- ===== src/Evaluator/Expectations.antt =====
-- internal/evaluator/evaluator.go: the expectations of a case on top of the defaults.
pub mod Union
use skill_up.Base.{
  Bool, true, false, ◌&&◌, Option, none, some, List, [], ◌∷◌, ◌++◌, Str, is_empty, str_key, add,
  member, if◌then◌else◌,
}
use skill_up.Base.Maps.{Key}
use skill_up.Base.Int.{ℤ}
use skill_up.Config.Expect.{Slice, items, FileContainsCheck, Expect, check_key}

abbrev pub is_nil : {A : Type 0} → Option A → Bool
is_nil none = true
is_nil (some a) = false

module _ {K : Type 0} ⦃key : Key K⦄ where
  -- The body of a loop, for a text that has been seen or not.
  abbrev pub note : K → Bool → List K × List K → List K × List K
  note s true (seen, result) = (seen, result)
  note s false (seen, result) = (add s seen, result ++ s ∷ [])

  -- One of the two loops: `seen` and `result` before and after it.
  unfoldable pub keep_new : List K → List K × List K → List K × List K
  keep_new [] (seen, result) = (seen, result)
  keep_new (s ∷ rest) (seen, result) = keep_new rest (note s (member s seen) (seen, result))

  -- `var result []string`, to which the loops append.
  abbrev pub as_slice : List K → Slice K
  as_slice [] = none
  as_slice (x ∷ xs) = some (x ∷ xs)

  -- `mergeAndDeduplicate` and, at another type of keys, `mergeFileContains`.
  unfoldable pub merge_distinct : Slice K → Slice K → Slice K
  merge_distinct a b =
      if is_empty (items a) && is_empty (items b)
      then none
      else as_slice (keep_new (items b) (keep_new (items a) ([], []))).1

unfoldable pub merge_and_deduplicate : Slice Str → Slice Str → Slice Str
merge_and_deduplicate a b = merge_distinct a b

unfoldable pub merge_file_contains :
    Slice FileContainsCheck → Slice FileContainsCheck → Slice FileContainsCheck
merge_file_contains a b = merge_distinct a b

abbrev pub overriding : Option ℤ → Option ℤ → Option ℤ
overriding default none = default
overriding default (some n) = some n

abbrev pub overriding_text : Str → Str → Str
overriding_text default [] = default
overriding_text default (c ∷ s) = c ∷ s

abbrev empty_expect : Expect
empty_expect = record {
  must_contain = none;
  must_not_contain = none;
  exit_code = none;
  files_exist = none;
  files_not_exist = none;
  golden_file = [];
  file_contains = none;
}

unfoldable pub merge_expect_config : Option Expect → Option Expect → Expect
merge_expect_config none none = empty_expect
merge_expect_config none (some c) = c
merge_expect_config (some d) none = d
merge_expect_config (some d) (some c) = record {
  must_contain = merge_and_deduplicate d.must_contain c.must_contain;
  must_not_contain = merge_and_deduplicate d.must_not_contain c.must_not_contain;
  exit_code = overriding d.exit_code c.exit_code;
  files_exist = merge_and_deduplicate d.files_exist c.files_exist;
  files_not_exist = merge_and_deduplicate d.files_not_exist c.files_not_exist;
  golden_file = overriding_text d.golden_file c.golden_file;
  file_contains = merge_file_contains d.file_contains c.file_contains;
}

unfoldable pub resolve_expect_config : Expect → Option Expect
resolve_expect_config e =
    if is_nil e.must_contain
      && is_nil e.must_not_contain
      && is_nil e.exit_code
      && is_nil e.files_exist
      && is_nil e.files_not_exist
      && is_empty e.golden_file
      && is_nil e.file_contains
    then none
    else some e
