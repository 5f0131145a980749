-- ===== src/Judge/Tests.antt =====
-- internal/judge: verdicts and contexts at which the theorems are applied.
use skill_up.Base.{
  ◌≡◌, refl, ◌↔◌, true, false, Option, none, some, List, [], ◌∷◌, Str, codes, length, count, All,
}
use skill_up.Base.Int.{ℤ, pos, negsuc}
use skill_up.Event.Validate.{validate_pass_rate}
use skill_up.Judge.{Status, AssertionResult}
use skill_up.Judge.Verdict.{
  HasPassed, IsRate, is_passed, is_failed, new_result, tally_assertions, new_result-status,
  new_result-summary,
}
use skill_up.Base.{str_eq, has_prefix, contains, map, ok, lookup, member, str_key, nat_key, ◌++◌}
use skill_up.Base.Int.{int_eq}
use skill_up.Base.Trim.{join, trim_space}
use skill_up.Config.Expect.{Expect}
use skill_up.Multiturn.{any_found, first_found_text}
use skill_up.Shellquote.{quote_posix}
use skill_up.Judge.Files.{Platform, Stat, safe_path, file_exists_in_workspace}
use skill_up.Judge.Expect.{
  Input, check_expect, check_rules, run_rule, check_must_contain, check_must_not_contain,
  check_exit_code, check_files_exist, check_files_not_exist, check_golden_file, check_file_contains,
  to_assertion_results,
}
use skill_up.Judge.Expect.Met.{IsMet, check_expect-passed_iff}
use skill_up.Judge.Expect.Report.{to_assertion_results-check_expect}
use skill_up.Judge.Rules.{
  Rule, RuleInput, Library, role_tool_call, eval_output_contains, tool_calls, missing_texts,
}
use skill_up.Judge.Rules.Patterns.{eval_tool_called, any_call, args_match}
use skill_up.Judge.Rules.Evaluate.{
  Format, evaluate, matched_failures, success_assertions, evaluate_assertion,
}
use skill_up.Judge.Rules.Holds.{RuleHolds}
use skill_up.Judge.Rules.Outcome.{evaluate-pass_iff}
use skill_up.Judge.Interpreter.{
  flush, tokenize_step_single, tokenize_step_double, tokenize_step_unquoted, escape_unquoted,
  tokenize_step, tokenize_bytes, tokenize_shebang_split_string, assignment_from, is_env_assignment,
  interpreter_from_args, split_string_interpreter, parse_env_shebang, parse_shebang,
}
use skill_up.Judge.Interpreter.Quoted.{split_string_interpreter-quote_posix}
use skill_up.Judge.Merge.{JudgeContextConfig, JudgeContextAttachment, merge_judge_context_config}
use skill_up.Judge.Merge.Settings.{
  profile, max_bytes, text_of, limit_of, attachments_of, attached, text_over, limit_over,
  attachments_over, merge_judge_context_config-over,
}

abbrev assertions : List AssertionResult
assertions =
    record { text = codes "a"; passed = true; evidence = [] }
    ∷ record { text = codes "b"; passed = false; evidence = [] }
    ∷ []

new_result-status_example :
    (((new_result assertions (pos 1) (pos 2)).status ≡ Status.pass) ↔ All HasPassed assertions)
    × (((new_result assertions (pos 1) (pos 2)).status ≡ Status.fail)
        ↔ (¬ All HasPassed assertions))
new_result-status_example = new_result-status assertions (pos 1) (pos 2)

new_result-summary_example :
    let s = (new_result assertions (pos 1) (pos 2)).summary in
    (s.passed ≡ count is_passed assertions)
    × (s.failed ≡ count is_failed assertions)
    × (s.total ≡ length assertions)
    × IsRate assertions s.pass_rate
    × (validate_pass_rate (some s.pass_rate) ≡ none)
new_result-summary_example = new_result-summary assertions (pos 1) (pos 2)

abbrev context_with : Str → ℤ → Option (List JudgeContextAttachment) → JudgeContextConfig
context_with name bytes attachments = record {
  profile = name;
  final_message = [];
  transcript = [];
  workspace_diff = [];
  generated_files = [];
  limits = some (record {
    max_bytes = bytes;
    transcript_max_turns = pos 0;
    workspace_diff_max_lines = negsuc 4;
  });
  attachments = attachments;
}

abbrev outer : Option JudgeContextConfig
outer =
    some (context_with (codes "full") (pos 0) (some (record { path = codes "p"; label = [] } ∷ [])))

abbrev inner : Option JudgeContextConfig
inner = some (context_with [] (pos 9) none)

merge_judge_context_config-over_example :
    let m = merge_judge_context_config outer inner in
    (text_of profile m ≡ text_over (text_of profile inner) (text_of profile outer))
    × (limit_of max_bytes m ≡ limit_over (limit_of max_bytes inner) (limit_of max_bytes outer))
    × (attached (attachments_of m) ≡ attachments_over (attachments_of inner) (attachments_of outer))
merge_judge_context_config-over_example =
    merge_judge_context_config-over profile max_bytes outer inner

-- A file system in which every file exists and reads `hello`.
abbrev pub full_platform : Platform
full_platform = record {
  path_join = λ w r. w ++ (47 ∷ r);
  clean = λ p. p;
  stat = λ p. Stat.present;
  read_file = λ p. ok (codes "hello");
}

abbrev pub hello_expect : Expect
hello_expect = record {
  must_contain = some (codes "ell" ∷ []);
  must_not_contain = none;
  exit_code = some (pos 0);
  files_exist = some (codes "a.txt" ∷ []);
  files_not_exist = none;
  golden_file = codes "golden";
  file_contains = none;
}

abbrev pub hello_input : Input
hello_input = record {
  final_message = codes " hello";
  exit_code = pos 0;
  workspace_path = codes "/w";
  skill_dir = [];
}

hello-passes : (check_expect full_platform (some hello_expect) hello_input).passed ≡ true
unfolding check_expect check_rules run_rule check_must_contain check_must_not_contain
    check_exit_code check_files_exist check_files_not_exist check_golden_file check_file_contains
    file_exists_in_workspace safe_path contains has_prefix str_eq int_eq trim_space
hello-passes = refl

check_expect-passed_iff_example :
    ((check_expect full_platform (some hello_expect) hello_input).passed ≡ true)
    ↔ IsMet full_platform hello_expect hello_input
check_expect-passed_iff_example = check_expect-passed_iff full_platform hello_expect hello_input

to_assertion_results-check_expect_example :
    All HasPassed
      (to_assertion_results (λ d. []) (check_expect full_platform (some hello_expect) hello_input))
    ↔ ((check_expect full_platform (some hello_expect) hello_input).passed ≡ true)
to_assertion_results-check_expect_example =
    to_assertion_results-check_expect (λ d. []) full_platform (some hello_expect) hello_input

abbrev no_rule : Rule Str
no_rule = record {
  output_contains = none;
  output_matches = none;
  exit_code = none;
  tool_called = none;
  files_exist = [];
  files_not_exist = [];
  turn_response_contains = none;
  turn_response_not_contains = none;
  tool_called_in_turn = none;
  tool_not_called_in_turn = none;
}

abbrev hello_rule : Rule Str
hello_rule = record no_rule {
  output_contains =
      some (record { all = codes "hello" ∷ []; any = []; none_of = codes "bye" ∷ [] });
}

abbrev read_rule : Rule Str
read_rule = record no_rule {
  tool_called = some (record { name = codes "read"; args = (codes "path", codes "a") ∷ [] });
}

abbrev hello_run : RuleInput Str
hello_run = record {
  final_message = codes "hello you";
  exit_code = pos 0;
  workspace_path = codes "/w";
  transcript =
      record {
        role = role_tool_call;
        tool_call =
            some (record { name = codes "read"; arguments = (codes "path", codes "a") ∷ [] });
      }
      ∷ [];
  turn_results = [];
  turns_executed = pos 1;
  turns_total = pos 1;
}

abbrev plain_library : Library Str
plain_library = record { match_string = λ k m. ok (contains m k); show = λ s. s }

abbrev silent : Format Str
silent = record { text = λ r v. []; evidence = λ r v. [] }

both_rules :
    (evaluate full_platform plain_library silent
      (hello_rule ∷ read_rule ∷ [])
      (no_rule ∷ [])
      hello_run).status
    ≡ Status.pass
unfolding evaluate matched_failures success_assertions evaluate_assertion eval_output_contains
    eval_tool_called any_call tool_calls args_match missing_texts any_found first_found_text
    new_result tally_assertions contains has_prefix str_eq lookup
both_rules = refl

evaluate-pass_iff_example :
    ((evaluate full_platform plain_library silent
        (hello_rule ∷ [])
        (read_rule ∷ [])
        hello_run).status
      ≡ Status.pass)
    ↔ (All (λ (r : Rule Str). ¬ RuleHolds full_platform plain_library hello_run r) (read_rule ∷ [])
        × All
            (λ (r : Rule Str). RuleHolds full_platform plain_library hello_run r)
            (hello_rule ∷ []))
evaluate-pass_iff_example =
    evaluate-pass_iff full_platform plain_library silent hello_run (hello_rule ∷ [])
      (read_rule ∷ [])

env_bash :
    parse_shebang
      (λ p. p)
      (codes "env" ∷ codes "-S" ∷ codes "A=1" ∷ codes "bash" ∷ codes "'-e u'" ∷ [])
    ≡ (codes "bash", codes "-e u" ∷ [])
unfolding parse_shebang parse_env_shebang split_string_interpreter tokenize_shebang_split_string
    tokenize_bytes tokenize_step tokenize_step_unquoted tokenize_step_single flush
    interpreter_from_args is_env_assignment join str_eq has_prefix member assignment_from
    escape_unquoted tokenize_step_double
env_bash = refl

split_string_interpreter-quote_posix_example :
    let words = codes "bash" ∷ codes "it's" ∷ [] in
    (tokenize_shebang_split_string (join (codes " ") (map quote_posix words)) ≡ ok words)
    × (split_string_interpreter (λ p. p) (join (codes " ") (map quote_posix words))
        ≡ interpreter_from_args (λ p. p) words)
split_string_interpreter-quote_posix_example =
    split_string_interpreter-quote_posix (λ p. p) (codes "bash") (codes "it's" ∷ [])
