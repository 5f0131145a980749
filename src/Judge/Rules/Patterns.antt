-- ===== src/Judge/Rules/Patterns.antt =====
-- internal/judge/rule_based.go: the rules on regular expressions and on tool calls.
use skill_up.Base.{
  Bool, true, false, ◌&&◌, ◌||◌, Option, none, some, List, [], ◌∷◌, Str, codes, is_empty, str_eq,
  str_key, lookup, if◌then◌else◌, Result, ok, err,
}
use skill_up.Base.Int.{ℤ}
use skill_up.Judge.Rules.{
  Library, TextRule, Args, ToolCall, Message, InputTurn, ToolRule, Reason, patterns_none_found,
  patterns_missing, tool_was_called, tool_was_not_called, pattern_forbidden, patterns_satisfied,
  invalid_pattern, in_turn, Verdict, tool_calls, lookup_turn, on_turn,
}

module _ {V : Type 0} (lib : Library V) where
  -- What a loop over patterns does with one: its error ends the loop, or it goes on with the
  -- answer.
  unfoldable pub missing_regex_matches : Str → List Str → Str → Result (Reason V) (List Str)
  missing_regex_matches field [] message = ok []
  missing_regex_matches field (pattern ∷ rest) message = elim (lib.match_string pattern message) [
    | err e ↦ err (invalid_pattern field pattern e)
    | ok true ↦ missing_regex_matches field rest message
    | ok false ↦ elim (missing_regex_matches field rest message) [
      | err reason ↦ err reason
      | ok missing ↦ ok (pattern ∷ missing)
    ]
  ]

  unfoldable pub any_regex_matches : Str → List Str → Str → Result (Reason V) Bool
  any_regex_matches field [] message = ok false
  any_regex_matches field (pattern ∷ rest) message = elim (lib.match_string pattern message) [
    | err e ↦ err (invalid_pattern field pattern e)
    | ok true ↦ ok true
    | ok false ↦ any_regex_matches field rest message
  ]

  unfoldable pub first_matching_regex : Str → List Str → Str → Result (Reason V) (Option Str)
  first_matching_regex field [] message = ok none
  first_matching_regex field (pattern ∷ rest) message = elim (lib.match_string pattern message) [
    | err e ↦ err (invalid_pattern field pattern e)
    | ok true ↦ ok (some pattern)
    | ok false ↦ first_matching_regex field rest message
  ]

  abbrev not_matching : TextRule → Result (Reason V) (Option Str) → Verdict V
  not_matching rule (err reason) = (false, reason)
  not_matching rule (ok none) = (true, patterns_satisfied rule)
  not_matching rule (ok (some pattern)) = (false, pattern_forbidden pattern)

  abbrev one_matching : TextRule → Result (Reason V) Bool → Verdict V → Verdict V
  one_matching rule (err reason) next = (false, reason)
  one_matching rule (ok false) next = (false, patterns_none_found rule.any)
  one_matching rule (ok true) next = next

  abbrev all_matching : Result (Reason V) (List Str) → Verdict V → Verdict V
  all_matching (err reason) next = (false, reason)
  all_matching (ok []) next = next
  all_matching (ok (m ∷ missing)) next = (false, patterns_missing (m ∷ missing))

  unfoldable pub eval_output_matches : TextRule → Str → Verdict V
  eval_output_matches rule message =
      let last =
        not_matching rule
          (first_matching_regex (codes "output_matches.not") rule.none_of message) in
      all_matching (missing_regex_matches (codes "output_matches.all") rule.all message) (
        if is_empty rule.any
        then last
        else one_matching rule (any_regex_matches (codes "output_matches.any") rule.any message)
            last)

  -- `argsMatch`: whether a call has the value of each expected key, as a text.
  abbrev same_value : V → Option V → Bool
  same_value v none = false
  same_value v (some w) = str_eq (lib.show v) (lib.show w)

  unfoldable pub args_match : Args V → Args V → Bool
  args_match [] actual = true
  args_match ((k, v) ∷ expected) actual =
      same_value v (lookup k actual) && args_match expected actual

  abbrev pub call_matches : ToolRule V → Option (ToolCall V) → Bool
  call_matches rule none = false
  call_matches rule (some call) =
      str_eq call.name rule.name && (is_empty rule.args || args_match rule.args call.arguments)

  unfoldable pub any_call : ToolRule V → List (Message V) → Bool
  any_call rule [] = false
  any_call rule (m ∷ ms) = call_matches rule m.tool_call || any_call rule ms

  abbrev pub called : ToolRule V → Bool → Verdict V
  called rule true = (true, tool_was_called rule)
  called rule false = (false, tool_was_not_called rule)

  unfoldable pub eval_tool_called : ToolRule V → List (Message V) → Verdict V
  eval_tool_called rule tr = called rule (any_call rule (tool_calls tr))

  abbrev pub in_its_turn : ℤ → Verdict V → Verdict V
  in_its_turn n (holds, reason) = (holds, in_turn n reason)

  unfoldable pub eval_tool_called_in_turn : ℤ → ToolRule V → List (InputTurn V) → Verdict V
  eval_tool_called_in_turn n rule turns =
      on_turn (lookup_turn n turns)
        (λ (t : InputTurn V). in_its_turn n (called rule (any_call rule (tool_calls t.transcript))))

  abbrev pub not_called : ToolRule V → Bool → Verdict V
  not_called rule true = (false, tool_was_called rule)
  not_called rule false = (true, tool_was_not_called rule)

  unfoldable pub eval_tool_not_called_in_turn : ℤ → Str → List (InputTurn V) → Verdict V
  eval_tool_not_called_in_turn n name turns =
      let rule : ToolRule V = record { name = name; args = [] } in
      on_turn (lookup_turn n turns) (λ (t : InputTurn V).
        in_its_turn n (not_called rule (any_call rule (tool_calls t.transcript))))
