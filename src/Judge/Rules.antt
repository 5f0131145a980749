-- ===== src/Judge/Rules.antt =====
-- internal/judge/rule_based.go: the judge that applies declared rules to what a run left behind.
pub mod Patterns
pub mod Evaluate
pub mod Texts
pub mod Tools
pub mod Holds
pub mod Outcome
use skill_up.Base.{
  ℕ, Bool, true, false, not, ◌&&◌, ◌||◌, Option, none, some, List, [], ◌∷◌, ◌++◌, Str, codes,
  contains, length, is_empty, str_eq, str_key, lookup, leb, if◌then◌else◌, Result, ok, err,
}
use skill_up.Base.Int.{ℤ, pos, negsuc, int_eq}
use skill_up.Multiturn.{any_found, first_found_text}
use skill_up.Judge.{AssertionResult}
use skill_up.Judge.Verdict.{JudgeResult, new_result}
use skill_up.Judge.Files.{Platform, PathErr, file_exists_in_workspace}

-- `OutputContainsRule` and `OutputMatchesRule`.
pub record TextRule : Type 0 where
  pub all : List Str
  pub any : List Str
  pub none_of : List Str

-- `map[string]any`, over a type of values.
abbrev pub Args : Type 0 → Type 0
Args V = List (Str × V)

pub record ToolCall (V : Type 0) : Type 0 where
  pub name : Str
  pub arguments : Args V

pub record Message (V : Type 0) : Type 0 where
  pub role : Str
  pub tool_call : Option (ToolCall V)

pub record InputTurn (V : Type 0) : Type 0 where
  pub turn_number : ℤ
  pub response : Str
  pub transcript : List (Message V)
  pub status : Str
  pub reason : Str

pub record RuleInput (V : Type 0) : Type 0 where
  pub final_message : Str
  pub exit_code : ℤ
  pub workspace_path : Str
  pub transcript : List (Message V)
  pub turn_results : List (InputTurn V)
  pub turns_executed : ℤ
  pub turns_total : ℤ

-- `ToolCalledRule`, and `ToolCalledInTurnRule` behind its turn.
pub record ToolRule (V : Type 0) : Type 0 where
  pub name : Str
  pub args : Args V

pub record TurnTexts : Type 0 where
  pub turn : ℤ
  pub contains_all : List Str
  pub contains_any : List Str

pub record Rule (V : Type 0) : Type 0 where
  pub output_contains : Option TextRule
  pub output_matches : Option TextRule
  pub exit_code : Option ℤ
  pub tool_called : Option (ToolRule V)
  pub files_exist : List Str
  pub files_not_exist : List Str
  pub turn_response_contains : Option TurnTexts
  pub turn_response_not_contains : Option (ℤ × List Str)
  pub tool_called_in_turn : Option (ℤ × ToolRule V)
  pub tool_not_called_in_turn : Option (ℤ × Str)

-- What the texts of an assertion say, before `fmt.Sprintf` writes them out.
pub data Reason (V : Type 0) : Type 0 where
  texts_missing texts_none_found : List Str → Reason V
  text_forbidden : Str → Reason V
  texts_satisfied : TextRule → Reason V
  patterns_missing patterns_none_found : List Str → Reason V
  pattern_forbidden : Str → Reason V
  patterns_satisfied : TextRule → Reason V
  invalid_pattern : Str → Str → Str → Reason V
  exit_code_is exit_code_is_not : ℤ → ℤ → Reason V
  tool_was_called tool_was_not_called : ToolRule V → Reason V
  path_invalid : Str → PathErr → Reason V
  file_missing file_present : Str → Reason V
  files_present files_absent : List Str → Reason V
  turn_not_completed : ℤ → Str → Str → Reason V
  turn_missing : ℤ → ℕ → Reason V
  in_turn : ℤ → Reason V → Reason V
  unknown_rule : Reason V

-- `regexp.MatchString`, with the text of its error, and `fmt.Sprintf("%v", …)` of a value.
pub record Library (V : Type 0) : Type 0 where
  pub match_string : Str → Str → Result Str Bool
  pub show : V → Str

-- The keywords that are not in a text.
unfoldable pub missing_texts : Str → List Str → List Str
missing_texts text [] = []
missing_texts text (k ∷ ks) =
    let rest = missing_texts text ks in if contains text k then rest else k ∷ rest

-- The status of `lookupTurn` for a turn that reached a response.
abbrev pub completed_status : Str
completed_status = codes "completed"

abbrev pub role_tool_call : Str
role_tool_call = codes "tool_call"

-- Whether a rule holds, and why.
abbrev pub Verdict : Type 0 → Type 0
Verdict V = Bool × Reason V

abbrev pub at_least_1 : ℤ → Bool
at_least_1 (pos n) = leb 1 n
at_least_1 (negsuc n) = false

module _ {V : Type 0} where
  abbrev forbidden_text : TextRule → Option Str → Verdict V
  forbidden_text rule none = (true, texts_satisfied rule)
  forbidden_text rule (some kw) = (false, text_forbidden kw)

  unfoldable pub eval_output_contains : TextRule → Str → Verdict V
  eval_output_contains rule message =
      let missing = missing_texts message rule.all in
      if not (is_empty missing)
      then (false, texts_missing missing)
      else if not (is_empty rule.any) && not (any_found message rule.any)
      then (false, texts_none_found rule.any)
      else forbidden_text rule (first_found_text message rule.none_of)

  unfoldable pub eval_exit_code : ℤ → ℤ → Verdict V
  eval_exit_code expected actual =
      if int_eq actual expected
      then (true, exit_code_is expected actual)
      else (false, exit_code_is_not expected actual)

  -- `Transcript.ToolCalls`, of which the calls that carry one matter.
  unfoldable pub tool_calls : List (Message V) → List (Message V)
  tool_calls [] = []
  tool_calls (m ∷ ms) =
      let rest = tool_calls ms in if str_eq m.role role_tool_call then m ∷ rest else rest

  abbrev required_file : Str → Result PathErr Bool → Option (Reason V)
  required_file f (err e) = some (path_invalid f e)
  required_file f (ok true) = none
  required_file f (ok false) = some (file_missing f)

  abbrev forbidden_file : Str → Result PathErr Bool → Option (Reason V)
  forbidden_file f (err e) = some (path_invalid f e)
  forbidden_file f (ok true) = some (file_present f)
  forbidden_file f (ok false) = none

  -- The first complaint of a loop that returns at one.
  abbrev pub first_of : Option (Reason V) → Option (Reason V) → Option (Reason V)
  first_of none later = later
  first_of (some reason) later = some reason

  unfoldable pub first_absent : Platform → Str → List Str → Option (Reason V)
  first_absent p workspace [] = none
  first_absent p workspace (f ∷ fs) =
      first_of (required_file f (file_exists_in_workspace p workspace f))
        (first_absent p workspace fs)

  unfoldable pub first_present : Platform → Str → List Str → Option (Reason V)
  first_present p workspace [] = none
  first_present p workspace (f ∷ fs) =
      first_of (forbidden_file f (file_exists_in_workspace p workspace f))
        (first_present p workspace fs)

  abbrev pub unless_found : Reason V → Option (Reason V) → Verdict V
  unless_found good none = (true, good)
  unless_found good (some bad) = (false, bad)

  unfoldable pub eval_files_exist : Platform → List Str → Str → Verdict V
  eval_files_exist p files workspace =
      unless_found (files_present files) (first_absent p workspace files)

  unfoldable pub eval_files_not_exist : Platform → List Str → Str → Verdict V
  eval_files_not_exist p files workspace =
      unless_found (files_absent files) (first_present p workspace files)

  -- The first turn with a number.
  unfoldable pub find_turn : ℤ → List (InputTurn V) → Option (InputTurn V)
  find_turn n [] = none
  find_turn n (t ∷ ts) =
      let rest = find_turn n ts in if int_eq t.turn_number n then some t else rest

  abbrev completed_turn : ℤ → ℕ → Option (InputTurn V) → Result (Reason V) (InputTurn V)
  completed_turn n executed none = err (turn_missing n executed)
  completed_turn n executed (some t) =
      if str_eq t.status completed_status
      then ok t
      else err (turn_not_completed n t.status t.reason)

  unfoldable pub lookup_turn : ℤ → List (InputTurn V) → Result (Reason V) (InputTurn V)
  lookup_turn n turns =
      if at_least_1 n
      then completed_turn n (length turns) (find_turn n turns)
      else err (turn_missing n (length turns))

  abbrev pub on_turn : Result (Reason V) (InputTurn V) → (InputTurn V → Verdict V) → Verdict V
  on_turn (err reason) check = (false, reason)
  on_turn (ok t) check = check t

  abbrev pub response_contains : TurnTexts → InputTurn V → Verdict V
  response_contains rule t =
      let missing = missing_texts t.response rule.contains_all in
      if not (is_empty missing)
      then (false, in_turn rule.turn (texts_missing missing))
      else if not (is_empty rule.contains_any) && not (any_found t.response rule.contains_any)
      then (false, in_turn rule.turn (texts_none_found rule.contains_any))
      else (
        true,
        in_turn rule.turn (
            texts_satisfied
              (record { all = rule.contains_all; any = rule.contains_any; none_of = [] })),
      )

  unfoldable pub eval_turn_response_contains : TurnTexts → List (InputTurn V) → Verdict V
  eval_turn_response_contains rule turns =
      on_turn (lookup_turn rule.turn turns) (response_contains rule)

  abbrev forbidden_in_turn : ℤ → List Str → Option Str → Verdict V
  forbidden_in_turn n texts none =
      (true, in_turn n (texts_satisfied (record { all = []; any = []; none_of = texts })))
  forbidden_in_turn n texts (some kw) = (false, in_turn n (text_forbidden kw))

  unfoldable pub eval_turn_response_not_contains : ℤ → List Str → List (InputTurn V) → Verdict V
  eval_turn_response_not_contains n texts turns =
      on_turn (lookup_turn n turns)
        (λ (t : InputTurn V). forbidden_in_turn n texts (first_found_text t.response texts))
