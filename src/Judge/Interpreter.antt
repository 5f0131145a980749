-- ===== src/Judge/Interpreter.antt =====
-- internal/judge/interpreter.go: the interpreter that a script's first line names.
pub mod Quoted
use skill_up.Base.{
  ℕ, zero, suc, Bool, true, false, not, ◌&&◌, ◌||◌, Option, none, some, List, [], ◌∷◌, ◌++◌, Str,
  codes, is_empty, str_eq, has_prefix, leb, ltb, ◌==◌, if◌then◌else◌, member, str_key, nat_key,
  Result, ok, err,
}
use skill_up.Base.Trim.{join}
use skill_up.Shellquote.{single_quote, double_quote, backslash}

pub record TokenizerState : Type 0 where
  pub cur : Str
  pub tokens : List Str
  pub in_single : Bool
  pub in_double : Bool
  pub started : Bool
  pub skip_next : Bool
  pub done : Bool

unfoldable pub flush : TokenizerState → TokenizerState
flush s =
    if s.started then record s { tokens = s.tokens ++ s.cur ∷ []; cur = []; started = false } else s

-- `s.cur.WriteByte(c)`.
abbrev pub write_byte : TokenizerState → ℕ → TokenizerState
write_byte s c = record s { cur = s.cur ++ c ∷ [] }

unfoldable pub tokenize_step_single : TokenizerState → ℕ → TokenizerState
tokenize_step_single s c =
    if c == single_quote
    then record s { in_single = false; started = true }
    else record s { cur = s.cur ++ c ∷ []; started = true }

unfoldable pub tokenize_step_double : TokenizerState → ℕ → ℕ → TokenizerState
tokenize_step_double s c next =
    if c == double_quote
    then record s { in_double = false; started = true }
    else if c == backslash && (next == double_quote || next == backslash)
    then record s { cur = s.cur ++ next ∷ []; skip_next = true; started = true }
    else record s { cur = s.cur ++ c ∷ []; started = true }

-- The bytes that end a token: ` \t\n\v\r\f`.
abbrev pub is_separator : ℕ → Bool
is_separator c = c == 32 || (leb 9 c && leb c 13)

abbrev pub env_s_whitespace_escapes : Str
env_s_whitespace_escapes = codes "_tnrvf"

abbrev pub letter_c : ℕ
letter_c = 99

-- Behind a backslash outside quotes.
unfoldable pub escape_unquoted : TokenizerState → ℕ → TokenizerState
unfolding flush
escape_unquoted s next =
    if next == 0
    then s
    else if next == letter_c
    then record (flush s) { skip_next = true; done = true }
    else if member next env_s_whitespace_escapes
    then record (flush s) { skip_next = true }
    else record s { cur = s.cur ++ next ∷ []; started = true; skip_next = true }

unfoldable pub tokenize_step_unquoted : TokenizerState → ℕ → ℕ → TokenizerState
unfolding flush escape_unquoted
tokenize_step_unquoted s c next =
    if is_separator c
    then flush s
    else if c == single_quote
    then record s { in_single = true; started = true }
    else if c == double_quote
    then record s { in_double = true; started = true }
    else if c == backslash
    then escape_unquoted s next
    else record s { cur = s.cur ++ c ∷ []; started = true }

abbrev pub first_byte : Str → ℕ
first_byte [] = 0
first_byte (c ∷ s) = c

-- One round of the loop, on a byte and the one behind it.
unfoldable pub tokenize_step : TokenizerState → ℕ → ℕ → TokenizerState
unfolding tokenize_step_single tokenize_step_double tokenize_step_unquoted
tokenize_step s c next =
    if s.skip_next
    then record s { skip_next = false }
    else if s.in_single
    then tokenize_step_single s c
    else if s.in_double
    then tokenize_step_double s c next
    else tokenize_step_unquoted s c next

unfoldable pub tokenize_bytes : TokenizerState → Str → TokenizerState
unfolding tokenize_step
tokenize_bytes s [] = s
tokenize_bytes s (c ∷ body) =
    let s' = tokenize_step s c (first_byte body) in
    let rest = tokenize_bytes s' body in if s'.done then s' else rest

abbrev pub fresh_state : TokenizerState
fresh_state = record {
  cur = [];
  tokens = [];
  in_single = false;
  in_double = false;
  started = false;
  skip_next = false;
  done = false;
}

-- The error carries the body.
abbrev pub finish_tokens : Str → TokenizerState → Result Str (List Str)
finish_tokens body s = if s.in_single || s.in_double then err body else ok (flush s).tokens

unfoldable pub tokenize_shebang_split_string : Str → Result Str (List Str)
unfolding flush tokenize_bytes
tokenize_shebang_split_string body = finish_tokens body (tokenize_bytes fresh_state body)

abbrev letter : ℕ → Bool
letter c = c == 95 || (leb 65 c && leb c 90) || (leb 97 c && leb c 122)

-- The loop over the bytes before `=`; `first` holds at the first byte.
unfoldable pub assignment_from : Bool → Str → Bool
assignment_from first [] = false
assignment_from first (c ∷ s) =
    let rest = assignment_from false s in
    if c == 61 then not first else (letter c || (not first && (leb 48 c && leb c 57))) && rest

unfoldable pub is_env_assignment : Str → Bool
is_env_assignment tok = assignment_from true tok

-- An interpreter and the options for it; `("", nil)` where there is none.
abbrev pub Interpreter : Type 0
Interpreter = Str × List Str

-- `base` is `filepath.Base`.
module _ (base : Str → Str) where
  unfoldable pub interpreter_from_args : List Str → Interpreter
  interpreter_from_args [] = ([], [])
  interpreter_from_args (a ∷ args) =
      let rest = interpreter_from_args args in if is_env_assignment a then rest else (base a, args)

  abbrev pub of_tokens : Result Str (List Str) → Interpreter
  of_tokens (err e) = ([], [])
  of_tokens (ok tokens) = if is_empty tokens then ([], []) else interpreter_from_args tokens

  unfoldable pub split_string_interpreter : Str → Interpreter
  split_string_interpreter body = of_tokens (tokenize_shebang_split_string body)

  abbrev env_value_taking_short_flags : List Str
  env_value_taking_short_flags = codes "-u" ∷ codes "-C" ∷ codes "-a" ∷ []

  abbrev env_value_taking_long_flags : List Str
  env_value_taking_long_flags = codes "--unset" ∷ codes "--chdir" ∷ codes "--argv0" ∷ []

  -- `strings.TrimPrefix` of a prefix that is there.
  drop_prefix : Str → Str → Str
  drop_prefix s [] = s
  drop_prefix [] (p ∷ ps) = []
  drop_prefix (c ∷ s) (p ∷ ps) = drop_prefix s ps

  -- The body of a compact `-S`, or of `--split-string=`, with the tokens behind it.
  abbrev compact_body : Str → List Str → Str
  compact_body rest [] = rest
  compact_body [] (t ∷ ts) = join (codes " ") (t ∷ ts)
  compact_body (c ∷ s) (t ∷ ts) = (c ∷ s) ++ codes " " ++ join (codes " ") (t ∷ ts)

  -- One argument of `env`: it settles the interpreter, or one or two arguments are skipped.
  abbrev env_argument : Str → List Str → Interpreter → Interpreter → Interpreter
  env_argument f rest skip_1 skip_2 =
      if str_eq f (codes "-S") || str_eq f (codes "--split-string")
      then split_string_interpreter (join (codes " ") rest)
      else if has_prefix f (codes "--split-string=")
      then split_string_interpreter (compact_body (drop_prefix f (codes "--split-string=")) rest)
      else if has_prefix f (codes "-S")
      then split_string_interpreter (compact_body (drop_prefix f (codes "-S")) rest)
      else if member f env_value_taking_short_flags || member f env_value_taking_long_flags
      then skip_2
      else if has_prefix f (codes "-")
      then skip_1
      else interpreter_from_args (f ∷ rest)

  unfoldable pub parse_env_shebang : List Str → Interpreter
  unfolding drop_prefix
  parse_env_shebang [] = ([], [])
  parse_env_shebang (f ∷ []) = env_argument f [] ([], []) ([], [])
  parse_env_shebang (f ∷ v ∷ rest) =
      let skip_1 = parse_env_shebang (v ∷ rest) in
      let skip_2 = parse_env_shebang rest in env_argument f (v ∷ rest) skip_1 skip_2

  -- `parseShebang`, on the `strings.Fields` of the line's body.
  unfoldable pub parse_shebang : List Str → Interpreter
  parse_shebang [] = ([], [])
  parse_shebang (f ∷ fields) =
      if str_eq (base f) (codes "env") then parse_env_shebang fields else (base f, fields)
