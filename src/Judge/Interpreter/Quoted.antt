-- ===== src/Judge/Interpreter/Quoted.antt =====
-- internal/judge/interpreter.go: the body of `env -S` reads back words that are quoted for a shell.
use skill_up.Base.{
  ℕ, ◌≡◌, refl, sym, ap, ◌∙◌, Bool, true, false, List, [], ◌∷◌, ◌++◌, map, Str, codes, ◌==◌, ==_iff,
  Bool-cases, inl, inr, ok, member, nat_key,
}
use mathlib.Core.List.{append-nil, append_assoc}
use skill_up.Base.Trim.{join}
use skill_up.Shellquote.{single_quote, backslash, escape_posix, quote_posix}
use skill_up.Shellquote.Unquote.{escape-other}
use skill_up.Judge.Interpreter.{
  TokenizerState, flush, tokenize_step_single, tokenize_step_unquoted, escape_unquoted,
  tokenize_step, tokenize_bytes, fresh_state, finish_tokens, tokenize_shebang_split_string,
  interpreter_from_args, of_tokens, split_string_interpreter,
}

-- Inside single quotes, and outside of quotes in a token or before one.
abbrev quoted : List Str → Str → TokenizerState
quoted tokens cur = record fresh_state {
  cur = cur;
  tokens = tokens;
  in_single = true;
  started = true;
}

abbrev bare : List Str → Str → Bool → TokenizerState
bare tokens cur started = record fresh_state { cur = cur; tokens = tokens; started = started }

quoted-other :
    (c : ℕ) (tokens : List Str) (cur rest : Str)
    → (c == single_quote) ≡ false
    → tokenize_bytes (quoted tokens cur) (c ∷ rest)
      ≡ tokenize_bytes (quoted tokens (cur ++ c ∷ [])) rest
unfolding tokenize_bytes tokenize_step tokenize_step_single
quoted-other c tokens cur rest n = rw n refl

quoted-escape :
    (tokens : List Str) (cur rest : Str)
    → tokenize_bytes
        (quoted tokens cur)
        (single_quote ∷ backslash ∷ single_quote ∷ single_quote ∷ rest)
      ≡ tokenize_bytes (quoted tokens (cur ++ single_quote ∷ [])) rest
unfolding tokenize_bytes tokenize_step tokenize_step_single tokenize_step_unquoted escape_unquoted
    member
quoted-escape tokens cur rest = refl

quoted-close :
    (tokens : List Str) (cur rest : Str)
    → tokenize_bytes (quoted tokens cur) (single_quote ∷ rest)
      ≡ tokenize_bytes (bare tokens cur true) rest
unfolding tokenize_bytes tokenize_step tokenize_step_single
quoted-close tokens cur rest = refl

bare-open :
    (tokens : List Str) (rest : Str)
    → tokenize_bytes (bare tokens [] false) (single_quote ∷ rest)
      ≡ tokenize_bytes (quoted tokens []) rest
unfolding tokenize_bytes tokenize_step tokenize_step_unquoted
bare-open tokens rest = refl

bare-space :
    (tokens : List Str) (cur rest : Str)
    → tokenize_bytes (bare tokens cur true) (32 ∷ rest)
      ≡ tokenize_bytes (bare (tokens ++ cur ∷ []) [] false) rest
unfolding tokenize_bytes tokenize_step tokenize_step_unquoted flush
bare-space tokens cur rest = refl

-- The escaped bytes of a text are read as the text.
quoted-escape_posix :
    (s : Str) (tokens : List Str) (cur rest : Str)
    → tokenize_bytes (quoted tokens cur) (escape_posix s ++ rest)
      ≡ tokenize_bytes (quoted tokens (cur ++ s)) rest
unfolding escape_posix
quoted-escape_posix [] tokens cur rest =
    ap (λ (t : Str). tokenize_bytes (quoted tokens t) rest) (sym (append-nil cur))
quoted-escape_posix (c ∷ s) tokens cur rest = elim (Bool-cases (c == single_quote)) [
  | inl y ↦
      ap (λ (d : ℕ). tokenize_bytes (quoted tokens cur) (escape_posix (d ∷ s) ++ rest))
        ((==_iff c single_quote).0 y)
      ∙ quoted-escape tokens cur (escape_posix s ++ rest)
      ∙ quoted-escape_posix s tokens (cur ++ single_quote ∷ []) rest
      ∙ ap (λ (t : Str). tokenize_bytes (quoted tokens t) rest)
          (append_assoc cur (single_quote ∷ []) s)
      ∙ ap (λ (d : ℕ). tokenize_bytes (quoted tokens (cur ++ d ∷ s)) rest)
          (sym ((==_iff c single_quote).0 y))
  | inr n ↦
      ap (λ (t : Str). tokenize_bytes (quoted tokens cur) (t ++ rest)) (escape-other c s n)
      ∙ quoted-other c tokens cur (escape_posix s ++ rest) n
      ∙ quoted-escape_posix s tokens (cur ++ c ∷ []) rest
      ∙ ap (λ (t : Str). tokenize_bytes (quoted tokens t) rest) (append_assoc cur (c ∷ []) s)
]

-- A quoted word before more bytes.
bare-quote_posix :
    (w : Str) (tokens : List Str) (rest : Str)
    → tokenize_bytes (bare tokens [] false) (quote_posix w ++ rest)
      ≡ tokenize_bytes (bare tokens w true) rest
unfolding quote_posix
bare-quote_posix w tokens rest =
    bare-open tokens ((escape_posix w ++ single_quote ∷ []) ++ rest)
    ∙ ap (tokenize_bytes (quoted tokens []))
        (append_assoc (escape_posix w) (single_quote ∷ []) rest)
    ∙ quoted-escape_posix w tokens [] (single_quote ∷ rest)
    ∙ quoted-close tokens w rest

-- What is left of the state when the body ends.
finish_bare :
    (body : Str) (tokens : List Str) (cur : Str)
    → finish_tokens body (bare tokens cur true) ≡ ok (tokens ++ cur ∷ [])
unfolding flush
finish_bare body tokens cur = refl

read_words :
    (body w : Str) (ws tokens : List Str)
    → finish_tokens body
        (tokenize_bytes (bare tokens [] false) (join (codes " ") (map quote_posix (w ∷ ws))))
      ≡ ok (tokens ++ w ∷ ws)
unfolding join
read_words body w [] tokens =
    ap (λ (t : Str). finish_tokens body (tokenize_bytes (bare tokens [] false) t))
      (sym (append-nil (quote_posix w)))
    ∙ ap (finish_tokens body) (bare-quote_posix w tokens [])
    ∙ end_of_body
  where
    end_of_body :
        finish_tokens body (tokenize_bytes (bare tokens w true) []) ≡ ok (tokens ++ w ∷ [])
    end_of_body = unfold tokenize_bytes in finish_bare body tokens w
read_words body w (v ∷ ws) tokens =
    ap (finish_tokens body) (
      bare-quote_posix w tokens (32 ∷ join (codes " ") (map quote_posix (v ∷ ws)))
      ∙ bare-space tokens w (join (codes " ") (map quote_posix (v ∷ ws))))
    ∙ read_words body v ws (tokens ++ w ∷ [])
    ∙ ap ok (append_assoc tokens (w ∷ []) (v ∷ ws))

-- Words that are quoted for a POSIX shell and joined by spaces are read back by `env -S` as the
-- words: the interpreter is found in them as in the arguments themselves.
pub split_string_interpreter-quote_posix :
    (base : Str → Str) (w : Str) (ws : List Str)
    → (tokenize_shebang_split_string (join (codes " ") (map quote_posix (w ∷ ws))) ≡ ok (w ∷ ws))
      × (split_string_interpreter base (join (codes " ") (map quote_posix (w ∷ ws)))
          ≡ interpreter_from_args base (w ∷ ws))
unfolding split_string_interpreter tokenize_shebang_split_string
split_string_interpreter-quote_posix base w ws =
    let body = join (codes " ") (map quote_posix (w ∷ ws)) in
    (read_words body w ws [], ap (of_tokens base) (read_words body w ws []))
