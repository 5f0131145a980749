-- ===== src/Shellquote/Unquote.antt =====
-- internal/shellquote/shellquote.go: a quoted text is read back as the text.
use skill_up.Base.{
  ℕ, zero, suc, ◌+◌, ◌*◌, ◌/◌, ◌%◌, ◌≡◌, refl, ◌∙◌, sym, ap, Bool, false, Option, none, some, [],
  ◌∷◌, ◌++◌, Str, ◌==◌, ==_iff, if◌then◌else◌, arith, Bool-cases, inl, inr,
}
use mathlib.Core.List.{append-nil, append_assoc}
use skill_up.Shellquote.{
  single_quote, backslash, double_quote, escape_posix, quote_posix, repeat_backslash, quote_bytes,
  quote_windows,
}

abbrev prefixed : Str → Option Str → Option Str
prefixed p none = none
prefixed p (some s) = some (p ++ s)

-- Between quotes, inside them, and after a backslash.
pub data Mode : Type 0 where
  bare quoted escaped : Mode

-- How a POSIX shell reads one word that is made of single quotes and backslashes alone. There is
-- no result if a quote stays open, or where a byte without quotes would have its own meaning.
unfoldable pub read_posix : Mode → Str → Option Str
read_posix bare [] = some []
read_posix quoted [] = none
read_posix escaped [] = none
read_posix bare (c ∷ s) =
    let inside = read_posix quoted s in
    let literal = read_posix escaped s in
    if c == single_quote then inside else if c == backslash then literal else none
read_posix quoted (c ∷ s) =
    let outside = read_posix bare s in
    let inside = read_posix quoted s in
    if c == single_quote then outside else prefixed (c ∷ []) inside
read_posix escaped (c ∷ s) = prefixed (c ∷ []) (read_posix bare s)

pub escape-quote :
    (s : Str)
    → escape_posix (single_quote ∷ s)
      ≡ single_quote ∷ backslash ∷ single_quote ∷ single_quote ∷ escape_posix s
unfolding escape_posix
escape-quote s = refl

pub escape-other :
    (c : ℕ) (s : Str) → (c == single_quote) ≡ false → escape_posix (c ∷ s) ≡ c ∷ escape_posix s
unfolding escape_posix
escape-other c s n = rw n refl

read-other :
    (c : ℕ) (s : Str)
    → (c == single_quote) ≡ false
    → read_posix quoted (c ∷ s) ≡ prefixed (c ∷ []) (read_posix quoted s)
unfolding read_posix
read-other c s n = rw n refl

read-quote :
    (s : Str)
    → read_posix quoted (single_quote ∷ backslash ∷ single_quote ∷ single_quote ∷ s)
      ≡ prefixed (single_quote ∷ []) (read_posix quoted s)
unfolding read_posix
read-quote s = refl

read_posix-escape : (s : Str) → read_posix quoted (escape_posix s ++ single_quote ∷ []) ≡ some s
unfolding read_posix escape_posix
read_posix-escape [] = refl
read_posix-escape (c ∷ s) = elim (Bool-cases (c == single_quote)) [
  | inl y ↦
      ap (λ d. read_posix quoted (escape_posix (d ∷ s) ++ single_quote ∷ []))
        ((==_iff c single_quote).0 y)
      ∙ read-quote (escape_posix s ++ single_quote ∷ [])
      ∙ ap (prefixed (single_quote ∷ [])) (read_posix-escape s)
      ∙ ap (λ d. some (d ∷ s)) (sym ((==_iff c single_quote).0 y))
  | inr n ↦
      ap (λ t. read_posix quoted (t ++ single_quote ∷ [])) (escape-other c s n)
      ∙ read-other c (escape_posix s ++ single_quote ∷ []) n
      ∙ ap (prefixed (c ∷ [])) (read_posix-escape s)
]

-- A POSIX shell reads the quoted text as one word, which is the text.
pub read_posix-quote_posix : (s : Str) → read_posix bare (quote_posix s) ≡ some s
unfolding read_posix quote_posix
read_posix-quote_posix s = read_posix-escape s

abbrev is_even : ℕ → Bool
is_even n = n % 2 == 0

-- How `CommandLineToArgvW` reads the rest of an argument behind its opening quote, after
-- `backslashes` of them: two before a quote stand for one, an odd one makes the quote literal, and
-- before any other byte they stand for themselves. There is no result if the quote stays open, or
-- if the argument goes on behind it.
unfoldable pub read_windows : ℕ → Str → Option Str
read_windows backslashes [] = none
read_windows backslashes (c ∷ s) =
    let more = read_windows (suc backslashes) s in
    let fresh = read_windows 0 s in
    if c == backslash
    then more
    else if c == double_quote
    then (if is_even backslashes
        then prefixed (repeat_backslash (backslashes / 2)) (closed s)
        else prefixed (repeat_backslash (backslashes / 2) ++ double_quote ∷ []) fresh)
    else prefixed (repeat_backslash backslashes ++ c ∷ []) fresh
  where
    closed : Str → Option Str
    closed [] = some []
    closed (c ∷ s) = none

read-backslashes :
    (n k : ℕ) (t : Str) → read_windows n (repeat_backslash k ++ t) ≡ read_windows (n + k) t
unfolding read_windows repeat_backslash
read-backslashes n zero t = ap (λ m. read_windows m t) (omega arith)
read-backslashes n (suc k) t =
    read-backslashes (suc n) k t ∙ ap (λ m. read_windows m t) (omega arith)

repeat-snoc :
    (k : ℕ) (s : Str) → repeat_backslash (suc k) ++ s ≡ repeat_backslash k ++ backslash ∷ s
unfolding repeat_backslash
repeat-snoc zero s = refl
repeat-snoc (suc k) s = ap (λ t. backslash ∷ t) (repeat-snoc k s)

module _ (k : ℕ) where
  even_mod : k * 2 % 2 ≡ 0
  even_mod = omega arith

  even_div : k * 2 / 2 ≡ k
  even_div = omega arith

  odd_mod : (k * 2 + 1) % 2 ≡ 1
  odd_mod = omega arith

  odd_div : (k * 2 + 1) / 2 ≡ k
  odd_div = omega arith

  read-end : read_windows (k * 2) (double_quote ∷ []) ≡ some (repeat_backslash k)
  unfolding read_windows
  read-end = rw (even_mod, even_div) (ap some (append-nil (repeat_backslash k)))

  read-literal :
      (t : Str)
      → read_windows (k * 2 + 1) (double_quote ∷ t)
        ≡ prefixed (repeat_backslash k ++ double_quote ∷ []) (read_windows 0 t)
  unfolding read_windows
  read-literal t = rw (odd_mod, odd_div) refl

  read-byte :
      (c : ℕ) (t : Str)
      → (c == backslash) ≡ false
      → (c == double_quote) ≡ false
      → read_windows k (c ∷ t) ≡ prefixed (repeat_backslash k ++ c ∷ []) (read_windows 0 t)
  unfolding read_windows
  read-byte c t n m = rw (n, m) refl

prefixed-some : (p q : Str) (o : Option Str) → o ≡ some q → prefixed p o ≡ some (p ++ q)
prefixed-some p q o h = ap (prefixed p) h

read-quote_bytes :
    (k : ℕ) (s : Str) → read_windows 0 (quote_bytes k s) ≡ some (repeat_backslash k ++ s)
unfolding quote_bytes repeat_backslash
read-quote_bytes k [] =
    read-backslashes 0 (k * 2) (double_quote ∷ [])
    ∙ ap (λ m. read_windows m (double_quote ∷ [])) (omega arith)
    ∙ read-end k
    ∙ ap some (sym (append-nil (repeat_backslash k)))
read-quote_bytes k (c ∷ s) = elim (Bool-cases (c == backslash)) [
  | inl y ↦ rw y (
      read-quote_bytes (suc k) s
      ∙ ap some (repeat-snoc k s)
      ∙ ap (λ d. some (repeat_backslash k ++ d ∷ s)) (sym ((==_iff c backslash).0 y)))
  | inr n ↦ elim (Bool-cases (c == double_quote)) [
    | inl y ↦
        rw (n, y)
          (read-backslashes 0 (k * 2 + 1) (double_quote ∷ quote_bytes 0 s)
            ∙ ap (λ m. read_windows m (double_quote ∷ quote_bytes 0 s)) (omega arith)
            ∙ read-literal k (quote_bytes 0 s)
            ∙ prefixed-some (repeat_backslash k ++ double_quote ∷ []) s _ (read-quote_bytes 0 s)
            ∙ ap some (append_assoc (repeat_backslash k) (double_quote ∷ []) s)
            ∙ ap (λ d. some (repeat_backslash k ++ d ∷ s)) (sym ((==_iff c double_quote).0 y)))
    | inr m ↦
        rw (n, m)
          (read-backslashes 0 k (c ∷ quote_bytes 0 s)
            ∙ ap (λ j. read_windows j (c ∷ quote_bytes 0 s)) (omega arith)
            ∙ read-byte k c (quote_bytes 0 s) n m
            ∙ prefixed-some (repeat_backslash k ++ c ∷ []) s _ (read-quote_bytes 0 s)
            ∙ ap some (append_assoc (repeat_backslash k) (c ∷ []) s))
  ]
]

-- What follows the opening quote of an argument.
abbrev pub behind_quote : Str → Str
behind_quote [] = []
behind_quote (c ∷ s) = s

-- `CommandLineToArgvW` reads the quoted text as one argument, which is the text.
pub read_windows-quote_windows :
    (s : Str)
    → (quote_windows s ≡ double_quote ∷ behind_quote (quote_windows s))
      × (read_windows 0 (behind_quote (quote_windows s)) ≡ some s)
unfolding quote_windows repeat_backslash quote_bytes
read_windows-quote_windows [] = (refl, read-quote_bytes 0 [])
read_windows-quote_windows (c ∷ s) = (refl, read-quote_bytes 0 (c ∷ s))
