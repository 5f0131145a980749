-- ===== src/Shellquote.antt =====
-- internal/shellquote/shellquote.go: quoting for a POSIX shell and for the Windows command line.
pub mod Unquote
pub mod Tests
use skill_up.Base.{ℕ, zero, suc, ◌+◌, ◌*◌, Bool, List, [], ◌∷◌, ◌++◌, Str, ◌==◌, if◌then◌else◌}

-- The bytes of `'`, of the backslash, and of the double quote.
abbrev pub single_quote : ℕ
single_quote = 39

abbrev pub backslash : ℕ
backslash = 92

abbrev pub double_quote : ℕ
double_quote = 34

-- `strings.ReplaceAll`, of a single quote.
unfoldable pub escape_posix : Str → Str
escape_posix [] = []
escape_posix (c ∷ s) =
    let rest = escape_posix s in
    if c == single_quote
    then single_quote ∷ backslash ∷ single_quote ∷ single_quote ∷ rest
    else c ∷ rest

unfoldable pub quote_posix : Str → Str
quote_posix s = single_quote ∷ escape_posix s ++ single_quote ∷ []

-- `strings.Repeat` of a backslash.
unfoldable pub repeat_backslash : ℕ → Str
repeat_backslash zero = []
repeat_backslash (suc n) = backslash ∷ repeat_backslash n

-- The loop over the bytes, and what is written after it.
unfoldable pub quote_bytes : ℕ → Str → Str
quote_bytes backslashes [] = repeat_backslash (backslashes * 2) ++ double_quote ∷ []
quote_bytes backslashes (c ∷ s) =
    let more = quote_bytes (suc backslashes) s in
    let fresh = quote_bytes 0 s in
    if c == backslash
    then more
    else if c == double_quote
    then repeat_backslash (backslashes * 2 + 1) ++ double_quote ∷ fresh
    else repeat_backslash backslashes ++ c ∷ fresh

unfoldable pub quote_windows : Str → Str
quote_windows [] = double_quote ∷ double_quote ∷ []
quote_windows (c ∷ s) = double_quote ∷ quote_bytes 0 (c ∷ s)
