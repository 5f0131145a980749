-- ===== src/Shellquote/Tests.antt =====
-- internal/shellquote/shellquote.go: a text with quotes and backslashes.
use skill_up.Base.{◌≡◌, some, [], ◌∷◌, Str}
use skill_up.Shellquote.{double_quote, backslash, quote_posix, quote_windows}
use skill_up.Shellquote.Unquote.{
  bare, read_posix, read_windows, behind_quote, read_posix-quote_posix, read_windows-quote_windows,
}

abbrev text : Str
text = 97 ∷ 39 ∷ backslash ∷ double_quote ∷ backslash ∷ []

read_posix-quote_posix_example : read_posix bare (quote_posix text) ≡ some text
read_posix-quote_posix_example = read_posix-quote_posix text

read_windows-quote_windows_example :
    (quote_windows text ≡ double_quote ∷ behind_quote (quote_windows text))
    × (read_windows 0 (behind_quote (quote_windows text)) ≡ some text)
read_windows-quote_windows_example = read_windows-quote_windows text
