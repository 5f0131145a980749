-- ===== src/Base/Trim.antt =====
-- `strings.TrimSpace` and `strings.Join`.
use Prim.Native.Nat.{ℕ}
use mathlib.Core.Bool.{Bool, ◌&&◌, ◌||◌}
use mathlib.Core.List.{List, [], ◌∷◌, ◌++◌, reverse}
use skill_up.Base.Tests.{leb, ◌==◌, if◌then◌else◌}
use skill_up.Base.Text.{Str}

-- White space in UTF-8: a byte of ASCII, or the two and three bytes of a rune that
-- `unicode.IsSpace` knows.
abbrev pub is_space_1 : ℕ → Bool
is_space_1 a = (leb 9 a && leb a 13) || a == 32

abbrev pub is_space_2 : ℕ → ℕ → Bool
is_space_2 a b = a == 194 && (b == 133 || b == 160)

abbrev pub is_space_3 : ℕ → ℕ → ℕ → Bool
is_space_3 a b c =
    (a == 225 && b == 154 && c == 128)
    || (a == 226 && b == 128 && ((leb 128 c && leb c 138) || c == 168 || c == 169 || c == 175))
    || (a == 226 && b == 129 && c == 159)
    || (a == 227 && b == 128 && c == 128)

-- The bytes from the first one on that starts no white space.
unfoldable pub trim_left : Str → Str
trim_left [] = []
trim_left (a ∷ []) = if is_space_1 a then [] else a ∷ []
trim_left (a ∷ b ∷ []) =
    let after_1 = trim_left (b ∷ []) in
    if is_space_1 a then after_1 else if is_space_2 a b then [] else a ∷ b ∷ []
trim_left (a ∷ b ∷ c ∷ s) =
    let after_1 = trim_left (b ∷ c ∷ s) in
    let after_2 = trim_left (c ∷ s) in
    let after_3 = trim_left s in
    if is_space_1 a
    then after_1
    else if is_space_2 a b
    then after_2
    else if is_space_3 a b c
    then after_3
    else a ∷ b ∷ c ∷ s

-- The same on the bytes in reverse order, where a character's last byte comes first.
unfoldable pub trim_last : Str → Str
trim_last [] = []
trim_last (a ∷ []) = if is_space_1 a then [] else a ∷ []
trim_last (b ∷ a ∷ []) =
    let after_1 = trim_last (a ∷ []) in
    if is_space_1 b then after_1 else if is_space_2 a b then [] else b ∷ a ∷ []
trim_last (c ∷ b ∷ a ∷ s) =
    let after_1 = trim_last (b ∷ a ∷ s) in
    let after_2 = trim_last (a ∷ s) in
    let after_3 = trim_last s in
    if is_space_1 c
    then after_1
    else if is_space_2 b c
    then after_2
    else if is_space_3 a b c
    then after_3
    else c ∷ b ∷ a ∷ s

unfoldable pub trim_space : Str → Str
unfolding trim_left trim_last
trim_space s = reverse (trim_last (reverse (trim_left s)))

-- `strings.Join`.
unfoldable pub join : Str → List Str → Str
join sep [] = []
join sep (s ∷ []) = s
join sep (s ∷ t ∷ ts) = s ++ (sep ++ join sep (t ∷ ts))
