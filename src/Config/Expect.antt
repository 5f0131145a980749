-- ===== src/Config/Expect.antt =====
-- internal/config/schema.go: the expectations of a case.
use skill_up.Base.{
  ◌≡◌, Bool, true, ◌&&◌, ap₂, &&-true, Option, none, some, List, [], Str, str_eq, str_eq→eq,
  str_eq_refl,
}
use skill_up.Base.Int.{ℤ}
use skill_up.Base.Maps.{Key}

-- A slice, which is `none` where it is nil.
abbrev pub Slice : Type 0 → Type 0
Slice A = Option (List A)

abbrev pub items : {A : Type 0} → Slice A → List A
items none = []
items (some xs) = xs

pub record FileContainsCheck : Type 0 where
  pub path : Str
  pub content : Str

pub record Expect : Type 0 where
  pub must_contain : Slice Str
  pub must_not_contain : Slice Str
  pub exit_code : Option ℤ
  pub files_exist : Slice Str
  pub files_not_exist : Slice Str
  pub golden_file : Str
  pub file_contains : Slice FileContainsCheck

-- The type `key` of `mergeFileContains`: both fields.
unfoldable pub same_check : FileContainsCheck → FileContainsCheck → Bool
same_check a b = str_eq a.path b.path && str_eq a.content b.content

pub same_check_sound : (a b : FileContainsCheck) → same_check a b ≡ true → a ≡ b
unfolding same_check
same_check_sound a b h =
    let (p, q) = &&-true _ _ h in
    ap₂ (λ (s : Str) (t : Str). record { path = s; content = t }) (str_eq→eq a.path b.path p)
      (str_eq→eq a.content b.content q)

pub same_check_refl : (a : FileContainsCheck) → same_check a a ≡ true
unfolding same_check
same_check_refl a = rw (str_eq_refl a.path, str_eq_refl a.content)

instance abbrev pub check_key : Key FileContainsCheck
check_key = record { eq = same_check; eq_sound = same_check_sound; eq_refl = same_check_refl }
