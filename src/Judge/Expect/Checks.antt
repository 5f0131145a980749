-- ===== src/Judge/Expect/Checks.antt =====
-- internal/judge/expect.go: when the check of each kind of expectation finds nothing.
use skill_up.Base.{
  ◌≡◌, refl, ◌↔◌, ◌⊎◌, inl, inr, true, false, Option, none, some, List, [], ◌∷◌, Str, contains,
  is_empty, str_eq→eq, str_eq_refl, All, arith, ok, Result-cases,
}
use skill_up.Base.Int.{ℤ, int_eq→eq, int_eq_self}
use skill_up.Base.Trim.{trim_space}
use skill_up.Config.Expect.{FileContainsCheck}
use skill_up.Judge.Files.{Platform, safe_path, file_exists_in_workspace}
use skill_up.Judge.Expect.{
  golden_base, check_must_contain, check_must_not_contain, check_exit_code, check_files_exist,
  check_files_not_exist, check_golden_file, check_file_contains,
}

-- The expectation of an exit code.
abbrev pub ExitsWith : Option ℤ → ℤ → Type 0
ExitsWith none actual = Unit {0}
ExitsWith (some n) actual = actual ≡ n

-- A file under a directory can be read, and its text is so.
abbrev pub HasText : Platform → Str → Str → (Str → Type 0) → Type 0
HasText p base path P =
    (abs : Str) × (text : Str) × (safe_path p base path ≡ ok abs)
    × (p.read_file abs ≡ ok text)
    × P text

pub check_must_contain-nil :
    (m : Str) (ks : List Str)
    → (check_must_contain ks m ≡ []) ↔ All (λ (k : Str). contains m k ≡ true) ks
unfolding check_must_contain
check_must_contain-nil m [] = ((λ h. tt), λ h. refl)
check_must_contain-nil m (k ∷ ks) =
    let (to, from) = check_must_contain-nil m ks in
    ((λ h. (ground (arith, h), to (ground (arith, h)))), λ h. ground (arith, h.0, from h.1))

pub check_must_not_contain-nil :
    (m : Str) (ks : List Str)
    → (check_must_not_contain ks m ≡ []) ↔ All (λ (k : Str). contains m k ≡ false) ks
unfolding check_must_not_contain
check_must_not_contain-nil m [] = ((λ h. tt), λ h. refl)
check_must_not_contain-nil m (k ∷ ks) =
    let (to, from) = check_must_not_contain-nil m ks in
    ((λ h. (ground (arith, h), to (ground (arith, h)))), λ h. ground (arith, h.0, from h.1))

pub check_exit_code-nil :
    (n : Option ℤ) (actual : ℤ) → (check_exit_code n actual ≡ []) ↔ ExitsWith n actual
unfolding check_exit_code
check_exit_code-nil none actual = ((λ h. tt), λ h. refl)
check_exit_code-nil (some n) actual =
    ((λ h. int_eq→eq actual n (ground (arith, h))), λ h. rw (h, int_eq_self n) refl)

pub check_files_exist-nil :
    (p : Platform) (w : Str) (fs : List Str)
    → (check_files_exist p fs w ≡ [])
      ↔ All (λ (f : Str). file_exists_in_workspace p w f ≡ ok true) fs
unfolding check_files_exist
check_files_exist-nil p w [] = ((λ h. tt), λ h. refl)
check_files_exist-nil p w (f ∷ fs) =
    let (to, from) = check_files_exist-nil p w fs in
    ((λ h. (ground (arith, h), to (ground (arith, h)))), λ h. ground (arith, h.0, from h.1))

pub check_files_not_exist-nil :
    (p : Platform) (w : Str) (fs : List Str)
    → (check_files_not_exist p fs w ≡ [])
      ↔ All (λ (f : Str). file_exists_in_workspace p w f ≡ ok false) fs
unfolding check_files_not_exist
check_files_not_exist-nil p w [] = ((λ h. tt), λ h. refl)
check_files_not_exist-nil p w (f ∷ fs) =
    let (to, from) = check_files_not_exist-nil p w fs in
    ((λ h. (ground (arith, h), to (ground (arith, h)))), λ h. ground (arith, h.0, from h.1))

pub check_golden_file-nil :
    (p : Platform) (golden message skill_dir workspace : Str)
    → (check_golden_file p golden message skill_dir workspace ≡ []) ↔ (
        (is_empty golden ≡ true)
        ⊎ HasText p
            (golden_base skill_dir workspace)
            golden
            (λ (t : Str). trim_space t ≡ trim_space message))
unfolding check_golden_file
check_golden_file-nil p [] message skill_dir workspace = ((λ h. inl refl), λ h. refl)
check_golden_file-nil p (c ∷ s) message skill_dir workspace = (to, from)
  where
    base : Str
    base = golden_base skill_dir workspace

    to :
        (check_golden_file p (c ∷ s) message skill_dir workspace ≡ [])
        → (is_empty (c ∷ s) ≡ true)
          ⊎ HasText p base (c ∷ s) (λ (t : Str). trim_space t ≡ trim_space message)
    to h = elim (Result-cases (safe_path p base (c ∷ s))) [
      | inr (e, q) ↦ ground (arith, h, q)
      | inl (abs, q) ↦ elim (Result-cases (p.read_file abs)) [
        | inr (e, r) ↦ ground (arith, h, q, r)
        | inl (text, r) ↦ inr (abs, text, q, r, str_eq→eq _ _ (ground (arith, h, q, r)))
      ]
    ]

    from :
        ((is_empty (c ∷ s) ≡ true)
          ⊎ HasText p base (c ∷ s) (λ (t : Str). trim_space t ≡ trim_space message))
        → check_golden_file p (c ∷ s) message skill_dir workspace ≡ []
    from (inl h) = cc
    from (inr (abs, text, q, r, same)) =
        ground (arith, q, r, same, str_eq_refl (trim_space message))

-- The text that a check asks for is in the file.
abbrev HasContent : Platform → Str → FileContainsCheck → Type 0
HasContent p w fc = HasText p w fc.path (λ (t : Str). contains t fc.content ≡ true)

check_file_contains-cons :
    (p : Platform) (w : Str) (fc : FileContainsCheck) (fcs : List FileContainsCheck)
    → (check_file_contains p (fc ∷ fcs) w ≡ [])
      ↔ (HasContent p w fc × (check_file_contains p fcs w ≡ []))
unfolding check_file_contains
check_file_contains-cons p w fc fcs = (to, from)
  where
    to :
        (check_file_contains p (fc ∷ fcs) w ≡ [])
        → HasContent p w fc × (check_file_contains p fcs w ≡ [])
    to h = elim (Result-cases (safe_path p w fc.path)) [
      | inr (e, q) ↦ ground (arith, h, q)
      | inl (abs, q) ↦ elim (Result-cases (p.read_file abs)) [
        | inr (e, r) ↦ ground (arith, h, q, r)
        | inl (text, r) ↦ ((abs, text, q, r, ground (arith, h, q, r)), ground (arith, h, q, r))
      ]
    ]

    from :
        HasContent p w fc × (check_file_contains p fcs w ≡ [])
        → check_file_contains p (fc ∷ fcs) w ≡ []
    from ((abs, text, q, r, found), h) = ground (arith, q, r, found, h)

pub check_file_contains-nil :
    (p : Platform) (w : Str) (fcs : List FileContainsCheck)
    → (check_file_contains p fcs w ≡ []) ↔ All (HasContent p w) fcs
unfolding check_file_contains
check_file_contains-nil p w [] = ((λ h. tt), λ h. refl)
check_file_contains-nil p w (fc ∷ fcs) =
    let (to, from) = check_file_contains-cons p w fc fcs in
    let (to', from') = check_file_contains-nil p w fcs in
    ((λ h. ((to h).0, to' (to h).1)), λ (a, b). from (a, from' b))
