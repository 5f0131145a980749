-- ===== src/Evaluator/Expectations/Union.antt =====
-- internal/evaluator/evaluator.go: merged lists hold what either list holds, once.
use skill_up.Base.{
  ◌⊎◌, Option, none, ◌+◌, ◌≡◌, refl, sym, subst, ◌∙◌, ap, Bool, true, false, ◌&&◌, ◌||◌, some, List,
  [], ◌∷◌, ◌++◌, Str, is_empty, str_key, add, member, occurrences, bit, arith, All, ◌↔◌, ◌≤◌,
  Bool-cases, inl, inr,
}
use skill_up.Base.Maps.{Key}
use skill_up.Config.Expect.{Slice, items, Expect, check_key}
use skill_up.Judge.Files.{Platform}
use skill_up.Judge.Expect.{Input, golden_base}
use skill_up.Base.Trim.{trim_space}
use skill_up.Base.Int.{ℤ}
use skill_up.Judge.Expect.Checks.{ExitsWith, HasText}
use skill_up.Judge.Expect.Met.{IsMet}
use skill_up.Evaluator.Expectations.{
  overriding, overriding_text, merge_expect_config, note, keep_new, as_slice, merge_distinct,
  merge_and_deduplicate, merge_file_contains,
}

module _ {K : Type 0} ⦃key : Key K⦄ where
  member-add : (k j : K) (s : List K) → member k (add j s) ≡ (key.eq j k || member k s)
  unfolding add member
  member-add k j s = ground (arith, key.eq_sound j k)

  occurrences-snoc :
      (k j : K) (xs : List K) → occurrences k (xs ++ j ∷ []) ≡ occurrences k xs + bit (key.eq j k)
  unfolding occurrences
  occurrences-snoc k j [] = omega arith
  occurrences-snoc k j (x ∷ xs) = omega (arith, occurrences-snoc k j xs)

  -- What is in the result has been seen, and is there once.
  abbrev Agrees : List K × List K → Type 0
  Agrees (seen, result) = (k : K) → occurrences k result ≡ bit (member k seen)

  step-Agrees :
      (s : K) (seen result : List K)
      → Agrees (seen, result)
      → member s seen ≡ false
      → Agrees (add s seen, result ++ s ∷ [])
  step-Agrees s seen result h n k =
      ground (arith, h k, h s, member-add k s seen, occurrences-snoc k s result, key.eq_sound s k)

  keep_new-note :
      (s : K) (xs seen result : List K) (b : Bool)
      → member s seen ≡ b
      → keep_new (s ∷ xs) (seen, result) ≡ keep_new xs (note s b (seen, result))
  unfolding keep_new
  keep_new-note s xs seen result b e = ap (λ (c : Bool). keep_new xs (note s c (seen, result))) e

  keep_new-Agrees :
      (xs seen result : List K) → Agrees (seen, result) → Agrees (keep_new xs (seen, result))
  unfolding keep_new
  keep_new-Agrees [] seen result h = h
  keep_new-Agrees (s ∷ xs) seen result h = elim (Bool-cases (member s seen)) [
    | inl y ↦
        subst Agrees (sym (keep_new-note s xs seen result true y))
          (keep_new-Agrees xs seen result h)
    | inr n ↦
        subst Agrees (sym (keep_new-note s xs seen result false n))
          (keep_new-Agrees xs _ _ (step-Agrees s seen result h n))
  ]

  keep_new-seen :
      (k : K) (xs seen result : List K)
      → member k (keep_new xs (seen, result)).0 ≡ (member k seen || member k xs)
  unfolding keep_new member
  keep_new-seen k [] seen result = ground arith
  keep_new-seen k (s ∷ xs) seen result = elim (Bool-cases (member s seen)) [
    | inl y ↦
        ap (λ (c : List K × List K). member k c.0) (keep_new-note s xs seen result true y)
        ∙ ground (arith, y, keep_new-seen k xs seen result, key.eq_sound s k)
    | inr n ↦
        ap (λ (c : List K × List K). member k c.0) (keep_new-note s xs seen result false n)
        ∙ ground (arith, keep_new-seen k xs (add s seen) (result ++ s ∷ []), member-add k s seen)
  ]

  items-as_slice : (xs : List K) → items (as_slice xs) ≡ xs
  items-as_slice [] = refl
  items-as_slice (x ∷ xs) = refl

  none_in-nil : (xs : List K) (k : K) → is_empty xs ≡ true → member k xs ≡ false
  unfolding member
  none_in-nil [] k h = refl
  none_in-nil (x ∷ xs) k h = cc

  -- A key stands in the merged list once if it stands in one of the two, and else not at all.
  merge_distinct-occurrences :
      (a b : Slice K) (k : K)
      → occurrences k (items (merge_distinct a b)) ≡ bit (member k (items a) || member k (items b))
  unfolding merge_distinct occurrences member
  merge_distinct-occurrences a b k = elim (Bool-cases (is_empty (items a) && is_empty (items b))) [
    | inl y ↦ rw y (ground (arith, y, none_in-nil (items a) k, none_in-nil (items b) k))
    | inr n ↦
        let first : List K × List K = keep_new (items a) ([], []) in
        let start : Agrees ([], []) = λ j. refl in
        rw (n, items-as_slice)
          (keep_new-Agrees (items b) first.0 first.1 (keep_new-Agrees (items a) [] [] start) k
            ∙ ap bit (
                keep_new-seen k (items b) first.0 first.1
                ∙ ap (λ (c : Bool). c || member k (items b)) (keep_new-seen k (items a) [] [])))
  ]

  member-All : (P : K → Type 0) (xs : List K) (k : K) → All P xs → member k xs ≡ true → P k
  unfolding member
  member-All P [] k h m = cc
  member-All P (x ∷ xs) k h m = elim (Bool-cases (key.eq x k)) [
    | inl y ↦ subst P (key.eq_sound x k y) h.0
    | inr n ↦ member-All P xs k h.1 (ground (arith, m, n))
  ]

  All-member : (P : K → Type 0) (xs : List K) → ((k : K) → member k xs ≡ true → P k) → All P xs
  unfolding member
  All-member P [] h = tt
  All-member P (x ∷ xs) h =
      (h x (ground (arith, key.eq_refl x)), All-member P xs (λ k m. h k (ground (arith, m))))

  occurrences-member : (k : K) (xs : List K) → member k xs ≡ true → 1 ≤ occurrences k xs
  unfolding member occurrences
  occurrences-member k [] h = cc
  occurrences-member k (x ∷ xs) h = ground (arith, h, occurrences-member k xs)

  member_of_pos : (k : K) (xs : List K) → 1 ≤ occurrences k xs → member k xs ≡ true
  unfolding member occurrences
  member_of_pos k [] h = absurd (omega arith)
  member_of_pos k (x ∷ xs) h = ground (arith, h, member_of_pos k xs)

  -- A property holds of all of the merged list exactly if it holds of all of both lists.
  pub merge_distinct-All :
      (P : K → Type 0) (a b : Slice K)
      → All P (items (merge_distinct a b)) ↔ (All P (items a) × All P (items b))
  merge_distinct-All P a b = (
    (λ h. (
      All-member P (items a) (λ k m. found h k (ground (arith, m))),
      All-member P (items b) (λ k m. found h k (ground (arith, m))),
    )),
    λ (ha, hb). All-member P (items (merge_distinct a b)) (λ k m.
        elim (Bool-cases (member k (items a))) [
          | inl y ↦ member-All P (items a) k ha y
          | inr n ↦ member-All P (items b) k hb (
              ground (
                arith,
                n,
                merge_distinct-occurrences a b k,
                occurrences-member k (items (merge_distinct a b)) m,
              ))
        ]),
  )
    where
      found :
          All P (items (merge_distinct a b))
          → (k : K) → (member k (items a) || member k (items b)) ≡ true
          → P k
      found h k m = member-All P (items (merge_distinct a b)) k h (
          member_of_pos k (items (merge_distinct a b))
            (ground (arith, m, merge_distinct-occurrences a b k)))

-- Of the lists of two levels the merged list holds each text of either once, and no other.
pub merge_and_deduplicate-occurrences :
    (a b : Slice Str) (s : Str)
    → occurrences s (items (merge_and_deduplicate a b))
      ≡ bit (member s (items a) || member s (items b))
unfolding merge_and_deduplicate
merge_and_deduplicate-occurrences a b s = merge_distinct-occurrences a b s

-- What is left of a default if the case has a value of its own: nothing.
abbrev left_exit_code : Option ℤ → Option ℤ → Option ℤ
left_exit_code (some own) default = none
left_exit_code none default = default

abbrev left_golden_file : Str → Str → Str
left_golden_file (c ∷ own) default = []
left_golden_file [] default = default

-- The defaults without the exit code and the golden file that the case replaces.
abbrev pub left_over : Expect → Expect → Expect
left_over d c = record d {
  exit_code = left_exit_code c.exit_code d.exit_code;
  golden_file = left_golden_file c.golden_file d.golden_file;
}

exits-both :
    (d c : Option ℤ) (n : ℤ)
    → ExitsWith (overriding d c) n ↔ (ExitsWith (left_exit_code c d) n × ExitsWith c n)
exits-both d none n = ((λ h. (h, tt)), λ h. h.0)
exits-both d (some k) n = ((λ h. (tt, h)), λ h. h.1)

-- A golden file is not set, or has a property.
abbrev Holds : (Str → Type 0) → Str → Type 0
Holds P s = (is_empty s ≡ true) ⊎ P s

golden-both :
    (P : Str → Type 0) (d c : Str)
    → Holds P (overriding_text d c) ↔ (Holds P (left_golden_file c d) × Holds P c)
golden-both P d [] = ((λ h. (h, inl refl)), λ h. h.0)
golden-both P d (b ∷ s) = ((λ h. (inl refl, h)), λ h. h.1)

-- The merged expectations are met exactly if those of the case are, and those of the defaults are
-- but for an exit code that the case gives, which replaces theirs, and so for a golden file.
pub merge_expect_config-IsMet :
    (p : Platform) (d c : Expect) (input : Input)
    → IsMet p (merge_expect_config (some d) (some c)) input
      ↔ (IsMet p (left_over d c) input × IsMet p c input)
unfolding merge_expect_config merge_and_deduplicate merge_file_contains
merge_expect_config-IsMet p d c input =
    let (to1, from1) = merge_distinct-All _ d.must_contain c.must_contain in
    let (to2, from2) = merge_distinct-All _ d.must_not_contain c.must_not_contain in
    let (to3, from3) = exits-both d.exit_code c.exit_code input.exit_code in
    let (to6, from6) =
      golden-both
        (λ s.
          HasText p (golden_base input.skill_dir input.workspace_path) s
            (λ t. trim_space t ≡ trim_space input.final_message))
        d.golden_file c.golden_file in
    let (to4, from4) = merge_distinct-All _ d.files_exist c.files_exist in
    let (to5, from5) = merge_distinct-All _ d.files_not_exist c.files_not_exist in
    let (to7, from7) = merge_distinct-All _ d.file_contains c.file_contains in
    (
      (λ v. (
        record {
          contained = (to1 v.contained).0;
          not_contained = (to2 v.not_contained).0;
          exits = (to3 v.exits).0;
          existing = (to4 v.existing).0;
          not_existing = (to5 v.not_existing).0;
          golden = (to6 v.golden).0;
          texts = (to7 v.texts).0;
        },
        record {
          contained = (to1 v.contained).1;
          not_contained = (to2 v.not_contained).1;
          exits = (to3 v.exits).1;
          existing = (to4 v.existing).1;
          not_existing = (to5 v.not_existing).1;
          golden = (to6 v.golden).1;
          texts = (to7 v.texts).1;
        },
      )),
      λ (v, w). record {
        contained = from1 (v.contained, w.contained);
        not_contained = from2 (v.not_contained, w.not_contained);
        exits = from3 (v.exits, w.exits);
        existing = from4 (v.existing, w.existing);
        not_existing = from5 (v.not_existing, w.not_existing);
        golden = from6 (v.golden, w.golden);
        texts = from7 (v.texts, w.texts);
      },
    )
