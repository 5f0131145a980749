-- ===== src/Judge/Rules/Texts.antt =====
-- internal/judge/rule_based.go: what the rules on texts and patterns say.
use skill_up.Base.{
  Result-cases, ◌≡◌, refl, ◌↔◌, ◌⊎◌, inl, inr, true, false, none, List, [], ◌∷◌, Str, codes,
  contains, is_empty, All, arith, Bool-cases, ok, str_key,
}
use skill_up.Multiturn.{any_found, first_found_text}
use skill_up.Judge.Rules.{TextRule, Library, missing_texts, eval_output_contains}
use skill_up.Judge.Rules.Patterns.{
  eval_output_matches, missing_regex_matches, any_regex_matches, first_matching_regex,
}

-- Some entry has a property, and all before it have another one.
abbrev pub First : {A : Type 0} → (A → Type 0) → (A → Type 0) → List A → Type 0
First P N [] = ⊥
First P N (x ∷ xs) = P x ⊎ (N x × First P N xs)

-- All of the first list, one of the second if it has any, none of the third.
pub record Satisfies (P N : Str → Type 0) (rule : TextRule) : Type 0 where
  pub all : All P rule.all
  pub any : (is_empty rule.any ≡ true) ⊎ First P N rule.any
  pub none_of : All N rule.none_of

pub missing_texts-nil :
    (m : Str) (ks : List Str)
    → (is_empty (missing_texts m ks) ≡ true) ↔ All (λ (k : Str). contains m k ≡ true) ks
unfolding missing_texts
missing_texts-nil m [] = ((λ h. tt), λ h. refl)
missing_texts-nil m (k ∷ ks) =
    let (to, from) = missing_texts-nil m ks in
    ((λ h. (ground (arith, h), to (ground (arith, h)))), λ h. ground (arith, h.0, from h.1))

pub any_found-First :
    (m : Str) (ks : List Str)
    → (any_found m ks ≡ true)
      ↔ First (λ (k : Str). contains m k ≡ true) (λ (k : Str). contains m k ≡ false) ks
unfolding any_found
any_found-First m [] = ((λ h. absurd (cc h)), λ h. absurd h)
any_found-First m (k ∷ ks) =
    let (to, from) = any_found-First m ks in
    (
      (λ h. elim (Bool-cases (contains m k)) [
        | inl y ↦ inl y
        | inr n ↦ inr (n, to (ground (arith, h, n)))
      ]),
      λ h. elim h [ inl y ↦ ground (arith, y) | inr (n, r) ↦ ground (arith, n, from r) ],
    )

pub first_found_text-nil :
    (m : Str) (ks : List Str)
    → (first_found_text m ks ≡ none) ↔ All (λ (k : Str). contains m k ≡ false) ks
unfolding first_found_text
first_found_text-nil m [] = ((λ h. tt), λ h. refl)
first_found_text-nil m (k ∷ ks) =
    let (to, from) = first_found_text-nil m ks in
    ((λ h. (ground (arith, h), to (ground (arith, h)))), λ h. ground (arith, h.0, from h.1))

pub eval_output_contains-Satisfies :
    (V : Type 0) (rule : TextRule) (m : Str)
    → ((eval_output_contains {V = V} rule m).0 ≡ true)
      ↔ Satisfies (λ (k : Str). contains m k ≡ true) (λ (k : Str). contains m k ≡ false) rule
unfolding eval_output_contains
eval_output_contains-Satisfies V rule m =
    let (to, from) = missing_texts-nil m rule.all in
    let (to', from') = any_found-First m rule.any in
    let (to'', from'') = first_found_text-nil m rule.none_of in
    (
      (λ h. record {
        all = to (ground (arith, h));
        any = elim (Bool-cases (is_empty rule.any)) [
          | inl y ↦ inl y
          | inr n ↦ inr (to' (ground (arith, h, n)))
        ];
        none_of = to'' (ground (arith, h));
      }),
      λ v. elim v.any [
        | inl y ↦ ground (arith, y, from v.all, from'' v.none_of)
        | inr f ↦ ground (arith, from' f, from v.all, from'' v.none_of)
      ],
    )

-- What a regular expression's library says of a text.
module _ {V : Type 0} (lib : Library V) (field m : Str) where
  missing_regex_matches-nil :
      (ks : List Str)
      → (missing_regex_matches lib field ks m ≡ ok [])
        ↔ All (λ (k : Str). lib.match_string k m ≡ ok true) ks
  unfolding missing_regex_matches
  missing_regex_matches-nil [] = ((λ h. tt), λ h. refl)
  missing_regex_matches-nil (k ∷ ks) =
      let (to, from) = missing_regex_matches-nil ks in
      ((λ h. (ground (arith, h), to (ground (arith, h)))), λ h. ground (arith, h.0, from h.1))

  any_regex_matches-First :
      (ks : List Str)
      → (any_regex_matches lib field ks m ≡ ok true)
        ↔ First
            (λ (k : Str). lib.match_string k m ≡ ok true)
            (λ (k : Str). lib.match_string k m ≡ ok false)
            ks
  unfolding any_regex_matches
  any_regex_matches-First [] = ((λ h. absurd (cc h)), λ h. absurd h)
  any_regex_matches-First (k ∷ ks) =
      let (to, from) = any_regex_matches-First ks in
      (
        (λ h. elim (Result-cases (lib.match_string k m)) [
          | inr (e, q) ↦ ground (arith, h, q)
          | inl (true, q) ↦ inl q
          | inl (false, q) ↦ inr (q, to (ground (arith, h, q)))
        ]),
        λ h. elim h [ inl y ↦ ground (arith, y) | inr (n, r) ↦ ground (arith, n, from r) ],
      )

  first_matching_regex-none :
      (ks : List Str)
      → (first_matching_regex lib field ks m ≡ ok none)
        ↔ All (λ (k : Str). lib.match_string k m ≡ ok false) ks
  unfolding first_matching_regex
  first_matching_regex-none [] = ((λ h. tt), λ h. refl)
  first_matching_regex-none (k ∷ ks) =
      let (to, from) = first_matching_regex-none ks in
      ((λ h. (ground (arith, h), to (ground (arith, h)))), λ h. ground (arith, h.0, from h.1))

module _ {V : Type 0} (lib : Library V) where
  pub eval_output_matches-Satisfies :
      (rule : TextRule) (m : Str)
      → ((eval_output_matches lib rule m).0 ≡ true)
        ↔ Satisfies
            (λ (k : Str). lib.match_string k m ≡ ok true)
            (λ (k : Str). lib.match_string k m ≡ ok false)
            rule
  unfolding eval_output_matches
  eval_output_matches-Satisfies rule m =
      let (to, from) = missing_regex_matches-nil lib (codes "output_matches.all") m rule.all in
      let (to', from') = any_regex_matches-First lib (codes "output_matches.any") m rule.any in
      let (to'', from'') =
        first_matching_regex-none lib (codes "output_matches.not") m rule.none_of in
      (
        (λ h. record {
          all = to (ground (arith, h));
          any = elim (Bool-cases (is_empty rule.any)) [
            | inl y ↦ inl y
            | inr n ↦ inr (to' (ground (arith, h, n)))
          ];
          none_of = to'' (ground (arith, h));
        }),
        λ v. elim v.any [
          | inl y ↦ ground (arith, y, from v.all, from'' v.none_of)
          | inr f ↦ ground (arith, from' f, from v.all, from'' v.none_of)
        ],
      )
