-- ===== src/Multiturn/Decisions.antt =====
-- internal/evaluator/multiturn.go: what the decisions on turns mean.
use skill_up.Base.{
  ◌≤◌, ◌≡◌, refl, ◌↔◌, ◌⊎◌, inl, inr, true, false, none, some, List, [], ◌∷◌, Str, contains,
  is_empty, All, arith, Some, Bool-cases,
}
use skill_up.Multiturn.{
  TurnResult, PostCondition, first_missing_text, any_found, first_found_text,
  evaluate_post_condition, count_completed_turns, has_completed, settled_status, status_from,
  multi_turn_status,
}

first_missing_text-none :
    (r : Str) (ts : List Str)
    → (first_missing_text r ts ≡ none) ↔ All (λ (t : Str). contains r t ≡ true) ts
unfolding first_missing_text
first_missing_text-none r [] = ((λ h. tt), λ h. refl)
first_missing_text-none r (t ∷ ts) =
    let (to, from) = first_missing_text-none r ts in
    ((λ h. (ground (arith, h), to (ground (arith, h)))), λ h. ground (arith, h.0, from h.1))

first_found_text-none :
    (r : Str) (ts : List Str)
    → (first_found_text r ts ≡ none) ↔ All (λ (t : Str). contains r t ≡ false) ts
unfolding first_found_text
first_found_text-none r [] = ((λ h. tt), λ h. refl)
first_found_text-none r (t ∷ ts) =
    let (to, from) = first_found_text-none r ts in
    ((λ h. (ground (arith, h), to (ground (arith, h)))), λ h. ground (arith, h.0, from h.1))

any_found-Some :
    (r : Str) (ts : List Str) → (any_found r ts ≡ true) ↔ Some (λ (t : Str). contains r t ≡ true) ts
unfolding any_found
any_found-Some r [] = ((λ h. cc), λ h. absurd h)
any_found-Some r (t ∷ ts) =
    let (to, from) = any_found-Some r ts in
    (
      (λ h. elim (Bool-cases (contains r t)) [
        | inl y ↦ inl y
        | inr n ↦ inr (to (ground (arith, h, n)))
      ]),
      λ h. elim h [ inl y ↦ rw y refl | inr s ↦ ground (arith, from s) ],
    )

is_empty_iff : (ts : List Str) → (is_empty ts ≡ true) ↔ (ts ≡ [])
is_empty_iff [] = ((λ h. refl), λ h. refl)
is_empty_iff (t ∷ ts) = ((λ h. cc), λ h. cc)

-- A post-condition is met exactly if the response contains every required text, at
-- least one of the alternatives unless there are none, and no forbidden text.
pub evaluate_post_condition-none_iff :
    (pc : PostCondition) (r : Str)
    → (evaluate_post_condition (some pc) r ≡ none) ↔ (
        All (λ (t : Str). contains r t ≡ true) pc.must_contain_all
        × ((pc.must_contain_any ≡ []) ⊎ Some (λ (t : Str). contains r t ≡ true) pc.must_contain_any)
        × All (λ (t : Str). contains r t ≡ false) pc.must_not_contain)
unfolding evaluate_post_condition
evaluate_post_condition-none_iff pc r =
    let (to, from) = first_missing_text-none r pc.must_contain_all in
    let (to', from') = first_found_text-none r pc.must_not_contain in
    let (found, found_back) = any_found-Some r pc.must_contain_any in
    let (nil, empty) = is_empty_iff pc.must_contain_any in
    (
      (λ h. (
        to (ground (arith, h)),
        elim (Bool-cases (is_empty pc.must_contain_any)) [
          | inl y ↦ inl (nil y)
          | inr n ↦ inr (found (ground (arith, h, n)))
        ],
        to' (ground (arith, h)),
      )),
      λ (a, b, c). elim b [
        | inl e ↦ ground (arith, from a, empty e, from' c)
        | inr s ↦ ground (arith, from a, found_back s, from' c)
      ],
    )

has_completed-count :
    (rs : List TurnResult) → has_completed rs ≡ true → 1 ≤ count_completed_turns rs
unfolding has_completed count_completed_turns
has_completed-count [] h = cc
has_completed-count (r ∷ rs) h = ground (arith, h, has_completed-count rs)

status_from-count :
    (all rs : List TurnResult)
    → status_from all rs ≡ none
    → (1 ≤ count_completed_turns all) ⊎ (1 ≤ count_completed_turns rs)
unfolding status_from settled_status count_completed_turns
status_from-count all [] h = inl (has_completed-count all (ground (arith, h)))
status_from-count all (r ∷ rs) h = ground (arith, h, status_from-count all rs)

-- The judge is asked about a conversation only if one of its turns reached a response.
pub multi_turn_status-count :
    (rs : List TurnResult) → multi_turn_status rs ≡ none → 1 ≤ count_completed_turns rs
unfolding multi_turn_status
multi_turn_status-count rs h = elim (status_from-count rs rs h) [ inl a ↦ a | inr b ↦ b ]
