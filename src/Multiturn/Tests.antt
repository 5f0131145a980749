-- ===== src/Multiturn/Tests.antt =====
-- internal/evaluator/multiturn.go: a conversation that failed and skipped its last turn.
use skill_up.Base.{
  ◌≤◌, ◌≡◌, refl, ◌↔◌, ◌⊎◌, true, false, none, some, List, [], ◌∷◌, Str, codes, contains, All, Some,
}
use skill_up.Multiturn.{
  TurnStatus, TurnResult, PostCondition, evaluate_post_condition, count_completed_turns,
  multi_turn_status, status_from, any_skipped,
}
use skill_up.Multiturn.Decisions.{evaluate_post_condition-none_iff, multi_turn_status-count}

abbrev turns : List TurnResult
turns =
    record { response = codes "no"; status = TurnStatus.failed }
    ∷ record { response = []; status = TurnStatus.skipped }
    ∷ []

turns-judged : multi_turn_status turns ≡ none
unfolding multi_turn_status status_from any_skipped
turns-judged = refl

multi_turn_status-count_example : 1 ≤ count_completed_turns turns
multi_turn_status-count_example = multi_turn_status-count turns turns-judged

abbrev condition : PostCondition
condition = record {
  must_contain_any = codes "yes" ∷ codes "ok" ∷ [];
  must_contain_all = codes "done" ∷ [];
  must_not_contain = [];
}

evaluate_post_condition-none_iff_example :
    (evaluate_post_condition (some condition) (codes "done, ok") ≡ none) ↔ (
      All (λ (t : Str). contains (codes "done, ok") t ≡ true) condition.must_contain_all
      × ((condition.must_contain_any ≡ [])
          ⊎ Some (λ (t : Str). contains (codes "done, ok") t ≡ true) condition.must_contain_any)
      × All (λ (t : Str). contains (codes "done, ok") t ≡ false) condition.must_not_contain)
evaluate_post_condition-none_iff_example =
    evaluate_post_condition-none_iff condition (codes "done, ok")
