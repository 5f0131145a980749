-- ===== src/Multiturn.antt =====
-- internal/evaluator/multiturn.go: the decisions on a conversation of several turns.
pub mod Decisions
pub mod Tests
use skill_up.Base.{
  ℕ, suc, Bool, true, false, not, ◌||◌, Option, none, some, List, [], ◌∷◌, Str, contains, is_empty,
  if◌then◌else◌,
}
use skill_up.Judge.{Status}

pub data TurnStatus : Type 0 where
  completed skipped failed error : TurnStatus
  other : Str → TurnStatus

-- Of a turn, what the decisions read.
pub record TurnResult : Type 0 where
  pub response : Str
  pub status : TurnStatus

pub record PostCondition : Type 0 where
  pub must_contain_any : List Str
  pub must_contain_all : List Str
  pub must_not_contain : List Str

-- The reason that a post-condition gives.
pub data Violation : Type 0 where
  missing : Str → Violation
  none_found : List Str → Violation
  found : Str → Violation

unfoldable pub first_missing_text : Str → List Str → Option Str
first_missing_text response [] = none
first_missing_text response (t ∷ ts) =
    let rest = first_missing_text response ts in if contains response t then rest else some t

unfoldable pub any_found : Str → List Str → Bool
any_found response [] = false
any_found response (t ∷ ts) = contains response t || any_found response ts

unfoldable pub first_found_text : Str → List Str → Option Str
first_found_text response [] = none
first_found_text response (t ∷ ts) =
    let rest = first_found_text response ts in if contains response t then some t else rest

abbrev as_found : Option Str → Option Violation
as_found none = none
as_found (some t) = some (found t)

abbrev forbidden_or : Bool → List Str → Option Str → Option Violation
forbidden_or true any forbidden = some (none_found any)
forbidden_or false any forbidden = as_found forbidden

abbrev missing_or : Option Str → Option Violation → Option Violation
missing_or (some t) rest = some (missing t)
missing_or none rest = rest

-- `none` is the empty reason.
unfoldable pub evaluate_post_condition : Option PostCondition → Str → Option Violation
evaluate_post_condition none response = none
evaluate_post_condition (some pc) response =
    missing_or (first_missing_text response pc.must_contain_all) (
      forbidden_or
        (if is_empty pc.must_contain_any
          then false
          else not (any_found response pc.must_contain_any))
        pc.must_contain_any (first_found_text response pc.must_not_contain))

unfoldable pub count_completed_turns : List TurnResult → ℕ
count_completed_turns [] = 0
count_completed_turns (r ∷ rs) = elim r.status [
  | TurnStatus.completed ↦ suc (count_completed_turns rs)
  | TurnStatus.failed ↦ suc (count_completed_turns rs)
  | _ ↦ count_completed_turns rs
]

abbrev is_completed_turn : TurnStatus → Bool
is_completed_turn TurnStatus.completed = true
is_completed_turn _ = false

abbrev is_skipped_turn : TurnStatus → Bool
is_skipped_turn TurnStatus.skipped = true
is_skipped_turn _ = false

unfoldable pub any_skipped : List TurnResult → Bool
any_skipped [] = false
any_skipped (r ∷ rs) = is_skipped_turn r.status || any_skipped rs

unfoldable pub has_completed : List TurnResult → Bool
has_completed [] = false
has_completed (r ∷ rs) = is_completed_turn r.status || has_completed rs

unfoldable pub all_skipped : List TurnResult → Bool
all_skipped [] = true
all_skipped (r ∷ rs) = if is_skipped_turn r.status then all_skipped rs else false

-- The last two tests; `none` is the empty status, with which the judge is asked.
unfoldable pub settled_status : List TurnResult → Option Status
settled_status rs =
    if all_skipped rs
    then some Status.skip
    else if has_completed rs
    then none
    else some Status.error

-- The first loop over the turns that are left, and what comes after it for all turns.
unfoldable pub status_from : List TurnResult → List TurnResult → Option Status
status_from all [] = settled_status all
status_from all (r ∷ rs) = elim r.status [
  | TurnStatus.error ↦ some Status.error
  | TurnStatus.failed ↦ if any_skipped rs then none else some Status.fail
  | _ ↦ status_from all rs
]

unfoldable pub multi_turn_status : List TurnResult → Option Status
multi_turn_status rs = status_from rs rs
