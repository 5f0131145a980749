-- ===== src/Runner/Tests.antt =====
-- internal/runner/runner.go: a workspace with two iterations and a file.
use skill_up.Base.{
  ◌≤◌, leb, if◌then◌else◌, ℕ, suc, ◌<◌, ◌≡◌, refl, true, false, Option, none, some, List, [], ◌∷◌,
  Str, codes, All, str_eq, arith, ok,
}
use skill_up.Base.Int.{ℤ, pos}
use skill_up.Planner.Decimal.{format_int, decimal, digits, value, value-decimal}
use skill_up.Runner.{Entry, iteration_name, max_iteration, next_iteration_number}
use skill_up.Runner.Fresh.{IsIteration, next_iteration_number_fresh}

abbrev entries : List Entry
entries =
    record { name = codes "iteration-2"; is_dir = true }
    ∷ record { name = codes "iteration-7"; is_dir = false }
    ∷ []

-- The number behind the first ten bytes, if it is an int.
abbrev scan : Str → Option ℤ
scan (c0 ∷ c1 ∷ c2 ∷ c3 ∷ c4 ∷ c5 ∷ c6 ∷ c7 ∷ c8 ∷ c9 ∷ digits) =
    if leb (value 0 digits) 9223372036854775807 then some (pos (value 0 digits)) else none
scan _ = none

scan-iteration_name :
    (k : ℕ) → k ≤ 9223372036854775807 → scan (iteration_name (pos k)) ≡ some (pos k)
unfolding iteration_name format_int
scan-iteration_name k le = rw (value-decimal k) (ground (arith, le))

largest : max_iteration scan entries 0 ≡ 2
unfolding max_iteration iteration_name format_int decimal digits value str_eq
largest = refl

next_iteration_number_fresh_example :
    (n : ℕ) × (next_iteration_number scan (ok entries) ≡ pos (suc n))
    × All (λ (e : Entry). (k : ℕ) → IsIteration k e → k < suc n) entries
next_iteration_number_fresh_example =
    next_iteration_number_fresh scan entries scan-iteration_name (omega (arith, largest))
