-- ===== src/Runner.antt =====
-- internal/runner/runner.go: the number of the next iteration's directory.
pub mod Fresh
pub mod Tests
use skill_up.Base.{
  ℕ, suc, Bool, true, false, ◌&&◌, Option, none, some, List, [], ◌∷◌, ◌++◌, Str, codes, str_eq, ltb,
  if◌then◌else◌, Result, ok, err,
}
use skill_up.Base.Int.{ℤ, pos, negsuc}
use skill_up.Planner.{wrap}
use skill_up.Planner.Decimal.{format_int}

-- An `os.DirEntry`.
pub record Entry : Type 0 where
  pub name : Str
  pub is_dir : Bool

-- `fmt.Sprintf("iteration-%d", n)`.
unfoldable pub iteration_name : ℤ → Str
iteration_name n = codes "iteration-" ++ format_int n

-- `n > maxIter`, where `maxIter` is never negative.
abbrev pub larger : ℤ → ℕ → ℕ
larger (pos n) max_iter = if ltb max_iter n then n else max_iter
larger (negsuc n) max_iter = max_iter

-- What the scan of a directory's name does to `maxIter`; `scan` is `fmt.Sscanf` with
-- `iteration-%d`, which has no number where it returns an error.
abbrev pub after_scan : Str → Option ℤ → ℕ → ℕ
after_scan name none max_iter = max_iter
after_scan name (some n) max_iter =
    if str_eq name (iteration_name n) then larger n max_iter else max_iter

unfoldable pub max_iteration : (Str → Option ℤ) → List Entry → ℕ → ℕ
max_iteration scan [] max_iter = max_iter
max_iteration scan (e ∷ entries) max_iter =
    max_iteration scan entries
      (if e.is_dir then after_scan e.name (scan e.name) max_iter else max_iter)

-- `entries` is what `os.ReadDir` returns for the workspace.
unfoldable pub next_iteration_number : (Str → Option ℤ) → Result Str (List Entry) → ℤ
next_iteration_number scan (err e) = pos 1
next_iteration_number scan (ok entries) = wrap (suc (max_iteration scan entries 0))
