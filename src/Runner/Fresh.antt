-- ===== src/Runner/Fresh.antt =====
-- internal/runner/runner.go: the next iteration has a directory of its own.
use skill_up.Base.{
  ℕ, suc, ◌≤◌, ◌<◌, ◌≡◌, sym, subst, true, Option, none, some, List, [], ◌∷◌, Str, All, str_eq,
  str_eq_refl, if◌then◌else◌, arith, Bool-cases, inl, inr, ok,
}
use skill_up.Base.Int.{ℤ, pos, negsuc}
use skill_up.Planner.Numbering.{wrap-small}
use skill_up.Runner.{
  Entry, iteration_name, larger, after_scan, max_iteration, next_iteration_number,
}

larger-le : (n : ℤ) (m : ℕ) → m ≤ larger n m
larger-le (pos n) m = ground arith
larger-le (negsuc n) m = omega arith

after_scan-le : (name : Str) (o : Option ℤ) (m : ℕ) → m ≤ after_scan name o m
after_scan-le name none m = omega arith
after_scan-le name (some n) m = elim (Bool-cases (str_eq name (iteration_name n))) [
  | inl y ↦ rw y (larger-le n m)
  | inr x ↦ rw x (omega arith)
]

max_iteration-le :
    (scan : Str → Option ℤ) (entries : List Entry) (m : ℕ) → m ≤ max_iteration scan entries m
unfolding max_iteration
max_iteration-le scan [] m = omega arith
max_iteration-le scan (e ∷ entries) m = elim (Bool-cases e.is_dir) [
  | inl y ↦ ground (
    arith,
    y,
    after_scan-le e.name (scan e.name) m,
    max_iteration-le scan entries (after_scan e.name (scan e.name) m),
  )
  | inr n ↦ ground (arith, n, max_iteration-le scan entries m)
]

-- A directory that is named after iteration `k`, which is an int.
abbrev pub IsIteration : ℕ → Entry → Type 0
IsIteration k e = (k ≤ 9223372036854775807) × (e.is_dir ≡ true) × (e.name ≡ iteration_name (pos k))

after_scan_own :
    (scan : Str → Option ℤ) (k m : ℕ)
    → scan (iteration_name (pos k)) ≡ some (pos k)
    → k ≤ after_scan (iteration_name (pos k)) (scan (iteration_name (pos k))) m
after_scan_own scan k m read = rw (read, str_eq_refl (iteration_name (pos k))) (ground arith)

head-le :
    (scan : Str → Option ℤ) (e : Entry) (entries : List Entry) (m k : ℕ)
    → scan (iteration_name (pos k)) ≡ some (pos k)
    → IsIteration k e
    → k ≤ max_iteration scan (e ∷ entries) m
unfolding max_iteration
head-le scan e entries m k read (int, dir, named) =
    let own : k ≤ after_scan e.name (scan e.name) m =
      subst (λ (s : Str). k ≤ after_scan s (scan s) m) (sym named) (after_scan_own scan k m read) in
    ground (arith, dir, own, max_iteration-le scan entries (after_scan e.name (scan e.name) m))

max_iteration-All :
    (scan : Str → Option ℤ)
    → ((k : ℕ) → k ≤ 9223372036854775807 → scan (iteration_name (pos k)) ≡ some (pos k))
    → (entries : List Entry) (m : ℕ)
    → All (λ (e : Entry). (k : ℕ) → IsIteration k e → k ≤ max_iteration scan entries m) entries
unfolding max_iteration
max_iteration-All scan read [] m = tt
max_iteration-All scan read (e ∷ entries) m = (
  (λ k at. head-le scan e entries m k (read k at.0) at),
  max_iteration-All scan read entries (if e.is_dir then after_scan e.name (scan e.name) m else m),
)

All-lt :
    (entries : List Entry) (n : ℕ)
    → All (λ (e : Entry). (k : ℕ) → IsIteration k e → k ≤ n) entries
    → All (λ (e : Entry). (k : ℕ) → IsIteration k e → k < suc n) entries
All-lt [] n h = tt
All-lt (e ∷ entries) n (h, hs) = ((λ k at. omega (arith, h k at)), All-lt entries n hs)

-- A new iteration does not overwrite an earlier one: its number is positive and larger than that
-- of every directory that is named after an iteration whose number is an int, if `Sscanf` reads the
-- number of such a name, and the largest number that is counted is below the largest int.
pub next_iteration_number_fresh :
    (scan : Str → Option ℤ) (entries : List Entry)
    → ((k : ℕ) → k ≤ 9223372036854775807 → scan (iteration_name (pos k)) ≡ some (pos k))
    → max_iteration scan entries 0 < 9223372036854775807
    → (n : ℕ) × (next_iteration_number scan (ok entries) ≡ pos (suc n))
      × All (λ (e : Entry). (k : ℕ) → IsIteration k e → k < suc n) entries
unfolding next_iteration_number
next_iteration_number_fresh scan entries read small = (
  max_iteration scan entries 0,
  wrap-small (suc (max_iteration scan entries 0)) (omega (arith, small)),
  All-lt entries (max_iteration scan entries 0) (max_iteration-All scan read entries 0),
)
