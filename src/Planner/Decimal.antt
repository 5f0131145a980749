-- ===== src/Planner/Decimal.antt =====
-- internal/evaluator/plan.go: the verb `%d` of `fmt.Sprintf`, which prints different integers
-- differently.
use skill_up.Base.{
  ℕ, zero, suc, ◌+◌, ◌-◌, ◌*◌, ◌/◌, ◌%◌, ◌≤◌, ◌≡◌, refl, ◌∙◌, sym, ap, Bool-cases, inl, inr, [],
  ◌∷◌, ◌++◌, Str, codes, ltb, if◌then◌else◌, arith,
}
use skill_up.Base.Int.{ℤ, pos, negsuc}

-- The digits of a number, the last one split off first; `fuel` is at least their count.
unfoldable pub digits : ℕ → ℕ → Str
digits zero n = []
digits (suc fuel) n =
    let rest = digits fuel (n / 10) in
    if ltb n 10 then (48 + n) ∷ [] else rest ++ (48 + n % 10) ∷ []

unfoldable pub decimal : ℕ → Str
decimal n = digits (suc n) n

unfoldable pub format_int : ℤ → Str
format_int (pos n) = decimal n
format_int (negsuc n) = codes "-" ++ decimal (suc n)

-- Reading the digits back.
unfoldable pub value : ℕ → Str → ℕ
value acc [] = acc
value acc (c ∷ cs) = value (acc * 10 + (c - 48)) cs

value-append : (acc : ℕ) (s : Str) (c : ℕ) → value acc (s ++ c ∷ []) ≡ value acc s * 10 + (c - 48)
unfolding value
value-append acc [] c = refl
value-append acc (d ∷ ds) c = value-append (acc * 10 + (d - 48)) ds c

value-digits : (fuel n : ℕ) → suc n ≤ fuel → value 0 (digits fuel n) ≡ n
unfolding digits value
value-digits zero n h = absurd (omega (arith, h))
value-digits (suc fuel) n h = elim (Bool-cases (ltb n 10)) [
  | inl y ↦ rw y (omega arith)
  | inr k ↦
      let big : 10 ≤ n = ground (arith, k) in
      rw
        (
          k,
          value-append 0 (digits fuel (n / 10)) (48 + n % 10),
          value-digits fuel (n / 10) (omega (arith, big, h)),
        )
        (omega (arith, big))
]

pub value-decimal : (n : ℕ) → value 0 (decimal n) ≡ n
unfolding decimal
value-decimal n = value-digits (suc n) n (omega arith)

-- The fuel is enough, and different numbers have different digits.
pub decimal-injective : (m n : ℕ) → decimal m ≡ decimal n → m ≡ n
unfolding decimal
decimal-injective m n h =
    sym (value-digits (suc m) m (omega arith))
    ∙ ap (value 0) h
    ∙ value-digits (suc n) n (omega arith)
