-- ===== src/Base/Int.antt =====
-- Signed integers over the native numbers.
use Prim.Native.Nat.{ℕ}
use mathlib.Core.Path.{◌≡◌, ap}
use mathlib.Core.Bool.{Bool, true, false}
use skill_up.Base.Tests.{◌==◌, ==_iff, ==_refl}

-- `negsuc n` is -(n + 1).
pub data ℤ : Type 0 where
  pos : ℕ → ℤ
  negsuc : ℕ → ℤ

unfoldable pub int_eq : ℤ → ℤ → Bool
int_eq (pos m) (pos n) = m == n
int_eq (negsuc m) (negsuc n) = m == n
int_eq _ _ = false

pub int_eq_self : (i : ℤ) → int_eq i i ≡ true
unfolding int_eq
int_eq_self (pos n) = ==_refl n
int_eq_self (negsuc n) = ==_refl n

pub int_eq→eq : (i j : ℤ) → int_eq i j ≡ true → i ≡ j
unfolding int_eq
int_eq→eq (pos m) (pos n) h = ap pos ((==_iff m n).0 h)
int_eq→eq (pos m) (negsuc n) h = cc
int_eq→eq (negsuc m) (pos n) h = cc
int_eq→eq (negsuc m) (negsuc n) h = ap negsuc ((==_iff m n).0 h)
