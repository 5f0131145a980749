-- ===== src/Base/Maps.antt =====
-- Go maps and sets, as lists of their entries. A key stands at most once, an assignment to a
-- present key replaces its value, and a lookup finds the entry of the key.
use skill_up.Base.Tests.{◌==◌, if◌then◌else◌, ==_iff, ==_refl, Bool-cases}
use mathlib.Core.Logic.{◌⊎◌, inl, inr}
use skill_up.Base.Text.{Str, str_eq, str_eq→eq, str_eq_refl}
use skill_up.Base.Lists.{length, bit, count, All}
use Prim.Native.Nat.{ℕ, suc, ◌+◌, ◌<◌}
use mathlib.Core.Path.{◌≡◌, refl}
use mathlib.Core.Bool.{Bool, true, false}
use mathlib.Core.Option.{Option, none, some}
use mathlib.Core.List.{List, [], ◌∷◌}
use native.Mathlib.Omega.{arith}

-- A type of keys: `==` of the language, which is equality.
pub record Key (K : Type 0) : Type 0 where
  pub eq : K → K → Bool
  pub eq_sound : (a b : K) → eq a b ≡ true → a ≡ b
  pub eq_refl : (a : K) → eq a a ≡ true

pub nat_sound : (a b : ℕ) → (a == b) ≡ true → a ≡ b
nat_sound a b = (==_iff a b).0

instance abbrev pub nat_key : Key ℕ
nat_key = record { eq = ◌==◌; eq_sound = nat_sound; eq_refl = ==_refl }

instance abbrev pub str_key : Key Str
str_key = record { eq = str_eq; eq_sound = str_eq→eq; eq_refl = str_eq_refl }

module _ {K V : Type 0} ⦃key : Key K⦄ where
  unfoldable pub lookup : K → List (K × V) → Option V
  lookup k [] = none
  lookup k ((j, v) ∷ m) = if key.eq j k then some v else lookup k m

  unfoldable pub insert : K → V → List (K × V) → List (K × V)
  insert k v [] = (k, v) ∷ []
  insert k v ((j, w) ∷ m) = if key.eq j k then (k, v) ∷ m else (j, w) ∷ insert k v m

  pub lookup-insert :
      (k j : K) (v : V) (m : List (K × V))
      → lookup j (insert k v m) ≡ (if key.eq k j then some v else lookup j m)
  unfolding lookup insert
  lookup-insert k j v [] = refl
  lookup-insert k j v ((i, w) ∷ m) = ground (
    arith,
    key.eq_sound i k,
    key.eq_sound i j,
    key.eq_sound k j,
    key.eq_refl i,
    lookup-insert k j v m,
  )

  pub lookup-insert_self : (k : K) (v : V) (m : List (K × V)) → lookup k (insert k v m) ≡ some v
  lookup-insert_self k v m = ground (arith, lookup-insert k k v m, key.eq_refl k)

  pub lookup-insert_cases :
      (k j : K) (v u : V) (m : List (K × V))
      → lookup j (insert k v m) ≡ some u
      → ((k ≡ j) × (v ≡ u)) ⊎ (lookup j m ≡ some u)
  lookup-insert_cases k j v u m h = ground (arith, lookup-insert k j v m, key.eq_sound k j)

  -- A property of the new value, and of all that are found, is one of all that are found then.
  pub lookup-insert_all :
      (P : K → V → Type 0) (k : K) (v : V) (m : List (K × V))
      → P k v
      → ((j : K) (u : V) → lookup j m ≡ some u → P j u)
      → (j : K) (u : V) → lookup j (insert k v m) ≡ some u
      → P j u
  lookup-insert_all P k v m q h j u e = elim (lookup-insert_cases k j v u m e) [
    | inl (x, y) ↦ rw (← x, ← y) q
    | inr old ↦ h j u old
  ]

  -- A key that is found is found after an assignment.
  pub lookup-insert-some :
      (k j : K) (v u : V) (m : List (K × V))
      → lookup j m ≡ some u
      → (w : V) × (lookup j (insert k v m) ≡ some w)
  lookup-insert-some k j v u m h = elim (Bool-cases (key.eq k j)) [
    | inl y ↦ (v, ground (arith, lookup-insert k j v m))
    | inr n ↦ (u, ground (arith, lookup-insert k j v m))
  ]

  pub length-insert :
      (k : K) (v w : V) (m : List (K × V)) → lookup k m ≡ some v → length (insert k w m) ≡ length m
  unfolding lookup insert
  length-insert k v w [] h = cc
  length-insert k v w ((j, u) ∷ m) h = ground (arith, length-insert k v w m)

  pub length-insert_new :
      (k : K) (w : V) (m : List (K × V))
      → lookup k m ≡ none
      → length (insert k w m) ≡ suc (length m)
  unfolding lookup insert
  length-insert_new k w [] h = refl
  length-insert_new k w ((j, u) ∷ m) h = ground (arith, length-insert_new k w m)

  -- Replacing a value moves a count by what the test says of the old and the new value.
  pub count-insert :
      (p : V → Bool) (k : K) (v w : V) (m : List (K × V))
      → lookup k m ≡ some v
      → count (λ (e : K × V). p e.1) (insert k w m) + bit (p v)
        ≡ count (λ (e : K × V). p e.1) m + bit (p w)
  unfolding lookup insert count
  count-insert p k v w [] h = cc
  count-insert p k v w ((j, u) ∷ m) h = ground (arith, count-insert p k v w m)

  pub count-insert_new :
      (p : V → Bool) (k : K) (w : V) (m : List (K × V))
      → lookup k m ≡ none
      → count (λ (e : K × V). p e.1) (insert k w m) ≡ count (λ (e : K × V). p e.1) m + bit (p w)
  unfolding lookup insert count
  count-insert_new p k w [] h = ground arith
  count-insert_new p k w ((j, u) ∷ m) h = ground (arith, count-insert_new p k w m)

  pub All-insert :
      (P : K × V → Type 0) (k : K) (v : V) (m : List (K × V))
      → P (k, v)
      → All P m
      → All P (insert k v m)
  unfolding insert
  All-insert P k v [] q h = (q, tt)
  All-insert P k v ((j, w) ∷ m) q h = ground (arith, All-insert P k v m q h.1)

  pub All-lookup :
      (P : K × V → Type 0) (k : K) (v : V) (m : List (K × V))
      → All P m
      → lookup k m ≡ some v
      → P (k, v)
  unfolding lookup
  All-lookup P k v [] h e = cc
  All-lookup P k v ((j, w) ∷ m) h e = ground (arith, key.eq_sound j k, All-lookup P k v m h.1)

-- Sets of keys.
module _ {K : Type 0} ⦃key : Key K⦄ where
  -- How often a key stands in the list, which is once or never in a set.
  unfoldable pub occurrences : K → List K → ℕ
  occurrences k [] = 0
  occurrences k (j ∷ s) = bit (key.eq j k) + occurrences k s

  unfoldable pub member : K → List K → Bool
  member k [] = false
  member k (j ∷ s) = if key.eq j k then true else member k s

  -- `s[k] = struct{}{}`.
  unfoldable pub add : K → List K → List K
  add k s = if member k s then s else k ∷ s

  -- `delete(s, k)`.
  unfoldable pub remove : K → List K → List K
  remove k [] = []
  remove k (j ∷ s) = if key.eq j k then s else j ∷ remove k s

  pub member_of_occurrences : (k : K) (s : List K) → occurrences k s ≡ 0 → member k s ≡ false
  unfolding occurrences member
  member_of_occurrences k [] h = refl
  member_of_occurrences k (j ∷ s) h = ground (arith, member_of_occurrences k s)

  -- An absent key is put in front.
  pub add-absent : (k : K) (s : List K) → occurrences k s ≡ 0 → add k s ≡ k ∷ s
  unfolding add
  add-absent k s h = rw (member_of_occurrences k s h)

  pub occurrences-remove :
      (k j : K) (s : List K)
      → 0 < occurrences k s
      → occurrences j (remove k s) + bit (key.eq k j) ≡ occurrences j s
  unfolding occurrences remove
  occurrences-remove k j [] h = absurd (omega arith)
  occurrences-remove k j (i ∷ s) h = ground (arith, key.eq_sound i k, occurrences-remove k j s)

  pub length-remove :
      (k : K) (s : List K) → 0 < occurrences k s → suc (length (remove k s)) ≡ length s
  unfolding occurrences remove
  length-remove k [] h = absurd (omega arith)
  length-remove k (i ∷ s) h = ground (arith, length-remove k s)
