-- ===== src/Prelude/Pigeonhole.antt =====
-- A list of distinct numbers below `n` has at most `n` entries.
use Prim.Native.Nat.{ℕ, zero, suc, ◌+◌, ◌≤◌, ◌<◌}
use mathlib.Core.Path.{◌≡◌, refl}
use mathlib.Core.Logic.{inl, inr}
use mathlib.Core.Bool.{true, false}
use mathlib.Core.List.{List, [], ◌∷◌}
use native.Mathlib.Omega.{arith}
use spacefish.Prelude.Tests.{◌==◌, if◌then◌else◌, Bool-cases}
use spacefish.Prelude.Lists.{length, has, Distinct}

abbrev pub AllBelow : ℕ → List ℕ → Type 0
AllBelow n [] = Unit
AllBelow n (x ∷ xs) = (x < n) × AllBelow n xs

-- The list without the entries `a`.
pub without : ℕ → List ℕ → List ℕ
without a [] = []
without a (x ∷ xs) = if x == a then without a xs else x ∷ without a xs

has-without : (a b : ℕ) (xs : List ℕ) → has b xs ≡ false → has b (without a xs) ≡ false
unfolding without
has-without a b [] h = refl
has-without a b (x ∷ xs) h = ground (arith, has-without a b xs)

without_absent : (a : ℕ) (xs : List ℕ) → has a xs ≡ false → without a xs ≡ xs
unfolding without
without_absent a [] h = refl
without_absent a (x ∷ xs) h = ground (arith, without_absent a xs)

length-without : (a : ℕ) (xs : List ℕ) → Distinct xs → length xs ≤ length (without a xs) + 1
unfolding without
length-without a [] d = omega arith
length-without a (x ∷ xs) d = ground (arith, length-without a xs d.1, without_absent a xs)

Distinct-without : (a : ℕ) (xs : List ℕ) → Distinct xs → Distinct (without a xs)
unfolding without
Distinct-without a [] d = tt
Distinct-without a (x ∷ xs) (new, d) = elim (Bool-cases (x == a)) [
  | inl same ↦ rw same (Distinct-without a xs d)
  | inr other ↦ rw other (has-without a x xs new, Distinct-without a xs d)
]

AllBelow-without : (n : ℕ) (xs : List ℕ) → AllBelow (suc n) xs → AllBelow n (without n xs)
unfolding without
AllBelow-without n [] h = tt
AllBelow-without n (x ∷ xs) (less, h) = elim (Bool-cases (x == n)) [
  | inl same ↦ rw same (AllBelow-without n xs h)
  | inr other ↦ rw other (ground arith, AllBelow-without n xs h)
]

pub length-le_of_Distinct : (n : ℕ) (xs : List ℕ) → Distinct xs → AllBelow n xs → length xs ≤ n
length-le_of_Distinct zero [] d h = omega arith
length-le_of_Distinct zero (x ∷ xs) d (less, h) = absurd (omega arith)
length-le_of_Distinct (suc n) xs d h = omega (
  arith,
  length-without n xs d,
  length-le_of_Distinct n (without n xs) (Distinct-without n xs d) (AllBelow-without n xs h),
)

pub AllBelow-has : {n : ℕ} (xs : List ℕ) (j : ℕ) → AllBelow n xs → has j xs ≡ true → j < n
AllBelow-has [] j h i = absurd (ground arith)
AllBelow-has {n} (x ∷ xs) j (less, h) i = ground (arith, AllBelow-has {n = n} xs j h)
