-- ===== src/Prelude/Totals.antt =====
-- The total of a family of numbers below `n`.
use Prim.Native.Nat.{ℕ, zero, suc, ◌+◌, ◌≤◌, ◌<◌}
use mathlib.Core.Path.{◌≡◌, refl}
use mathlib.Core.Logic.{◌≢◌, inl, inr}
use native.Mathlib.Omega.{arith}
use spacefish.Prelude.Tests.{◌==◌, Bool-cases}
use spacefish.Prelude.Lists.{update}

unfoldable pub total : ℕ → (ℕ → ℕ) → ℕ
total zero f = 0
total (suc n) f = total n f + f n

pub total_zero : (n : ℕ) → total n (λ _. 0) ≡ 0
unfolding total
total_zero zero = refl
total_zero (suc n) = omega (arith, total_zero n)

module _ {A : Type 0} (f : A → ℕ) where
  abbrev pub total_of : ℕ → (ℕ → A) → ℕ
  total_of n g = total n (λ j. f (g j))

  total-update_above :
      (n i : ℕ) (g : ℕ → A) (a : A) → n ≤ i → total_of n (update g i a) ≡ total_of n g
  unfolding total
  total-update_above zero i g a h = refl
  total-update_above (suc n) i g a h = ground (arith, total-update_above n i g a)

  -- A change at one index changes the total by as much.
  pub total-update :
      (n i : ℕ) (g : ℕ → A) (a : A)
      → i < n
      → total_of n (update g i a) + f (g i) ≡ total_of n g + f a
  unfolding total
  total-update zero i g a h = absurd (omega arith)
  total-update (suc n) i g a h = elim (Bool-cases (n == i)) [
    | inl here ↦ ground (arith, total-update_above n i g a)
    | inr below ↦ ground (arith, total-update n i g a)
  ]

  pub le-total : (n i : ℕ) (g : ℕ → A) → i < n → f (g i) ≤ total_of n g
  unfolding total
  le-total zero i g h = absurd (omega arith)
  le-total (suc n) i g h = elim (Bool-cases (n == i)) [
    | inl here ↦ ground arith
    | inr below ↦ ground (arith, le-total n i g)
  ]

  -- Two indices count both.
  pub add-le-total :
      (n i j : ℕ) (g : ℕ → A) → i < n → j < n → i ≢ j → f (g i) + f (g j) ≤ total_of n g
  unfolding total
  add-le-total zero i j g h k ne = absurd (omega arith)
  add-le-total (suc n) i j g h k ne = elim (Bool-cases (n == i)) [
    | inl here ↦ ground (arith, le-total n j g)
    | inr below ↦ elim (Bool-cases (n == j)) [
      | inl here ↦ ground (arith, le-total n i g)
      | inr under ↦ ground (arith, add-le-total n i j g)
    ]
  ]

  -- A total that is not 0 has an index that is not 0.
  pub total_witness : (n : ℕ) (g : ℕ → A) → 0 < total_of n g → (i : ℕ) × (i < n) × (0 < f (g i))
  unfolding total
  total_witness zero g h = absurd (omega arith)
  total_witness (suc n) g h = elim (Bool-cases (f (g n) == 0)) [
    | inl nothing ↦ let (i, less, more) = total_witness n g (ground arith) in (i, omega arith, more)
    | inr some ↦ (n, omega arith, ground arith)
  ]
