-- ===== src/Prelude/Parts.antt =====
-- Parts of lists, by `take` and `drop`, of a list in two pieces.
use Prim.Native.Nat.{ℕ, zero, suc, ◌-◌, ◌≤◌}
use mathlib.Core.Path.{◌≡◌, refl, ap}
use mathlib.Core.List.{List, [], ◌∷◌, ◌++◌}
use native.Mathlib.Omega.{arith}
use spacefish.Prelude.Lists.{length, take, drop}

module _ {ℓ} {A : Type ℓ} where
  pub append_nil : (xs : List A) → xs ++ [] ≡ xs
  append_nil [] = refl
  append_nil (x ∷ xs) = ap (λ r. x ∷ r) (append_nil xs)

  pub take_nil : (n : ℕ) → take {A = A} n [] ≡ []
  take_nil zero = refl
  take_nil (suc n) = refl

  pub drop_nil : (n : ℕ) → drop {A = A} n [] ≡ []
  drop_nil zero = refl
  drop_nil (suc n) = refl

  -- The two pieces make up the list.
  pub take-drop : (n : ℕ) (xs : List A) → take n xs ++ drop n xs ≡ xs
  take-drop zero xs = refl
  take-drop (suc n) [] = refl
  take-drop (suc n) (x ∷ xs) = ap (λ r. x ∷ r) (take-drop n xs)

  pub take_all : (n : ℕ) (xs : List A) → length xs ≤ n → take n xs ≡ xs
  take_all n [] h = take_nil n
  take_all zero (x ∷ xs) h = absurd (omega arith)
  take_all (suc n) (x ∷ xs) h = ap (λ r. x ∷ r) (take_all n xs (omega arith))

  pub drop_all : (n : ℕ) (xs : List A) → length xs ≤ n → drop n xs ≡ []
  drop_all n [] h = drop_nil n
  drop_all zero (x ∷ xs) h = absurd (omega arith)
  drop_all (suc n) (x ∷ xs) h = drop_all n xs (omega arith)

  module _ (ys : List A) where
    pub take-append_le : (n : ℕ) (xs : List A) → n ≤ length xs → take n (xs ++ ys) ≡ take n xs
    take-append_le zero xs h = refl
    take-append_le (suc n) [] h = absurd (omega arith)
    take-append_le (suc n) (x ∷ xs) h = ap (λ r. x ∷ r) (take-append_le n xs (omega arith))

    pub drop-append_le : (n : ℕ) (xs : List A) → n ≤ length xs → drop n (xs ++ ys) ≡ drop n xs ++ ys
    drop-append_le zero xs h = refl
    drop-append_le (suc n) [] h = absurd (omega arith)
    drop-append_le (suc n) (x ∷ xs) h = drop-append_le n xs (omega arith)

    pub take-append_ge :
        (n : ℕ) (xs : List A) → length xs ≤ n → take n (xs ++ ys) ≡ xs ++ take (n - length xs) ys
    take-append_ge n [] h = ap (λ k. take k ys) {x = n} {y = n - 0} (omega arith)
    take-append_ge zero (x ∷ xs) h = absurd (omega arith)
    take-append_ge (suc n) (x ∷ xs) h =
        let e : suc n - suc (length xs) ≡ n - length xs = omega arith in
        rw (e, take-append_ge n xs (omega arith)) refl

    pub drop-append_ge :
        (n : ℕ) (xs : List A) → length xs ≤ n → drop n (xs ++ ys) ≡ drop (n - length xs) ys
    drop-append_ge n [] h = ap (λ k. drop k ys) {x = n} {y = n - 0} (omega arith)
    drop-append_ge zero (x ∷ xs) h = absurd (omega arith)
    drop-append_ge (suc n) (x ∷ xs) h =
        let e : suc n - suc (length xs) ≡ n - length xs = omega arith in
        rw e (drop-append_ge n xs (omega arith))
