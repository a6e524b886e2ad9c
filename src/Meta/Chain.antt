-- ===== src/Meta/Chain.antt =====
-- The chain of a row as a list of indices, and the walks along it in system/util/meta_shm.c.
use spacefish.Prelude.{
  ℕ, zero, suc, ◌≤◌, ◌≡◌, refl, Option, none, some, List, [], ◌∷◌, arith, if◌then◌else◌, length,
}
use spacefish.Text.{CString, same_path}
use spacefish.Meta.{MetaBucket, find}
use spacefish.Meta.Ops.{prev_walk}

-- From `first` the indices `next_ix` lead through the buckets `xs` to -1.
pub data Chain (arr : ℕ → MetaBucket) : Option ℕ → List ℕ → Type 0 where
  nil : Chain arr none []
  cons :
      {ix : ℕ} {next : Option ℕ} {xs : List ℕ}
      → (arr ix).next_ix ≡ next
      → Chain arr next xs
      → Chain arr (some ix) (ix ∷ xs)

-- The first bucket of the list that has the path.
unfoldable pub first_match : CString → (ℕ → MetaBucket) → List ℕ → Option ℕ
first_match str arr [] = none
first_match str arr (ix ∷ xs) =
    if same_path str (arr ix).path then some ix else first_match str arr xs

-- The bucket before the first that has the path, or the last one; `prev` comes before all.
unfoldable pub before_match : CString → (ℕ → MetaBucket) → Option ℕ → List ℕ → Option ℕ
before_match str arr prev [] = prev
before_match str arr prev (ix ∷ xs) =
    if same_path str (arr ix).path then prev else before_match str arr (some ix) xs

module _ {arr : ℕ → MetaBucket} (str : CString) where
  pub find-first_match :
      (fuel : ℕ) {first : Option ℕ} {xs : List ℕ}
      → Chain arr first xs
      → length xs ≤ fuel
      → find fuel str first arr ≡ some (first_match str arr xs)
  unfolding find first_match
  find-first_match fuel nil h = refl
  find-first_match zero (cons e c) h = absurd (omega arith)
  find-first_match (suc fuel) (cons {ix} e c) h = ground (arith, find-first_match fuel c)

  pub prev_walk-before :
      (fuel : ℕ) (prev : Option ℕ) {first : Option ℕ} {xs : List ℕ}
      → Chain arr first xs
      → length xs ≤ fuel
      → prev_walk fuel str prev first arr
        ≡ some (first_match str arr xs, before_match str arr prev xs)
  unfolding prev_walk first_match before_match
  prev_walk-before fuel prev nil h = refl
  prev_walk-before zero prev (cons e c) h = absurd (omega arith)
  prev_walk-before (suc fuel) prev (cons {ix} e c) h =
      ground (arith, prev_walk-before fuel (some ix) c)
