-- ===== src/Meta/Extend.antt =====
-- Putting a bucket behind the last of a chain, and the walk of the create functions of
-- system/util/meta_shm.c to that place.
use spacefish.Prelude.{
  ℕ, zero, suc, ◌≤◌, ◌≡◌, ◌≢◌, ◌∙◌, inl, inr, true, Option, none, some, List, [], ◌∷◌, ◌++◌, arith,
  length, has, Distinct, Bool-cases,
}
use spacefish.Text.{CString, same_path}
use spacefish.Meta.{MetaBucket}
use spacefish.Meta.Ops.{Walked, at_match, at_last, walk_chain}
use spacefish.Meta.Chain.{Chain, nil, cons, first_match}

-- The last of a list, or `x` where there is none.
abbrev pub end_of : ℕ → List ℕ → ℕ
end_of x [] = x
end_of x (y ∷ ys) = end_of y ys

abbrev pub last_of : List ℕ → Option ℕ
last_of [] = none
last_of (x ∷ xs) = some (end_of x xs)

end_of-has : (x : ℕ) (xs : List ℕ) → has (end_of x xs) (x ∷ xs) ≡ true
end_of-has x [] = ground arith
end_of-has x (y ∷ ys) = ground (arith, end_of-has y ys)

pub last_of-has : (xs : List ℕ) {p : ℕ} → last_of xs ≡ some p → has p xs ≡ true
last_of-has [] h = absurd (cc)
last_of-has (x ∷ xs) h = ground (arith, end_of-has x xs)

-- Where the walk from `x` along `xs` ends, by the first match.
abbrev pub walked_to : ℕ → List ℕ → Option ℕ → Walked
walked_to x xs (some ix) = at_match ix
walked_to x xs none = at_last (end_of x xs)

module _ {arr : ℕ → MetaBucket} (str : CString) where
  pub walk_chain-walked :
      (fuel : ℕ) {x : ℕ} {xs : List ℕ}
      → Chain arr (some x) xs
      → length xs ≤ fuel
      → walk_chain fuel str x arr ≡ some (walked_to x xs (first_match str arr xs))
  unfolding walk_chain first_match
  walk_chain-walked zero (cons e c) h = absurd (omega arith)
  walk_chain-walked (suc fuel) {x} (cons e nil) h = ground arith
  walk_chain-walked (suc fuel) {x} (cons e (cons {ix = y} f c)) h =
      elim (Bool-cases (same_path str (arr x).path)) [
        | inl hit ↦ ground arith
        | inr miss ↦ rw (miss, e) (walk_chain-walked fuel (cons {ix = y} f c) (omega arith))
      ]

module _ {arr arr' : ℕ → MetaBucket} {ix : ℕ} (alone : (arr' ix).next_ix ≡ none) where
  -- Only the link of the last bucket is new.
  pub extend :
      {x : ℕ} {xs : List ℕ}
      → Chain arr (some x) xs
      → Distinct xs
      → ((j : ℕ) → has j xs ≡ true → j ≢ end_of x xs → (arr' j).next_ix ≡ (arr j).next_ix)
      → (arr' (end_of x xs)).next_ix ≡ some ix
      → Chain arr' (some x) (xs ++ (ix ∷ []))
  extend (cons e nil) d same here = cons here (cons alone nil)
  extend {x} (cons e (cons {ix = y} {xs = ys} f c)) (new, d) same here =
      let behind = end_of-has y ys in
      cons (same x (ground arith) (ground (arith, behind)) ∙ e)
        (extend (cons f c) d (λ j i ne. same j (ground arith) ne) here)
