-- ===== src/File/Slices.antt =====
-- Parts of what a bucket holds.
use spacefish.Prelude.{
  ℕ, zero, suc, ◌+◌, ◌-◌, ◌≤◌, ◌≡◌, refl, ap, List, ◌∷◌, ◌++◌, arith, length, take, drop,
  take-append_le, take-append_ge, drop-append_le,
}
use spacefish.File.Transfer.{slice}

pub length-slice : (buf : ℕ → ℕ) (off n : ℕ) → length (slice buf off n) ≡ n
unfolding slice
length-slice buf off zero = omega arith
length-slice buf off (suc n) = omega (arith, length-slice buf (off + 1) n)

pub take-slice : (buf : ℕ → ℕ) (off c n : ℕ) → c ≤ n → take c (slice buf off n) ≡ slice buf off c
unfolding slice
take-slice buf off zero n h = refl
take-slice buf off (suc c) zero h = absurd (omega arith)
take-slice buf off (suc c) (suc n) h =
    ap (λ r. buf off ∷ r) (take-slice buf (off + 1) c n (omega arith))

pub drop-slice :
    (buf : ℕ → ℕ) (k off n : ℕ) → k ≤ n → drop k (slice buf off n) ≡ slice buf (off + k) (n - k)
unfolding slice
drop-slice buf zero off n h =
    let a : off + 0 ≡ off = omega arith in let b : n - 0 ≡ n = omega arith in rw (a, b) refl
drop-slice buf (suc k) off zero h = absurd (omega arith)
drop-slice buf (suc k) off (suc n) h =
    let a : off + suc k ≡ off + 1 + k = omega arith in
    let b : suc n - suc k ≡ n - k = omega arith in
    rw (a, b) (drop-slice buf k (off + 1) n (omega arith))

module _ (buf : ℕ → ℕ) (rest : List ℕ) {off n : ℕ} (h : off ≤ n) where
  -- What follows the first `off` bytes of a bucket and its successors.
  pub drop-bucket : drop off (slice buf 0 n ++ rest) ≡ slice buf off (n - off) ++ rest
  drop-bucket =
      let z : 0 + off ≡ off = omega arith in
      rw
        (
          drop-append_le rest off (slice buf 0 n) (omega (arith, length-slice buf 0 n)),
          drop-slice buf off 0 n h,
          z,
        )
        refl

  -- A part that ends in the bucket, and one that goes on behind it.
  pub part_within :
      (c : ℕ) → c ≤ n - off → take c (drop off (slice buf 0 n ++ rest)) ≡ slice buf off c
  part_within c l =
      rw
        (
          drop-bucket,
          take-append_le rest c (slice buf off (n - off))
              (omega (arith, length-slice buf off (n - off))),
          take-slice buf off c (n - off) l,
        )
        refl

  pub part_across :
      (c : ℕ)
      → n - off ≤ c
      → take c (drop off (slice buf 0 n ++ rest))
        ≡ slice buf off (n - off) ++ take (c - (n - off)) rest
  part_across c l =
      rw
        (
          drop-bucket,
          take-append_ge rest c (slice buf off (n - off))
              (omega (arith, length-slice buf off (n - off))),
          length-slice buf off (n - off),
        )
        refl
