-- ===== src/File/Blit.antt =====
-- What a bucket holds after bytes have been copied into it.
use spacefish.Prelude.{
  ℕ, zero, suc, ◌+◌, ◌-◌, ◌≤◌, ◌<◌, ◌≡◌, ◌⊎◌, refl, ◌∙◌, sym, inl, inr, List, [], ◌∷◌, ◌++◌, arith,
  length, take, drop, update, drop_all,
}
use spacefish.File.Transfer.{slice, blit}
use spacefish.File.Slices.{length-slice, take-slice, drop-slice}

slice_ext :
    (f g : ℕ → ℕ) (a n : ℕ) → ((j : ℕ) → a ≤ j → j < a + n → f j ≡ g j) → slice f a n ≡ slice g a n
unfolding slice
slice_ext f g a zero same = refl
slice_ext f g a (suc n) same =
    rw
      (
        same a (omega arith) (omega arith),
        slice_ext f g (a + 1) n (λ j l h. same j (omega arith) (omega arith)),
      )
      refl

slice-add : (f : ℕ → ℕ) (a n k : ℕ) → slice f a (n + k) ≡ slice f a n ++ slice f (a + n) k
unfolding slice
slice-add f a zero k =
    let l : 0 + k ≡ k = omega arith in let r : a + 0 ≡ a = omega arith in rw (l, r) refl
slice-add f a (suc n) k =
    let l : suc n + k ≡ suc (n + k) = omega arith in
    let r : a + suc n ≡ a + 1 + n = omega arith in rw (l, r, slice-add f (a + 1) n k) refl

blit_outside :
    (buf : ℕ → ℕ) (off : ℕ) (bytes : List ℕ) (j : ℕ)
    → (j < off) ⊎ (off + length bytes ≤ j)
    → blit buf off bytes j ≡ buf j
unfolding blit
blit_outside buf off [] j h = refl
blit_outside buf off (c ∷ cs) j (inl h) =
    blit_outside (update buf off c) (off + 1) cs j (inl (omega arith)) ∙ ground arith
blit_outside buf off (c ∷ cs) j (inr h) =
    blit_outside (update buf off c) (off + 1) cs j (inr (omega arith)) ∙ ground arith

pub slice-blit :
    (buf : ℕ → ℕ) (off : ℕ) (bytes : List ℕ) → slice (blit buf off bytes) off (length bytes) ≡ bytes
unfolding slice blit
slice-blit buf off [] = refl
slice-blit buf off (c ∷ cs) =
    let first : blit (update buf off c) (off + 1) cs off ≡ c =
      blit_outside (update buf off c) (off + 1) cs off (inl (omega arith)) ∙ ground arith in
    rw (first, slice-blit (update buf off c) (off + 1) cs) refl

-- The bytes that were there, up to `off`; those copied; and those that were there behind.
pub bytes-blit :
    (buf : ℕ → ℕ) (off n m : ℕ) (bytes : List ℕ)
    → off ≤ n
    → ((n ≤ off + length bytes) × (m ≡ off + length bytes)) ⊎ ((off + length bytes ≤ n) × (m ≡ n))
    → slice (blit buf off bytes) 0 m
      ≡ take off (slice buf 0 n) ++ (bytes ++ drop (off + length bytes) (slice buf 0 n))
bytes-blit buf off n m bytes h size =
    let new = blit buf off bytes in
    let l = length bytes in
    let rest = m - (off + l) in
    let z : 0 + off ≡ off = omega arith in
    let total : m ≡ off + (l + rest) = ground (arith, size) in
    let head : slice new 0 off ≡ take off (slice buf 0 n) =
      slice_ext new buf 0 off (λ j a b. blit_outside buf off bytes j (inl (omega arith)))
      ∙ sym (take-slice buf 0 off n h) in
    let tail : slice new (off + l) rest ≡ drop (off + l) (slice buf 0 n) = elim size [
      | inl (covers, e) ↦
          let none_left : rest ≡ 0 = omega arith in
          let gone = drop_all (off + l) (slice buf 0 n) (omega (arith, length-slice buf 0 n)) in
          rw (none_left, gone) (unfold slice in refl)
      | inr (inside, e) ↦
          let z' : 0 + (off + l) ≡ off + l = omega arith in
          rw (drop-slice buf (off + l) 0 n inside, z', e)
            (slice_ext new buf (off + l) (n - (off + l))
              (λ j a b. blit_outside buf off bytes j (inr (omega arith))))
    ] in
    rw
      (
        total,
        slice-add new 0 off (l + rest),
        z,
        slice-add new off l rest,
        head,
        slice-blit buf off bytes,
        tail,
      )
      refl
