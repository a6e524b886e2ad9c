-- ===== src/Scan.antt =====
-- The scan that every allocator of system/util/data_shm.c and system/util/meta_shm.c makes: visit
-- slots of an array in a given order and take the first that can be claimed.
use spacefish.Prelude.{
  ℕ, zero, suc, ◌+◌, ◌≤◌, ◌<◌, ◌≡◌, refl, inl, inr, Option, none, some, arith, Option-cases, update,
}

module _ {A : Type 0} (claim : A → Option A) (pos : ℕ → ℕ) where
  -- Rounds `i` up to `i + k`, round `m` visiting slot `pos m`.
  unfoldable pub scan : (k i : ℕ) → (ℕ → A) → Option (ℕ × (ℕ → A))
  scan zero i arr = none
  scan (suc k) i arr = elim (claim (arr (pos i))) [
    | some b ↦ some (i, update arr (pos i) b)
    | none ↦ scan k (i + 1) arr
  ]

  -- What a scan that stops at round `m` has done.
  pub record Claimed (k i : ℕ) (arr : ℕ → A) (m : ℕ) (arr' : ℕ → A) : Type 0 where
    pub from : i ≤ m
    pub below : m < i + k
    pub new : A
    pub claimed : claim (arr (pos m)) ≡ some new
    pub written : arr' ≡ update arr (pos m) new
    pub skipped : (r : ℕ) → i ≤ r → r < m → claim (arr (pos r)) ≡ none

  -- A scan that finds a slot has claimed the first slot that it could.
  pub scan-some :
      (k i : ℕ) {arr : ℕ → A} {m : ℕ} {arr' : ℕ → A}
      → scan k i arr ≡ some (m, arr')
      → Claimed k i arr m arr'
  unfolding scan
  scan-some zero i h = absurd (cc)
  scan-some (suc k) i {arr} {m} {arr'} h = elim (Option-cases (claim (arr (pos i)))) [
    | inl busy ↦
        let c = scan-some k (i + 1) (rw (busy, scan) at h) in
        record {
          from = omega (arith, c.from);
          below = omega (arith, c.below);
          new = c.new;
          claimed = c.claimed;
          written = c.written;
          skipped = λ r lo hi. ground (arith, c.skipped r);
        }
    | inr (b, free) ↦ record {
      from = ground arith;
      below = ground arith;
      new = b;
      claimed = ground arith;
      written = ground arith;
      skipped = λ r lo hi. absurd (ground arith);
    }
  ]

  -- A scan that finds nothing has tried every slot.
  pub scan-none :
      (k i : ℕ) (arr : ℕ → A)
      → scan k i arr ≡ none
      → (m : ℕ) → i ≤ m
      → m < i + k
      → claim (arr (pos m)) ≡ none
  unfolding scan
  scan-none zero i arr h m lo hi = absurd (omega arith)
  scan-none (suc k) i arr h m lo hi = elim (Option-cases (claim (arr (pos i)))) [
    | inl busy ↦ ground (arith, scan-none k (i + 1) arr (rw (busy, scan) at h) m)
    | inr (b, free) ↦ absurd (ground arith)
  ]

  -- Where no slot can be claimed the scan finds nothing.
  pub scan_exhausted :
      (k i : ℕ) (arr : ℕ → A)
      → ((m : ℕ) → i ≤ m → m < i + k → claim (arr (pos m)) ≡ none)
      → scan k i arr ≡ none
  unfolding scan
  scan_exhausted zero i arr h = refl
  scan_exhausted (suc k) i arr h =
      ground (arith, h i, scan_exhausted k (i + 1) arr (λ m lo hi. h m (omega arith) (omega arith)))
