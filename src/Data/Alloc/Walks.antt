-- ===== src/Data/Alloc/Walks.antt =====
-- The order in which the allocators of system/util/data_shm.c visit the buckets.
use spacefish.Prelude.{ℕ, ◌+◌, ◌-◌, ◌%◌, ◌^◌, ◌≤◌, ◌<◌, ◌≡◌, ◌∙◌, arith}
use native.Mathlib.Decide.{dec_le}
use spacefish.Data.Alloc.{tot_buckets, walk_all, walk_core}
use spacefish.Data.Alloc.Search.{Covers}

pub walk_all-Covers :
    (dindex : ℕ) → dindex < tot_buckets → Covers tot_buckets (walk_all dindex) 0 tot_buckets
walk_all-Covers dindex h = record {
  within = λ i less. (omega arith, omega arith);
  onto = λ ix lo hi. ((ix + tot_buckets - dindex) % tot_buckets, omega arith, omega arith);
}

module _ (bkts my_start start : ℕ) (small : bkts ≤ tot_buckets) (inside : start < bkts) where
  walk_core-eq :
      (i : ℕ) → i < bkts → walk_core bkts my_start start i ≡ (start + i) % bkts + my_start
  walk_core-eq i less = let e : (start + i) % 2 ^ 32 ≡ start + i = omega arith in rw e

  onto :
      (ix : ℕ)
      → my_start ≤ ix
      → ix < my_start + bkts
      → (i : ℕ) × (i < bkts) × (walk_core bkts my_start start i ≡ ix)
  onto ix lo hi = elim (dec_le (my_start + start) ix) [
    | yes after ↦
        let less : ix - my_start - start < bkts = omega arith in
        (ix - my_start - start, less, walk_core-eq _ less ∙ grind arith)
    | no before ↦
        let less : ix + bkts - my_start - start < bkts = omega arith in
        (ix + bkts - my_start - start, less, walk_core-eq _ less ∙ grind arith)
  ]

  pub walk_core-Covers : Covers bkts (walk_core bkts my_start start) my_start (my_start + bkts)
  walk_core-Covers = record { within = λ i less. (omega arith, grind arith); onto = onto }
