-- ===== src/Data/Alloc/Bounds.antt =====
-- The allocators of system/util/data_shm.c by index.
use spacefish.Prelude.{
  ℕ, ◌+◌, ◌*◌, ◌%◌, ◌<◌, ◌≡◌, ◌≢◌, ◌⊎◌, refl, inl, inr, false, arith, ◌==◌, leb, update, Bool-cases,
}
use spacefish.Run.{ok, died}
use spacefish.Data.{DataMem}
use spacefish.Data.Alloc.{
  tot_buckets, walk_all, bkts_per_core, get_set_core_index, bucket_ix_alloc_all_random,
  bucket_ix_alloc_all_rough_ind, bucket_ix_alloc_all_per_core_random,
  bucket_ix_alloc_all_per_core_rough_ind,
}
use spacefish.Data.Alloc.Search.{Allocates, Busy, taken, Found-Took, Missed-Exhausted, search-cases}
use spacefish.Data.Alloc.Walks.{walk_all-Covers, walk_core-Covers}

-- The state that an allocation at `ix` leaves.
abbrev pub took : DataMem → ℕ → DataMem
took s ix = record s { draws = λ n. s.draws (n + 1); db = update s.db ix (taken (s.db ix)) }

-- A run of ALLOC_ALL_RANDOM: a free bucket, or the end of the process.
pub all_random-cases :
    (s : DataMem)
    → s.dbuckets_in_use ≢ tot_buckets
    → ((ix : ℕ) × (bucket_ix_alloc_all_random s ≡ ok ix (took s ix))
        × (ix < tot_buckets)
        × ((s.db ix).in_use ≡ false))
      ⊎ ((s' : DataMem) × (bucket_ix_alloc_all_random s ≡ died s')
          × ((ix : ℕ) → ix < tot_buckets → Busy (s'.db ix)))
unfolding bucket_ix_alloc_all_random
all_random-cases s ne =
    let more : (s.dbuckets_in_use == tot_buckets) ≡ false = ground arith in
    let d = s.draws 0 % tot_buckets in
    let s' : DataMem = record s { draws = λ n. s.draws (n + 1) } in
    rw more (elim (search-cases (walk_all-Covers d (omega arith)) s') [
      | inl (i, f) ↦ inl (walk_all d i, rw f.runs refl, f.below, f.was_free)
      | inr m ↦ inr (s', rw m.runs refl, λ j h. m.busy j (omega arith) h)
    ])

-- When the count of buckets in use is not the number of buckets, ALLOC_ALL_RANDOM returns a bucket
-- that was free and unlocked and is now in use, with no other bucket changed; where it ends the
-- process, every bucket was in use or locked.
pub all_random-Allocates :
    (s : DataMem)
    → s.dbuckets_in_use ≢ tot_buckets
    → Allocates 0 tot_buckets s (bucket_ix_alloc_all_random s)
unfolding bucket_ix_alloc_all_random
all_random-Allocates s ne =
    let more : (s.dbuckets_in_use == tot_buckets) ≡ false = ground arith in
    let d = s.draws 0 % tot_buckets in
    let s' : DataMem = record s { draws = λ n. s.draws (n + 1) } in
    rw more (elim (search-cases (walk_all-Covers d (omega arith)) s') [
      | inl (i, f) ↦ rw f.runs (Found-Took s refl refl f)
      | inr m ↦ rw m.runs (Missed-Exhausted s refl m)
    ])

-- ALLOC_ALL_ROUGH_IND, whatever its rough index, returns a bucket that was free and unlocked and is
-- now in use, with no other bucket changed; where it ends the process, every bucket was in use or
-- locked.
pub all_rough_ind-Allocates :
    (s : DataMem) → Allocates 0 tot_buckets s (bucket_ix_alloc_all_rough_ind s)
unfolding bucket_ix_alloc_all_rough_ind
all_rough_ind-Allocates s = elim (Bool-cases (leb tot_buckets s.dbucket_rough_index)) [
  | inl over ↦
      let d = s.dbucket_rough_index % tot_buckets in
      let s' : DataMem = record s { dbucket_rough_index = d } in
      rw over (elim (search-cases (walk_all-Covers d (omega arith)) s') [
        | inl (i, f) ↦ rw f.runs (Found-Took s refl refl f)
        | inr m ↦ rw m.runs (Missed-Exhausted s refl m)
      ])
  | inr within ↦
      let less : s.dbucket_rough_index < tot_buckets = ground arith in
      rw within (elim (search-cases (walk_all-Covers s.dbucket_rough_index less) s) [
        | inl (i, f) ↦ rw f.runs (Found-Took s refl refl f)
        | inr m ↦ rw m.runs (Missed-Exhausted s refl m)
      ])
]

-- The slice of core `c` among the buckets.
abbrev pub slice_start : DataMem → ℕ → ℕ
slice_start s c = bkts_per_core s * c

abbrev pub slice_end : DataMem → ℕ → ℕ
slice_end s c = bkts_per_core s * c + bkts_per_core s

module _ (s : DataMem) {t : DataMem} {c : ℕ} (got : get_set_core_index s ≡ ok c t)
    (few : 0 < bkts_per_core t) where
  -- Where the core has the record `c` and there are at least as many buckets as cores,
  -- ALLOC_ALL_PER_CORE_RANDOM takes a free bucket of that core's slice; where it ends the process, no
  -- bucket of the slice could be had.
  pub per_core_random-Allocates :
      Allocates (slice_start t c) (slice_end t c) t (bucket_ix_alloc_all_per_core_random s)
  unfolding bucket_ix_alloc_all_per_core_random
  per_core_random-Allocates =
      let b = bkts_per_core t in
      let some_bkts : (b == 0) ≡ false = ground arith in
      let t' : DataMem = record t { draws = λ n. t.draws (n + 1) } in
      rw (got, some_bkts)
        (elim (search-cases (walk_core-Covers b (b * c) (t.draws 0 % b) (omega arith) (grind arith))
          t') [
            | inl (i, f) ↦ rw f.runs (Found-Took t refl refl f)
            | inr m ↦ rw m.runs (Missed-Exhausted t refl m)
          ])

  -- Where the core has the record `c` and there are at least as many buckets as cores,
  -- ALLOC_ALL_PER_CORE_ROUGH_IND takes a free bucket of that core's slice; where it ends the process,
  -- no bucket of the slice could be had.
  pub per_core_rough_ind-Allocates :
      Allocates (slice_start t c) (slice_end t c) t (bucket_ix_alloc_all_per_core_rough_ind s)
  unfolding bucket_ix_alloc_all_per_core_rough_ind
  per_core_rough_ind-Allocates =
      let b = bkts_per_core t in
      let cri = (t.cores c).rough_ind in
      let some_bkts : (b == 0) ≡ false = ground arith in
      rw (got, some_bkts)
        (elim (Bool-cases (leb b cri)) [
          | inl over ↦
              let t' : DataMem = record t {
                cores = update t.cores c (record (t.cores c) { rough_ind = cri % b });
              } in
              let cri' : (t'.cores c).rough_ind ≡ cri % b = ground arith in
              rw (over, cri')
                (elim (search-cases
                  (walk_core-Covers b (b * c) (cri % b) (omega arith) (grind arith)) t') [
                    | inl (i, f) ↦ rw f.runs (Found-Took t refl refl f)
                    | inr m ↦ rw m.runs (Missed-Exhausted t refl m)
                  ])
          | inr within ↦
              let less : cri < b = ground arith in
              rw within (elim (search-cases (walk_core-Covers b (b * c) cri (omega arith) less) t) [
                | inl (i, f) ↦ rw f.runs (Found-Took t refl refl f)
                | inr m ↦ rw m.runs (Missed-Exhausted t refl m)
              ])
        ])
