-- ===== src/Data/Steps/Walk.antt =====
-- The traversal of `bucket_ix_alloc_steps` and `bucket_ptr_alloc_steps` of system/util/data_shm.c.
use spacefish.Prelude.{
  ℕ, zero, suc, ◌+◌, ◌-◌, ◌*◌, ◌%◌, ◌≤◌, ◌<◌, ◌≡◌, refl, inl, inr, true, false, Option, none, some,
  arith, ◌==◌, update, Option-cases, ap, ◌∙◌, Bool-cases,
}
use spacefish.Config.{data_buckets_step, max_data_buckets_steps, u32, no_ix}
use spacefish.Run.{Run, ok, died, stuck, fault}
use spacefish.Data.{DataBucket, DataMem, claim_bucket}
use spacefish.Data.Steps.{get_dbucket_ptr, take_or, steps_walk}
use spacefish.Data.Steps.Pointers.{get_dbucket_ptr_runs}
use spacefish.Data.Alloc.Search.{Busy, claim_bucket-some, claim_bucket-none}

-- A bucket newly taken: empty, with no successor.
abbrev pub fresh : DataBucket → DataBucket
fresh b = record b { in_use = true; locked = false; next_ix = no_ix; bytes = 0 }

-- The bucket visited `r` rounds after round `i`.
abbrev pub visited : (cur j i r : ℕ) → ℕ
visited cur j i r = u32 (i + r + j) % cur

-- The traversal takes the bucket of the first of `k` rounds whose bucket is free and unlocked; or, where
-- the bucket of every round is in use or locked, it has changed no bucket.
abbrev pub Walks : (cur j k i : ℕ) → DataMem → Run DataMem (Option (ℕ × ℕ)) → Type 0
Walks cur j k i s (ok none s') =
    ((r : ℕ) → r < k → Busy (s.db (visited cur j i r)))
    × (s'.db ≡ s.db)
    × (s'.dbucket_steps ≡ s.dbucket_steps)
Walks cur j k i s (ok (some (local_ix, p)) s') =
    ((r : ℕ) × (r < k)
      × (local_ix ≡ u32 (i + r + j))
      × ((q : ℕ) → q < r → Busy (s.db (visited cur j i q))))
    × (p ≡ local_ix % cur)
    × ((s.db p).in_use ≡ false)
    × ((s.db p).locked ≡ false)
    × (s'.db ≡ update s.db p (fresh (s.db p)))
    × (s'.dbuckets_in_use ≡ u32 (s.dbuckets_in_use + 1))
    × (s'.dbucket_rough_index ≡ local_ix)
Walks cur j k i s (died s') = ⊥
Walks cur j k i s stuck = ⊥
Walks cur j k i s fault = ⊥

module _ (cur j : ℕ) where
  walk_on :
      (k i : ℕ) (s t : DataMem)
      → get_dbucket_ptr (u32 (i + j) % cur) s ≡ ok (u32 (i + j) % cur) t
      → claim_bucket (t.db (u32 (i + j) % cur)) ≡ none
      → steps_walk cur j (suc k) i s ≡ steps_walk cur j k (i + 1) t
  unfolding steps_walk
  walk_on k i s t runs busy = rw runs (rw (busy, take_or) refl)

  pub walk_takes :
      (n k i local_ix : ℕ) (s t : DataMem) (b : DataBucket)
      → n ≡ suc k
      → u32 (i + j) ≡ local_ix
      → get_dbucket_ptr (local_ix % cur) s ≡ ok (local_ix % cur) t
      → claim_bucket (t.db (local_ix % cur)) ≡ some b
      → steps_walk cur j n i s
        ≡ ok (some (local_ix, local_ix % cur)) (record t {
          dbucket_rough_index = local_ix;
          db = update t.db (local_ix % cur) (record b { next_ix = no_ix; bytes = 0 });
          dbuckets_in_use = u32 (t.dbuckets_in_use + 1);
        })
  unfolding steps_walk
  walk_takes n k i local_ix s t b rounds at runs free =
      rw (rounds, at, runs) (rw (free, take_or) refl)

  -- A round at a bucket that cannot be had, before the others.
  visited-suc : (i q : ℕ) → visited cur j i (suc q) ≡ visited cur j (i + 1) q
  visited-suc i q = ap (λ n. u32 n % cur) {x = i + suc q + j} {y = i + 1 + q + j} (omega arith)

  Busy-before :
      (i n : ℕ) (s : DataMem)
      → Busy (s.db (visited cur j i 0))
      → ((q : ℕ) → q < n → Busy (s.db (visited cur j (i + 1) q)))
      → (q : ℕ) → q < suc n
      → Busy (s.db (visited cur j i q))
  Busy-before i n s here later zero h = here
  Busy-before i n s here later (suc q) h = rw (visited-suc i q) (later q (omega arith))

  Walks-suc :
      (k i : ℕ) (s t : DataMem)
      → t.db ≡ s.db
      → t.dbucket_steps ≡ s.dbucket_steps
      → t.dbuckets_in_use ≡ s.dbuckets_in_use
      → Busy (s.db (visited cur j i 0))
      → (r : Run DataMem (Option (ℕ × ℕ))) → Walks cur j k (i + 1) t r
      → Walks cur j (suc k) i s r
  Walks-suc k i s t db steps count here (ok none s') (later, same, steps') =
      (Busy-before i k s here (λ q h. rw (← db) (later q h)), same ∙ db, steps' ∙ steps)
  Walks-suc k i s t db steps count here (ok (some (local_ix, p)) s')
        ((r, less, at, before), is, unused, unlocked, now, more, rough) =
      (
        (
          suc r,
          omega arith,
          at ∙ ap u32 {x = i + 1 + r + j} {y = i + suc r + j} (omega arith),
          Busy-before i r s here (λ q h. rw (← db) (before q h)),
        ),
        is,
        rw (← db) unused,
        rw (← db) unlocked,
        rw (← db) now,
        rw (← count) more,
        rough,
      )
  Walks-suc k i s t db steps count here (died s') x = x
  Walks-suc k i s t db steps count here stuck x = x
  Walks-suc k i s t db steps count here fault x = x

  -- Over `k` rounds from round `i`, the buckets those of the steps there are.
  pub steps_walk-Walks :
      (k i : ℕ) (s : DataMem)
      → s.mapped 0 ≡ true
      → s.dbucket_steps ≤ max_data_buckets_steps
      → cur ≡ data_buckets_step * s.dbucket_steps
      → 0 < cur
      → Walks cur j k i s (steps_walk cur j k i s)
  steps_walk-Walks zero i s first few size pos =
      unfold steps_walk in (λ r h. absurd (omega arith), refl, refl)
  steps_walk-Walks (suc k) i s first few size pos =
      let p = u32 (i + j) % cur in
      let none_yet : visited cur j i 0 ≡ p =
        ap (λ n. u32 n % cur) {x = i + 0 + j} {y = i + j} (omega arith) in
      let small : p < data_buckets_step * s.dbucket_steps = grind arith in
      let (m, runs, zeroth, mapped) = get_dbucket_ptr_runs p s first few small in
      let t : DataMem = record s { mapped = m } in
      elim (Option-cases (claim_bucket (s.db p))) [
        | inl busy ↦ rw (walk_on k i s t runs busy) (
            Walks-suc k i s t refl refl refl (rw none_yet (claim_bucket-none (s.db p) busy))
              (steps_walk cur j k (i + 1) t) (steps_walk-Walks k (i + 1) t zeroth few size pos))
        | inr (b, free) ↦
            let (unused, unlocked, new) = claim_bucket-some (s.db p) free in
            rw (walk_takes (suc k) k i (u32 (i + j)) s t b refl refl runs free, new)
              (
                (
                  0,
                  omega arith,
                  ap u32 {x = i + j} {y = i + 0 + j} (omega arith),
                  λ q h. absurd (omega arith),
                ),
                refl,
                unused,
                unlocked,
                refl,
                refl,
                refl,
              )
      ]

-- A traversal of all buckets of the steps: as `Walks`, and where no bucket is taken, none can be had.
abbrev pub Traverses : (cur j : ℕ) → DataMem → Run DataMem (Option (ℕ × ℕ)) → Type 0
Traverses cur j s (ok none s') =
    ((a : ℕ) → a < cur → Busy (s.db a)) × (s'.db ≡ s.db) × (s'.dbucket_steps ≡ s.dbucket_steps)
Traverses cur j s (ok (some r) s') = Walks cur j cur 0 s (ok (some r) s')
Traverses cur j s (died s') = ⊥
Traverses cur j s stuck = ⊥
Traverses cur j s fault = ⊥

-- A round comes to every bucket.
visits :
    (steps j a : ℕ)
    → 0 < steps
    → steps ≤ max_data_buckets_steps
    → a < data_buckets_step * steps
    → (r : ℕ) × (r < data_buckets_step * steps) × (visited (data_buckets_step * steps) j 0 r ≡ a)
visits steps j a some_steps few h = elim (Bool-cases (steps == 1)) [
  | inl one ↦
      let e : steps ≡ 1 = ground arith in
      rw e ((a + 262144 - j % 262144) % 262144, omega arith, omega (arith, rw e at h))
  | inr more ↦
      let e : steps ≡ 2 = ground arith in
      rw e ((a + 524288 - j % 524288) % 524288, omega arith, omega (arith, rw e at h))
]

module _ (j : ℕ) (s : DataMem) (some_steps : 0 < s.dbucket_steps)
    (few : s.dbucket_steps ≤ max_data_buckets_steps) where
  abbrev whole : ℕ
  whole = data_buckets_step * s.dbucket_steps

  Walks-Traverses :
      (r : Run DataMem (Option (ℕ × ℕ))) → Walks whole j whole 0 s r → Traverses whole j s r
  Walks-Traverses (ok none s') (busy, same, steps) = (
    λ a less.
        let (r, below, at) = visits s.dbucket_steps j a some_steps few less in
        rw at at (busy r below),
    same,
    steps,
  )
  Walks-Traverses (ok (some (local_ix, p)) s') x = x
  Walks-Traverses (died s') x = x
  Walks-Traverses stuck x = x
  Walks-Traverses fault x = x

  -- With the first step mapped, the traversal of ALLOC_STEPS over the buckets of the steps there are,
  -- one step at least and no more than the table holds, takes and empties the first free and unlocked
  -- bucket of its walk, the one at the walk's index modulo their number; or every one of the buckets is
  -- in use or locked, and none has changed. It never ends the process.
  pub steps_walk-Traverses : s.mapped 0 ≡ true → Traverses whole j s (steps_walk whole j whole 0 s)
  steps_walk-Traverses first =
      Walks-Traverses (steps_walk whole j whole 0 s)
        (steps_walk-Walks whole j whole 0 s first few refl (omega arith))
