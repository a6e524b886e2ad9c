-- ===== src/Data/Steps/Pointers.antt =====
-- `get_dbucket_ptr` of system/util/data_shm.c.
use spacefish.Prelude.{
  ℕ, ◌-◌, ◌*◌, ◌/◌, ◌≤◌, ◌<◌, ◌≡◌, refl, sym, ◌∙◌, inl, inr, Bool, true, false, arith, ◌==◌, leb,
  update, Bool-cases,
}
use mathlib.Core.Bool.{false≢true}
use native.Mathlib.Decide.{dec_lt}
use spacefish.Config.{data_buckets_step, max_data_buckets_steps}
use spacefish.Run.{Run, ok, died, stuck, fault}
use spacefish.Data.{DataMem}
use spacefish.Data.Alloc.Search.{slot_of-eq}
use spacefish.Data.Steps.{open_map_datastep, map_steps, first_unmapped, get_dbucket_ptr}

-- A pointer to an existing bucket is its index, and its step is mapped afterwards; an index past
-- the steps ends the process with nothing changed.
abbrev pub Reaches : ℕ → DataMem → Run DataMem ℕ → Type 0
Reaches ix s (ok p s') =
    (p ≡ ix)
    × (ix < data_buckets_step * s.dbucket_steps)
    × (s'.mapped (ix / data_buckets_step) ≡ true)
    × (s'.db ≡ s.db)
    × (s'.dbucket_steps ≡ s.dbucket_steps)
Reaches ix s (died s') = (data_buckets_step * s.dbucket_steps ≤ ix) × (s' ≡ s)
Reaches ix s stuck = ⊥
Reaches ix s fault = ⊥

module _ (ix : ℕ) (s : DataMem) where
  pub get_dbucket_ptr-died :
      data_buckets_step * s.dbucket_steps ≤ ix → get_dbucket_ptr ix s ≡ died s
  unfolding get_dbucket_ptr
  get_dbucket_ptr-died h =
      let past : leb s.dbucket_steps (ix / data_buckets_step) ≡ true = ground arith in rw past

  pub get_dbucket_ptr-ok :
      ix < data_buckets_step * s.dbucket_steps
      → s.mapped (ix / data_buckets_step) ≡ true
      → get_dbucket_ptr ix s ≡ ok ix s
  unfolding get_dbucket_ptr
  get_dbucket_ptr-ok h mapped =
      let there : leb s.dbucket_steps (ix / data_buckets_step) ≡ false = ground arith in
      rw (there, mapped, slot_of-eq)

  -- Only the second of two steps is missing.
  second_step :
      s.mapped 0 ≡ true
      → s.dbucket_steps ≤ max_data_buckets_steps
      → ix < data_buckets_step * s.dbucket_steps
      → s.mapped (ix / data_buckets_step) ≡ false
      → (s.dbucket_steps ≡ 2) × (ix / data_buckets_step ≡ 1) × (s.mapped 1 ≡ false)
  second_step first few h unmapped =
      let q : ix / data_buckets_step ≡ 1 = elim (Bool-cases (ix / data_buckets_step == 0)) [
        | inl zeroth ↦
            let e : ix / data_buckets_step ≡ 0 = ground arith in
            absurd (false≢true (sym (rw e at unmapped) ∙ first))
        | inr other ↦ ground arith
      ] in
      (omega arith, q, rw q at unmapped)

  map_both :
      s.dbucket_steps ≡ 2
      → map_steps 2 0 s ≡ ok tt (record s { mapped = update (update s.mapped 0 true) 1 true })
  unfolding map_steps open_map_datastep
  map_both e = ground arith

  map_both_at :
      (k i : ℕ)
      → k ≡ 2
      → i ≡ 0
      → s.dbucket_steps ≡ 2
      → map_steps k i s ≡ ok tt (record s { mapped = update (update s.mapped 0 true) 1 true })
  unfolding map_steps open_map_datastep
  map_both_at k i ek ei e = rw (ek, ei) (map_both e)

  maps_second :
      s.mapped 0 ≡ true
      → s.dbucket_steps ≡ 2
      → ix / data_buckets_step ≡ 1
      → s.mapped 1 ≡ false
      → get_dbucket_ptr ix s ≡ ok ix (record s { mapped = update (update s.mapped 0 true) 1 true })
  unfolding get_dbucket_ptr
  maps_second first both at_one gap =
      let i : first_unmapped 2 0 s.mapped ≡ 1 = ground arith in
      let there : leb s.dbucket_steps (ix / data_buckets_step) ≡ false = ground arith in
      let unmapped : s.mapped (ix / data_buckets_step) ≡ false = rw at_one gap in
      simp (
        there,
        unmapped,
        i,
        map_both_at (s.dbucket_steps - (1 - 1)) (1 - 1) (omega arith) refl both,
        slot_of-eq,
      )

  -- A pointer to an existing bucket changes at most which steps are mapped.
  pub get_dbucket_ptr_runs :
      s.mapped 0 ≡ true
      → s.dbucket_steps ≤ max_data_buckets_steps
      → ix < data_buckets_step * s.dbucket_steps
      → (m : ℕ → Bool) × (get_dbucket_ptr ix s ≡ ok ix (record s { mapped = m }))
        × (m 0 ≡ true)
        × (m (ix / data_buckets_step) ≡ true)
  get_dbucket_ptr_runs first few h = elim (Bool-cases (s.mapped (ix / data_buckets_step))) [
    | inl mapped ↦ (s.mapped, get_dbucket_ptr-ok h mapped, first, mapped)
    | inr unmapped ↦
        let (both, at_one, gap) = second_step first few h unmapped in
        (
          update (update s.mapped 0 true) 1 true,
          maps_second first both at_one gap,
          refl,
          rw at_one refl,
        )
  ]

  -- With the first step mapped and no more steps than the table holds, `get_dbucket_ptr` returns the
  -- bucket of every index below the steps' buckets, its step then mapped, and ends the process on every
  -- other index, with nothing changed.
  pub get_dbucket_ptr-Reaches :
      s.mapped 0 ≡ true
      → s.dbucket_steps ≤ max_data_buckets_steps
      → Reaches ix s (get_dbucket_ptr ix s)
  get_dbucket_ptr-Reaches first few = elim (dec_lt ix (data_buckets_step * s.dbucket_steps)) [
    | yes h ↦
        let (m, runs, zeroth, mapped) = get_dbucket_ptr_runs first few h in
        rw runs (refl, h, mapped, refl, refl)
    | no past ↦ rw (get_dbucket_ptr-died (omega arith)) (omega arith, refl)
  ]
