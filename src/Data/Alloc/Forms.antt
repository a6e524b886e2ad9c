-- ===== src/Data/Alloc/Forms.antt =====
-- The two forms, by index and by pointer, of the `ALLOC_ALL_*` allocators of system/util/data_shm.c.
use spacefish.Prelude.{ℕ, ◌+◌, ◌%◌, ◌<◌, ◌≡◌, refl, inl, inr, true, arith, ◌==◌, leb, Bool-cases}
use spacefish.Config.{total_steps_allowed}
use spacefish.Run.{ok, ◌>>=◌}
use spacefish.Data.{DataMem, slot_of}
use spacefish.Data.Steps.{get_dbucket_ptr}
use spacefish.Data.Steps.Pointers.{get_dbucket_ptr-ok}
use spacefish.Data.Alloc.{
  tot_buckets, walk_all, bucket_ix_alloc_all_random, bucket_ptr_alloc_all_random,
  bucket_ix_alloc_all_rough_ind, bucket_ptr_alloc_all_rough_ind,
}
use spacefish.Data.Alloc.Search.{search-cases, slot_of-eq}
use spacefish.Data.Alloc.Walks.{walk_all-Covers}

-- Every step has been created and mapped, as the daemon and `open_map_global_memd` leave it.
pub record AllMapped (s : DataMem) : Type 0 where
  pub steps : s.dbucket_steps ≡ total_steps_allowed
  pub each : (k : ℕ) → k < total_steps_allowed → s.mapped k ≡ true

reach :
    {s : DataMem}
    → AllMapped s
    → (t : DataMem) → t.dbucket_steps ≡ s.dbucket_steps
    → t.mapped ≡ s.mapped
    → (ix : ℕ) → ix < tot_buckets
    → get_dbucket_ptr ix t ≡ ok (slot_of ix) t
reach m t e f ix less =
    rw slot_of-eq (get_dbucket_ptr-ok ix t (omega (arith, m.steps)) (rw f (m.each _ (omega arith))))

module _ {s : DataMem} (m : AllMapped s) where
  -- When every step is mapped, the pointer form of ALLOC_ALL_RANDOM does what its index form and
  -- `get_dbucket_ptr` do after one another.
  pub all_random_forms :
      (bucket_ix_alloc_all_random >>= get_dbucket_ptr) s ≡ bucket_ptr_alloc_all_random s
  unfolding bucket_ix_alloc_all_random bucket_ptr_alloc_all_random
  all_random_forms = elim (Bool-cases (s.dbuckets_in_use == tot_buckets)) [
    | inl full ↦ rw full
    | inr more ↦
        let d = s.draws 0 % tot_buckets in
        let s' : DataMem = record s { draws = λ n. s.draws (n + 1) } in
        rw more (elim (search-cases (walk_all-Covers d (omega arith)) s') [
          | inl (i, f) ↦ rw f.runs (reach m _ refl refl (walk_all d i) f.below)
          | inr out ↦ rw out.runs refl
        ])
  ]

  -- When every step is mapped, the pointer form of ALLOC_ALL_ROUGH_IND does what its index form and
  -- `get_dbucket_ptr` do after one another.
  pub all_rough_ind_forms :
      (bucket_ix_alloc_all_rough_ind >>= get_dbucket_ptr) s ≡ bucket_ptr_alloc_all_rough_ind s
  unfolding bucket_ix_alloc_all_rough_ind bucket_ptr_alloc_all_rough_ind
  all_rough_ind_forms = elim (Bool-cases (leb tot_buckets s.dbucket_rough_index)) [
    | inl over ↦
        let d = s.dbucket_rough_index % tot_buckets in
        let s' : DataMem = record s { dbucket_rough_index = d } in
        rw over (elim (search-cases (walk_all-Covers d (omega arith)) s') [
          | inl (i, f) ↦ rw f.runs (reach m _ refl refl (walk_all d i) f.below)
          | inr out ↦ rw out.runs refl
        ])
    | inr within ↦
        let d = s.dbucket_rough_index in
        let less : d < tot_buckets = ground arith in
        rw within (elim (search-cases (walk_all-Covers d less) s) [
          | inl (i, f) ↦ rw f.runs (reach m _ refl refl (walk_all d i) f.below)
          | inr out ↦ rw out.runs refl
        ])
  ]
