-- ===== src/Data/Steps/Past.antt =====
-- `bucket_ix_alloc_steps` of system/util/data_shm.c where its rough index is past the steps there are.
use spacefish.Prelude.{
  ℕ, suc, ◌+◌, ◌-◌, ◌*◌, ◌%◌, ◌≤◌, ◌<◌, ◌≡◌, refl, Bool, true, false, some, arith, ◌==◌, ltb,
  update,
}
use spacefish.Config.{data_buckets_step, max_data_buckets_steps, u32}
use spacefish.Run.{ok, died}
use spacefish.Data.{DataMem, claim_bucket}
use spacefish.Data.Steps.{
  get_dbucket_ptr, steps_walk, traverse, after_walk, prepare_steps, bucket_ix_alloc_steps, limit,
}
use spacefish.Data.Steps.Pointers.{get_dbucket_ptr_runs, get_dbucket_ptr-died}
use spacefish.Data.Alloc.Search.{claim_bucket_free}
use spacefish.Data.Steps.Walk.{fresh, walk_takes}

-- A walk that starts past the last bucket: the steps hold `cur` buckets, and the rough index, which
-- no allocation resets below `cur`, is not above the limit at which it is wrapped.
pub record StartsPast (s : DataMem) : Type 0 where
  pub first : s.mapped 0 ≡ true
  pub some_steps : 0 < s.dbucket_steps
  pub few_steps : s.dbucket_steps ≤ max_data_buckets_steps
  pub past : data_buckets_step * s.dbucket_steps ≤ s.dbucket_rough_index
  pub no_wrap : s.dbucket_rough_index ≤ limit
  pub room : s.dbuckets_in_use < data_buckets_step * s.dbucket_steps
  pub unused : (s.db (s.dbucket_rough_index % (data_buckets_step * s.dbucket_steps))).in_use ≡ false
  pub unlocked :
      (s.db (s.dbucket_rough_index % (data_buckets_step * s.dbucket_steps))).locked ≡ false

module _ {s : DataMem} (v : StartsPast s) where
  abbrev cur : ℕ
  cur = data_buckets_step * s.dbucket_steps

  abbrev taken_ix : ℕ
  taken_ix = s.dbucket_rough_index % cur

  prepared : prepare_steps s ≡ ok tt s
  unfolding prepare_steps
  prepared =
      let open_room : (s.dbuckets_in_use == limit) ≡ false = ground (arith, v.room, v.few_steps) in
      let below : ltb limit s.dbucket_rough_index ≡ false = ground (arith, v.no_wrap) in
      let unfilled : (s.dbuckets_in_use == u32 cur) ≡ false = ground (arith, v.room, v.few_steps) in
      rw (open_room, below, unfilled) refl

  -- The state but for which steps are mapped.
  abbrev after : (ℕ → Bool) → DataMem
  after m = record s {
    mapped = m;
    db = update s.db taken_ix (fresh (s.db taken_ix));
    dbuckets_in_use = u32 (s.dbuckets_in_use + 1);
  }

  in_range : taken_ix < cur
  in_range = let pos : 0 < cur = omega (arith, v.some_steps) in grind arith

  walked :
      (m : ℕ → Bool) × (steps_walk cur s.dbucket_rough_index cur 0 s
        ≡ ok (some (s.dbucket_rough_index, taken_ix)) (after m))
  walked =
      let (m, runs, zeroth, mapped) =
        get_dbucket_ptr_runs taken_ix s v.first v.few_steps in_range in
      let free : claim_bucket (s.db taken_ix)
          ≡ some (record (s.db taken_ix) { in_use = true; locked = false }) =
        claim_bucket_free _ v.unused v.unlocked in
      (
        m,
        walk_takes cur s.dbucket_rough_index cur (cur - 1) 0 s.dbucket_rough_index s
            (record s { mapped = m }) _ (omega (arith, v.some_steps)) (omega (arith, v.no_wrap))
            runs free,
      )

  traversed :
      (m : ℕ → Bool) × (traverse (suc max_data_buckets_steps) s
        ≡ ok (s.dbucket_rough_index, taken_ix) (after m))
  unfolding traverse
  traversed =
      let (m, e) = walked in
      let unwrapped : u32 cur ≡ cur = omega (arith, v.few_steps) in
      (m, rw (unwrapped, e, after_walk) refl)

  -- With the first step mapped, one step at least and no more than the table holds, and fewer buckets
  -- counted as in use than the steps have: where the rough index is at or past the steps' buckets, but
  -- not above the limit past which it is wrapped, and the bucket at it modulo their number is free and
  -- unlocked (`StartsPast`), the index form takes that bucket, and returns the rough index itself, to
  -- which no bucket belongs: the next use of it ends the process. The bucket that was taken has
  -- another index.
  pub alloc_steps_past :
      (s' : DataMem) × (bucket_ix_alloc_steps s ≡ ok s.dbucket_rough_index s')
      × (s'.db ≡ update s.db taken_ix (fresh (s.db taken_ix)))
      × (taken_ix < cur)
      × (get_dbucket_ptr s.dbucket_rough_index s' ≡ died s')
  unfolding bucket_ix_alloc_steps
  alloc_steps_past =
      let (m, e) = traversed in
      (after m, rw (prepared, e) refl, refl, in_range, get_dbucket_ptr-died _ (after m) v.past)
