-- ===== src/Data/Steps.antt =====
-- system/util/data_shm.c: the steps of data buckets, how a bucket is reached and given back, and
-- the allocators that create a step when they need one (`ALLOC_STEPS`).
pub mod Past
pub mod Pointers
pub mod Walk
use spacefish.Prelude.{
  ℕ, zero, suc, ◌≤◌, ◌≡◌, refl, arith, inl, inr, Bool-cases, ◌+◌, ◌-◌, ◌*◌, ◌/◌, ◌%◌, ◌^◌, Bool,
  true, false, Option, none, some, ◌&&◌, ◌||◌, ◌==◌, leb, ltb, if◌then◌else◌, update, not,
}
use spacefish.Config.{data_buckets_step, max_data_buckets_steps, u32, no_ix}
use spacefish.Run.{Status, done, failed, ok, died, stuck, fault, Cmd, ◌>>=◌, ◌>>◌, get, put}
use spacefish.Data.{DataBucket, DataMem, slot_of, claim_bucket}

-- A shared segment `ufs_md_<uid>_<i>` exists for each step that has been created; `shm_open` of
-- any other fails, and EHANDLE ends the process.
pub open_map_datastep : ℕ → Cmd DataMem (Unit {0})
open_map_datastep index s =
    if ltb index s.dbucket_steps
    then ok tt (record s { mapped = update s.mapped index true })
    else died s

-- for (; i < i + k; i++) open_map_datastep(i)
pub map_steps : (k i : ℕ) → Cmd DataMem (Unit {0})
map_steps zero i = ok tt
map_steps (suc k) i = open_map_datastep i >> map_steps k (i + 1)

-- Per-core allocation also forgets the last core: -1, as the bit pattern of an `int`.
pub open_map_global_memd : Cmd DataMem (Unit {0})
unfolding open_map_datastep map_steps
open_map_global_memd = do
  s ← get
  put (
      if s.alloc_method == 3 || s.alloc_method == 4
      then record s { last_core_num = none; last_core_ix = no_ix }
      else s)
  map_steps s.dbucket_steps 0

map_steps-ok :
    (k i : ℕ) (s : DataMem) → i + k ≤ s.dbucket_steps → (t : DataMem) × (map_steps k i s ≡ ok tt t)
unfolding map_steps open_map_datastep
map_steps-ok zero i s h = (s, refl)
map_steps-ok (suc k) i s h =
    let there : ltb i s.dbucket_steps ≡ true = ground arith in
    let (t, runs) =
      map_steps-ok k (i + 1) (record s { mapped = update s.mapped i true }) (omega arith) in
    (t, rw there runs)

-- All steps are there to be mapped.
pub open_map_global_memd-ok : (s : DataMem) → (t : DataMem) × (open_map_global_memd s ≡ ok tt t)
unfolding open_map_global_memd
open_map_global_memd-ok s = elim (Bool-cases (s.alloc_method == 3 || s.alloc_method == 4)) [
  | inl per_core ↦
      let (t, runs) =
        map_steps-ok s.dbucket_steps 0 (record s { last_core_num = none; last_core_ix = no_ix })
          (omega arith) in
      (t, rw per_core runs)
  | inr all ↦ let (t, runs) = map_steps-ok s.dbucket_steps 0 s (omega arith) in (t, rw all runs)
]

unfoldable pub init_dbucket : DataBucket → DataBucket
init_dbucket b = record b { in_use = false; next_ix = no_ix; bytes = 0; locked = false }

-- The address lies in the step.
abbrev pub in_step : ℕ → ℕ → Bool
in_step index a = a / data_buckets_step == index

-- O_EXCL: a segment that is there already ends the process. The loop initialises each bucket of
-- the step once.
pub create_map_dbucket_step : ℕ → Cmd DataMem (Unit {0})
unfolding init_dbucket
create_map_dbucket_step index s =
    if ltb index s.dbucket_steps
    then died s
    else ok tt (record s {
      mapped = update s.mapped index true;
      db = λ a. if in_step index a then init_dbucket (s.db a) else s.db a;
      dbucket_steps = s.dbucket_steps + 1;
    })

-- With the lock of `sys_glob` held elsewhere the function waits for the number of steps to change,
-- which no step of this process does.
pub try_create_step : ℕ → Cmd DataMem (Unit {0})
unfolding open_map_datastep create_map_dbucket_step
try_create_step steps_read = do
  s ← get
  if steps_read == max_data_buckets_steps
      then died
      else if ltb steps_read s.dbucket_steps
      then open_map_datastep steps_read
      else if s.glob_locked
      then (if s.dbucket_steps == steps_read then (λ _. stuck) else died)
      else do
        put (record s { glob_locked = true })
        create_map_dbucket_step steps_read
        t ← get
        put (record t { glob_locked = false })

-- for (i = 0; i < MAX_DATA_BUCKETS_STEPS; i++) if (data_steps[i] == NULL) break;
first_unmapped : (k i : ℕ) → (ℕ → Bool) → ℕ
first_unmapped zero i mapped = i
first_unmapped (suc k) i mapped = elim (mapped i) [
  | true ↦ first_unmapped k (i + 1) mapped
  | false ↦ i
]

-- The bucket at a logical index. Where no step is mapped at all the loop starts at the step -1, of
-- which there is no segment: EHANDLE ends the process.
pub get_dbucket_ptr : ℕ → Cmd DataMem ℕ
unfolding map_steps first_unmapped
get_dbucket_ptr ix = do
  s ← get
  let step_num = ix / data_buckets_step
  let i = first_unmapped max_data_buckets_steps 0 s.mapped
  if leb s.dbucket_steps step_num
      then died
      else if s.mapped step_num
      then ok (slot_of ix)
      else if i == 0
      then died
      else do map_steps (s.dbucket_steps - (i - 1)) (i - 1); ok (slot_of ix)

-- `dbuckets_in_use` is an `unsigned int`, and wraps below 0.
pub release_dbucket : ℕ → Cmd DataMem Status
release_dbucket p s =
    if (s.db p).in_use
    then ok done (record s {
      db = update s.db p (record (s.db p) { in_use = false });
      dbuckets_in_use = u32 (s.dbuckets_in_use + 2 ^ 32 - 1);
    })
    else ok failed s

-- DATA_BUCKETS_STEP * MAX_DATA_BUCKETS_STEPS
abbrev pub limit : ℕ
limit = data_buckets_step * max_data_buckets_steps

-- What the loop does at the bucket `p`, visited as `local_ix`: take it as `claim_bucket` leaves it,
-- or go on with the rest of the loop.
take_or :
    Option DataBucket
    → (local_ix p : ℕ) → Cmd DataMem (Option (ℕ × ℕ))
    → Cmd DataMem (Option (ℕ × ℕ))
take_or none local_ix p rest s = rest s
take_or (some b) local_ix p rest s = ok (some (local_ix, p)) (record s {
  dbucket_rough_index = local_ix;
  db = update s.db p (record b { next_ix = no_ix; bytes = 0 });
  dbuckets_in_use = u32 (s.dbuckets_in_use + 1);
})

-- The loop over `k` rounds from round `i`: the bucket taken, as `local_ix` and as a pointer.
pub steps_walk : (current_num_buckets j : ℕ) (k i : ℕ) → Cmd DataMem (Option (ℕ × ℕ))
unfolding get_dbucket_ptr take_or
steps_walk current_num_buckets j zero i = ok none
steps_walk current_num_buckets j (suc k) i = do
  p ← get_dbucket_ptr (u32 (i + j) % current_num_buckets)
  s ← get
  take_or (claim_bucket (s.db p)) (u32 (i + j)) p (steps_walk current_num_buckets j k (i + 1))

-- What follows the loop: the bucket that it took, or, all buckets visited, another try.
after_walk : Option (ℕ × ℕ) → (current_num_buckets : ℕ) → Cmd DataMem (ℕ × ℕ) → Cmd DataMem (ℕ × ℕ)
after_walk (some r) current_num_buckets again = ok r
after_walk none current_num_buckets again = if current_num_buckets == limit then died else again

-- `traverse_current_buckets:` and the `goto` at the end. Each round but the last creates a step.
pub traverse : ℕ → Cmd DataMem (ℕ × ℕ)
unfolding steps_walk try_create_step after_walk
traverse zero = λ _. stuck
traverse (suc fuel) = do
  s ← get
  let current_num_buckets = u32 (data_buckets_step * s.dbucket_steps)
  found ← steps_walk current_num_buckets s.dbucket_rough_index current_num_buckets 0
  after_walk found current_num_buckets (try_create_step s.dbucket_steps >> traverse fuel)

-- What both functions do before the traversal: give up on a full memory, wrap the rough index, and
-- create a step when all buckets of those there are in use.
prepare_steps : Cmd DataMem (Unit {0})
unfolding try_create_step
prepare_steps = do
  s ← get
  if s.dbuckets_in_use == limit then died else do
    put (
        if ltb limit s.dbucket_rough_index && not s.glob_locked
        then record s { dbucket_rough_index = s.dbucket_rough_index % limit }
        else s)
    if s.dbuckets_in_use == u32 (data_buckets_step * s.dbucket_steps)
        then try_create_step s.dbucket_steps
        else ok tt

pub bucket_ix_alloc_steps : Cmd DataMem ℕ
unfolding prepare_steps traverse
bucket_ix_alloc_steps = do
  prepare_steps
  (local_ix, p) ← traverse (max_data_buckets_steps + 1)
  ok local_ix

pub bucket_ptr_alloc_steps : Cmd DataMem ℕ
unfolding prepare_steps traverse
bucket_ptr_alloc_steps = do
  prepare_steps
  (local_ix, p) ← traverse (max_data_buckets_steps + 1)
  ok p
