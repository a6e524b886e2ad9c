-- ===== src/Data.antt =====
-- The state of system/util/data_shm.c: the data buckets of all steps in one array, the counters of
-- `sys_glob` (system/include/meta_shm.h), the per-core records, and what this process keeps.
-- The bucket `data_steps[s][m]` has the address `at_step s m`, which is also its logical index.
pub mod Alloc
pub mod Method
pub mod Steps
use spacefish.Prelude.{
  ℕ, ◌+◌, ◌*◌, ◌/◌, ◌%◌, Bool, true, false, Option, none, some, ◌==◌, if◌then◌else◌,
}
use spacefish.Config.{data_buckets_step}
use spacefish.Run.{ok, Cmd}

-- `data_bucket`; `buf` gives the byte at each offset, and `locked` is the state of `lock`.
pub record DataBucket : Type 0 where
  pub in_use : Bool
  pub next_ix : ℕ
  pub buf : ℕ → ℕ
  pub bytes : ℕ
  pub locked : Bool

-- `core_st`; `core_n` is -1 until a core takes the record.
pub record CoreSt : Type 0 where
  pub in_use : Bool
  pub core_n : Option ℕ
  pub rough_ind : ℕ
  pub locked : Bool

-- `glob_locked` is the state of `sys_glob_p->lock`; `mapped i` says that `data_steps[i]` of this
-- process is not NULL. The results of the library calls to come are part of the state: `draws` of
-- `rand`, and `cpu` of `sched_getcpu`.
pub record DataMem : Type 0 where
  pub dbucket_steps : ℕ
  pub dbucket_rough_index : ℕ
  pub dbuckets_in_use : ℕ
  pub glob_locked : Bool
  pub ncores : ℕ
  pub alloc_method : ℕ
  pub db : ℕ → DataBucket
  pub cores : ℕ → CoreSt
  pub mapped : ℕ → Bool
  pub last_core_num : Option ℕ
  pub last_core_ix : ℕ
  pub draws : ℕ → ℕ
  pub cpu : ℕ

-- `rand()`
abbrev pub rand : Cmd DataMem ℕ
rand s = ok (s.draws 0) (record s { draws = λ n. s.draws (n + 1) })

abbrev pub at_step : ℕ → ℕ → ℕ
at_step step m = step * data_buckets_step + m

-- The address of `data_steps[ix / DATA_BUCKETS_STEP][ix % DATA_BUCKETS_STEP]`.
abbrev pub slot_of : ℕ → ℕ
slot_of ix = at_step (ix / data_buckets_step) (ix % data_buckets_step)

-- The body of every allocation loop: pass over a bucket that is in use or locked (EBUSY); else hold
-- its lock, test `in_use` again, take the bucket, and let the lock go.
unfoldable pub claim_bucket : DataBucket → Option DataBucket
claim_bucket b =
    if b.in_use
    then none
    else if b.locked
    then none
    else let held = record b { locked = true } in
      if held.in_use then none else some (record held { in_use = true; locked = false })

-- The loop of `get_set_core_index`: the record of this core, or a free one, which it takes.
unfoldable pub claim_core : ℕ → CoreSt → Option CoreSt
claim_core cnum c =
    if c.in_use
    then (elim c.core_n [ none ↦ none | some n ↦ if n == cnum then some c else none ])
    else if c.locked
    then none
    else let held = record c { locked = true } in
      if held.in_use
      then none
      else some (record held { in_use = true; core_n = some cnum; locked = false })
