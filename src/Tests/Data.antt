-- ===== src/Tests/Data.antt =====
-- The theorems on data buckets (system/util/data_shm.c) at small states.
use spacefish.Prelude.{
  ℕ, ◌≡◌, refl, ◌⊎◌, ◌≤◌, ◌<◌, ◌*◌, ◌∙◌, sym, true, false, none, some, arith, ◌==◌, if◌then◌else◌,
  update,
}
use spacefish.Config.{no_ix, data_buckets_step}
use spacefish.Run.{ok, died}
use spacefish.Scan.{scan}
use spacefish.Data.{DataBucket, CoreSt, DataMem, claim_core}
use spacefish.Data.Alloc.{
  tot_buckets, get_set_core_index, bucket_ix_alloc_all_random, bucket_ix_alloc_all_per_core_random,
}
use spacefish.Data.Alloc.Search.{Allocates}
use spacefish.Data.Alloc.Bounds.{
  all_random-Allocates, per_core_random-Allocates, slice_start, slice_end,
}
use spacefish.Data.Alloc.Cores.{Owns, CoresOk, Finds, get_set_core_index-Finds, slices_disjoint}
use spacefish.Data.Steps.{get_dbucket_ptr, steps_walk, bucket_ix_alloc_steps}
use spacefish.Data.Steps.Past.{alloc_steps_past}
use spacefish.Data.Steps.Pointers.{Reaches, get_dbucket_ptr-Reaches}
use spacefish.Data.Steps.Walk.{Traverses, steps_walk-Traverses, fresh}

abbrev free_bucket : DataBucket
free_bucket = record { in_use = false; next_ix = no_ix; buf = λ _. 0; bytes = 0; locked = false }

abbrev free_core : CoreSt
free_core = record { in_use = false; core_n = none; rough_ind = 0; locked = false }

-- Bucket 7, at which the walks start, is in use.
abbrev mem : DataMem
mem = record {
  dbucket_steps = 2;
  dbucket_rough_index = 7;
  dbuckets_in_use = 1;
  glob_locked = false;
  ncores = 2;
  alloc_method = 3;
  db = λ a. if a == 7 then record free_bucket { in_use = true } else free_bucket;
  cores = λ _. free_core;
  mapped = λ _. true;
  last_core_num = none;
  last_core_ix = 0;
  draws = λ _. 7;
  cpu = 5;
}

-- The core's first call takes the first record.
abbrev on_core : DataMem
on_core = record mem {
  cores = update mem.cores 0 (record free_core { in_use = true; core_n = some 5 });
  last_core_ix = 0;
  last_core_num = some 5;
}

mem-CoresOk : CoresOk mem
mem-CoresOk = record {
  unique = λ n i j p q. absurd (ground (arith, p.used));
  packed = λ i j h k e. absurd (ground arith);
  quiet = λ i h. refl;
  last = λ n e. absurd (ground arith);
}

on_core_got : get_set_core_index mem ≡ ok 0 on_core
unfolding get_set_core_index scan claim_core
on_core_got = refl

all_random-Allocates_example : Allocates 0 tot_buckets mem (bucket_ix_alloc_all_random mem)
all_random-Allocates_example = all_random-Allocates mem (omega arith)

per_core_random-Allocates_example :
    Allocates
      (slice_start on_core 0)
      (slice_end on_core 0)
      on_core
      (bucket_ix_alloc_all_per_core_random mem)
per_core_random-Allocates_example = per_core_random-Allocates mem on_core_got (omega arith)

get_set_core_index-Finds_example : Finds mem (get_set_core_index mem)
get_set_core_index-Finds_example = get_set_core_index-Finds mem mem-CoresOk

-- Only the first of two steps is mapped.
abbrev half_mapped : DataMem
half_mapped = record mem { mapped = λ k. k == 0 }

get_dbucket_ptr-Reaches_example : Reaches 300000 half_mapped (get_dbucket_ptr 300000 half_mapped)
get_dbucket_ptr-Reaches_example = get_dbucket_ptr-Reaches 300000 half_mapped refl (omega arith)

steps_walk-Traverses_example : Traverses 524288 7 mem (steps_walk 524288 7 524288 0 mem)
steps_walk-Traverses_example = steps_walk-Traverses 7 mem (omega arith) (omega arith) refl

-- One step, and a rough index just past its last bucket.
abbrev past_end : DataMem
past_end = record mem { dbucket_steps = 1; dbucket_rough_index = 262144 }

alloc_steps_past_example :
    (s' : DataMem) × (bucket_ix_alloc_steps past_end ≡ ok 262144 s')
    × (s'.db ≡ update past_end.db 0 (fresh (past_end.db 0)))
    × (0 < data_buckets_step * 1)
    × (get_dbucket_ptr 262144 s' ≡ died s')
alloc_steps_past_example = alloc_steps_past {s = past_end} (record {
  first = refl;
  some_steps = omega arith;
  few_steps = omega arith;
  past = omega arith;
  no_wrap = omega arith;
  room = omega arith;
  unused = refl;
  unlocked = refl;
})

-- Then a process on core 6.
abbrev other_core : DataMem
other_core = record on_core { last_core_num = none; cpu = 6 }

abbrev both_cores : DataMem
both_cores = record other_core {
  cores = update on_core.cores 1 (record free_core { in_use = true; core_n = some 6 });
  last_core_ix = 1;
  last_core_num = some 6;
}

both_cores_got : get_set_core_index other_core ≡ ok 1 both_cores
unfolding get_set_core_index scan claim_core
both_cores_got = refl

owner_is : (n i : ℕ) → Owns other_core n i → i ≡ 0
owner_is n i o = ground (arith, o.used)

other_core-CoresOk : CoresOk other_core
other_core-CoresOk = record {
  unique = λ n i j p q. owner_is n i p ∙ sym (owner_is n j q);
  packed = λ i j h k e. absurd (ground arith);
  quiet = λ i h. ground arith;
  last = λ n e. absurd (ground arith);
}

slices_disjoint_example :
    ((slice_end on_core 0 ≤ slice_start both_cores 1)
      ⊎ (slice_end both_cores 1 ≤ slice_start on_core 0))
    × (slice_end on_core 0 ≤ tot_buckets)
    × (slice_end both_cores 1 ≤ tot_buckets)
slices_disjoint_example =
    slices_disjoint {u = other_core} mem-CoresOk on_core_got other_core-CoresOk
      (λ n i o. record { in_range = o.in_range; used = o.used; number = o.number }) refl
      (omega arith) both_cores_got
