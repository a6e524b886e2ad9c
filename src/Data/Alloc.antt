-- ===== src/Data/Alloc.antt =====
-- The allocation functions of system/util/data_shm.c that expect every step to be mapped
-- (`ALLOC_ALL_*`; `open_map_global_memd` has mapped them), in both forms: by index and by pointer.
pub mod Search
pub mod Walks
pub mod Bounds
pub mod Cores
pub mod Forms
use spacefish.Prelude.{
  ℕ, ◌+◌, ◌-◌, ◌*◌, ◌/◌, ◌%◌, Bool, false, Option, none, some, ◌==◌, leb, if◌then◌else◌, update,
}
use spacefish.Config.{data_buckets_step, total_steps_allowed, u32}
use spacefish.Run.{ok, died, fault, Cmd, ◌>>=◌, ◌>>◌, get}
use spacefish.Scan.{scan}
use spacefish.Data.{DataMem, rand, slot_of, claim_bucket, claim_core}

-- DATA_BUCKETS_STEP * TOTAL_STEPS_ALLOWED
abbrev pub tot_buckets : ℕ
tot_buckets = data_buckets_step * total_steps_allowed

-- The loop over `n` rounds, round `i` at the index `pos i`: the round that took its bucket. When
-- all rounds are over, UEHANDLE("data bucket over-use").
pub search : ℕ → (ℕ → ℕ) → Cmd DataMem ℕ
search n pos s = elim (scan claim_bucket (λ i. slot_of (pos i)) n 0 s.db) [
  | none ↦ died s
  | some (m, db) ↦ ok m (record s { db = db })
]

-- The index visited at round `i` by a walk over all buckets.
abbrev pub walk_all : ℕ → ℕ → ℕ
walk_all dindex i = u32 (dindex + i) % tot_buckets

pub bucket_ix_alloc_all_random : Cmd DataMem ℕ
unfolding search
bucket_ix_alloc_all_random = do
  s ← get
  if s.dbuckets_in_use == tot_buckets then died else do
    r ← rand
    i ← search tot_buckets (walk_all (r % tot_buckets))
    ok (walk_all (r % tot_buckets) i)

pub bucket_ptr_alloc_all_random : Cmd DataMem ℕ
unfolding search
bucket_ptr_alloc_all_random = do
  s ← get
  if s.dbuckets_in_use == tot_buckets then died else do
    r ← rand
    i ← search tot_buckets (walk_all (r % tot_buckets))
    ok (slot_of (walk_all (r % tot_buckets) i))

-- RI = RI % tot_steps, where RI is out of range
wrap_rough : Cmd DataMem (Unit {0})
wrap_rough s = ok tt (
    if leb tot_buckets s.dbucket_rough_index
    then record s { dbucket_rough_index = s.dbucket_rough_index % tot_buckets }
    else s)

-- RI = j
set_rough : ℕ → Cmd DataMem (Unit {0})
set_rough j s = ok tt (record s { dbucket_rough_index = j })

pub bucket_ix_alloc_all_rough_ind : Cmd DataMem ℕ
unfolding search wrap_rough set_rough
bucket_ix_alloc_all_rough_ind = do
  wrap_rough
  s ← get
  i ← search tot_buckets (walk_all s.dbucket_rough_index)
  set_rough (walk_all s.dbucket_rough_index i)
  ok (walk_all s.dbucket_rough_index i)

pub bucket_ptr_alloc_all_rough_ind : Cmd DataMem ℕ
unfolding search wrap_rough set_rough
bucket_ptr_alloc_all_rough_ind = do
  wrap_rough
  s ← get
  i ← search tot_buckets (walk_all s.dbucket_rough_index)
  set_rough (walk_all s.dbucket_rough_index i)
  ok (slot_of (walk_all s.dbucket_rough_index i))

-- cnum == last_core_num, where -1 is no core
abbrev pub is_core : ℕ → Option ℕ → Bool
is_core cnum none = false
is_core cnum (some n) = cnum == n

-- `sched_getcpu` gives the core; its record is looked up, or a free record is taken.
unfoldable pub get_set_core_index : Cmd DataMem ℕ
get_set_core_index s =
    if is_core s.cpu s.last_core_num
    then ok s.last_core_ix s
    else elim (scan (claim_core s.cpu) (λ i. i) s.ncores 0 s.cores) [
      | none ↦ died s
      | some (i, cores) ↦
          ok i (record s { cores = cores; last_core_ix = i; last_core_num = some s.cpu })
    ]

-- tot_bkts / (sys_glob_p->ncores)
abbrev pub bkts_per_core : DataMem → ℕ
bkts_per_core s = tot_buckets / s.ncores

-- The index visited at round `i` by a walk over the slice of a core, from `start` within it.
abbrev pub walk_core : (bkts my_start start : ℕ) → ℕ → ℕ
walk_core bkts my_start start i = u32 (start + i) % bkts + my_start

pub bucket_ix_alloc_all_per_core_random : Cmd DataMem ℕ
unfolding search get_set_core_index
bucket_ix_alloc_all_per_core_random = do
  core_ix ← get_set_core_index
  s ← get
  let bkts = bkts_per_core s
  if bkts == 0 then (λ _. fault) else do
    r ← rand
    i ← search bkts (walk_core bkts (bkts * core_ix) (r % bkts))
    ok (walk_core bkts (bkts * core_ix) (r % bkts) i)

pub bucket_ptr_alloc_all_per_core_random : Cmd DataMem ℕ
unfolding search get_set_core_index
bucket_ptr_alloc_all_per_core_random = do
  core_ix ← get_set_core_index
  s ← get
  let bkts = bkts_per_core s
  if bkts == 0 then (λ _. fault) else do
    r ← rand
    i ← search bkts (walk_core bkts (bkts * core_ix) (r % bkts))
    ok (slot_of (walk_core bkts (bkts * core_ix) (r % bkts) i))

-- CRI = n, the rough index of the core's record
set_cri : ℕ → ℕ → Cmd DataMem (Unit {0})
set_cri core_ix n s =
    ok tt (record s { cores = update s.cores core_ix (record (s.cores core_ix) { rough_ind = n }) })

-- CRI = CRI % bkts_per_core, where CRI is out of range
wrap_cri : ℕ → ℕ → Cmd DataMem (Unit {0})
unfolding set_cri
wrap_cri core_ix bkts s =
    if leb bkts (s.cores core_ix).rough_ind
    then set_cri core_ix ((s.cores core_ix).rough_ind % bkts) s
    else ok tt s

pub bucket_ix_alloc_all_per_core_rough_ind : Cmd DataMem ℕ
unfolding search get_set_core_index set_cri wrap_cri
bucket_ix_alloc_all_per_core_rough_ind = do
  core_ix ← get_set_core_index
  s ← get
  let bkts = bkts_per_core s
  if bkts == 0 then (λ _. fault) else do
    wrap_cri core_ix bkts
    t ← get
    let cri = (t.cores core_ix).rough_ind
    i ← search bkts (walk_core bkts (bkts * core_ix) cri)
    set_cri core_ix (walk_core bkts (bkts * core_ix) cri i - bkts * core_ix)
    ok (walk_core bkts (bkts * core_ix) cri i)

pub bucket_ptr_alloc_all_per_core_rough_ind : Cmd DataMem ℕ
unfolding search get_set_core_index set_cri wrap_cri
bucket_ptr_alloc_all_per_core_rough_ind = do
  core_ix ← get_set_core_index
  s ← get
  let bkts = bkts_per_core s
  if bkts == 0 then (λ _. fault) else do
    wrap_cri core_ix bkts
    t ← get
    let cri = (t.cores core_ix).rough_ind
    i ← search bkts (walk_core bkts (bkts * core_ix) cri)
    set_cri core_ix (walk_core bkts (bkts * core_ix) cri i - bkts * core_ix)
    ok (slot_of (walk_core bkts (bkts * core_ix) cri i))
