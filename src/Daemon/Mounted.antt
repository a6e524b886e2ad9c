-- ===== src/Daemon/Mounted.antt =====
-- The memory as `init_mount` of system/daemon.c makes it, before files are taken in, and the choice of
-- the allocation method.
use spacefish.Prelude.{
  ℕ, ◌<◌, ◌≡◌, refl, Bool, true, Option, none, some, List, [], arith, ◌==◌, ltb, if◌then◌else◌,
}
use spacefish.Config.{hash_table_size, meta_buckets, max_exec_hanging}
use spacefish.Run.{ok}
use spacefish.Text.{CString}
use spacefish.Meta.{MetaMem}
use spacefish.Meta.Chain.{nil, first_match}
use spacefish.Meta.Map.{Implements}
use spacefish.Data.{DataMem}
use spacefish.Data.Alloc.Cores.{CoresOk}
use spacefish.Process.{ProcMem, init_pid_info}
use spacefish.File.Host.{Host}
use spacefish.File.Ready.{Ready}
use spacefish.Exec.{Image}
use spacefish.Daemon.{
  init_mbucket, init_meta, init_core, init_data, init_pid_meta, init_segments, Build,
  alloc_method_of,
}

abbrev pub empty_rows : ℕ → List ℕ
empty_rows r = []

abbrev pub empty_map : CString → Option ℕ
empty_map p = none

pub init_meta-Implements : (m : MetaMem) → Implements (init_meta m) empty_rows empty_map
unfolding init_meta init_mbucket first_match
init_meta-Implements m = record {
  table = record {
    row = λ r less.
        let inside : ltb r hash_table_size ≡ true = ground arith in
        record { chain = rw inside nil; distinct = tt; in_array = tt };
    quiet = λ r less.
        let inside : ltb r hash_table_size ≡ true = ground arith in
        record { readers = ground arith; writers = ground arith; free = ground arith };
    unlocked = λ j less. let inside : ltb j meta_buckets ≡ true = ground arith in rw inside refl;
    kept = λ r. record {
      used = λ j i. absurd (ground arith);
      ends = λ j less free. let inside : ltb j meta_buckets ≡ true = ground arith in rw inside refl;
    };
    apart = λ r s j i k. absurd (ground arith);
  };
  agrees = λ p h. refl;
  single = λ r i j a b e. absurd (ground arith);
}

-- The table of processes has no slot taken.
abbrev pub NoProcess : ProcMem → Type 0
NoProcess p = (j : ℕ) → j < max_exec_hanging → (p.pid_meta j).pid ≡ 0

init_pid_meta-NoProcess : (p : ProcMem) → NoProcess (init_pid_meta p)
unfolding init_pid_meta init_pid_info
init_pid_meta-NoProcess p j less =
    let inside : ltb j max_exec_hanging ≡ true = ground arith in rw inside refl

init_data-CoresOk :
    (method num_cores : ℕ) (d : DataMem)
    → 2 < method
    → d.last_core_num ≡ none
    → CoresOk (init_data method num_cores d)
unfolding init_data init_core
init_data-CoresOk method num_cores d h fresh =
    let per_core : ltb 2 method ≡ true = ground arith in
    record {
      unique = λ n i j p q. absurd (ground (arith, p.used, p.in_range));
      packed = λ i j less in_range e. absurd (ground arith);
      quiet = λ i less. ground arith;
      last = λ n e. absurd (ground (arith, fresh));
    }

module _ {H : Type 0} (os : Host H) (num_cores : ℕ) (s : Image H) where
  -- A build with a per-core method: an empty table of files, and records of cores that keep their
  -- invariant for a process that has not looked for its core yet.
  pub mounted_per_core :
      (method : ℕ)
      → 2 < method
      → s.world.data_mem.last_core_num ≡ none
      → (t : Image H) × (init_segments os true method num_cores s ≡ ok tt t)
        × Implements t.world.meta empty_rows empty_map
        × CoresOk t.world.data_mem
        × NoProcess t.procs
  unfolding init_segments
  mounted_per_core method h fresh = (
    _,
    refl,
    init_meta-Implements s.world.meta,
    init_data-CoresOk method num_cores s.world.data_mem h fresh,
    init_pid_meta-NoProcess s.procs,
  )

-- The macro of a method.
abbrev pub is_set : Build → ℕ → Bool
is_set b k =
    if k == 0
    then b.alloc_steps
    else if k == 1
    then b.alloc_all_random
    else if k == 2
    then b.alloc_all_rough_index
    else if k == 3
    then b.alloc_all_per_core_random
    else b.alloc_all_per_core_rough_ind

-- The daemon goes on with a method just where the method's macro is set and no other is.
pub alloc_method_of-only :
    (b : Build) {method : ℕ}
    → alloc_method_of b ≡ some method
    → (method < 5) × ((k : ℕ) → k < 5 → is_set b k ≡ (k == method))
unfolding alloc_method_of
alloc_method_of-only b e = (ground arith, λ k h. ground arith)
