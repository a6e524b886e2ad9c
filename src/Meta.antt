-- ===== src/Meta.antt =====
-- The state of system/util/meta_shm.c: the rows of the hash table and the array of metadata buckets,
-- with the file data that a bucket carries (system/include/meta_shm.h). An index that the source
-- writes as an `int`, -1 for none, is an `Option`; `first_dbucket` and `last_dbucket` are unsigned.
pub mod Ops
pub mod Allocate
pub mod Create
pub mod Extend
pub mod Table
pub mod Map
pub mod Removal
pub mod Refines
pub mod Histories
pub mod Rename
pub mod Release
pub mod Unlink
pub mod Lookup
pub mod Chain
pub mod Locks
use spacefish.Prelude.{
  ℕ, zero, suc, ◌+◌, ◌%◌, Bool, true, false, Option, none, some, if◌then◌else◌, update,
}
use spacefish.Config.{meta_buckets}
use spacefish.Text.{CString, same_path}
use spacefish.Hash.{hash}
use spacefish.Lock
use spacefish.Lock.{RwLock}
use spacefish.Scan.{scan}
use spacefish.Run.{ok, died, stuck, fault, Cmd, ◌>>=◌, ◌>>◌, get}

pub record Timespec : Type 0 where
  pub tv_sec : ℕ
  pub tv_nsec : ℕ

-- The fields of `struct stat` that the program sets.
pub record Stat : Type 0 where
  pub st_mode : ℕ
  pub st_size : ℕ
  pub st_blocks : ℕ
  pub st_blksize : ℕ
  pub st_atim : Timespec
  pub st_mtim : Timespec
  pub st_ctim : Timespec

-- `meta_bucket`; `locked` is the state of `lock`, and `consisent` keeps the source's spelling.
pub record MetaBucket : Type 0 where
  pub in_use : Bool
  pub next_ix : Option ℕ
  pub path : CString
  pub s : Stat
  pub first_dbucket : ℕ
  pub last_dbucket : ℕ
  pub last_db_offset : ℕ
  pub consisent : Bool
  pub locked : Bool

-- `hashinfo`
pub record HashInfo : Type 0 where
  pub first_ix : Option ℕ
  pub lock : RwLock

-- `draws` are the results of the calls of `rand` to come.
pub record MetaMem : Type 0 where
  pub hash_table : ℕ → HashInfo
  pub mb_arr : ℕ → MetaBucket
  pub draws : ℕ → ℕ

abbrev pub set_bucket : ℕ → MetaBucket → MetaMem → MetaMem
set_bucket ix b m = record m { mb_arr = update m.mb_arr ix b }

abbrev pub set_first : ℕ → Option ℕ → MetaMem → MetaMem
set_first row ix m = record m {
  hash_table = update m.hash_table row (record (m.hash_table row) { first_ix = ix });
}

abbrev pub with_lock : ℕ → RwLock → MetaMem → MetaMem
with_lock row l m = record m {
  hash_table = update m.hash_table row (record (m.hash_table row) { lock = l });
}

-- A call on the lock of a row.
unfoldable pub on_lock : ℕ → Cmd RwLock (Unit {0}) → Cmd MetaMem (Unit {0})
on_lock row f m = elim (f (m.hash_table row).lock) [
  | ok x l ↦ ok tt (with_lock row l m)
  | died l ↦ died m
  | stuck ↦ stuck
  | fault ↦ fault
]

-- `&hash_table[hash(str)]`
unfoldable pub row_of : CString → Cmd MetaMem ℕ
row_of str m = elim (hash str) [ none ↦ died m | some r ↦ ok r m ]

-- The chain from `mb_ix` to the first bucket with the path.
unfoldable pub find : (fuel : ℕ) → CString → Option ℕ → (ℕ → MetaBucket) → Option (Option ℕ)
find fuel str none mb_arr = some none
find zero str (some ix) mb_arr = none
find (suc fuel) str (some ix) mb_arr =
    let rest = find fuel str (mb_arr ix).next_ix mb_arr in
    if same_path str (mb_arr ix).path then some (some ix) else rest

-- More than the number of buckets, so more than the length of any chain without a cycle.
abbrev pub chain_fuel : ℕ
chain_fuel = meta_buckets + 1

-- What a walk that ran out of fuel stands for: a loop over a cycle.
abbrev pub or_stuck : {A : Type 0} → Option A → Cmd MetaMem A
or_stuck none m = stuck
or_stuck (some a) m = ok a m

-- The result is the index of the bucket, NULL where there is none.
pub get_mbucket : CString → Cmd MetaMem (Option ℕ)
unfolding find on_lock row_of
get_mbucket str = do
  row ← row_of str
  on_lock row Lock.down_read
  m ← get
  found ← or_stuck (find chain_fuel str (m.hash_table row).first_ix m.mb_arr)
  on_lock row Lock.up_read
  ok found

-- One round of `allocate_mbucket`.
unfoldable pub claim_mbucket : MetaBucket → Option MetaBucket
claim_mbucket b =
    if b.in_use
    then none
    else if b.locked
    then none
    else let held = record b { locked = true } in
      if held.in_use then none else some (record held { in_use = true; locked = false })

-- The index visited at round `i`.
abbrev pub walk_meta : ℕ → ℕ → ℕ
walk_meta mindex i = (mindex + i) % meta_buckets

pub allocate_mbucket : Cmd MetaMem (Option ℕ)
allocate_mbucket m =
    let mindex = m.draws 0 % meta_buckets in
    let drawn = record m { draws = λ n. m.draws (n + 1) } in
    elim (scan claim_mbucket (walk_meta mindex) meta_buckets 0 m.mb_arr) [
      | none ↦ ok none drawn
      | some (i, arr) ↦ ok (some (walk_meta mindex i)) (record drawn { mb_arr = arr })
    ]
