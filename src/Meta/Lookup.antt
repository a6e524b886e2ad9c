-- ===== src/Meta/Lookup.antt =====
-- `get_mbucket` of system/util/meta_shm.c, against the chain of the path's row.
use spacefish.Prelude.{
  ℕ, ◌≤◌, ◌<◌, ◌≡◌, refl, some, List, arith, length, Distinct, AllBelow, length-le_of_Distinct,
}
use spacefish.Config.{meta_buckets}
use spacefish.Text.{CString}
use spacefish.Hash.{hash}
use spacefish.Run.{ok, stuck}
use spacefish.Meta.{MetaMem, chain_fuel, get_mbucket}
use spacefish.Meta.Chain.{Chain, first_match, find-first_match}
use spacefish.Meta.Locks.{
  lock_of, row_of-ok, down_read-ok, down_read-stuck, first_ix-with_lock, up_read-restores,
}

-- The row's chain is the list `xs` of distinct buckets of the array.
pub record RowOk (m : MetaMem) (row : ℕ) (xs : List ℕ) : Type 0 where
  pub chain : Chain m.mb_arr (m.hash_table row).first_ix xs
  pub distinct : Distinct xs
  pub in_array : AllBelow meta_buckets xs

pub chain_short : {m : MetaMem} {row : ℕ} {xs : List ℕ} → RowOk m row xs → length xs ≤ chain_fuel
chain_short {xs} r = omega (arith, length-le_of_Distinct meta_buckets xs r.distinct r.in_array)

-- With no writer on the row, the first bucket of its chain with the path is returned, NULL if there
-- is none; the lock is given back, and nothing changes.
pub get_mbucket-first_match :
    (str : CString) {row : ℕ} {m : MetaMem} {xs : List ℕ}
    → hash str ≡ some row
    → (lock_of row m).num_writers ≡ 0
    → RowOk m row xs
    → get_mbucket str m ≡ ok (first_match str m.mb_arr xs) m
unfolding get_mbucket
get_mbucket-first_match str {row} {m} {xs} h idle r =
    let found = find-first_match str chain_fuel r.chain (chain_short r) in
    rw (row_of-ok str m h, down_read-ok row m idle, first_ix-with_lock row m, found)
      (rw up_read-restores refl)

-- While a writer holds the row's lock, or waits for it, `get_mbucket` does not return.
pub get_mbucket-stuck :
    (str : CString) {row : ℕ} (m : MetaMem)
    → hash str ≡ some row
    → 0 < (lock_of row m).num_writers
    → get_mbucket str m ≡ stuck
unfolding get_mbucket
get_mbucket-stuck str {row} m h busy =
    rw (row_of-ok str m h, down_read-stuck row m (ground arith)) refl
