-- ===== src/Meta/Rename.antt =====
-- `mb_chpath` of system/util/meta_shm.c, on two paths of one row and on an old path that is not there.
use spacefish.Prelude.{
  ℕ, ◌<◌, ◌≡◌, ◌≢◌, ◌⊎◌, ap, refl, inl, inr, ◌∙◌, true, false, none, some, List, arith,
}
use spacefish.Text.{CString, same_path}
use spacefish.Hash.{hash}
use spacefish.Lock
use spacefish.Lock.{RwLock, down_write}
use spacefish.Run.{done, failed, ok, stuck}
use spacefish.Meta.{HashInfo, MetaMem, chain_fuel, with_lock, on_lock, get_mbucket}
use spacefish.Meta.Ops.{get_mb_and_prev, chpath_found, mb_chpath}
use spacefish.Meta.Chain.{first_match, before_match, prev_walk-before}
use spacefish.Meta.Locks.{
  Quiet, lock_of, writing, row_of-ok, down_write-ok, down_write-stuck, down_write-cases,
  lock_of-with_lock,
}
use spacefish.Meta.Lookup.{RowOk, chain_short, get_mbucket-stuck}

-- A path is its own new name.
pub chpath_same :
    (oldpath newpath : CString) (m : MetaMem)
    → same_path oldpath newpath ≡ true
    → mb_chpath oldpath newpath m ≡ ok done m
unfolding mb_chpath
chpath_same oldpath newpath m e = rw e refl

-- Two different paths of one row: the row's lock is taken twice, and the call never returns,
-- whatever the state.
pub chpath_one_row :
    (oldpath newpath : CString) {row : ℕ} (m : MetaMem)
    → same_path oldpath newpath ≡ false
    → hash oldpath ≡ some row
    → hash newpath ≡ some row
    → mb_chpath oldpath newpath m ≡ stuck
unfolding mb_chpath
chpath_one_row oldpath newpath {row} m differ h k =
    rw (differ, row_of-ok oldpath m h, row_of-ok newpath m k)
      (elim (down_write-cases row m) [
        | inl waits ↦ rw waits refl
        | inr first ↦
            let again : on_lock row Lock.down_write (with_lock row (writing (lock_of row m)) m)
                ≡ stuck =
              down_write-stuck row _ (ap (λ l. l.real_lock) (lock_of-with_lock row m _)) in
            rw first (rw again refl)
      ])

-- The lookup under the locks.
locate :
    (str : CString) {row : ℕ} {m : MetaMem} {xs : List ℕ} (t : ℕ → HashInfo)
    → RowOk m row xs
    → (t row).first_ix ≡ (m.hash_table row).first_ix
    → get_mb_and_prev str row (record m { hash_table = t })
      ≡ ok
          (first_match str m.mb_arr xs, before_match str m.mb_arr none xs)
          (record m { hash_table = t })
unfolding get_mb_and_prev
locate str t r e = rw (e, prev_walk-before str chain_fuel none r.chain (chain_short r)) refl

module _ (oldpath newpath : CString) {row_old row_new : ℕ} {m : MetaMem} {xs ys : List ℕ}
    (differ : same_path oldpath newpath ≡ false) (h : hash oldpath ≡ some row_old)
    (k : hash newpath ≡ some row_new) (apart : row_old ≢ row_new) (q : Quiet (lock_of row_old m))
    (q' : Quiet (lock_of row_new m)) (r : RowOk m row_old xs) (r' : RowOk m row_new ys)
    (missing : first_match oldpath m.mb_arr xs ≡ none) where
  abbrev one : MetaMem
  one = with_lock row_old (writing (lock_of row_old m)) m

  abbrev both : MetaMem
  both = with_lock row_new (writing (lock_of row_new m)) one

  lock_of-one : lock_of row_new one ≡ lock_of row_new m
  lock_of-one = ground arith

  locks_new : on_lock row_new Lock.down_write one ≡ ok tt both
  locks_new =
      down_write-ok row_new one (rw lock_of-one q'.readers) (rw lock_of-one q'.free)
      ∙ ap (λ l. ok tt (with_lock row_new (writing l) one)) lock_of-one

  found_old :
      get_mb_and_prev oldpath row_old both
      ≡ ok (first_match oldpath m.mb_arr xs, before_match oldpath m.mb_arr none xs) both
  found_old = locate oldpath both.hash_table r (ground arith)

  found_new :
      get_mb_and_prev newpath row_new both
      ≡ ok (first_match newpath m.mb_arr ys, before_match newpath m.mb_arr none ys) both
  found_new = locate newpath both.hash_table r' (ground arith)

  -- With no bucket for the old path the result is -1, and both rows stay locked.
  chpath_missing : mb_chpath oldpath newpath m ≡ ok failed both
  unfolding mb_chpath chpath_found
  chpath_missing =
      rw
        (
          differ,
          row_of-ok oldpath m h,
          row_of-ok newpath m k,
          down_write-ok row_old m q.readers q.free,
          locks_new,
        )
        (rw (found_old, found_new, missing) refl)

  -- A rename between two rows whose old path has no bucket returns -1 with both rows still locked for
  -- writing: no later lookup of a path of either row returns.
  pub chpath_missing_locks :
      (str : CString) (row : ℕ)
      → hash str ≡ some row
      → (row ≡ row_old) ⊎ (row ≡ row_new)
      → (m' : MetaMem) × (mb_chpath oldpath newpath m ≡ ok failed m') × (get_mbucket str m' ≡ stuck)
  chpath_missing_locks str row e at_row =
      (both, chpath_missing, get_mbucket-stuck str both e (held at_row))
    where
      held : (row ≡ row_old) ⊎ (row ≡ row_new) → 0 < (lock_of row both).num_writers
      held (inl a) = ground arith
      held (inr b) = ground arith
