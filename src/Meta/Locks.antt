-- ===== src/Meta/Locks.antt =====
-- The locks of the rows in the functions of system/util/meta_shm.c.
use spacefish.Prelude.{
  Bool-cases, inl, inr, ◌⊎◌, ℕ, ◌+◌, ◌-◌, ◌≡◌, ◌∙◌, refl, ap, fun_ext, true, false, arith, ◌==◌,
  some,
}
use spacefish.Text.{CString}
use spacefish.Hash.{hash}
use spacefish.Lock
use spacefish.Lock.{RwLock, down_read, down_write, up_read, up_write}
use spacefish.Run.{ok, stuck}
use spacefish.Meta.{MetaMem, with_lock, on_lock, row_of}

-- Nobody holds the lock or waits for it.
pub record Quiet (l : RwLock) : Type 0 where
  pub readers : l.num_readers ≡ 0
  pub writers : l.num_writers ≡ 0
  pub free : l.real_lock ≡ false

abbrev pub lock_of : ℕ → MetaMem → RwLock
lock_of row m = (m.hash_table row).lock

abbrev pub reading : RwLock → RwLock
reading l = record l { num_readers = l.num_readers + 1 }

abbrev pub writing : RwLock → RwLock
writing l = record l { num_writers = l.num_writers + 1; real_lock = true }

pub row_of-ok :
    (str : CString) {row : ℕ} (m : MetaMem) → hash str ≡ some row → row_of str m ≡ ok row m
unfolding row_of
row_of-ok str m e = rw (e, row_of) refl

module _ (row : ℕ) (m : MetaMem) where
  pub down_read-ok :
      (lock_of row m).num_writers ≡ 0
      → on_lock row Lock.down_read m ≡ ok tt (with_lock row (reading (lock_of row m)) m)
  unfolding on_lock down_read
  down_read-ok e = ground arith

  pub down_read-stuck :
      ((lock_of row m).num_writers == 0) ≡ false → on_lock row Lock.down_read m ≡ stuck
  unfolding on_lock down_read
  down_read-stuck e = ground arith

  pub down_write-ok :
      (lock_of row m).num_readers ≡ 0
      → (lock_of row m).real_lock ≡ false
      → on_lock row Lock.down_write m ≡ ok tt (with_lock row (writing (lock_of row m)) m)
  unfolding on_lock down_write
  down_write-ok e f = ground arith

  pub down_write-stuck : (lock_of row m).real_lock ≡ true → on_lock row Lock.down_write m ≡ stuck
  unfolding on_lock down_write
  down_write-stuck e = ground arith

  pub down_write-cases :
      (on_lock row Lock.down_write m ≡ stuck)
      ⊎ (on_lock row Lock.down_write m ≡ ok tt (with_lock row (writing (lock_of row m)) m))
  unfolding on_lock down_write
  down_write-cases = elim (Bool-cases ((lock_of row m).num_readers == 0)) [
    | inl none_reads ↦ elim (Bool-cases (lock_of row m).real_lock) [
      | inl held ↦ inl (ground arith)
      | inr free ↦ inr (ground arith)
    ]
    | inr some_read ↦ inl (ground arith)
  ]

  pub with_lock_self : with_lock row (lock_of row m) m ≡ m
  with_lock_self = ap (λ t. record m { hash_table = t }) (fun_ext λ j. ground arith)

  pub lock_of-with_lock : (l : RwLock) → lock_of row (with_lock row l m) ≡ l
  lock_of-with_lock l = ground arith

  pub with_lock-with_lock : (l k : RwLock) → with_lock row k (with_lock row l m) ≡ with_lock row k m
  with_lock-with_lock l k = ap (λ t. record m { hash_table = t }) (fun_ext λ j. ground arith)

  pub first_ix-with_lock :
      (l : RwLock) (j : ℕ) → ((with_lock row l m).hash_table j).first_ix ≡ (m.hash_table j).first_ix
  first_ix-with_lock l j = ground arith

  up_read-ok :
      on_lock row Lock.up_read m
      ≡ ok tt (
          with_lock row
            (record (lock_of row m) { num_readers = (lock_of row m).num_readers - 1 })
            m)
  unfolding on_lock up_read
  up_read-ok = refl

  -- Giving back what a reader has taken restores the state.
  pub up_read-restores :
      on_lock row Lock.up_read (with_lock row (reading (lock_of row m)) m) ≡ ok tt m
  unfolding on_lock up_read
  up_read-restores = ap (ok tt) (ap (λ t. record m { hash_table = t }) (fun_ext λ j. ground arith))

  -- A writer gives back a lock that was free, whatever else it has changed.
  pub up_write-ok :
      {l : RwLock}
      → Quiet l
      → lock_of row m ≡ writing l
      → on_lock row Lock.up_write m ≡ ok tt (with_lock row l m)
  unfolding on_lock up_write
  up_write-ok {l} q e = ap (λ k. ok tt (with_lock row k m)) (ground (arith, q.free))

-- The row held for writing.
abbrev pub write_locked : ℕ → MetaMem → MetaMem
write_locked row m = with_lock row (writing (lock_of row m)) m

-- A writer that has changed nothing gives the lock back.
pub up_write-unchanged :
    (row : ℕ) (m : MetaMem)
    → Quiet (lock_of row m)
    → on_lock row Lock.up_write (write_locked row m) ≡ ok tt m
up_write-unchanged row m q =
    up_write-ok row (write_locked row m) q (lock_of-with_lock row m _)
    ∙ ap (ok tt) (with_lock-with_lock row m _ _ ∙ with_lock_self row m)
