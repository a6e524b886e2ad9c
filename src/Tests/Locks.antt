-- ===== src/Tests/Locks.antt =====
-- The theorems on the processes at one lock (system/util/rwlock.c) at two processes.
use spacefish.Prelude.{ℕ, ◌≡◌, ◌≢◌, refl, Bool, true, false, arith, update}
use spacefish.Run.{ok}
use spacefish.Lock.{RwLock, down_write}
use spacefish.Lock.Processes.{
  Place, call_write, call_read, outside, write_counted, write_passed, writing, read_called, reading,
  step, Shared, moves, Reach, here, next, start,
}
use spacefish.Lock.Exclusion.{Mover, writers_exclude, lock_progress, reader_and_writer}
use spacefish.Lock.Alone.{lock_rw, held, Alone, Gets, lock_and_unlock}

abbrev for_writing : Bool → RwLock
for_writing h = record { num_readers = 0; num_writers = 1; real_lock = h }

abbrev after : Shared → ℕ → Place → RwLock → Shared
after s i p l = record { lock = l; place = update s.place i p }

-- Process 1 has come into the lock, and process 0 waits for it.
abbrev entered : Shared
entered =
    after
      (after (after start 1 write_counted (for_writing false)) 1 write_passed (for_writing false)) 1
      writing (for_writing true)

abbrev waiting : Shared
waiting = after entered 0 read_called (for_writing true)

entered-Reach : Reach 2 start entered
unfolding step
entered-Reach =
    next
      (next (next here (omega arith) (moves call_write refl)) (omega arith) (moves call_write refl))
      (omega arith) (moves call_write refl)

waiting-Reach : Reach 2 start waiting
unfolding step
waiting-Reach = next entered-Reach (omega arith) (moves call_read refl)

at_lock : waiting.place 0 ≢ outside
at_lock e = absurd (cc)

abbrev writer : ℕ
writer = 1

writers_exclude_example : writer ≡ writer
writers_exclude_example =
    writers_exclude 2 waiting-Reach writer writer (omega arith) (omega arith) refl refl

lock_progress_example : Mover 2 waiting
lock_progress_example = lock_progress 2 waiting-Reach 0 (omega arith) at_lock

reader_and_writer_example :
    (s : Shared) × Reach 2 start s × (s.place 0 ≡ reading) × (s.place 1 ≡ writing)
reader_and_writer_example = reader_and_writer 2 0 1 (omega arith) (omega arith) (omega arith)

lock_rw_write : lock_rw call_write start.lock ≡ ok tt (for_writing true)
unfolding lock_rw down_write
lock_rw_write = refl

lock_and_unlock_example :
    (t : Shared) × Alone 0 start t
    × (t.lock ≡ for_writing true)
    × (t.place 0 ≡ held call_write)
    × Gets 0 t outside start.lock
lock_and_unlock_example = lock_and_unlock 0 start call_write refl lock_rw_write
