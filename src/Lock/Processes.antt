-- ===== src/Lock/Processes.antt =====
-- `lock_rw` and `unlock_rw` of system/util/rwlock.c as several processes run them: each read or
-- change of a field is a step of its own.
use spacefish.Prelude.{
  ℕ, ◌+◌, ◌-◌, ◌<◌, ◌≡◌, true, false, Option, none, some, ◌==◌, if◌then◌else◌, update,
}
use spacefish.Lock.{RwLock}

-- The calls of a process that holds nothing.
pub data Call : Type 0 where
  call_write : Call
  call_read : Call

-- Where a process stands.
pub data Place : Type 0 where
  outside : Place
  -- in `lock_rw` with type 2: counted in `num_writers`, before and behind `while (l->num_readers);`
  write_counted : Place
  write_passed : Place
  -- between `lock_rw` and `unlock_rw` with type 2
  writing : Place
  -- in `unlock_rw` with type 2, before the spin lock is given back
  write_leaving : Place
  -- in `lock_rw` with type 1: before and behind `while (l->num_writers);`
  read_called : Place
  read_passed : Place
  -- between `lock_rw` and `unlock_rw` with type 1
  reading : Place

-- One step of a process; `none` is a process that waits.
unfoldable pub step : Call → Place → RwLock → Option (Place × RwLock)
step call_write outside l = some (write_counted, record l { num_writers = l.num_writers + 1 })
step call_read outside l = some (read_called, l)
step c write_counted l = if l.num_readers == 0 then some (write_passed, l) else none
step c write_passed l = if l.real_lock then none else some (writing, record l { real_lock = true })
step c writing l = some (write_leaving, record l { num_writers = l.num_writers - 1 })
step c write_leaving l = some (outside, record l { real_lock = false })
step c read_called l = if l.num_writers == 0 then some (read_passed, l) else none
step c read_passed l = some (reading, record l { num_readers = l.num_readers + 1 })
step c reading l = some (outside, record l { num_readers = l.num_readers - 1 })

-- The lock, and the places of all processes.
pub record Shared : Type 0 where
  pub lock : RwLock
  pub place : ℕ → Place

-- Process `i` takes a step.
pub data Moves (i : ℕ) (s : Shared) : Shared → Type 0 where
  moves :
      (c : Call) {p : Place} {l : RwLock}
      → step c (s.place i) s.lock ≡ some (p, l)
      → Moves i s (record { lock = l; place = update s.place i p })

-- The states that the processes below `n` can bring about.
pub data Reach (n : ℕ) (s : Shared) : Shared → Type 0 where
  here : Reach n s s
  next : {t u : Shared} {i : ℕ} → Reach n s t → i < n → Moves i t u → Reach n s u

-- A lock as `init_urwlock` makes it, and nobody in it.
abbrev pub start : Shared
start = record {
  lock = record { num_readers = 0; num_writers = 0; real_lock = false };
  place = λ _. outside;
}
