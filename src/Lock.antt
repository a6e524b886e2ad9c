-- ===== src/Lock.antt =====
-- `urw_lock` of system/include/rwlock.h, as the functions of system/util/rwlock.c find and leave it
-- when no other process runs.
pub mod Processes
pub mod Counts
pub mod Exclusion
pub mod Alone
use spacefish.Prelude.{ℕ, ◌+◌, ◌-◌, Bool, true, false, ◌==◌, if◌then◌else◌}
use spacefish.Run.{ok, stuck, Cmd}

pub record RwLock : Type 0 where
  pub num_readers : ℕ
  pub num_writers : ℕ
  pub real_lock : Bool

abbrev pub init_urwlock : RwLock
init_urwlock = record { num_readers = 0; num_writers = 0; real_lock = false }

-- `lock_rw` with type 2. The loop `while (l->num_readers);` and the spin lock wait for ever if
-- nobody else moves; the count of writers has then been raised.
unfoldable pub down_write : Cmd RwLock (Unit {0})
down_write l =
    if l.num_readers == 0
    then (if l.real_lock
        then stuck
        else ok tt (record l { num_writers = l.num_writers + 1; real_lock = true }))
    else stuck

-- `lock_rw` with type 1
unfoldable pub down_read : Cmd RwLock (Unit {0})
down_read l =
    if l.num_writers == 0 then ok tt (record l { num_readers = l.num_readers + 1 }) else stuck

-- `unlock_rw` with type 2
unfoldable pub up_write : Cmd RwLock (Unit {0})
up_write l = ok tt (record l { num_writers = l.num_writers - 1; real_lock = false })

-- `unlock_rw` with type 1
unfoldable pub up_read : Cmd RwLock (Unit {0})
up_read l = ok tt (record l { num_readers = l.num_readers - 1 })
