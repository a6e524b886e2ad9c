-- ===== src/Lock/Alone.antt =====
-- `lock_rw` and `unlock_rw` of system/util/rwlock.c by a process that the others leave alone.
use spacefish.Prelude.{ℕ, ◌+◌, ◌-◌, ◌≡◌, ap, ◌∙◌, refl, some, arith, update}
use spacefish.Run.{ok, Cmd}
use spacefish.Lock.{RwLock, down_write, down_read, up_write, up_read}
use spacefish.Lock.Processes.{
  Call, call_write, call_read, Place, outside, write_counted, write_passed, writing, write_leaving,
  read_called, read_passed, reading, step, Shared, Moves, moves,
}

-- The functions, by their type.
unfoldable pub lock_rw : Call → Cmd RwLock (Unit {0})
unfolding down_write down_read
lock_rw call_write = down_write
lock_rw call_read = down_read

unfoldable pub unlock_rw : Call → Cmd RwLock (Unit {0})
unfolding up_write up_read
unlock_rw call_write = up_write
unlock_rw call_read = up_read

-- Where a call leaves its process.
abbrev pub held : Call → Place
held call_write = writing
held call_read = reading

-- Steps of process `i` only.
pub data Alone (i : ℕ) (s : Shared) : Shared → Type 0 where
  idle : Alone i s s
  further : {t u : Shared} → Alone i s t → Moves i t u → Alone i s u

-- A process at `p`, on a lock `l`, comes to a state that agrees with `s` but for these.
abbrev pub Gets : ℕ → Shared → Place → RwLock → Type 0
Gets i s p l = (t : Shared) × Alone i s t × (t.lock ≡ l) × (t.place i ≡ p)

one :
    {i : ℕ} {s t : Shared} (c : Call) (p : Place) (l : RwLock)
    → Alone i s t
    → step c (t.place i) t.lock ≡ some (p, l)
    → Alone i s (record { lock = l; place = update t.place i p })
one c p l a e = further a (moves c e)

unlock_rw-lock_rw :
    (c : Call) (l : RwLock) {k : RwLock} → lock_rw c l ≡ ok tt k → unlock_rw c k ≡ ok tt l
unfolding lock_rw unlock_rw down_write down_read up_write up_read
unlock_rw-lock_rw call_write l h = ground arith
unlock_rw-lock_rw call_read l h = ground arith

module _ (i : ℕ) (s : Shared) {k : RwLock} where
  -- Where the model of `lock_rw` for one process returns, the steps of the process take it into the
  -- lock, and leave the lock as the model says.
  lock_rw-Gets : (c : Call) → s.place i ≡ outside → lock_rw c s.lock ≡ ok tt k → Gets i s (held c) k
  unfolding lock_rw down_write down_read step
  lock_rw-Gets call_write at h =
      let counted =
        one call_write write_counted (record s.lock { num_writers = s.lock.num_writers + 1 }) idle
          (ground arith) in
      let passed =
        one call_write write_passed (record s.lock { num_writers = s.lock.num_writers + 1 }) counted
          (ground arith) in
      let inside = one call_write writing k passed (ground arith) in (_, inside, refl, ground arith)
  lock_rw-Gets call_read at h =
      let called = one call_read read_called s.lock idle (ground arith) in
      let passed = one call_read read_passed s.lock called (ground arith) in
      let inside = one call_read reading k passed (ground arith) in (_, inside, refl, ground arith)

  -- The same of `unlock_rw`, from inside the lock to outside.
  unlock_rw-Gets :
      (c : Call) → s.place i ≡ held c → unlock_rw c s.lock ≡ ok tt k → Gets i s outside k
  unfolding unlock_rw up_write up_read step
  unlock_rw-Gets call_write at h =
      let leaving =
        one call_write write_leaving (record s.lock { num_writers = s.lock.num_writers - 1 }) idle
          (ground arith) in
      let out = one call_write outside k leaving (ground arith) in (_, out, refl, ground arith)
  unlock_rw-Gets call_read at h =
      let out = one call_read outside k idle (ground arith) in (_, out, refl, ground arith)

-- Where a call of lock_rw by a process on its own returns, the steps of the process take it into the
-- lock, and leave the lock as the call does; the steps of unlock_rw take it out again, and leave the
-- lock as it was before.
pub lock_and_unlock :
    (i : ℕ) (s : Shared) (c : Call) {k : RwLock}
    → s.place i ≡ outside
    → lock_rw c s.lock ≡ ok tt k
    → (t : Shared) × Alone i s t × (t.lock ≡ k) × (t.place i ≡ held c) × Gets i t outside s.lock
lock_and_unlock i s c at h =
    let (t, inside, lock, place) = lock_rw-Gets i s c at h in
    (
      t,
      inside,
      lock,
      place,
      unlock_rw-Gets i t c place (ap (unlock_rw c) lock ∙ unlock_rw-lock_rw c s.lock h),
    )
