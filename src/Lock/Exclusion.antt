-- ===== src/Lock/Exclusion.antt =====
-- What several processes on one lock of system/util/rwlock.c keep from each other, and what not.
use spacefish.Prelude.{
  ℕ, ◌+◌, ◌≤◌, ◌<◌, ◌≡◌, ◌≢◌, ◌⊎◌, refl, inl, inr, Bool, true, false, some, none, arith, ◌==◌,
  update, total_of, add-le-total, total_witness, Bool-cases, Option-cases,
}
use spacefish.Lock.{RwLock}
use spacefish.Lock.Processes.{
  Call, call_write, call_read, Place, outside, write_counted, write_passed, writing, write_leaving,
  read_called, read_passed, reading, step, Shared, Moves, moves, Reach, here, next, start,
}
use spacefish.Lock.Counts.{as_writer, as_reader, as_holder, Counted, Reach-Counted}

-- Whatever processes do, each step of theirs in any order, two never hold the lock for writing.
pub writers_exclude :
    (n : ℕ) {s : Shared}
    → Reach n start s
    → (i j : ℕ) → i < n
    → j < n
    → s.place i ≡ writing
    → s.place j ≡ writing
    → i ≡ j
writers_exclude n {s} r i j h k w v = elim (Bool-cases (i == j)) [
  | inl same ↦ ground arith
  | inr other ↦
      let both : as_holder (s.place i) + as_holder (s.place j) ≤ total_of as_holder n s.place =
        add-le-total as_holder n i j s.place h k (ground arith) in
      absurd (ground (arith, both, (Reach-Counted n r).holders))
]

as_reader-cases : (p : Place) → 0 < as_reader p → p ≡ reading
as_reader-cases reading h = refl
as_reader-cases outside h = absurd (omega arith)
as_reader-cases write_counted h = absurd (omega arith)
as_reader-cases write_passed h = absurd (omega arith)
as_reader-cases writing h = absurd (omega arith)
as_reader-cases write_leaving h = absurd (omega arith)
as_reader-cases read_called h = absurd (omega arith)
as_reader-cases read_passed h = absurd (omega arith)

as_holder-cases : (p : Place) → 0 < as_holder p → (p ≡ writing) ⊎ (p ≡ write_leaving)
as_holder-cases writing h = inl refl
as_holder-cases write_leaving h = inr refl
as_holder-cases outside h = absurd (omega arith)
as_holder-cases write_counted h = absurd (omega arith)
as_holder-cases write_passed h = absurd (omega arith)
as_holder-cases read_called h = absurd (omega arith)
as_holder-cases read_passed h = absurd (omega arith)
as_holder-cases reading h = absurd (omega arith)

as_writer-cases :
    (p : Place) → 0 < as_writer p → (p ≡ write_counted) ⊎ ((p ≡ write_passed) ⊎ (p ≡ writing))
as_writer-cases write_counted h = inl refl
as_writer-cases write_passed h = inr (inl refl)
as_writer-cases writing h = inr (inr refl)
as_writer-cases outside h = absurd (omega arith)
as_writer-cases write_leaving h = absurd (omega arith)
as_writer-cases read_called h = absurd (omega arith)
as_writer-cases read_passed h = absurd (omega arith)
as_writer-cases reading h = absurd (omega arith)

-- A process below `n`, in the lock or at it, that can take a step.
abbrev pub Mover : ℕ → Shared → Type 0
Mover n s = (j : ℕ) × (j < n) × (s.place j ≢ outside) × ((t : Shared) × Moves j s t)

-- Where a process waits, and for what.
abbrev Waits : Place → RwLock → Type 0
Waits write_counted l = 0 < l.num_readers
Waits write_passed l = l.real_lock ≡ true
Waits read_called l = 0 < l.num_writers
Waits _ l = ⊥

step-none : (p : Place) (l : RwLock) → p ≢ outside → step call_read p l ≡ none → Waits p l
unfolding step
step-none outside l ne e = absurd (ne refl)
step-none write_counted l ne e = ground arith
step-none write_passed l ne e = ground arith
step-none writing l ne e = absurd (cc)
step-none write_leaving l ne e = absurd (cc)
step-none read_called l ne e = ground arith
step-none read_passed l ne e = absurd (cc)
step-none reading l ne e = absurd (cc)

module _ (n : ℕ) {s : Shared} (v : Counted n s) where
  -- A process moves, unless it waits.
  step-Mover :
      (j : ℕ) → j < n → s.place j ≢ outside → (Waits (s.place j) s.lock → Mover n s) → Mover n s
  step-Mover j h ne otherwise = elim (Option-cases (step call_read (s.place j) s.lock)) [
    | inl blocked ↦ otherwise (step-none (s.place j) s.lock ne blocked)
    | inr ((p, l), e) ↦ (j, h, ne, (_, moves call_read e))
  ]

  -- Who is counted is there.
  reader_moves : 0 < s.lock.num_readers → Mover n s
  reader_moves h =
      let (j, less, one) = total_witness as_reader n s.place (omega (arith, v.readers)) in
      let at : s.place j ≡ reading = as_reader-cases (s.place j) one in
      step-Mover j less (rw at (λ e. cc)) (rw at (λ w. absurd w))

  holder_moves : s.lock.real_lock ≡ true → Mover n s
  holder_moves h =
      let (j, less, one) = total_witness as_holder n s.place (ground (arith, v.holders)) in
      elim (as_holder-cases (s.place j) one) [
        | inl at ↦ step-Mover j less (rw at (λ e. cc)) (rw at (λ w. absurd w))
        | inr at ↦ step-Mover j less (rw at (λ e. cc)) (rw at (λ w. absurd w))
      ]

  writer_moves : 0 < s.lock.num_writers → Mover n s
  writer_moves h =
      let (j, less, one) = total_witness as_writer n s.place (omega (arith, v.writers)) in
      elim (as_writer-cases (s.place j) one) [
        | inl at ↦ step-Mover j less (rw at (λ e. cc)) (rw at reader_moves)
        | inr (inl at) ↦ step-Mover j less (rw at (λ e. cc)) (rw at holder_moves)
        | inr (inr at) ↦ step-Mover j less (rw at (λ e. cc)) (rw at (λ w. absurd w))
      ]

  Waits-moves : (p : Place) → Waits p s.lock → Mover n s
  Waits-moves write_counted w = reader_moves w
  Waits-moves write_passed w = holder_moves w
  Waits-moves read_called w = writer_moves w
  Waits-moves outside w = absurd w
  Waits-moves writing w = absurd w
  Waits-moves write_leaving w = absurd w
  Waits-moves read_passed w = absurd w
  Waits-moves reading w = absurd w

-- Whatever processes have done, as long as one is in the lock or at it, one of these can take a
-- step: they never all wait for each other.
pub lock_progress :
    (n : ℕ) {s : Shared} → Reach n start s → (i : ℕ) → i < n → s.place i ≢ outside → Mover n s
lock_progress n {s} r i h ne =
    let v = Reach-Counted n r in step-Mover n v i h ne (Waits-moves n v (s.place i))

-- `num_readers` and `num_writers` never fall below 0, and never count more than the processes: in
-- a state that processes have reached they are the numbers of those that read, and of those that
-- write or wait to.
pub lock_counts :
    (n : ℕ) {s : Shared}
    → Reach n start s
    → (s.lock.num_writers ≡ total_of as_writer n s.place)
      × (s.lock.num_readers ≡ total_of as_reader n s.place)
lock_counts n r = let v = Reach-Counted n r in (v.writers, v.readers)

abbrev lock_at : (readers writers : ℕ) → Bool → RwLock
lock_at readers writers held = record {
  num_readers = readers;
  num_writers = writers;
  real_lock = held;
}

abbrev moved : ℕ → Place → RwLock → Shared → Shared
moved i p l s = record { lock = l; place = update s.place i p }

then_moves :
    {n : ℕ} {s : Shared} (i : ℕ) (c : Call) (p : Place) (l : RwLock)
    → i < n
    → Reach n start s
    → step c (s.place i) s.lock ≡ some (p, l)
    → Reach n start (moved i p l s)
then_moves i c p l h r e = next r h (moves c e)

-- A reader that has seen no writer counts itself without looking again: any two processes can come
-- to a state in which one reads while the other writes.
pub reader_and_writer :
    (n i j : ℕ)
    → i < n
    → j < n
    → i ≢ j
    → (s : Shared) × Reach n start s × (s.place i ≡ reading) × (s.place j ≡ writing)
unfolding step
reader_and_writer n i j h k ne =
    let called = then_moves i call_read read_called (lock_at 0 0 false) h here refl in
    let passed = then_moves i call_read read_passed (lock_at 0 0 false) h called (ground arith) in
    let counted =
      then_moves j call_write write_counted (lock_at 0 1 false) k passed (ground arith) in
    let behind =
      then_moves j call_write write_passed (lock_at 0 1 false) k counted (ground arith) in
    let writes = then_moves j call_write writing (lock_at 0 1 true) k behind (ground arith) in
    let reads = then_moves i call_read reading (lock_at 1 1 true) h writes (ground arith) in
    (_, reads, ground arith, ground arith)
