-- ===== src/Lock/Counts.antt =====
-- What the fields of a lock count, whatever the processes do.
use spacefish.Prelude.{
  ℕ, ◌+◌, ◌≤◌, ◌<◌, ◌≡◌, Bool, some, arith, if◌then◌else◌, total_of, total-update, total_zero,
  le-total,
}
use spacefish.Lock.{RwLock}
use spacefish.Lock.Processes.{
  Call, call_write, call_read, Place, outside, write_counted, write_passed, writing, write_leaving,
  read_called, read_passed, reading, step, Shared, Moves, moves, Reach, here, next, start,
}

-- Whether a process is counted in `num_writers`, in `num_readers`, and holds the spin lock.
abbrev pub as_writer : Place → ℕ
as_writer write_counted = 1
as_writer write_passed = 1
as_writer writing = 1
as_writer _ = 0

abbrev pub as_reader : Place → ℕ
as_reader reading = 1
as_reader _ = 0

abbrev pub as_holder : Place → ℕ
as_holder writing = 1
as_holder write_leaving = 1
as_holder _ = 0

abbrev pub flag : Bool → ℕ
flag b = if b then 1 else 0

-- The lock counts the processes below `n`.
pub record Counted (n : ℕ) (s : Shared) : Type 0 where
  pub writers : s.lock.num_writers ≡ total_of as_writer n s.place
  pub readers : s.lock.num_readers ≡ total_of as_reader n s.place
  pub holders : flag s.lock.real_lock ≡ total_of as_holder n s.place

-- One step changes each field by as much as the process counts for.
record Balanced (p q : Place) (l k : RwLock) : Type 0 where
  writers : k.num_writers + as_writer p ≡ l.num_writers + as_writer q
  readers : k.num_readers + as_reader p ≡ l.num_readers + as_reader q
  holders : flag k.real_lock + as_holder p ≡ flag l.real_lock + as_holder q

step-Balanced :
    (c : Call) (p : Place) {q : Place} (l : RwLock) {k : RwLock}
    → as_writer p ≤ l.num_writers
    → as_reader p ≤ l.num_readers
    → as_holder p ≤ flag l.real_lock
    → step c p l ≡ some (q, k)
    → Balanced p q l k
unfolding step
step-Balanced call_write outside l a b h e = record {
  writers = ground arith;
  readers = ground arith;
  holders = ground arith;
}
step-Balanced call_read outside l a b h e = record {
  writers = ground arith;
  readers = ground arith;
  holders = ground arith;
}
step-Balanced c write_counted l a b h e = record {
  writers = ground arith;
  readers = ground arith;
  holders = ground arith;
}
step-Balanced c write_passed l a b h e = record {
  writers = ground arith;
  readers = ground arith;
  holders = ground arith;
}
step-Balanced c writing l a b h e = record {
  writers = ground arith;
  readers = ground arith;
  holders = ground arith;
}
step-Balanced c write_leaving l a b h e = record {
  writers = ground arith;
  readers = ground arith;
  holders = ground arith;
}
step-Balanced c read_called l a b h e = record {
  writers = ground arith;
  readers = ground arith;
  holders = ground arith;
}
step-Balanced c read_passed l a b h e = record {
  writers = ground arith;
  readers = ground arith;
  holders = ground arith;
}
step-Balanced c reading l a b h e = record {
  writers = ground arith;
  readers = ground arith;
  holders = ground arith;
}

Moves-Counted : (n i : ℕ) {s t : Shared} → i < n → Counted n s → Moves i s t → Counted n t
Moves-Counted n i {s} h v (moves c {p} {l} e) =
    let b =
      step-Balanced c (s.place i) s.lock
        (omega (arith, v.writers, le-total as_writer n i s.place h))
        (omega (arith, v.readers, le-total as_reader n i s.place h))
        (omega (arith, v.holders, le-total as_holder n i s.place h)) e in
    record {
      writers = omega (arith, v.writers, b.writers, total-update as_writer n i s.place p h);
      readers = omega (arith, v.readers, b.readers, total-update as_reader n i s.place p h);
      holders = omega (arith, v.holders, b.holders, total-update as_holder n i s.place p h);
    }

start-Counted : (n : ℕ) → Counted n start
start-Counted n = record {
  writers = omega (arith, total_zero n);
  readers = omega (arith, total_zero n);
  holders = omega (arith, total_zero n);
}

pub Reach-Counted : (n : ℕ) {s : Shared} → Reach n start s → Counted n s
Reach-Counted n here = start-Counted n
Reach-Counted n (next {t} {i} r h m) = Moves-Counted n i h (Reach-Counted n r) m
