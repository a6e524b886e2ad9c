-- ===== src/Process/Exit.antt =====
-- `exit_intercept` of system/util/process.c: the slot that a process leaves.
use spacefish.Prelude.{ℕ, ◌<◌, ◌≡◌, ◌≢◌, refl, inl, inr, arith, ◌==◌, update, Bool-cases}
use spacefish.Config.{max_exec_hanging}
use spacefish.Run.{Run, ok, died, stuck, fault}
use spacefish.Process.{ProcMem, cleared, get_pid_meta_ind, remove_pid_slot, exit_intercept}
use spacefish.Process.Slots.{Has, SlotsOk, NoSlot, Seated, Seats, get_pid_meta_ind-Seats}

-- What `exit_intercept` leaves: no slot has the process's number, and the others are as they were.
abbrev pub Leaves : ProcMem → Run ProcMem (Unit {0}) → Type 0
Leaves s (ok x t) =
    ((j : ℕ) → j < max_exec_hanging → (t.pid_meta j).pid ≢ s.getpid)
    × ((j : ℕ)
        → (s.pid_meta j).pid ≢ s.getpid
        → (s.pid_meta j).pid ≢ 0
        → t.pid_meta j ≡ s.pid_meta j)
Leaves s (died t) = NoSlot s
Leaves s stuck = ⊥
Leaves s fault = ⊥

module _ {s : ProcMem} (v : SlotsOk s) where
  -- Once the process has a slot.
  Seated-Leaves :
      (i : ℕ) (t : ProcMem)
      → Seated s t i
      → Leaves s (ok tt (record t { pid_meta = update t.pid_meta i (cleared (t.pid_meta i)) }))
  Seated-Leaves i t e = (
    λ j less. elim (Bool-cases (j == i)) [
      | inl here ↦ λ same. absurd (ground (arith, v.self))
      | inr there ↦ λ same.
          let own : Has t s.getpid j = record { in_table = less; is = ground arith } in
          absurd (ground (arith, e.ok_after.unique s.getpid i j v.self e.mine own))
    ],
    λ j other used. elim (Bool-cases (j == i)) [
      | inl here ↦ absurd (ground (arith, e.was))
      | inr there ↦ rw there (e.others j (ground arith))
    ],
  )

  Seats-Leaves :
      (r : Run ProcMem ℕ) → get_pid_meta_ind s ≡ r → Seats s r → Leaves s (exit_intercept s)
  unfolding exit_intercept remove_pid_slot
  Seats-Leaves (ok i t) e g = rw (e, g.index) (Seated-Leaves i t g)
  Seats-Leaves (died t) e g = rw e g
  Seats-Leaves stuck e g = absurd g
  Seats-Leaves fault e g = absurd g

  -- Where no process has two slots, a process that exits leaves no slot with its number, and the slots
  -- of other processes as they were; only where it has no slot and none can be had does it end early.
  pub exit_intercept-Leaves : Leaves s (exit_intercept s)
  exit_intercept-Leaves = Seats-Leaves (get_pid_meta_ind s) refl (get_pid_meta_ind-Seats v)
