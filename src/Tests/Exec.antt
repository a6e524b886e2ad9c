-- ===== src/Tests/Exec.antt =====
-- The theorems on processes (system/util/process.c, system/lib/file_proc.c, system/daemon.c) at a
-- process that has a slot.
use spacefish.Prelude.{
  ℕ, ◌≡◌, refl, inl, inr, Bool-cases, true, false, none, some, [], arith, ◌==◌, if◌then◌else◌,
  update,
}
use spacefish.Run.{ok, died}
use spacefish.Fd.{FdTable}
use spacefish.Scan.{scan}
use spacefish.Process.{
  PidInfo, ProcMem, claim_slot, trylock_pid_info, unlock_pid_info, get_new_pid_meta_ind,
  get_pid_meta_ind, exit_intercept,
}
use spacefish.Process.Slots.{SlotsOk, Seats, get_pid_meta_ind-Seats}
use spacefish.Process.Exit.{Leaves, exit_intercept-Leaves}
use spacefish.Process.Searches.{get_new_pid_meta_ind_race}
use spacefish.Exec.{Image, unmapped, exec_fd_backup, ufs_init}
use spacefish.Exec.Cloexec.{OwnCloexec}
use spacefish.Exec.Descriptors.{new_program}
use spacefish.Exec.Twice.{Runs, Recovered, exec-Recovered, exec_twice_dies}
use spacefish.File.Ready.{Ready}
use spacefish.Tests.Files.{os, world, stat}

abbrev slot_of : ℕ → PidInfo
slot_of pid = record {
  pid = pid;
  fds_backed_up = false;
  first_parent_signaled = false;
  vforked = false;
  locked = false;
}

-- The slot 1 is that of the process 77, the slot 2 that of the process 78, which runs.
abbrev procs : ProcMem
procs = record {
  pid_meta = λ i. slot_of (if i == 1 then 77 else if i == 2 then 78 else 0);
  pid_meta_ind = 0;
  pid_meta_ind_set = false;
  this_vforked = false;
  this_signaled_by_parent = false;
  getpid = 78;
  getppid = 77;
  sent = [];
  handlers = λ _. none;
}

procs-SlotsOk : SlotsOk procs
procs-SlotsOk = record {
  unique = λ n i j ne a b. ground (arith, a.is, b.is);
  self = omega arith;
  kept = λ e. omega arith;
}

get_pid_meta_ind-Seats_example : Seats procs (get_pid_meta_ind procs)
get_pid_meta_ind-Seats_example = get_pid_meta_ind-Seats procs-SlotsOk

exit_intercept-Leaves_example : Leaves procs (exit_intercept procs)
exit_intercept-Leaves_example = exit_intercept-Leaves procs-SlotsOk

-- The slot 0 is free.
abbrev found : ProcMem
found = record procs { pid_meta = update procs.pid_meta 0 (slot_of 0); pid_meta_ind_set = true }

finds : get_new_pid_meta_ind procs ≡ ok 0 found
unfolding get_new_pid_meta_ind scan claim_slot trylock_pid_info unlock_pid_info
finds = refl

-- Another process on the same table.
abbrev other : ProcMem
other = record found { getpid = 80; pid_meta_ind_set = false }

get_new_pid_meta_ind_race_example :
    (t' : ProcMem) × (get_new_pid_meta_ind other ≡ ok 0 t') × (t'.pid_meta ≡ found.pid_meta)
get_new_pid_meta_ind_race_example = get_new_pid_meta_ind_race procs other finds refl

-- Its descriptor 1024 is open, as the library's own, and is to be closed on exec.
abbrev image : Image (Unit {0})
image = record {
  world = record world {
    fds = λ fd. record (world.fds fd) { flags = if fd == 1024 then 1 else 0 };
  };
  procs = procs;
  pid = 78;
  backups = λ _. none;
  backup_fds = unmapped;
  ufs_init_called = true;
}

abbrev zeros : FdTable
zeros i = record {
  mindex = 0;
  flags = 0;
  priv_s = stat;
  stamp_type = 0;
  off_db_mapping = record { offset = some 0; dbindex = 0 };
  exclusive = false;
  empty = false;
}

cloexec : OwnCloexec image.world.fds
cloexec i less e = elim (Bool-cases (i == 1024)) [
  | inl here ↦ (refl, rw here (omega arith))
  | inr there ↦ absurd (ground (arith, rw there at e))
]

image-Runs : Runs os image 2
image-Runs = record {
  slots = procs-SlotsOk;
  own = record { in_table = omega arith; is = refl };
  pointer = refl;
  cloexec = cloexec;
  low = λ h. omega arith;
}

exec-Recovered_example :
    (s1 : Image (Unit {0})) × ((s2 : Image (Unit {0})) × (exec_fd_backup image ≡ ok tt s1)
      × (ufs_init os (new_program zeros s1) ≡ ok tt s2)
      × Recovered os image s2 2)
exec-Recovered_example = exec-Recovered os zeros image image-Runs refl

exec_twice_dies_example :
    (s1 : Image (Unit {0})) × ((s2 : Image (Unit {0})) × ((s3 : Image (Unit {0})) × (exec_fd_backup
            image
          ≡ ok tt s1)
        × (ufs_init os (new_program zeros s1) ≡ ok tt s2)
        × (exec_fd_backup s2 ≡ died s3)))
exec_twice_dies_example = exec_twice_dies os zeros image image-Runs refl
