-- ===== src/Exec/Descriptors.antt =====
-- The descriptors of a process across a call of exec: `exec_fd_backup` of system/lib/file_proc.c,
-- `ufs_init` of system/lib/ufs.c and `restore_fd_backup` of system/util/process.c.
use spacefish.Prelude.{
  ℕ, ◌<◌, ◌≡◌, refl, ap, sym, ◌∙◌, true, false, Option, none, some, arith, leb, ltb, update,
}
use spacefish.Config.{max_num_fd, first_user_fd, max_exec_hanging}
use spacefish.Run.{Cmd, ok, died, ◌>>◌}
use spacefish.Fd.{FdTable, init_fd_table, reset_fd}
use spacefish.Process.{ProcMem, get_pid_meta_ind}
use spacefish.Process.Slots.{Has, SlotsOk}
use spacefish.Process.Searches.{get_pid_meta_ind-own}
use spacefish.File.Host.{Reply, Host, World, on_fds}
use spacefish.File.Io.{close, close_host, by_fd}
use spacefish.File.Calls.{fddes-ok}
use spacefish.Exec.{
  Image, unmapped, gone, exec_fd_backup, open_backup, create_backup, restore_fd_backup, copy_table,
}
use spacefish.Exec.Cloexec.{reset}

-- The table of slots, its locks aside, stands on the numbers in it.
pub SlotsOk-same :
    {p q : ProcMem}
    → SlotsOk p
    → ((j : ℕ) → (q.pid_meta j).pid ≡ (p.pid_meta j).pid)
    → q.getpid ≡ p.getpid
    → (q.pid_meta_ind_set ≡ true → q.pid_meta_ind < max_exec_hanging)
    → SlotsOk q
SlotsOk-same v pids self kept = record {
  unique = λ n i j ne a b.
      v.unique n i j ne (record { in_table = a.in_table; is = sym (pids i) ∙ a.is })
        (record { in_table = b.in_table; is = sym (pids j) ∙ b.is });
  self = rw self v.self;
  kept = kept;
}

module _ {H : Type 0} where
  -- The program that exec starts: its own memory is new, with zeros in the table of descriptors; the
  -- shared memory and the host are as they were.
  abbrev pub new_program : (zeros : FdTable) → Image H → Image H
  new_program zeros s = record s {
    world = record s.world { fds = zeros };
    backup_fds = unmapped;
    ufs_init_called = false;
  }

  -- What the backup leaves.
  pub record BackedUp (s t : Image H) (i : ℕ) : Type 0 where
    pub world : t.world ≡ s.world
    pub backup : t.backups s.procs.getpid ≡ some s.world.fds
    pub pids : (j : ℕ) → (t.procs.pid_meta j).pid ≡ (s.procs.pid_meta j).pid
    pub flag : (t.procs.pid_meta i).fds_backed_up ≡ true
    pub self : t.procs.getpid ≡ s.procs.getpid

  module _ (s : Image H) (p : ProcMem) {i : ℕ} (runs : get_pid_meta_ind s.procs ≡ ok i p)
      (null : s.backup_fds ≡ unmapped) where
    abbrev read_pid : Image H
    read_pid = record s { pid = s.procs.getpid }

    abbrev backed_up : Image H
    backed_up = record s {
      pid = s.procs.getpid;
      procs = record p {
        pid_meta =
            update p.pid_meta p.pid_meta_ind
              (record (p.pid_meta p.pid_meta_ind) { fds_backed_up = true });
      };
      backups =
          update (update s.backups s.procs.getpid (some s.world.fds)) s.procs.getpid
            (some s.world.fds);
      backup_fds = gone;
    }

    open_backup-new :
        s.backups s.procs.getpid ≡ none
        → open_backup s.backup_fds read_pid
          ≡ ok tt (record read_pid {
            procs = p;
            backups = update s.backups s.procs.getpid (some s.world.fds);
          })
    unfolding open_backup create_backup
    open_backup-new new = ap (λ b. open_backup b read_pid) null ∙ rw (runs, create_backup, new) refl

    open_backup-died :
        {b : FdTable}
        → s.backups s.procs.getpid ≡ some b
        → open_backup s.backup_fds read_pid ≡ died (record read_pid { procs = p })
    unfolding open_backup create_backup
    open_backup-died old =
        ap (λ b. open_backup b read_pid) null ∙ rw (runs, create_backup, old) refl

    exec_fd_backup-new : s.backups s.procs.getpid ≡ none → exec_fd_backup s ≡ ok tt backed_up
    unfolding exec_fd_backup
    exec_fd_backup-new new = rw (open_backup-new new) refl

    pub exec_fd_backup-died :
        {b : FdTable}
        → s.backups s.procs.getpid ≡ some b
        → exec_fd_backup s ≡ died (record read_pid { procs = p })
    unfolding exec_fd_backup
    exec_fd_backup-died old = rw (open_backup-died old) refl

  pub exec_fd_backup-BackedUp :
      (s : Image H) {i : ℕ}
      → SlotsOk s.procs
      → Has s.procs s.procs.getpid i
      → s.backup_fds ≡ unmapped
      → s.backups s.procs.getpid ≡ none
      → (t : Image H) × (exec_fd_backup s ≡ ok tt t) × BackedUp s t i
  exec_fd_backup-BackedUp s {i} v own null new =
      let (p, runs, same, index, self) = get_pid_meta_ind-own v own in
      (
        backed_up s p runs null,
        exec_fd_backup-new s p runs null new,
        record {
          world = refl;
          backup = ground arith;
          pids = λ j. ground arith;
          flag = ground arith;
          self = self;
        },
      )

  module _ (os : Host H) where
    -- What follows the host's own `close`.
    abbrev after_close : ℕ → Reply (Unit {0}) → Cmd (World H) (Reply (Unit {0}))
    after_close n r = elim r.ret [ none ↦ ok r | some x ↦ on_fds (reset_fd n) >> ok r ]

    close_done :
        (n : ℕ) (ret : Option (Unit {0})) (err : ℕ) (w : World H)
        → n < first_user_fd
        → (r : Reply (Unit {0})) × ((w' : World H) × (after_close n
                (record { ret = ret; err = err })
                w
              ≡ ok r w'))
    unfolding reset_fd
    close_done n none err w low = (record { ret = none; err = err }, (w, refl))
    close_done n (some x) err w low =
        let inside : leb max_num_fd n ≡ false = ground arith in
        (
          record { ret = some x; err = err },
          (record w { fds = update w.fds n (reset (w.fds n)) }, rw inside refl),
        )

    -- A descriptor of the host in a new table: the library's `close` passes it on.
    close_low :
        (w : World H) (n : ℕ)
        → n < first_user_fd
        → (w.fds n).exclusive ≡ true
        → (r : Reply (Unit {0})) × ((w' : World H) × (close os n w ≡ ok r w'))
    unfolding close by_fd close_host
    close_low w n low mine =
        let (c, h) = os.real_close n w.host in
        let (r, (w', runs)) = close_done n c.ret c.err (record w { host = h }) low in
        (r, (w', rw (fddes-ok w n (omega arith), mine) runs))

    init_exclusive :
        (zeros : FdTable) (n : ℕ) → n < first_user_fd → (init_fd_table zeros n).exclusive ≡ true
    unfolding init_fd_table
    init_exclusive zeros n low = ground arith

    pub record Restored (s t : Image H) (b : FdTable) : Type 0 where
      pub fds : (j : ℕ) → j < max_num_fd → t.world.fds j ≡ b j
      pub procs : t.procs ≡ s.procs
      pub backups : t.backups ≡ s.backups
      pub pointer : t.backup_fds ≡ s.backup_fds

    pub restore-Restored :
        (s : Image H) {b : FdTable} (zeros : FdTable)
        → s.backups s.pid ≡ some b
        → s.world.fds ≡ init_fd_table zeros
        → (os.shm_open s.world.host).0 < first_user_fd
        → (t : Image H) × (restore_fd_backup os s ≡ ok tt t) × Restored s t b
    unfolding restore_fd_backup
    restore-Restored s {b} zeros there new low =
        let (n, h) = os.shm_open s.world.host in
        let w : World H = record s.world { host = h } in
        let (r, (w', runs)) =
          close_low w n low (ap (λ t. (t n).exclusive) new ∙ init_exclusive zeros n low) in
        (
          record s { world = record w' { fds = copy_table b w'.fds } },
          rw (there, runs) refl,
          record {
            fds = λ j less. let inside : ltb j max_num_fd ≡ true = ground arith in rw inside refl;
            procs = refl;
            backups = refl;
            pointer = refl;
          },
        )
