-- ===== src/Exec/Twice.antt =====
-- A process that calls exec, and one that calls it again: `exec_fd_backup` of system/lib/file_proc.c and
-- `ufs_init` of system/lib/ufs.c, one after the other.
use spacefish.Prelude.{
  ℕ, ◌<◌, ◌≡◌, refl, ap, sym, ◌∙◌, true, false, some, none, arith, if◌then◌else◌, update,
}
use spacefish.Config.{max_num_fd, first_user_fd}
use spacefish.Run.{ok, died}
use spacefish.Fd.{FdTable, init_fd_table}
use spacefish.Data.Steps.{open_map_global_memd-ok}
use spacefish.Process.Slots.{Has, SlotsOk}
use spacefish.Process.Searches.{get_pid_meta_ind-own}
use spacefish.File.Host.{Host}
use spacefish.Exec.{Image, unmapped, exec_fd_backup, recover, ufs_init, forget_steps}
use spacefish.Exec.Cloexec.{to_close, reset, OwnCloexec, close_cloexec-Closes}
use spacefish.Exec.Descriptors.{
  new_program, SlotsOk-same, exec_fd_backup-BackedUp, exec_fd_backup-died, restore-Restored,
}

module _ {H : Type 0} (os : Host H) where
  -- A process with a slot, whose descriptors to be closed are the library's own.
  pub record Runs (s : Image H) (i : ℕ) : Type 0 where
    pub slots : SlotsOk s.procs
    pub own : Has s.procs s.procs.getpid i
    pub pointer : s.backup_fds ≡ unmapped
    pub cloexec : OwnCloexec s.world.fds
    -- the host gives low numbers, which are its own
    pub low : (h : H) → (os.shm_open h).0 < first_user_fd

  -- The process after exec: its descriptors are those of before, but for those that were to be closed.
  pub record Recovered (s t : Image H) (i : ℕ) : Type 0 where
    pub fds :
        (j : ℕ)
        → j < max_num_fd
        → t.world.fds j
          ≡ (if to_close (s.world.fds j) then reset (s.world.fds j) else s.world.fds j)
    pub flag : (t.procs.pid_meta i).fds_backed_up ≡ false
    pub slots : SlotsOk t.procs
    pub own : Has t.procs t.procs.getpid i
    pub pointer : t.backup_fds ≡ unmapped
    pub backup : t.backups t.procs.getpid ≡ some s.world.fds

  record Recovers (s t : Image H) (b : FdTable) : Type 0 where
    fds : (j : ℕ) → j < max_num_fd → t.world.fds j ≡ (if to_close (b j) then reset (b j) else b j)
    procs : t.procs ≡ record s.procs {
      pid_meta =
          update s.procs.pid_meta s.procs.pid_meta_ind
            (record (s.procs.pid_meta s.procs.pid_meta_ind) { fds_backed_up = false });
    }
    backups : t.backups ≡ s.backups
    pointer : t.backup_fds ≡ s.backup_fds

  recover-Recovers :
      (s : Image H) (i : ℕ) {b : FdTable} (zeros : FdTable)
      → s.backups s.pid ≡ some b
      → s.world.fds ≡ init_fd_table zeros
      → (os.shm_open s.world.host).0 < first_user_fd
      → OwnCloexec b
      → (t : Image H) × (recover os i true s ≡ ok tt t) × Recovers s t b
  unfolding recover
  recover-Recovers s i {b} zeros there new low own =
      let (u, restored, r) = restore-Restored os s zeros there new low in
      let own' : OwnCloexec u.world.fds = λ j less. rw (r.fds j less) (own j less) in
      let (w, closed, at) = close_cloexec-Closes os u.world own' in
      (
        record u {
          world = w;
          procs = record u.procs {
            pid_meta =
                update u.procs.pid_meta u.procs.pid_meta_ind
                  (record (u.procs.pid_meta u.procs.pid_meta_ind) { fds_backed_up = false });
          };
        },
        rw (restored, closed) refl,
        record {
          fds = λ j less. at j less ∙ rw (r.fds j less) refl;
          procs = rw r.procs refl;
          backups = r.backups;
          pointer = r.pointer;
        },
      )

  -- What `ufs_init` leaves of a process that has been backed up.
  record Begun (n t : Image H) (i : ℕ) (b : FdTable) : Type 0 where
    fds : (j : ℕ) → j < max_num_fd → t.world.fds j ≡ (if to_close (b j) then reset (b j) else b j)
    pids : (j : ℕ) → (t.procs.pid_meta j).pid ≡ (n.procs.pid_meta j).pid
    flag : (t.procs.pid_meta i).fds_backed_up ≡ false
    self : t.procs.getpid ≡ n.procs.getpid
    index : t.procs.pid_meta_ind ≡ i
    backups : t.backups ≡ n.backups
    pointer : t.backup_fds ≡ n.backup_fds

  ufs_init-Begun :
      (n : Image H) (i : ℕ) {b : FdTable}
      → SlotsOk (record n.procs { pid_meta_ind = 0; pid_meta_ind_set = false })
      → Has n.procs n.procs.getpid i
      → n.ufs_init_called ≡ false
      → (n.procs.pid_meta i).fds_backed_up ≡ true
      → n.backups n.procs.getpid ≡ some b
      → OwnCloexec b
      → ((h : H) → (os.shm_open h).0 < first_user_fd)
      → (t : Image H) × (ufs_init os n ≡ ok tt t) × Begun n t i b
  unfolding ufs_init
  ufs_init-Begun n i {b} v own first flag there cloexec low =
      let (p, runs, same, index, self) =
        get_pid_meta_ind-own v (record { in_table = own.in_table; is = own.is }) in
      let (d, maps) = open_map_global_memd-ok (forget_steps os n.world.data_mem) in
      let m : Image H = record n {
        ufs_init_called = true;
        pid = n.procs.getpid;
        world = record n.world { fds = init_fd_table n.world.fds; data_mem = d };
        procs = p;
      } in
      let flag' : (p.pid_meta i).fds_backed_up ≡ true = ap (λ t. (t i).fds_backed_up) same ∙ flag in
      let (t, recovered, r) =
        recover-Recovers m i n.world.fds there refl (low n.world.host) cloexec in
      (
        t,
        rw (first, maps, runs, flag', recovered) refl,
        record {
          fds = r.fds;
          pids = λ j. ap (λ q. (q.pid_meta j).pid) r.procs ∙ ground (arith, same);
          flag = ap (λ q. (q.pid_meta i).fds_backed_up) r.procs ∙ ground (arith, index);
          self = ap (λ q. q.getpid) r.procs ∙ self;
          index = ap (λ q. q.pid_meta_ind) r.procs ∙ index;
          backups = r.backups;
          pointer = r.pointer;
        },
      )

  -- A process with a slot that calls exec for the first time: `exec_fd_backup` returns, and `ufs_init`
  -- of the program that exec starts gives it the descriptors back as they were, those to be closed on
  -- exec closed; its slot is marked as not backed up again.
  pub exec-Recovered :
      (zeros : FdTable) (s : Image H) {i : ℕ}
      → Runs s i
      → s.backups s.procs.getpid ≡ none
      → (s1 : Image H) × ((s2 : Image H) × (exec_fd_backup s ≡ ok tt s1)
          × (ufs_init os (new_program zeros s1) ≡ ok tt s2)
          × Recovered s s2 i)
  exec-Recovered zeros s {i} r new =
      let (s1, backed, u) = exec_fd_backup-BackedUp s r.slots r.own r.pointer new in
      let own : Has s1.procs s1.procs.getpid i = record {
        in_table = r.own.in_table;
        is = u.pids i ∙ r.own.is ∙ sym u.self;
      } in
      let (s2, inits, t) =
        ufs_init-Begun (new_program zeros s1) i
          (SlotsOk-same r.slots u.pids u.self (λ e. absurd (cc))) own refl u.flag
          (ap s1.backups u.self ∙ u.backup) r.cloexec r.low in
      (
        s1,
        (
          s2,
          backed,
          inits,
          record {
            fds = t.fds;
            flag = t.flag;
            slots =
                SlotsOk-same r.slots (λ j. t.pids j ∙ u.pids j) (t.self ∙ u.self)
                  (λ e. rw t.index r.own.in_table);
            own = record { in_table = r.own.in_table; is = t.pids i ∙ own.is ∙ sym t.self };
            pointer = t.pointer;
            backup =
                ap s2.backups (t.self ∙ u.self) ∙ ap (λ f. f s.procs.getpid) t.backups ∙ u.backup;
          },
        ),
      )

  -- The segment of the first call of exec is still there: where the process that has recovered calls
  -- exec again, `exec_fd_backup` ends it.
  pub exec_twice_dies :
      (zeros : FdTable) (s : Image H) {i : ℕ}
      → Runs s i
      → s.backups s.procs.getpid ≡ none
      → (s1 : Image H) × ((s2 : Image H) × ((s3 : Image H) × (exec_fd_backup s ≡ ok tt s1)
            × (ufs_init os (new_program zeros s1) ≡ ok tt s2)
            × (exec_fd_backup s2 ≡ died s3)))
  exec_twice_dies zeros s {i} r new =
      let (s1, (s2, backed, inits, t)) = exec-Recovered zeros s r new in
      let (p, runs, same, index, self) = get_pid_meta_ind-own t.slots t.own in
      (
        s1,
        (
          s2,
          (
            record s2 { pid = s2.procs.getpid; procs = p },
            backed,
            inits,
            exec_fd_backup-died s2 p runs t.pointer t.backup,
          ),
        ),
      )
