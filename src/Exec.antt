-- ===== src/Exec.antt =====
-- A process over its whole life: `ufs_init` of system/lib/ufs.c, the calls of system/lib/file_proc.c,
-- and the backup of the descriptors across them (system/util/process.c).
pub mod Cloexec
pub mod Descriptors
pub mod Twice
use spacefish.Prelude.{
  ℕ, zero, suc, ◌+◌, Bool, true, false, ◌&&◌, not, Option, none, some, List, [], ◌∷◌, ◌++◌, ◌==◌,
  ltb, if◌then◌else◌, update,
}
use spacefish.Config.{max_num_fd, max_data_buckets_steps}
use spacefish.Run.{Run, ok, died, stuck, fault, Cmd, ◌>>=◌, ◌>>◌, get, put}
use spacefish.Text.{CString}
use spacefish.Fd.{FdInfo, FdTable, init_fd_table}
use spacefish.Meta.{get_mbucket}
use spacefish.Data.{DataMem}
use spacefish.Data.Steps.{open_map_global_memd}
use spacefish.Process.{PidInfo, ProcMem, get_pid_meta_ind, set_slot}
use spacefish.File.Host.{Reply, Host, World, on_data, on_meta, on_host, fddes, has_bit}
use spacefish.File.Io.{close}
use spacefish.File.Disk.{write_to_disk}
use spacefish.File.Names.{abs_path}

-- The pointer `backup_fds`: NULL, or at a mapping that `munmap` has taken away again.
pub data Backup : Type 0 where
  unmapped : Backup
  gone : Backup

-- The process, with the segments `ufs_fdbackup_<uid>_<pid>` that there are, by `pid`. The variable
-- `pid` of the process is its number when it was last read.
pub record Image (H : Type 0) : Type 0 where
  pub world : World H
  pub procs : ProcMem
  pub pid : ℕ
  pub backups : ℕ → Option FdTable
  pub backup_fds : Backup
  pub ufs_init_called : Bool

-- <fcntl.h>
abbrev pub fd_cloexec : ℕ
fd_cloexec = 1

-- memcpy of MAX_NUM_FD entries
abbrev pub copy_table : FdTable → FdTable → FdTable
copy_table from to i = if ltb i max_num_fd then from i else to i

module _ {H : Type 0} where
  abbrev pub world_back : {A : Type 0} → Image H → Run (World H) A → Run (Image H) A
  world_back s (ok a w) = ok a (record s { world = w })
  world_back s (died w) = died (record s { world = w })
  world_back s stuck = stuck
  world_back s fault = fault

  abbrev pub on_world : {A : Type 0} → Cmd (World H) A → Cmd (Image H) A
  on_world c s = world_back s (c s.world)

  abbrev pub procs_back : {A : Type 0} → Image H → Run ProcMem A → Run (Image H) A
  procs_back s (ok a p) = ok a (record s { procs = p })
  procs_back s (died p) = died (record s { procs = p })
  procs_back s stuck = stuck
  procs_back s fault = fault

  abbrev pub on_procs : {A : Type 0} → Cmd ProcMem A → Cmd (Image H) A
  on_procs c s = procs_back s (c s.procs)

  -- The segment is new: O_EXCL, and EHANDLE ends the process where there is one already.
  unfoldable pub create_backup : Cmd (Image H) (Unit {0})
  create_backup s = elim (s.backups s.pid) [
    | some b ↦ died s
    | none ↦ ok tt (record s { backups = update s.backups s.pid (some s.world.fds) })
  ]

  -- A pointer at a mapping that is gone is written through.
  unfoldable pub open_backup : Backup → Cmd (Image H) (Unit {0})
  unfolding create_backup
  open_backup unmapped = do i ← on_procs get_pid_meta_ind; create_backup
  open_backup gone = λ _. fault

  unfoldable pub exec_fd_backup : Cmd (Image H) (Unit {0})
  unfolding open_backup
  exec_fd_backup = do
    r ← get
    put (record r { pid = r.procs.getpid })
    s ← get
    open_backup s.backup_fds
    t ← get
    put (record t { backups = update t.backups t.pid (some t.world.fds); backup_fds = gone })
    let i = t.procs.pid_meta_ind
    on_procs (set_slot i (record (t.procs.pid_meta i) { fds_backed_up = true }))

  module _ (os : Host H) where
    -- The descriptor of the segment is closed by the library's own `close`.
    unfoldable pub restore_fd_backup : Cmd (Image H) (Unit {0})
    restore_fd_backup = do
      s ← get
      elim (s.backups s.pid) [
        | none ↦ died
        | some b ↦ do
          fd ← on_world (on_host os.shm_open)
          r ← on_world (close os fd)
          t ← get
          put (record t { world = record t.world { fds = copy_table b t.world.fds } })
      ]

    -- The loop over `k` descriptors from `i`.
    unfoldable pub cloexec_from : (k i : ℕ) → Cmd (World H) (Unit {0})
    unfolding fddes
    cloexec_from zero i = ok tt
    cloexec_from (suc k) i = do
      d ← fddes i
      if not d.empty && has_bit d.flags fd_cloexec
          then (close os i >>= λ r. cloexec_from k (i + 1))
          else cloexec_from k (i + 1)

    unfoldable pub close_cloexec : Cmd (World H) (Unit {0})
    unfolding cloexec_from
    close_cloexec = cloexec_from max_num_fd 0

    -- What `ufs_init` does of an exec'ed process.
    unfoldable pub recover : (i : ℕ) → Bool → Cmd (Image H) (Unit {0})
    unfolding restore_fd_backup
    recover i false = ok tt
    recover i true = do
      restore_fd_backup
      on_world close_cloexec
      s ← get
      on_procs (
          set_slot s.procs.pid_meta_ind
            (record (s.procs.pid_meta s.procs.pid_meta_ind) { fds_backed_up = false }))

    -- data_steps[k] = NULL
    abbrev pub forget_steps : DataMem → DataMem
    forget_steps d = record d {
      mapped = λ k. if ltb k max_data_buckets_steps then false else d.mapped k;
    }

    -- The library's constructor. `srand` has no effect on the model: all draws are arbitrary.
    unfoldable pub ufs_init : Cmd (Image H) (Unit {0})
    unfolding recover
    ufs_init = do
      s ← get
      if s.ufs_init_called then ok tt else do
        put (record s {
          ufs_init_called = true;
          pid = s.procs.getpid;
          world = record s.world {
            fds = init_fd_table s.world.fds;
            data_mem = forget_steps s.world.data_mem;
          };
          procs = record s.procs { pid_meta_ind = 0; pid_meta_ind_set = false };
        })
        on_world (on_data open_map_global_memd)
        i ← on_procs get_pid_meta_ind
        t ← get
        recover i (t.procs.pid_meta i).fds_backed_up

    -- The segment of the number that the process has last read is removed.
    unfoldable pub ufs_fin : Cmd (Image H) (Unit {0})
    ufs_fin s = ok tt (record s { backups = update s.backups s.pid none })

    -- A program that the memory has is written to the disk, from where it is started.
    unfoldable pub exec_file_in_shm : (block : ℕ → ℕ) → CString → Cmd (World H) (Unit {0})
    unfolding abs_path write_to_disk
    exec_file_in_shm block path = do
      fpath ← abs_path os path
      mb ← on_meta (get_mbucket fpath)
      elim mb [ none ↦ ok tt | some ix ↦ write_to_disk os block ix ]

    -- EHANDLE ends a process whose call returns; one whose call succeeds runs the program.
    unfoldable pub start_program : CString → (args envp : List CString) → Cmd (World H) (Unit {0})
    start_program path args envp = do
      r ← on_host (os.real_exec path args envp)
      elim r [ none ↦ died | some x ↦ ok tt ]

    -- `execv` and `execvp`, which start the program with the environment of the process.
    unfoldable pub execv :
        (block : ℕ → ℕ)
        → (environ : List CString) → CString
        → (args : List CString) → Cmd (Image H) (Unit {0})
    unfolding exec_fd_backup exec_file_in_shm start_program
    execv block environ path args = do
      exec_fd_backup
      on_world (exec_file_in_shm block path)
      on_world (start_program path args environ)

    -- "LD_PRELOAD=%s/libufs.so" with LIBPATH of the build
    abbrev pub lib_env_var : (libpath : CString) → CString
    lib_env_var libpath =
        (b'L' ∷ b'D' ∷ b'_' ∷ b'P' ∷ b'R' ∷ b'E' ∷ b'L' ∷ b'O' ∷ b'A' ∷ b'D' ∷ b'=' ∷ [])
        ++ (libpath ++ (b'/' ∷ b'l' ∷ b'i' ∷ b'b' ∷ b'u' ∷ b'f' ∷ b's' ∷ b'.' ∷ b's' ∷ b'o' ∷ []))

    -- The environment given, and LD_PRELOAD behind it.
    unfoldable pub execve :
        (block : ℕ → ℕ)
        → (libpath : CString) → CString
        → (args envp : List CString) → Cmd (Image H) (Unit {0})
    unfolding exec_fd_backup exec_file_in_shm start_program
    execve block libpath filename args envp = do
      exec_fd_backup
      on_world (exec_file_in_shm block filename)
      on_world (start_program filename args (envp ++ (lib_env_var libpath ∷ [])))

    -- `fork`, and `vfork` without VFORK_SIGNALING
    unfoldable pub fork : Cmd (World H) ℕ
    fork = on_host os.real_fork
