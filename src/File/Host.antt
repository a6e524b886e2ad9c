-- ===== src/File/Host.antt =====
-- The state of a process that makes file calls, and the calls of libc that the library passes on
-- (system/include/glibccall.h), which belong to the operating system.
use spacefish.Prelude.{
  ℕ, ◌+◌, Bool, true, false, Option, List, ◌==◌, leb, not, if◌then◌else◌, bit_and, update,
}
use spacefish.Config.{max_num_fd, meta_buckets}
use spacefish.Run.{Run, ok, died, stuck, fault, Cmd, ◌>>=◌}
use spacefish.Text.{CString}
use spacefish.Fd.{FdInfo, FdTable}
use spacefish.Meta.{Timespec, Stat, MetaBucket, MetaMem, set_bucket}
use spacefish.Data.{DataMem}

-- What a call returns, -1 as `none`, and what it leaves in `errno`.
pub record Reply (A : Type 0) : Type 0 where
  pub ret : Option A
  pub err : ℕ

-- <errno.h>
abbrev pub enoent : ℕ
enoent = 2

abbrev pub ebadf : ℕ
ebadf = 9

abbrev pub eexist : ℕ
eexist = 17

abbrev pub enospc : ℕ
enospc = 28

abbrev pub efault : ℕ
efault = 14

abbrev pub emfile : ℕ
emfile = 24

abbrev pub enametoolong : ℕ
enametoolong = 36

-- The operating system, in a state of its own.
pub record Host (H : Type 0) : Type 0 where
  pub real_read : ℕ → ℕ → H → Reply (List ℕ) × H
  pub real_write : ℕ → List ℕ → H → Reply ℕ × H
  pub real_pread : ℕ → ℕ → ℕ → H → Reply (List ℕ) × H
  pub real_pwrite : ℕ → List ℕ → ℕ → H → Reply ℕ × H
  pub real_close : ℕ → H → Reply (Unit {0}) × H
  pub getcwd : H → Option CString
  pub real_open : CString → (flags mode : ℕ) → H → Reply ℕ × H
  pub real_fstat : ℕ → H → Reply Stat × H
  pub real_stat : CString → H → Reply Stat × H
  pub real_lstat : CString → H → Reply Stat × H
  pub real_rename : CString → CString → H → Reply (Unit {0}) × H
  -- `shm_open` of a segment that is there: the descriptor that it gives.
  pub shm_open : H → ℕ × H
  -- `execve` and its kin; -1 is `none`, and a call that succeeds does not return.
  pub real_exec : CString → (args envp : List CString) → H → Option (Unit {0}) × H
  pub real_fork : H → ℕ × H
  -- `opendir`, the calls of `readdir` and `closedir`: each entry, and whether it is a directory.
  pub read_dir : CString → H → Option (List (CString × Bool)) × H

-- `clock` holds the readings of the clock to come.
pub record World (H : Type 0) : Type 0 where
  pub fds : FdTable
  pub meta : MetaMem
  pub data_mem : DataMem
  pub clock : ℕ → Timespec
  pub host : H

-- The kinds of stamp of system/include/utility.h.
abbrev pub st_acs : ℕ
st_acs = 1

abbrev pub st_mod : ℕ
st_mod = 2

abbrev pub st_chg : ℕ
st_chg = 4

abbrev pub has_bit : ℕ → ℕ → Bool
has_bit t b = not (bit_and t b == 0)

module _ {H : Type 0} where
  -- A call on the data, the metadata, the descriptors or the host.
  abbrev pub data_back : {A : Type 0} → World H → Run DataMem A → Run (World H) A
  data_back w (ok a d) = ok a (record w { data_mem = d })
  data_back w (died d) = died (record w { data_mem = d })
  data_back w stuck = stuck
  data_back w fault = fault

  abbrev pub on_data : {A : Type 0} → Cmd DataMem A → Cmd (World H) A
  on_data c w = data_back w (c w.data_mem)

  abbrev pub meta_back : {A : Type 0} → World H → Run MetaMem A → Run (World H) A
  meta_back w (ok a m) = ok a (record w { meta = m })
  meta_back w (died m) = died (record w { meta = m })
  meta_back w stuck = stuck
  meta_back w fault = fault

  abbrev pub on_meta : {A : Type 0} → Cmd MetaMem A → Cmd (World H) A
  on_meta c w = meta_back w (c w.meta)

  abbrev pub fds_back : {A : Type 0} → World H → Run FdTable A → Run (World H) A
  fds_back w (ok a t) = ok a (record w { fds = t })
  fds_back w (died t) = died (record w { fds = t })
  fds_back w stuck = stuck
  fds_back w fault = fault

  abbrev pub on_fds : {A : Type 0} → Cmd FdTable A → Cmd (World H) A
  on_fds c w = fds_back w (c w.fds)

  abbrev pub on_host : {A : Type 0} → (H → A × H) → Cmd (World H) A
  on_host f w = let (a, h) = f w.host in ok a (record w { host = h })

  -- FDDES(fd): the table ends at MAX_NUM_FD.
  unfoldable pub fddes : ℕ → Cmd (World H) FdInfo
  fddes fd w = if leb max_num_fd fd then fault else ok (w.fds fd) w

  abbrev pub edit_fd : ℕ → (FdInfo → FdInfo) → Cmd (World H) (Unit {0})
  edit_fd fd f w = ok tt (record w { fds = update w.fds fd (f (w.fds fd)) })

  -- MB_PTR(ix): the array ends at META_BUCKETS.
  unfoldable pub mb_at : ℕ → Cmd (World H) MetaBucket
  mb_at ix w = if leb meta_buckets ix then fault else ok (w.meta.mb_arr ix) w

  abbrev pub edit_mb : ℕ → (MetaBucket → MetaBucket) → Cmd (World H) (Unit {0})
  edit_mb ix f w = ok tt (record w { meta = set_bucket ix (f (w.meta.mb_arr ix)) w.meta })

  -- clock_gettime
  abbrev pub now : Cmd (World H) Timespec
  now w = ok (w.clock 0) (record w { clock = λ n. w.clock (n + 1) })

  -- if (type & bit) clock_gettime(..., field)
  unfoldable pub stamp_field : Bool → (Stat → Timespec → Stat) → Stat → Cmd (World H) Stat
  stamp_field true set s = now >>= λ t. ok (set s t)
  stamp_field false set s = ok s

  unfoldable pub stamp : ℕ → Stat → Cmd (World H) Stat
  unfolding stamp_field
  stamp type s = if bit_and type 7 == 0 then died else do
    a ← stamp_field (has_bit type st_acs) (λ s t. record s { st_atim = t }) s
    m ← stamp_field (has_bit type st_mod) (λ s t. record s { st_mtim = t }) a
    stamp_field (has_bit type st_chg) (λ s t. record s { st_ctim = t }) m
