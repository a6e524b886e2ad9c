-- ===== src/File/Io.antt =====
-- `read`, `write`, `pread`, `pwrite` and `close` of system/lib/file_syscalls.c.
use spacefish.Prelude.{
  ℕ, zero, suc, ◌+◌, ◌-◌, ◌/◌, ◌%◌, Bool, false, ◌&&◌, Option, none, some, List, [], ◌==◌, ltb,
  if◌then◌else◌, length, bit_or,
}
use spacefish.Config.{dbucket_buf_size, no_ix}
use spacefish.Run.{ok, Cmd, ◌>>=◌, ◌>>◌}
use spacefish.Fd.{FdInfo, reset_fd}
use spacefish.Meta.{Timespec, MetaBucket}
use spacefish.File.Host.{
  Reply, Host, World, ebadf, on_data, on_fds, on_host, fddes, edit_fd, mb_at, edit_mb, stamp,
  st_acs, st_mod, st_chg, has_bit,
}
use spacefish.File.Transfer.{Cursor, read_loop, write_loop, data_fuel, write_fuel}
use spacefish.File.Positional.{rounds_of, seek, pread_loop, pwrite_loop}

-- round_up_division(size, DBUCKET_BUF_SIZE)
abbrev pub blocks : ℕ → ℕ
blocks size = (size + (dbucket_buf_size - 1)) / dbucket_buf_size

-- MB_MODIFY(mb)
abbrev pub modify : MetaBucket → MetaBucket
modify mb = record mb { consisent = false }

-- The bucket that the descriptor has cached for the offset; -1 where it has none.
abbrev pub cached : FdInfo → ℕ → ℕ
cached d offset = elim d.off_db_mapping.offset [
  | none ↦ no_ix
  | some o ↦ if o == offset then d.off_db_mapping.dbindex else no_ix
]

-- timespec_comp
abbrev pub later : Timespec → Timespec → Bool
later a b = if a.tv_sec == b.tv_sec then ltb b.tv_nsec a.tv_nsec else ltb b.tv_sec a.tv_sec

-- STAMP_CHECK, and what hangs on it: the later of the two times, where the kind is set.
abbrev pub merge_stamp : (stamp_type type : ℕ) → Timespec → Timespec → Timespec
merge_stamp stamp_type type mine theirs =
    if has_bit stamp_type type && later mine theirs then mine else theirs

module _ {H : Type 0} where
  abbrev pub answer : {A : Type 0} → A → Cmd (World H) (Reply A)
  answer a = ok (record { ret = some a; err = 0 })

  abbrev pub refuse : {A : Type 0} → ℕ → Cmd (World H) (Reply A)
  refuse err = ok (record { ret = none; err = err })

  -- stamp(&FDDES(fd).priv_s, type); FDDES(fd).stamp_type |= type;
  unfoldable pub defer_stamp : (fd type : ℕ) → Cmd (World H) (Unit {0})
  unfolding stamp
  defer_stamp fd type = do
    d ← fddes fd
    s ← stamp type d.priv_s
    edit_fd fd (λ d. record d { priv_s = s; stamp_type = bit_or d.stamp_type type })

  -- What `read` does once some bytes have been copied.
  unfoldable pub read_done : (fd mindex n : ℕ) → Cursor → Cmd (World H) (Unit {0})
  unfolding defer_stamp
  read_done fd mindex zero cur = ok tt
  read_done fd mindex (suc n) cur = do
    edit_mb mindex (λ mb. record mb { last_dbucket = cur.dbindex; last_db_offset = cur.off })
    defer_stamp fd st_acs

  unfoldable pub read_file : (fd mindex count : ℕ) → Cmd (World H) (Reply (List ℕ))
  unfolding mb_at read_done
  read_file fd mindex count = do
    mb ← mb_at mindex
    (bytes, cur) ← on_data (read_loop data_fuel mb.last_dbucket mb.last_db_offset count)
    read_done fd mindex (length bytes) cur
    answer bytes

  -- if (size_ind > 0)
  unfoldable pub add_size : (mindex size_ind : ℕ) → Cmd (World H) (Unit {0})
  add_size mindex zero = ok tt
  add_size mindex (suc n) = edit_mb mindex (λ mb. record mb {
    s = record mb.s { st_size = suc n + mb.s.st_size; st_blocks = blocks (suc n + mb.s.st_size) };
  })

  -- What `write` does once its bytes have been copied.
  unfoldable pub write_done : (fd mindex n : ℕ) → Cursor → Cmd (World H) (Unit {0})
  unfolding defer_stamp
  write_done fd mindex zero cur = ok tt
  write_done fd mindex (suc n) cur = do
    edit_mb mindex (λ mb. record mb { last_dbucket = cur.dbindex; last_db_offset = cur.off })
    defer_stamp fd (bit_or st_mod st_chg)
    edit_mb mindex modify

  unfoldable pub write_file : (fd mindex : ℕ) → List ℕ → Cmd (World H) (Reply ℕ)
  unfolding mb_at write_done add_size
  write_file fd mindex bytes = do
    mb ← mb_at mindex
    (cur, size_ind) ←
        on_data (write_loop (write_fuel bytes) mb.last_dbucket mb.last_db_offset bytes)
    write_done fd mindex (length bytes) cur
    add_size mindex size_ind
    answer (length bytes)

  -- The bucket of the offset, which is cached for the next call; none where the chain ends before.
  unfoldable pub locate : (fd offset first : ℕ) → Cmd (World H) (Option ℕ)
  unfolding seek
  locate fd offset first = do
    d ← fddes fd
    if cached d offset == no_ix
        then (on_data (seek (rounds_of offset) first) >>= remember)
        else ok (some (cached d offset))
    where
      remember : Option ℕ → Cmd (World H) (Option ℕ)
      remember none = ok none
      remember (some dbindex) = do
        edit_fd fd
            (λ d. record d { off_db_mapping = record { offset = some offset; dbindex = dbindex } })
        ok (some dbindex)

  unfoldable pub pread_done : (fd n : ℕ) → Cmd (World H) (Unit {0})
  unfolding defer_stamp
  pread_done fd zero = ok tt
  pread_done fd (suc n) = defer_stamp fd st_acs

  unfoldable pub pread_at : (fd count offset : ℕ) → Option ℕ → Cmd (World H) (Reply (List ℕ))
  unfolding pread_loop pread_done
  pread_at fd count offset none = answer []
  pread_at fd count offset (some dbindex) = do
    bytes ← on_data (pread_loop data_fuel dbindex (offset % dbucket_buf_size) count)
    pread_done fd (length bytes)
    answer bytes

  unfoldable pub pread_file : (fd mindex count offset : ℕ) → Cmd (World H) (Reply (List ℕ))
  unfolding mb_at locate pread_at
  pread_file fd mindex count offset = do
    mb ← mb_at mindex
    found ← locate fd offset mb.first_dbucket
    pread_at fd count offset found

  unfoldable pub pwrite_done : (fd mindex n : ℕ) → Cmd (World H) (Unit {0})
  unfolding defer_stamp
  pwrite_done fd mindex zero = ok tt
  pwrite_done fd mindex (suc n) = do defer_stamp fd (bit_or st_mod st_chg); edit_mb mindex modify

  -- Where the chain ends before the bucket of the offset, nothing is written.
  unfoldable pub pwrite_at :
      (fd mindex : ℕ) → List ℕ → (offset : ℕ) → Option ℕ → Cmd (World H) (Reply ℕ)
  unfolding pwrite_loop pwrite_done add_size
  pwrite_at fd mindex bytes offset none = answer 0
  pwrite_at fd mindex bytes offset (some dbindex) = do
    (n, size_ind) ←
        on_data (pwrite_loop (write_fuel bytes) dbindex (offset % dbucket_buf_size) bytes)
    pwrite_done fd mindex n
    add_size mindex size_ind
    answer n

  unfoldable pub pwrite_file : (fd mindex : ℕ) → List ℕ → (offset : ℕ) → Cmd (World H) (Reply ℕ)
  unfolding mb_at locate pwrite_at
  pwrite_file fd mindex bytes offset = do
    mb ← mb_at mindex
    found ← locate fd offset mb.first_dbucket
    pwrite_at fd mindex bytes offset found

  -- A call on a descriptor: the host's for one that is its own, EBADF for one that is not open.
  unfoldable pub by_fd :
      {A : Type 0}
      → ℕ
      → Cmd (World H) (Reply A)
      → (ℕ → Cmd (World H) (Reply A))
      → Cmd (World H) (Reply A)
  unfolding fddes
  by_fd fd theirs ours = do
    d ← fddes fd
    if d.exclusive then theirs else if d.empty then refuse ebadf else ours d.mindex

  unfoldable pub close_file : (fd : ℕ) → ℕ → Cmd (World H) (Reply (Unit {0}))
  unfolding mb_at
  close_file fd mindex = do
    d ← fddes fd
    mb ← mb_at mindex
    edit_mb mindex (λ mb. record mb {
      s = record mb.s {
        st_atim = merge_stamp d.stamp_type st_acs d.priv_s.st_atim mb.s.st_atim;
        st_mtim = merge_stamp d.stamp_type st_mod d.priv_s.st_mtim mb.s.st_mtim;
        st_ctim = merge_stamp d.stamp_type st_chg d.priv_s.st_ctim mb.s.st_ctim;
      };
    })
    on_fds (reset_fd fd)
    answer tt

  module _ (os : Host H) where
    unfoldable pub read : (fd count : ℕ) → Cmd (World H) (Reply (List ℕ))
    unfolding by_fd read_file
    read fd count = by_fd fd (on_host (os.real_read fd count)) (λ mindex. read_file fd mindex count)

    unfoldable pub write : (fd : ℕ) → List ℕ → Cmd (World H) (Reply ℕ)
    unfolding by_fd write_file
    write fd bytes =
        by_fd fd (on_host (os.real_write fd bytes)) (λ mindex. write_file fd mindex bytes)

    unfoldable pub pread : (fd count offset : ℕ) → Cmd (World H) (Reply (List ℕ))
    unfolding by_fd pread_file
    pread fd count offset =
        by_fd fd (on_host (os.real_pread fd count offset))
          (λ mindex. pread_file fd mindex count offset)

    unfoldable pub pwrite : (fd : ℕ) → List ℕ → (offset : ℕ) → Cmd (World H) (Reply ℕ)
    unfolding by_fd pwrite_file
    pwrite fd bytes offset =
        by_fd fd (on_host (os.real_pwrite fd bytes offset))
          (λ mindex. pwrite_file fd mindex bytes offset)

    -- The host's descriptor is reset when the host has closed it.
    unfoldable pub close_host : ℕ → Cmd (World H) (Reply (Unit {0}))
    close_host fd = do
      r ← on_host (os.real_close fd)
      elim r.ret [ none ↦ ok r | some x ↦ on_fds (reset_fd fd) >> ok r ]

    unfoldable pub close : ℕ → Cmd (World H) (Reply (Unit {0}))
    unfolding by_fd close_host close_file
    close fd = by_fd fd (close_host fd) (λ mindex. close_file fd mindex)
