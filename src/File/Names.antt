-- ===== src/File/Names.antt =====
-- The calls of system/lib that take a path: `open`, `unlink` and `rename` of file_syscalls.c, and the
-- `stat` calls of file_meta.c. `calling_shm_open`, set while the memory itself is opened, is 0 here.
use spacefish.Prelude.{
  ℕ, zero, suc, Bool, true, false, ◌&&◌, ◌||◌, not, none, some, ◌==◌, ltb, if◌then◌else◌, update,
  length,
}
use spacefish.Config.{path_max, no_ix, first_user_fd, max_num_fd}
use spacefish.Run.{done, failed, ok, died, stuck, fault, Cmd, ◌>>=◌, ◌>>◌, get}
use spacefish.Text.{CString, same_string}
use spacefish.Path.{built, already, unsupported, no_cwd, overrun, build_abs_path, exclusive_path}
use spacefish.Data.{DataMem}
use spacefish.Data.Steps.{get_dbucket_ptr}
use spacefish.Fd.{get_empty_fd}
use spacefish.Meta.{Stat, get_mbucket}
use spacefish.Meta.Ops.{release_meta_bucket, mb_chpath}
use spacefish.File.Host.{
  Reply, Host, World, enoent, eexist, efault, emfile, enametoolong, on_data, on_meta, on_fds,
  on_host, fddes, edit_fd, mb_at, edit_mb, stamp, has_bit,
}
use spacefish.File.Transfer.{data_fuel}
use spacefish.File.Io.{answer, refuse, modify, by_fd}
use spacefish.File.Upload.{upload_file, create_new_file}

-- while (dbindex != -1), from the bucket behind the first: the buckets are kept, and emptied.
unfoldable pub trunc_loop : (fuel dbindex : ℕ) → Cmd DataMem (Unit {0})
trunc_loop zero dbindex = if dbindex == no_ix then ok tt else λ _. stuck
trunc_loop (suc fuel) dbindex = if dbindex == no_ix then ok tt else do
  p ← get_dbucket_ptr dbindex
  s ← get
  (λ s. ok tt (record s { db = update s.db p (record (s.db p) { bytes = 0 }) }))
  trunc_loop fuel (s.db p).next_ix

-- The data of a file opened with O_TRUNC.
unfoldable pub trunc_data : (first : ℕ) → Cmd DataMem (Unit {0})
unfolding trunc_loop
trunc_data first = do
  p ← get_dbucket_ptr first
  s ← get
  (λ s. ok tt (record s { db = update s.db p (record (s.db p) { bytes = 0 }) }))
  trunc_loop data_fuel (s.db p).next_ix

-- The loop of O_APPEND: `db->next_ix >= 0` holds of every `unsigned int`, so it only goes on.
unfoldable pub append_loop : (fuel dbindex : ℕ) → Cmd DataMem (Unit {0})
append_loop zero dbindex = λ _. stuck
append_loop (suc fuel) dbindex = do
  p ← get_dbucket_ptr dbindex
  s ← get
  append_loop fuel (s.db p).next_ix

-- <fcntl.h>
abbrev pub o_wronly : ℕ
o_wronly = 1

abbrev pub o_rdwr : ℕ
o_rdwr = 2

abbrev pub o_creat : ℕ
o_creat = 64

abbrev pub o_excl : ℕ
o_excl = 128

abbrev pub o_trunc : ℕ
o_trunc = 512

abbrev pub o_append : ℕ
o_append = 1024

-- O_TRUNC_CHECK
abbrev pub o_trunc_check : ℕ → Bool
o_trunc_check flags = has_bit flags o_trunc && (has_bit flags o_rdwr || has_bit flags o_wronly)

module _ {H : Type 0} where
  unfoldable pub truncate_file : ℕ → Cmd (World H) (Reply ℕ)
  unfolding mb_at trunc_data stamp
  truncate_file ix = do
    mb ← mb_at ix
    on_data (trunc_data mb.first_dbucket)
    s ← stamp 6 (record mb.s { st_size = 0; st_blocks = 1 })
    edit_mb ix (λ mb. modify (record mb { s = s }))
    answer ix

  -- Where the file stands once it is open.
  unfoldable pub start_at : (flags ix : ℕ) → Cmd (World H) (Unit {0})
  unfolding mb_at
  start_at flags ix = do
    mb ← mb_at ix
    if has_bit flags o_append
        then on_data (append_loop data_fuel mb.first_dbucket)
        else edit_mb ix (λ mb. record mb { last_dbucket = mb.first_dbucket; last_db_offset = 0 })

  unfoldable pub take_fd : ℕ → Cmd (World H) (Reply ℕ)
  take_fd ix = do
    fd ← on_fds (get_empty_fd first_user_fd max_num_fd)
    elim fd [
      | none ↦ refuse emfile
      | some fd ↦ edit_fd fd (λ d. record d { mindex = ix }) >> answer fd
    ]

  unfoldable pub open_found : (flags : ℕ) → Reply ℕ → Cmd (World H) (Reply ℕ)
  unfolding start_at take_fd
  open_found flags r = elim r.ret [ none ↦ ok r | some ix ↦ start_at flags ix >> take_fd ix ]

  -- A descriptor of the host above 0 is marked as its own.
  unfoldable pub open_host : Reply ℕ → Cmd (World H) (Reply ℕ)
  unfolding fddes
  open_host r = elim r.ret [
    | none ↦ ok r
    | some fd ↦
        if fd == 0
        then ok r
        else do d ← fddes fd; edit_fd fd (λ d. record d { empty = false; exclusive = true }); ok r
  ]

  module _ (os : Host H) where
    -- BUILD_ABS_PATH_1
    unfoldable pub abs_path : CString → Cmd (World H) CString
    abs_path path w = elim (build_abs_path (os.getcwd w.host) path) [
      | built r ↦ ok r w
      | already ↦ ok path w
      | unsupported ↦ ok path w
      | no_cwd ↦ died w
      | overrun ↦ fault
    ]

    -- A file that the memory does not have is taken from the disk, or created.
    unfoldable pub open_missing :
        (pathname fpath : CString) → (flags mode : ℕ) → Cmd (World H) (Reply ℕ)
    unfolding upload_file create_new_file
    open_missing pathname fpath flags mode = do
      st ← on_host (os.real_stat pathname)
      elim st.ret [
        | none ↦ create_new_file fpath mode
        | some s ↦ if has_bit flags o_excl then refuse eexist else upload_file os fpath
      ]

    -- The metadata bucket of the file to open.
    unfoldable pub open_bucket :
        (pathname fpath : CString) → (flags mode : ℕ) → Cmd (World H) (Reply ℕ)
    unfolding truncate_file open_missing
    open_bucket pathname fpath flags mode = do
      found ← on_meta (get_mbucket fpath)
      if not (has_bit flags o_creat)
          then (elim found [ none ↦ upload_file os fpath | some ix ↦ answer ix ])
          else if o_trunc_check flags
          then (elim found [ none ↦ create_new_file fpath mode | some ix ↦ truncate_file ix ])
          else elim found [
            | none ↦ open_missing pathname fpath flags mode
            | some ix ↦ if has_bit flags o_excl then refuse eexist else answer ix
          ]

    unfoldable pub open_file : CString → (flags mode : ℕ) → Cmd (World H) (Reply ℕ)
    unfolding abs_path open_bucket open_found open_host
    open_file pathname flags mode =
        if exclusive_path pathname
        then on_host (os.real_open pathname flags mode) >>= open_host
        else if ltb path_max (length pathname)
        then refuse enametoolong
        else do
          fpath ← abs_path pathname
          r ← open_bucket pathname fpath flags mode
          open_found flags r

    unfoldable pub unlink : CString → Cmd (World H) (Reply (Unit {0}))
    unfolding abs_path
    unlink pathname = if ltb path_max (length pathname) then refuse enametoolong else do
      fpath ← abs_path pathname
      r ← on_meta (release_meta_bucket fpath)
      elim r [ done ↦ answer tt | failed ↦ refuse enoent ]

    -- The old path is on the disk, if anywhere.
    unfoldable pub rename_host :
        (oldpath newpath fnewpath : CString) → Cmd (World H) (Reply (Unit {0}))
    rename_host oldpath newpath fnewpath = do
      r ← on_host (os.real_rename oldpath newpath)
      elim r.ret [
        | none ↦ ok r
        | some x ↦ do
          found ← on_meta (get_mbucket fnewpath)
          elim found [ none ↦ ok r | some ix ↦ died ]
      ]

    unfoldable pub rename_ours : CString → Cmd (World H) (Reply (Unit {0}))
    rename_ours fnewpath = do
      found ← on_meta (get_mbucket fnewpath)
      elim found [ none ↦ λ _. fault | some ix ↦ edit_mb ix modify >> answer tt ]

    unfoldable pub rename : (oldpath newpath : CString) → Cmd (World H) (Reply (Unit {0}))
    unfolding abs_path rename_host rename_ours
    rename oldpath newpath =
        if same_string oldpath newpath
        then answer tt
        else if ltb path_max (length oldpath) || ltb path_max (length newpath)
        then refuse enametoolong
        else do
          foldpath ← abs_path oldpath
          fnewpath ← abs_path newpath
          r ← on_meta (mb_chpath foldpath fnewpath)
          elim r [ failed ↦ rename_host oldpath newpath fnewpath | done ↦ rename_ours fnewpath ]

    -- The file of a path in the memory, else what the host says.
    unfoldable pub stat_path : (CString → H → Reply Stat × H) → CString → Cmd (World H) (Reply Stat)
    unfolding abs_path mb_at
    stat_path real path = if ltb path_max (length path) then refuse enametoolong else do
      fpath ← abs_path path
      found ← on_meta (get_mbucket fpath)
      elim found [ none ↦ on_host (real path) | some ix ↦ mb_at ix >>= λ mb. answer mb.s ]

    unfoldable pub xstat : CString → Cmd (World H) (Reply Stat)
    unfolding stat_path
    xstat path = stat_path os.real_stat path

    unfoldable pub lxstat : CString → Cmd (World H) (Reply Stat)
    unfolding stat_path
    lxstat path = stat_path os.real_lstat path

    unfoldable pub fxstat : (fd : ℕ) → Cmd (World H) (Reply Stat)
    unfolding by_fd mb_at
    fxstat fd =
        by_fd fd (on_host (os.real_fstat fd))
          (λ mindex. do mb ← mb_at mindex; if mb.in_use then answer mb.s else refuse efault)
