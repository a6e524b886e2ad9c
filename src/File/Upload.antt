-- ===== src/File/Upload.antt =====
-- `upload_file` of system/util/util.c, and `create_new_file` of system/lib/file_syscalls.c: how a file
-- comes into the memory.
use spacefish.Prelude.{
  ℕ, zero, suc, ◌-◌, ◌/◌, ◌%◌, Option, none, some, List, ◌==◌, leb, if◌then◌else◌, update, length,
  take, drop,
}
use spacefish.Config.{path_max, dbucket_buf_size}
use spacefish.Run.{ok, fault, Cmd, ◌>>=◌, ◌>>◌}
use spacefish.Text.{CString}
use spacefish.Data.{DataBucket, DataMem}
use spacefish.Data.Steps.{get_dbucket_ptr}
use spacefish.Data.Method.{get_free_dbucket_ix}
use spacefish.Meta.{Stat}
use spacefish.Meta.Ops.{strict_create_mbucket}
use spacefish.File.Host.{
  Reply, Host, World, eexist, enospc, on_data, on_meta, on_host, mb_at, edit_mb, stamp,
}
use spacefish.File.Transfer.{copy_in}
use spacefish.File.Io.{answer, refuse, modify}

abbrev set_db : ℕ → (DataBucket → DataBucket) → Cmd DataMem (Unit {0})
set_db p f s = ok tt (record s { db = update s.db p (f (s.db p)) })

-- The bucket `p` with the bytes, from its start.
unfoldable pub fill_bucket : ℕ → List ℕ → Cmd DataMem (Unit {0})
unfolding copy_in
fill_bucket p bytes = copy_in p 0 bytes >> set_db p (λ b. record b { bytes = length bytes })

module _ {H : Type 0} where
  -- strcpy(mb->path, name), into a buffer of PATH_MAX bytes
  unfoldable pub set_path : ℕ → CString → Cmd (World H) (Unit {0})
  set_path ix name =
      if leb path_max (length name)
      then (λ _. fault)
      else edit_mb ix (λ mb. record mb { path = name })

  -- The new bucket is the file's first, or follows the bucket `prev`.
  unfoldable pub link_db : (ix : ℕ) → Option ℕ → ℕ → Cmd (World H) (Unit {0})
  link_db ix none dbindex = edit_mb ix (λ mb. record mb { first_dbucket = dbindex })
  link_db ix (some prev) dbindex = on_data (set_db prev (λ b. record b { next_ix = dbindex }))

  unfoldable pub new_db : (ix : ℕ) → Option ℕ → Cmd (World H) ℕ
  unfolding link_db
  new_db ix prev = do
    dbindex ← on_data get_free_dbucket_ix
    link_db ix prev dbindex
    on_data (get_dbucket_ptr dbindex)

  -- for (i = 0; i < rounds; i++): the last bucket.
  unfoldable pub upload_rounds : (ix rounds : ℕ) → List ℕ → Option ℕ → Cmd (World H) (Option ℕ)
  unfolding new_db fill_bucket
  upload_rounds ix zero bytes prev = ok prev
  upload_rounds ix (suc rounds) bytes prev = do
    p ← new_db ix prev
    on_data (fill_bucket p (take dbucket_buf_size bytes))
    upload_rounds ix rounds (drop dbucket_buf_size bytes) (some p)

  -- What is left after the full buckets.
  unfoldable pub upload_rest : (ix : ℕ) → List ℕ → Option ℕ → Cmd (World H) (Unit {0})
  unfolding new_db fill_bucket
  upload_rest ix bytes none w = fault
  upload_rest ix bytes (some p) w =
      if length bytes == 0
      then ok tt w
      else if (w.data_mem.db p).bytes == 0
      then on_data (fill_bucket p bytes) w
      else (new_db ix (some p) >>= λ q. on_data (fill_bucket q bytes)) w

  -- A file shorter than a bucket gets an empty bucket before.
  unfoldable pub upload_data : (ix : ℕ) → List ℕ → Cmd (World H) (Unit {0})
  unfolding new_db upload_rounds upload_rest
  upload_data ix bytes = do
    let rounds = length bytes / dbucket_buf_size
    prev ← start rounds
    p ← upload_rounds ix rounds bytes prev
    upload_rest ix (drop (length bytes - length bytes % dbucket_buf_size) bytes) p
    where
      start : ℕ → Cmd (World H) (Option ℕ)
      start zero = do
        p ← new_db ix none
        on_data (set_db p (λ b. record b { bytes = 0 }))
        ok (some p)
      start (suc n) = ok none

  unfoldable pub upload_into : Host H → (fd : ℕ) → CString → Stat → ℕ → Cmd (World H) (Reply ℕ)
  unfolding set_path upload_data
  upload_into os fd name s ix = do
    r ← on_host (os.real_read fd s.st_size)
    elim r.ret [
      | none ↦ ok (record { ret = none; err = r.err })
      | some bytes ↦
          if length bytes == s.st_size
          then (do
            c ← on_host (os.real_close fd)
            set_path ix name
            edit_mb ix (λ mb. record mb { s = s })
            upload_data ix bytes
            answer ix)
          else ok (record { ret = none; err = r.err })
    ]

  -- The metadata bucket of the file, NULL as `none`.
  unfoldable pub upload_file : Host H → CString → Cmd (World H) (Reply ℕ)
  unfolding upload_into
  upload_file os name = do
    st ← on_host (os.real_stat name)
    elim st.ret [
      | none ↦ refuse st.err
      | some s ↦ do
        o ← on_host (os.real_open name 0 0)
        elim o.ret [
          | none ↦ refuse o.err
          | some fd ↦ do
            mb ← on_meta (strict_create_mbucket name)
            elim mb [ none ↦ refuse eexist | some ix ↦ upload_into os fd name s ix ]
        ]
    ]

  unfoldable pub create_at : CString → (mode : ℕ) → ℕ → Cmd (World H) (Reply ℕ)
  unfolding mb_at set_path stamp
  create_at fpath mode ix = do
    dbindex ← on_data get_free_dbucket_ix
    mb ← mb_at ix
    set_path ix fpath
    s ←
        stamp 7 (record mb.s {
          st_mode = mode;
          st_size = 0;
          st_blocks = 1;
          st_blksize = dbucket_buf_size;
        })
    edit_mb ix (λ mb. modify (record mb { first_dbucket = dbindex; s = s }))
    answer ix

  unfoldable pub create_new_file : CString → (mode : ℕ) → Cmd (World H) (Reply ℕ)
  unfolding create_at
  create_new_file fpath mode = do
    mb ← on_meta (strict_create_mbucket fpath)
    elim mb [ none ↦ refuse enospc | some ix ↦ create_at fpath mode ix ]
