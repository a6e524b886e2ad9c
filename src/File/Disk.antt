-- ===== src/File/Disk.antt =====
-- system/util/util.c: taking a directory in from the disk (`upload_dir`), and writing files back
-- (`write_to_disk`, `flush_write`), as it is built with WRITE_TO_DISK.
use spacefish.Prelude.{
  ℕ, zero, suc, ◌+◌, ◌-◌, ◌/◌, ◌%◌, Bool, true, false, ◌||◌, Option, none, some, List, [], ◌∷◌,
  ◌++◌, leb, if◌then◌else◌, length, take, bit_or,
}
use spacefish.Config.{path_max, meta_buckets, dbucket_buf_size}
use spacefish.Run.{ok, stuck, fault, Cmd, ◌>>=◌, ◌>>◌, get}
use spacefish.Text.{CString, same_string}
use spacefish.Data.{DataMem}
use spacefish.Data.Steps.{get_dbucket_ptr}
use spacefish.Meta.{MetaBucket}
use spacefish.File.Host.{Host, World, on_data, on_host, mb_at}
use spacefish.File.Transfer.{slice, blit}
use spacefish.File.Names.{o_rdwr, o_creat, o_trunc, abs_path}
use spacefish.File.Upload.{upload_file}

-- while (pos < META_BUCKETS), over `k` positions from `pos`
unfoldable pub in_use_from : (k pos : ℕ) → (ℕ → MetaBucket) → Option ℕ
in_use_from zero pos mb_arr = none
in_use_from (suc k) pos mb_arr =
    let rest = in_use_from k (pos + 1) mb_arr in if (mb_arr pos).in_use then some pos else rest

-- The first bucket in use behind `mb`, or of all; NULL is `none`.
unfoldable pub traverse_next_bucket : Option ℕ → (ℕ → MetaBucket) → Option ℕ
unfolding in_use_from
traverse_next_bucket none mb_arr = in_use_from meta_buckets 0 mb_arr
traverse_next_bucket (some mb) mb_arr = in_use_from (meta_buckets - (mb + 1)) (mb + 1) mb_arr

-- for (i = 0; i < rounds; i++): full buckets into `buf` from `at`; the index behind them.
unfoldable pub save_rounds : (rounds dbindex at : ℕ) → (ℕ → ℕ) → Cmd DataMem ((ℕ → ℕ) × ℕ)
save_rounds zero dbindex at buf = ok (buf, dbindex)
save_rounds (suc rounds) dbindex at buf = do
  p ← get_dbucket_ptr dbindex
  s ← get
  save_rounds rounds (s.db p).next_ix (at + dbucket_buf_size)
      (blit buf at (slice (s.db p).buf 0 dbucket_buf_size))

-- if (off > 0): the bytes behind the full buckets go to the start of `buf`.
unfoldable pub save_rest : (off dbindex : ℕ) → (ℕ → ℕ) → Cmd DataMem (ℕ → ℕ)
save_rest zero dbindex buf = ok buf
save_rest (suc n) dbindex buf = do
  p ← get_dbucket_ptr dbindex
  s ← get
  ok (blit buf 0 (slice (s.db p).buf 0 (suc n)))

-- `block` is what `malloc` gives: bytes that nobody has set.
unfoldable pub save_data : (size first : ℕ) → (block : ℕ → ℕ) → Cmd DataMem (List ℕ)
unfolding save_rounds save_rest
save_data size first block = do
  (buf, dbindex) ← save_rounds (size / dbucket_buf_size) first 0 block
  buf ← save_rest (size % dbucket_buf_size) dbindex buf
  ok (slice buf 0 size)

-- O_RDWR | O_CREAT | O_TRUNC
abbrev pub save_flags : ℕ
save_flags = bit_or o_rdwr (bit_or o_creat o_trunc)

module _ {H : Type 0} (os : Host H) where
  -- No result is looked at; on the descriptor -1 `real_write` and `real_close` do nothing.
  unfoldable pub save_file : CString → (mode : ℕ) → List ℕ → Cmd (World H) (Unit {0})
  save_file path mode bytes = do
    o ← on_host (os.real_open path save_flags mode)
    elim o.ret [
      | none ↦ ok tt
      | some fd ↦ do n ← on_host (os.real_write fd bytes); c ← on_host (os.real_close fd); ok tt
    ]

  unfoldable pub write_to_disk : (block : ℕ → ℕ) → ℕ → Cmd (World H) (Unit {0})
  unfolding mb_at save_data save_file
  write_to_disk block ix = do
    mb ← mb_at ix
    bytes ← on_data (save_data mb.s.st_size mb.first_dbucket block)
    save_file mb.path mb.s.st_mode bytes

  -- The buckets from `mb` on, one round for each.
  unfoldable pub flush_from : (fuel : ℕ) → (block : ℕ → ℕ) → Option ℕ → Cmd (World H) (Unit {0})
  unfolding write_to_disk
  flush_from fuel block none = ok tt
  flush_from zero block (some mb) = λ _. stuck
  flush_from (suc fuel) block (some mb) = do
    w ← get
    if (w.meta.mb_arr mb).consisent then ok tt else write_to_disk block mb
    v ← get
    flush_from fuel block (traverse_next_bucket (some mb) v.meta.mb_arr)

  -- One round for each metadata bucket.
  unfoldable pub flush_write : (block : ℕ → ℕ) → Cmd (World H) (Unit {0})
  unfolding flush_from traverse_next_bucket
  flush_write block = do
    w ← get
    flush_from meta_buckets block (traverse_next_bucket none w.meta.mb_arr)

  -- snprintf(path, PATH_MAX - 1, "%s/%s", name, entry->d_name); path[len] = 0;
  unfoldable pub entry_path : (name d_name : CString) → Cmd (World H) CString
  entry_path name d_name w =
      let path = name ++ (b'/' ∷ d_name) in
      if leb path_max (length path) then fault else ok (take (path_max - 2) path) w

  -- One entry of the directory `name`; `descend` takes a directory in.
  unfoldable pub upload_entry :
      (CString → Cmd (World H) (Unit {0}))
      → (name : CString) → CString × Bool
      → Cmd (World H) (Unit {0})
  unfolding entry_path upload_file abs_path
  upload_entry descend name (d_name, true) = do
    path ← entry_path name d_name
    if same_string d_name (b'.' ∷ []) || same_string d_name (b'.' ∷ b'.' ∷ [])
        then ok tt
        else descend path
  upload_entry descend name (d_name, false) = do
    path ← entry_path name d_name
    fpath ← abs_path os path
    r ← upload_file os fpath
    ok tt

  unfoldable pub upload_entries :
      (CString → Cmd (World H) (Unit {0}))
      → (name : CString) → List (CString × Bool)
      → Cmd (World H) (Unit {0})
  unfolding upload_entry
  upload_entries descend name [] = ok tt
  upload_entries descend name (e ∷ es) =
      upload_entry descend name e >> upload_entries descend name es

  -- `depth` bounds how deep directories lie in each other.
  unfoldable pub upload_dir : (depth : ℕ) → CString → Cmd (World H) (Unit {0})
  unfolding upload_entries
  upload_dir zero name = λ _. stuck
  upload_dir (suc depth) name = do
    entries ← on_host (os.read_dir name)
    elim entries [ none ↦ ok tt | some es ↦ upload_entries (upload_dir depth) name es ]
