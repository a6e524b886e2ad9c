-- ===== src/File/Opening.antt =====
-- `open` of system/lib/file_syscalls.c where it makes a new file.
use spacefish.Prelude.{
  ℕ, ◌≤◌, ◌<◌, ◌≡◌, ◌⊎◌, true, false, Option, none, some, List, [], ◌∷◌, update,
}
use spacefish.Config.{first_user_fd, max_num_fd}
use spacefish.Text.{CString}
use spacefish.Path.{exclusive_path}
use spacefish.Run.{Run, ok, died, stuck, fault}
use spacefish.Data.Alloc.{tot_buckets}
use spacefish.Data.Alloc.Search.{Busy}
use spacefish.Fd.{FdTable}
use spacefish.Meta.{set_bucket}
use spacefish.Meta.Allocate.{Full}
use spacefish.Meta.Map.{Implements, insert}
use spacefish.File.Host.{Reply, Host, World, enospc, has_bit}
use spacefish.File.Content.{content}
use spacefish.File.Ready.{Ready}
use spacefish.File.Calls.{Opened, bucket_of}
use spacefish.File.Names.{o_creat, o_append, o_trunc_check}
use spacefish.File.Paths.{Names}

-- A free descriptor of the library is not the host's.
abbrev pub OwnFree : FdTable → Type 0
OwnFree fds =
    (fd : ℕ)
    → first_user_fd ≤ fd
    → fd < max_num_fd
    → (fds fd).empty ≡ true
    → (fds fd).exclusive ≡ false

module _ {H : Type 0} where
  -- A new, empty file is open on the lowest free descriptor of the library, and the table stands for the
  -- map with the path; or ENOSPC. Where the process ends no data bucket can be had, and a fault says
  -- that no descriptor is free.
  abbrev pub Opens : World H → (CString → Option ℕ) → CString → Run (World H) (Reply ℕ) → Type 0
  Opens w map fpath (ok r w') =
      ((fd : ℕ) × ((ix : ℕ) × ((db : ℕ) × (r ≡ record { ret = some fd; err = 0 })
            × (first_user_fd ≤ fd)
            × ((j : ℕ) → first_user_fd ≤ j → j < fd → (w.fds j).empty ≡ false)
            × ((rows : ℕ → List ℕ) × Implements w'.meta rows (insert fpath ix map))
            × Opened w' fd ix (db ∷ []) 0
            × (content w'.data_mem.db (db ∷ []) ≡ [])
            × Ready w'.data_mem)))
      ⊎ ((r ≡ record { ret = none; err = enospc })
          × Full w.meta
          × ((rows : ℕ → List ℕ) × Implements w'.meta rows map))
  Opens w map fpath (died w') = (j : ℕ) → j < tot_buckets → Busy (w'.data_mem.db j)
  Opens w map fpath stuck = ⊥
  Opens w map fpath fault = (j : ℕ) → first_user_fd ≤ j → j < max_num_fd → (w.fds j).empty ≡ false

  -- The file is put at its start.
  abbrev started : World H → ℕ → World H
  started u ix = record u {
    meta =
        set_bucket ix
          (record (bucket_of u ix) {
            last_dbucket = (bucket_of u ix).first_dbucket;
            last_db_offset = 0;
          })
          u.meta;
  }

  -- A descriptor is taken.
  abbrev on_fd : World H → (ix fd : ℕ) → FdTable → World H
  on_fd u ix fd t = record (started u ix) { fds = update t fd (record (t fd) { mindex = ix }) }

  abbrev first_of : World H → ℕ → ℕ
  first_of u ix = (bucket_of u ix).first_dbucket

  module _ (os : Host H) where
    -- A call that makes a file where there is none: with O_CREAT, and either with O_TRUNC for writing, or
    -- where the host has not the file.
    pub record Creating (w : World H) (path : CString) (flags : ℕ) : Type 0 where
      pub ours : exclusive_path path ≡ false
      pub creat : has_bit flags o_creat ≡ true
      pub no_append : has_bit flags o_append ≡ false
      pub missing : (o_trunc_check flags ≡ true) ⊎ ((os.real_stat path w.host).0.ret ≡ none)
