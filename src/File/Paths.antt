-- ===== src/File/Paths.antt =====
-- The calls on paths of system/lib/file_syscalls.c and file_meta.c on a table that stands for a map.

use spacefish.Prelude.{ℕ, ◌<◌, ◌≤◌, ◌≡◌, Option, none, some, List, length}
use spacefish.Config.{path_max}
use spacefish.Text.{CString}
use spacefish.Hash.{hash}
use spacefish.Run.{Run, ok}
use spacefish.Meta.{Stat, MetaMem}
use spacefish.Meta.Map.{Implements, remove}
use spacefish.File.Host.{Reply, Host, World, enoent, on_host}
use spacefish.File.Calls.{bucket_of}
use spacefish.File.Names.{abs_path}

module _ {H : Type 0} (os : Host H) where
  -- A path that is short enough, and whose absolute form `fpath` has the row `row`.
  pub record Names (w : World H) (path fpath : CString) (row : ℕ) : Type 0 where
    pub given_short : length path ≤ path_max
    pub absolute : abs_path os path w ≡ ok fpath w
    pub short : length fpath < path_max
    pub row_of : hash fpath ≡ some row

  -- The result of `unlink`: 0, and the table then stands for the map without the path; or ENOENT, where
  -- the map has not the path, and nothing has changed.
  abbrev pub Unlinks :
      World H
      → (CString → Option ℕ)
      → CString
      → Option ℕ
      → Run (World H) (Reply (Unit {0}))
      → Type 0
  Unlinks w map fpath none r = r ≡ ok (record { ret = none; err = enoent }) w
  Unlinks w map fpath (some ix) r =
      (m : MetaMem) × (r ≡ ok (record { ret = some tt; err = 0 }) (record w { meta = m }))
      × ((rows : ℕ → List ℕ) × Implements m rows (remove fpath map))

  -- The result of `__xstat`: the stat of the path's bucket, or what the host says.
  abbrev pub Stats : World H → CString → Option ℕ → Run (World H) (Reply Stat) → Type 0
  Stats w path none r = r ≡ on_host (os.real_stat path) w
  Stats w path (some ix) r = r ≡ ok (record { ret = some (bucket_of w ix).s; err = 0 }) w
