-- ===== src/Meta/Ops.antt =====
-- system/util/meta_shm.c: how a metadata bucket is created, removed and renamed.
use spacefish.Prelude.{ℕ, zero, suc, false, Option, none, some, if◌then◌else◌, take}
use spacefish.Config.{no_ix, path_max}
use spacefish.Text.{CString, same_path}
use spacefish.Lock
use spacefish.Run.{Status, done, failed, ok, stuck, Cmd, ◌>>=◌, ◌>>◌, get}
use spacefish.Meta.{
  MetaBucket, MetaMem, set_bucket, set_first, on_lock, row_of, chain_fuel, or_stuck,
  allocate_mbucket,
}

-- m->mb_arr[ix] changed by `f`
abbrev pub edit : ℕ → (MetaBucket → MetaBucket) → Cmd MetaMem (Unit {0})
edit ix f m = ok tt (set_bucket ix (f (m.mb_arr ix)) m)

-- Where the walk of the create functions ends: at the bucket with the path, or at the last one.
pub data Walked : Type 0 where
  at_match : ℕ → Walked
  at_last : ℕ → Walked

unfoldable pub walk_chain : (fuel : ℕ) → CString → ℕ → (ℕ → MetaBucket) → Option Walked
walk_chain zero str ix mb_arr = none
walk_chain (suc fuel) str ix mb_arr =
    if same_path str (mb_arr ix).path then some (at_match ix) else elim (mb_arr ix).next_ix [
      | none ↦ some (at_last ix)
      | some next ↦ walk_chain fuel str next mb_arr
    ]

-- hi->first_ix = ix, or mb->next_ix = ix where there is a bucket before
abbrev pub link_after : (row : ℕ) → Option ℕ → Option ℕ → Cmd MetaMem (Unit {0})
link_after row none ix m = ok tt (set_first row ix m)
link_after row (some prev) ix m =
    ok tt (set_bucket prev (record (m.mb_arr prev) { next_ix = ix }) m)

-- The new bucket goes behind `prev`. With no bucket left `allocate_mbucket` gives -1; the index -1
-- is then stored, and MB_PTR(-1) returned, which stands before the array.
unfoldable pub create_after : (row : ℕ) → Option ℕ → Cmd MetaMem (Option ℕ)
unfolding on_lock
create_after row prev = do
  ret_mb_ix ← allocate_mbucket
  link_after row prev ret_mb_ix
  on_lock row Lock.up_write
  ok ret_mb_ix

-- A bucket that has the path is returned.
unfoldable pub get_or_create_at : (row : ℕ) → Walked → Cmd MetaMem (Option ℕ)
unfolding create_after
get_or_create_at row (at_match ix) = on_lock row Lock.up_write >> ok (some ix)
get_or_create_at row (at_last ix) = create_after row (some ix)

unfoldable pub get_or_create_from : (row : ℕ) → CString → Option ℕ → Cmd MetaMem (Option ℕ)
unfolding create_after get_or_create_at walk_chain
get_or_create_from row str none = create_after row none
get_or_create_from row str (some first) = do
  m ← get
  walked ← or_stuck (walk_chain chain_fuel str first m.mb_arr)
  get_or_create_at row walked

unfoldable pub get_or_create_mbucket : CString → Cmd MetaMem (Option ℕ)
unfolding get_or_create_from
get_or_create_mbucket str = do
  row ← row_of str
  on_lock row Lock.down_write
  m ← get
  get_or_create_from row str (m.hash_table row).first_ix

-- A new bucket, where there is one, goes behind `prev`; else NULL is returned.
unfoldable pub link_new : (row : ℕ) → Option ℕ → Option ℕ → Cmd MetaMem (Option ℕ)
link_new row prev none = on_lock row Lock.up_write >> ok none
link_new row prev (some ix) = do
  link_after row prev (some ix)
  on_lock row Lock.up_write
  ok (some ix)

-- NULL where the path has a bucket already.
unfoldable pub strict_create_at : (row : ℕ) → Walked → Cmd MetaMem (Option ℕ)
unfolding link_new
strict_create_at row (at_match ix) = on_lock row Lock.up_write >> ok none
strict_create_at row (at_last ix) = allocate_mbucket >>= link_new row (some ix)

unfoldable pub strict_create_from : (row : ℕ) → CString → Option ℕ → Cmd MetaMem (Option ℕ)
unfolding link_new strict_create_at walk_chain
strict_create_from row str none = allocate_mbucket >>= link_new row none
strict_create_from row str (some first) = do
  m ← get
  walked ← or_stuck (walk_chain chain_fuel str first m.mb_arr)
  strict_create_at row walked

unfoldable pub strict_create_mbucket : CString → Cmd MetaMem (Option ℕ)
unfolding strict_create_from
strict_create_mbucket str = do
  row ← row_of str
  on_lock row Lock.down_write
  m ← get
  strict_create_from row str (m.hash_table row).first_ix

-- The loop of `get_mb_and_prev` at `ix_iter`, with the bucket before it: `*mb` and `*mb_prev`.
unfoldable pub prev_walk :
    (fuel : ℕ)
    → CString
    → (prev : Option ℕ) → Option ℕ
    → (ℕ → MetaBucket)
    → Option (Option ℕ × Option ℕ)
prev_walk fuel path prev none mb_arr = some (none, prev)
prev_walk zero path prev (some ix) mb_arr = none
prev_walk (suc fuel) path prev (some ix) mb_arr =
    let rest = prev_walk fuel path (some ix) (mb_arr ix).next_ix mb_arr in
    if same_path path (mb_arr ix).path then some (some ix, prev) else rest

unfoldable pub get_mb_and_prev : CString → (row : ℕ) → Cmd MetaMem (Option ℕ × Option ℕ)
unfolding prev_walk
get_mb_and_prev path row m =
    or_stuck (prev_walk chain_fuel path none (m.hash_table row).first_ix m.mb_arr) m

-- Under the bucket's own lock: what a bucket looks like once it is given back.
abbrev pub freed : MetaBucket → MetaBucket
freed b = record b {
  in_use = false;
  first_dbucket = no_ix;
  last_dbucket = no_ix;
  last_db_offset = 0;
  locked = false;
}

unfoldable pub free_bucket : ℕ → Cmd MetaMem (Unit {0})
free_bucket ix m = if (m.mb_arr ix).locked then stuck else edit ix freed m

unfoldable pub release_found : (row : ℕ) → Option ℕ × Option ℕ → Cmd MetaMem Status
unfolding free_bucket
release_found row (none, prev) = on_lock row Lock.up_write >> ok failed
release_found row (some ix, prev) = do
  m ← get
  link_after row prev (m.mb_arr ix).next_ix
  edit ix (λ b. record b { next_ix = none })
  on_lock row Lock.up_write
  free_bucket ix
  ok done

unfoldable pub release_meta_bucket : CString → Cmd MetaMem Status
unfolding get_mb_and_prev release_found
release_meta_bucket str = do
  row ← row_of str
  on_lock row Lock.down_write
  found ← get_mb_and_prev str row
  release_found row found

-- `old_ix`: the index by which the old list reaches the bucket
abbrev old_ix : (row : ℕ) → Option ℕ → MetaMem → Option ℕ
old_ix row none m = (m.hash_table row).first_ix
old_ix row (some prev) m = (m.mb_arr prev).next_ix

-- What `mb_chpath` does once both paths have been looked up. Where the old path is not there it
-- returns with both rows locked.
unfoldable pub chpath_found :
    (row_old row_new : ℕ) → CString → Option ℕ × Option ℕ → Option ℕ × Option ℕ → Cmd MetaMem Status
unfolding free_bucket
chpath_found row_old row_new newpath (none, old_prev) new = ok failed
chpath_found row_old row_new newpath (some old, old_prev) (some over, new_prev) = do
  m ← get
  edit old (λ b. record b { path = take path_max newpath })
  link_after row_old old_prev (m.mb_arr old).next_ix
  n ← get
  edit old (λ b. record b { next_ix = (n.mb_arr over).next_ix })
  link_after row_new new_prev (old_ix row_old old_prev m)
  free_bucket over
  edit over (λ b. record b { next_ix = none })
  on_lock row_new Lock.up_write
  on_lock row_old Lock.up_write
  ok done
chpath_found row_old row_new newpath (some old, old_prev) (none, new_prev) = do
  m ← get
  edit old (λ b. record b { path = take path_max newpath })
  link_after row_old old_prev (m.mb_arr old).next_ix
  edit old (λ b. record b { next_ix = none })
  link_after row_new new_prev (old_ix row_old old_prev m)
  on_lock row_new Lock.up_write
  on_lock row_old Lock.up_write
  ok done

unfoldable pub mb_chpath : CString → CString → Cmd MetaMem Status
unfolding get_mb_and_prev chpath_found
mb_chpath oldpath newpath = if same_path oldpath newpath then ok done else do
  row_old ← row_of oldpath
  row_new ← row_of newpath
  on_lock row_old Lock.down_write
  on_lock row_new Lock.down_write
  old ← get_mb_and_prev oldpath row_old
  new ← get_mb_and_prev newpath row_new
  chpath_found row_old row_new newpath old new
