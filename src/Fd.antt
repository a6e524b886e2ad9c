-- ===== src/Fd.antt =====
-- The table of file descriptors of a process: system/util/fd.c and system/include/fd.h.
pub mod Slots
use spacefish.Prelude.{
  ℕ, zero, suc, ◌+◌, ◌-◌, Bool, true, false, Option, none, some, leb, ltb, if◌then◌else◌, update,
}
use spacefish.Config.{first_user_fd, max_num_fd, no_ix}
use spacefish.Run.{ok, fault, Cmd}
use spacefish.Meta.{Stat}

-- An offset and the data bucket that holds it; -1 as an offset, for nothing cached, is `none`.
pub record OffDbMappingItem : Type 0 where
  pub offset : Option ℕ
  pub dbindex : ℕ

-- OFFSET_PROCESS_CACHE_SIZE is 1: the cache is one item, and `off_db_ptr` always 0.
pub record FdInfo : Type 0 where
  pub mindex : ℕ
  pub flags : ℕ
  pub priv_s : Stat
  pub stamp_type : ℕ
  pub off_db_mapping : OffDbMappingItem
  pub exclusive : Bool
  pub empty : Bool

abbrev pub FdTable : Type 0
FdTable = ℕ → FdInfo

-- off_db_mapping[j].offset = -1
abbrev pub forget : OffDbMappingItem → OffDbMappingItem
forget m = record m { offset = none }

-- The three loops, entry by entry.
unfoldable pub init_fd_table : FdTable → FdTable
init_fd_table fdTable i =
    let d = record (fdTable i) {
      mindex = no_ix;
      stamp_type = 0;
      off_db_mapping = forget (fdTable i).off_db_mapping;
    } in
    if ltb i 3
    then record d { exclusive = true; empty = false }
    else if ltb i first_user_fd
    then record d { exclusive = true; empty = true }
    else if ltb i max_num_fd
    then record d { flags = 0; exclusive = false; empty = true }
    else fdTable i

-- The loop over `k` entries from `i`. The table ends at MAX_NUM_FD.
unfoldable pub empty_from : (k i : ℕ) → Cmd FdTable (Option ℕ)
empty_from zero i fdTable = ok none fdTable
empty_from (suc k) i fdTable =
    let rest = empty_from k (i + 1) in
    if leb max_num_fd i
    then fault
    else if (fdTable i).empty
    then ok (some i) (update fdTable i (record (fdTable i) { empty = false }))
    else rest fdTable

-- The bound `to` is included; -1 is `none`.
unfoldable pub get_empty_fd : (from to : ℕ) → Cmd FdTable (Option ℕ)
unfolding empty_from
get_empty_fd from to = empty_from (to + 1 - from) from

unfoldable pub reset_fd : ℕ → Cmd FdTable (Unit {0})
reset_fd fd fdTable =
    if leb max_num_fd fd
    then fault
    else ok tt (
        update fdTable fd (record (fdTable fd) {
          mindex = no_ix;
          flags = 0;
          stamp_type = 0;
          exclusive = false;
          empty = true;
          off_db_mapping = forget (fdTable fd).off_db_mapping;
        }))
