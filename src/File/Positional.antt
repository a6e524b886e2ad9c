-- ===== src/File/Positional.antt =====
-- The loops of `pread` and `pwrite` of system/lib/file_syscalls.c: finding the bucket of an offset,
-- and going on from it.
use spacefish.Prelude.{
  ℕ, zero, suc, ◌+◌, ◌-◌, ◌/◌, ◌^◌, Option, none, some, List, [], ◌++◌, ◌==◌, leb, ltb,
  if◌then◌else◌, length, take, drop,
}
use spacefish.Config.{dbucket_buf_size, sub64, u32, no_ix}
use spacefish.Run.{ok, stuck, Cmd, ◌>>=◌, ◌>>◌, get}
use spacefish.Data.{DataBucket, DataMem}
use spacefish.Data.Steps.{get_dbucket_ptr}
use spacefish.File.Transfer.{copy_out, copy_in, grow, next_or_new}

-- rounds = offset / DBUCKET_BUF_SIZE, as an `int`: a negative number of rounds is none.
abbrev pub rounds_of : ℕ → ℕ
rounds_of offset =
    let rounds = u32 (offset / dbucket_buf_size) in if ltb rounds (2 ^ 31) then rounds else 0

-- for (i = 0; i < rounds; i++): the bucket reached, or none where the chain ends before.
unfoldable pub seek : (rounds dbindex : ℕ) → Cmd DataMem (Option ℕ)
seek zero dbindex = ok (some dbindex)
seek (suc rounds) dbindex =
    if dbindex == no_ix
    then ok none
    else do p ← get_dbucket_ptr dbindex; s ← get; seek rounds (s.db p).next_ix

-- One round of `pread` at the bucket `b`.
unfoldable pub pread_step :
    DataBucket → (off c : ℕ) → (ℕ → ℕ → Cmd DataMem (List ℕ)) → Cmd DataMem (List ℕ)
unfolding copy_out
pread_step b off c again =
    let part = sub64 b.bytes off in
    if leb c part
    then copy_out b off c
    else do bytes ← copy_out b off part; rest ← again b.next_ix (c - part); ok (bytes ++ rest)

-- while (dbindex != -1)
unfoldable pub pread_loop : (fuel dbindex off c : ℕ) → Cmd DataMem (List ℕ)
unfolding pread_step
pread_loop zero dbindex off c = if dbindex == no_ix then ok [] else λ _. stuck
pread_loop (suc fuel) dbindex off c = if dbindex == no_ix then ok [] else do
  p ← get_dbucket_ptr dbindex
  s ← get
  pread_step (s.db p) off c (λ next n. pread_loop fuel next 0 n)

-- One round of `pwrite` at the bucket `p`: the number of bytes copied from there on, and `size_ind`.
unfoldable pub pwrite_step :
    (p off : ℕ) → List ℕ → (ℕ → List ℕ → Cmd DataMem (ℕ × ℕ)) → Cmd DataMem (ℕ × ℕ)
unfolding copy_in grow next_or_new
pwrite_step p off bytes again =
    let room = sub64 dbucket_buf_size off in
    if leb (length bytes) room
    then (do
      copy_in p off bytes
      size_ind ← grow p (off + length bytes)
      ok (length bytes, size_ind))
    else do
      copy_in p off (take room bytes)
      size_ind ← grow p dbucket_buf_size
      next ← next_or_new p
      (n, more) ← again next (drop room bytes)
      ok (room + n, size_ind + more)

-- while (dbindex != -1)
unfoldable pub pwrite_loop : (fuel dbindex off : ℕ) → List ℕ → Cmd DataMem (ℕ × ℕ)
unfolding pwrite_step
pwrite_loop zero dbindex off bytes = if dbindex == no_ix then ok (0, 0) else λ _. stuck
pwrite_loop (suc fuel) dbindex off bytes = if dbindex == no_ix then ok (0, 0) else do
  p ← get_dbucket_ptr dbindex
  pwrite_step p off bytes (λ next rest. pwrite_loop fuel next 0 rest)
