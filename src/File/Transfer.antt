-- ===== src/File/Transfer.antt =====
-- The loops of `read`, `write`, `pread` and `pwrite` of system/lib/file_syscalls.c, which move bytes
-- between the caller's buffer and a chain of data buckets.
use spacefish.Prelude.{
  ℕ, zero, suc, ◌+◌, ◌-◌, Bool, true, false, List, [], ◌∷◌, ◌++◌, ◌==◌, leb, ltb, if◌then◌else◌,
  update, length, take, drop,
}
use spacefish.Config.{dbucket_buf_size, sub64, no_ix}
use spacefish.Run.{ok, stuck, fault, Cmd, ◌>>=◌, ◌>>◌, get}
use spacefish.Data.{DataBucket, DataMem}
use spacefish.Data.Alloc.{tot_buckets}
use spacefish.Data.Steps.{get_dbucket_ptr}
use spacefish.Data.Method.{get_free_dbucket_ix}

-- `n` bytes of `buf` from `off`.
unfoldable pub slice : (ℕ → ℕ) → (off n : ℕ) → List ℕ
slice buf off zero = []
slice buf off (suc n) = buf off ∷ slice buf (off + 1) n

-- `buf` with the bytes written from `off`.
unfoldable pub blit : (ℕ → ℕ) → ℕ → List ℕ → ℕ → ℕ
blit buf off [] = buf
blit buf off (c ∷ cs) = blit (update buf off c) (off + 1) cs

-- memcpy(buf + n, db->buf + off, c)
unfoldable pub copy_out : DataBucket → (off c : ℕ) → Cmd DataMem (List ℕ)
copy_out b off c s = if ltb dbucket_buf_size (off + c) then fault else ok (slice b.buf off c) s

-- memcpy(db->buf + off, buf + n, c)
unfoldable pub copy_in : (p off : ℕ) → List ℕ → Cmd DataMem (Unit {0})
copy_in p off bytes s =
    if ltb dbucket_buf_size (off + length bytes)
    then fault
    else ok tt
        (record s { db = update s.db p (record (s.db p) { buf = blit (s.db p).buf off bytes }) })

-- Where a loop stops: the index of the bucket and the offset in it.
pub record Cursor : Type 0 where
  pub dbindex : ℕ
  pub off : ℕ

-- What follows the last bytes of a bucket: the next bucket, where there is one.
unfoldable pub read_on :
    (dbindex bytes next : ℕ) → Bool → Cmd DataMem (List ℕ × Cursor) → Cmd DataMem (List ℕ × Cursor)
read_on dbindex bytes next true again = ok ([], record { dbindex = dbindex; off = bytes })
read_on dbindex bytes next false again = again

-- One round at the bucket `b`, of index `dbindex`; `again` is the rest of the loop.
unfoldable pub read_step :
    DataBucket
    → (dbindex off c : ℕ) → (ℕ → ℕ → ℕ → Cmd DataMem (List ℕ × Cursor))
    → Cmd DataMem (List ℕ × Cursor)
unfolding copy_out read_on
read_step b dbindex off c again =
    let part = sub64 b.bytes off in
    if leb c part
    then (do bytes ← copy_out b off c; ok (bytes, record { dbindex = dbindex; off = off + c }))
    else do
      bytes ← copy_out b off part
      (rest, cur) ←
          read_on dbindex b.bytes b.next_ix (b.next_ix == no_ix) (again b.next_ix 0 (c - part))
      ok (bytes ++ rest, cur)

-- More than the number of buckets, so more than a chain without a repetition has.
abbrev pub data_fuel : ℕ
data_fuel = tot_buckets + 1

-- The loop of `read`: the bytes copied, and where it stops.
unfoldable pub read_loop : (fuel dbindex off c : ℕ) → Cmd DataMem (List ℕ × Cursor)
unfolding read_step
read_loop zero dbindex off c = λ _. stuck
read_loop (suc fuel) dbindex off c = do
  p ← get_dbucket_ptr dbindex
  s ← get
  read_step (s.db p) dbindex off c (λ d o n. read_loop fuel d o n)

-- if (size > db->bytes) { size_ind += size - db->bytes; db->bytes = size; }
unfoldable pub grow : (p size : ℕ) → Cmd DataMem ℕ
grow p size s =
    if ltb (s.db p).bytes size
    then ok (size - (s.db p).bytes)
        (record s { db = update s.db p (record (s.db p) { bytes = size }) })
    else ok 0 s

-- The next bucket; at the end of the chain a new one, which is linked in.
unfoldable pub next_or_new : ℕ → Cmd DataMem ℕ
next_or_new p s =
    if (s.db p).next_ix == no_ix
    then (get_free_dbucket_ix >>= λ dbindex t.
          ok dbindex (record t { db = update t.db p (record (t.db p) { next_ix = dbindex }) }))
        s
    else ok (s.db p).next_ix s

-- One round of `write` at the bucket `p` of index `dbindex`: where the loop stops, and
-- `size_ind`.
unfoldable pub write_step :
    (p dbindex off : ℕ)
    → List ℕ
    → (ℕ → List ℕ → Cmd DataMem (Cursor × ℕ))
    → Cmd DataMem (Cursor × ℕ)
unfolding copy_in grow next_or_new
write_step p dbindex off bytes again =
    let room = sub64 dbucket_buf_size off in
    if leb (length bytes) room
    then (do
      copy_in p off bytes
      size_ind ← grow p (off + length bytes)
      ok (record { dbindex = dbindex; off = off + length bytes }, size_ind))
    else do
      copy_in p off (take room bytes)
      size_ind ← grow p dbucket_buf_size
      next ← next_or_new p
      (cur, more) ← again next (drop room bytes)
      ok (cur, size_ind + more)

-- One round for each bucket of the chain, and one for each byte and more behind it.
abbrev pub write_fuel : List ℕ → ℕ
write_fuel bytes = data_fuel + length bytes + dbucket_buf_size

-- The loop of `write`.
unfoldable pub write_loop : (fuel dbindex off : ℕ) → List ℕ → Cmd DataMem (Cursor × ℕ)
unfolding write_step
write_loop zero dbindex off bytes = λ _. stuck
write_loop (suc fuel) dbindex off bytes = do
  p ← get_dbucket_ptr dbindex
  write_step p dbindex off bytes (λ next rest. write_loop fuel next 0 rest)
