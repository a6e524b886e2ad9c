-- ===== src/File/Calls/Roundtrip.antt =====
-- `write` and then `pread` of system/lib/file_syscalls.c on the same file.
use spacefish.Prelude.{
  ℕ, ◌+◌, ◌≤◌, ◌<◌, ◌≡◌, ap, ◌∙◌, some, List, [], ◌∷◌, ◌++◌, arith, length, take, drop,
  length-append, length-take, take_all, take-append_le, drop-append_ge,
}
use spacefish.Config.{no_ix}
use spacefish.Run.{Run, ok, died, stuck, fault}
use spacefish.Data.{DataBucket}
use spacefish.Data.Alloc.{tot_buckets}
use spacefish.Data.Alloc.Search.{Busy}
use spacefish.File.Host.{Reply, Host, World}
use spacefish.File.Io.{cached, write, pread}
use spacefish.File.Content.{FileChain, last, more, bytes_of, content}
use spacefish.File.Slices.{length-slice}
use spacefish.File.Reading.{At, content-append}
use spacefish.File.Ready.{Ready}
use spacefish.File.Transfer.{Cursor}
use spacefish.File.Splice.{splice}
use spacefish.File.Calls.{Opened}
use spacefish.File.Calls.Write.{Overwrites, write-Overwrites}
use spacefish.File.Calls.Pread.{pread-reads}

-- The first bucket's bytes are part of the content.
first-content :
    {db : ℕ → DataBucket} {ix : ℕ} {xs : List ℕ}
    → FileChain db ix xs
    → (db ix).bytes ≤ length (content db xs)
unfolding content
first-content {db} {ix} (last h u n b) =
    omega (arith, length-append (bytes_of (db ix)) [], length-slice (db ix).buf 0 (db ix).bytes)
first-content {db} {ix} (more {xs = xs} h u n b c) = omega (
  arith,
  length-append (bytes_of (db ix)) (content db xs),
  length-slice (db ix).buf 0 (db ix).bytes,
)

At-within :
    {db : ℕ → DataBucket} {xs : List ℕ} {cur : Cursor} {pos : ℕ}
    → At db xs cur pos
    → pos ≤ length (content db xs)
At-within {db} {xs} at =
    let size : length (content db xs)
        ≡ length (content db at.before) + length (content db at.after) =
      ap (λ ys. length (content db ys)) at.parts
      ∙ ap length (content-append db at.before at.after)
      ∙ length-append (content db at.before) (content db at.after) in
    omega (arith, size, first-content at.chain, at.within, at.position)

module _ (pos : ℕ) (bytes old : List ℕ) (h : pos ≤ length old) where
  abbrev behind : List ℕ
  behind = drop (pos + length bytes) old

  length-head : length (take pos old) ≡ pos
  length-head = length-take pos old ∙ omega arith

  -- What has been written over a list is there.
  splice-read : take (length bytes) (drop pos (splice pos bytes old)) ≡ bytes
  splice-read =
      let skip : drop pos (splice pos bytes old) ≡ bytes ++ behind =
        drop-append_ge (bytes ++ behind) pos (take pos old) (omega (arith, length-head))
        ∙ ap (λ k. drop k (bytes ++ behind)) {y = 0} (omega (arith, length-head)) in
      rw (skip, take-append_le behind (length bytes) bytes (omega arith))
        (take_all (length bytes) bytes (omega arith))

  splice-longer : pos + length bytes ≤ length (splice pos bytes old)
  splice-longer = omega (
    arith,
    length-head,
    length-append (take pos old) (bytes ++ behind),
    length-append bytes behind,
  )

module _ {H : Type 0} (os : Host H) where
  -- A write whose bytes are then read.
  abbrev pub ReadsBack : (fd pos : ℕ) → List ℕ → Run (World H) (Reply ℕ) → Type 0
  ReadsBack fd pos bytes (ok r w') =
      (w'' : World H) × (pread os fd (length bytes) pos w'
        ≡ ok (record { ret = some bytes; err = 0 }) w'')
  ReadsBack fd pos bytes (died w') = (j : ℕ) → j < tot_buckets → Busy (w'.data_mem.db j)
  ReadsBack fd pos bytes stuck = ⊥
  ReadsBack fd pos bytes fault = ⊥

  module _ {w : World H} {fd ix : ℕ} {xs : List ℕ} {pos : ℕ} (o : Opened w fd ix xs pos)
      (ready : Ready w.data_mem) (new : cached (w.fds fd) pos ≡ no_ix) (b : ℕ) (bs : List ℕ) where
    Overwrites-ReadsBack :
        (r : Run (World H) (Reply ℕ))
        → Overwrites w fd ix xs pos (b ∷ bs) r
        → ReadsBack fd pos (b ∷ bs) r
    Overwrites-ReadsBack (ok r w') (ys, is, o', holds, ready', mapping) =
        let old = content w.data_mem.db xs in
        let within : pos ≤ length old = At-within o.stands in
        let inside : pos < length (content w'.data_mem.db ys) =
          rw holds (omega (arith, splice-longer pos (b ∷ bs) old within)) in
        let new' : cached (w'.fds fd) pos ≡ no_ix = rw mapping new in
        let (w'', reads, o'', same) =
          pread-reads os o' ready'.mapped (length (b ∷ bs)) pos inside new' in
        (
          w'',
          reads
              ∙ ap (λ c. ok (record { ret = some c; err = 0 }) w'')
                  (rw holds (splice-read pos (b ∷ bs) old within)),
        )
    Overwrites-ReadsBack (died w') busy = busy
    Overwrites-ReadsBack stuck x = x
    Overwrites-ReadsBack fault x = x

    -- On an open file all of whose data buckets, the last aside, are full, and that stands at a
    -- position that its descriptor has not cached, the memory `Ready`: after a `write` of one byte or more, `pread` of as many bytes at that position returns
    -- the bytes that were written; the process ends only where no data bucket can be had.
    pub write-pread : ReadsBack fd pos (b ∷ bs) (write os fd (b ∷ bs) w)
    write-pread = Overwrites-ReadsBack (write os fd (b ∷ bs) w) (write-Overwrites os o ready b bs)
