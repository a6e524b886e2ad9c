-- ===== src/File/Round.antt =====
-- What one round of `write` of system/lib/file_syscalls.c does to its bucket.
use spacefish.Prelude.{
  ℕ, ◌+◌, ◌-◌, ◌≤◌, ◌<◌, ◌≡◌, refl, sym, ap, ◌∙◌, ◌⊎◌, inl, inr, fun_ext, true, false, List, [],
  ◌∷◌, ◌++◌, arith, ◌==◌, leb, ltb, if◌then◌else◌, update, Distinct, length, take, drop, Bool-cases,
  length-append, length-take, append_nil, drop_all,
}
use spacefish.Config.{dbucket_buf_size, sub64}
use spacefish.Run.{Cmd, ok, and_then}
use spacefish.Data.{DataBucket, DataMem}
use spacefish.File.Transfer.{blit, copy_in, grow, next_or_new, Cursor, write_step}
use spacefish.File.Slices.{length-slice}
use spacefish.File.Blit.{bytes-blit}
use spacefish.File.Splice.{splice, splice_within}
use spacefish.File.Content.{FileChain, content, bytes_of, content-frame}
use spacefish.File.Ready.{Ready, Ready-update}
use spacefish.File.Writing.{Wrote}

-- The bucket, written at `off`, and grown to `size` bytes.
abbrev pub new_bytes : DataBucket → ℕ → ℕ
new_bytes b size = if ltb b.bytes size then size else b.bytes

abbrev pub grown_by : DataBucket → ℕ → ℕ
grown_by b size = if ltb b.bytes size then size - b.bytes else 0

abbrev pub written : DataBucket → (off : ℕ) → List ℕ → (size : ℕ) → DataBucket
written b off bytes size = record b { buf = blit b.buf off bytes; bytes = new_bytes b size }

abbrev pub put_bucket : DataMem → ℕ → DataBucket → DataMem
put_bucket s p b = record s { db = update s.db p b }

module _ (s : DataMem) (p off : ℕ) (bytes : List ℕ) where
  copy_in-ok :
      off + length bytes ≤ dbucket_buf_size
      → copy_in p off bytes s
        ≡ ok tt (put_bucket s p (record (s.db p) { buf = blit (s.db p).buf off bytes }))
  unfolding copy_in
  copy_in-ok h = ground arith

  grow-ok :
      (size : ℕ)
      → grow p size (put_bucket s p (record (s.db p) { buf = blit (s.db p).buf off bytes }))
        ≡ ok (grown_by (s.db p) size) (put_bucket s p (written (s.db p) off bytes size))
  unfolding grow
  grow-ok size = elim (Bool-cases (ltb (s.db p).bytes size)) [
    | inl less ↦
        let there : (p == p) ≡ true = ground arith in
        rw (there, less)
          (ap (λ d. ok (size - (s.db p).bytes) (record s { db = d })) (fun_ext λ j. ground arith))
    | inr more ↦ let there : (p == p) ≡ true = ground arith in rw (there, more) refl
  ]

  module _ (again : ℕ → List ℕ → Cmd DataMem (Cursor × ℕ))
      (in_bucket : off ≤ dbucket_buf_size) where
    room-eq : sub64 dbucket_buf_size off ≡ dbucket_buf_size - off
    room-eq = omega arith

    pub step_within :
        length bytes ≤ dbucket_buf_size - off
        → write_step p p off bytes again s
          ≡ ok
              (
                record { dbindex = p; off = off + length bytes },
                grown_by (s.db p) (off + length bytes),
              )
              (put_bucket s p (written (s.db p) off bytes (off + length bytes)))
    unfolding write_step
    step_within h =
        let t : leb (length bytes) (dbucket_buf_size - off) ≡ true = ground arith in
        rw (room-eq, t, copy_in-ok (omega arith), grow-ok (off + length bytes)) refl

-- The bucket filled to its end.
abbrev pub filled_bucket : DataBucket → (off : ℕ) → List ℕ → DataBucket
filled_bucket b off bytes = written b off (take (dbucket_buf_size - off) bytes) dbucket_buf_size

pub step_across :
    (s : DataMem) (p off : ℕ) (bytes : List ℕ) (again : ℕ → List ℕ → Cmd DataMem (Cursor × ℕ))
    → off ≤ dbucket_buf_size
    → dbucket_buf_size - off < length bytes
    → write_step p p off bytes again s
      ≡ and_then (next_or_new p (put_bucket s p (filled_bucket (s.db p) off bytes))) (λ next t.
        and_then
          (again next (drop (dbucket_buf_size - off) bytes) t)
          (λ (cur, size_ind). ok (cur, grown_by (s.db p) dbucket_buf_size + size_ind)))
unfolding write_step
step_across s p off bytes again in_bucket over =
    let part = take (dbucket_buf_size - off) bytes in
    let t : leb (length bytes) (dbucket_buf_size - off) ≡ false = ground arith in
    let fits : off + length part ≤ dbucket_buf_size =
      omega (arith, length-take (dbucket_buf_size - off) bytes) in
    rw
      (
        room-eq s p off bytes again in_bucket,
        t,
        copy_in-ok s p off part fits,
        grow-ok s p off part dbucket_buf_size,
      )
      refl

-- What the bucket holds after a round.
module _ (b : DataBucket) (off : ℕ) (bytes : List ℕ) (h : off ≤ b.bytes)
    (small : b.bytes ≤ dbucket_buf_size) where
  pub bytes_of-written :
      bytes_of (written b off bytes (off + length bytes)) ≡ splice off bytes (bytes_of b)
  bytes_of-written =
      bytes-blit b.buf off b.bytes (new_bytes b (off + length bytes)) bytes h
        (elim (Bool-cases (ltb b.bytes (off + length bytes))) [
          | inl less ↦ inl (ground arith, ground arith)
          | inr more ↦ inr (ground arith, ground arith)
        ])

  pub filled-full : (filled_bucket b off bytes).bytes ≡ dbucket_buf_size
  filled-full = ground arith

  pub bytes_of-filled :
      dbucket_buf_size - off ≤ length bytes
      → bytes_of (filled_bucket b off bytes)
        ≡ take off (bytes_of b) ++ take (dbucket_buf_size - off) bytes
  bytes_of-filled over =
      let part = take (dbucket_buf_size - off) bytes in
      let len : off + length part ≡ dbucket_buf_size =
        omega (arith, length-take (dbucket_buf_size - off) bytes) in
      let gone : drop (off + length part) (bytes_of b) ≡ [] =
        drop_all (off + length part) (bytes_of b) (omega (arith, length-slice b.buf 0 b.bytes)) in
      bytes-blit b.buf off b.bytes (new_bytes b dbucket_buf_size) part h
        (inl (omega arith, filled-full ∙ sym len))
      ∙ rw (gone, append_nil) refl

-- A round that ends the loop.
pub within-Wrote :
    {s : DataMem} {ix off : ℕ} {bytes tl : List ℕ}
    → FileChain (put_bucket s ix (written (s.db ix) off bytes (off + length bytes))).db ix (ix ∷ tl)
    → Distinct (ix ∷ tl)
    → Ready s
    → (s.db ix).in_use ≡ true
    → off ≤ (s.db ix).bytes
    → (s.db ix).bytes ≤ dbucket_buf_size
    → length bytes ≤ dbucket_buf_size - off
    → ((s.db ix).bytes ≡ dbucket_buf_size) ⊎ (content s.db tl ≡ [])
    → Wrote s
        (put_bucket s ix (written (s.db ix) off bytes (off + length bytes)))
        ix
        off
        bytes
        (ix ∷ tl)
        (record { dbindex = ix; off = off + length bytes })
        (grown_by (s.db ix) (off + length bytes))
unfolding content
within-Wrote {s} {ix} {off} {bytes} {tl} chain (out, d) r used h small fits whole =
    let b = s.db ix in
    let b' = written b off bytes (off + length bytes) in
    let db' = update s.db ix b' in
    let here : db' ix ≡ b' = ground arith in
    let tail : content db' tl ≡ content s.db tl =
      content-frame {db = s.db} {db' = db'} tl (λ j i. ground arith) in
    let len = length-slice b.buf 0 b.bytes in
    let len' = length-slice b'.buf 0 b'.bytes in
    let before : length (content s.db (ix ∷ tl)) ≡ length (bytes_of b) + length (content s.db tl) =
      length-append (bytes_of b) (content s.db tl) in
    let growth : grown_by b (off + length bytes) + b.bytes ≡ b'.bytes = ground arith in
    record {
      ys = ix ∷ tl;
      chain = chain;
      distinct = (out, d);
      holds =
          rw (here, tail, bytes_of-written b off bytes h small)
            (elim whole [
              | inl full ↦
                  sym (splice_within off bytes (bytes_of b) (content s.db tl) (omega (arith, len)))
              | inr end ↦
                  rw (end, append_nil (splice off bytes (bytes_of b)), append_nil (bytes_of b)) refl
            ]);
      grew =
          rw (here, tail)
            (omega (
              arith,
              len,
              len',
              length-append (bytes_of b) (content s.db tl),
              length-append (bytes_of b') (content s.db tl),
            ));
      stands = record {
        before = [];
        after = ix ∷ tl;
        parts = refl;
        chain = chain;
        within = rw here (ground arith);
        position = omega arith;
      };
      ready = Ready-update ix b' r used;
      kept = λ j u o. (ground arith, o);
    }
