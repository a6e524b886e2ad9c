-- ===== src/File/Writing.antt =====
-- One round of `write` of system/lib/file_syscalls.c, and how a round joins the rounds behind it.
use spacefish.Prelude.{
  ℕ, ◌+◌, ◌-◌, ◌≤◌, ◌<◌, ◌≡◌, ap, ◌∙◌, ◌⊎◌, inl, inr, true, false, List, [], ◌∷◌, ◌++◌, arith, has,
  Distinct, length, take, drop, length-append, length-drop,
}
use spacefish.Config.{dbucket_buf_size}
use spacefish.Run.{Run, ok, died, stuck, fault, and_then}
use spacefish.Data.{DataMem}
use spacefish.Data.Alloc.{tot_buckets}
use spacefish.Data.Alloc.Search.{Busy}
use spacefish.File.Transfer.{Cursor}
use spacefish.File.Slices.{length-slice}
use spacefish.File.Splice.{splice, splice_across}
use spacefish.File.Content.{FileChain, more, content, bytes_of}
use spacefish.File.Reading.{At}
use spacefish.File.Ready.{Ready}

-- What a write of `bytes` at `off` of the bucket `ix`, the head of the chain `xs`, leaves: the chain,
-- maybe longer, whose content is the old one overwritten; the cursor behind the bytes; `size_ind`,
-- by how much the content has grown; and every other bucket in use as it was.
pub record Wrote (s t : DataMem) (ix off : ℕ) (bytes xs : List ℕ) (cur : Cursor) (size_ind : ℕ)
    : Type 0 where
  pub ys : List ℕ
  pub chain : FileChain t.db ix ys
  pub distinct : Distinct ys
  pub holds : content t.db ys ≡ splice off bytes (content s.db xs)
  pub grew : size_ind + length (content s.db xs) ≡ length (content t.db ys)
  pub stands : At t.db ys cur (off + length bytes)
  pub ready : Ready t
  pub kept :
      (j : ℕ) → (s.db j).in_use ≡ true → has j xs ≡ false → (t.db j ≡ s.db j) × (has j ys ≡ false)

-- Where the process ends, no bucket could be had.
abbrev pub Writes : DataMem → (ix off : ℕ) → (bytes xs : List ℕ) → Run DataMem (Cursor × ℕ) → Type 0
Writes s ix off bytes xs (ok (cur, size_ind) t) = Wrote s t ix off bytes xs cur size_ind
Writes s ix off bytes xs (died t) = (j : ℕ) → j < tot_buckets → Busy (t.db j)
Writes s ix off bytes xs stuck = ⊥
Writes s ix off bytes xs fault = ⊥

-- The round at the bucket `ix` has filled it, and the next goes on at `nx`, the head of `xs'`.
pub record GoesOn (s s' : DataMem) (ix off nx inc : ℕ) (bytes tl xs' : List ℕ) : Type 0 where
  pub less : ix < tot_buckets
  pub used : (s'.db ix).in_use ≡ true
  pub full : (s'.db ix).bytes ≡ dbucket_buf_size
  pub link : (s'.db ix).next_ix ≡ nx
  pub filled :
      bytes_of (s'.db ix) ≡ take off (bytes_of (s.db ix)) ++ take (dbucket_buf_size - off) bytes
  pub in_bucket : off ≤ (s.db ix).bytes
  pub small : (s.db ix).bytes ≤ dbucket_buf_size
  pub over : dbucket_buf_size - off ≤ length bytes
  pub apart : has ix xs' ≡ false
  pub rest : content s.db tl ≡ content s'.db xs'
  pub whole : ((s.db ix).bytes ≡ dbucket_buf_size) ⊎ (content s'.db xs' ≡ [])
  pub inc_is : inc + (s.db ix).bytes ≡ dbucket_buf_size
  pub others :
      (j : ℕ)
      → (s.db j).in_use ≡ true
      → has j (ix ∷ tl) ≡ false
      → (s'.db j ≡ s.db j) × (has j xs' ≡ false)

module _ {s s' : DataMem} {ix off nx inc : ℕ} {bytes tl xs' : List ℕ}
    (g : GoesOn s s' ix off nx inc bytes tl xs') where
  abbrev later : List ℕ
  later = drop (dbucket_buf_size - off) bytes

  module _ {t : DataMem} {cur : Cursor} {size_ind : ℕ}
      (w : Wrote s' t nx 0 later xs' cur size_ind) where
    here : t.db ix ≡ s'.db ix
    here = (w.kept ix g.used g.apart).0

    grown : inc + size_ind + length (content s.db (ix ∷ tl)) ≡ length (content t.db (ix ∷ w.ys))
    unfolding content
    grown =
        rw (here, g.rest)
          (omega (
            arith,
            g.inc_is,
            g.full,
            w.grew,
            length-append (bytes_of (s.db ix)) (content s'.db xs'),
            length-append (bytes_of (s'.db ix)) (content t.db w.ys),
            length-slice (s.db ix).buf 0 (s.db ix).bytes,
            length-slice (s'.db ix).buf 0 (s'.db ix).bytes,
          ))

    Wrote-cons : Wrote s t ix off bytes (ix ∷ tl) cur (inc + size_ind)
    unfolding content
    Wrote-cons =
        let len = length-slice (s.db ix).buf 0 (s.db ix).bytes in
        let len' = length-slice (s'.db ix).buf 0 (s'.db ix).bytes in
        record {
          ys = ix ∷ w.ys;
          chain = more g.less (rw here g.used) (rw here g.link) (rw here g.full) w.chain;
          distinct = ((w.kept ix g.used g.apart).1, w.distinct);
          holds =
              rw (here, g.filled, w.holds, g.rest)
                (splice_across dbucket_buf_size off bytes (bytes_of (s.db ix)) (content s'.db xs')
                  (omega (arith, g.in_bucket, len)) (omega (arith, g.small, len)) g.over
                  (elim g.whole [ inl e ↦ inl (omega (arith, e, len)) | inr e ↦ inr e ]));
          grew = grown;
          stands = record {
            before = ix ∷ w.stands.before;
            after = w.stands.after;
            parts = ap (λ r. ix ∷ r) w.stands.parts;
            chain = w.stands.chain;
            within = w.stands.within;
            position = rw here (
                omega (
                  arith,
                  w.stands.position,
                  g.full,
                  g.over,
                  g.in_bucket,
                  g.small,
                  len',
                  length-drop (dbucket_buf_size - off) bytes,
                  length-append (bytes_of (s'.db ix)) (content t.db w.stands.before),
                ));
          };
          ready = w.ready;
          kept = λ j used out.
              let (same, out') = g.others j used out in
              let (same', out'') = w.kept j (rw same used) out' in
              (same' ∙ same, ground (arith, out''));
        }

  pub Writes-cons :
      (r : Run DataMem (Cursor × ℕ))
      → Writes s' nx 0 later xs' r
      → Writes s ix off bytes (ix ∷ tl) (and_then r (λ (cur, size_ind). ok (cur, inc + size_ind)))
  Writes-cons (ok (cur, size_ind) t) w = Wrote-cons w
  Writes-cons (died t) busy = busy
  Writes-cons stuck h = h
  Writes-cons fault h = h
