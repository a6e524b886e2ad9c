-- ===== src/File/Overwrite.antt =====
-- The loop of `write` of system/lib/file_syscalls.c, from any position of a file.
use spacefish.Prelude.{
  ℕ, ◌+◌, ◌≤◌, ◌≡◌, refl, sym, ap, ◌∙◌, inl, inr, true, false, List, [], ◌∷◌, ◌++◌, arith, has,
  Distinct, length, length-append, length-le_of_Distinct,
}
use spacefish.Config.{dbucket_buf_size}
use spacefish.Run.{Run, ok, died, stuck, fault}
use spacefish.Data.{DataBucket, DataMem}
use spacefish.Data.Alloc.{tot_buckets}
use spacefish.File.Transfer.{Cursor, write_loop, write_fuel}
use spacefish.File.Slices.{length-slice}
use spacefish.File.Splice.{splice_past}
use spacefish.File.Content.{
  FileChain, last, more, content, bytes_of, FileChain-in_range, FileChain-AllBelow,
  FileChain-Begins, FileChain-cases,
}
use spacefish.File.Reading.{At}
use spacefish.File.Ready.{Ready}
use spacefish.File.Writing.{Wrote, Writes}
use spacefish.File.WriteLoop.{write_loop-Writes}

-- A write behind a full bucket is a write on the chain that begins with it.
Wrote-behind :
    {s t : DataMem} {x next pos size_ind : ℕ} {bytes tl : List ℕ} {cur : Cursor}
    → FileChain s.db x (x ∷ tl)
    → (s.db x).next_ix ≡ next
    → (s.db x).bytes ≡ dbucket_buf_size
    → has x tl ≡ false
    → (s.db x).in_use ≡ true
    → Wrote s t next pos bytes tl cur size_ind
    → Wrote s t x (dbucket_buf_size + pos) bytes (x ∷ tl) cur size_ind
unfolding content
Wrote-behind {s} {t} {x} {next} {pos} {size_ind} {bytes} {tl} chain link full out used w =
    let (here, out') = w.kept x used out in
    let len = length-slice (s.db x).buf 0 (s.db x).bytes in
    let size : dbucket_buf_size ≡ length (bytes_of (s.db x)) = omega (arith, len, full) in
    let before : length (content s.db (x ∷ tl))
        ≡ length (bytes_of (s.db x)) + length (content s.db tl) =
      length-append (bytes_of (s.db x)) (content s.db tl) in
    record {
      ys = x ∷ w.ys;
      chain = more (FileChain-in_range chain) (rw here used) (rw here link) (rw here full) w.chain;
      distinct = (out', w.distinct);
      holds =
          rw (here, w.holds, size)
            (sym (splice_past pos bytes (bytes_of (s.db x)) (content s.db tl)));
      grew =
          rw here
            (omega (arith, w.grew, before, length-append (bytes_of (s.db x)) (content t.db w.ys)));
      stands = record {
        before = x ∷ w.stands.before;
        after = w.stands.after;
        parts = ap (λ r. x ∷ r) w.stands.parts;
        chain = w.stands.chain;
        within = w.stands.within;
        position = rw here (
            omega (
              arith,
              size,
              w.stands.position,
              length-append (bytes_of (s.db x)) (content t.db w.stands.before),
            ));
      };
      ready = w.ready;
      kept = λ j u o. let (same, o') = w.kept j u (ground arith) in (same, ground arith);
    }

-- Buckets before the cursor.
Wrote-before :
    {s t : DataMem} {ix off size_ind : ℕ} {bytes after : List ℕ} {cur : Cursor} {first : ℕ}
    (before : List ℕ)
    → FileChain s.db first (before ++ after)
    → FileChain s.db ix after
    → Distinct (before ++ after)
    → Wrote s t ix off bytes after cur size_ind
    → Wrote s t first (length (content s.db before) + off) bytes (before ++ after) cur size_ind
unfolding content
Wrote-before {after = []} before chain tail d w = absurd (FileChain-Begins tail)
Wrote-before {ix} {off} {after = a ∷ bs} {first} [] chain tail d w =
    let same : first ≡ ix = FileChain-Begins chain ∙ sym (FileChain-Begins tail) in
    let none_before : 0 + off ≡ off = omega arith in rw (same, none_before) w
Wrote-before {s} {t} {off} {after = a ∷ bs} {first} (x ∷ xs) chain tail (out, d) w =
    elim (FileChain-cases chain) [
      | inl none_left ↦ absurd (omega (arith, ap length none_left, length-append xs (a ∷ bs)))
      | inr (used, full, rest) ↦
          let same : first ≡ x = FileChain-Begins chain in
          let behind =
            Wrote-behind (rw same at chain) refl full out used (Wrote-before xs rest tail d w) in
          let pos : length (content s.db (x ∷ xs)) + off
              ≡ dbucket_buf_size + (length (content s.db xs) + off) =
            omega (
              arith,
              full,
              length-append (bytes_of (s.db x)) (content s.db xs),
              length-slice (s.db x).buf 0 (s.db x).bytes,
            ) in
          rw (same, pos) behind
    ]

Distinct-after : (xs ys : List ℕ) → Distinct (xs ++ ys) → Distinct ys
Distinct-after [] ys d = d
Distinct-after (x ∷ xs) ys (out, d) = Distinct-after xs ys d

FileChain-small :
    {db : ℕ → DataBucket} {ix : ℕ} {xs : List ℕ}
    → FileChain db ix xs
    → (db ix).bytes ≤ dbucket_buf_size
FileChain-small (last _ _ _ b) = b
FileChain-small (more _ _ _ b _) = omega arith

-- A write at the byte `pos` of a file, on a memory that is `Ready`: the content of the file is the
-- old one with the bytes written over it, and behind its end; the chain may be longer, `size_ind`
-- is by how much the file has grown, the cursor stands behind the bytes, and no other bucket in use
-- has changed. It ends the process only where no bucket can be had.
pub write_loop-overwrites :
    {s : DataMem} {first : ℕ} {xs : List ℕ} {cur : Cursor} {pos : ℕ}
    → Ready s
    → FileChain s.db first xs
    → Distinct xs
    → At s.db xs cur pos
    → (bytes : List ℕ)
    → Writes s first pos bytes xs (write_loop (write_fuel bytes) cur.dbindex cur.off bytes s)
write_loop-overwrites {s} {first} {xs} {cur} {pos} r file d at bytes =
    let short = length-le_of_Distinct tot_buckets xs d (FileChain-AllBelow file) in
    let small = FileChain-small at.chain in
    let fuel : length at.after + length bytes + cur.off ≤ write_fuel bytes =
      omega
        (arith, short, small, at.within, ap length at.parts, length-append at.before at.after) in
    carry (write_loop (write_fuel bytes) cur.dbindex cur.off bytes s) (
      write_loop-Writes (write_fuel bytes) s bytes r at.chain
        (Distinct-after at.before at.after (rw at.parts at d)) at.within fuel)
  where
    carry :
        (r : Run DataMem (Cursor × ℕ))
        → Writes s cur.dbindex cur.off bytes at.after r
        → Writes s first pos bytes xs r
    carry (ok (cur', size_ind) t) w =
        rw (at.parts, at.position)
          (Wrote-before at.before (rw at.parts at file) at.chain (rw at.parts at d) w)
    carry (died t) busy = busy
    carry stuck x = x
    carry fault x = x
