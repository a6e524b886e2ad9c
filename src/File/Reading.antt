-- ===== src/File/Reading.antt =====
-- The loop of `read` of system/lib/file_syscalls.c, against the content of a file.
use spacefish.Prelude.{
  ℕ, zero, suc, ◌+◌, ◌-◌, ◌≤◌, ◌<◌, ◌≡◌, refl, sym, ap, ◌∙◌, true, false, List, [], ◌∷◌, ◌++◌,
  arith, ◌==◌, leb, length, take, drop, append_nil, take_nil, length-append, append_assoc, Distinct,
  length-le_of_Distinct, drop-append_ge,
}
use spacefish.Config.{dbucket_buf_size, sub64, no_ix}
use native.Mathlib.Decide.{dec_lt}
use spacefish.Run.{ok, Cmd}
use spacefish.Data.{DataBucket, DataMem}
use spacefish.Data.Alloc.{tot_buckets}
use spacefish.Data.Alloc.Forms.{AllMapped}
use spacefish.Data.Steps.{get_dbucket_ptr}
use spacefish.Data.Steps.Pointers.{get_dbucket_ptr-ok}
use spacefish.File.Transfer.{slice, copy_out, Cursor, read_on, read_step, read_loop, data_fuel}
use spacefish.File.Slices.{length-slice, part_within, part_across}
use spacefish.File.Content.{
  FileChain, last, more, content, bytes_of, FileChain-in_range, FileChain-AllBelow,
}

-- The cursor stands at the byte `pos` of the content of the chain `xs`.
pub record At (db : ℕ → DataBucket) (xs : List ℕ) (cur : Cursor) (pos : ℕ) : Type 0 where
  pub before : List ℕ
  pub after : List ℕ
  pub parts : xs ≡ before ++ after
  pub chain : FileChain db cur.dbindex after
  pub within : cur.off ≤ (db cur.dbindex).bytes
  pub position : pos ≡ length (content db before) + cur.off

pub reach :
    {s : DataMem} → AllMapped s → (ix : ℕ) → ix < tot_buckets → get_dbucket_ptr ix s ≡ ok ix s
reach {s} m ix less = get_dbucket_ptr-ok ix s (omega (arith, m.steps)) (m.each _ (omega arith))

pub copy_out-ok :
    (b : DataBucket) (off c : ℕ) (s : DataMem)
    → off + c ≤ dbucket_buf_size
    → copy_out b off c s ≡ ok (slice b.buf off c) s
unfolding copy_out
copy_out-ok b off c s h = ground arith

pub left :
    (b : DataBucket) (off : ℕ)
    → b.bytes ≤ dbucket_buf_size
    → off ≤ b.bytes
    → sub64 b.bytes off ≡ b.bytes - off
left b off small in_bucket = omega arith

module _ (b : DataBucket) (ix off c : ℕ) (s : DataMem) (small : b.bytes ≤ dbucket_buf_size)
    (in_bucket : off ≤ b.bytes) (again : ℕ → ℕ → ℕ → Cmd DataMem (List ℕ × Cursor)) where
  step_within :
      c ≤ b.bytes - off
      → read_step b ix off c again s
        ≡ ok (slice b.buf off c, record { dbindex = ix; off = off + c }) s
  unfolding read_step
  step_within h =
      let t : leb c (b.bytes - off) ≡ true = ground arith in
      rw (left b off small in_bucket, t, copy_out-ok b off c s (omega arith)) refl

  step_across :
      b.bytes - off < c
      → {r : List ℕ} {cur : Cursor}
      → read_on ix b.bytes b.next_ix
          (b.next_ix == no_ix)
          (again b.next_ix 0 (c - (b.bytes - off)))
          s
        ≡ ok (r, cur) s
      → read_step b ix off c again s ≡ ok (slice b.buf off (b.bytes - off) ++ r, cur) s
  unfolding read_step
  step_across h e =
      let t : leb c (b.bytes - off) ≡ false = ground arith in
      rw (left b off small in_bucket, t, copy_out-ok b off (b.bytes - off) s (omega arith), e) refl

module _ {s : DataMem} (m : AllMapped s) where
  -- What a read of `c` bytes at the offset `off` of the first bucket gives.
  abbrev pub Reads : (fuel off c ix : ℕ) → List ℕ → Type 0
  Reads fuel off c ix xs =
      (cur : Cursor) × (read_loop fuel ix off c s ≡ ok (take c (drop off (content s.db xs)), cur) s)
      × At s.db xs cur (off + length (take c (drop off (content s.db xs))))

  within-Reads :
      (fuel off c : ℕ) {ix : ℕ} {xs : List ℕ}
      → FileChain s.db ix (ix ∷ xs)
      → (s.db ix).bytes ≤ dbucket_buf_size
      → off ≤ (s.db ix).bytes
      → c ≤ (s.db ix).bytes - off
      → Reads (suc fuel) off c ix (ix ∷ xs)
  unfolding read_loop content
  within-Reads fuel off c {ix} {xs} chain small h l =
      let b = s.db ix in
      let part : take c (drop off (content s.db (ix ∷ xs))) ≡ slice b.buf off c =
        part_within b.buf (content s.db xs) h c l in
      let runs = step_within b ix off c s small h (λ d o n. read_loop fuel d o n) l in
      (
        record { dbindex = ix; off = off + c },
        rw (reach m ix (FileChain-in_range chain), part, runs) refl,
        record {
          before = [];
          after = ix ∷ xs;
          parts = refl;
          chain = chain;
          within = omega arith;
          position = rw part (omega (arith, length-slice b.buf off c));
        },
      )

  pub read_loop-Reads :
      (fuel off c : ℕ) {ix : ℕ} {xs : List ℕ}
      → FileChain s.db ix xs
      → off ≤ (s.db ix).bytes
      → length xs ≤ fuel
      → Reads fuel off c ix xs
  unfolding read_loop content read_on
  read_loop-Reads zero off c (last _ _ _ _) h f = absurd (omega arith)
  read_loop-Reads zero off c (more _ _ _ _ _) h f = absurd (omega arith)
  read_loop-Reads (suc fuel) off c {ix} (last less used end small) h f =
      let b = s.db ix in
      elim (dec_lt (b.bytes - off) c) [
        | no fits ↦ within-Reads fuel off c (last less used end small) small h (omega arith)
        | yes over ↦
            let part : take c (drop off (content s.db (ix ∷ [])))
                ≡ slice b.buf off (b.bytes - off) ++ take (c - (b.bytes - off)) [] =
              part_across b.buf [] h c (omega arith) in
            let at_end : (b.next_ix == no_ix) ≡ true = ground arith in
            let runs =
              step_across b ix off c s small h (λ d o n. read_loop fuel d o n) over
                (rw at_end refl) in
            (
              record { dbindex = ix; off = b.bytes },
              rw (reach m ix less, part, take_nil, runs) refl,
              record {
                before = [];
                after = ix ∷ [];
                parts = refl;
                chain = last less used end small;
                within = omega arith;
                position =
                    rw (part, take_nil, append_nil)
                      (omega (arith, length-slice b.buf off (b.bytes - off)));
              },
            )
      ]
  read_loop-Reads (suc fuel) off c {ix} {xs = _ ∷ xs} (more {next} less used link full chain) h f =
      let b = s.db ix in
      elim (dec_lt (b.bytes - off) c) [
        | no fits ↦
            within-Reads fuel off c (more less used link full chain) (omega arith) h (omega arith)
        | yes over ↦
            let n = c - (b.bytes - off) in
            let part : take c (drop off (content s.db (ix ∷ xs)))
                ≡ slice b.buf off (b.bytes - off) ++ take n (content s.db xs) =
              part_across b.buf (content s.db xs) h c (omega arith) in
            let (cur, rest, at) = read_loop-Reads fuel 0 n chain (omega arith) (omega arith) in
            let goes_on : (b.next_ix == no_ix) ≡ false = ground (arith, FileChain-in_range chain) in
            let runs =
              step_across b ix off c s (omega arith) h (λ d o n. read_loop fuel d o n) over
                (rw (goes_on, link) rest) in
            (
              cur,
              rw (reach m ix less, part, runs) refl,
              record {
                before = ix ∷ at.before;
                after = at.after;
                parts = ap (λ r. ix ∷ r) at.parts;
                chain = at.chain;
                within = at.within;
                position = rw part (
                    omega (
                      arith,
                      at.position,
                      length-append (slice b.buf off (b.bytes - off)) (take n (content s.db xs)),
                      length-slice b.buf off (b.bytes - off),
                      length-append (bytes_of b) (content s.db at.before),
                      length-slice b.buf 0 b.bytes,
                    ));
              },
            )
      ]

pub content-append :
    (db : ℕ → DataBucket) (xs ys : List ℕ) → content db (xs ++ ys) ≡ content db xs ++ content db ys
unfolding content
content-append db [] ys = refl
content-append db (x ∷ xs) ys =
    rw (content-append db xs ys)
      (sym (append_assoc (bytes_of (db x)) (content db xs) (content db ys)))

-- A read at the byte `pos` of a file whose chain repeats no bucket, every step mapped, returns the
-- bytes that follow it, `c` of them or as many as there are, and moves the cursor past them; the
-- data is not changed.
pub read_loop-advances :
    {s : DataMem} {first : ℕ} {xs : List ℕ} {cur : Cursor} {pos : ℕ}
    → AllMapped s
    → FileChain s.db first xs
    → Distinct xs
    → At s.db xs cur pos
    → (c : ℕ)
    → (cur' : Cursor) × (read_loop data_fuel cur.dbindex cur.off c s
        ≡ ok (take c (drop pos (content s.db xs)), cur') s)
      × At s.db xs cur' (pos + length (take c (drop pos (content s.db xs))))
read_loop-advances {s} {xs} {cur} {pos} m file d at c =
    let short = length-le_of_Distinct tot_buckets xs d (FileChain-AllBelow file) in
    let parts : content s.db xs ≡ content s.db at.before ++ content s.db at.after =
      ap (content s.db) at.parts ∙ content-append s.db at.before at.after in
    let off : pos - length (content s.db at.before) ≡ cur.off = omega (arith, at.position) in
    let rest : drop pos (content s.db xs) ≡ drop cur.off (content s.db at.after) =
      rw
        (
          parts,
          drop-append_ge (content s.db at.after) pos (content s.db at.before)
              (omega (arith, at.position)),
          off,
        )
        refl in
    let fuel : length at.after ≤ data_fuel =
      omega (arith, short, ap length at.parts, length-append at.before at.after) in
    let (cur', runs, at') = read_loop-Reads m data_fuel cur.off c at.chain at.within fuel in
    (
      cur',
      rw rest runs,
      record {
        before = at.before ++ at'.before;
        after = at'.after;
        parts =
            at.parts
            ∙ ap (λ r. at.before ++ r) at'.parts
            ∙ sym (append_assoc at.before at'.before at'.after);
        chain = at'.chain;
        within = at'.within;
        position =
            rw (rest, content-append s.db at.before at'.before)
              (omega (
                arith,
                at.position,
                at'.position,
                length-append (content s.db at.before) (content s.db at'.before),
              ));
      },
    )
