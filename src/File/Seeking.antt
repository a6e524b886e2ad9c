-- ===== src/File/Seeking.antt =====
-- The loops of `pread` of system/lib/file_syscalls.c, against the content of a file.
use spacefish.Prelude.{
  ℕ, zero, suc, ◌+◌, ◌-◌, ◌*◌, ◌≤◌, ◌<◌, ◌≡◌, refl, ap, ◌∙◌, true, false, some, List, [], ◌∷◌, ◌++◌,
  arith, ◌==◌, leb, length, take, drop, take_nil, length-append, drop-append_ge,
}
use native.Mathlib.Decide.{dec_lt}
use spacefish.Config.{dbucket_buf_size, no_ix}
use spacefish.Run.{ok, Cmd}
use spacefish.Data.{DataBucket, DataMem}
use spacefish.Data.Alloc.{tot_buckets}
use spacefish.Data.Alloc.Forms.{AllMapped}
use spacefish.File.Transfer.{slice}
use spacefish.File.Positional.{seek, pread_step, pread_loop}
use spacefish.File.Slices.{length-slice, part_within, part_across}
use spacefish.File.Content.{FileChain, last, more, content, bytes_of}
use spacefish.File.Reading.{reach, left, copy_out-ok}

module _ (b : DataBucket) (off c : ℕ) (s : DataMem) (small : b.bytes ≤ dbucket_buf_size)
    (in_bucket : off ≤ b.bytes) (again : ℕ → ℕ → Cmd DataMem (List ℕ)) where
  step_within : c ≤ b.bytes - off → pread_step b off c again s ≡ ok (slice b.buf off c) s
  unfolding pread_step
  step_within h =
      let t : leb c (b.bytes - off) ≡ true = ground arith in
      rw (left b off small in_bucket, t, copy_out-ok b off c s (omega arith)) refl

  step_across :
      b.bytes - off < c
      → {r : List ℕ} → again b.next_ix (c - (b.bytes - off)) s ≡ ok r s
      → pread_step b off c again s ≡ ok (slice b.buf off (b.bytes - off) ++ r) s
  unfolding pread_step
  step_across h e =
      let t : leb c (b.bytes - off) ≡ false = ground arith in
      rw (left b off small in_bucket, t, copy_out-ok b off (b.bytes - off) s (omega arith), e) refl

pread_loop_end : (fuel c : ℕ) (s : DataMem) → pread_loop fuel no_ix 0 c s ≡ ok [] s
unfolding pread_loop
pread_loop_end zero c s = refl
pread_loop_end (suc fuel) c s = refl

in_chain : (ix : ℕ) → ix < tot_buckets → (ix == no_ix) ≡ false
in_chain ix h = ground arith

module _ {s : DataMem} (m : AllMapped s) where
  pub pread_loop-reads :
      (fuel off c : ℕ) {ix : ℕ} {xs : List ℕ}
      → FileChain s.db ix xs
      → off ≤ (s.db ix).bytes
      → length xs ≤ fuel
      → pread_loop fuel ix off c s ≡ ok (take c (drop off (content s.db xs))) s
  unfolding pread_loop content
  pread_loop-reads zero off c (last _ _ _ _) h f = absurd (omega arith)
  pread_loop-reads zero off c (more _ _ _ _ _) h f = absurd (omega arith)
  pread_loop-reads (suc fuel) off c {ix} (last less used end small) h f =
      let b = s.db ix in
      let again : ℕ → ℕ → Cmd DataMem (List ℕ) = λ next n. pread_loop fuel next 0 n in
      rw (in_chain ix less, reach m ix less)
        (elim (dec_lt (b.bytes - off) c) [
          | no fits ↦
              rw
                (
                  part_within b.buf [] h c (omega arith),
                  step_within b off c s small h again (omega arith),
                )
                refl
          | yes over ↦
              let stops : again b.next_ix (c - (b.bytes - off)) s ≡ ok [] s =
                rw end (pread_loop_end fuel (c - (b.bytes - off)) s) in
              rw
                (
                  part_across b.buf [] h c (omega arith),
                  take_nil,
                  step_across b off c s small h again over stops,
                )
                refl
        ])
  pread_loop-reads (suc fuel) off c {ix} {xs = _ ∷ xs} (more {next} less used link full chain) h f =
      let b = s.db ix in
      let again : ℕ → ℕ → Cmd DataMem (List ℕ) = λ next n. pread_loop fuel next 0 n in
      let small : b.bytes ≤ dbucket_buf_size = omega arith in
      rw (in_chain ix less, reach m ix less)
        (elim (dec_lt (b.bytes - off) c) [
          | no fits ↦
              rw
                (
                  part_within b.buf (content s.db xs) h c (omega arith),
                  step_within b off c s small h again (omega arith),
                )
                refl
          | yes over ↦
              let n = c - (b.bytes - off) in
              let goes_on : again b.next_ix n s ≡ ok (take n (content s.db xs)) s =
                rw link (pread_loop-reads fuel 0 n chain (omega arith) (omega arith)) in
              rw
                (
                  part_across b.buf (content s.db xs) h c (omega arith),
                  step_across b off c s small h again over goes_on,
                )
                refl
        ])

  -- What `k` rounds reach: the chain from there, whose content is the rest of the content.
  pub record Sought (k ix : ℕ) (xs : List ℕ) : Type 0 where
    pub dbindex : ℕ
    pub before : List ℕ
    pub ys : List ℕ
    pub parts : xs ≡ before ++ ys
    pub passed : length (content s.db before) ≡ dbucket_buf_size * k
    pub runs : seek k ix s ≡ ok (some dbindex) s
    pub chain : FileChain s.db dbindex ys
    pub shorter : length ys ≤ length xs
    pub size : length (content s.db xs) ≡ dbucket_buf_size * k + length (content s.db ys)
    pub rest :
        (r : ℕ) → drop (dbucket_buf_size * k + r) (content s.db xs) ≡ drop r (content s.db ys)

  pub seek-Sought :
      (k : ℕ) {ix : ℕ} {xs : List ℕ}
      → FileChain s.db ix xs
      → dbucket_buf_size * k < length (content s.db xs)
      → Sought k ix xs
  unfolding seek content
  seek-Sought zero {ix} {xs} chain h = record {
    dbindex = ix;
    before = [];
    ys = xs;
    parts = refl;
    passed = omega arith;
    runs = refl;
    chain = chain;
    shorter = omega arith;
    size = omega arith;
    rest = λ r.
        ap (λ i. drop i (content s.db xs)) {x = dbucket_buf_size * 0 + r} {y = r} (omega arith);
  }
  seek-Sought (suc k) {ix} (last less used end small) h = absurd (
      omega (
        arith,
        length-append (bytes_of (s.db ix)) [],
        length-slice (s.db ix).buf 0 (s.db ix).bytes,
      ))
  seek-Sought (suc k) {ix} {xs = _ ∷ xs} (more {next} less used link full chain) h =
      let len = length-slice (s.db ix).buf 0 (s.db ix).bytes in
      let sum = length-append (bytes_of (s.db ix)) (content s.db xs) in
      let w = seek-Sought k chain (omega (arith, len, sum, full)) in
      record {
        dbindex = w.dbindex;
        before = ix ∷ w.before;
        ys = w.ys;
        parts = ap (λ r. ix ∷ r) w.parts;
        passed = omega (
          arith,
          len,
          full,
          w.passed,
          length-append (bytes_of (s.db ix)) (content s.db w.before),
        );
        runs = rw (in_chain ix less, reach m ix less) (rw link w.runs);
        chain = w.chain;
        shorter = omega (arith, w.shorter);
        size = omega (arith, len, sum, full, w.size);
        rest = λ r.
            let past : dbucket_buf_size * suc k + r - length (bytes_of (s.db ix))
                ≡ dbucket_buf_size * k + r =
              omega (arith, len, full) in
            drop-append_ge (content s.db xs) (dbucket_buf_size * suc k + r) (bytes_of (s.db ix))
              (omega (arith, len, full))
            ∙ rw past (w.rest r);
      }
