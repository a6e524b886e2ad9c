-- ===== src/File/Pwriting.antt =====
-- The loop of `pwrite` of system/lib/file_syscalls.c, against that of `write`.
use spacefish.Prelude.{
  ℕ, zero, suc, ◌+◌, ◌-◌, ◌≡◌, ◌≢◌, ◌⊎◌, refl, inl, inr, true, false, List, Bool-cases, length,
  take, drop, leb, ltb, arith, ◌==◌, update, length-drop,
}
use native.Mathlib.Decide.{dec_lt}
use spacefish.Config.{dbucket_buf_size, sub64, no_ix}
use spacefish.Run.{Run, Cmd, ok, died, stuck, fault, and_then}
use spacefish.Data.{DataBucket, DataMem}
use spacefish.Data.Alloc.{tot_buckets}
use spacefish.Data.Alloc.Bounds.{all_random-cases, took}
use spacefish.Data.Alloc.Forms.{AllMapped}
use spacefish.Data.Method.{get_free_dbucket_ix-random}
use spacefish.Data.Steps.Pointers.{get_dbucket_ptr-died}
use spacefish.File.Transfer.{Cursor, blit, copy_in, grow, next_or_new, write_step, write_loop}
use spacefish.File.Positional.{pwrite_step, pwrite_loop}
use spacefish.File.Reading.{reach}
use spacefish.File.Ready.{Ready}

-- The default build, every step mapped.
pub record Fit (s : DataMem) : Type 0 where
  pub method : s.alloc_method ≡ 1
  pub room : s.dbuckets_in_use ≢ tot_buckets
  pub mapped : AllMapped s

pub Ready-Fit : {s : DataMem} → Ready s → Fit s
Ready-Fit r = record { method = r.method; room = r.room; mapped = r.mapped }

Fit-db : {s : DataMem} (db : ℕ → DataBucket) → Fit s → Fit (record s { db = db })
Fit-db db f = record {
  method = f.method;
  room = f.room;
  mapped = record { steps = f.mapped.steps; each = f.mapped.each };
}

Fit-took : {s : DataMem} (ix : ℕ) → Fit s → Fit (took s ix)
Fit-took ix f = record {
  method = f.method;
  room = f.room;
  mapped = record { steps = f.mapped.steps; each = f.mapped.each };
}

copy_in-cases :
    (p off : ℕ) (bytes : List ℕ) (s : DataMem)
    → (copy_in p off bytes s ≡ fault)
      ⊎ ((db : ℕ → DataBucket) × (copy_in p off bytes s ≡ ok tt (record s { db = db })))
unfolding copy_in
copy_in-cases p off bytes s = elim (Bool-cases (ltb dbucket_buf_size (off + length bytes))) [
  | inl over ↦ inl (rw over refl)
  | inr fits ↦
      let b = record (s.db p) { buf = blit (s.db p).buf off bytes } in
      inr (update s.db p b, rw fits refl)
]

grow-cases :
    (p size : ℕ) (s : DataMem)
    → (inc : ℕ) × ((db : ℕ → DataBucket) × (grow p size s ≡ ok inc (record s { db = db })))
unfolding grow
grow-cases p size s = elim (Bool-cases (ltb (s.db p).bytes size)) [
  | inl less ↦
      (size - (s.db p).bytes, (update s.db p (record (s.db p) { bytes = size }), rw less refl))
  | inr more ↦ (0, (s.db, rw more refl))
]

-- The next bucket is one, never -1.
next_or_new-cases :
    (p : ℕ) {s : DataMem}
    → Fit s
    → ((next : ℕ) × ((t : DataMem) × (next_or_new p s ≡ ok next t) × (next ≢ no_ix) × Fit t))
      ⊎ ((t : DataMem) × (next_or_new p s ≡ died t))
unfolding next_or_new
next_or_new-cases p {s} f = elim (Bool-cases ((s.db p).next_ix == no_ix)) [
  | inl end ↦
      let free = get_free_dbucket_ix-random s f.method in
      elim (all_random-cases s f.room) [
        | inl (ix, runs, less, unused) ↦
            let db = update (took s ix).db p (record ((took s ix).db p) { next_ix = ix }) in
            inl (
              ix,
              (
                record (took s ix) { db = db },
                rw (end, free, runs) refl,
                omega arith,
                Fit-db db (Fit-took ix f),
              ),
            )
        | inr (t, runs, busy) ↦ inr (t, rw (end, free, runs) refl)
      ]
  | inr on ↦ inl ((s.db p).next_ix, (s, rw on refl, ground arith, f))
]

-- The number `n` in place of the cursor.
abbrev pub counted : ℕ → Run DataMem (Cursor × ℕ) → Run DataMem (ℕ × ℕ)
counted n r = and_then r (λ (cur, size_ind). ok (n, size_ind))

counted-add :
    (room n inc total : ℕ) (r : Run DataMem (Cursor × ℕ))
    → room + n ≡ total
    → and_then (counted n r) (λ (m, more). ok (room + m, inc + more))
      ≡ counted total (and_then r (λ (cur, more). ok (cur, inc + more)))
counted-add room n inc total (ok (cur, more) s) e = rw e refl
counted-add room n inc total (died s) e = refl
counted-add room n inc total stuck e = refl
counted-add room n inc total fault e = refl

-- The rests of the two loops do the same.
abbrev Same : (ℕ → List ℕ → Cmd DataMem (ℕ × ℕ)) → (ℕ → List ℕ → Cmd DataMem (Cursor × ℕ)) → Type 0
Same a b =
    (next : ℕ) (rest : List ℕ) (t : DataMem)
    → Fit t
    → next ≢ no_ix
    → a next rest t ≡ counted (length rest) (b next rest t)

module _ (p dbindex off : ℕ) (bytes : List ℕ) (a : ℕ → List ℕ → Cmd DataMem (ℕ × ℕ))
    (b : ℕ → List ℕ → Cmd DataMem (Cursor × ℕ)) (same : Same a b) (s : DataMem) (f : Fit s) where
  abbrev space : ℕ
  space = sub64 dbucket_buf_size off

  step_within :
      leb (length bytes) space ≡ true
      → pwrite_step p off bytes a s ≡ counted (length bytes) (write_step p dbindex off bytes b s)
  unfolding pwrite_step write_step
  step_within fits = elim (copy_in-cases p off bytes s) [
    | inl bad ↦ rw (fits, bad) refl
    | inr (db, copied) ↦
        let (inc, (db', grown)) = grow-cases p (off + length bytes) (record s { db = db }) in
        rw (fits, copied, grown) refl
  ]

  step_over :
      leb (length bytes) space ≡ false
      → pwrite_step p off bytes a s ≡ counted (length bytes) (write_step p dbindex off bytes b s)
  unfolding pwrite_step write_step
  step_over over = elim (copy_in-cases p off (take space bytes) s) [
    | inl bad ↦ rw (over, bad) refl
    | inr (db, copied) ↦
        let (inc, (db', grown)) = grow-cases p dbucket_buf_size (record s { db = db }) in
        elim (next_or_new-cases p (Fit-db db' f)) [
          | inl (next, (t, gives, ne, f')) ↦
              let parts : space + length (drop space bytes) ≡ length bytes =
                ground (arith, length-drop space bytes) in
              rw (over, copied, grown, gives, same next (drop space bytes) t f' ne)
                (counted-add space (length (drop space bytes)) inc (length bytes)
                  (b next (drop space bytes) t) parts)
          | inr (t, dies) ↦ rw (over, copied, grown, dies) refl
        ]
  ]

  step-counted :
      pwrite_step p off bytes a s ≡ counted (length bytes) (write_step p dbindex off bytes b s)
  step-counted = elim (Bool-cases (leb (length bytes) space)) [
    | inl fits ↦ step_within fits
    | inr over ↦ step_over over
  ]

-- In the default build, every step mapped, and from a bucket (not from the index -1): with the same
-- fuel the loop of `pwrite` does to the data what the loop of `write` does, counts the same `size_ind`
-- and, where it ends, all bytes, and it ends the process, or faults, where that does.
pub pwrite_loop-write_loop :
    (fuel dbindex off : ℕ) (bytes : List ℕ) {s : DataMem}
    → Fit s
    → dbindex ≢ no_ix
    → pwrite_loop fuel dbindex off bytes s
      ≡ counted (length bytes) (write_loop fuel dbindex off bytes s)
unfolding pwrite_loop write_loop
pwrite_loop-write_loop zero dbindex off bytes f ne =
    let there : (dbindex == no_ix) ≡ false = ground arith in rw there refl
pwrite_loop-write_loop (suc fuel) dbindex off bytes {s} f ne =
    let there : (dbindex == no_ix) ≡ false = ground arith in
    elim (dec_lt dbindex tot_buckets) [
      | yes less ↦
          rw (there, reach f.mapped dbindex less)
            (step-counted dbindex dbindex off bytes (λ next rest. pwrite_loop fuel next 0 rest)
              (λ next rest. write_loop fuel next 0 rest)
              (λ next rest t f' ne'. pwrite_loop-write_loop fuel next 0 rest f' ne') s f)
      | no past ↦ rw (there, get_dbucket_ptr-died dbindex s (omega (arith, f.mapped.steps))) refl
    ]
