-- ===== src/File/WriteLoop.antt =====
-- The loop of `write` of system/lib/file_syscalls.c, from the first bucket of a chain.
use spacefish.Prelude.{
  ℕ, zero, suc, ◌+◌, ◌-◌, ◌≤◌, ◌<◌, ◌≡◌, refl, sym, inl, inr, true, false, List, [], ◌∷◌, arith,
  ◌==◌, update, has, Distinct, length, drop, length-drop,
}
use native.Mathlib.Decide.{dec_lt}
use spacefish.Config.{dbucket_buf_size, no_ix}
use spacefish.Run.{Run, ok, died, stuck, fault, and_then}
use spacefish.Data.{DataBucket, DataMem}
use spacefish.Data.Alloc.{tot_buckets}
use spacefish.Data.Alloc.Search.{taken}
use spacefish.File.Transfer.{next_or_new, write_loop, slice}
use spacefish.File.Content.{
  FileChain, last, more, content, content-frame, FileChain-frame, FileChain-in_range,
}
use spacefish.File.Reading.{reach}
use spacefish.File.Ready.{Ready, Ready-update, NextGives, next_or_new-end}
use spacefish.File.Writing.{Writes, Writes-cons, GoesOn}
use spacefish.File.Round.{
  filled_bucket, put_bucket, grown_by, step_within, step_across, within-Wrote, bytes_of-filled,
}

module _ (s : DataMem) (ix off : ℕ) (bytes : List ℕ) where
  abbrev b : DataBucket
  b = s.db ix

  -- The state once the round has filled its bucket.
  abbrev filled : DataMem
  filled = put_bucket s ix (filled_bucket b off bytes)

  abbrev inc : ℕ
  inc = grown_by b dbucket_buf_size

  next_or_new-link :
      {next : ℕ} → b.next_ix ≡ next → next < tot_buckets → next_or_new ix filled ≡ ok next filled
  unfolding next_or_new
  next_or_new-link e less = ground arith

  -- The next bucket of the chain.
  GoesOn-link :
      {next : ℕ} {xs : List ℕ}
      → ix < tot_buckets
      → b.in_use ≡ true
      → b.next_ix ≡ next
      → b.bytes ≡ dbucket_buf_size
      → has ix xs ≡ false
      → off ≤ b.bytes
      → dbucket_buf_size - off ≤ length bytes
      → GoesOn s filled ix off next inc bytes xs xs
  GoesOn-link {xs = xs} less used link full out h over = record {
    less = less;
    used = ground arith;
    full = ground arith;
    link = ground arith;
    filled =
        let here : filled.db ix ≡ filled_bucket b off bytes = ground arith in
        rw here (bytes_of-filled b off bytes h (omega arith) over);
    in_bucket = h;
    small = omega arith;
    over = over;
    apart = out;
    rest = sym (content-frame xs (λ j i. ground arith));
    whole = inl full;
    inc_is = ground arith;
    others = λ j u o. (ground arith, ground arith);
  }

  -- A new bucket.
  module _ (nx : ℕ) (t : DataMem) (r : Ready s) (less : ix < tot_buckets) (used : b.in_use ≡ true)
      (nx_less : nx < tot_buckets) (free : (filled.db nx).in_use ≡ false)
      (e : t.db
        ≡ update
            (update filled.db nx (taken (filled.db nx)))
            ix
            (record (filled.db ix) { next_ix = nx })) where
    other : (nx == ix) ≡ false
    other = ground arith

    new_bucket : t.db nx ≡ taken (s.db nx)
    new_bucket = rw (e, other) (ground arith)

    linked : t.db ix ≡ record (filled_bucket b off bytes) { next_ix = nx }
    linked = rw e (ground arith)

    empty : ((s.db nx).next_ix ≡ no_ix) × ((s.db nx).bytes ≡ 0)
    empty = r.clean nx nx_less (rw other at free)

    new-FileChain : FileChain t.db nx (nx ∷ [])
    new-FileChain =
        last nx_less (rw new_bucket refl) (rw new_bucket empty.0)
          (rw new_bucket (omega (arith, empty.1)))

    new_content : content t.db (nx ∷ []) ≡ []
    unfolding content slice
    new_content = rw (new_bucket, empty.1) refl

    GoesOn-new :
        off ≤ b.bytes
        → b.bytes ≤ dbucket_buf_size
        → dbucket_buf_size - off ≤ length bytes
        → GoesOn s t ix off nx inc bytes [] (nx ∷ [])
    unfolding content
    GoesOn-new h small over = record {
      less = less;
      used = rw linked used;
      full = rw linked (ground arith);
      link = rw linked refl;
      filled = rw linked (bytes_of-filled b off bytes h small over);
      in_bucket = h;
      small = small;
      over = over;
      apart = ground arith;
      rest = sym new_content;
      whole = inr new_content;
      inc_is = ground arith;
      others = λ j u o. (rw e (ground arith), ground arith);
    }

-- What follows the round that filled the last bucket, where the rounds behind it do as they should.
after_new :
    (fuel : ℕ) (s : DataMem) (ix off : ℕ) (bytes : List ℕ)
    → ((t : DataMem) (nx : ℕ) (rest : List ℕ)
        → Ready t
        → FileChain t.db nx (nx ∷ [])
        → length rest + 1 ≤ fuel
        → Writes t nx 0 rest (nx ∷ []) (write_loop fuel nx 0 rest t))
    → Ready s
    → ix < tot_buckets
    → (s.db ix).in_use ≡ true
    → off ≤ (s.db ix).bytes
    → (s.db ix).bytes ≤ dbucket_buf_size
    → dbucket_buf_size - off < length bytes
    → length bytes + off ≤ fuel
    → (r : Run DataMem ℕ) → NextGives ix (filled s ix off bytes) r
    → Writes s ix off bytes (ix ∷ []) (
        and_then r (λ next t.
          and_then
            (write_loop fuel next 0 (drop (dbucket_buf_size - off) bytes) t)
            (λ (cur, size_ind). ok (cur, inc s ix off bytes + size_ind))))
after_new fuel s ix off bytes ih r less used h small over enough (ok nx t) (nx_less, free, e, r') =
    let g = GoesOn-new s ix off bytes nx t r less used nx_less free e h small (omega arith) in
    let rest = drop (dbucket_buf_size - off) bytes in
    let chain = new-FileChain s ix off bytes nx t r less used nx_less free e in
    Writes-cons g (write_loop fuel nx 0 rest t)
      (ih t nx rest r' chain (omega (arith, length-drop (dbucket_buf_size - off) bytes)))
after_new fuel s ix off bytes ih r less used h small over enough (died t) busy = busy
after_new fuel s ix off bytes ih r less used h small over enough stuck x = x
after_new fuel s ix off bytes ih r less used h small over enough fault x = x

-- The rounds from a bucket on, with fuel for the buckets of the chain and for the bytes.
pub write_loop-Writes :
    (fuel : ℕ) (s : DataMem) {ix off : ℕ} {xs : List ℕ} (bytes : List ℕ)
    → Ready s
    → FileChain s.db ix xs
    → Distinct xs
    → off ≤ (s.db ix).bytes
    → length xs + length bytes + off ≤ fuel
    → Writes s ix off bytes xs (write_loop fuel ix off bytes s)
unfolding write_loop content
write_loop-Writes zero s bytes r (last _ _ _ _) d h enough = absurd (omega arith)
write_loop-Writes zero s bytes r (more _ _ _ _ _) d h enough = absurd (omega arith)
write_loop-Writes (suc fuel) s {ix} {off} bytes r (last less used end small) d h enough =
    rw (reach r.mapped ix less) (elim (dec_lt (dbucket_buf_size - off) (length bytes)) [
      | no fits ↦
          rw
            (step_within s ix off bytes (λ next rest. write_loop fuel next 0 rest) (omega arith)
              (omega arith))
            (within-Wrote (last less (ground arith) (ground arith) (ground arith)) d r used h small
              (omega arith) (inr refl))
      | yes over ↦
          rw
            (step_across s ix off bytes (λ next rest. write_loop fuel next 0 rest) (omega arith)
              over)
            (after_new fuel s ix off bytes
              (λ t nx rest ready c short.
                write_loop-Writes fuel t rest ready c (ground arith) (omega arith) (omega arith))
              r less used h small over (omega arith) _
              (next_or_new-end ix (Ready-update ix _ r used) (ground arith) (ground arith)))
    ])
write_loop-Writes (suc fuel) s {ix} {off} {xs = _ ∷ xs} bytes r (more {next} less used link full c)
      (out, d) h enough =
    rw (reach r.mapped ix less) (elim (dec_lt (dbucket_buf_size - off) (length bytes)) [
      | no fits ↦
          rw
            (step_within s ix off bytes (λ next rest. write_loop fuel next 0 rest) (omega arith)
              (omega arith))
            (within-Wrote
              (more less (ground arith) (ground arith) (ground arith)
                (FileChain-frame c (λ j i. ground arith)))
              (out, d) r used h (omega arith) (omega arith) (inl full))
      | yes over ↦
          let rest = drop (dbucket_buf_size - off) bytes in
          let g = GoesOn-link s ix off bytes less used link full out h (omega arith) in
          let c' : FileChain (filled s ix off bytes).db next xs =
            FileChain-frame c (λ j i. ground arith) in
          rw
            (
              step_across s ix off bytes (λ next rest. write_loop fuel next 0 rest) (omega arith)
                  over,
              next_or_new-link s ix off bytes link (FileChain-in_range c),
            )
            (Writes-cons g (write_loop fuel next 0 rest (filled s ix off bytes)) (
              write_loop-Writes fuel (filled s ix off bytes) rest (Ready-update ix _ r used) c' d
                (omega arith) (omega (arith, length-drop (dbucket_buf_size - off) bytes))))
    ])
