-- ===== src/File/Ready.antt =====
-- The memory that a write goes on: what an allocation in the midst of it gives.
use spacefish.Prelude.{
  ℕ, ◌+◌, ◌<◌, ◌≡◌, ◌≢◌, refl, inl, inr, true, false, arith, ◌==◌, update, Bool-cases,
}
use spacefish.Config.{no_ix}
use spacefish.Run.{Run, and_then, ok, died, stuck, fault}
use spacefish.Data.{DataBucket, DataMem}
use spacefish.Data.Alloc.{tot_buckets}
use spacefish.Data.Alloc.Search.{Busy, taken}
use spacefish.Data.Alloc.Bounds.{all_random-cases}
use spacefish.Data.Alloc.Forms.{AllMapped}
use spacefish.Data.Method.{get_free_dbucket_ix, get_free_dbucket_ix-random}
use spacefish.File.Transfer.{next_or_new}

-- The default build with every step mapped, the count of buckets in use not at their number; a bucket that is not in use is empty and has no
-- successor, as `init_dbucket` left it.
pub record Ready (s : DataMem) : Type 0 where
  pub method : s.alloc_method ≡ 1
  pub room : s.dbuckets_in_use ≢ tot_buckets
  pub mapped : AllMapped s
  pub clean :
      (j : ℕ)
      → j < tot_buckets
      → (s.db j).in_use ≡ false
      → ((s.db j).next_ix ≡ no_ix) × ((s.db j).bytes ≡ 0)

-- A bucket in use may change.
pub Ready-update :
    {s : DataMem} (p : ℕ) (b : DataBucket)
    → Ready s
    → b.in_use ≡ true
    → Ready (record s { db = update s.db p b })
Ready-update {s} p b r used = record {
  method = r.method;
  room = r.room;
  mapped = record { steps = r.mapped.steps; each = r.mapped.each };
  clean = λ j less free. elim (Bool-cases (j == p)) [
    | inl same ↦ absurd (ground (arith, free))
    | inr other ↦
        let e : update s.db p b j ≡ s.db j = rw other refl in rw e (r.clean j less (rw e at free))
  ];
}

Ready-draws : {s : DataMem} → Ready s → Ready (record s { draws = λ n. s.draws (n + 1) })
Ready-draws r = record {
  method = r.method;
  room = r.room;
  mapped = record { steps = r.mapped.steps; each = r.mapped.each };
  clean = r.clean;
}

-- The bucket given was free; where the process ends, no bucket could be had.
abbrev pub Gives : DataMem → Run DataMem ℕ → Type 0
Gives s (ok ix t) =
    (ix < tot_buckets)
    × ((s.db ix).in_use ≡ false)
    × (t.db ≡ update s.db ix (taken (s.db ix)))
    × Ready t
Gives s (died t) = (j : ℕ) → j < tot_buckets → Busy (t.db j)
Gives s stuck = ⊥
Gives s fault = ⊥

pub get_free-Gives : {s : DataMem} → Ready s → Gives s (get_free_dbucket_ix s)
get_free-Gives {s} r =
    rw (get_free_dbucket_ix-random s r.method) (elim (all_random-cases s r.room) [
      | inl (ix, runs, less, free) ↦
          rw runs (less, free, refl, Ready-update ix (taken (s.db ix)) (Ready-draws r) refl)
      | inr (s', runs, busy) ↦ rw runs busy
    ])

-- What follows the end of a chain, at the bucket `p`.
abbrev pub NextGives : ℕ → DataMem → Run DataMem ℕ → Type 0
NextGives p s (ok ix t) =
    (ix < tot_buckets)
    × ((s.db ix).in_use ≡ false)
    × (t.db ≡ update (update s.db ix (taken (s.db ix))) p (record (s.db p) { next_ix = ix }))
    × Ready t
NextGives p s (died t) = (j : ℕ) → j < tot_buckets → Busy (t.db j)
NextGives p s stuck = ⊥
NextGives p s fault = ⊥

link :
    {s : DataMem} {p : ℕ}
    → Ready s
    → (s.db p).in_use ≡ true
    → (r : Run DataMem ℕ) → Gives s r
    → NextGives p s (
        and_then r (λ dbindex t.
          ok dbindex (record t { db = update t.db p (record (t.db p) { next_ix = dbindex }) })))
link {s} {p} r used (ok ix t) (less, free, e, r') =
    let other : (p == ix) ≡ false = ground (arith, used, free) in
    let kept : t.db p ≡ s.db p = rw (e, other) refl in
    let kept_used : (t.db p).in_use ≡ true = rw kept used in
    (less, free, rw (kept, e) refl, Ready-update p _ r' kept_used)
link r used (died t) busy = busy
link r used stuck h = h
link r used fault h = h

pub next_or_new-end :
    {s : DataMem} (p : ℕ)
    → Ready s
    → (s.db p).in_use ≡ true
    → (s.db p).next_ix ≡ no_ix
    → NextGives p s (next_or_new p s)
unfolding next_or_new
next_or_new-end {s} p r used end =
    let at_end : ((s.db p).next_ix == no_ix) ≡ true = ground arith in
    rw at_end (link r used (get_free_dbucket_ix s) (get_free-Gives r))
