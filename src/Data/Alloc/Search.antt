-- ===== src/Data/Alloc/Search.antt =====
-- What the search for a free bucket comes to, whatever the order of its visits.
use spacefish.Prelude.{
  ℕ, ◌≤◌, ◌<◌, ◌≡◌, refl, sym, ap, ◌∙◌, ◌⊎◌, inl, inr, true, false, ◌||◌, none, some, arith, update,
  Option-cases,
}
use spacefish.Run.{Run, ok, died, stuck, fault}
use spacefish.Scan.{scan, scan-some, scan-none}
use spacefish.Data.{DataBucket, DataMem, slot_of, claim_bucket}
use spacefish.Data.Alloc.{search}

-- A bucket that no allocator takes: in use, or locked by another process.
abbrev pub Busy : DataBucket → Type 0
Busy b = (b.in_use || b.locked) ≡ true

-- `s'` differs from `s` in that the free bucket `ix`, between `lo` and `hi`, is now in use.
pub record Took (lo hi : ℕ) (s : DataMem) (ix : ℕ) (s' : DataMem) : Type 0 where
  pub at_least : lo ≤ ix
  pub below : ix < hi
  pub was_free : (s.db ix).in_use ≡ false
  pub was_unlocked : (s.db ix).locked ≡ false
  pub now : s'.db ≡ update s.db ix (record (s.db ix) { in_use = true; locked = false })

-- No bucket between `lo` and `hi` can be had, and none has changed.
pub record Exhausted (lo hi : ℕ) (s s' : DataMem) : Type 0 where
  pub busy : (ix : ℕ) → lo ≤ ix → ix < hi → Busy (s.db ix)
  pub same : s'.db ≡ s.db

-- An allocation returns a bucket that it took, or ends the process when there is none.
abbrev pub Allocates : (lo hi : ℕ) → DataMem → Run DataMem ℕ → Type 0
Allocates lo hi s (ok ix s') = Took lo hi s ix s'
Allocates lo hi s (died s') = Exhausted lo hi s s'
Allocates lo hi s stuck = ⊥
Allocates lo hi s fault = ⊥

pub slot_of-eq : (ix : ℕ) → slot_of ix ≡ ix
slot_of-eq ix = omega arith

pub claim_bucket_free :
    (b : DataBucket)
    → b.in_use ≡ false
    → b.locked ≡ false
    → claim_bucket b ≡ some (record b { in_use = true; locked = false })
unfolding claim_bucket
claim_bucket_free b unused unlocked = ground arith

pub claim_bucket-some :
    (b : DataBucket) {c : DataBucket}
    → claim_bucket b ≡ some c
    → (b.in_use ≡ false) × (b.locked ≡ false) × (c ≡ record b { in_use = true; locked = false })
unfolding claim_bucket
claim_bucket-some b h = ground arith

pub claim_bucket-none : (b : DataBucket) → claim_bucket b ≡ none → Busy b
unfolding claim_bucket
claim_bucket-none b h = ground arith

-- The walk `pos` visits exactly the indices from `lo` to `hi` in `n` rounds.
pub record Covers (n : ℕ) (pos : ℕ → ℕ) (lo hi : ℕ) : Type 0 where
  pub within : (i : ℕ) → i < n → (lo ≤ pos i) × (pos i < hi)
  pub onto : (ix : ℕ) → lo ≤ ix → ix < hi → (i : ℕ) × (i < n) × (pos i ≡ ix)

-- `b`, taken.
abbrev pub taken : DataBucket → DataBucket
taken b = record b { in_use = true; locked = false }

-- The search took the bucket at `pos i`.
pub record Found (n lo hi : ℕ) (pos : ℕ → ℕ) (s : DataMem) (i : ℕ) : Type 0 where
  pub runs : search n pos s ≡ ok i (record s { db = update s.db (pos i) (taken (s.db (pos i))) })
  pub round : i < n
  pub at_least : lo ≤ pos i
  pub below : pos i < hi
  pub was_free : (s.db (pos i)).in_use ≡ false
  pub was_unlocked : (s.db (pos i)).locked ≡ false

pub record Missed (n lo hi : ℕ) (pos : ℕ → ℕ) (s : DataMem) : Type 0 where
  pub runs : search n pos s ≡ died s
  pub busy : (ix : ℕ) → lo ≤ ix → ix < hi → Busy (s.db ix)

module _ {n lo hi : ℕ} {pos : ℕ → ℕ} (c : Covers n pos lo hi) (s : DataMem) where
  missed : scan claim_bucket (λ r. slot_of (pos r)) n 0 s.db ≡ none → Missed n lo hi pos s
  unfolding search
  missed e = record {
    runs = rw (e, search);
    busy = λ ix h k.
        let (i, less, eq) = c.onto ix h k in
        let no_claim = claim_bucket-none _ (
          scan-none claim_bucket (λ r. slot_of (pos r)) n 0 s.db e i (omega arith) (omega arith)) in
        rw (slot_of-eq, eq) at no_claim;
  }

  found :
      (i : ℕ) (db : ℕ → DataBucket)
      → scan claim_bucket (λ r. slot_of (pos r)) n 0 s.db ≡ some (i, db)
      → Found n lo hi pos s i
  unfolding search
  found i db e =
      let cl = scan-some claim_bucket (λ r. slot_of (pos r)) n 0 e in
      let less : i < n = omega (arith, cl.below) in
      let (free, unlocked, new) = claim_bucket-some _ cl.claimed in
      record {
        runs =
            rw (e, search)
              (ap (λ d. ok i (record s { db = d })) (cl.written ∙ rw (new, slot_of-eq) refl));
        round = less;
        at_least = (c.within i less).0;
        below = (c.within i less).1;
        was_free = rw slot_of-eq at free;
        was_unlocked = rw slot_of-eq at unlocked;
      }

  pub search-cases : ((i : ℕ) × Found n lo hi pos s i) ⊎ Missed n lo hi pos s
  search-cases = elim (Option-cases (scan claim_bucket (λ r. slot_of (pos r)) n 0 s.db)) [
    | inl e ↦ inr (missed e)
    | inr ((i, db), e) ↦ inl (i, found i db e)
  ]

module _ {n lo hi : ℕ} {pos : ℕ → ℕ} {t : DataMem} (s : DataMem) (same : s.db ≡ t.db) where
  -- What a search from `t` found is an allocation from `s`, which has the same buckets.
  pub Found-Took :
      {i : ℕ} {u : DataMem}
      → u.db ≡ update t.db (pos i) (taken (t.db (pos i)))
      → Found n lo hi pos t i
      → Took lo hi s (pos i) u
  Found-Took e f = record {
    at_least = f.at_least;
    below = f.below;
    was_free = rw same f.was_free;
    was_unlocked = rw same f.was_unlocked;
    now = rw same e;
  }

  pub Missed-Exhausted : Missed n lo hi pos t → Exhausted lo hi s t
  Missed-Exhausted m = record { busy = λ ix h k. rw same (m.busy ix h k); same = sym same }
