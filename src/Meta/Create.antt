-- ===== src/Meta/Create.antt =====
-- `strict_create_mbucket` of system/util/meta_shm.c.
use spacefish.Prelude.{
  ℕ, ◌≡◌, ◌≢◌, ◌≤◌, ◌<◌, refl, ◌∙◌, inl, inr, true, false, Option, none, some, List, [], ◌∷◌, ◌++◌,
  arith, has, Distinct, Option-cases, length,
}
use spacefish.Config.{meta_buckets}
use spacefish.Text.{CString}
use spacefish.Hash.{hash}
use spacefish.Run.{Run, ok, died, stuck, fault, ◌>>=◌}
use spacefish.Meta.{MetaMem, chain_fuel, with_lock, set_bucket, set_first, allocate_mbucket}
use spacefish.Meta.Ops.{link_new, strict_create_at, strict_create_from, strict_create_mbucket}
use spacefish.Meta.Allocate.{Fresh, Full, drawn, taken, allocate_mbucket-cases}
use spacefish.Meta.Chain.{Chain, nil, cons, first_match}
use spacefish.Meta.Extend.{end_of, last_of, last_of-has, walk_chain-walked, extend}
use spacefish.Meta.Locks.{
  Quiet, lock_of, writing, row_of-ok, down_write-ok, first_ix-with_lock, up_write-ok, write_locked,
  up_write-unchanged,
}
use spacefish.Meta.Lookup.{RowOk, chain_short}

-- The buckets of the row's chain are in use, and one that is not leads nowhere.
pub record Kept (m : MetaMem) (xs : List ℕ) : Type 0 where
  pub used : (j : ℕ) → has j xs ≡ true → (m.mb_arr j).in_use ≡ true
  pub ends : (j : ℕ) → j < meta_buckets → (m.mb_arr j).in_use ≡ false → (m.mb_arr j).next_ix ≡ none

-- What the creation of the bucket `ix` leaves: the row's chain `xs` with `ix` behind it, a bucket
-- that was free and is in use, and everything else as it was but for the links of the chain.
pub record Created (m m' : MetaMem) (row : ℕ) (xs : List ℕ) (ix : ℕ) : Type 0 where
  pub fresh : Fresh m ix
  pub chain : Chain m'.mb_arr (m'.hash_table row).first_ix (xs ++ (ix ∷ []))
  pub new : m'.mb_arr ix ≡ record (m.mb_arr ix) { in_use = true }
  pub kept :
      (j : ℕ) → j ≢ ix → m'.mb_arr j ≡ record (m.mb_arr j) { next_ix = (m'.mb_arr j).next_ix }
  pub others : (j : ℕ) → j ≢ ix → has j xs ≡ false → m'.mb_arr j ≡ m.mb_arr j
  pub rows : (r : ℕ) → r ≢ row → m'.hash_table r ≡ m.hash_table r
  pub locks : (r : ℕ) → lock_of r m' ≡ lock_of r m

-- The bucket is created; or NULL is returned, as no bucket can be had, and only a number is drawn.
abbrev pub Creates : MetaMem → ℕ → List ℕ → Run MetaMem (Option ℕ) → Type 0
Creates m row xs (ok (some ix) m') = Created m m' row xs ix
Creates m row xs (ok none m') = Full m × (m' ≡ drawn m)
Creates m row xs (died m') = ⊥
Creates m row xs stuck = ⊥
Creates m row xs fault = ⊥

module _ (str : CString) {row : ℕ} {m : MetaMem} {xs : List ℕ} (h : hash str ≡ some row)
    (q : Quiet (lock_of row m)) (r : RowOk m row xs) where
  abbrev locked : MetaMem
  locked = write_locked row m

  begins :
      strict_create_mbucket str m ≡ strict_create_from row str (m.hash_table row).first_ix locked
  unfolding strict_create_mbucket
  begins =
      rw (row_of-ok str m h, down_write-ok row m q.readers q.free, first_ix-with_lock row m) refl

  -- The call, by the walk of the chain.
  after_walk : Option ℕ → Option ℕ → Run MetaMem (Option ℕ)
  after_walk (some ix) prev = ok none m
  after_walk none prev = (allocate_mbucket >>= link_new row prev) locked

  walks :
      {first : Option ℕ} {ys : List ℕ}
      → Chain m.mb_arr first ys
      → length ys ≤ chain_fuel
      → strict_create_from row str first locked
        ≡ after_walk (first_match str m.mb_arr ys) (last_of ys)
  unfolding strict_create_from first_match after_walk
  walks nil b = refl
  walks (cons {ix = x} {xs = ys} e c) b =
      let walked = walk_chain-walked str chain_fuel (cons {ix = x} e c) b in
      elim (Option-cases (first_match str m.mb_arr (x ∷ ys))) [
        | inl absent ↦ rw (walked, absent, strict_create_at) refl
        | inr (ix, present) ↦
            rw (walked, present, strict_create_at, up_write-unchanged row m q) refl
      ]

  runs : strict_create_mbucket str m ≡ after_walk (first_match str m.mb_arr xs) (last_of xs)
  runs = begins ∙ walks r.chain (chain_short r)

  -- Where the path has a bucket, NULL is returned, and nothing changes.
  pub strict_create_exists :
      {ix : ℕ} → first_match str m.mb_arr xs ≡ some ix → strict_create_mbucket str m ≡ ok none m
  unfolding after_walk
  strict_create_exists e = runs ∙ rw e refl

  module _ (absent : first_match str m.mb_arr xs ≡ none) where
    allocates :
        strict_create_mbucket str m ≡ (allocate_mbucket >>= link_new row (last_of xs)) locked
    unfolding after_walk
    allocates = runs ∙ rw absent refl

    -- With no bucket left, NULL is returned.
    full_result :
        allocate_mbucket locked ≡ ok none (drawn locked)
        → strict_create_mbucket str m ≡ ok none (drawn m)
    unfolding link_new
    full_result e = allocates ∙ rw (e, link_new, up_write-unchanged row (drawn m) q) refl

    module _ {ix : ℕ} (f : Fresh m ix) (k : Kept m xs) where
      abbrev linked : Option ℕ → MetaMem
      linked none = set_first row (some ix) (taken ix locked)
      linked (some p) =
          set_bucket p (record ((taken ix locked).mb_arr p) { next_ix = some ix }) (taken ix locked)

      abbrev final : Option ℕ → MetaMem
      final b = with_lock row (lock_of row m) (linked b)

      lock_of-linked : (b : Option ℕ) → lock_of row (linked b) ≡ writing (lock_of row m)
      lock_of-linked none = ground arith
      lock_of-linked (some p) = ground arith

      link_run :
          (b : Option ℕ) → link_new row b (some ix) (taken ix locked) ≡ ok (some ix) (final b)
      unfolding link_new
      link_run none = rw (up_write-ok row (linked none) q (lock_of-linked none)) refl
      link_run (some p) = rw (up_write-ok row (linked (some p)) q (lock_of-linked (some p))) refl

      new_result :
          allocate_mbucket locked ≡ ok (some ix) (taken ix locked)
          → strict_create_mbucket str m ≡ ok (some ix) (final (last_of xs))
      new_result e = allocates ∙ rw e (link_run (last_of xs))

      final-new :
          (b : Option ℕ)
          → b ≢ some ix
          → (final b).mb_arr ix ≡ record (m.mb_arr ix) { in_use = true }
      final-new none ne = ground arith
      final-new (some p) ne = ground arith

      final-kept :
          (b : Option ℕ) (j : ℕ)
          → j ≢ ix
          → (final b).mb_arr j ≡ record (m.mb_arr j) { next_ix = ((final b).mb_arr j).next_ix }
      final-kept none j ne = ground arith
      final-kept (some p) j ne = ground arith

      final-others : (b : Option ℕ) (j : ℕ) → j ≢ ix → b ≢ some j → (final b).mb_arr j ≡ m.mb_arr j
      final-others none j ne out = ground arith
      final-others (some p) j ne out = ground arith

      final-rows : (b : Option ℕ) (j : ℕ) → j ≢ row → (final b).hash_table j ≡ m.hash_table j
      final-rows none j ne = ground arith
      final-rows (some p) j ne = ground arith

      final-locks : (b : Option ℕ) (j : ℕ) → lock_of j (final b) ≡ lock_of j m
      final-locks none j = ground arith
      final-locks (some p) j = ground arith

      last-ne : last_of xs ≢ some ix
      last-ne e = absurd (ground (arith, k.used ix (last_of-has xs e), f.unused))

      final-Chain :
          {first : Option ℕ} {ys : List ℕ}
          → Chain m.mb_arr first ys
          → (m.hash_table row).first_ix ≡ first
          → Distinct ys
          → last_of ys ≢ some ix
          → Chain
              (final (last_of ys)).mb_arr
              ((final (last_of ys)).hash_table row).first_ix
              (ys ++ (ix ∷ []))
      final-Chain nil at d ne =
          let first : ((final none).hash_table row).first_ix ≡ some ix = ground arith in
          let next : ((final none).mb_arr ix).next_ix ≡ none =
            ground (arith, k.ends ix f.in_range f.unused) in
          rw first (cons next nil)
      final-Chain (cons {ix = x} {xs = ys} e c) at d ne =
          let p = end_of x ys in
          let first : ((final (some p)).hash_table row).first_ix ≡ some x = ground arith in
          let next : ((final (some p)).mb_arr ix).next_ix ≡ none =
            ground (arith, k.ends ix f.in_range f.unused) in
          rw first (extend next (cons e c) d (λ j i other. ground arith) (ground arith))

      new-Created : Created m (final (last_of xs)) row xs ix
      new-Created = record {
        fresh = f;
        chain = final-Chain r.chain refl r.distinct last-ne;
        new = final-new (last_of xs) last-ne;
        kept = final-kept (last_of xs);
        others = λ j ne out.
            final-others (last_of xs) j ne (λ e. absurd (ground (arith, last_of-has xs e)));
        rows = final-rows (last_of xs);
        locks = final-locks (last_of xs);
      }

    -- With the row's lock free, the buckets of its chain in use, every bucket that is not in use
    -- linked to none, and no bucket with the path: a bucket that was free is taken and put behind the
    -- chain, and only that chain's last link, and a number drawn, change besides; or, where every
    -- bucket is in use or locked, NULL is returned, and no bucket changes. The lock is given back.
    pub strict_create-Creates : Kept m xs → Creates m row xs (strict_create_mbucket str m)
    strict_create-Creates k = elim (allocate_mbucket-cases locked) [
      | inl (ix, f, e) ↦
          let g : Fresh m ix = record {
            in_range = f.in_range;
            unused = f.unused;
            unlocked = f.unlocked;
          } in
          rw (new_result g k e) (new-Created g k)
      | inr (full, e) ↦ rw (full_result e) (full, refl)
    ]
