-- ===== src/Meta/Release.antt =====
-- `release_meta_bucket` of system/util/meta_shm.c.
use spacefish.Prelude.{
  ℕ, ◌≡◌, ◌≢◌, refl, ◌∙◌, true, false, Option, none, some, List, arith, has, if◌then◌else◌,
}
use spacefish.Text.{CString}
use spacefish.Hash.{hash}
use spacefish.Run.{done, failed, ok}
use spacefish.Meta.{MetaMem, chain_fuel, with_lock, set_bucket, set_first}
use spacefish.Meta.Ops.{freed, get_mb_and_prev, free_bucket, release_found, release_meta_bucket}
use spacefish.Meta.Chain.{Chain, first_match, before_match, prev_walk-before}
use spacefish.Meta.Locks.{
  Quiet, lock_of, writing, row_of-ok, down_write-ok, first_ix-with_lock, up_write-ok, write_locked,
  up_write-unchanged,
}
use spacefish.Meta.Lookup.{RowOk, chain_short}
use spacefish.Meta.Unlink.{
  drop_match, Bypass, bypass, is_none, before_match-ne, before_match-has, has-drop_match,
}

-- What a release of the bucket `ix` of the row's chain `xs` leaves: a chain without it, the bucket
-- free and empty, and everything else as it was but for the links of the chain.
pub record Released (m m' : MetaMem) (row ix : ℕ) (rest : List ℕ) : Type 0 where
  pub chain : Chain m'.mb_arr (m'.hash_table row).first_ix rest
  pub free : m'.mb_arr ix ≡ freed (record (m.mb_arr ix) { next_ix = none })
  pub kept :
      (j : ℕ) → j ≢ ix → m'.mb_arr j ≡ record (m.mb_arr j) { next_ix = (m'.mb_arr j).next_ix }
  pub others : (j : ℕ) → j ≢ ix → has j rest ≡ false → m'.mb_arr j ≡ m.mb_arr j
  pub rows : (r : ℕ) → r ≢ row → m'.hash_table r ≡ m.hash_table r
  pub locks : (r : ℕ) → lock_of r m' ≡ lock_of r m

module _ (str : CString) {row : ℕ} {m : MetaMem} {xs : List ℕ} (h : hash str ≡ some row)
    (q : Quiet (lock_of row m)) (r : RowOk m row xs) where
  abbrev locked : MetaMem
  locked = write_locked row m

  abbrev prev : Option ℕ
  prev = before_match str m.mb_arr none xs

  found_prev : get_mb_and_prev str row locked ≡ ok (first_match str m.mb_arr xs, prev) locked
  unfolding get_mb_and_prev
  found_prev =
      rw (first_ix-with_lock row m, prev_walk-before str chain_fuel none r.chain (chain_short r))
        refl

  begins : release_meta_bucket str m ≡ release_found row (first_match str m.mb_arr xs, prev) locked
  unfolding release_meta_bucket
  begins = rw (row_of-ok str m h, down_write-ok row m q.readers q.free, found_prev) refl

  -- With the row's lock free and no bucket for the path, the result is -1, and nothing changes.
  pub release_missing : first_match str m.mb_arr xs ≡ none → release_meta_bucket str m ≡ ok failed m
  unfolding release_found
  release_missing e = rw (begins, e, release_found, up_write-unchanged row m q) refl

  module _ {ix : ℕ} (e : first_match str m.mb_arr xs ≡ some ix)
      (unlocked : (m.mb_arr ix).locked ≡ false) where
    abbrev next : Option ℕ
    next = (m.mb_arr ix).next_ix

    -- The states between the steps, `b` the bucket before.
    abbrev linked : Option ℕ → MetaMem
    linked none = set_first row next locked
    linked (some p) = set_bucket p (record (m.mb_arr p) { next_ix = next }) locked

    abbrev cut : Option ℕ → MetaMem
    cut b = set_bucket ix (record ((linked b).mb_arr ix) { next_ix = none }) (linked b)

    abbrev unlocked_row : Option ℕ → MetaMem
    unlocked_row b = with_lock row (lock_of row m) (cut b)

    abbrev final : Option ℕ → MetaMem
    final b = set_bucket ix (freed ((unlocked_row b).mb_arr ix)) (unlocked_row b)

    lock_of-cut : (b : Option ℕ) → lock_of row (cut b) ≡ writing (lock_of row m)
    lock_of-cut none = ground arith
    lock_of-cut (some p) = ground arith

    free_after : (b : Option ℕ) → ((unlocked_row b).mb_arr ix).locked ≡ false
    free_after none = ground arith
    free_after (some p) = ground arith

    release_run : (b : Option ℕ) → release_found row (some ix, b) locked ≡ ok done (final b)
    unfolding release_found free_bucket
    release_run none = rw (up_write-ok row (cut none) q (lock_of-cut none), free_after none) refl
    release_run (some p) =
        rw (up_write-ok row (cut (some p)) q (lock_of-cut (some p)), free_after (some p)) refl

    final-first :
        (b : Option ℕ)
        → ((final b).hash_table row).first_ix
          ≡ (if is_none b then next else (m.hash_table row).first_ix)
    final-first none = ground arith
    final-first (some p) = ground arith

    final-Bypass : (b : Option ℕ) → b ≢ some ix → Bypass str m.mb_arr (final b).mb_arr b ix
    final-Bypass none ne = record { others = λ j a c. ground arith; around = λ p c. absurd (cc) }
    final-Bypass (some p) ne = record {
      others = λ j a c. ground arith;
      around = λ p' c. ground arith;
    }

    final-free :
        (b : Option ℕ)
        → b ≢ some ix
        → (final b).mb_arr ix ≡ freed (record (m.mb_arr ix) { next_ix = none })
    final-free none ne = ground arith
    final-free (some p) ne = ground arith

    final-kept :
        (b : Option ℕ) (j : ℕ)
        → j ≢ ix
        → (final b).mb_arr j ≡ record (m.mb_arr j) { next_ix = ((final b).mb_arr j).next_ix }
    final-kept none j ne = ground arith
    final-kept (some p) j ne = ground arith

    final-others : (b : Option ℕ) (j : ℕ) → j ≢ ix → b ≢ some j → (final b).mb_arr j ≡ m.mb_arr j
    final-others none j ne out = ground arith
    final-others (some p) j ne out = ground arith

    prev-rest : (j : ℕ) → j ≢ ix → prev ≡ some j → has j (drop_match str m.mb_arr xs) ≡ true
    prev-rest j ne at =
        let inside = before_match-has str m.mb_arr xs at in
        ground (arith, has-drop_match str m.mb_arr xs r.distinct e j)

    final-rows : (b : Option ℕ) (j : ℕ) → j ≢ row → (final b).hash_table j ≡ m.hash_table j
    final-rows none j ne = ground arith
    final-rows (some p) j ne = ground arith

    final-locks : (b : Option ℕ) (j : ℕ) → lock_of j (final b) ≡ lock_of j m
    final-locks none j = ground arith
    final-locks (some p) j = ground arith

    -- With the row's lock free, the path's first bucket, when its lock is free, leaves the chain and
    -- is free and empty, and the result is 0; only links of the chain change besides, and every lock
    -- is given back.
    pub release-Released :
        (m' : MetaMem) × (release_meta_bucket str m ≡ ok done m')
        × Released m m' row ix (drop_match str m.mb_arr xs)
    release-Released =
        let ne : prev ≢ some ix = before_match-ne str m.mb_arr none xs (λ c. cc) r.distinct e in
        (
          final prev,
          begins ∙ rw e (release_run prev),
          record {
            chain =
                rw (final-first prev)
                  (bypass str m.mb_arr r.chain r.distinct e (final-Bypass prev ne));
            free = final-free prev ne;
            kept = final-kept prev;
            others = λ j ne out.
                final-others prev j ne (λ at. absurd (ground (arith, prev-rest j ne at)));
            rows = final-rows prev;
            locks = final-locks prev;
          },
        )
