-- ===== src/Meta/Allocate.antt =====
-- `allocate_mbucket` of system/util/meta_shm.c: what a search of the whole array comes to.
use spacefish.Prelude.{
  ℕ, ◌+◌, ◌-◌, ◌%◌, ◌<◌, ◌≡◌, ◌⊎◌, refl, ap, ◌∙◌, inl, inr, true, false, ◌||◌, none, some, arith,
  update, Option-cases,
}
use spacefish.Config.{meta_buckets}
use spacefish.Scan.{scan, scan-some, scan-none}
use spacefish.Run.{ok}
use spacefish.Meta.{MetaBucket, MetaMem, claim_mbucket, walk_meta, allocate_mbucket}

-- A draw has been made.
abbrev pub drawn : MetaMem → MetaMem
drawn m = record m { draws = λ n. m.draws (n + 1) }

-- The bucket `ix` is in use besides.
abbrev pub taken : ℕ → MetaMem → MetaMem
taken ix m = record (drawn m) {
  mb_arr = update m.mb_arr ix (record (m.mb_arr ix) { in_use = true });
}

-- A bucket of the array that can be taken.
pub record Fresh (m : MetaMem) (ix : ℕ) : Type 0 where
  pub in_range : ix < meta_buckets
  pub unused : (m.mb_arr ix).in_use ≡ false
  pub unlocked : (m.mb_arr ix).locked ≡ false

-- No bucket can be taken.
abbrev pub Full : MetaMem → Type 0
Full m = (j : ℕ) → j < meta_buckets → ((m.mb_arr j).in_use || (m.mb_arr j).locked) ≡ true

claim_mbucket-some :
    (b : MetaBucket) {c : MetaBucket}
    → claim_mbucket b ≡ some c
    → (b.in_use ≡ false) × (b.locked ≡ false) × (c ≡ record b { in_use = true })
unfolding claim_mbucket
claim_mbucket-some b h = ground arith

claim_mbucket-none : (b : MetaBucket) → claim_mbucket b ≡ none → (b.in_use || b.locked) ≡ true
unfolding claim_mbucket
claim_mbucket-none b h = ground arith

walk_meta_onto :
    (mindex j : ℕ)
    → mindex < meta_buckets
    → j < meta_buckets
    → (i : ℕ) × (i < meta_buckets) × (walk_meta mindex i ≡ j)
walk_meta_onto mindex j h k = ((j + meta_buckets - mindex) % meta_buckets, omega arith, omega arith)

pub allocate_mbucket-cases :
    (m : MetaMem)
    → ((ix : ℕ) × Fresh m ix × (allocate_mbucket m ≡ ok (some ix) (taken ix m)))
      ⊎ (Full m × (allocate_mbucket m ≡ ok none (drawn m)))
unfolding allocate_mbucket
allocate_mbucket-cases m =
    let mindex = m.draws 0 % meta_buckets in
    let visits = walk_meta mindex in
    elim (Option-cases (scan claim_mbucket visits meta_buckets 0 m.mb_arr)) [
      | inl e ↦ inr (
        λ j less.
            let (i, below, at) = walk_meta_onto mindex j (omega arith) less in
            let busy = claim_mbucket-none _ (
              scan-none claim_mbucket visits meta_buckets 0 m.mb_arr e i (omega arith)
                (omega arith)) in
            rw at at busy,
        rw (e, allocate_mbucket) refl,
      )
      | inr ((i, arr), e) ↦
          let c = scan-some claim_mbucket visits meta_buckets 0 e in
          let (free, unlocked, new) = claim_mbucket-some _ c.claimed in
          inl (
            visits i,
            record { in_range = omega arith; unused = free; unlocked = unlocked },
            rw (e, allocate_mbucket)
                (ap (λ a. ok (some (visits i)) (record (drawn m) { mb_arr = a }))
                  (c.written ∙ ap (update m.mb_arr (visits i)) new)),
          )
    ]
