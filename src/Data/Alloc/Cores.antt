-- ===== src/Data/Alloc/Cores.antt =====
-- `get_set_core_index` of system/util/data_shm.c, and the slices of the cores.
use spacefish.Prelude.{
  ℕ, ◌+◌, ◌*◌, ◌/◌, ◌≤◌, ◌<◌, ◌≡◌, ◌≢◌, ◌⊎◌, ◌∙◌, refl, inl, inr, true, false, Option, none, some,
  arith, ◌==◌, update, update-same, Bool-cases, Option-cases,
}
use native.Mathlib.Nat.{div-mul-le_self}
use native.Mathlib.Decide.{dec_lt}
use spacefish.Run.{Run, ok, died, stuck, fault}
use spacefish.Scan.{scan, scan-some, scan-none}
use spacefish.Data.{CoreSt, DataMem, claim_core}
use spacefish.Data.Alloc.{tot_buckets, bkts_per_core, is_core, get_set_core_index}
use spacefish.Data.Alloc.Bounds.{slice_start, slice_end}

-- The record at `i` belongs to core `n`.
pub record Owns (s : DataMem) (n i : ℕ) : Type 0 where
  pub in_range : i < s.ncores
  pub used : (s.cores i).in_use ≡ true
  pub number : (s.cores i).core_n ≡ some n

-- No core has two records, the records are taken from the front, no lock is left held, and the core
-- last seen has the record last returned.
pub record CoresOk (s : DataMem) : Type 0 where
  pub unique : (n i j : ℕ) → Owns s n i → Owns s n j → i ≡ j
  pub packed :
      (i j : ℕ) → i < j → j < s.ncores → (s.cores j).in_use ≡ true → (s.cores i).in_use ≡ true
  pub quiet : (i : ℕ) → i < s.ncores → (s.cores i).locked ≡ false
  pub last : (n : ℕ) → s.last_core_num ≡ some n → Owns s n s.last_core_ix

-- `t` keeps every record of `s` that is in use.
abbrev pub Keeps : DataMem → DataMem → Type 0
Keeps s t = (n i : ℕ) → Owns s n i → Owns t n i

is_core-eq : (n : ℕ) (o : Option ℕ) → is_core n o ≡ true → o ≡ some n
is_core-eq n none h = cc
is_core-eq n (some m) h = ground arith

claim_core-some :
    (n : ℕ) (c : CoreSt) {d : CoreSt}
    → claim_core n c ≡ some d
    → ((c.in_use ≡ true) × (c.core_n ≡ some n) × (d ≡ c))
      ⊎ ((c.in_use ≡ false) × (d.in_use ≡ true) × (d.core_n ≡ some n) × (d.locked ≡ false))
unfolding claim_core
claim_core-some n c h = ground arith

claim_core_busy : (n : ℕ) (c : CoreSt) → claim_core n c ≡ none → c.locked ≡ false → c.in_use ≡ true
unfolding claim_core
claim_core_busy n c h quiet = ground arith

claim_core-none : (n : ℕ) (c : CoreSt) → claim_core n c ≡ none → c.in_use ≡ true → c.core_n ≢ some n
unfolding claim_core
claim_core-none n c h = ground arith

-- The record found belongs to this core, and the invariant is kept; where the process ends, every
-- record belongs to another core.
abbrev pub Finds : DataMem → Run DataMem ℕ → Type 0
Finds s (ok i t) = Owns t s.cpu i × CoresOk t × Keeps s t × (t.ncores ≡ s.ncores)
Finds s (died t) =
    (i : ℕ) → i < s.ncores → ((s.cores i).in_use ≡ true) × ((s.cores i).core_n ≢ some s.cpu)
Finds s stuck = ⊥
Finds s fault = ⊥

module _ (s : DataMem) (v : CoresOk s) where
  abbrev seen : ℕ → (ℕ → CoreSt) → DataMem
  seen i cores = record s { cores = cores; last_core_ix = i; last_core_num = some s.cpu }

  -- The record is this core's already.
  seen-Finds : (i : ℕ) → Owns s s.cpu i → Finds s (ok i (seen i s.cores))
  seen-Finds i o = (
    record { in_range = o.in_range; used = o.used; number = o.number },
    record {
      unique = λ n a b p q.
          v.unique n a b (record { in_range = p.in_range; used = p.used; number = p.number })
            (record { in_range = q.in_range; used = q.used; number = q.number });
      packed = v.packed;
      quiet = v.quiet;
      last = λ n e. record { in_range = o.in_range; used = o.used; number = ground arith };
    },
    λ n a p. record { in_range = p.in_range; used = p.used; number = p.number },
    refl,
  )

  module _ (i : ℕ) (d : CoreSt) (less : i < s.ncores) (free : (s.cores i).in_use ≡ false)
      (used : d.in_use ≡ true) (number : d.core_n ≡ some s.cpu) (unlocked : d.locked ≡ false)
      (skipped : (r : ℕ) → r < i → claim_core s.cpu (s.cores r) ≡ none) where
    abbrev new : DataMem
    new = seen i (update s.cores i d)

    Owns-none : (j : ℕ) → Owns s s.cpu j → ⊥
    Owns-none j o = elim (dec_lt j i) [
      | yes before ↦ claim_core-none s.cpu (s.cores j) (skipped j before) o.used o.number
      | no other ↦ absurd (ground (arith, v.packed i j, o.used, o.in_range))
    ]

    Owns-new : (n j : ℕ) → Owns new n j → ((j ≡ i) × (n ≡ s.cpu)) ⊎ Owns s n j
    Owns-new n j o = elim (Bool-cases (j == i)) [
      | inl same ↦ inl (ground arith, ground (arith, o.number))
      | inr other ↦ inr (record {
        in_range = o.in_range;
        used = ground (arith, o.used);
        number = ground (arith, o.number);
      })
    ]

    Owns-old : (n j : ℕ) → Owns s n j → Owns new n j
    Owns-old n j o = record {
      in_range = o.in_range;
      used = ground (arith, o.used);
      number = ground (arith, o.number, o.used);
    }

    unique_new :
        (n a b : ℕ)
        → ((a ≡ i) × (n ≡ s.cpu)) ⊎ Owns s n a
        → ((b ≡ i) × (n ≡ s.cpu)) ⊎ Owns s n b
        → a ≡ b
    unique_new n a b (inl p) (inl q) = ground arith
    unique_new n a b (inl p) (inr q) = absurd (Owns-none b (rw p.1 at q))
    unique_new n a b (inr p) (inl q) = absurd (Owns-none a (rw q.1 at p))
    unique_new n a b (inr p) (inr q) = v.unique n a b p q

    new-Finds : Finds s (ok i new)
    new-Finds = (
      record { in_range = less; used = ground arith; number = ground arith },
      record {
        unique = λ n a b p q. unique_new n a b (Owns-new n a p) (Owns-new n b q);
        packed = λ a b h k e. ground (
          arith,
          v.packed a b,
          v.packed a i,
          claim_core_busy s.cpu (s.cores a),
          skipped a,
          v.quiet a,
        );
        quiet = λ j h. ground (arith, v.quiet j);
        last = λ n e. record { in_range = less; used = ground arith; number = ground arith };
      },
      Owns-old,
      refl,
    )

  claimed-Finds :
      (i : ℕ) (cores : ℕ → CoreSt)
      → scan (claim_core s.cpu) (λ i. i) s.ncores 0 s.cores ≡ some (i, cores)
      → Finds s (ok i (seen i cores))
  claimed-Finds i cores e =
      let c = scan-some (claim_core s.cpu) (λ i. i) s.ncores 0 e in
      rw c.written (elim (claim_core-some s.cpu (s.cores i) c.claimed) [
        | inl (used, number, same) ↦
            rw (same, update-same s.cores i)
              (seen-Finds i
                (record { in_range = omega (arith, c.below); used = used; number = number }))
        | inr (free, used, number, unlocked) ↦
            new-Finds i c.new (omega (arith, c.below)) free used number unlocked
              (λ r h. c.skipped r (omega arith) h)
      ])

  -- With no core's record held twice and no lock left held, a core gets the record that is its own, or
  -- a free one that becomes its own; every core keeps its record. Where the process ends, every record
  -- belongs to another core.
  pub get_set_core_index-Finds : Finds s (get_set_core_index s)
  unfolding get_set_core_index
  get_set_core_index-Finds = elim (Bool-cases (is_core s.cpu s.last_core_num)) [
    | inl again ↦
        rw again (v.last s.cpu (is_core-eq s.cpu s.last_core_num again), v, λ n i o. o, refl)
    | inr fresh ↦
        rw fresh (elim (Option-cases (scan (claim_core s.cpu) (λ i. i) s.ncores 0 s.cores)) [
          | inl e ↦ rw e (λ i h.
              let none_here =
                scan-none (claim_core s.cpu) (λ i. i) s.ncores 0 s.cores e i (omega arith)
                  (omega arith) in
              let used = claim_core_busy s.cpu (s.cores i) none_here (v.quiet i h) in
              (used, claim_core-none s.cpu (s.cores i) none_here used))
          | inr ((i, cores), e) ↦ rw e (claimed-Finds i cores e)
        ])
  ]

slice_apart : (b i j : ℕ) → i ≢ j → (b * i + b ≤ b * j) ⊎ (b * j + b ≤ b * i)
slice_apart b i j ne = elim (dec_lt i j) [
  | yes before ↦ inl (grind arith)
  | no after ↦ let less : j < i = omega arith in inr (grind arith)
]

slice_fits : (n i : ℕ) → i < n → tot_buckets / n * i + tot_buckets / n ≤ tot_buckets
slice_fits n i less =
    let all = div-mul-le_self tot_buckets n in
    let b = tot_buckets / n in let part : b * i + b ≤ b * n = grind arith in omega arith

-- Two cores that ask one after the other get slices of the buckets that share no index.
pub slices_disjoint :
    {s t u w : DataMem} {i j : ℕ}
    → CoresOk s
    → get_set_core_index s ≡ ok i t
    → CoresOk u
    → Keeps t u
    → u.ncores ≡ t.ncores
    → u.cpu ≢ s.cpu
    → get_set_core_index u ≡ ok j w
    → ((slice_end t i ≤ slice_start w j) ⊎ (slice_end w j ≤ slice_start t i))
      × (slice_end t i ≤ tot_buckets)
      × (slice_end w j ≤ tot_buckets)
slices_disjoint {s} {t} {u} {w} {i} {j} v got v' keeps n other got' =
    let (mine, ok_t, kept, n_t) : Finds s (ok i t) = rw got at (get_set_core_index-Finds s v) in
    let (theirs, ok_w, kept', n_w) : Finds u (ok j w) =
      rw got' at (get_set_core_index-Finds u v') in
    let mine' = kept' _ _ (keeps _ _ mine) in
    let same_count : w.ncores ≡ t.ncores = n_w ∙ n in
    let apart : i ≢ j = λ e. other (ground (arith, mine'.number, theirs.number)) in
    rw same_count (
      slice_apart (bkts_per_core t) i j apart,
      slice_fits t.ncores i mine.in_range,
      slice_fits t.ncores j (rw same_count at theirs.in_range),
    )
