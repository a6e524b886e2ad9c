-- ===== src/Meta/Table.antt =====
-- The whole hash table of system/util/meta_shm.c: its invariant, and the table as a map from paths to
-- buckets.
use spacefish.Prelude.{
  ℕ, ◌≡◌, ◌≢◌, ◌<◌, refl, ap, sym, ◌∙◌, inl, inr, true, false, ◌||◌, List, [], ◌∷◌, ◌++◌, arith,
  ◌==◌, has, Distinct, AllBelow, Bool-cases, update,
}
use spacefish.Config.{meta_buckets, hash_table_size}
use spacefish.Meta.{MetaMem}
use spacefish.Meta.Create.{Kept, Created}
use spacefish.Meta.Locks.{Quiet, lock_of}
use spacefish.Meta.Lookup.{RowOk}
use spacefish.Meta.Unlink.{frame}

-- Row `r` is the chain `rows r`; no bucket is in two rows; the buckets of the rows are in use, and one
-- that is not leads nowhere; nobody holds a lock.
pub record TableOk (m : MetaMem) (rows : ℕ → List ℕ) : Type 0 where
  pub row : (r : ℕ) → r < hash_table_size → RowOk m r (rows r)
  pub quiet : (r : ℕ) → r < hash_table_size → Quiet (lock_of r m)
  pub unlocked : (j : ℕ) → j < meta_buckets → (m.mb_arr j).locked ≡ false
  pub kept : (r : ℕ) → Kept m (rows r)
  pub apart : (r s j : ℕ) → has j (rows r) ≡ true → has j (rows s) ≡ true → r ≡ s

pub has-snoc : (j : ℕ) (xs : List ℕ) (ix : ℕ) → has j (xs ++ (ix ∷ [])) ≡ (has j xs || (ix == j))
has-snoc j [] ix = ground arith
has-snoc j (x ∷ xs) ix = ground (arith, has-snoc j xs ix)

Distinct-snoc :
    (xs : List ℕ) (ix : ℕ) → Distinct xs → has ix xs ≡ false → Distinct (xs ++ (ix ∷ []))
Distinct-snoc [] ix d out = (refl, tt)
Distinct-snoc (x ∷ xs) ix (new, d) out =
    (ground (arith, has-snoc x xs ix), Distinct-snoc xs ix d (ground arith))

AllBelow-snoc :
    (n : ℕ) (xs : List ℕ) (ix : ℕ) → AllBelow n xs → ix < n → AllBelow n (xs ++ (ix ∷ []))
AllBelow-snoc n [] ix h less = (less, tt)
AllBelow-snoc n (x ∷ xs) ix (here, h) less = (here, AllBelow-snoc n xs ix h less)

-- A row that a change leaves alone.
pub RowOk-frame :
    {m m' : MetaMem} {r : ℕ} {xs : List ℕ}
    → RowOk m r xs
    → m'.hash_table r ≡ m.hash_table r
    → ((j : ℕ) → has j xs ≡ true → (m'.mb_arr j).next_ix ≡ (m.mb_arr j).next_ix)
    → RowOk m' r xs
RowOk-frame o e same = record {
  chain = rw e (frame o.chain same);
  distinct = o.distinct;
  in_array = o.in_array;
}

-- The rows, `ix` behind the row `row`.
abbrev pub grown : (rows : ℕ → List ℕ) → (row ix : ℕ) → ℕ → List ℕ
grown rows row ix = update rows row (rows row ++ (ix ∷ []))

module _ {m m' : MetaMem} {rows : ℕ → List ℕ} (t : TableOk m rows) {row ix : ℕ}
    (bound : row < hash_table_size) (c : Created m m' row (rows row) ix) where
  out_of_rows : (r : ℕ) → has ix (rows r) ≡ false
  out_of_rows r = elim (Bool-cases (has ix (rows r))) [
    | inl inside ↦ absurd (ground (arith, (t.kept r).used ix inside, c.fresh.unused))
    | inr outside ↦ outside
  ]

  -- A bucket of another row.
  elsewhere : (r j : ℕ) → r ≢ row → has j (rows r) ≡ true → m'.mb_arr j ≡ m.mb_arr j
  elsewhere r j ne inside =
      c.others j (ground (arith, out_of_rows r)) (elim (Bool-cases (has j (rows row))) [
        | inl both ↦ absurd (ne (t.apart r row j inside both))
        | inr outside ↦ outside
      ])

  used_after : (j : ℕ) → j ≢ ix → (m'.mb_arr j).in_use ≡ (m.mb_arr j).in_use
  used_after j ne = ap (λ b. b.in_use) (c.kept j ne)

  grown-has : (r j : ℕ) → has j (grown rows row ix r) ≡ true → j ≢ ix → has j (rows r) ≡ true
  grown-has r j h ne = elim (Bool-cases (r == row)) [
    | inl here ↦ ground (arith, has-snoc j (rows row) ix)
    | inr there ↦ ground arith
  ]

  -- The new bucket is only in its own row.
  grown-new : (r : ℕ) → has ix (grown rows row ix r) ≡ true → r ≡ row
  grown-new r h = ground (arith, out_of_rows r)

  created_row : (r : ℕ) → r < hash_table_size → RowOk m' r (grown rows row ix r)
  created_row r less = elim (Bool-cases (r == row)) [
    | inl here ↦
        let same : r ≡ row = ground arith in
        let o = t.row row bound in
        rw (here, same)
          (record {
            chain = c.chain;
            distinct = Distinct-snoc (rows row) ix o.distinct (out_of_rows row);
            in_array = AllBelow-snoc meta_buckets (rows row) ix o.in_array c.fresh.in_range;
          })
    | inr there ↦
        let ne : r ≢ row = ground arith in
        rw there (
          RowOk-frame (t.row r less) (c.rows r ne)
            (λ j i. ap (λ b. b.next_ix) (elsewhere r j ne i)))
  ]

  created-Kept : (r : ℕ) → Kept m' (grown rows row ix r)
  created-Kept r = record {
    used = λ j inside. elim (Bool-cases (j == ix)) [
      | inl same ↦ let e : j ≡ ix = ground arith in rw (e, c.new) refl
      | inr other ↦
          let ne : j ≢ ix = ground arith in
          used_after j ne ∙ (t.kept r).used j (grown-has r j inside ne)
    ];
    ends = λ j small free. elim (Bool-cases (j == ix)) [
      | inl same ↦ absurd (ground (arith, c.new, free))
      | inr other ↦
          let ne : j ≢ ix = ground arith in
          let before : (m.mb_arr j).in_use ≡ false = sym (used_after j ne) ∙ free in
          let loose : has j (rows row) ≡ false = ground (arith, (t.kept row).used j, before) in
          ap (λ b. b.next_ix) (c.others j ne loose) ∙ (t.kept row).ends j small before
    ];
  }

  created_apart :
      (r s j : ℕ) → has j (grown rows row ix r) ≡ true → has j (grown rows row ix s) ≡ true → r ≡ s
  created_apart r s j a b = elim (Bool-cases (j == ix)) [
    | inl same ↦
        let e : j ≡ ix = ground arith in grown-new r (rw e at a) ∙ sym (grown-new s (rw e at b))
    | inr other ↦
        let ne : j ≢ ix = ground arith in t.apart r s j (grown-has r j a ne) (grown-has s j b ne)
  ]

  pub Created-TableOk : TableOk m' (grown rows row ix)
  Created-TableOk = record {
    row = created_row;
    quiet = λ r less. rw (c.locks r) (t.quiet r less);
    unlocked = λ j small. elim (Bool-cases (j == ix)) [
      | inl same ↦ let e : j ≡ ix = ground arith in rw (e, c.new) (t.unlocked ix c.fresh.in_range)
      | inr other ↦ ap (λ b. b.locked) (c.kept j (ground arith)) ∙ t.unlocked j small
    ];
    kept = created-Kept;
    apart = created_apart;
  }
