-- ===== src/Meta/Map.antt =====
-- The hash table of system/util/meta_shm.c as a map from paths to buckets.
use spacefish.Prelude.{
  ℕ, ◌≡◌, ◌≢◌, ◌<◌, refl, ap, ◌∙◌, inl, inr, true, false, ◌||◌, Option, none, some, List, [], ◌∷◌,
  ◌++◌, arith, ◌==◌, has, if◌then◌else◌, Bool-cases, Option-cases, update, length,
}
use spacefish.Config.{path_max, hash_table_size}
use spacefish.Text.{CString, same_path, same_path_short, same_path_sym}
use spacefish.Hash.{hash, hash_bounds}
use spacefish.Meta.{MetaBucket, MetaMem, set_bucket}
use spacefish.Meta.Chain.{first_match}
use spacefish.Meta.Create.{Created}
use spacefish.Meta.Table.{TableOk, RowOk-frame, has-snoc, grown, Created-TableOk}

-- Of two buckets of a row, the paths differ.
abbrev pub Single : (ℕ → MetaBucket) → List ℕ → Type 0
Single arr xs =
    (i j : ℕ)
    → has i xs ≡ true
    → has j xs ≡ true
    → same_path (arr i).path (arr j).path ≡ true
    → i ≡ j

-- The table stands for the map: the first bucket of a path's row with the path is the path's value,
-- and no two buckets of a row have the same path.
pub record Implements (m : MetaMem) (rows : ℕ → List ℕ) (map : CString → Option ℕ) : Type 0 where
  pub table : TableOk m rows
  pub agrees : (p : CString) {r : ℕ} → hash p ≡ some r → first_match p m.mb_arr (rows r) ≡ map p
  pub single : (r : ℕ) → Single m.mb_arr (rows r)

-- The operations of the map.
abbrev pub insert : CString → ℕ → (CString → Option ℕ) → CString → Option ℕ
insert str ix map p = if same_path p str then some ix else map p

abbrev pub remove : CString → (CString → Option ℕ) → CString → Option ℕ
remove str map p = if same_path p str then none else map p

-- The bucket is given its path, by `strcpy(mb->path, str)` of the function that has created it.
abbrev pub named : ℕ → CString → MetaMem → MetaMem
named ix str m = set_bucket ix (record (m.mb_arr ix) { path = str }) m

module _ (arr arr' : ℕ → MetaBucket) (p : CString) where
  pub first_match-frame :
      (xs : List ℕ)
      → ((j : ℕ) → has j xs ≡ true → (arr' j).path ≡ (arr j).path)
      → first_match p arr' xs ≡ first_match p arr xs
  unfolding first_match
  first_match-frame [] same = refl
  first_match-frame (x ∷ xs) same =
      ground (arith, same x (ground arith), first_match-frame xs (λ j i. same j (ground arith)))

  -- A path that the old chain has not.
  first_match-snoc :
      (xs : List ℕ) (ix : ℕ) {o : Option ℕ}
      → ((j : ℕ) → has j xs ≡ true → (arr' j).path ≡ (arr j).path)
      → first_match p arr xs ≡ o
      → first_match p arr' (xs ++ (ix ∷ []))
        ≡ elim o [ some j ↦ some j | none ↦ if same_path p (arr' ix).path then some ix else none ]
  unfolding first_match
  first_match-snoc [] ix same e = ground arith
  first_match-snoc (x ∷ xs) ix {o} same e = elim (Bool-cases (same_path p (arr x).path)) [
    | inl hit ↦ ground (arith, same x (ground arith))
    | inr miss ↦ ground (
      arith,
      same x (ground arith),
      first_match-snoc xs ix {o = o} (λ j i. same j (ground arith)),
    )
  ]

-- A bucket of the chain does not have a path that the chain has not.
pub first_match-none :
    (arr : ℕ → MetaBucket) (p : CString) (xs : List ℕ)
    → first_match p arr xs ≡ none
    → (j : ℕ) → has j xs ≡ true
    → same_path p (arr j).path ≡ false
unfolding first_match
first_match-none arr p [] e j i = absurd (cc)
first_match-none arr p (x ∷ xs) e j i = elim (Bool-cases (x == j)) [
  | inl here ↦ ground arith
  | inr there ↦ first_match-none arr p xs (ground arith) j (ground arith)
]

module _ {m m' : MetaMem} {rows : ℕ → List ℕ} {map : CString → Option ℕ} (v : Implements m rows map)
    (str : CString) {row ix : ℕ} (h : hash str ≡ some row) (short : length str < path_max)
    (absent : map str ≡ none) (c : Created m m' row (rows row) ix) where
  bound : row < hash_table_size
  bound = (hash_bounds str h).0

  abbrev after : MetaMem
  after = named ix str m'

  abbrev new_rows : ℕ → List ℕ
  new_rows = grown rows row ix

  path_kept : (j : ℕ) → j ≢ ix → (after.mb_arr j).path ≡ (m.mb_arr j).path
  path_kept j ne = ground (arith, c.kept j ne)

  in_row-ne : (r j : ℕ) → has j (rows r) ≡ true → j ≢ ix
  in_row-ne r j i e = absurd (ground (arith, (v.table.kept r).used j i, c.fresh.unused))

  absent_in_row : first_match str m.mb_arr (rows row) ≡ none
  absent_in_row = v.agrees str h ∙ absent

  after_table : TableOk after new_rows
  after_table =
      let t = Created-TableOk v.table bound c in
      record {
        row = λ r less. RowOk-frame (t.row r less) refl (λ j i. ground arith);
        quiet = t.quiet;
        unlocked = λ j small. ground (arith, t.unlocked j small);
        kept = λ r. record {
          used = λ j i. ground (arith, (t.kept r).used j i);
          ends = λ j small free. ground (arith, (t.kept r).ends j small);
        };
        apart = t.apart;
      }

  value :
      (p : CString)
      → elim (map p) [
        | some j ↦ some j
        | none ↦ if same_path p (after.mb_arr ix).path then some ix else none
      ]
        ≡ insert str ix map p
  value p =
      let at : (after.mb_arr ix).path ≡ str = ground arith in
      elim (Bool-cases (same_path p str)) [
        | inl hit ↦
            let none_yet : map p ≡ none = ap map (same_path_short p str short hit) ∙ absent in
            rw (none_yet, at, hit) refl
        | inr miss ↦ elim (Option-cases (map p)) [
          | inl nothing ↦ rw (nothing, at, miss) refl
          | inr (j, there) ↦ rw (there, miss) refl
        ]
      ]

  after_agrees :
      (p : CString) {r : ℕ}
      → hash p ≡ some r
      → first_match p after.mb_arr (new_rows r) ≡ insert str ix map p
  after_agrees p {r} k = elim (Bool-cases (r == row)) [
    | inl here ↦
        let e : r ≡ row = ground arith in
        let old : first_match p m.mb_arr (rows row) ≡ map p = v.agrees p (k ∙ ap some e) in
        rw here (
          first_match-snoc m.mb_arr after.mb_arr p (rows row) ix
            (λ j i. path_kept j (in_row-ne row j i)) old
          ∙ value p)
    | inr there ↦
        let miss : same_path p str ≡ false = elim (Bool-cases (same_path p str)) [
          | inl hit ↦ absurd (ground (arith, ap hash (same_path_short p str short hit), h, k))
          | inr miss ↦ miss
        ] in
        rw (there, miss)
          (first_match-frame m.mb_arr after.mb_arr p (rows r) (λ j i. path_kept j (in_row-ne r j i))
            ∙ v.agrees p k)
  ]

  -- A path of the row's old buckets is not the new one.
  new_single : (j : ℕ) → has j (rows row) ≡ true → same_path str (after.mb_arr j).path ≡ true → ⊥
  new_single j i same =
      let miss = first_match-none m.mb_arr str (rows row) absent_in_row j i in
      let e : (after.mb_arr j).path ≡ (m.mb_arr j).path = path_kept j (in_row-ne row j i) in
      absurd (ground (arith, rw e at same))

  single_snoc :
      (i j : ℕ)
      → (has i (rows row) || (ix == i)) ≡ true
      → (has j (rows row) || (ix == j)) ≡ true
      → same_path (after.mb_arr i).path (after.mb_arr j).path ≡ true
      → i ≡ j
  single_snoc i j a b same =
      let at : (after.mb_arr ix).path ≡ str = ground arith in
      elim (Bool-cases (ix == i)) [
        | inl new ↦
            let e : i ≡ ix = ground arith in
            elim (Bool-cases (ix == j)) [
              | inl new' ↦ ground arith
              | inr old ↦ absurd (new_single j (ground arith) (rw (e, at) at same))
            ]
        | inr old ↦ elim (Bool-cases (ix == j)) [
          | inl new ↦
              let e : j ≡ ix = ground arith in
              absurd (
                new_single i (ground arith)
                  (same_path_sym str (after.mb_arr i).path ∙ (rw (e, at) at same)))
          | inr old' ↦
              v.single row i j (ground arith) (ground arith)
                (rw (path_kept i (ground arith), path_kept j (ground arith)) at same)
        ]
      ]

  after-Single : (r : ℕ) → Single after.mb_arr (new_rows r)
  after-Single r i j a b same = elim (Bool-cases (r == row)) [
    | inl here ↦
        single_snoc i j (ground (arith, has-snoc i (rows row) ix))
          (ground (arith, has-snoc j (rows row) ix)) same
    | inr there ↦
        let a' : has i (rows r) ≡ true = ground arith in
        let b' : has j (rows r) ≡ true = ground arith in
        v.single r i j a' b'
          (rw (path_kept i (in_row-ne r i a'), path_kept j (in_row-ne r j b')) at same)
  ]

  pub Created-Implements : Implements after new_rows (insert str ix map)
  Created-Implements = record { table = after_table; agrees = after_agrees; single = after-Single }

-- The fields of the buckets on which the map rests.
pub record SameLinks (b c : MetaBucket) : Type 0 where
  pub path : c.path ≡ b.path
  pub next : c.next_ix ≡ b.next_ix
  pub used : c.in_use ≡ b.in_use
  pub locked : c.locked ≡ b.locked

pub Implements-edit :
    {m : MetaMem} {rows : ℕ → List ℕ} {map : CString → Option ℕ} (ix : ℕ) (b : MetaBucket)
    → Implements m rows map
    → SameLinks (m.mb_arr ix) b
    → Implements (set_bucket ix b m) rows map
Implements-edit {m} {rows} {map} ix b v e =
    let arr = update m.mb_arr ix b in
    let t = v.table in
    let path : (j : ℕ) → (arr j).path ≡ (m.mb_arr j).path = λ j. ground (arith, e.path) in
    record {
      table = record {
        row = λ r less. RowOk-frame (t.row r less) refl (λ j i. ground (arith, e.next));
        quiet = t.quiet;
        unlocked = λ j small. ground (arith, e.locked, t.unlocked j small);
        kept = λ r. record {
          used = λ j i. ground (arith, e.used, (t.kept r).used j i);
          ends = λ j small free. ground (arith, e.used, e.next, (t.kept r).ends j small);
        };
        apart = t.apart;
      };
      agrees = λ p h. first_match-frame m.mb_arr arr p _ (λ j i. path j) ∙ v.agrees p h;
      single = λ r i j a b same. v.single r i j a b (rw (path i, path j) at same);
    }
