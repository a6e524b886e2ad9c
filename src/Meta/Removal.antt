-- ===== src/Meta/Removal.antt =====
-- `release_meta_bucket` of system/util/meta_shm.c on the whole hash table, and on the map that the
-- table stands for.
use spacefish.Prelude.{
  ℕ, ◌≡◌, ◌≢◌, ◌<◌, refl, ap, sym, ◌∙◌, inl, inr, true, false, Option, none, some, List, [], ◌∷◌,
  arith, ◌==◌, has, Distinct, if◌then◌else◌, Bool-cases, update, length,
}
use spacefish.Config.{path_max, hash_table_size}
use spacefish.Text.{CString, same_path, same_path_short, same_path_sym, same_path_trans}
use spacefish.Hash.{hash, hash_bounds}
use spacefish.Meta.{MetaBucket, MetaMem}
use spacefish.Meta.Chain.{first_match}
use spacefish.Meta.Create.{Kept}
use spacefish.Meta.Lookup.{RowOk}
use spacefish.Meta.Map.{Single, Implements, remove, first_match-frame}
use spacefish.Meta.Release.{Released}
use spacefish.Meta.Table.{TableOk, RowOk-frame}
use spacefish.Meta.Unlink.{
  drop_match, first_match-mem, has-drop_match, Distinct-drop_match, AllBelow-drop_match,
}

-- The first match has the path.
pub first_match-same :
    (arr : ℕ → MetaBucket) (str : CString) (xs : List ℕ) {ix : ℕ}
    → first_match str arr xs ≡ some ix
    → same_path str (arr ix).path ≡ true
unfolding first_match
first_match-same arr str [] h = absurd (cc)
first_match-same arr str (x ∷ xs) {ix} h = elim (Bool-cases (same_path str (arr x).path)) [
  | inl hit ↦ let e : x ≡ ix = ground arith in rw (← e) hit
  | inr miss ↦ first_match-same arr str xs (ground arith)
]

module _ (arr : ℕ → MetaBucket) (p : CString) where
  first_match_absent :
      (xs : List ℕ)
      → ((j : ℕ) → has j xs ≡ true → same_path p (arr j).path ≡ false)
      → first_match p arr xs ≡ none
  unfolding first_match
  first_match_absent [] h = refl
  first_match_absent (x ∷ xs) h =
      let miss = h x (ground arith) in rw miss (first_match_absent xs (λ j i. h j (ground arith)))

  -- Taking out the only bucket of a path takes that path's value, and no other's.
  first_match-drop :
      (str : CString) (xs : List ℕ) {ix : ℕ}
      → Distinct xs
      → Single arr xs
      → first_match str arr xs ≡ some ix
      → first_match p arr (drop_match str arr xs)
        ≡ (if same_path p str then none else first_match p arr xs)
  unfolding first_match drop_match
  first_match-drop str [] d s h = absurd (cc)
  first_match-drop str (x ∷ xs) {ix} (new, d) s h = elim (Bool-cases (same_path str (arr x).path)) [
    | inl hit ↦ elim (Bool-cases (same_path p str)) [
      | inl same ↦
          let gone : (j : ℕ) → has j xs ≡ true → same_path p (arr j).path ≡ false = λ j i.
            elim (Bool-cases (same_path p (arr j).path)) [
              | inl also ↦
                  let str_j : same_path str (arr j).path ≡ true =
                    sym (same_path_trans p str (arr j).path same) ∙ also in
                  let x_j : same_path (arr x).path (arr j).path ≡ true =
                    sym (same_path_trans str (arr x).path (arr j).path hit) ∙ str_j in
                  absurd (ground (arith, s x j (ground arith) (ground arith) x_j, new, i))
              | inr differ ↦ differ
            ] in
          rw (hit, same) (first_match_absent xs gone)
      | inr other ↦
          let miss : same_path p (arr x).path ≡ false =
            same_path_sym p (arr x).path
            ∙ sym (same_path_trans str (arr x).path p hit)
            ∙ same_path_sym str p
            ∙ other in
          rw (hit, other, miss) refl
    ]
    | inr miss ↦
        let rest =
          first_match-drop str xs {ix = ix} d (λ i j a b e. s i j (ground arith) (ground arith) e)
            (ground arith) in
        elim (Bool-cases (same_path p (arr x).path)) [
          | inl first ↦
              let other : same_path p str ≡ false =
                same_path_trans p (arr x).path str first ∙ same_path_sym (arr x).path str ∙ miss in
              rw (miss, first, other) refl
          | inr later ↦ rw (miss, later) rest
        ]
  ]

module _ {m m' : MetaMem} {rows : ℕ → List ℕ} {map : CString → Option ℕ} (v : Implements m rows map)
    (str : CString) {row ix : ℕ} (h : hash str ≡ some row) (short : length str < path_max)
    (present : map str ≡ some ix)
    (c : Released m m' row ix (drop_match str m.mb_arr (rows row))) where
  bound : row < hash_table_size
  bound = (hash_bounds str h).0

  abbrev shrunk : ℕ → List ℕ
  shrunk = update rows row (drop_match str m.mb_arr (rows row))

  found : first_match str m.mb_arr (rows row) ≡ some ix
  found = v.agrees str h ∙ present

  shrunk-has : (r j : ℕ) → has j (shrunk r) ≡ true → (has j (rows r) ≡ true) × (j ≢ ix)
  shrunk-has r j i = elim (Bool-cases (r == row)) [
    | inl here ↦
        let e = has-drop_match str m.mb_arr (rows row) (v.table.row row bound).distinct found j in
        (ground arith, ground arith)
    | inr there ↦
        let inside : has j (rows r) ≡ true = ground arith in
        let own = first_match-mem str m.mb_arr (rows row) found in
        (inside, λ same. absurd (ground (arith, v.table.apart r row ix (rw same at inside) own)))
  ]

  elsewhere : (r j : ℕ) → r ≢ row → has j (rows r) ≡ true → m'.mb_arr j ≡ m.mb_arr j
  elsewhere r j ne i =
      let own = first_match-mem str m.mb_arr (rows row) found in
      let other : j ≢ ix =
        λ same. absurd (ground (arith, v.table.apart r row ix (rw same at i) own)) in
      c.others j other (elim (Bool-cases (has j (drop_match str m.mb_arr (rows row)))) [
        | inl both ↦
            let e =
              has-drop_match str m.mb_arr (rows row) (v.table.row row bound).distinct found j in
            absurd (ne (v.table.apart r row j i (ground arith)))
        | inr outside ↦ outside
      ])

  used_kept : (j : ℕ) → j ≢ ix → (m'.mb_arr j).in_use ≡ (m.mb_arr j).in_use
  used_kept j ne = ap (λ b. b.in_use) (c.kept j ne)

  path_kept : (j : ℕ) → j ≢ ix → (m'.mb_arr j).path ≡ (m.mb_arr j).path
  path_kept j ne = ap (λ b. b.path) (c.kept j ne)

  shrunk_row : (r : ℕ) → r < hash_table_size → RowOk m' r (shrunk r)
  shrunk_row r less = elim (Bool-cases (r == row)) [
    | inl here ↦
        let same : r ≡ row = ground arith in
        let o = v.table.row row bound in
        rw (here, same)
          (record {
            chain = c.chain;
            distinct = Distinct-drop_match str m.mb_arr (rows row) o.distinct;
            in_array = AllBelow-drop_match str m.mb_arr _ (rows row) o.in_array;
          })
    | inr there ↦
        let ne : r ≢ row = ground arith in
        rw there (
          RowOk-frame (v.table.row r less) (c.rows r ne)
            (λ j i. ap (λ b. b.next_ix) (elsewhere r j ne i)))
  ]

  shrunk-Kept : (r : ℕ) → Kept m' (shrunk r)
  shrunk-Kept r = record {
    used = λ j i.
        let (inside, ne) = shrunk-has r j i in used_kept j ne ∙ (v.table.kept r).used j inside;
    ends = λ j small free. elim (Bool-cases (j == ix)) [
      | inl same ↦ let e : j ≡ ix = ground arith in rw (e, c.free) refl
      | inr other ↦
          let ne : j ≢ ix = ground arith in
          let before : (m.mb_arr j).in_use ≡ false = sym (used_kept j ne) ∙ free in
          let loose : has j (drop_match str m.mb_arr (rows row)) ≡ false = ground (
            arith,
            (v.table.kept row).used j,
            before,
            has-drop_match str m.mb_arr (rows row) (v.table.row row bound).distinct found j,
          ) in
          ap (λ b. b.next_ix) (c.others j ne loose) ∙ (v.table.kept row).ends j small before
    ];
  }

  pub Released-TableOk : TableOk m' shrunk
  Released-TableOk = record {
    row = shrunk_row;
    quiet = λ r less. rw (c.locks r) (v.table.quiet r less);
    unlocked = λ j small. elim (Bool-cases (j == ix)) [
      | inl same ↦ let e : j ≡ ix = ground arith in rw (e, c.free) refl
      | inr other ↦ ap (λ b. b.locked) (c.kept j (ground arith)) ∙ v.table.unlocked j small
    ];
    kept = shrunk-Kept;
    apart = λ r s j a b. v.table.apart r s j (shrunk-has r j a).0 (shrunk-has s j b).0;
  }

  shrunk_agrees :
      (p : CString) {r : ℕ}
      → hash p ≡ some r
      → first_match p m'.mb_arr (shrunk r) ≡ remove str map p
  shrunk_agrees p {r} k =
      first_match-frame m.mb_arr m'.mb_arr p (shrunk r) (λ j i. path_kept j (shrunk-has r j i).1)
      ∙ elim (Bool-cases (r == row)) [
        | inl here ↦
            let e : r ≡ row = ground arith in
            let old : first_match p m.mb_arr (rows row) ≡ map p = v.agrees p (k ∙ ap some e) in
            rw here (
              first_match-drop m.mb_arr p str (rows row) (v.table.row row bound).distinct
                (v.single row) found
              ∙ rw old refl)
        | inr there ↦
            let miss : same_path p str ≡ false = elim (Bool-cases (same_path p str)) [
              | inl hit ↦ absurd (ground (arith, ap hash (same_path_short p str short hit), h, k))
              | inr miss ↦ miss
            ] in
            rw (there, miss) (v.agrees p k)
      ]

  pub Released-Implements : Implements m' shrunk (remove str map)
  Released-Implements = record {
    table = Released-TableOk;
    agrees = shrunk_agrees;
    single = λ r i j a b e.
        let (a', na) = shrunk-has r i a in
        let (b', nb) = shrunk-has r j b in
        v.single r i j a' b' (rw (path_kept i na, path_kept j nb) at e);
  }
