-- ===== src/Meta/Histories.antt =====
-- The tables that creations and releases of system/util/meta_shm.c bring about, one after the other.
use spacefish.Prelude.{
  ℕ, ◌≡◌, ◌<◌, subst, inl, inr, Option, none, some, List, arith, Option-cases, length,
}
use spacefish.Config.{path_max}
use spacefish.Text.{CString}
use spacefish.Hash.{hash}
use spacefish.Run.{ok, done}
use spacefish.Meta.{MetaMem}
use spacefish.Meta.Ops.{strict_create_mbucket, release_meta_bucket}
use spacefish.Meta.Map.{Implements, named}
use spacefish.Meta.Refines.{
  Inserts, strict_create-Inserts, strict_create_present, release-removes, release-absent,
}

-- One call that returns: a creation, whose caller gives the bucket the path or finds none, or a
-- release.
pub data Change (m : MetaMem) : MetaMem → Type 0 where
  created :
      (str : CString) {row ix : ℕ} {t : MetaMem}
      → hash str ≡ some row
      → length str < path_max
      → strict_create_mbucket str m ≡ ok (some ix) t
      → Change m (named ix str t)
  refused :
      (str : CString) {row : ℕ} {t : MetaMem}
      → hash str ≡ some row
      → length str < path_max
      → strict_create_mbucket str m ≡ ok none t
      → Change m t
  released :
      (str : CString) {row : ℕ} {t : MetaMem}
      → hash str ≡ some row
      → length str < path_max
      → release_meta_bucket str m ≡ ok done t
      → Change m t

pub data History (m : MetaMem) : MetaMem → Type 0 where
  start : History m m
  followed : {t u : MetaMem} → History m t → Change t u → History m u

-- The table stands for some map.
abbrev pub IsMap : MetaMem → Type 0
IsMap m = (rows : ℕ → List ℕ) × ((map : CString → Option ℕ) × Implements m rows map)

module _ {m : MetaMem} {rows : ℕ → List ℕ} {map : CString → Option ℕ} (v : Implements m rows map)
    (str : CString) {row : ℕ} (h : hash str ≡ some row) (short : length str < path_max)
    {t : MetaMem} where
  created-IsMap : {ix : ℕ} → strict_create_mbucket str m ≡ ok (some ix) t → IsMap (named ix str t)
  created-IsMap {ix} e = elim (Option-cases (map str)) [
    | inl absent ↦
        let result : Inserts m rows map str (ok (some ix) t) =
          subst (Inserts m rows map str) e (strict_create-Inserts v str h short absent) in
        (result.1.0, (_, result.1.1))
    | inr (j, present) ↦ absurd (ground (arith, strict_create_present v str h present))
  ]

  refused-IsMap : strict_create_mbucket str m ≡ ok none t → IsMap t
  refused-IsMap e = elim (Option-cases (map str)) [
    | inl absent ↦
        let result : Inserts m rows map str (ok none t) =
          subst (Inserts m rows map str) e (strict_create-Inserts v str h short absent) in
        (rows, (map, result.1))
    | inr (j, present) ↦
        let same : t ≡ m = ground (arith, strict_create_present v str h present) in
        rw same (rows, (map, v))
  ]

  released-IsMap : release_meta_bucket str m ≡ ok done t → IsMap t
  released-IsMap e = elim (Option-cases (map str)) [
    | inl absent ↦ absurd (ground (arith, release-absent v str h absent))
    | inr (j, present) ↦
        let (t', runs, (rows', w)) = release-removes v str h short present in
        let same : t ≡ t' = ground arith in rw same (rows', (_, w))
  ]

Change-IsMap : {m t : MetaMem} → IsMap m → Change m t → IsMap t
Change-IsMap (rows, (map, v)) (created str h short e) = created-IsMap v str h short e
Change-IsMap (rows, (map, v)) (refused str h short e) = refused-IsMap v str h short e
Change-IsMap (rows, (map, v)) (released str h short e) = released-IsMap v str h short e

-- From a table that stands for a map, creations and releases, in any order, lead to tables that stand
-- for maps: in each the rows are chains without repetition, no bucket is in two rows, no path is in a
-- row twice, and all locks are free.
pub History-IsMap : {m t : MetaMem} → IsMap m → History m t → IsMap t
History-IsMap v start = v
History-IsMap v (followed h c) = Change-IsMap (History-IsMap v h) c
