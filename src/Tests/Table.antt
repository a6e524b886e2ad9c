-- ===== src/Tests/Table.antt =====
-- The theorems on the hash table as a map (system/util/meta_shm.c) at a table with one file.
use spacefish.Prelude.{
  ℕ, ◌≡◌, refl, ap, inl, inr, false, Option, none, some, List, [], ◌∷◌, arith, ◌==◌, if◌then◌else◌,
  Bool-cases,
}
use spacefish.Text.{CString, same_path, same_path_short}
use spacefish.Hash.{hash}
use spacefish.Lock.{init_urwlock}
use spacefish.Run.{done, ok}
use spacefish.Meta.{MetaMem}
use spacefish.Meta.Ops.{release_meta_bucket}
use spacefish.Meta.Chain.{nil, cons, first_match}
use spacefish.Meta.Table.{TableOk}
use spacefish.Meta.Map.{Implements, remove}
use spacefish.Meta.Refines.{strict_create_present, release-removes}
use spacefish.Meta.Histories.{History, start, followed, refused, released, IsMap, History-IsMap}
use spacefish.Tests.Meta.{mbucket, path_a, row_a, hash_a, quiet}

-- The row of "/a" holds the bucket 9, with "/a"; all other rows are empty, and all other buckets free.
abbrev pub one_file : MetaMem
one_file = record {
  hash_table = λ r. record { first_ix = if r == row_a then some 9 else none; lock = init_urwlock };
  mb_arr = λ i. record (mbucket path_a none) { in_use = i == 9 };
  draws = λ _. 0;
}

abbrev one_row : ℕ → List ℕ
one_row r = if r == row_a then 9 ∷ [] else []

abbrev pub one_map : CString → Option ℕ
one_map p = if same_path p path_a then some 9 else none

one_file-TableOk : TableOk one_file one_row
one_file-TableOk = record {
  row = λ r less. elim (Bool-cases (r == row_a)) [
    | inl here ↦ rw here (record {
      chain = rw here (cons refl nil);
      distinct = (refl, tt);
      in_array = (omega arith, tt);
    })
    | inr there ↦ rw there (record { chain = rw there nil; distinct = tt; in_array = tt })
  ];
  quiet = λ r less. quiet;
  unlocked = λ j less. refl;
  kept = λ r. record { used = λ j i. ground arith; ends = λ j less free. refl };
  apart = λ r s j a b. ground arith;
}

pub one_file-Implements : Implements one_file one_row one_map
unfolding first_match
one_file-Implements = record {
  table = one_file-TableOk;
  agrees = λ p {r} h. elim (Bool-cases (r == row_a)) [
    | inl here ↦ rw here refl
    | inr there ↦
        let miss : same_path p path_a ≡ false = elim (Bool-cases (same_path p path_a)) [
          | inl hit ↦
              let same : p ≡ path_a = same_path_short p path_a (omega arith) hit in
              absurd (ground (arith, ap hash same, hash_a, h))
          | inr miss ↦ miss
        ] in
        rw (there, miss) refl
  ];
  single = λ r i j a b e. ground arith;
}

has_a : one_map path_a ≡ some 9
unfolding same_path
has_a = refl

release-removes_example :
    (m' : MetaMem) × (release_meta_bucket path_a one_file ≡ ok done m')
    × ((rows' : ℕ → List ℕ) × Implements m' rows' (remove path_a one_map))
release-removes_example = release-removes one_file-Implements path_a hash_a (omega arith) has_a

abbrev removed : MetaMem
removed = release-removes_example.0

-- A creation for the path that is there, and a release of it.
changes : History one_file removed
changes =
    followed
      (followed start (
        refused path_a hash_a (omega arith)
          (strict_create_present one_file-Implements path_a hash_a has_a)))
      (released path_a hash_a (omega arith) release-removes_example.1)

History-IsMap_example : IsMap removed
History-IsMap_example = History-IsMap (one_row, (one_map, one_file-Implements)) changes
