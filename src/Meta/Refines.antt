-- ===== src/Meta/Refines.antt =====
-- The operations of system/util/meta_shm.c as the operations of a map from paths to buckets.
use spacefish.Prelude.{ℕ, ◌≡◌, ◌<◌, ap, ◌∙◌, Option, none, some, List, length, AllBelow-has}
use spacefish.Config.{path_max, hash_table_size}
use spacefish.Text.{CString}
use spacefish.Hash.{hash, hash_bounds}
use spacefish.Run.{Run, ok, died, stuck, fault, done, failed}
use spacefish.Meta.{MetaMem, get_mbucket}
use spacefish.Meta.Ops.{strict_create_mbucket, release_meta_bucket}
use spacefish.Meta.Allocate.{Fresh, Full, drawn}
use spacefish.Meta.Create.{Creates, strict_create-Creates, strict_create_exists}
use spacefish.Meta.Lookup.{get_mbucket-first_match}
use spacefish.Meta.Map.{Implements, insert, remove, named, Created-Implements}
use spacefish.Meta.Release.{release_missing, release-Released}
use spacefish.Meta.Removal.{Released-Implements}
use spacefish.Meta.Unlink.{first_match-mem}

-- What a creation leaves, once its caller has given the bucket its path: the map with the path; or,
-- where no bucket can be had, the same map.
abbrev pub Inserts :
    MetaMem → (ℕ → List ℕ) → (CString → Option ℕ) → CString → Run MetaMem (Option ℕ) → Type 0
Inserts m rows map str (ok (some ix) m') =
    Fresh m ix × ((rows' : ℕ → List ℕ) × Implements (named ix str m') rows' (insert str ix map))
Inserts m rows map str (ok none m') = Full m × Implements m' rows map
Inserts m rows map str (died m') = ⊥
Inserts m rows map str stuck = ⊥
Inserts m rows map str fault = ⊥

module _ {m : MetaMem} {rows : ℕ → List ℕ} {map : CString → Option ℕ} (v : Implements m rows map)
    (str : CString) {row : ℕ} (h : hash str ≡ some row) where
  bound : row < hash_table_size
  bound = (hash_bounds str h).0

  -- Where the table stands for a map, a lookup returns the value of the map, and changes nothing.
  pub get_mbucket-map : get_mbucket str m ≡ ok (map str) m
  get_mbucket-map =
      let t = v.table in
      get_mbucket-first_match str h (t.quiet row bound).writers (t.row row bound)
      ∙ ap (λ o. ok o m) (v.agrees str h)

  drawn-Implements : Implements (drawn m) rows map
  drawn-Implements =
      let t = v.table in
      record {
        table = record {
          row = λ r less.
              let o = t.row r less in
              record { chain = o.chain; distinct = o.distinct; in_array = o.in_array };
          quiet = t.quiet;
          unlocked = t.unlocked;
          kept = λ r. record { used = (t.kept r).used; ends = (t.kept r).ends };
          apart = t.apart;
        };
        agrees = v.agrees;
        single = v.single;
      }

  module _ (short : length str < path_max) (absent : map str ≡ none) where
    Creates-Inserts :
        (r : Run MetaMem (Option ℕ)) → Creates m row (rows row) r → Inserts m rows map str r
    Creates-Inserts (ok (some ix) m') c = (c.fresh, (_, Created-Implements v str h short absent c))
    Creates-Inserts (ok none m') (full, same) = (full, rw same drawn-Implements)
    Creates-Inserts (died m') x = x
    Creates-Inserts stuck x = x
    Creates-Inserts fault x = x

    pub strict_create-Inserts : Inserts m rows map str (strict_create_mbucket str m)
    strict_create-Inserts =
        let t = v.table in
        Creates-Inserts (strict_create_mbucket str m) (
          strict_create-Creates str h (t.quiet row bound) (t.row row bound)
            (v.agrees str h ∙ absent) (t.kept row))

  -- A creation for a path that the map has returns NULL, and changes nothing.
  pub strict_create_present : {ix : ℕ} → map str ≡ some ix → strict_create_mbucket str m ≡ ok none m
  strict_create_present e =
      let t = v.table in
      strict_create_exists str h (t.quiet row bound) (t.row row bound) (v.agrees str h ∙ e)

  -- A release of a path that the map has returns 0, and the table then stands for the map without it.
  pub release-removes :
      {ix : ℕ}
      → length str < path_max
      → map str ≡ some ix
      → (m' : MetaMem) × (release_meta_bucket str m ≡ ok done m')
        × ((rows' : ℕ → List ℕ) × Implements m' rows' (remove str map))
  release-removes {ix} short e =
      let t = v.table in
      let found = v.agrees str h ∙ e in
      let small =
        AllBelow-has (rows row) ix (t.row row bound).in_array
          (first_match-mem str m.mb_arr (rows row) found) in
      let (m', runs, c) =
        release-Released str h (t.quiet row bound) (t.row row bound) found (t.unlocked ix small) in
      (m', runs, (_, Released-Implements v str h short e c))

  pub release-absent : map str ≡ none → release_meta_bucket str m ≡ ok failed m
  release-absent e =
      let t = v.table in
      release_missing str h (t.quiet row bound) (t.row row bound) (v.agrees str h ∙ e)
