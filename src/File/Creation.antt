-- ===== src/File/Creation.antt =====
-- `create_new_file` of system/lib/file_syscalls.c: the file it makes, in the metadata and the data.
use spacefish.Prelude.{
  ℕ, ◌+◌, ◌<◌, ◌≡◌, ◌⊎◌, refl, inl, inr, false, Option, none, some, List, [], ◌∷◌, arith, leb,
  length,
}
use spacefish.Config.{path_max, meta_buckets, dbucket_buf_size}
use spacefish.Run.{Run, ok, died, stuck, fault}
use spacefish.Text.{CString}
use spacefish.Hash.{hash}
use spacefish.Data.{DataMem}
use spacefish.Data.Alloc.{tot_buckets}
use spacefish.Data.Alloc.Search.{Busy, taken}
use spacefish.Data.Method.{get_free_dbucket_ix}
use spacefish.Meta.{MetaMem, set_bucket}
use spacefish.Meta.Ops.{strict_create_mbucket}
use spacefish.Meta.Allocate.{Full}
use spacefish.Meta.Map.{Implements, insert, named, Implements-edit}
use spacefish.Meta.Refines.{Inserts, strict_create-Inserts}
use spacefish.File.Host.{Reply, World, enospc, mb_at, stamp, stamp_field}
use spacefish.File.Io.{modify}
use spacefish.File.Transfer.{slice}
use spacefish.File.Content.{FileChain, last, content}
use spacefish.File.Ready.{Ready, Gives, get_free-Gives}
use spacefish.File.Upload.{set_path, create_at, create_new_file}
use spacefish.File.Calls.{bucket_of}

module _ {H : Type 0} where
  -- The metadata bucket `ix` is that of an empty file with the mode.
  pub record EmptyFile (w : World H) (ix mode : ℕ) : Type 0 where
    pub in_array : ix < meta_buckets
    pub size : (bucket_of w ix).s.st_size ≡ 0
    pub mode_is : (bucket_of w ix).s.st_mode ≡ mode
    pub chain :
        FileChain w.data_mem.db (bucket_of w ix).first_dbucket ((bucket_of w ix).first_dbucket ∷ [])
    pub holds : content w.data_mem.db ((bucket_of w ix).first_dbucket ∷ []) ≡ []

  -- A file is made: the table has its path, it is empty, and the memory is ready for a write; or
  -- the reply is ENOSPC, no metadata bucket can be had, and the table stands for the same map.
  abbrev pub Makes :
      World H → (CString → Option ℕ) → CString → (mode : ℕ) → Run (World H) (Reply ℕ) → Type 0
  Makes w map fpath mode (ok r w') =
      ((ix : ℕ) × (r ≡ record { ret = some ix; err = 0 })
        × ((rows' : ℕ → List ℕ) × Implements w'.meta rows' (insert fpath ix map))
        × EmptyFile w' ix mode
        × Ready w'.data_mem
        × (w'.fds ≡ w.fds))
      ⊎ ((r ≡ record { ret = none; err = enospc })
          × Full w.meta
          × ((rows' : ℕ → List ℕ) × Implements w'.meta rows' map))
  Makes w map fpath mode (died w') = (j : ℕ) → j < tot_buckets → Busy (w'.data_mem.db j)
  Makes w map fpath mode stuck = ⊥
  Makes w map fpath mode fault = ⊥

  module _ (w : World H) (fpath : CString) (mode : ℕ) (short : length fpath < path_max) where
    abbrev final : MetaMem → (ix dbindex : ℕ) → DataMem → World H
    final m ix dbindex t =
        let b = (named ix fpath m).mb_arr ix in
        record w {
          meta =
              set_bucket ix
                (modify (record b {
                  first_dbucket = dbindex;
                  s = record (m.mb_arr ix).s {
                    st_mode = mode;
                    st_size = 0;
                    st_blocks = 1;
                    st_blksize = dbucket_buf_size;
                    st_atim = w.clock 0;
                    st_mtim = w.clock 1;
                    st_ctim = w.clock 2;
                  };
                }))
                (named ix fpath m);
          data_mem = t;
          clock = λ n. w.clock (n + 1 + 1 + 1);
        }

    create_at-given :
        (m : MetaMem) (ix : ℕ) {dbindex : ℕ} {t : DataMem}
        → ix < meta_buckets
        → get_free_dbucket_ix w.data_mem ≡ ok dbindex t
        → create_at fpath mode ix (record w { meta = m })
          ≡ ok (record { ret = some ix; err = 0 }) (final m ix dbindex t)
    unfolding create_at mb_at set_path stamp stamp_field
    create_at-given m ix less e =
        let fits : leb path_max (length fpath) ≡ false = ground arith in
        let inside : leb meta_buckets ix ≡ false = ground arith in rw (e, inside, fits) refl

    create_at-died :
        (m : MetaMem) (ix : ℕ) {t : DataMem}
        → get_free_dbucket_ix w.data_mem ≡ died t
        → create_at fpath mode ix (record w { meta = m })
          ≡ died (record w { meta = m; data_mem = t })
    unfolding create_at
    create_at-died m ix e = rw e refl

    final-EmptyFile :
        (m : MetaMem) (ix dbindex : ℕ) (t : DataMem)
        → ix < meta_buckets
        → Gives w.data_mem (ok dbindex t)
        → Ready w.data_mem
        → EmptyFile (final m ix dbindex t) ix mode
    unfolding content slice
    final-EmptyFile m ix dbindex t less (below, free, now, _) r =
        let (next, size) = r.clean dbindex below free in
        let first : ((final m ix dbindex t).meta.mb_arr ix).first_dbucket ≡ dbindex =
          ground arith in
        let at : t.db dbindex ≡ taken (w.data_mem.db dbindex) = rw now (ground arith) in
        let empty : (t.db dbindex).bytes ≡ 0 = rw at size in
        record {
          in_array = less;
          size = ground arith;
          mode_is = ground arith;
          chain = rw first (last below (rw at refl) (rw at next) (rw empty (omega arith)));
          holds = rw (first, empty) refl;
        }

    final-Implements :
        (m : MetaMem) (ix dbindex : ℕ) (t : DataMem) {rows : ℕ → List ℕ} {map : CString → Option ℕ}
        → Implements (named ix fpath m) rows map
        → Implements (final m ix dbindex t).meta rows map
    final-Implements m ix dbindex t v =
        Implements-edit ix _ v (record { path = refl; next = refl; used = refl; locked = refl })

    create_given :
        {rows : ℕ → List ℕ} (map : CString → Option ℕ) (m : MetaMem) (ix : ℕ)
        → ix < meta_buckets
        → Implements (named ix fpath m) rows (insert fpath ix map)
        → Ready w.data_mem
        → (r : Run DataMem ℕ) → get_free_dbucket_ix w.data_mem ≡ r
        → Gives w.data_mem r
        → Makes w map fpath mode (create_at fpath mode ix (record w { meta = m }))
    create_given {rows} map m ix less v ready (ok dbindex t) e g =
        rw (create_at-given m ix less e) (
          inl (
            ix,
            refl,
            (rows, final-Implements m ix dbindex t v),
            final-EmptyFile m ix dbindex t less g ready,
            g.3,
            refl,
          ))
    create_given map m ix less v ready (died t) e g = rw (create_at-died m ix e) g
    create_given map m ix less v ready stuck e g = absurd g
    create_given map m ix less v ready fault e g = absurd g

    create_after :
        (rows : ℕ → List ℕ) (map : CString → Option ℕ)
        → Ready w.data_mem
        → (r : Run MetaMem (Option ℕ)) → strict_create_mbucket fpath w.meta ≡ r
        → Inserts w.meta rows map fpath r
        → Makes w map fpath mode (create_new_file fpath mode w)
    unfolding create_new_file
    create_after rows map ready (ok (some ix) m) e (f, (rows', v)) = rw e (
        create_given map m ix f.in_range v ready (get_free_dbucket_ix w.data_mem) refl
          (get_free-Gives ready))
    create_after rows map ready (ok none m) e (full, v) = rw e (inr (refl, full, (rows, v)))
    create_after rows map ready (died m) e x = absurd x
    create_after rows map ready stuck e x = absurd x
    create_after rows map ready fault e x = absurd x

  -- Where the table stands for a map that has not the path, and the data memory is `Ready`,
  -- create_new_file for a path that fits the buffer makes an empty file with the mode: the table
  -- then stands for the map with the path, and the memory is ready again. It replies ENOSPC where no
  -- metadata bucket can be had, the map the same, and ends the process where no data bucket can.
  pub create_new_file-Makes :
      (w : World H) {rows : ℕ → List ℕ} {map : CString → Option ℕ}
      → Implements w.meta rows map
      → Ready w.data_mem
      → (fpath : CString) (mode : ℕ) {row : ℕ} → hash fpath ≡ some row
      → length fpath < path_max
      → map fpath ≡ none
      → Makes w map fpath mode (create_new_file fpath mode w)
  create_new_file-Makes w {rows} {map} v ready fpath mode h short absent =
      create_after w fpath mode short rows map ready (strict_create_mbucket fpath w.meta) refl
        (strict_create-Inserts v fpath h short absent)
