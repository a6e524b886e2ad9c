-- ===== src/File/Uploaded.antt =====
-- `upload_data`, the part of `upload_file` of system/util/util.c that copies the file: the chain that it
-- leaves.
use spacefish.Prelude.{
  ℕ, suc, ◌+◌, ◌-◌, ◌*◌, ◌/◌, ◌%◌, ◌≤◌, ◌<◌, ◌≡◌, ◌≢◌, refl, sym, ap, subst, ◌∙◌, true, false, none,
  some, List, [], ◌∷◌, ◌++◌, arith, ◌==◌, update, Distinct, length, take, drop, length-take,
  length-drop, take-drop, append_nil,
}
use spacefish.Config.{dbucket_buf_size, no_ix}
use native.Mathlib.Decide.{dec_lt}
use spacefish.Run.{Run, ok, died, stuck, fault}
use spacefish.Data.{DataMem}
use spacefish.Data.Alloc.{tot_buckets}
use spacefish.Data.Alloc.Search.{Busy, taken}
use spacefish.Data.Method.{get_free_dbucket_ix}
use spacefish.Meta.{set_bucket}
use spacefish.File.Host.{World, on_data}
use spacefish.File.Transfer.{slice}
use spacefish.File.Reading.{reach}
use spacefish.File.Content.{FileChain, content, bytes_of}
use spacefish.File.Ready.{Ready, Ready-update, Gives, get_free-Gives}
use spacefish.File.Upload.{fill_bucket, new_db, link_db, upload_rounds, upload_rest, upload_data}
use spacefish.File.Uploading.{
  Filled, End, nothing-Filled, filled, fill_bucket-filled, filled-Holds, filled-Ready, new_db-died,
}
use spacefish.File.Uploads.{drop_twice, Fills, goes_on, goes_on-Fills}

module _ {H : Type 0} where
  -- The first bucket of the file at the metadata bucket `ix` is `first`, and nothing but the data has
  -- changed besides.
  abbrev pub begun : World H → (ix first : ℕ) → DataMem → World H
  begun w ix first t = record w {
    meta = set_bucket ix (record (w.meta.mb_arr ix) { first_dbucket = first }) w.meta;
    data_mem = t;
  }

  -- The file's chain holds the bytes; buckets that were in use are as they were.
  pub record Uploaded (w w' : World H) (ix : ℕ) (bytes : List ℕ) : Type 0 where
    pub first : ℕ
    pub xs : List ℕ
    pub same : w' ≡ begun w ix first w'.data_mem
    pub chain : FileChain w'.data_mem.db first xs
    pub distinct : Distinct xs
    pub holds : content w'.data_mem.db xs ≡ bytes
    pub kept : (j : ℕ) → (w.data_mem.db j).in_use ≡ true → w'.data_mem.db j ≡ w.data_mem.db j
    pub ready : Ready w'.data_mem

  abbrev pub Uploads : World H → (ix : ℕ) → List ℕ → Run (World H) (Unit {0}) → Type 0
  Uploads w ix bytes (ok x w') = Uploaded w w' ix bytes
  Uploads w ix bytes (died w') = (j : ℕ) → j < tot_buckets → Busy (w'.data_mem.db j)
  Uploads w ix bytes stuck = ⊥
  Uploads w ix bytes fault = ⊥

  -- An empty bucket takes what is left.
  upload_rest-empty :
      (ix : ℕ) (bytes : List ℕ) {p : ℕ} (w : World H)
      → 0 < length bytes
      → (w.data_mem.db p).bytes ≡ 0
      → upload_rest ix bytes (some p) w ≡ on_data (fill_bucket p bytes) w
  unfolding upload_rest
  upload_rest-empty ix bytes w more empty =
      let some_left : (length bytes == 0) ≡ false = ground arith in rw (some_left, empty) refl

  module _ (w : World H) (ix : ℕ) {q : ℕ} {t : DataMem} (ready : Ready w.data_mem)
      (runs : get_free_dbucket_ix w.data_mem ≡ ok q t) (g : Gives w.data_mem (ok q t)) where
    new_first : new_db ix none w ≡ ok q (begun w ix q t)
    unfolding new_db link_db
    new_first = rw (runs, reach g.3.mapped q g.0) refl

    at_q : t.db q ≡ taken (w.data_mem.db q)
    at_q = ground (arith, g.2)

    elsewhere : (j : ℕ) → (w.data_mem.db j).in_use ≡ true → (j ≢ q) × (t.db j ≡ w.data_mem.db j)
    elsewhere j used =
        let ne : j ≢ q = λ same. absurd (ground (arith, g.1)) in (ne, ground (arith, g.2))

    -- From the first bucket, with its bytes, on.
    first_Uploaded :
        (s u : DataMem) (chunk later : List ℕ)
        → End s q
        → bytes_of (s.db q) ≡ chunk
        → ((j : ℕ) → j ≢ q → s.db j ≡ t.db j)
        → Filled s u q later
        → Uploaded w (begun w ix q u) ix (chunk ++ later)
    unfolding content
    first_Uploaded s u chunk later e held others f =
        let mine : bytes_of (u.db q) ≡ chunk = ap bytes_of f.same ∙ held in
        record {
          first = q;
          xs = q ∷ f.ys;
          same = refl;
          chain = f.chain;
          distinct = f.distinct;
          holds = rw (mine, f.holds) refl;
          kept = λ j used.
              let (ne, same) = elsewhere j used in
              let before : s.db j ≡ w.data_mem.db j = others j ne ∙ same in
              (f.kept j (rw before used) ne).0 ∙ before;
          ready = f.ready;
        }

    -- `start` sets the number of bytes to 0.
    abbrev emptied : DataMem
    emptied = record t { db = update t.db q (record (t.db q) { bytes = 0 }) }

    emptied-Ready : Ready emptied
    emptied-Ready = Ready-update q (record (t.db q) { bytes = 0 }) g.3 (rw at_q refl)

    -- A bucket with the links of the new one, once it has its bytes.
    filled_End :
        (s : DataMem) (chunk : List ℕ)
        → (s.db q).in_use ≡ true
        → (s.db q).next_ix ≡ no_ix
        → length chunk ≤ dbucket_buf_size
        → End (filled q chunk s) q
    filled_End s chunk used next small =
        let h = filled-Holds q chunk s in
        record {
          less = g.0;
          used = h.used ∙ used;
          next = h.next ∙ next;
          small = omega (arith, h.size);
        }

    next_at : (t.db q).next_ix ≡ no_ix
    next_at = ap (λ b. b.next_ix) at_q ∙ (ready.clean q g.0 g.1).0

    used_at : (t.db q).in_use ≡ true
    used_at = ap (λ b. b.in_use) at_q

    emptied_used : (emptied.db q).in_use ≡ true
    emptied_used = ground (arith, used_at)

    emptied_next : (emptied.db q).next_ix ≡ no_ix
    emptied_next = ground (arith, next_at)

    emptied_size : (emptied.db q).bytes ≡ 0
    emptied_size = ground arith

    emptied_others : (j : ℕ) → j ≢ q → emptied.db j ≡ t.db j
    emptied_others j ne = ground arith

    -- A file shorter than a bucket, which may be empty.
    short :
        (bytes : List ℕ)
        → length bytes < dbucket_buf_size
        → Uploads w ix bytes (upload_data ix bytes w)
    unfolding upload_data upload_rounds
    short [] small =
        let e : End emptied q = record {
          less = g.0;
          used = emptied_used;
          next = emptied_next;
          small = omega (arith, emptied_size);
        } in
        rw (new_first, upload_rest)
          (first_Uploaded emptied emptied [] [] e (rw emptied_size (unfold slice in refl))
            emptied_others (nothing-Filled e emptied-Ready))
    short (b ∷ bs) small =
        let bytes = b ∷ bs in
        let no_rounds : length bytes / dbucket_buf_size ≡ 0 = omega arith in
        let all : length bytes - length bytes % dbucket_buf_size ≡ 0 = omega arith in
        let e = filled_End emptied bytes emptied_used emptied_next (omega arith) in
        let h = filled-Holds q bytes emptied in
        let u = filled q bytes emptied in
        rw
          (
            no_rounds,
            new_first,
            all,
            upload_rest-empty ix bytes (begun w ix q emptied) (omega arith) emptied_size,
            fill_bucket-filled q bytes emptied (omega arith),
          )
          (subst (λ c. Uploaded w (begun w ix q u) ix c) (append_nil bytes)
            (first_Uploaded u u bytes [] e h.holds (λ j ne. h.others j ne ∙ emptied_others j ne)
              (nothing-Filled e (filled-Ready q bytes emptied emptied-Ready emptied_used))))

    -- A file of one full bucket or more.
    uploaded_from :
        (chunk later : List ℕ)
        → length chunk ≤ dbucket_buf_size
        → (r : Run (World H) (Unit {0})) → Fills ix (begun w ix q (filled q chunk t)) q later r
        → Uploads w ix (chunk ++ later) r
    uploaded_from chunk later small (ok x w') (u, same, f) =
        let h = filled-Holds q chunk t in
        let e = filled_End t chunk used_at next_at small in
        rw same (first_Uploaded (filled q chunk t) u chunk later e h.holds h.others f)
    uploaded_from chunk later small (died w') busy = busy
    uploaded_from chunk later small stuck x = x
    uploaded_from chunk later small fault x = x

    long :
        (bytes : List ℕ)
        → dbucket_buf_size ≤ length bytes
        → Uploads w ix bytes (upload_data ix bytes w)
    unfolding upload_data upload_rounds
    long bytes large =
        let rest = length bytes / dbucket_buf_size - 1 in
        let rounds : length bytes / dbucket_buf_size ≡ suc rest = omega arith in
        let chunk = take dbucket_buf_size bytes in
        let later = drop dbucket_buf_size bytes in
        let size : length chunk ≡ dbucket_buf_size =
          length-take dbucket_buf_size bytes ∙ omega arith in
        let h = filled-Holds q chunk t in
        let v = begun w ix q (filled q chunk t) in
        let behind : drop (length bytes - length bytes % dbucket_buf_size) bytes
            ≡ drop (rest * dbucket_buf_size) later =
          ap (λ n. drop n bytes) {x = length bytes - length bytes % dbucket_buf_size}
            {y = dbucket_buf_size + rest * dbucket_buf_size} (omega arith)
          ∙ sym (drop_twice dbucket_buf_size (rest * dbucket_buf_size) bytes) in
        rw (rounds, new_first, fill_bucket-filled q chunk t (omega arith), behind)
          (subst (λ c. Uploads w ix c (goes_on ix rest later q v))
            (take-drop dbucket_buf_size bytes)
            (uploaded_from chunk later (omega arith) (goes_on ix rest later q v) (
              goes_on-Fills ix rest later v q (omega (arith, length-drop dbucket_buf_size bytes))
                (filled_End t chunk used_at next_at (omega arith)) (h.size ∙ size)
                (filled-Ready q chunk t g.3 used_at))))

  uploads_given :
      (w : World H) (ix : ℕ) (bytes : List ℕ)
      → Ready w.data_mem
      → (r : Run DataMem ℕ) → get_free_dbucket_ix w.data_mem ≡ r
      → Gives w.data_mem r
      → Uploads w ix bytes (upload_data ix bytes w)
  unfolding upload_data
  uploads_given w ix bytes ready (ok q t) runs g = elim (dec_lt (length bytes) dbucket_buf_size) [
    | yes small ↦ short w ix ready runs g bytes small
    | no large ↦ long w ix ready runs g bytes (omega arith)
  ]
  uploads_given w ix bytes ready (died t) runs busy =
      elim (dec_lt (length bytes) dbucket_buf_size) [
        | yes small ↦
            let no_rounds : length bytes / dbucket_buf_size ≡ 0 = omega arith in
            rw (no_rounds, upload_data, new_db-died ix none w runs) busy
        | no large ↦
            let rest = length bytes / dbucket_buf_size - 1 in
            let rounds : length bytes / dbucket_buf_size ≡ suc rest = omega arith in
            rw (rounds, upload_data, upload_rounds, new_db-died ix none w runs) busy
      ]
  uploads_given w ix bytes ready stuck runs x = absurd x
  uploads_given w ix bytes ready fault runs x = absurd x

  -- On a memory that is `Ready`, the data of a file, of any size, is copied into a chain of new data
  -- buckets whose content is the file's bytes; only the bucket's `first_dbucket` changes besides, and
  -- the memory is ready again. The process ends only where no bucket can be had.
  pub upload_data-Uploads :
      (w : World H) (ix : ℕ) (bytes : List ℕ)
      → Ready w.data_mem
      → Uploads w ix bytes (upload_data ix bytes w)
  upload_data-Uploads w ix bytes ready =
      uploads_given w ix bytes ready (get_free_dbucket_ix w.data_mem) refl (get_free-Gives ready)
