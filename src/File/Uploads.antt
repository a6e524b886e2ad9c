-- ===== src/File/Uploads.antt =====
-- The data of a file taken in by `upload_file` of system/util/util.c: the file's bytes.
use spacefish.Prelude.{
  ℕ, zero, suc, ◌+◌, ◌*◌, ◌/◌, ◌≤◌, ◌<◌, ◌≡◌, refl, sym, ap, subst, ◌∙◌, false, some, List, [], ◌∷◌,
  ◌++◌, arith, ◌==◌, length, take, drop, length-take, length-drop, take-drop, append_nil, drop_nil,
}
use spacefish.Config.{dbucket_buf_size}
use spacefish.Run.{Run, and_then, ok, died, stuck, fault}
use spacefish.Data.{DataMem}
use spacefish.Data.Alloc.{tot_buckets}
use spacefish.Data.Alloc.Search.{Busy}
use spacefish.Data.Method.{get_free_dbucket_ix}
use spacefish.File.Host.{World}
use spacefish.File.Ready.{Ready, Gives, get_free-Gives}
use spacefish.File.Upload.{upload_rounds, upload_rest}
use spacefish.File.Uploading.{
  Grew, Filled, End, nothing-Filled, Grew-Filled, filled, fill_bucket-filled, linked, grown-Grew,
  new_db-ok, new_db-died,
}

pub drop_twice : {A : Type 0} (m n : ℕ) (xs : List A) → drop n (drop m xs) ≡ drop (m + n) xs
drop_twice zero n xs = let e : 0 + n ≡ n = omega arith in rw e refl
drop_twice (suc m) n [] = drop_nil n ∙ sym (drop_nil (suc m + n))
drop_twice (suc m) n (x ∷ xs) =
    let e : suc m + n ≡ suc (m + n) = omega arith in rw e (drop_twice m n xs)

pub Grew-End :
    {s u : DataMem} {p q : ℕ} {chunk : List ℕ}
    → Grew s u p q chunk
    → length chunk ≤ dbucket_buf_size
    → End u q
Grew-End g small = record {
  less = g.less;
  used = g.used;
  next = g.next;
  small = omega (arith, g.size);
}

module _ {H : Type 0} (ix : ℕ) where
  -- The chain of `p` has grown, and nothing but the data has changed; where the process ends, no
  -- bucket could be had.
  abbrev pub Fills : World H → (p : ℕ) → (bytes : List ℕ) → Run (World H) (Unit {0}) → Type 0
  Fills w p bytes (ok x w') =
      (t : DataMem) × (w' ≡ record w { data_mem = t }) × Filled w.data_mem t p bytes
  Fills w p bytes (died w') = (j : ℕ) → j < tot_buckets → Busy (w'.data_mem.db j)
  Fills w p bytes stuck = ⊥
  Fills w p bytes fault = ⊥

  module _ (w : World H) {p : ℕ} (e : End w.data_mem p)
      (full : (w.data_mem.db p).bytes ≡ dbucket_buf_size) (ready : Ready w.data_mem) where
    -- What a new bucket behind `p` and the rest of the loop bring.
    grow_on :
        {u : DataMem} {q : ℕ} {chunk : List ℕ} (later : List ℕ)
        → Grew w.data_mem u p q chunk
        → (r : Run (World H) (Unit {0})) → Fills (record w { data_mem = u }) q later r
        → Fills w p (chunk ++ later) r
    grow_on later g (ok x w') (t, same, f) = (t, same, Grew-Filled e full g f)
    grow_on later g (died w') busy = busy
    grow_on later g stuck x = x
    grow_on later g fault x = x

  -- What follows the full buckets, less than a bucket.
  rest_given :
      (w : World H) {p : ℕ} (bytes : List ℕ)
      → End w.data_mem p
      → (w.data_mem.db p).bytes ≡ dbucket_buf_size
      → Ready w.data_mem
      → 0 < length bytes
      → length bytes < dbucket_buf_size
      → (r : Run DataMem ℕ) → get_free_dbucket_ix w.data_mem ≡ r
      → Gives w.data_mem r
      → Fills w p bytes (upload_rest ix bytes (some p) w)
  unfolding upload_rest
  rest_given w {p} bytes e full ready more small (ok q t) runs g =
      let some_left : (length bytes == 0) ≡ false = ground arith in
      let is_full : ((w.data_mem.db p).bytes == 0) ≡ false = ground arith in
      let l = linked p q t in
      let grew = grown-Grew e ready g bytes in
      let whole = append_nil bytes in
      rw
        (
          some_left,
          is_full,
          new_db-ok e ready g ix w refl runs,
          fill_bucket-filled q bytes l (omega arith),
        )
        (subst (λ b. Fills w p b (ok tt (record w { data_mem = filled q bytes l }))) whole
          (grow_on w e full ready [] grew (ok tt (record w { data_mem = filled q bytes l }))
            (filled q bytes l, refl, nothing-Filled (Grew-End grew (omega arith)) grew.ready)))
  rest_given w {p} bytes e full ready more small (died t) runs busy =
      let some_left : (length bytes == 0) ≡ false = ground arith in
      let is_full : ((w.data_mem.db p).bytes == 0) ≡ false = ground arith in
      rw (some_left, is_full, new_db-died ix (some p) w runs) busy
  rest_given w bytes e full ready more small stuck runs x = absurd x
  rest_given w bytes e full ready more small fault runs x = absurd x

  -- The rounds of the loop that are left, and what follows them.
  abbrev pub goes_on : (rounds : ℕ) → List ℕ → (p : ℕ) → World H → Run (World H) (Unit {0})
  goes_on rounds bytes p w =
      and_then (upload_rounds ix rounds bytes (some p) w)
        (upload_rest ix (drop (rounds * dbucket_buf_size) bytes))

  -- One more full bucket.
  round_given :
      (rounds : ℕ) (w : World H) {p : ℕ} (bytes : List ℕ)
      → End w.data_mem p
      → (w.data_mem.db p).bytes ≡ dbucket_buf_size
      → Ready w.data_mem
      → dbucket_buf_size ≤ length bytes
      → ((v : World H) (q : ℕ)
          → End v.data_mem q
          → (v.data_mem.db q).bytes ≡ dbucket_buf_size
          → Ready v.data_mem
          → Fills v q
              (drop dbucket_buf_size bytes)
              (goes_on rounds (drop dbucket_buf_size bytes) q v))
      → (r : Run DataMem ℕ) → get_free_dbucket_ix w.data_mem ≡ r
      → Gives w.data_mem r
      → Fills w p bytes (goes_on (suc rounds) bytes p w)
  unfolding upload_rounds
  round_given rounds w {p} bytes e full ready enough rest (ok q t) runs g =
      let chunk = take dbucket_buf_size bytes in
      let later = drop dbucket_buf_size bytes in
      let l = linked p q t in
      let v : World H = record w { data_mem = filled q chunk l } in
      let grew = grown-Grew e ready g chunk in
      let size : length chunk ≡ dbucket_buf_size =
        length-take dbucket_buf_size bytes ∙ omega arith in
      let behind : drop (suc rounds * dbucket_buf_size) bytes
          ≡ drop (rounds * dbucket_buf_size) later =
        ap (λ n. drop n bytes) {x = suc rounds * dbucket_buf_size}
          {y = dbucket_buf_size + rounds * dbucket_buf_size} (omega arith)
        ∙ sym (drop_twice dbucket_buf_size (rounds * dbucket_buf_size) bytes) in
      rw (new_db-ok e ready g ix w refl runs, fill_bucket-filled q chunk l (omega arith), behind)
        (subst (λ b. Fills w p b (goes_on rounds later q v)) (take-drop dbucket_buf_size bytes)
          (grow_on w e full ready later grew (goes_on rounds later q v)
            (rest v q (Grew-End grew (omega arith)) (grew.size ∙ size) grew.ready)))
  round_given rounds w bytes e full ready enough rest (died t) runs busy =
      rw (new_db-died ix _ w runs) busy
  round_given rounds w bytes e full ready enough rest stuck runs x = absurd x
  round_given rounds w bytes e full ready enough rest fault runs x = absurd x

  pub goes_on-Fills :
      (rounds : ℕ) (bytes : List ℕ) (w : World H) (p : ℕ)
      → length bytes / dbucket_buf_size ≡ rounds
      → End w.data_mem p
      → (w.data_mem.db p).bytes ≡ dbucket_buf_size
      → Ready w.data_mem
      → Fills w p bytes (goes_on rounds bytes p w)
  goes_on-Fills zero [] w p size e full ready =
      unfold upload_rounds in unfold upload_rest in (w.data_mem, refl, nothing-Filled e ready)
  goes_on-Fills zero (b ∷ bs) w p size e full ready =
      unfold upload_rounds in
      rest_given w (b ∷ bs) e full ready (omega arith) (omega arith)
        (get_free_dbucket_ix w.data_mem) refl (get_free-Gives ready)
  goes_on-Fills (suc r) bytes w p size e full ready =
      round_given r w bytes e full ready (omega arith)
        (λ v q.
          goes_on-Fills r (drop dbucket_buf_size bytes) v q
            (omega (arith, length-drop dbucket_buf_size bytes)))
        (get_free_dbucket_ix w.data_mem) refl (get_free-Gives ready)
