-- ===== src/Exec/Cloexec.antt =====
-- `close_cloexec` of system/util/process.c.
use spacefish.Prelude.{
  ℕ, zero, suc, ◌+◌, ◌≤◌, ◌<◌, ◌≡◌, refl, ◌∙◌, inl, inr, Bool, true, false, ◌&&◌, not, some, arith,
  ◌==◌, leb, ltb, if◌then◌else◌, update, Bool-cases,
}
use spacefish.Config.{max_num_fd, meta_buckets, no_ix}
use spacefish.Run.{ok}
use spacefish.Fd.{FdInfo, FdTable, forget, reset_fd}
use spacefish.Meta.{MetaBucket, set_bucket}
use spacefish.File.Host.{Reply, Host, World, has_bit, st_acs, st_mod, st_chg}
use spacefish.File.Io.{close, close_file, by_fd, merge_stamp}
use spacefish.File.Calls.{fddes-ok, mb_at-ok}
use spacefish.Exec.{fd_cloexec, cloexec_from, close_cloexec}

-- An open descriptor that is to be closed.
abbrev pub to_close : FdInfo → Bool
to_close d = not d.empty && has_bit d.flags fd_cloexec

-- A descriptor after `reset_fd`.
abbrev pub reset : FdInfo → FdInfo
reset d = record d {
  mindex = no_ix;
  flags = 0;
  stamp_type = 0;
  exclusive = false;
  empty = true;
  off_db_mapping = forget d.off_db_mapping;
}

-- The times that `close` merges into the metadata.
abbrev merged : FdInfo → MetaBucket → MetaBucket
merged d mb = record mb {
  s = record mb.s {
    st_atim = merge_stamp d.stamp_type st_acs d.priv_s.st_atim mb.s.st_atim;
    st_mtim = merge_stamp d.stamp_type st_mod d.priv_s.st_mtim mb.s.st_mtim;
    st_ctim = merge_stamp d.stamp_type st_chg d.priv_s.st_ctim mb.s.st_ctim;
  };
}

-- The descriptors to be closed are the library's own.
abbrev pub OwnCloexec : FdTable → Type 0
OwnCloexec fds =
    (i : ℕ)
    → i < max_num_fd
    → to_close (fds i) ≡ true
    → ((fds i).exclusive ≡ false) × ((fds i).mindex < meta_buckets)

module _ {H : Type 0} (os : Host H) where
  close_own :
      (w : World H) (i : ℕ)
      → i < max_num_fd
      → (w.fds i).exclusive ≡ false
      → (w.fds i).empty ≡ false
      → (w.fds i).mindex < meta_buckets
      → (r : Reply (Unit {0})) × ((w' : World H) × (close os i w ≡ ok r w')
          × (w'.fds ≡ update w.fds i (reset (w.fds i))))
  unfolding close by_fd close_file reset_fd
  close_own w i less internal opened in_array =
      let inside : leb max_num_fd i ≡ false = ground arith in
      let ix = (w.fds i).mindex in
      (
        record { ret = some tt; err = 0 },
        (
          record w {
            meta = set_bucket ix (merged (w.fds i) (w.meta.mb_arr ix)) w.meta;
            fds = update w.fds i (reset (w.fds i));
          },
          rw
              (
                fddes-ok w i less,
                internal,
                opened,
                close_file,
                fddes-ok w i less,
                mb_at-ok w ix in_array,
                inside,
              )
              refl,
          refl,
        ),
      )

  -- The loop over descriptors below `i + k`, seen at the descriptor `j`.
  abbrev closed_from : (k i : ℕ) → FdTable → FdTable
  closed_from k i fds j =
      if leb i j && (ltb j (i + k) && to_close (fds j)) then reset (fds j) else fds j

  step_closed :
      (k i j : ℕ) (fds fds' : FdTable)
      → to_close (fds i) ≡ true
      → fds' ≡ update fds i (reset (fds i))
      → closed_from k (i + 1) fds' j ≡ closed_from (suc k) i fds j
  step_closed k i j fds fds' c e =
      let bound : ltb j (i + 1 + k) ≡ ltb j (i + suc k) = ground arith in
      elim (Bool-cases (j == i)) [
        | inl here ↦
            let at : j ≡ i = ground arith in
            let before : leb (i + 1) i ≡ false = ground arith in
            let from : leb i i ≡ true = ground arith in
            let below : ltb i (i + suc k) ≡ true = ground arith in
            let mine : fds' i ≡ reset (fds i) = ground arith in
            rw (at, before, from, below, c, mine) refl
        | inr there ↦
            let same : leb (i + 1) j ≡ leb i j = ground arith in
            let mine : fds' j ≡ fds j = ground arith in rw (same, bound, mine) refl
      ]

  step_kept :
      (k i j : ℕ) (fds : FdTable)
      → to_close (fds i) ≡ false
      → closed_from k (i + 1) fds j ≡ closed_from (suc k) i fds j
  step_kept k i j fds c =
      let bound : ltb j (i + 1 + k) ≡ ltb j (i + suc k) = ground arith in
      elim (Bool-cases (j == i)) [
        | inl here ↦
            let at : j ≡ i = ground arith in
            let before : leb (i + 1) i ≡ false = ground arith in
            let from : leb i i ≡ true = ground arith in
            let below : ltb i (i + suc k) ≡ true = ground arith in
            rw (at, before, from, below, c) refl
        | inr there ↦ let same : leb (i + 1) j ≡ leb i j = ground arith in rw (same, bound) refl
      ]

  abbrev Closes : (k i : ℕ) → World H → Type 0
  Closes k i w =
      (w' : World H) × (cloexec_from os k i w ≡ ok tt w')
      × ((j : ℕ) → w'.fds j ≡ closed_from k i w.fds j)

  cloexec_from-Closes :
      (k i : ℕ) (w : World H) → i + k ≤ max_num_fd → OwnCloexec w.fds → Closes k i w
  unfolding cloexec_from
  cloexec_from-Closes zero i w h own = (w, refl, λ j. ground arith)
  cloexec_from-Closes (suc k) i w h own = elim (Bool-cases (to_close (w.fds i))) [
    | inl close_it ↦
        let (internal, in_array) = own i (omega arith) close_it in
        let (r, (v, runs, fds)) = close_own w i (omega arith) internal (ground arith) in_array in
        let own' : OwnCloexec v.fds = λ j less c. ground (arith, fds, own j less) in
        let (w', rest, at) = cloexec_from-Closes k (i + 1) v (omega arith) own' in
        (
          w',
          rw (fddes-ok w i (omega arith), close_it, runs, rest) refl,
          λ j. at j ∙ step_closed k i j w.fds v.fds close_it fds,
        )
    | inr keep ↦
        let (w', rest, at) = cloexec_from-Closes k (i + 1) w (omega arith) own in
        (
          w',
          rw (fddes-ok w i (omega arith), keep, rest) refl,
          λ j. at j ∙ step_kept k i j w.fds keep,
        )
  ]

  -- Closing what is to be closed on exec.
  pub close_cloexec-Closes :
      (w : World H)
      → OwnCloexec w.fds
      → (w' : World H) × (close_cloexec os w ≡ ok tt w')
        × ((j : ℕ)
            → j < max_num_fd
            → w'.fds j ≡ (if to_close (w.fds j) then reset (w.fds j) else w.fds j))
  unfolding close_cloexec
  close_cloexec-Closes w own =
      let (w', runs, at) = cloexec_from-Closes max_num_fd 0 w (omega arith) own in
      (
        w',
        runs,
        λ j less.
            let from : leb 0 j ≡ true = ground arith in
            let below : ltb j (0 + max_num_fd) ≡ true = ground arith in
            at j ∙ rw (from, below) refl,
      )
