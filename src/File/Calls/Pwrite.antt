-- ===== src/File/Calls/Pwrite.antt =====
-- `pwrite` of system/lib/file_syscalls.c on a descriptor of the library.
use spacefish.Prelude.{
  ℕ, suc, ◌+◌, ◌/◌, ◌%◌, ◌<◌, ◌≡◌, ◌≢◌, refl, sym, ap, subst, ◌∙◌, some, List, ◌∷◌, arith, length,
  Distinct, length-le_of_Distinct,
}
use spacefish.Config.{dbucket_buf_size, no_ix, max_num_fd}
use spacefish.Run.{Run, and_then, ◌>>◌, ok, died, stuck, fault}
use spacefish.Data.{DataMem}
use spacefish.Data.Alloc.{tot_buckets}
use spacefish.Data.Alloc.Search.{Busy}
use spacefish.Meta.{set_bucket}
use spacefish.File.Host.{Reply, Host, World, data_back, on_host}
use spacefish.File.Io.{
  modify, answer, pwrite, pwrite_file, pwrite_at, pwrite_done, add_size, cached,
}
use spacefish.File.Transfer.{Cursor, write_loop, write_fuel}
use spacefish.File.Positional.{rounds_of, seek}
use spacefish.File.Content.{FileChain, content, FileChain-AllBelow, FileChain-in_range}
use spacefish.File.Splice.{splice}
use spacefish.File.Ready.{Ready}
use spacefish.File.Reading.{At}
use spacefish.File.Seeking.{seek-Sought}
use spacefish.File.Writing.{Writes}
use spacefish.File.Overwrite.{write_loop-overwrites}
use spacefish.File.Pwriting.{counted, Ready-Fit, pwrite_loop-write_loop}
use spacefish.File.Calls.{Opened, bucket_of, mb_at-ok, Stamped, defer_stamp-chg, by_fd-ours}
use spacefish.File.Calls.Pread.{content-small, first_bucket, with_cache, locate-ok}
use spacefish.File.Calls.Write.{add_size-ok}

module _ {H : Type 0} where
  -- A write at an offset: the reply, the file's chain and content, the size kept with it, its
  -- position as it was, and the memory ready for the next call; where the process ends, no bucket
  -- could be had.
  abbrev pub Patches :
      (w : World H) (ix : ℕ) (xs : List ℕ) (offset : ℕ) (bytes : List ℕ)
      → Run (World H) (Reply ℕ)
      → Type 0
  Patches w ix xs offset bytes (ok r w') =
      (ys : List ℕ) × (r ≡ record { ret = some (length bytes); err = 0 })
      × FileChain w'.data_mem.db (bucket_of w' ix).first_dbucket ys
      × Distinct ys
      × (content w'.data_mem.db ys ≡ splice offset bytes (content w.data_mem.db xs))
      × ((bucket_of w' ix).s.st_size ≡ length (content w'.data_mem.db ys))
      × ((bucket_of w' ix).last_dbucket ≡ (bucket_of w ix).last_dbucket)
      × ((bucket_of w' ix).last_db_offset ≡ (bucket_of w ix).last_db_offset)
      × Ready w'.data_mem
  Patches w ix xs offset bytes (died w') = (j : ℕ) → j < tot_buckets → Busy (w'.data_mem.db j)
  Patches w ix xs offset bytes stuck = ⊥
  Patches w ix xs offset bytes fault = ⊥

  pwrite_done-ok :
      (w : World H) (fd ix n : ℕ)
      → fd < max_num_fd
      → (w' : World H) × (pwrite_done fd ix (suc n) w
          ≡ ok tt (record w' { meta = set_bucket ix (modify (bucket_of w' ix)) w'.meta }))
        × Stamped w w' fd
  unfolding pwrite_done
  pwrite_done-ok w fd ix n h = let (w', runs, st) = defer_stamp-chg w fd h in (w', rw runs refl, st)

  pwrite_rest :
      {w : World H} (u : World H) {fd ix : ℕ} {xs : List ℕ} {pos : ℕ}
      → Opened w fd ix xs pos
      → u.meta ≡ w.meta
      → (offset b : ℕ) (bs : List ℕ) (r : Run DataMem (Cursor × ℕ))
      → Writes w.data_mem (bucket_of w ix).first_dbucket offset (b ∷ bs) xs r
      → Patches w ix xs offset (b ∷ bs) (
          and_then
            (data_back u (counted (length (b ∷ bs)) r))
            (λ (n, size_ind). pwrite_done fd ix n >> (add_size ix size_ind >> answer n)))
  pwrite_rest {w} u {fd} {ix} o same offset b bs (ok (cur, size_ind) t) wr =
      let (w1, e1, st) = pwrite_done-ok (record u { data_mem = t }) fd ix (length bs) o.in_table in
      let w2 = record w1 { meta = set_bucket ix (modify (bucket_of w1 ix)) w1.meta } in
      let (m, e2, size, first, dbindex, off) = add_size-ok ix size_ind w2 in
      let shown : bucket_of w2 ix ≡ modify (bucket_of w ix) =
        ground arith ∙ ap (λ m. modify (m.mb_arr ix)) (st.meta ∙ same) in
      let grown : size_ind + (bucket_of w ix).s.st_size ≡ length (content t.db wr.ys) =
        omega (arith, wr.grew, o.size) in
      rw (e1, e2)
        (
          wr.ys,
          refl,
          subst (λ i. FileChain w1.data_mem.db i wr.ys)
              (sym (first ∙ ap (λ b. b.first_dbucket) shown)) (rw st.data_mem wr.chain),
          wr.distinct,
          rw st.data_mem wr.holds,
          size
              ∙ ap (λ b. size_ind + b.s.st_size) shown
              ∙ grown
              ∙ ap (λ d. length (content d.db wr.ys)) (sym st.data_mem),
          dbindex ∙ ap (λ b. b.last_dbucket) shown,
          off ∙ ap (λ b. b.last_db_offset) shown,
          rw st.data_mem wr.ready,
        )
  pwrite_rest u o same offset b bs (died t) busy = busy
  pwrite_rest u o same offset b bs stuck x = x
  pwrite_rest u o same offset b bs fault x = x

  -- `pwrite` of one byte or more at an offset within the content of an open file all of whose data
  -- buckets, the last aside, are full, on a memory that is `Ready`, where the descriptor has not
  -- cached the offset: it returns the number of the bytes; the content of the file is the old one
  -- with the bytes written over it from the offset, and behind its end; the size kept with the file
  -- is that of its content, its position is as it was, and the memory is ready again. The process
  -- ends only where no bucket can be had.
  pub pwrite-Patches :
      (os : Host H) {w : World H} {fd ix : ℕ} {xs : List ℕ} {pos : ℕ}
      → Opened w fd ix xs pos
      → Ready w.data_mem
      → (b : ℕ) (bs : List ℕ) (offset : ℕ) → offset < length (content w.data_mem.db xs)
      → cached (w.fds fd) offset ≡ no_ix
      → Patches w ix xs offset (b ∷ bs) (pwrite os fd (b ∷ bs) offset w)
  unfolding pwrite pwrite_file pwrite_at
  pwrite-Patches os {w} {fd} {ix} {xs} o r b bs offset inside new =
      let short = length-le_of_Distinct tot_buckets xs o.distinct (FileChain-AllBelow o.chain) in
      let k = offset / dbucket_buf_size in
      let off = offset % dbucket_buf_size in
      let rounds : rounds_of offset ≡ k = ground (arith, short, content-small o.chain) in
      let w0 = seek-Sought r.mapped k o.chain (omega arith) in
      let found : seek (rounds_of offset) (bucket_of w ix).first_dbucket w.data_mem
          ≡ ok (some w0.dbindex) w.data_mem =
        ap (λ n. seek n (bucket_of w ix).first_dbucket w.data_mem) rounds ∙ w0.runs in
      let at : At w.data_mem.db xs (record { dbindex = w0.dbindex; off = off }) offset = record {
        before = w0.before;
        after = w0.ys;
        parts = w0.parts;
        chain = w0.chain;
        within = first_bucket off w0.chain (omega arith) (omega (arith, w0.size));
        position = omega (arith, w0.passed);
      } in
      let there : w0.dbindex ≢ no_ix = omega (arith, FileChain-in_range w0.chain) in
      let as_write =
        pwrite_loop-write_loop (write_fuel (b ∷ bs)) w0.dbindex off (b ∷ bs) (Ready-Fit r) there in
      rw
        (
          by_fd-ours (on_host (os.real_pwrite fd (b ∷ bs) offset))
              (λ mindex. pwrite_file fd mindex (b ∷ bs) offset) o,
          pwrite_file,
          mb_at-ok w ix o.in_array,
          locate-ok w fd offset (bucket_of w ix).first_dbucket w0.dbindex o.in_table new found,
          pwrite_at,
          as_write,
        )
        (pwrite_rest (with_cache w fd offset w0.dbindex) o refl offset b bs
          (write_loop (write_fuel (b ∷ bs)) w0.dbindex off (b ∷ bs) w.data_mem)
          (write_loop-overwrites r o.chain o.distinct at (b ∷ bs)))
