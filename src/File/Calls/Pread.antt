-- ===== src/File/Calls/Pread.antt =====
-- `pread` of system/lib/file_syscalls.c on a descriptor of the library.
use spacefish.Prelude.{
  ℕ, zero, suc, ◌+◌, ◌*◌, ◌/◌, ◌%◌, ◌≤◌, ◌<◌, ◌≡◌, refl, sym, ap, ◌∙◌, true, some, List, [], ◌∷◌,
  arith, ◌==◌, update, length, take, drop, length-append, length-le_of_Distinct,
}
use spacefish.Config.{dbucket_buf_size, no_ix, max_num_fd}
use spacefish.Run.{ok}
use spacefish.Data.{DataBucket}
use spacefish.Data.Alloc.{tot_buckets}
use spacefish.Data.Alloc.Forms.{AllMapped}
use spacefish.File.Host.{Host, World, on_host}
use spacefish.File.Io.{pread, pread_file, pread_at, pread_done, locate, cached}
use spacefish.File.Transfer.{data_fuel}
use spacefish.File.Positional.{rounds_of, seek}
use spacefish.File.Content.{FileChain, last, more, content, bytes_of, FileChain-AllBelow}
use spacefish.File.Slices.{length-slice}
use spacefish.File.Seeking.{seek-Sought, pread_loop-reads}
use spacefish.File.Calls.{
  Opened, bucket_of, cursor_of, fddes-ok, mb_at-ok, SameFd, defer_stamp-acs, reopened, by_fd-ours,
}

-- A chain holds no more than its buckets can.
pub content-small :
    {db : ℕ → DataBucket} {ix : ℕ} {xs : List ℕ}
    → FileChain db ix xs
    → length (content db xs) ≤ dbucket_buf_size * length xs
unfolding content
content-small {db} {ix} (last _ _ _ small) =
    omega (arith, length-append (bytes_of (db ix)) [], length-slice (db ix).buf 0 (db ix).bytes)
content-small {db} {ix} {xs = _ ∷ xs} (more _ _ _ full c) = omega (
  arith,
  content-small c,
  length-append (bytes_of (db ix)) (content db xs),
  length-slice (db ix).buf 0 (db ix).bytes,
)

-- An offset within a bucket and within the content is within the first bucket.
pub first_bucket :
    {db : ℕ → DataBucket} {ix : ℕ} {xs : List ℕ} (off : ℕ)
    → FileChain db ix xs
    → off < dbucket_buf_size
    → off ≤ length (content db xs)
    → off ≤ (db ix).bytes
unfolding content
first_bucket {db} {ix} off (last _ _ _ small) l h =
    omega (arith, length-append (bytes_of (db ix)) [], length-slice (db ix).buf 0 (db ix).bytes)
first_bucket off (more _ _ _ full c) l h = omega arith

module _ {H : Type 0} where
  abbrev pub with_cache : World H → (fd offset dbindex : ℕ) → World H
  with_cache w fd offset dbindex = record w {
    fds =
        update w.fds fd (record (w.fds fd) {
          off_db_mapping = record { offset = some offset; dbindex = dbindex };
        });
  }

  pub locate-ok :
      (w : World H) (fd offset first dbindex : ℕ)
      → fd < max_num_fd
      → cached (w.fds fd) offset ≡ no_ix
      → seek (rounds_of offset) first w.data_mem ≡ ok (some dbindex) w.data_mem
      → locate fd offset first w ≡ ok (some dbindex) (with_cache w fd offset dbindex)
  unfolding locate
  locate-ok w fd offset first dbindex less new found =
      let miss : (cached (w.fds fd) offset == no_ix) ≡ true = ground arith in
      rw (fddes-ok w fd less) (rw miss (rw found refl))

  Opened-SameFd :
      {w w' : World H} {fd ix : ℕ} {xs : List ℕ} {pos : ℕ}
      → Opened w fd ix xs pos
      → SameFd w w' fd
      → w'.meta ≡ w.meta
      → w'.data_mem ≡ w.data_mem
      → Opened w' fd ix xs pos
  Opened-SameFd {w} {ix = ix} {xs = xs} o same_fd m d =
      reopened {u = w} (cursor_of w ix) o same_fd refl
        (record {
          first = ap (λ m. (m.mb_arr ix).first_dbucket) m;
          dbindex = ap (λ m. (m.mb_arr ix).last_dbucket) m;
          off = ap (λ m. (m.mb_arr ix).last_db_offset) m;
          size =
              ap (λ m. (m.mb_arr ix).s.st_size) m
              ∙ o.size
              ∙ ap (λ d. length (content d.db xs)) (sym d);
        })
        (rw d o.chain) o.distinct (rw d o.stands)

  pread_done-Opened :
      {w u : World H} {fd ix : ℕ} {xs : List ℕ} {pos : ℕ} (n : ℕ)
      → Opened w fd ix xs pos
      → SameFd w u fd
      → u.meta ≡ w.meta
      → u.data_mem ≡ w.data_mem
      → (w' : World H) × (pread_done fd n u ≡ ok tt w')
        × Opened w' fd ix xs pos
        × (w'.data_mem ≡ w.data_mem)
  unfolding pread_done
  pread_done-Opened {u = u} zero o f m d = (u, refl, Opened-SameFd o f m d, d)
  pread_done-Opened {u = u} {fd = fd} (suc n) o f m d =
      let (w', runs, st) = defer_stamp-acs u fd o.in_table in
      let f' : SameFd _ w' fd = record {
        internal = st.same_fd.internal ∙ f.internal;
        taken = st.same_fd.taken ∙ f.taken;
        names = st.same_fd.names ∙ f.names;
      } in
      (w', runs, Opened-SameFd o f' (st.meta ∙ m) (st.data_mem ∙ d), st.data_mem ∙ d)

  with_cache-SameFd :
      (w : World H) (fd offset dbindex : ℕ) → SameFd w (with_cache w fd offset dbindex) fd
  with_cache-SameFd w fd offset dbindex = record {
    internal = ground arith;
    taken = ground arith;
    names = ground arith;
  }

  -- `pread` at an offset within the content of an open file all of whose data buckets, the last aside,
  -- are full, where the descriptor has not cached the offset, every step mapped: it returns the bytes of the content from the offset on, `count` of them or as many as
  -- there are; the position of the file and its data are not changed.
  pub pread-reads :
      (os : Host H) {w : World H} {fd ix : ℕ} {xs : List ℕ} {pos : ℕ}
      → Opened w fd ix xs pos
      → AllMapped w.data_mem
      → (count offset : ℕ) → offset < length (content w.data_mem.db xs)
      → cached (w.fds fd) offset ≡ no_ix
      → (w' : World H) × (pread os fd count offset w
          ≡ ok
              (record { ret = some (take count (drop offset (content w.data_mem.db xs))); err = 0 })
              w')
        × Opened w' fd ix xs pos
        × (w'.data_mem ≡ w.data_mem)
  unfolding pread pread_file pread_at
  pread-reads os {w} {fd} {ix} {xs} {pos} o m count offset inside new =
      let short = length-le_of_Distinct tot_buckets xs o.distinct (FileChain-AllBelow o.chain) in
      let size = content-small o.chain in
      let k = offset / dbucket_buf_size in
      let off = offset % dbucket_buf_size in
      let rounds : rounds_of offset ≡ k = ground (arith, short, size) in
      let w0 = seek-Sought m k o.chain (omega arith) in
      let found : seek (rounds_of offset) (bucket_of w ix).first_dbucket w.data_mem
          ≡ ok (some w0.dbindex) w.data_mem =
        ap (λ n. seek n (bucket_of w ix).first_dbucket w.data_mem) rounds ∙ w0.runs in
      let split : offset ≡ dbucket_buf_size * k + off = omega arith in
      let rest : drop offset (content w.data_mem.db xs) ≡ drop off (content w.data_mem.db w0.ys) =
        ap (λ i. drop i (content w.data_mem.db xs)) split ∙ w0.rest off in
      let u = with_cache w fd offset w0.dbindex in
      let within = first_bucket off w0.chain (omega arith) (omega (arith, w0.size)) in
      let bytes = take count (drop off (content w.data_mem.db w0.ys)) in
      let runs =
        pread_loop-reads m data_fuel off count w0.chain within (omega (arith, short, w0.shorter)) in
      let (w', ends, o', same) =
        pread_done-Opened {u = u} (length bytes) o (with_cache-SameFd w fd offset w0.dbindex) refl
          refl in
      (
        w',
        rw
            (
              rest,
              by_fd-ours (on_host (os.real_pread fd count offset))
                  (λ mindex. pread_file fd mindex count offset) o,
              pread_file,
              mb_at-ok w ix o.in_array,
              locate-ok w fd offset (bucket_of w ix).first_dbucket w0.dbindex o.in_table new found,
              pread_at,
              runs,
              ends,
            )
            refl,
        o',
        same,
      )
