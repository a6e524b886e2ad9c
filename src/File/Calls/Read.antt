-- ===== src/File/Calls/Read.antt =====
-- `read` of system/lib/file_syscalls.c on a descriptor of the library.
use spacefish.Prelude.{
  ℕ, ◌+◌, ◌≡◌, refl, sym, ap, ◌∙◌, some, List, [], ◌∷◌, arith, length, take, drop,
}
use spacefish.Run.{ok}
use spacefish.Data.Alloc.Forms.{AllMapped}
use spacefish.Meta.{set_bucket}
use spacefish.File.Host.{Host, World, on_host}
use spacefish.File.Io.{read, read_file, read_done}
use spacefish.File.Transfer.{Cursor}
use spacefish.File.Content.{content}
use spacefish.File.Reading.{At, read_loop-advances}
use spacefish.File.Calls.{Opened, bucket_of, mb_at-ok, defer_stamp-acs, reopened, by_fd-ours}

module _ {H : Type 0} where
  read_done-Opened :
      {w : World H} {fd ix : ℕ} {xs : List ℕ} {pos : ℕ}
      → Opened w fd ix xs pos
      → (bytes : List ℕ) (cur : Cursor) → At w.data_mem.db xs cur (pos + length bytes)
      → (w' : World H) × (read_done fd ix (length bytes) cur w ≡ ok tt w')
        × Opened w' fd ix xs (pos + length bytes)
        × (w'.data_mem ≡ w.data_mem)
  unfolding read_done
  read_done-Opened {w} {pos = pos} o [] cur at =
      let none_read : pos + 0 ≡ pos = omega arith in (w, refl, rw none_read o, refl)
  read_done-Opened {w} {fd} {ix} {xs} o (b ∷ bs) cur at =
      let u = record w {
        meta =
            set_bucket ix
              (record (bucket_of w ix) { last_dbucket = cur.dbindex; last_db_offset = cur.off })
              w.meta;
      } in
      let (w', runs, st) = defer_stamp-acs u fd o.in_table in
      let shown : bucket_of w' ix
          ≡ record (bucket_of w ix) { last_dbucket = cur.dbindex; last_db_offset = cur.off } =
        ap (λ m. m.mb_arr ix) st.meta ∙ ground arith in
      (
        w',
        runs,
        reopened cur o st.same_fd refl
            (record {
              first = ap (λ b. b.first_dbucket) shown;
              dbindex = ap (λ b. b.last_dbucket) shown;
              off = ap (λ b. b.last_db_offset) shown;
              size =
                  ap (λ b. b.s.st_size) shown
                  ∙ o.size
                  ∙ ap (λ d. length (content d.db xs)) (sym st.data_mem);
            })
            (rw st.data_mem o.chain) o.distinct (rw st.data_mem at),
        st.data_mem,
      )

  -- `read` on an open file all of whose data buckets, the last aside, are full, every step mapped:
  -- it returns the bytes that follow the file's position,
  -- `count` of them or as many as there are, the position is behind them, and the data is not
  -- changed.
  pub read-advances :
      (os : Host H) {w : World H} {fd ix : ℕ} {xs : List ℕ} {pos : ℕ}
      → Opened w fd ix xs pos
      → AllMapped w.data_mem
      → (count : ℕ)
      → (w' : World H) × (read os fd count w
          ≡ ok
              (record { ret = some (take count (drop pos (content w.data_mem.db xs))); err = 0 })
              w')
        × Opened w' fd ix xs (pos + length (take count (drop pos (content w.data_mem.db xs))))
        × (w'.data_mem ≡ w.data_mem)
  unfolding read read_file
  read-advances os {w} {fd} {ix} {xs} {pos} o m count =
      let bytes = take count (drop pos (content w.data_mem.db xs)) in
      let (cur, runs, at) = read_loop-advances m o.chain o.distinct o.stands count in
      let (w', ends, o', same) = read_done-Opened o bytes cur at in
      (
        w',
        rw
            (
              by_fd-ours (on_host (os.real_read fd count)) (λ mindex. read_file fd mindex count) o,
              read_file,
              mb_at-ok w ix o.in_array,
              runs,
              ends,
            )
            refl,
        o',
        same,
      )
