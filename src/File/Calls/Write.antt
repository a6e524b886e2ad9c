-- ===== src/File/Calls/Write.antt =====
-- `write` of system/lib/file_syscalls.c on a descriptor of the library.
use spacefish.Prelude.{
  ℕ, zero, suc, ◌+◌, ◌<◌, ◌≡◌, refl, sym, ap, ◌∙◌, some, List, ◌∷◌, arith, length,
}
use spacefish.Config.{max_num_fd}
use spacefish.Run.{Run, and_then, ◌>>◌, ok, died, stuck, fault}
use spacefish.Data.{DataMem}
use spacefish.Data.Alloc.{tot_buckets}
use spacefish.Data.Alloc.Search.{Busy}
use spacefish.Meta.{MetaMem, set_bucket}
use spacefish.File.Host.{Reply, Host, World, data_back, on_host}
use spacefish.File.Io.{modify, answer, write, write_file, write_done, add_size}
use spacefish.File.Transfer.{Cursor, write_loop, write_fuel}
use spacefish.File.Content.{content}
use spacefish.File.Splice.{splice}
use spacefish.File.Ready.{Ready}
use spacefish.File.Writing.{Writes}
use spacefish.File.Overwrite.{write_loop-overwrites}
use spacefish.File.Calls.{
  Opened, bucket_of, mb_at-ok, Stamped, defer_stamp-chg, reopened, by_fd-ours,
}

module _ {H : Type 0} where
  -- A write on an open file: the reply, the file that is open then, its content, the memory ready
  -- for the next one, the descriptor's cache as it was; where the process ends, no bucket could be had.
  abbrev pub Overwrites :
      (w : World H) (fd ix : ℕ) (xs : List ℕ) (pos : ℕ) (bytes : List ℕ)
      → Run (World H) (Reply ℕ)
      → Type 0
  Overwrites w fd ix xs pos bytes (ok r w') =
      (ys : List ℕ) × (r ≡ record { ret = some (length bytes); err = 0 })
      × Opened w' fd ix ys (pos + length bytes)
      × (content w'.data_mem.db ys ≡ splice pos bytes (content w.data_mem.db xs))
      × Ready w'.data_mem
      × ((w'.fds fd).off_db_mapping ≡ (w.fds fd).off_db_mapping)
  Overwrites w fd ix xs pos bytes (died w') = (j : ℕ) → j < tot_buckets → Busy (w'.data_mem.db j)
  Overwrites w fd ix xs pos bytes stuck = ⊥
  Overwrites w fd ix xs pos bytes fault = ⊥

  pub add_size-ok :
      (ix size_ind : ℕ) (w : World H)
      → (m : MetaMem) × (add_size ix size_ind w ≡ ok tt (record w { meta = m }))
        × ((m.mb_arr ix).s.st_size ≡ size_ind + (bucket_of w ix).s.st_size)
        × ((m.mb_arr ix).first_dbucket ≡ (bucket_of w ix).first_dbucket)
        × ((m.mb_arr ix).last_dbucket ≡ (bucket_of w ix).last_dbucket)
        × ((m.mb_arr ix).last_db_offset ≡ (bucket_of w ix).last_db_offset)
  unfolding add_size
  add_size-ok ix zero w = (w.meta, refl, omega arith, refl, refl, refl)
  add_size-ok ix (suc n) w = (_, refl, ground arith, ground arith, ground arith, ground arith)

  -- The state in which `write` makes its stamp.
  abbrev moved : World H → ℕ → Cursor → World H
  moved w ix cur = record w {
    meta =
        set_bucket ix
          (record (bucket_of w ix) { last_dbucket = cur.dbindex; last_db_offset = cur.off }) w.meta;
  }

  -- What `write` does once its bytes, one at least, have been copied.
  write_done-ok :
      (w : World H) (fd ix n : ℕ) (cur : Cursor)
      → fd < max_num_fd
      → (w' : World H) × (write_done fd ix (suc n) cur w
          ≡ ok tt (record w' { meta = set_bucket ix (modify (bucket_of w' ix)) w'.meta }))
        × Stamped (moved w ix cur) w' fd
  unfolding write_done
  write_done-ok w fd ix n cur h =
      let (w', runs, st) = defer_stamp-chg (moved w ix cur) fd h in (w', rw runs refl, st)

  write_rest :
      {w : World H} {fd ix : ℕ} {xs : List ℕ} {pos : ℕ}
      → Opened w fd ix xs pos
      → (b : ℕ) (bs : List ℕ) (r : Run DataMem (Cursor × ℕ))
      → Writes w.data_mem (bucket_of w ix).first_dbucket pos (b ∷ bs) xs r
      → Overwrites w fd ix xs pos (b ∷ bs) (
          and_then (data_back w r) (λ (cur, size_ind).
            write_done fd ix (length (b ∷ bs)) cur
            >> (add_size ix size_ind >> answer (length (b ∷ bs)))))
  write_rest {w} {fd} {ix} {xs} {pos} o b bs (ok (cur, size_ind) t) wr =
      let u = record w { data_mem = t } in
      let (w1, e1, st) = write_done-ok u fd ix (length bs) cur o.in_table in
      let w2 = record w1 { meta = set_bucket ix (modify (bucket_of w1 ix)) w1.meta } in
      let (m, e2, size, first, dbindex, off) = add_size-ok ix size_ind w2 in
      let shown : bucket_of w2 ix
          ≡ modify
              (record (bucket_of w ix) { last_dbucket = cur.dbindex; last_db_offset = cur.off }) =
        ground arith ∙ ap (λ m. modify (m.mb_arr ix)) st.meta ∙ ground arith in
      let grown : size_ind + (bucket_of w ix).s.st_size ≡ length (content t.db wr.ys) =
        omega (arith, wr.grew, o.size) in
      rw (e1, e2)
        (
          wr.ys,
          refl,
          reopened {u = u} cur o
              (record {
                internal = st.same_fd.internal;
                taken = st.same_fd.taken;
                names = st.same_fd.names;
              })
              refl
              (record {
                first = first ∙ ap (λ b. b.first_dbucket) shown;
                dbindex = dbindex ∙ ap (λ b. b.last_dbucket) shown;
                off = off ∙ ap (λ b. b.last_db_offset) shown;
                size =
                    size
                    ∙ ap (λ b. size_ind + b.s.st_size) shown
                    ∙ grown
                    ∙ ap (λ d. length (content d.db wr.ys)) (sym st.data_mem);
              })
              (rw st.data_mem wr.chain) wr.distinct (rw st.data_mem wr.stands),
          rw st.data_mem wr.holds,
          rw st.data_mem wr.ready,
          st.mapping,
        )
  write_rest o b bs (died t) busy = busy
  write_rest o b bs stuck x = x
  write_rest o b bs fault x = x

  -- `write` of one byte or more on an open file all of whose data buckets, the last aside, are full,
  -- on a memory that is `Ready`: it returns the number of the bytes; the content of the file is the old one with the bytes written over it from the file's
  -- position, and behind its end; the size kept with the file is that of its content, the position
  -- is behind the bytes, and the memory is ready again. The process ends only where no bucket can
  -- be had.
  pub write-Overwrites :
      (os : Host H) {w : World H} {fd ix : ℕ} {xs : List ℕ} {pos : ℕ}
      → Opened w fd ix xs pos
      → Ready w.data_mem
      → (b : ℕ) (bs : List ℕ) → Overwrites w fd ix xs pos (b ∷ bs) (write os fd (b ∷ bs) w)
  unfolding write write_file
  write-Overwrites os {w} {fd} {ix} o r b bs =
      let mb = bucket_of w ix in
      rw
        (
          by_fd-ours (on_host (os.real_write fd (b ∷ bs))) (λ mindex. write_file fd mindex (b ∷ bs))
              o,
          write_file,
          mb_at-ok w ix o.in_array,
        )
        (write_rest o b bs
          (write_loop (write_fuel (b ∷ bs)) mb.last_dbucket mb.last_db_offset (b ∷ bs) w.data_mem)
          (write_loop-overwrites r o.chain o.distinct o.stands (b ∷ bs)))
