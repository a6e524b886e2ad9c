-- ===== src/File/Flush.antt =====
-- `write_to_disk` and `flush_write` of system/util/util.c: what they leave on the disk.
use spacefish.Prelude.{
  ℕ, zero, suc, ◌+◌, ◌-◌, ◌*◌, ◌/◌, ◌%◌, ◌≤◌, ◌<◌, ◌≡◌, refl, ap, ◌∙◌, inl, inr, true, false, ◌&&◌,
  not, none, some, List, [], ◌∷◌, arith, if◌then◌else◌, length, take, drop, Bool-cases, length-drop,
}
use spacefish.Config.{meta_buckets, dbucket_buf_size}
use spacefish.Run.{ok}
use spacefish.Text.{CString}
use spacefish.Data.Alloc.Forms.{AllMapped}
use spacefish.Meta.{MetaBucket}
use spacefish.File.Host.{Host, World}
use spacefish.File.Transfer.{slice, blit}
use spacefish.File.Blit.{slice-blit}
use spacefish.File.Slices.{take-slice, length-slice}
use spacefish.File.Content.{FileChain, content}
use spacefish.File.Calls.{bucket_of, mb_at-ok}
use spacefish.File.Disk.{
  save_flags, save_file, write_to_disk, in_use_from, traverse_next_bucket, flush_from, flush_write,
}
use spacefish.File.Saving.{Plain, image, save_data-image, image-Plain}

module _ {H : Type 0} (os : Host H) where
  -- The host once the file has been opened, written and closed; a file that cannot be opened is
  -- left.
  abbrev pub saved : CString → (mode : ℕ) → List ℕ → H → H
  saved path mode bytes h =
      let (o, h1) = os.real_open path save_flags mode h in
      elim o.ret [
        | none ↦ h1
        | some fd ↦ let (n, h2) = os.real_write fd bytes h1 in (os.real_close fd h2).1
      ]

  save_file-saved :
      (path : CString) (mode : ℕ) (bytes : List ℕ) (w : World H)
      → save_file os path mode bytes w ≡ ok tt (record w { host = saved path mode bytes w.host })
  unfolding save_file
  save_file-saved path mode bytes w = ground arith

  -- The data of the bucket `ix` is the chain `xs`, all of whose buckets but the last are full, and its
  -- size is that of its content.
  pub record Stored (w : World H) (ix : ℕ) (xs : List ℕ) : Type 0 where
    pub in_array : ix < meta_buckets
    pub chain : FileChain w.data_mem.db (bucket_of w ix).first_dbucket xs
    pub size : (bucket_of w ix).s.st_size ≡ length (content w.data_mem.db xs)

  abbrev pub on_disk : World H → (ix : ℕ) → List ℕ → H → H
  on_disk w ix bytes = saved (bucket_of w ix).path (bucket_of w ix).s.st_mode bytes

  writes_image :
      {w : World H} {ix : ℕ} {xs : List ℕ} (block : ℕ → ℕ)
      → AllMapped w.data_mem
      → Stored w ix xs
      → write_to_disk os block ix w
        ≡ ok tt (record w {
          host =
              on_disk w ix
                (slice
                  (image block (content w.data_mem.db xs))
                  0
                  (length (content w.data_mem.db xs)))
                w.host;
        })
  unfolding write_to_disk
  writes_image {w} {ix} {xs} block m st =
      rw (mb_at-ok w ix st.in_array, st.size, save_data-image m block st.chain)
        (save_file-saved _ _ _ w)

  -- A file all of whose data buckets, the last aside, are full, and whose size is that of its content,
  -- shorter than a data bucket or of full buckets only, every step mapped, is written to the disk as it is in the
  -- memory, and nothing else changes, whatever is in the block that `malloc` gives.
  pub write_to_disk-saves :
      {w : World H} {ix : ℕ} {xs : List ℕ} (block : ℕ → ℕ)
      → AllMapped w.data_mem
      → Stored w ix xs
      → Plain (content w.data_mem.db xs)
      → write_to_disk os block ix w
        ≡ ok tt (record w { host = on_disk w ix (content w.data_mem.db xs) w.host })
  write_to_disk-saves {w} {ix} {xs} block m st plain =
      let bytes = content w.data_mem.db xs in
      writes_image block m st
      ∙ ap (λ b. ok tt (record w { host = on_disk w ix b w.host })) (image-Plain block bytes plain)

  -- Of a file all of whose data buckets, the last aside, are full, and whose size is that of its
  -- content, every step mapped, as many bytes are written to the disk as the file has, and first those
  -- behind its last full bucket.
  pub write_to_disk-misplaces :
      {w : World H} {ix : ℕ} {xs : List ℕ} (block : ℕ → ℕ)
      → AllMapped w.data_mem
      → Stored w ix xs
      → let bytes = content w.data_mem.db xs in
        let rest = length bytes % dbucket_buf_size in
        (written : List ℕ) × (write_to_disk os block ix w
          ≡ ok tt (record w { host = on_disk w ix written w.host }))
        × (length written ≡ length bytes)
        × (take rest written ≡ drop (length bytes - rest) bytes)
  write_to_disk-misplaces {w} {ix} {xs} block m st =
      let bytes = content w.data_mem.db xs in
      let done = length bytes / dbucket_buf_size * dbucket_buf_size in
      let start = blit block 0 (take done bytes) in
      let at : length bytes - length bytes % dbucket_buf_size ≡ done = omega arith in
      let size : length (drop done bytes) ≡ length bytes % dbucket_buf_size =
        length-drop done bytes ∙ omega arith in
      (
        slice (image block bytes) 0 (length bytes),
        writes_image block m st,
        length-slice (image block bytes) 0 (length bytes),
        rw
            (
              take-slice (image block bytes) 0 (length bytes % dbucket_buf_size) (length bytes)
                  (omega arith),
              at,
              ← size,
            )
            (slice-blit start 0 (drop done bytes)),
      )

  -- The buckets to write back, of `k` from `pos`.
  unfoldable pub dirty_from : (k pos : ℕ) → (ℕ → MetaBucket) → List ℕ
  dirty_from zero pos mb_arr = []
  dirty_from (suc k) pos mb_arr =
      let rest = dirty_from k (pos + 1) mb_arr in
      if (mb_arr pos).in_use && not (mb_arr pos).consisent then pos ∷ rest else rest

  -- The files of the buckets `ixs`, one after the other; `files` are their chains.
  unfoldable pub all_on_disk : World H → (files : ℕ → List ℕ) → List ℕ → H → H
  all_on_disk w files [] h = h
  all_on_disk w files (ix ∷ ixs) h =
      all_on_disk w files ixs (on_disk w ix (content w.data_mem.db (files ix)) h)

  module _ (block : ℕ → ℕ) (w : World H) (files : ℕ → List ℕ) (m : AllMapped w.data_mem)
      (stored : (ix : ℕ)
        → ix < meta_buckets
        → (bucket_of w ix).in_use ≡ true
        → (bucket_of w ix).consisent ≡ false
        → Stored w ix (files ix) × Plain (content w.data_mem.db (files ix))) where
    abbrev on : H → World H
    on h = record w { host = h }

    abbrev Flushes : (fuel k pos : ℕ) → H → Type 0
    Flushes fuel k pos h =
        flush_from os fuel block (in_use_from k pos w.meta.mb_arr) (on h)
        ≡ ok tt (on (all_on_disk w files (dirty_from k pos w.meta.mb_arr) h))

    -- One bucket in use, and those behind it.
    flush_bucket :
        (fuel k pos : ℕ) (h : H)
        → pos + suc k ≡ meta_buckets
        → (bucket_of w pos).in_use ≡ true
        → ((h : H) → Flushes fuel k (pos + 1) h)
        → Flushes (suc fuel) (suc k) pos h
    unfolding flush_from in_use_from dirty_from traverse_next_bucket all_on_disk
    flush_bucket fuel k pos h e used rest =
        let next : meta_buckets - (pos + 1) ≡ k = omega arith in
        elim (Bool-cases (bucket_of w pos).consisent) [
          | inl clean ↦ rw (used, clean, next, rest h) refl
          | inr dirty ↦
              let (st, plain) = stored pos (omega arith) used dirty in
              let st' : Stored (on h) pos (files pos) = record {
                in_array = st.in_array;
                chain = st.chain;
                size = st.size;
              } in
              rw
                (
                  used,
                  dirty,
                  next,
                  write_to_disk-saves block m st' plain,
                  rest (on_disk w pos (content w.data_mem.db (files pos)) h),
                )
                refl
        ]

    flush_from-Flushes :
        (fuel k pos : ℕ) (h : H) → pos + k ≡ meta_buckets → k ≤ fuel → Flushes fuel k pos h
    unfolding flush_from in_use_from dirty_from all_on_disk
    flush_from-Flushes fuel zero pos h e b = refl
    flush_from-Flushes zero (suc k) pos h e b = absurd (omega arith)
    flush_from-Flushes (suc fuel) (suc k) pos h e b = elim (Bool-cases (bucket_of w pos).in_use) [
      | inl used ↦
          flush_bucket fuel k pos h e used
            (λ h. flush_from-Flushes fuel k (pos + 1) h (omega arith) (omega arith))
      | inr free ↦
          rw (free, flush_from-Flushes (suc fuel) k (pos + 1) h (omega arith) (omega arith)) refl
    ]

    -- Where each file of a modified bucket in use is a chain of data buckets that are all full but the
    -- last, whose bytes are as many as the file's size says, and is shorter than a data bucket or of
    -- full buckets only, every step mapped: flush_write ends, has written each of them to the disk as it is in the memory, in the order of
    -- their buckets, and changes nothing else.
    pub flush_write-saves :
        flush_write os block w
        ≡ ok tt (on (all_on_disk w files (dirty_from meta_buckets 0 w.meta.mb_arr) w.host))
    unfolding flush_write traverse_next_bucket
    flush_write-saves =
        flush_from-Flushes meta_buckets meta_buckets 0 w.host (omega arith) (omega arith)
