-- ===== src/File/Saving.antt =====
-- `write_to_disk` of system/util/util.c: which bytes of a file it writes.
use spacefish.Prelude.{
  ℕ, zero, suc, ◌+◌, ◌-◌, ◌*◌, ◌/◌, ◌%◌, ◌≤◌, ◌<◌, ◌≡◌, ◌⊎◌, refl, sym, ap, ◌∙◌, inl, inr, List, [],
  ◌∷◌, ◌++◌, arith, update, length, take, drop, length-append, length-drop, take_all, drop_all,
  append_nil, take-append_ge, drop-append_ge,
}
use spacefish.Config.{dbucket_buf_size, no_ix}
use spacefish.Run.{ok}
use spacefish.Data.{DataBucket, DataMem}
use spacefish.Data.Alloc.{tot_buckets}
use spacefish.Data.Alloc.Forms.{AllMapped}
use spacefish.File.Transfer.{slice, blit}
use spacefish.File.Blit.{slice-blit}
use spacefish.File.Slices.{length-slice}
use spacefish.File.Reading.{reach}
use spacefish.File.Content.{FileChain, last, more, bytes_of, content}
use spacefish.File.Disk.{save_rounds, save_rest, save_data}

pub blit-append :
    (buf : ℕ → ℕ) (at : ℕ) (a b : List ℕ)
    → blit (blit buf at a) (at + length a) b ≡ blit buf at (a ++ b)
unfolding blit
blit-append buf at [] b = let e : at + 0 ≡ at = omega arith in rw e refl
blit-append buf at (c ∷ cs) b =
    let e : at + suc (length cs) ≡ at + 1 + length cs = omega arith in
    rw (e, blit-append (update buf at c) (at + 1) cs b) refl

-- What a file's chain is after some of its full buckets.
pub record Rest (db : ℕ → DataBucket) (ix : ℕ) (bytes : List ℕ) : Type 0 where
  pub ys : List ℕ
  pub chain : (0 < length bytes) → FileChain db ix ys
  pub holds : content db ys ≡ bytes

-- Where the full buckets end.
abbrev full : ℕ → ℕ
full rounds = rounds * dbucket_buf_size

-- A bucket and what follows it, at a whole number of buckets.
module _ (a b : List ℕ) (r : ℕ) (h : length a ≡ dbucket_buf_size) where
  take-full : take (full (suc r)) (a ++ b) ≡ a ++ take (full r) b
  take-full =
      let e : full (suc r) - length a ≡ full r = omega arith in
      take-append_ge b (full (suc r)) a (omega arith) ∙ rw e refl

  drop-full : drop (full (suc r)) (a ++ b) ≡ drop (full r) b
  drop-full =
      let e : full (suc r) - length a ≡ full r = omega arith in
      drop-append_ge b (full (suc r)) a (omega arith) ∙ rw e refl

module _ {s : DataMem} (m : AllMapped s) where
  -- Rounds over the full buckets of a chain.
  abbrev Saves : (rounds ix at : ℕ) → (ℕ → ℕ) → (bytes : List ℕ) → Type 0
  Saves rounds ix at buf bytes =
      (nx : ℕ) × (save_rounds rounds ix at buf s
        ≡ ok (blit buf at (take (full rounds) bytes), nx) s)
      × Rest s.db nx (drop (full rounds) bytes)

  -- One bucket, and then the others.
  save_bucket :
      (rounds : ℕ) {ix next : ℕ} (at : ℕ) (buf : ℕ → ℕ) (b : List ℕ)
      → ix < tot_buckets
      → (s.db ix).bytes ≡ dbucket_buf_size
      → (s.db ix).next_ix ≡ next
      → Saves rounds next (at + dbucket_buf_size) (blit buf at (bytes_of (s.db ix))) b
      → Saves (suc rounds) ix at buf (bytes_of (s.db ix) ++ b)
  unfolding save_rounds
  save_bucket rounds {ix} {next} at buf b less e n (nx, runs, rest) =
      let a = bytes_of (s.db ix) in
      let size : length a ≡ dbucket_buf_size = length-slice (s.db ix).buf 0 (s.db ix).bytes ∙ e in
      let joined : blit (blit buf at a) (at + dbucket_buf_size) (take (full rounds) b)
          ≡ blit buf at (a ++ take (full rounds) b) =
        ap (λ k. blit (blit buf at a) (at + k) (take (full rounds) b)) (sym size)
        ∙ blit-append buf at a (take (full rounds) b) in
      (
        nx,
        rw (reach m ix less, n, take-full a b rounds size, ← joined, ← e) (rw (← e) at runs),
        rw (drop-full a b rounds size) rest,
      )

  nothing_saved : (ix at : ℕ) (buf : ℕ → ℕ) → Saves zero ix at buf []
  unfolding save_rounds blit content
  nothing_saved ix at buf =
      (ix, refl, record { ys = []; chain = λ h. absurd (omega arith); holds = refl })

  save_rounds-Saves :
      (rounds : ℕ) {ix : ℕ} (at : ℕ) (buf : ℕ → ℕ) {xs : List ℕ}
      → FileChain s.db ix xs
      → full rounds ≤ length (content s.db xs)
      → Saves rounds ix at buf (content s.db xs)
  unfolding content
  save_rounds-Saves zero {ix} at buf {xs} c h = (
    ix,
    unfold save_rounds in unfold blit in refl,
    record { ys = xs; chain = λ _. c; holds = refl },
  )
  save_rounds-Saves (suc r) {ix} at buf (last less u n b) h =
      let a = bytes_of (s.db ix) in
      let size = length-slice (s.db ix).buf 0 (s.db ix).bytes in
      let none_after : r ≡ 0 = omega (arith, length-append a []) in
      let whole : (s.db ix).bytes ≡ dbucket_buf_size = omega (arith, length-append a []) in
      rw none_after (
        save_bucket 0 at buf [] less whole n
          (nothing_saved no_ix (at + dbucket_buf_size) (blit buf at a)))
  save_rounds-Saves (suc r) {ix} at buf (more {next} {xs} less u n b c) h =
      let a = bytes_of (s.db ix) in
      let size = length-slice (s.db ix).buf 0 (s.db ix).bytes in
      save_bucket r at buf (content s.db xs) less b n (
        save_rounds-Saves r (at + dbucket_buf_size) (blit buf at a) c
          (omega (arith, length-append a (content s.db xs))))

-- What is in the block when `write_to_disk` has copied the file into it.
abbrev pub image : (block : ℕ → ℕ) → List ℕ → ℕ → ℕ
image block bytes =
    let done = full (length bytes / dbucket_buf_size) in
    blit (blit block 0 (take done bytes)) 0 (drop done bytes)

module _ {s : DataMem} (m : AllMapped s) where
  -- What is left is less than a bucket, so it is in one.
  rest_bucket :
      {ix : ℕ} {ys : List ℕ} (bytes : List ℕ)
      → FileChain s.db ix ys
      → content s.db ys ≡ bytes
      → length bytes < dbucket_buf_size
      → (ix < tot_buckets) × (slice (s.db ix).buf 0 (length bytes) ≡ bytes)
  unfolding content
  rest_bucket {ix} bytes (last less u n b) e h =
      let a = bytes_of (s.db ix) in
      let whole : a ≡ bytes = sym (append_nil a) ∙ e in
      let size : (s.db ix).bytes ≡ length bytes =
        sym (length-slice (s.db ix).buf 0 (s.db ix).bytes) ∙ ap length whole in
      (less, rw (← size) whole)
  rest_bucket {ix} bytes (more {xs} less u n b c) e h = absurd (
      omega (
        arith,
        length-append (bytes_of (s.db ix)) (content s.db xs),
        length-slice (s.db ix).buf 0 (s.db ix).bytes,
        ap length e,
      ))

  save_rest-ok :
      (off ix : ℕ) (buf : ℕ → ℕ) {bytes : List ℕ}
      → Rest s.db ix bytes
      → length bytes ≡ off
      → off < dbucket_buf_size
      → save_rest off ix buf s ≡ ok (blit buf 0 bytes) s
  unfolding save_rest blit
  save_rest-ok zero ix buf {bytes = []} r e h = refl
  save_rest-ok zero ix buf {bytes = b ∷ bs} r e h = absurd (omega arith)
  save_rest-ok (suc n) ix buf {bytes} r e h =
      let (less, held) = rest_bucket bytes (r.chain (omega arith)) r.holds (omega arith) in
      rw (reach m ix less, ← e, held) refl

  pub save_data-image :
      (block : ℕ → ℕ) {first : ℕ} {xs : List ℕ}
      → FileChain s.db first xs
      → save_data (length (content s.db xs)) first block s
        ≡ ok (slice (image block (content s.db xs)) 0 (length (content s.db xs))) s
  unfolding save_data
  save_data-image block {first} {xs} c =
      let bytes = content s.db xs in
      let rounds = length bytes / dbucket_buf_size in
      let (nx, runs, rest) = save_rounds-Saves m rounds 0 block c (omega arith) in
      let left : length (drop (full rounds) bytes) ≡ length bytes % dbucket_buf_size =
        length-drop (full rounds) bytes ∙ omega arith in
      rw
        (
          runs,
          save_rest-ok (length bytes % dbucket_buf_size) nx
              (blit block 0 (take (full rounds) bytes)) rest left (omega arith),
        )
        refl

-- A file shorter than a bucket, or of full buckets only.
abbrev pub Plain : List ℕ → Type 0
Plain bytes = (length bytes < dbucket_buf_size) ⊎ (length bytes % dbucket_buf_size ≡ 0)

pub image-Plain :
    (block : ℕ → ℕ) (bytes : List ℕ)
    → Plain bytes
    → slice (image block bytes) 0 (length bytes) ≡ bytes
image-Plain block bytes (inl short) =
    let none_full : length bytes / dbucket_buf_size ≡ 0 = omega arith in
    rw none_full (unfold blit in slice-blit block 0 bytes)
image-Plain block bytes (inr whole) =
    let done = full (length bytes / dbucket_buf_size) in
    let all : take done bytes ≡ bytes = take_all done bytes (omega arith) in
    let none_left : drop done bytes ≡ [] = drop_all done bytes (omega arith) in
    rw (all, none_left) (unfold blit in slice-blit block 0 bytes)
