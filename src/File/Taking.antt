-- ===== src/File/Taking.antt =====
-- `upload_file` of system/util/util.c: a file of the disk in the memory.
use spacefish.Prelude.{
  ℕ, ◌<◌, ◌≡◌, ◌⊎◌, refl, sym, ap, ◌∙◌, inl, inr, true, false, Option, none, some, List, arith,
  ◌==◌, leb, length, Distinct,
}
use spacefish.Config.{path_max, meta_buckets}
use spacefish.Run.{Run, and_then, ok, died, stuck, fault}
use spacefish.Text.{CString}
use spacefish.Hash.{hash}
use spacefish.Data.Alloc.{tot_buckets}
use spacefish.Data.Alloc.Search.{Busy}
use spacefish.Meta.{Stat, MetaMem, set_bucket}
use spacefish.Meta.Ops.{strict_create_mbucket}
use spacefish.Meta.Allocate.{Full}
use spacefish.Meta.Map.{Implements, insert, named, Implements-edit}
use spacefish.Meta.Refines.{Inserts, strict_create-Inserts}
use spacefish.File.Host.{Reply, Host, World, eexist}
use spacefish.File.Io.{answer}
use spacefish.File.Content.{content}
use spacefish.File.Ready.{Ready}
use spacefish.File.Calls.{bucket_of}
use spacefish.File.Upload.{set_path, upload_data, upload_into, upload_file}
use spacefish.File.Uploaded.{Uploads, upload_data-Uploads}
use spacefish.File.Disk.{write_to_disk}
use spacefish.File.Saving.{Plain}
use spacefish.File.Flush.{saved, Stored, write_to_disk-saves}

module _ {H : Type 0} (os : Host H) where
  abbrev got : {A : Type 0} → A → Reply A
  got a = record { ret = some a; err = 0 }

  -- The host has the file `name`: its calls on it, one after the other, give its stat, a descriptor,
  -- and as many bytes as the stat says.
  pub record OnHost (h : H) (name : CString) (s : Stat) (bytes : List ℕ) : Type 0 where
    pub h1 : H
    pub h2 : H
    pub h3 : H
    pub fd : ℕ
    pub stats : os.real_stat name h ≡ (got s, h1)
    pub opens : os.real_open name 0 0 h1 ≡ (got fd, h2)
    pub reads : os.real_read fd s.st_size h2 ≡ (got bytes, h3)
    pub whole : length bytes ≡ s.st_size

  -- The metadata bucket `ix` is that of the file.
  pub record TakenIn (w : World H) (ix : ℕ) (name : CString) (s : Stat) (bytes : List ℕ)
      : Type 0 where
    pub path : (bucket_of w ix).path ≡ name
    pub stat : (bucket_of w ix).s ≡ s
    pub xs : List ℕ
    pub stored : Stored os w ix xs
    pub distinct : Distinct xs
    pub holds : content w.data_mem.db xs ≡ bytes
    pub ready : Ready w.data_mem

  abbrev pub Takes :
      World H
      → (CString → Option ℕ)
      → (name : CString) → Stat
      → List ℕ
      → Run (World H) (Reply ℕ)
      → Type 0
  Takes w map name s bytes (ok r w') =
      ((ix : ℕ) × (r ≡ got ix)
        × ((rows' : ℕ → List ℕ) × Implements w'.meta rows' (insert name ix map))
        × TakenIn w' ix name s bytes)
      ⊎ ((r ≡ record { ret = none; err = eexist })
          × Full w.meta
          × ((rows' : ℕ → List ℕ) × Implements w'.meta rows' map))
  Takes w map name s bytes (died w') = (j : ℕ) → j < tot_buckets → Busy (w'.data_mem.db j)
  Takes w map name s bytes stuck = ⊥
  Takes w map name s bytes fault = ⊥

  module _ (w : World H) (map : CString → Option ℕ) (name : CString) (s : Stat) (bytes : List ℕ)
      (short : length name < path_max) (o : OnHost w.host name s bytes)
      (ready : Ready w.data_mem) where
    -- The world in which the data is copied.
    abbrev before : MetaMem → (ix : ℕ) → World H
    before m ix =
        let n = named ix name m in
        record w {
          meta = set_bucket ix (record (n.mb_arr ix) { s = s }) n;
          host = (os.real_close o.fd o.h3).1;
        }

    taken_in :
        (m : MetaMem) (ix : ℕ) {rows : ℕ → List ℕ}
        → ix < meta_buckets
        → Implements (named ix name m) rows (insert name ix map)
        → (r : Run (World H) (Unit {0})) → Uploads (before m ix) ix bytes r
        → Takes w map name s bytes (and_then r (λ _. answer ix))
    taken_in m ix {rows} less v (ok x w') u =
        let at : (bucket_of w' ix).first_dbucket ≡ u.first =
          ap (λ w. (bucket_of w ix).first_dbucket) u.same ∙ ground arith in
        let stat : (bucket_of w' ix).s ≡ s = ap (λ w. (bucket_of w ix).s) u.same ∙ ground arith in
        let path : (bucket_of w' ix).path ≡ name =
          ap (λ w. (bucket_of w ix).path) u.same ∙ ground arith in
        let v1 =
          Implements-edit ix (record ((named ix name m).mb_arr ix) { s = s }) v
            (record { path = refl; next = refl; used = refl; locked = refl }) in
        let v2 =
          Implements-edit ix (record ((before m ix).meta.mb_arr ix) { first_dbucket = u.first }) v1
            (record { path = refl; next = refl; used = refl; locked = refl }) in
        inl (
          ix,
          refl,
          (rows, rw u.same v2),
          record {
            path = path;
            stat = stat;
            xs = u.xs;
            stored = record {
              in_array = less;
              chain = rw at u.chain;
              size = ap (λ s. s.st_size) stat ∙ sym o.whole ∙ sym (ap length u.holds);
            };
            distinct = u.distinct;
            holds = u.holds;
            ready = u.ready;
          },
        )
    taken_in m ix less v (died w') busy = busy
    taken_in m ix less v stuck x = absurd x
    taken_in m ix less v fault x = absurd x

    upload_into-runs :
        (m : MetaMem) (ix : ℕ)
        → upload_into os o.fd name s ix (record w { meta = m; host = o.h2 })
          ≡ and_then (upload_data ix bytes (before m ix)) (λ _. answer ix)
    unfolding upload_into set_path
    upload_into-runs m ix =
        let same : (length bytes == s.st_size) ≡ true = ground (arith, o.whole) in
        let fits : leb path_max (length name) ≡ false = ground arith in
        rw (o.reads, same, fits) refl

    taken_after :
        (rows : ℕ → List ℕ) (r : Run MetaMem (Option ℕ))
        → strict_create_mbucket name w.meta ≡ r
        → Inserts w.meta rows map name r
        → Takes w map name s bytes (upload_file os name w)
    unfolding upload_file
    taken_after rows (ok (some ix) m) e (f, (rows', v)) =
        rw (o.stats, o.opens, e, upload_into-runs m ix)
          (taken_in m ix f.in_range v (upload_data ix bytes (before m ix))
            (upload_data-Uploads (before m ix) ix bytes ready))
    taken_after rows (ok none m) e (full, v) =
        rw (o.stats, o.opens, e) (inr (refl, full, (rows, v)))
    taken_after rows (died m) e x = absurd x
    taken_after rows stuck e x = absurd x
    taken_after rows fault e x = absurd x

  -- A file taken in is written back as it was.
  abbrev pub SavesBack :
      World H
      → (name : CString) → Stat
      → (bytes : List ℕ) → (block : ℕ → ℕ) → Run (World H) (Reply ℕ)
      → Type 0
  SavesBack w name s bytes block (ok r w') =
      ((ix : ℕ) × (r ≡ got ix)
        × (write_to_disk os block ix w'
            ≡ ok tt (record w' { host = saved os name s.st_mode bytes w'.host })))
      ⊎ ((r ≡ record { ret = none; err = eexist }) × Full w.meta)
  SavesBack w name s bytes block (died w') = (j : ℕ) → j < tot_buckets → Busy (w'.data_mem.db j)
  SavesBack w name s bytes block stuck = ⊥
  SavesBack w name s bytes block fault = ⊥

  module _ (w : World H) {rows : ℕ → List ℕ} {map : CString → Option ℕ} {name : CString} {row : ℕ}
      {s : Stat} {bytes : List ℕ} (v : Implements w.meta rows map) (ready : Ready w.data_mem)
      (h : hash name ≡ some row) (short : length name < path_max) (absent : map name ≡ none)
      (o : OnHost w.host name s bytes) where
    pub upload_file-Takes : Takes w map name s bytes (upload_file os name w)
    upload_file-Takes =
        taken_after w map name s bytes short o ready rows (strict_create_mbucket name w.meta) refl
          (strict_create-Inserts v name h short absent)

    Takes-SavesBack :
        (block : ℕ → ℕ)
        → Plain bytes
        → (r : Run (World H) (Reply ℕ)) → Takes w map name s bytes r
        → SavesBack w name s bytes block r
    Takes-SavesBack block plain (ok r w') (inl (ix, e, v', t)) =
        let runs = write_to_disk-saves os block t.ready.mapped t.stored (rw t.holds plain) in
        inl (ix, e, rw (runs, t.path, t.stat, t.holds) refl)
    Takes-SavesBack block plain (ok r w') (inr (e, full, v')) = inr (e, full)
    Takes-SavesBack block plain (died w') busy = busy
    Takes-SavesBack block plain stuck x = x
    Takes-SavesBack block plain fault x = x

    -- A file that is shorter than a data bucket, or made of full buckets only: once upload_file has
    -- taken it in, write_to_disk writes the same bytes, under the same path and with the same mode,
    -- whatever is in the block that `malloc` gives.
    pub upload-write_to_disk :
        (block : ℕ → ℕ) → Plain bytes → SavesBack w name s bytes block (upload_file os name w)
    upload-write_to_disk block plain =
        Takes-SavesBack block plain (upload_file os name w) upload_file-Takes
