-- ===== src/Tests/Disk.antt =====
-- The theorems on files that are made, taken in and written back (system/util/util.c,
-- system/lib/file_syscalls.c) at small files.
use spacefish.Prelude.{
  ℕ, ◌+◌, ◌-◌, ◌%◌, ◌≡◌, ◌<◌, refl, inl, true, false, some, List, [], ◌∷◌, arith, ◌==◌,
  if◌then◌else◌, take, drop, length, length-append,
}
use spacefish.Config.{dbucket_buf_size, meta_buckets}
use spacefish.Run.{ok}
use spacefish.Data.{DataMem}
use spacefish.File.Host.{Reply, Host, World}
use spacefish.File.Transfer.{slice}
use spacefish.File.Slices.{length-slice}
use spacefish.File.Content.{last, more, content}
use spacefish.File.Calls.{bucket_of}
use spacefish.File.Creation.{Makes, create_new_file-Makes}
use spacefish.File.Upload.{create_new_file, upload_file}
use spacefish.File.Disk.{write_to_disk, flush_write}
use spacefish.File.Saving.{Plain}
use spacefish.File.Flush.{
  Stored, on_disk, write_to_disk-misplaces, dirty_from, all_on_disk, flush_write-saves,
}
use spacefish.File.Taking.{OnHost, SavesBack, upload-write_to_disk}
use spacefish.Daemon.{init_meta}
use spacefish.Daemon.Mounted.{empty_map, init_meta-Implements}
use spacefish.Tests.Files.{os, world, stat, mem, free, file, mem-AllMapped, mem-Ready}
use spacefish.Tests.Meta.{path_c, hash_c}

-- The table is empty.
abbrev pub fresh : World (Unit {0})
fresh = record world { meta = init_meta world.meta }

create_new_file-Makes_example : Makes fresh empty_map path_c 420 (create_new_file path_c 420 fresh)
create_new_file-Makes_example =
    create_new_file-Makes fresh (init_meta-Implements world.meta) mem-Ready path_c 420 hash_c
      (omega arith) refl

-- A host on which every path is a file with three bytes.
abbrev bytes : List ℕ
bytes = 8 ∷ 9 ∷ 8 ∷ []

abbrev got : {A : Type 0} → A → Unit {0} → Reply A × Unit {0}
got a h = (record { ret = some a; err = 0 }, h)

abbrev disk : Host (Unit {0})
disk = record os {
  real_stat = λ _. got stat;
  real_open = λ _ _ _. got 7;
  real_read = λ _ n. got (take n bytes);
}

on_host : OnHost disk tt path_c stat bytes
on_host = record {
  h1 = tt;
  h2 = tt;
  h3 = tt;
  fd = 7;
  stats = refl;
  opens = refl;
  reads = refl;
  whole = refl;
}

-- What `malloc` gives.
abbrev block : ℕ → ℕ
block i = 255

upload-write_to_disk_example :
    SavesBack disk fresh path_c stat bytes block (upload_file disk path_c fresh)
upload-write_to_disk_example =
    upload-write_to_disk disk fresh (init_meta-Implements world.meta) mem-Ready hash_c (omega arith)
      refl on_host block (inl (omega arith))

-- Only the bucket 2 is in use, and has been modified.
abbrev dirty : World (Unit {0})
dirty = record world {
  meta = record world.meta {
    mb_arr = λ i. record (world.meta.mb_arr i) { in_use = i == 2; consisent = false };
  };
}

short_file : length (content mem.db (5 ∷ [])) ≡ 3
unfolding content slice
short_file = refl

dirty-Stored :
    (ix : ℕ)
    → ix < meta_buckets
    → (bucket_of dirty ix).in_use ≡ true
    → (bucket_of dirty ix).consisent ≡ false
    → Stored disk dirty ix (5 ∷ []) × Plain (content mem.db (5 ∷ []))
dirty-Stored ix less used changed = (
  record { in_array = less; chain = file; size = omega (arith, short_file) },
  inl (omega (arith, short_file)),
)

flush_write-saves_example :
    flush_write disk block dirty
    ≡ ok tt (record dirty {
      host =
          all_on_disk disk dirty
            (λ ix. 5 ∷ [])
            (dirty_from disk meta_buckets 0 dirty.meta.mb_arr)
            tt;
    })
flush_write-saves_example =
    flush_write-saves disk block dirty (λ ix. 5 ∷ []) mem-AllMapped dirty-Stored

-- The file of the bucket 2 fills the data bucket 5, and has three bytes in the data bucket 6.
abbrev long_mem : DataMem
long_mem = record mem {
  db = λ a.
      if a == 5
      then record free { in_use = true; bytes = dbucket_buf_size; next_ix = 6 }
      else if a == 6
      then record free { in_use = true; bytes = 3; buf = λ _. 9 }
      else free;
}

abbrev long : World (Unit {0})
long = record dirty {
  data_mem = long_mem;
  meta = record dirty.meta {
    mb_arr =
        λ i. record (dirty.meta.mb_arr i) { s = record stat { st_size = dbucket_buf_size + 3 } };
  };
}

long-Stored : Stored disk long 2 (5 ∷ 6 ∷ [])
unfolding content
long-Stored = record {
  in_array = omega arith;
  chain = more (omega arith) refl refl refl (last (omega arith) refl refl (omega arith));
  size = rw (length-append, length-slice) (unfold slice in refl);
}

abbrev long_bytes : List ℕ
long_bytes = content long_mem.db (5 ∷ 6 ∷ [])

write_to_disk-misplaces_example :
    (written : List ℕ) × (write_to_disk disk block 2 long
      ≡ ok tt (record long { host = on_disk disk long 2 written tt }))
    × (length written ≡ length long_bytes)
    × (take (length long_bytes % dbucket_buf_size) written
        ≡ drop (length long_bytes - length long_bytes % dbucket_buf_size) long_bytes)
write_to_disk-misplaces_example =
    write_to_disk-misplaces disk block (record { steps = refl; each = λ k h. refl }) long-Stored
