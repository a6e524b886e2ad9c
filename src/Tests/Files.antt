-- ===== src/Tests/Files.antt =====
-- The theorems on file calls (system/lib/file_syscalls.c, system/util/fd.c) at a small file.
use spacefish.Prelude.{
  ℕ, ◌+◌, ◌≡◌, refl, true, false, none, some, List, [], ◌∷◌, arith, ◌==◌, if◌then◌else◌, take, drop,
  length,
}
use spacefish.Config.{no_ix, max_num_fd, first_user_fd}
use spacefish.Lock.{init_urwlock}
use spacefish.Run.{ok, died}
use spacefish.Data.{DataBucket, DataMem}
use spacefish.Data.Alloc.Forms.{AllMapped}
use spacefish.Meta.{Timespec, Stat}
use spacefish.Fd.{get_empty_fd}
use spacefish.Fd.Slots.{Lowest, get_empty_fd-Lowest}
use spacefish.File.Host.{Reply, Host, World, ebadf}
use spacefish.File.Io.{pread, pwrite, read, write}
use spacefish.File.Transfer.{slice}
use spacefish.File.Content.{FileChain, last, content}
use spacefish.File.Ready.{Ready}
use spacefish.File.Calls.{Opened}
use spacefish.File.Names.{open_found}
use spacefish.File.Append.{open_found_dies}
use spacefish.File.Calls.Pread.{pread-reads}
use spacefish.File.Calls.Pwrite.{Patches, pwrite-Patches}
use spacefish.File.Calls.Roundtrip.{ReadsBack, write-pread}
use spacefish.File.Calls.Read.{read-advances}
use spacefish.File.Calls.Write.{Overwrites, write-Overwrites}

-- A host that knows no descriptor and no file.
abbrev pub no : {A : Type 0} → Unit {0} → Reply A × Unit {0}
no h = (record { ret = none; err = ebadf }, h)

abbrev pub os : Host (Unit {0})
os = record {
  real_read = λ _ _. no;
  real_write = λ _ _. no;
  real_pread = λ _ _ _. no;
  real_pwrite = λ _ _ _. no;
  real_close = λ _. no;
  getcwd = λ _. none;
  real_open = λ _ _ _. no;
  real_fstat = λ _. no;
  real_stat = λ _. no;
  real_lstat = λ _. no;
  real_rename = λ _ _. no;
  shm_open = λ h. (3, h);
  real_exec = λ _ _ _ h. (some tt, h);
  real_fork = λ h. (0, h);
  read_dir = λ _ h. (none, h);
}

-- The file has the bucket 5, with the bytes 7, 7, 7; all other buckets are free.
abbrev pub free : DataBucket
free = record { in_use = false; next_ix = no_ix; buf = λ _. 7; bytes = 0; locked = false }

abbrev pub mem : DataMem
mem = record {
  dbucket_steps = 2;
  dbucket_rough_index = 0;
  dbuckets_in_use = 0;
  glob_locked = false;
  ncores = 1;
  alloc_method = 1;
  db = λ a. if a == 5 then record free { in_use = true; bytes = 3 } else free;
  cores = λ _. record { in_use = false; core_n = none; rough_ind = 0; locked = false };
  mapped = λ _. true;
  last_core_num = none;
  last_core_ix = 0;
  draws = λ _. 4;
  cpu = 0;
}

abbrev pub epoch : Timespec
epoch = record { tv_sec = 0; tv_nsec = 0 }

abbrev pub stat : Stat
stat = record {
  st_mode = 420;
  st_size = 3;
  st_blocks = 1;
  st_blksize = 4096;
  st_atim = epoch;
  st_mtim = epoch;
  st_ctim = epoch;
}

-- The descriptor 1024 is open on the metadata bucket 2, at the byte 1.
abbrev pub world : World (Unit {0})
world = record {
  fds = λ fd. record {
    mindex = if fd == 1024 then 2 else no_ix;
    flags = 0;
    priv_s = stat;
    stamp_type = 0;
    off_db_mapping = record { offset = none; dbindex = 0 };
    exclusive = false;
    empty = if fd == 1024 then false else true;
  };
  meta = record {
    hash_table = λ _. record { first_ix = none; lock = init_urwlock };
    mb_arr = λ _. record {
      in_use = true;
      next_ix = none;
      path = [];
      s = stat;
      first_dbucket = 5;
      last_dbucket = 5;
      last_db_offset = 1;
      consisent = true;
      locked = false;
    };
    draws = λ _. 0;
  };
  data_mem = mem;
  clock = λ n. record { tv_sec = n; tv_nsec = 0 };
  host = tt;
}

pub file : FileChain mem.db 5 (5 ∷ [])
file = last (omega arith) refl refl (omega arith)

world-Opened : Opened world 1024 2 (5 ∷ []) 1
unfolding content slice
world-Opened = record {
  in_table = omega arith;
  internal = refl;
  taken = refl;
  names = refl;
  in_array = omega arith;
  chain = file;
  distinct = (refl, tt);
  stands = record {
    before = [];
    after = 5 ∷ [];
    parts = refl;
    chain = file;
    within = omega arith;
    position = omega arith;
  };
  size = refl;
}

pub mem-AllMapped : AllMapped mem
mem-AllMapped = record { steps = refl; each = λ k h. refl }

pub mem-Ready : Ready mem
mem-Ready = record {
  method = refl;
  room = λ e. absurd (omega arith);
  mapped = mem-AllMapped;
  clean = λ j less unused. (ground arith, ground arith);
}

abbrev read_reply : Reply (List ℕ)
read_reply = record { ret = some (take 10 (drop 1 (content mem.db (5 ∷ [])))); err = 0 }

read-advances_example :
    (w' : World (Unit {0})) × (read os 1024 10 world ≡ ok read_reply w')
    × Opened w' 1024 2 (5 ∷ []) (1 + length (take 10 (drop 1 (content mem.db (5 ∷ [])))))
    × (w'.data_mem ≡ mem)
read-advances_example = read-advances os world-Opened mem-AllMapped 10

write-Overwrites_example :
    Overwrites world 1024 2 (5 ∷ []) 1 (8 ∷ 9 ∷ 8 ∷ []) (write os 1024 (8 ∷ 9 ∷ 8 ∷ []) world)
write-Overwrites_example = write-Overwrites os world-Opened mem-Ready 8 (9 ∷ 8 ∷ [])

get_empty_fd-Lowest_example :
    Lowest first_user_fd world.fds (get_empty_fd first_user_fd max_num_fd world.fds)
get_empty_fd-Lowest_example = get_empty_fd-Lowest first_user_fd world.fds (omega arith)

open_found_dies_example : open_found 1024 (record { ret = some 2; err = 0 }) world ≡ died world
open_found_dies_example = open_found_dies 2 1024 0 mem-AllMapped (omega arith) file (refl, tt) refl

abbrev pread_reply : Reply (List ℕ)
pread_reply = record { ret = some (take 5 (drop 2 (content mem.db (5 ∷ [])))); err = 0 }

length-content_mem : length (content mem.db (5 ∷ [])) ≡ 3
unfolding content slice
length-content_mem = refl

pread-reads_example :
    (w' : World (Unit {0})) × (pread os 1024 5 2 world ≡ ok pread_reply w')
    × Opened w' 1024 2 (5 ∷ []) 1
    × (w'.data_mem ≡ mem)
pread-reads_example =
    pread-reads os world-Opened mem-AllMapped 5 2 (omega (arith, length-content_mem)) refl

pwrite-Patches_example :
    Patches world 2 (5 ∷ []) 2 (8 ∷ 9 ∷ 8 ∷ []) (pwrite os 1024 (8 ∷ 9 ∷ 8 ∷ []) 2 world)
pwrite-Patches_example =
    pwrite-Patches os world-Opened mem-Ready 8 (9 ∷ 8 ∷ []) 2 (omega (arith, length-content_mem))
      refl

write-pread_example : ReadsBack os 1024 1 (8 ∷ 9 ∷ 8 ∷ []) (write os 1024 (8 ∷ 9 ∷ 8 ∷ []) world)
write-pread_example = write-pread os world-Opened mem-Ready refl 8 (9 ∷ 8 ∷ [])
