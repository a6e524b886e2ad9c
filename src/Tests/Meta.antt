-- ===== src/Tests/Meta.antt =====
-- The theorems on metadata buckets (system/util/meta_shm.c) and on `hash` (system/util/util.c) at
-- small states.
use spacefish.Prelude.{
  ℕ, ◌≡◌, ◌<◌, ◌%◌, refl, inr, true, false, Option, none, some, [], ◌∷◌, ◌++◌, arith, ◌==◌,
  if◌then◌else◌,
}
use spacefish.Config.{no_ix, hash_table_size}
use spacefish.Text.{CString, same_path}
use spacefish.Path.{slash, dot, built, build_abs_path}
use spacefish.Path.Resolved.{above_name, build_abs_path-Resolves}
use spacefish.Hash.{hash, horner, hash-horner}
use spacefish.Hash.Metro.{hash_metro}
use spacefish.Hash.Metro.Reads.{hash_metro-in_table}
use spacefish.Lock.{init_urwlock}
use spacefish.Run.{failed, ok, stuck}
use spacefish.Meta.{Timespec, Stat, MetaBucket, MetaMem, get_mbucket}
use spacefish.Meta.Ops.{mb_chpath}
use spacefish.Meta.Chain.{nil, cons, first_match}
use spacefish.Meta.Locks.{Quiet}
use spacefish.Meta.Lookup.{RowOk}
use spacefish.Meta.Rename.{chpath_one_row, chpath_missing_locks}

abbrev epoch : Timespec
epoch = record { tv_sec = 0; tv_nsec = 0 }

abbrev no_stat : Stat
no_stat = record {
  st_mode = 0;
  st_size = 0;
  st_blocks = 0;
  st_blksize = 0;
  st_atim = epoch;
  st_mtim = epoch;
  st_ctim = epoch;
}

abbrev pub mbucket : CString → Option ℕ → MetaBucket
mbucket path next = record {
  in_use = true;
  next_ix = next;
  path = path;
  s = no_stat;
  first_dbucket = no_ix;
  last_dbucket = no_ix;
  last_db_offset = 0;
  consisent = true;
  locked = false;
}

-- "/a", "/b" and "/c", whose rows are found by evaluation
abbrev pub path_a : CString
path_a = b'/' ∷ b'a' ∷ []

abbrev path_b : CString
path_b = b'/' ∷ b'b' ∷ []

abbrev pub path_c : CString
path_c = b'/' ∷ b'c' ∷ []

abbrev pub row_a : ℕ
row_a = 12469

abbrev pub row_c : ℕ
row_c = 12471

pub hash_a : hash path_a ≡ some row_a
unfolding hash
hash_a = refl

pub hash_c : hash path_c ≡ some row_c
unfolding hash
hash_c = refl

-- Two texts of one row.
abbrev text_d : CString
text_d = b'a' ∷ b'B' ∷ []

abbrev text_e : CString
text_e = b'b' ∷ b'!' ∷ []

hash_d : hash text_d ≡ some 14088
unfolding hash
hash_d = refl

hash_e : hash text_e ≡ some 14088
unfolding hash
hash_e = refl

-- The row of "/a" holds the buckets 3, of another path, and 9, of "/a"; all other rows are empty.
abbrev table : MetaMem
table = record {
  hash_table = λ r. record { first_ix = if r == row_a then some 3 else none; lock = init_urwlock };
  mb_arr = λ i. if i == 3 then mbucket path_b (some 9) else mbucket path_a none;
  draws = λ _. 0;
}

table_row : RowOk table row_a (3 ∷ 9 ∷ [])
table_row = record {
  chain = cons refl (cons refl nil);
  distinct = (refl, (refl, tt));
  in_array = (omega arith, (omega arith, tt));
}

empty_row : RowOk table row_c []
empty_row = record { chain = nil; distinct = tt; in_array = tt }

pub quiet : Quiet init_urwlock
quiet = record { readers = refl; writers = refl; free = refl }

hash-horner_example : hash path_a ≡ some (horner 5381 path_a % hash_table_size)
hash-horner_example = hash-horner path_a (omega arith)

empty_no_match : first_match path_c table.mb_arr [] ≡ none
unfolding first_match
empty_no_match = refl

differ : same_path text_d text_e ≡ false
unfolding same_path
differ = refl

chpath_one_row_example : mb_chpath text_d text_e table ≡ stuck
chpath_one_row_example = chpath_one_row text_d text_e table differ hash_d hash_e

differ' : same_path path_c path_a ≡ false
unfolding same_path
differ' = refl

chpath_missing_locks_example :
    (m' : MetaMem) × (mb_chpath path_c path_a table ≡ ok failed m')
    × (get_mbucket path_a m' ≡ stuck)
chpath_missing_locks_example =
    chpath_missing_locks path_c path_a differ' hash_c hash_a (omega arith) quiet quiet empty_row
      table_row empty_no_match path_a row_a hash_a (inr refl)

-- The directory "/a/b", and "../c" and "/a/c".
abbrev in_b : CString
in_b = path_a ++ slash ∷ 98 ∷ []

abbrev up_c : CString
up_c = dot ∷ dot ∷ slash ∷ 99 ∷ []

abbrev c_in_a : CString
c_in_a = path_a ++ slash ∷ 99 ∷ []

build_abs_path-Resolves_example : build_abs_path (some in_b) up_c ≡ built c_in_a
build_abs_path-Resolves_example =
    build_abs_path-Resolves (above_name path_a (98 ∷ []) {rest = 99 ∷ []} refl) (omega arith)
      (omega arith)

hash_metro-in_table_example : (row : ℕ) × (hash_metro path_a ≡ some row) × (row < hash_table_size)
hash_metro-in_table_example = hash_metro-in_table path_a
