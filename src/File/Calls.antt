-- ===== src/File/Calls.antt =====
-- A descriptor of the library open on a file, as the calls of system/lib/file_syscalls.c find and
-- leave it.
pub mod Pread
pub mod Pwrite
pub mod Read
pub mod Roundtrip
pub mod Write
use spacefish.Prelude.{
  ℕ, zero, suc, ◌+◌, ◌-◌, ◌≤◌, ◌<◌, ◌≡◌, refl, sym, ap, ◌∙◌, inl, inr, true, false, Option, none,
  some, List, [], ◌∷◌, arith, ◌==◌, leb, if◌then◌else◌, update, Distinct, length, take, drop,
  Bool-cases, bit_or,
}
use spacefish.Config.{max_num_fd, meta_buckets}
use spacefish.Run.{Run, Cmd, and_then, ◌>>◌, ok, died, stuck, fault}
use spacefish.Data.{DataMem}
use spacefish.Data.Alloc.{tot_buckets}
use spacefish.Data.Alloc.Search.{Busy}
use spacefish.Data.Alloc.Forms.{AllMapped}
use spacefish.Fd.{FdInfo}
use spacefish.Meta.{Timespec, MetaBucket, MetaMem, set_bucket}
use spacefish.File.Host.{
  Reply, Host, World, ebadf, data_back, on_host, fddes, mb_at, stamp, stamp_field,
}
use spacefish.File.Io.{
  modify, answer, read, read_file, read_done, by_fd, write, write_file, write_done, add_size,
  defer_stamp,
}
use spacefish.File.Transfer.{Cursor, read_loop, write_loop, data_fuel, write_fuel}
use spacefish.File.Content.{FileChain, content}
use spacefish.File.Splice.{splice}
use spacefish.File.Ready.{Ready}
use spacefish.File.Writing.{Wrote, Writes}
use spacefish.File.Overwrite.{write_loop-overwrites}
use spacefish.File.Reading.{At, read_loop-advances}

module _ {H : Type 0} where
  abbrev pub bucket_of : World H → ℕ → MetaBucket
  bucket_of w ix = w.meta.mb_arr ix

  abbrev pub cursor_of : World H → ℕ → Cursor
  cursor_of w ix = record {
    dbindex = (bucket_of w ix).last_dbucket;
    off = (bucket_of w ix).last_db_offset;
  }

  -- `fd` is a descriptor of the library, open on the file of the metadata bucket `ix`, whose data
  -- is the chain `xs`, all of whose buckets but the last are full (which O_TRUNC, in the default build,
  -- does not keep); the file stands at the byte `pos`, and its size is that of its content.
  pub record Opened (w : World H) (fd ix : ℕ) (xs : List ℕ) (pos : ℕ) : Type 0 where
    pub in_table : fd < max_num_fd
    pub internal : (w.fds fd).exclusive ≡ false
    pub taken : (w.fds fd).empty ≡ false
    pub names : (w.fds fd).mindex ≡ ix
    pub in_array : ix < meta_buckets
    pub chain : FileChain w.data_mem.db (bucket_of w ix).first_dbucket xs
    pub distinct : Distinct xs
    pub stands : At w.data_mem.db xs (cursor_of w ix) pos
    pub size : (bucket_of w ix).s.st_size ≡ length (content w.data_mem.db xs)

  pub fddes-ok : (w : World H) (fd : ℕ) → fd < max_num_fd → fddes fd w ≡ ok (w.fds fd) w
  unfolding fddes
  fddes-ok w fd h = ground arith

  pub mb_at-ok : (w : World H) (ix : ℕ) → ix < meta_buckets → mb_at ix w ≡ ok (bucket_of w ix) w
  unfolding mb_at
  mb_at-ok w ix h = ground arith

  -- The descriptor is open on the same file.
  pub record SameFd (w w' : World H) (fd : ℕ) : Type 0 where
    pub internal : (w'.fds fd).exclusive ≡ (w.fds fd).exclusive
    pub taken : (w'.fds fd).empty ≡ (w.fds fd).empty
    pub names : (w'.fds fd).mindex ≡ (w.fds fd).mindex

  -- A stamp put off to `close` changes the descriptor's own times, and nothing else of the files.
  pub record Stamped (w w' : World H) (fd : ℕ) : Type 0 where
    pub meta : w'.meta ≡ w.meta
    pub data_mem : w'.data_mem ≡ w.data_mem
    pub same_fd : SameFd w w' fd
    pub mapping : (w'.fds fd).off_db_mapping ≡ (w.fds fd).off_db_mapping

  Stamped-any :
      (w : World H) (fd : ℕ) (d : FdInfo) (clock : ℕ → Timespec)
      → d.exclusive ≡ (w.fds fd).exclusive
      → d.empty ≡ (w.fds fd).empty
      → d.mindex ≡ (w.fds fd).mindex
      → d.off_db_mapping ≡ (w.fds fd).off_db_mapping
      → Stamped w (record w { fds = update w.fds fd d; clock = clock }) fd
  Stamped-any w fd d clock a b c m = record {
    meta = refl;
    data_mem = refl;
    same_fd = record { internal = ground arith; taken = ground arith; names = ground arith };
    mapping = ground arith;
  }

  pub defer_stamp-acs :
      (w : World H) (fd : ℕ)
      → fd < max_num_fd
      → (w' : World H) × (defer_stamp fd 1 w ≡ ok tt w') × Stamped w w' fd
  unfolding defer_stamp stamp stamp_field
  defer_stamp-acs w fd h =
      let d = record (w.fds fd) {
        priv_s = record (w.fds fd).priv_s { st_atim = w.clock 0 };
        stamp_type = bit_or (w.fds fd).stamp_type 1;
      } in
      (
        record w { fds = update w.fds fd d; clock = λ n. w.clock (n + 1) },
        rw (fddes-ok w fd h) refl,
        Stamped-any w fd d (λ n. w.clock (n + 1)) refl refl refl refl,
      )

  pub defer_stamp-chg :
      (w : World H) (fd : ℕ)
      → fd < max_num_fd
      → (w' : World H) × (defer_stamp fd 6 w ≡ ok tt w') × Stamped w w' fd
  unfolding defer_stamp stamp stamp_field
  defer_stamp-chg w fd h =
      let d = record (w.fds fd) {
        priv_s = record (w.fds fd).priv_s { st_mtim = w.clock 0; st_ctim = w.clock 1 };
        stamp_type = bit_or (w.fds fd).stamp_type 6;
      } in
      (
        record w { fds = update w.fds fd d; clock = λ n. w.clock (n + 1 + 1) },
        rw (fddes-ok w fd h) refl,
        Stamped-any w fd d (λ n. w.clock (n + 1 + 1)) refl refl refl refl,
      )

  -- What the metadata bucket of a file shows after a call.
  pub record Shows (w w' : World H) (ix : ℕ) (cur : Cursor) (n : ℕ) : Type 0 where
    pub first : (bucket_of w' ix).first_dbucket ≡ (bucket_of w ix).first_dbucket
    pub dbindex : (bucket_of w' ix).last_dbucket ≡ cur.dbindex
    pub off : (bucket_of w' ix).last_db_offset ≡ cur.off
    pub size : (bucket_of w' ix).s.st_size ≡ n

  pub reopened :
      {w w' u : World H} {fd ix : ℕ} {xs ys : List ℕ} {pos pos' : ℕ} (cur : Cursor)
      → Opened w fd ix xs pos
      → SameFd u w' fd
      → u.fds ≡ w.fds
      → Shows w w' ix cur (length (content w'.data_mem.db ys))
      → FileChain w'.data_mem.db (bucket_of w ix).first_dbucket ys
      → Distinct ys
      → At w'.data_mem.db ys cur pos'
      → Opened w' fd ix ys pos'
  reopened {w} {fd = fd} cur o st same sh chain distinct at = record {
    in_table = o.in_table;
    internal = st.internal ∙ ap (λ t. (t fd).exclusive) same ∙ o.internal;
    taken = st.taken ∙ ap (λ t. (t fd).empty) same ∙ o.taken;
    names = st.names ∙ ap (λ t. (t fd).mindex) same ∙ o.names;
    in_array = o.in_array;
    chain = rw sh.first chain;
    distinct = distinct;
    stands = rw (sh.dbindex, sh.off) at;
    size = sh.size;
  }

  pub by_fd-ours :
      {A : Type 0} {w : World H} {fd ix : ℕ} {xs : List ℕ} {pos : ℕ}
      (theirs : Cmd (World H) (Reply A)) (ours : ℕ → Cmd (World H) (Reply A))
      → Opened w fd ix xs pos
      → by_fd fd theirs ours w ≡ ours ix w
  unfolding by_fd
  by_fd-ours {w = w} {fd = fd} theirs ours o =
      rw (fddes-ok w fd o.in_table, o.internal, o.taken, o.names) refl
