-- ===== src/File/Append.antt =====
-- `open` with O_APPEND, of system/lib/file_syscalls.c.
use spacefish.Prelude.{
  ℕ, zero, suc, ◌<◌, ◌≡◌, refl, true, some, List, arith, Distinct, length, length-le_of_Distinct,
}
use spacefish.Config.{no_ix, meta_buckets}
use spacefish.Run.{died}
use spacefish.Data.{DataMem}
use spacefish.Data.Alloc.{tot_buckets}
use spacefish.Data.Alloc.Forms.{AllMapped}
use spacefish.Data.Steps.Pointers.{get_dbucket_ptr-died}
use spacefish.File.Host.{World, has_bit}
use spacefish.File.Transfer.{data_fuel}
use spacefish.File.Content.{FileChain, last, more, FileChain-AllBelow}
use spacefish.File.Reading.{reach}
use spacefish.File.Names.{append_loop, start_at, open_found, o_append}
use spacefish.File.Calls.{mb_at-ok, bucket_of}

module _ {s : DataMem} (m : AllMapped s) where
  append_loop_end : (fuel : ℕ) → append_loop (suc fuel) no_ix s ≡ died s
  unfolding append_loop
  append_loop_end fuel = rw (get_dbucket_ptr-died no_ix s (omega (arith, m.steps))) refl

  append_loop_dies :
      (fuel : ℕ) {ix : ℕ} {xs : List ℕ}
      → FileChain s.db ix xs
      → length xs < fuel
      → append_loop fuel ix s ≡ died s
  unfolding append_loop
  append_loop_dies zero c h = absurd (omega arith)
  append_loop_dies (suc zero) (last _ _ _ _) h = absurd (omega arith)
  append_loop_dies (suc (suc fuel)) {ix} (last less used end small) h =
      rw (reach m ix less) (rw end (append_loop_end fuel))
  append_loop_dies (suc fuel) {ix} (more less used link full c) h =
      rw (reach m ix less) (rw link (append_loop_dies fuel c (omega arith)))

module _ {H : Type 0} where
  -- Every step mapped, an `open` with O_APPEND of a file with data ends the process, whether the
  -- file was in the memory or has just been taken in or created.
  pub open_found_dies :
      {w : World H} (ix flags err : ℕ) {xs : List ℕ}
      → AllMapped w.data_mem
      → ix < meta_buckets
      → FileChain w.data_mem.db (bucket_of w ix).first_dbucket xs
      → Distinct xs
      → has_bit flags o_append ≡ true
      → open_found flags (record { ret = some ix; err = err }) w ≡ died w
  unfolding open_found start_at
  open_found_dies {w} ix flags err {xs} m less c d append =
      let short = length-le_of_Distinct tot_buckets xs d (FileChain-AllBelow c) in
      rw (mb_at-ok w ix less, append, append_loop_dies m data_fuel c (omega (arith, short))) refl
