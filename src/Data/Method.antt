-- ===== src/Data/Method.antt =====
-- The arrays of allocators of system/util/data_shm.c, from which `get_free_dbucket_ix` and
-- `get_free_dbucket_ptr` of system/include/data_shm.h pick the one of the build.
use spacefish.Prelude.{ℕ, ◌≡◌, refl, ◌==◌, if◌then◌else◌}
use spacefish.Run.{fault, Cmd}
use spacefish.Data.{DataMem}
use spacefish.Data.Alloc.{
  bucket_ix_alloc_all_random, bucket_ptr_alloc_all_random, bucket_ix_alloc_all_rough_ind,
  bucket_ptr_alloc_all_rough_ind, bucket_ix_alloc_all_per_core_random,
  bucket_ptr_alloc_all_per_core_random, bucket_ix_alloc_all_per_core_rough_ind,
  bucket_ptr_alloc_all_per_core_rough_ind,
}
use spacefish.Data.Steps.{bucket_ix_alloc_steps, bucket_ptr_alloc_steps}

-- An index past the array reads outside it.
pub ix_alloc_arr : ℕ → Cmd DataMem ℕ
ix_alloc_arr i =
    if i == 0
    then bucket_ix_alloc_steps
    else if i == 1
    then bucket_ix_alloc_all_random
    else if i == 2
    then bucket_ix_alloc_all_rough_ind
    else if i == 3
    then bucket_ix_alloc_all_per_core_random
    else if i == 4
    then bucket_ix_alloc_all_per_core_rough_ind
    else λ _. fault

pub ptr_alloc_arr : ℕ → Cmd DataMem ℕ
ptr_alloc_arr i =
    if i == 0
    then bucket_ptr_alloc_steps
    else if i == 1
    then bucket_ptr_alloc_all_random
    else if i == 2
    then bucket_ptr_alloc_all_rough_ind
    else if i == 3
    then bucket_ptr_alloc_all_per_core_random
    else if i == 4
    then bucket_ptr_alloc_all_per_core_rough_ind
    else λ _. fault

pub get_free_dbucket_ix : Cmd DataMem ℕ
unfolding ix_alloc_arr
get_free_dbucket_ix s = ix_alloc_arr s.alloc_method s

pub get_free_dbucket_ptr : Cmd DataMem ℕ
unfolding ptr_alloc_arr
get_free_dbucket_ptr s = ptr_alloc_arr s.alloc_method s

pub get_free_dbucket_ix-random :
    (s : DataMem) → s.alloc_method ≡ 1 → get_free_dbucket_ix s ≡ bucket_ix_alloc_all_random s
unfolding get_free_dbucket_ix ix_alloc_arr
get_free_dbucket_ix-random s e = rw e refl
