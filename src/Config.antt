-- ===== src/Config.antt =====
-- The constants of system/include/config.h and of <linux/limits.h>, and the machine words.
use spacefish.Prelude.{ℕ, ◌+◌, ◌-◌, ◌%◌, ◌^◌}

-- PATH_MAX of <linux/limits.h>
abbrev pub path_max : ℕ
path_max = 4096

-- A macro of config.h is an `abbrev`; its symbol is the macro's name in lower case.
abbrev pub hash_table_size : ℕ
hash_table_size = 16384

abbrev pub meta_buckets : ℕ
meta_buckets = 65536

abbrev pub data_buckets_step : ℕ
data_buckets_step = 262144

abbrev pub total_steps_allowed : ℕ
total_steps_allowed = 2

abbrev pub max_data_buckets_steps : ℕ
max_data_buckets_steps = 2

abbrev pub dbucket_buf_size : ℕ
dbucket_buf_size = 4096

abbrev pub max_num_fd : ℕ
max_num_fd = 4096

abbrev pub first_user_fd : ℕ
first_user_fd = 1024

-- `unsigned int` and `size_t`
abbrev pub u32 : ℕ → ℕ
u32 n = n % 2 ^ 32

abbrev pub u64 : ℕ → ℕ
u64 n = n % 2 ^ 64

-- a - b on `size_t`
abbrev pub sub64 : ℕ → ℕ → ℕ
sub64 a b = (a + 2 ^ 64 - b) % 2 ^ 64

-- -1 as an `unsigned int`, the end of a chain of data buckets
abbrev pub no_ix : ℕ
no_ix = 0xffff_ffff

abbrev pub max_exec_hanging : ℕ
max_exec_hanging = 8192
