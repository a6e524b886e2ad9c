-- ===== src/Lib.antt =====
-- SPACEFISH keeps the files of a tree of processes in shared memory: a preloaded library takes over
-- the file calls of libc (system/lib), a daemon creates the memory (system/daemon.c), and system/util
-- holds what both share. This library models the core of system/util and of the file calls, and
-- proves what they do.
--
-- The shared memory has two parts. The metadata memory is an array of metadata buckets, one for each
-- file, and a hash table whose rows are chains of buckets (system/util/meta_shm.c); each row has a
-- reader-writer lock (system/util/rwlock.c), and a path is found by its hash (`hash` of
-- system/util/util.c). The data memory is an array of data buckets of 4096 bytes, made in steps
-- (system/util/data_shm.c); a file is a chain of data buckets, whose ends its metadata bucket holds.
--
-- Which file models what:
--   * Config: the macros of system/include/config.h, and arithmetic on `unsigned int` and `size_t`;
--   * Run: what a call comes to: a result and a new state, the end of the process by UEHANDLE
--     (`died`), a loop that never ends (`stuck`), an access outside an object (`fault`);
--   * Scan: the loop that every allocator shares, the first element that can be claimed;
--   * Data, Data/Alloc: data buckets, the records of the cores (`core_st`), and the allocators
--     ALLOC_ALL_RANDOM (the default build), ALLOC_ALL_ROUGH_IND, ALLOC_ALL_PER_CORE_RANDOM and
--     ALLOC_ALL_PER_CORE_ROUGH_IND, in the form that returns an index and in the form that returns
--     a pointer; the fields of `sys_glob` and the process's own variables are in one record;
--   * Data/Steps: the steps, ALLOC_STEPS, `get_dbucket_ptr` and `release_dbucket`;
--   * Text, Hash: C strings as lists of bytes without the final 0, `strncmp`, and the hash;
--     Hash/Metro: `metro_hash`;
--   * Lock: system/util/rwlock.c, each call as one step; Lock/Processes: the same functions as several
--     processes run them, each access to a field a step of its own (`step`, `Moves`, `Reach`);
--   * Meta, Meta/Ops: the hash table and the operations of system/util/meta_shm.c; Meta/Table,
--     Meta/Map and Meta/Histories are about the whole table, as a map from paths to buckets;
--   * Process: the slots of processes of system/util/process.c;
--   * Exec: a process over its life, `ufs_init` and `ufs_fin` of system/lib/ufs.c, the calls of
--     system/lib/file_proc.c, and the backup of descriptors;
--   * Daemon: system/daemon.c;
--   * Fd: the descriptors of a process, system/util/fd.c;
--   * File/Host: the state of a process that makes file calls (`World`: descriptors, metadata, data,
--     clock, operating system), `stamp` of system/util/util.c, and the calls of libc as a parameter
--     (`Host`);
--   * File/Transfer, File/Positional, File/Io: the loops of `read`, `write`, `pread` and `pwrite`, and
--     these calls and `close`, of system/lib/file_syscalls.c;
--   * File/Disk: `upload_dir`, `write_to_disk` and `flush_write` of system/util/util.c, as built with
--     WRITE_TO_DISK; what `malloc` gives is a parameter, as nobody has set its bytes;
--   * Path, File/Upload, File/Names: `build_abs_path`, `upload_file`, `create_new_file`, `open` (here
--     `open_file`), `unlink`, `rename` and the stat calls of system/lib/file_meta.c;
--   * File/Content, File/Slices, File/Blit and File/Splice: a file as a chain of data buckets and the
--     list of bytes it holds; File/Reading, File/Ready, File/Writing, File/Round, File/WriteLoop,
--     File/Overwrite, File/Seeking and File/Pwriting are about the loops over that list, File/Calls
--     about the calls on an open descriptor (`Opened`: all data buckets of its file but the last are full,
--     which O_TRUNC in the default build does not keep), File/Append about O_APPEND; File/Opening and
--     File/Paths are about the calls that take a path, and File/Creation, File/Taking, File/Saving and
--     File/Flush about files that are made, taken in from the disk and written back.
--
-- How the source is written here: a function of C is a function from a state to a `Run`, and its
-- operations are composed as the code composes them. A pointer into an array is the index of the
-- element; -1 as an index of a metadata bucket, and NULL, are `none`. `rand` and `sched_getcpu` give
-- arbitrary numbers: the state holds the draws to come and the core. A function is run by one
-- process, between the steps of others: a lock that another process holds makes a trylock fail and
-- a wait last for ever. The allocators over all steps (ALLOC_ALL_*) reach the steps by `data_steps`,
-- which `open_map_global_memd` has filled before.
--
-- Bounds and fuel: the walk along a chain of metadata buckets has fuel for one more than the number
-- of buckets, which a chain without a repetition never uses up (Meta.Lookup.chain_short); running
-- out stands for a chain with a cycle, on which the code loops for ever. The traversal of ALLOC_STEPS
-- has fuel for one more than the number of steps, each round but the last creating a step. A read has
-- fuel for one more than the number of data buckets, and a write for the bytes to write besides:
-- enough for a chain that repeats no bucket. `flush_write` has one round for each metadata bucket, as
-- each round goes to a bucket behind the last. `upload_dir` has fuel for the depth of directories,
-- which is a parameter: a tree of the disk has one. `metro_hash` has fuel for the length of the text,
-- each round reading 32 bytes of it.
--
-- Numbers: byte counts and offsets are natural numbers below the bounds of `size_t` and `off_t`, and
-- offsets are not negative. An access outside an array or a buffer is `fault`.
--
-- Not modelled: VFORK_SIGNALING but for the functions of system/util/process.c, as the default build
-- leaves it out; the calls that map segments; the fork of the daemon mode; and, but for the lock, the
-- interleavings of several processes within one function.
mod Prelude
pub mod Config
pub mod Path
pub mod Run
pub mod Scan
pub mod Text
pub mod Hash
pub mod Lock
pub mod Process
pub mod Meta
pub mod Data
pub mod Fd
pub mod File
pub mod Exec
pub mod Daemon
mod Tests
