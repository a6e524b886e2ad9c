-- ===== src/Daemon.antt =====
-- system/daemon.c: how the shared memory comes about, and how it is written back at the end.
pub mod Mounted
use spacefish.Prelude.{
  ℕ, zero, suc, ◌+◌, ◌-◌, ◌*◌, Bool, true, false, ◌&&◌, ◌||◌, not, Option, none, some, List, [],
  ◌∷◌, ◌==◌, leb, ltb, if◌then◌else◌,
}
use spacefish.Config.{
  hash_table_size, meta_buckets, data_buckets_step, total_steps_allowed, max_exec_hanging, no_ix,
}
use spacefish.Run.{ok, died, Cmd, ◌>>=◌, ◌>>◌, get, put}
use spacefish.Text.{CString}
use spacefish.Lock.{init_urwlock}
use spacefish.Meta.{MetaBucket, HashInfo, MetaMem}
use spacefish.Data.{CoreSt, DataMem}
use spacefish.Data.Steps.{init_dbucket, map_steps}
use spacefish.Process.{ProcMem, init_pid_info}
use spacefish.File.Host.{Host, World, on_data}
use spacefish.File.Disk.{flush_write, upload_dir}
use spacefish.Exec.{Image, on_world}

-- The lock is free.
unfoldable pub init_mbucket : MetaBucket → MetaBucket
init_mbucket mb = record mb {
  in_use = false;
  next_ix = none;
  locked = false;
  first_dbucket = no_ix;
  last_dbucket = no_ix;
  last_db_offset = 0;
  consisent = true;
}

-- The hash table and the metadata buckets, element by element, in memory that is there.
unfoldable pub init_meta : MetaMem → MetaMem
unfolding init_mbucket
init_meta m = record m {
  hash_table = λ j.
      if ltb j hash_table_size
      then record { first_ix = none; lock = init_urwlock }
      else m.hash_table j;
  mb_arr = λ j. if ltb j meta_buckets then init_mbucket (m.mb_arr j) else m.mb_arr j;
}

unfoldable pub init_core : CoreSt → CoreSt
init_core c = record c { in_use = false; core_n = none; rough_ind = 0; locked = false }

-- All steps, but for ALLOC_STEPS, which begins with one.
abbrev pub first_steps : (alloc_method_ind : ℕ) → ℕ
first_steps alloc_method_ind = if ltb 0 alloc_method_ind then total_steps_allowed else 1

-- `sys_glob`, the records of the cores, and the steps of data buckets.
unfoldable pub init_data : (alloc_method_ind num_cores : ℕ) → DataMem → DataMem
unfolding init_core init_dbucket
init_data alloc_method_ind num_cores d =
    let steps = first_steps alloc_method_ind in
    record d {
      dbucket_steps = steps;
      ncores = num_cores;
      alloc_method = alloc_method_ind;
      cores = λ n.
          if ltb 2 alloc_method_ind && ltb n num_cores then init_core (d.cores n) else d.cores n;
      dbucket_rough_index = 0;
      dbuckets_in_use = 0;
      glob_locked = false;
      mapped = λ k. if ltb k steps then true else d.mapped k;
      db = λ a. if ltb a (steps * data_buckets_step) then init_dbucket (d.db a) else d.db a;
    }

-- The loop of `init_pid_meta`.
unfoldable pub init_pid_meta : ProcMem → ProcMem
unfolding init_pid_info
init_pid_meta p = record p {
  pid_meta = λ j. if ltb j max_exec_hanging then init_pid_info (p.pid_meta j) else p.pid_meta j;
}

module _ {H : Type 0} (os : Host H) where
  -- The segments; where one of them cannot be created, as it is there already, EHANDLE ends the
  -- daemon.
  unfoldable pub init_segments :
      (can_create : Bool) → (alloc_method_ind num_cores : ℕ) → Cmd (Image H) (Unit {0})
  unfolding init_meta init_data init_pid_meta
  init_segments false alloc_method_ind num_cores s = died s
  init_segments true alloc_method_ind num_cores s = ok tt (record s {
    world = record s.world {
      meta = init_meta s.world.meta;
      data_mem = init_data alloc_method_ind num_cores s.world.data_mem;
    };
    procs = init_pid_meta s.procs;
  })

  -- NULL is the directory ".".
  abbrev pub root_dir : Option CString → CString
  root_dir none = b'.' ∷ []
  root_dir (some root) = root

  unfoldable pub init_mount :
      (can_create : Bool)
      → (alloc_method_ind num_cores depth : ℕ) → Option CString
      → Cmd (Image H) (Unit {0})
  unfolding init_segments
  init_mount can_create alloc_method_ind num_cores depth root = do
    init_segments can_create alloc_method_ind num_cores
    on_world (upload_dir os depth (root_dir root))

  -- The handler of the signals: files are written back, and the daemon ends.
  unfoldable pub cleanup : (block : ℕ → ℕ) → Cmd (Image H) (Unit {0})
  unfolding flush_write
  cleanup block = do
    s ← get
    on_world (on_data (map_steps (s.world.data_mem.dbucket_steps - 1) 1))
    on_world (flush_write os block)
    died

-- The signals that `handle_sigaction` gives the handler `cleanup`: all but SIGKILL, SIGTSTP and
-- SIGCONT, below NSIG.
unfoldable pub handles : ℕ → Bool
handles i = leb 1 i && (ltb i 65 && not ((i == 9) || ((i == 20) || (i == 18))))

-- What `getopt_long` gives.
pub data Opt : Type 0 where
  path : CString → Opt
  enabledaemon : Opt
  unknown : Opt

-- `cmd_opt`
pub record CmdOpt : Type 0 where
  pub dir_name : Option CString
  pub daemon_mode : Bool

-- The number of options; `none` is -EINVAL.
unfoldable pub parse_from : List Opt → CmdOpt → ℕ → Option (ℕ × CmdOpt)
parse_from [] opt arg_cnt = some (arg_cnt, opt)
parse_from (path d ∷ os) opt arg_cnt =
    parse_from os (record opt { dir_name = some d }) (arg_cnt + 1)
parse_from (enabledaemon ∷ os) opt arg_cnt =
    parse_from os (record opt { daemon_mode = true }) (arg_cnt + 1)
parse_from (unknown ∷ os) opt arg_cnt = none

unfoldable pub parse_options : List Opt → Option (ℕ × CmdOpt)
unfolding parse_from
parse_options os = parse_from os (record { dir_name = none; daemon_mode = false }) 0

-- The macros of the build.
pub record Build : Type 0 where
  pub alloc_steps : Bool
  pub alloc_all_random : Bool
  pub alloc_all_rough_index : Bool
  pub alloc_all_per_core_random : Bool
  pub alloc_all_per_core_rough_ind : Bool

-- One macro after the other: the number of those that are set, and the method of the last.
abbrev pub count_macro : Bool → ℕ → ℕ × ℕ → ℕ × ℕ
count_macro set method (count, last) = if set then (count + 1, method) else (count, last)

-- The method, where exactly one macro is set.
unfoldable pub alloc_method_of : Build → Option ℕ
alloc_method_of b =
    let (count, method) = count_macro b.alloc_all_per_core_rough_ind 4 (
      count_macro b.alloc_all_per_core_random 3 (
        count_macro b.alloc_all_rough_index 2
          (count_macro b.alloc_all_random 1 (count_macro b.alloc_steps 0 (0, 0))))) in
    if count == 1 then some method else none

-- The per-core methods take the number of cores as the one argument, `atoi(argv[1])`.
unfoldable pub num_cores_of : (alloc_method_ind argc argument : ℕ) → Option ℕ
num_cores_of alloc_method_ind argc argument =
    if (alloc_method_ind == 3) || (alloc_method_ind == 4)
    then (if argc == 2 then some argument else none)
    else some 0

module _ {H : Type 0} (os : Host H) where
  -- `main` before its loop: exactly one method, options that are known, and for the per-core methods
  -- a number of cores; else the daemon ends. `argument` is `atoi(argv[1])`.
  unfoldable pub main :
      (can_create : Bool)
      → (depth : ℕ) → Build
      → List Opt
      → (argc argument : ℕ) → Cmd (Image H) (Unit {0})
  unfolding alloc_method_of parse_options num_cores_of init_mount
  main can_create depth build opts argc argument = elim (alloc_method_of build) [
    | none ↦ died
    | some method ↦ elim (parse_options opts) [
      | none ↦ died
      | some (arg_cnt, opt) ↦ elim (num_cores_of method argc argument) [
        | none ↦ died
        | some num_cores ↦ init_mount os can_create method num_cores depth opt.dir_name
      ]
    ]
  ]
