-- ===== src/Process.antt =====
-- The table of processes of system/util/process.c and system/include/process.h, in the shared memory,
-- and what each process keeps of it.
pub mod Exit
pub mod Searches
pub mod Slots
use spacefish.Prelude.{
  ℕ, ◌+◌, ◌*◌, Bool, true, false, ◌&&◌, not, Option, none, some, List, ◌∷◌, ◌==◌, if◌then◌else◌,
  update,
}
use spacefish.Config.{max_exec_hanging}
use spacefish.Run.{ok, died, Cmd, ◌>>=◌, ◌>>◌, get}
use spacefish.Scan.{scan}

-- `pid_info`; the source's flags 0 and 1 are `Bool`, and `locked` is the state of `lock`.
pub record PidInfo : Type 0 where
  pub pid : ℕ
  pub fds_backed_up : Bool
  pub first_parent_signaled : Bool
  pub vforked : Bool
  pub locked : Bool

-- The handlers that a process installs.
pub data Handler : Type 0 where
  wake1 : Handler
  wake2 : Handler

-- The table, the variables of the process, and what the operating system says of it: its id, that of
-- its parent, the signals that it has sent (the last first), and its handlers.
pub record ProcMem : Type 0 where
  pub pid_meta : ℕ → PidInfo
  pub pid_meta_ind : ℕ
  pub pid_meta_ind_set : Bool
  pub this_vforked : Bool
  pub this_signaled_by_parent : Bool
  pub getpid : ℕ
  pub getppid : ℕ
  pub sent : List (ℕ × ℕ)
  pub handlers : ℕ → Option Handler

-- <signal.h>
abbrev pub sigusr1 : ℕ
sigusr1 = 10

abbrev pub sigusr2 : ℕ
sigusr2 = 12

abbrev pub set_slot : ℕ → PidInfo → Cmd ProcMem (Unit {0})
set_slot i p s = ok tt (record s { pid_meta = update s.pid_meta i p })

-- trylock_pid_info; `none` is -1.
unfoldable pub trylock_pid_info : PidInfo → Option PidInfo
trylock_pid_info p = if p.locked then none else some (record p { locked = true })

unfoldable pub unlock_pid_info : PidInfo → PidInfo
unlock_pid_info p = record p { locked = false }

-- One round of `get_new_pid_meta_ind`: a free slot is locked and unlocked, and stays free.
unfoldable pub claim_slot : PidInfo → Option PidInfo
unfolding trylock_pid_info unlock_pid_info
claim_slot p =
    if p.pid == 0
    then (elim (trylock_pid_info p) [ none ↦ none | some q ↦ some (unlock_pid_info q) ])
    else none

unfoldable pub get_new_pid_meta_ind : Cmd ProcMem ℕ
unfolding claim_slot
get_new_pid_meta_ind s = elim (scan claim_slot (λ i. i) max_exec_hanging 0 s.pid_meta) [
  | none ↦ died s
  | some (i, table) ↦
      ok i (record s { pid_meta = table; pid_meta_ind = i; pid_meta_ind_set = true })
]

-- The loop of `get_pid_meta_ind`: the slot of the process, which is only read.
abbrev pub slot_with : ℕ → PidInfo → Option PidInfo
slot_with pid p = if p.pid == pid then some p else none

-- With no slot yet, the process takes one.
unfoldable pub take_slot : Cmd ProcMem ℕ
unfolding get_new_pid_meta_ind
take_slot = do
  k ← get_new_pid_meta_ind
  s ← get
  set_slot k (record (s.pid_meta k) { pid = s.getpid })
  ok k

unfoldable pub get_pid_meta_ind : Cmd ProcMem ℕ
unfolding take_slot
get_pid_meta_ind s =
    if s.pid_meta_ind_set && ((s.pid_meta s.pid_meta_ind).pid == s.getpid)
    then ok s.pid_meta_ind s
    else elim (scan (slot_with s.getpid) (λ i. i) max_exec_hanging 0 s.pid_meta) [
      | none ↦ take_slot s
      | some (j, table) ↦ ok j (record s { pid_meta_ind = j; pid_meta_ind_set = true })
    ]

-- kill
abbrev pub kill : (pid sig : ℕ) → Cmd ProcMem (Unit {0})
kill pid sig s = ok tt (record s { sent = (pid, sig) ∷ s.sent })

unfoldable pub maybe_signal_parent : Cmd ProcMem (Unit {0})
unfolding get_pid_meta_ind
maybe_signal_parent = do
  i ← get_pid_meta_ind
  s ← get
  let p = s.pid_meta i
  (λ s. ok tt (record s { pid_meta_ind = i; this_vforked = p.vforked }))
  if p.vforked && not p.first_parent_signaled
      then (kill s.getppid sigusr1 >> set_slot i (record p { first_parent_signaled = true }))
      else ok tt

-- pid, fds_backed_up, first_parent_signaled and vforked to 0
abbrev pub cleared : PidInfo → PidInfo
cleared p = record p {
  pid = 0;
  fds_backed_up = false;
  first_parent_signaled = false;
  vforked = false;
}

unfoldable pub remove_pid_slot : Cmd ProcMem (Unit {0})
unfolding get_pid_meta_ind
remove_pid_slot = do
  i ← get_pid_meta_ind
  s ← get
  set_slot s.pid_meta_ind (cleared (s.pid_meta s.pid_meta_ind))

-- Without VFORK_SIGNALING, which the default build leaves out.
unfoldable pub exit_intercept : Cmd ProcMem (Unit {0})
unfolding remove_pid_slot
exit_intercept = remove_pid_slot

-- sigaction(SIGUSR1, wake1), sigaction(SIGUSR2, wake2)
unfoldable pub init_vfork_signaling : Cmd ProcMem (Unit {0})
init_vfork_signaling s = ok tt (record s {
  this_vforked = false;
  this_signaled_by_parent = false;
  handlers = update (update s.handlers sigusr1 (some wake1)) sigusr2 (some wake2);
})

-- `wake1` does nothing, `wake2` notes the signal.
unfoldable pub handle : Handler → Cmd ProcMem (Unit {0})
handle wake1 s = ok tt s
handle wake2 s = ok tt (record s { this_signaled_by_parent = true })

-- The loop of `init_pid_meta` of system/daemon.c, slot by slot.
unfoldable pub init_pid_info : PidInfo → PidInfo
init_pid_info p = record (cleared p) { locked = false }
