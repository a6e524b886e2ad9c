-- ===== src/Process/Slots.antt =====
-- The slots of processes, system/util/process.c: `get_pid_meta_ind`.
use spacefish.Prelude.{
  ℕ, ◌<◌, ◌≡◌, ◌≢◌, ◌⊎◌, refl, ap, ◌∙◌, inl, inr, true, false, ◌&&◌, none, some, arith, ◌==◌,
  update, update-same, Bool-cases, Option-cases,
}
use spacefish.Config.{max_exec_hanging}
use spacefish.Scan.{scan, scan-some, scan-none}
use spacefish.Run.{Run, ok, died, stuck, fault}
use spacefish.Process.{
  PidInfo, ProcMem, trylock_pid_info, unlock_pid_info, claim_slot, get_new_pid_meta_ind, slot_with,
  take_slot, get_pid_meta_ind,
}

-- The slot `i` is that of the process `n`.
pub record Has (s : ProcMem) (n i : ℕ) : Type 0 where
  pub in_table : i < max_exec_hanging
  pub is : (s.pid_meta i).pid ≡ n

-- No process has two slots, a process is not number 0, and an index that is kept is in the table.
pub record SlotsOk (s : ProcMem) : Type 0 where
  pub unique : (n i j : ℕ) → n ≢ 0 → Has s n i → Has s n j → i ≡ j
  pub self : s.getpid ≢ 0
  pub kept : s.pid_meta_ind_set ≡ true → s.pid_meta_ind < max_exec_hanging

-- No slot can be had.
abbrev pub NoSlot : ProcMem → Type 0
NoSlot s =
    (i : ℕ)
    → i < max_exec_hanging
    → (((s.pid_meta i).pid ≡ 0) → ((s.pid_meta i).locked ≡ true)) × ((s.pid_meta i).pid ≢ s.getpid)

-- The process has the slot, alone, and keeps its index; the others have theirs.
pub record Seated (s t : ProcMem) (i : ℕ) : Type 0 where
  pub mine : Has t s.getpid i
  pub was : ((s.pid_meta i).pid ≡ s.getpid) ⊎ ((s.pid_meta i).pid ≡ 0)
  pub index : t.pid_meta_ind ≡ i
  pub ok_after : SlotsOk t
  pub others : (j : ℕ) → j ≢ i → t.pid_meta j ≡ s.pid_meta j
  pub self : t.getpid ≡ s.getpid
  pub flags :
      t.pid_meta i ≡ record (s.pid_meta i) { pid = s.getpid; locked = (t.pid_meta i).locked }

abbrev pub Seats : ProcMem → Run ProcMem ℕ → Type 0
Seats s (ok i t) = Seated s t i
Seats s (died t) = NoSlot s
Seats s stuck = ⊥
Seats s fault = ⊥

claim_slot-some :
    (p : PidInfo) {q : PidInfo} → claim_slot p ≡ some q → (p.pid ≡ 0) × (p.locked ≡ false) × (q ≡ p)
unfolding claim_slot trylock_pid_info unlock_pid_info
claim_slot-some p h = ground arith

claim_slot-none : (p : PidInfo) → claim_slot p ≡ none → p.pid ≡ 0 → p.locked ≡ true
unfolding claim_slot trylock_pid_info unlock_pid_info
claim_slot-none p h e = ground arith

pub slot_with-some :
    (n : ℕ) (p : PidInfo) {q : PidInfo} → slot_with n p ≡ some q → (p.pid ≡ n) × (q ≡ p)
slot_with-some n p h = ground arith

pub slot_with-none : (n : ℕ) (p : PidInfo) → slot_with n p ≡ none → p.pid ≢ n
slot_with-none n p h = ground arith

module _ (s : ProcMem) where
  -- The search leaves the table as it was.
  pub scan_keeps :
      {i : ℕ} {table : ℕ → PidInfo}
      → scan claim_slot (λ i. i) max_exec_hanging 0 s.pid_meta ≡ some (i, table)
      → table ≡ s.pid_meta
  scan_keeps {i} e =
      let c = scan-some claim_slot (λ i. i) max_exec_hanging 0 e in
      let (free, unlocked, same) = claim_slot-some (s.pid_meta i) c.claimed in
      c.written ∙ ap (update s.pid_meta i) same ∙ update-same s.pid_meta i

  pub get_new-ok :
      {i : ℕ} {table : ℕ → PidInfo}
      → scan claim_slot (λ i. i) max_exec_hanging 0 s.pid_meta ≡ some (i, table)
      → get_new_pid_meta_ind s
        ≡ ok i (record s { pid_meta = table; pid_meta_ind = i; pid_meta_ind_set = true })
  unfolding get_new_pid_meta_ind
  get_new-ok e = rw (e, get_new_pid_meta_ind) refl

  pub get_new-died :
      scan claim_slot (λ i. i) max_exec_hanging 0 s.pid_meta ≡ none
      → get_new_pid_meta_ind s ≡ died s
  unfolding get_new_pid_meta_ind
  get_new-died e = rw (e, get_new_pid_meta_ind) refl

module _ {s : ProcMem} (v : SlotsOk s) where
  -- A slot that the process has already.
  found-Seated :
      (i : ℕ) (t : ProcMem)
      → Has s s.getpid i
      → t.pid_meta ≡ s.pid_meta
      → t.pid_meta_ind ≡ i
      → t.getpid ≡ s.getpid
      → Seated s t i
  found-Seated i t h same index self = record {
    mine = record { in_table = h.in_table; is = ap (λ m. (m i).pid) same ∙ h.is };
    was = inl h.is;
    index = index;
    ok_after = record {
      unique = λ n a b ne p q.
          v.unique n a b ne (record { in_table = p.in_table; is = ground (arith, p.is) })
            (record { in_table = q.in_table; is = ground (arith, q.is) });
      self = rw self v.self;
      kept = λ e. rw index h.in_table;
    };
    others = λ j ne. ap (λ m. m j) same;
    self = self;
    flags = ground (arith, h.is);
  }

  -- A new one.
  module _ (i : ℕ) (less : i < max_exec_hanging) (free : (s.pid_meta i).pid ≡ 0)
      (none_yet : (j : ℕ) → j < max_exec_hanging → (s.pid_meta j).pid ≢ s.getpid) where
    abbrev seated : ProcMem
    seated = record s {
      pid_meta = update s.pid_meta i (record (s.pid_meta i) { pid = s.getpid });
      pid_meta_ind = i;
      pid_meta_ind_set = true;
    }

    -- Whose slot a slot is.
    seated-Has :
        (n j : ℕ) → Has seated n j → ((j ≡ i) × (n ≡ s.getpid)) ⊎ (Has s n j × (n ≢ s.getpid))
    seated-Has n j h = elim (Bool-cases (j == i)) [
      | inl same ↦ inl (ground arith, ground (arith, h.is))
      | inr other ↦
          let is : (s.pid_meta j).pid ≡ n = ground (arith, h.is) in
          inr (record { in_table = h.in_table; is = is }, λ same. none_yet j h.in_table (is ∙ same))
    ]

    seated_unique : (n a b : ℕ) → n ≢ 0 → Has seated n a → Has seated n b → a ≡ b
    seated_unique n a b ne p q = elim (seated-Has n a p) [
      | inl (at, self) ↦ elim (seated-Has n b q) [
        | inl (at', self') ↦ ground arith
        | inr (old, other) ↦ absurd (other self)
      ]
      | inr (old, other) ↦ elim (seated-Has n b q) [
        | inl (at', self') ↦ absurd (other self')
        | inr (old', other') ↦ v.unique n a b ne old old'
      ]
    ]

    seated-Seated : Seated s seated i
    seated-Seated = record {
      mine = record { in_table = less; is = ground arith };
      was = inr free;
      index = refl;
      ok_after = record { unique = seated_unique; self = v.self; kept = λ e. less };
      others = λ j ne. ground arith;
      self = refl;
      flags = ground arith;
    }

  -- A process that has no slot in the table.
  module _ (none_yet : (j : ℕ) → j < max_exec_hanging → (s.pid_meta j).pid ≢ s.getpid) where
    new-Seated :
        (i : ℕ) (table : ℕ → PidInfo)
        → scan claim_slot (λ i. i) max_exec_hanging 0 s.pid_meta ≡ some (i, table)
        → Seats s (take_slot s)
    unfolding take_slot
    new-Seated i table e =
        let c = scan-some claim_slot (λ i. i) max_exec_hanging 0 e in
        let (free, unlocked, same) = claim_slot-some (s.pid_meta i) c.claimed in
        let table_is = scan_keeps s e in
        rw (get_new-ok s e, table_is) (seated-Seated i (omega (arith, c.below)) free none_yet)

    take_slot-Seats : Seats s (take_slot s)
    unfolding take_slot
    take_slot-Seats = elim (Option-cases (scan claim_slot (λ i. i) max_exec_hanging 0 s.pid_meta)) [
      | inl e ↦ rw (get_new-died s e) (λ i less. (
        claim_slot-none (s.pid_meta i) (
            scan-none claim_slot (λ i. i) max_exec_hanging 0 s.pid_meta e i (omega arith)
              (omega arith)),
        none_yet i less,
      ))
      | inr ((i, table), e) ↦ new-Seated i table e
    ]

  -- A process whose own slot is found by the loop, or who takes one.
  looked : Seats s (elim (scan (slot_with s.getpid) (λ i. i) max_exec_hanging 0 s.pid_meta) [
    | none ↦ take_slot s
    | some (j, table) ↦ ok j (record s { pid_meta_ind = j; pid_meta_ind_set = true })
  ])
  looked = elim (Option-cases (scan (slot_with s.getpid) (λ i. i) max_exec_hanging 0 s.pid_meta)) [
    | inl e ↦ rw e (
        take_slot-Seats (λ j less. slot_with-none s.getpid (s.pid_meta j) (
          scan-none (slot_with s.getpid) (λ i. i) max_exec_hanging 0 s.pid_meta e j (omega arith)
            (omega arith))))
    | inr ((j, table), e) ↦
        let c = scan-some (slot_with s.getpid) (λ i. i) max_exec_hanging 0 e in
        let (mine, same) = slot_with-some s.getpid (s.pid_meta j) c.claimed in
        let h : Has s s.getpid j = record { in_table = omega (arith, c.below); is = mine } in
        rw e
          (found-Seated j (record s { pid_meta_ind = j; pid_meta_ind_set = true }) h refl refl refl)
  ]

  -- Where no process has two slots, a process gets the slot that has its number, or a free one, which
  -- then has it; its index is kept, no process has two slots, and the other slots are as they were.
  -- The process ends only where the table has no slot of its own and none that is free and unlocked.
  pub get_pid_meta_ind-Seats : Seats s (get_pid_meta_ind s)
  unfolding get_pid_meta_ind
  get_pid_meta_ind-Seats =
      elim (Bool-cases (s.pid_meta_ind_set && ((s.pid_meta s.pid_meta_ind).pid == s.getpid))) [
        | inl mine ↦ rw mine (
            found-Seated s.pid_meta_ind s
              (record { in_table = v.kept (ground arith); is = ground arith }) refl refl refl)
        | inr other ↦ rw other looked
      ]
