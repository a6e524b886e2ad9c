-- ===== src/Process/Searches.antt =====
-- Searches for a slot on the same table, one after the other: system/util/process.c.
use spacefish.Prelude.{
  ℕ, ◌≡◌, refl, ap, sym, ◌∙◌, inl, inr, true, ◌&&◌, some, arith, ◌==◌, Bool-cases, Option-cases,
}
use spacefish.Config.{max_exec_hanging}
use spacefish.Scan.{scan, scan-some, scan-none}
use spacefish.Run.{ok}
use spacefish.Process.{ProcMem, claim_slot, get_new_pid_meta_ind, slot_with, get_pid_meta_ind}
use spacefish.Process.Slots.{
  Has, SlotsOk, slot_with-some, slot_with-none, scan_keeps, get_new-ok, get_new-died,
}

-- A slot that get_new_pid_meta_ind has found stays free until its caller writes a number to it: another
-- process that looks for a slot in between, on the same table, finds the same.
pub get_new_pid_meta_ind_race :
    (s t : ProcMem) {s' : ProcMem} {k : ℕ}
    → get_new_pid_meta_ind s ≡ ok k s'
    → t.pid_meta ≡ s'.pid_meta
    → (t' : ProcMem) × (get_new_pid_meta_ind t ≡ ok k t') × (t'.pid_meta ≡ s'.pid_meta)
get_new_pid_meta_ind_race s t {s'} {k} e same =
    elim (Option-cases (scan claim_slot (λ i. i) max_exec_hanging 0 s.pid_meta)) [
      | inl missed ↦ absurd (ground (arith, get_new-died s missed))
      | inr ((i, table), found) ↦
          let kept = scan_keeps s found in
          let runs = get_new-ok s found in
          let at : i ≡ k = ground arith in
          let table_is : s'.pid_meta ≡ s.pid_meta = ground arith in
          let both : t.pid_meta ≡ s.pid_meta = same ∙ table_is in
          let again : scan claim_slot (λ i. i) max_exec_hanging 0 t.pid_meta ≡ some (i, table) =
            rw both found in
          (
            record t { pid_meta = table; pid_meta_ind = i; pid_meta_ind_set = true },
            get_new-ok t again ∙ rw at refl,
            kept ∙ sym table_is,
          )
    ]

-- A process that has its slot gets it, and the table is left as it is.
pub get_pid_meta_ind-own :
    {s : ProcMem} {i : ℕ}
    → SlotsOk s
    → Has s s.getpid i
    → (t : ProcMem) × (get_pid_meta_ind s ≡ ok i t)
      × (t.pid_meta ≡ s.pid_meta)
      × (t.pid_meta_ind ≡ i)
      × (t.getpid ≡ s.getpid)
unfolding get_pid_meta_ind
get_pid_meta_ind-own {s} {i} v own =
    let search = scan (slot_with s.getpid) (λ i. i) max_exec_hanging 0 s.pid_meta in
    elim (Bool-cases (s.pid_meta_ind_set && ((s.pid_meta s.pid_meta_ind).pid == s.getpid))) [
      | inl mine ↦
          let here : Has s s.getpid s.pid_meta_ind = record {
            in_table = v.kept (ground arith);
            is = ground arith;
          } in
          let at : s.pid_meta_ind ≡ i = v.unique s.getpid s.pid_meta_ind i v.self here own in
          (s, rw mine (ap (λ k. ok k s) at), refl, at, refl)
      | inr other ↦ elim (Option-cases search) [
        | inl e ↦ absurd (
            slot_with-none s.getpid (s.pid_meta i)
              (scan-none (slot_with s.getpid) (λ i. i) max_exec_hanging 0 s.pid_meta e i
                (omega arith) (omega (arith, own.in_table)))
              own.is)
        | inr ((j, table), e) ↦
            let c = scan-some (slot_with s.getpid) (λ i. i) max_exec_hanging 0 e in
            let (mine, same) = slot_with-some s.getpid (s.pid_meta j) c.claimed in
            let here : Has s s.getpid j = record { in_table = omega (arith, c.below); is = mine } in
            let at : j ≡ i = v.unique s.getpid j i v.self here own in
            (
              record s { pid_meta_ind = j; pid_meta_ind_set = true },
              rw (other, e)
                  (ap (λ k. ok k (record s { pid_meta_ind = j; pid_meta_ind_set = true })) at),
              refl,
              at,
              refl,
            )
      ]
    ]
