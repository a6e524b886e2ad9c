-- ===== src/Fd/Slots.antt =====
-- `get_empty_fd` of system/util/fd.c.
use spacefish.Prelude.{
  ℕ, zero, suc, ◌+◌, ◌-◌, ◌≤◌, ◌<◌, ◌≡◌, refl, inl, inr, true, false, Option, none, some, arith,
  leb, update, Bool-cases,
}
use spacefish.Config.{max_num_fd}
use spacefish.Run.{Run, ok, died, stuck, fault}
use spacefish.Fd.{FdTable, empty_from, get_empty_fd}

-- The lowest free entry from `i` on is taken; `fault` says that there is none in the table.
abbrev pub Lowest : (i : ℕ) → FdTable → Run FdTable (Option ℕ) → Type 0
Lowest i t (ok (some fd) t') =
    (i ≤ fd)
    × (fd < max_num_fd)
    × ((t fd).empty ≡ true)
    × ((j : ℕ) → i ≤ j → j < fd → (t j).empty ≡ false)
    × (t' ≡ update t fd (record (t fd) { empty = false }))
Lowest i t (ok none t') = ⊥
Lowest i t (died t') = ⊥
Lowest i t stuck = ⊥
Lowest i t fault = (j : ℕ) → i ≤ j → j < max_num_fd → (t j).empty ≡ false

step-Lowest :
    (i : ℕ) (t : FdTable)
    → (t i).empty ≡ false
    → (r : Run FdTable (Option ℕ)) → Lowest (i + 1) t r
    → Lowest i t r
step-Lowest i t taken (ok (some fd) t') (from, below, free, all, e) = (
  omega arith,
  below,
  free,
  λ j l h. elim (Bool-cases (leb (i + 1) j)) [
    | inl later ↦ all j (ground arith) h
    | inr here ↦ let same : j ≡ i = ground arith in rw same taken
  ],
  e,
)
step-Lowest i t taken (ok none t') x = x
step-Lowest i t taken (died t') x = x
step-Lowest i t taken stuck x = x
step-Lowest i t taken fault all = λ j l h. elim (Bool-cases (leb (i + 1) j)) [
  | inl later ↦ all j (ground arith) h
  | inr here ↦ let same : j ≡ i = ground arith in rw same taken
]

empty_from-Lowest :
    (k i : ℕ) (t : FdTable) → max_num_fd < i + k → i ≤ max_num_fd → Lowest i t (empty_from k i t)
unfolding empty_from
empty_from-Lowest zero i t h b = absurd (omega arith)
empty_from-Lowest (suc k) i t h b = elim (Bool-cases (leb max_num_fd i)) [
  | inl past ↦ rw past (λ j l m. absurd (ground arith))
  | inr within ↦ elim (Bool-cases (t i).empty) [
    | inl free ↦
        rw (within, free) (omega arith, ground arith, free, λ j l m. absurd (omega arith), refl)
    | inr taken ↦
        rw (within, taken)
          (step-Lowest i t taken (empty_from k (i + 1) t)
            (empty_from-Lowest k (i + 1) t (omega arith) (ground arith)))
  ]
]

-- With the bound MAX_NUM_FD, as `open` and the others call it: the lowest free descriptor from
-- `from` on is marked taken; when there is none the entry behind the table is read, and -1 is
-- never returned.
pub get_empty_fd-Lowest :
    (from : ℕ) (t : FdTable) → from ≤ max_num_fd → Lowest from t (get_empty_fd from max_num_fd t)
unfolding get_empty_fd
get_empty_fd-Lowest from t h = empty_from-Lowest (max_num_fd + 1 - from) from t (omega arith) h
