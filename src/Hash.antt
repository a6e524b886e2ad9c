-- ===== src/Hash.antt =====
-- `hash` of system/util/util.c as it is built without USE_METROHASH. A byte from 128 on is a
-- negative `char`, and ends the process.
pub mod Metro
use spacefish.Prelude.{
  ℕ, ◌+◌, ◌*◌, ◌%◌, ◌≡◌, ◌<◌, refl, ap, inl, inr, false, Option, Option-cases, Bool-cases, none,
  some, [], ◌∷◌, arith, leb, if◌then◌else◌,
}
use spacefish.Config.{hash_table_size, u64}
use spacefish.Text.{CString}

-- The loop, from the value `h`; `h << 5` keeps 64 bits.
hash_loop : ℕ → CString → Option ℕ
hash_loop h [] = some h
hash_loop h (c ∷ str) =
    let rest = hash_loop (u64 (u64 (u64 (h * 32) + h) + c)) str in if leb 128 c then none else rest

unfoldable pub hash : CString → Option ℕ
unfolding hash_loop
hash str = elim (hash_loop 5381 str) [ none ↦ none | some h ↦ some (h % hash_table_size) ]

-- Horner's scheme at 33, with no word size.
unfoldable pub horner : ℕ → CString → ℕ
horner h [] = h
horner h (c ∷ str) = horner (h * 33 + c) str

abbrev pub Ascii : CString → Type 0
Ascii [] = Unit
Ascii (c ∷ str) = (c < 128) × Ascii str

horner-mod :
    (h g : ℕ) (str : CString)
    → h % hash_table_size ≡ g % hash_table_size
    → horner h str % hash_table_size ≡ horner g str % hash_table_size
unfolding horner
horner-mod h g [] e = e
horner-mod h g (c ∷ str) e = horner-mod (h * 33 + c) (g * 33 + c) str (omega arith)

hash_loop-horner :
    (h g : ℕ) (str : CString)
    → Ascii str
    → h % hash_table_size ≡ g % hash_table_size
    → (r : ℕ) × (hash_loop h str ≡ some r) × (r % hash_table_size ≡ horner g str % hash_table_size)
unfolding hash_loop horner
hash_loop-horner h g [] a e = (h, refl, e)
hash_loop-horner h g (c ∷ str) (small, a) e =
    let plain : leb 128 c ≡ false = ground arith in
    rw plain (hash_loop-horner (u64 (u64 (u64 (h * 32) + h) + c)) (g * 33 + c) str a (omega arith))

-- On 7-bit text the hash is the polynomial at 33 over the bytes, modulo the table's size: the
-- wrap-around at 64 bits does not show.
pub hash-horner : (str : CString) → Ascii str → hash str ≡ some (horner 5381 str % hash_table_size)
unfolding hash
hash-horner str a =
    let (r, runs, e) = hash_loop-horner 5381 5381 str a refl in rw (runs, hash) (ap some e)

hash_loop-Ascii : (h : ℕ) (str : CString) {r : ℕ} → hash_loop h str ≡ some r → Ascii str
unfolding hash_loop
hash_loop-Ascii h [] e = tt
hash_loop-Ascii h (c ∷ str) e = elim (Bool-cases (leb 128 c)) [
  | inl high ↦ absurd (ground arith)
  | inr low ↦ (
    ground arith,
    hash_loop-Ascii (u64 (u64 (u64 (h * 32) + h) + c)) str (rw (low, hash_loop) at e),
  )
]

-- A hash that is returned is a row of the table, and the text is 7-bit.
pub hash_bounds : (str : CString) {r : ℕ} → hash str ≡ some r → (r < hash_table_size) × Ascii str
unfolding hash
hash_bounds str {r} e = elim (Option-cases (hash_loop 5381 str)) [
  | inl out ↦ absurd (ground arith)
  | inr (h, runs) ↦ (ground arith, hash_loop-Ascii 5381 str runs)
]
