-- ===== src/Hash/Metro/Reads.antt =====
-- What `metro_hash` of system/util/util.c reads.
use spacefish.Prelude.{
  ℕ, zero, suc, ◌+◌, ◌*◌, ◌%◌, ◌≤◌, ◌<◌, ◌≡◌, refl, ◌∙◌, inl, inr, Option, some, [], ◌∷◌, arith,
  leb, if◌then◌else◌, length, Bool-cases,
}
use spacefish.Config.{hash_table_size}
use spacefish.Text.{CString}
use spacefish.Hash.Metro.{
  k0, k2, seed, add64, mul64, read_u, Lanes, mix_lanes, read_block, read_blocks, hash_blocks,
  hash_pair, hash_part, metro_hash, hash_metro,
}

-- A read of `k` bytes from a text that has them.
pub read_u-ok :
    (k : ℕ) (ptr : CString)
    → k ≤ length ptr
    → (n : ℕ) × ((end : CString) × (read_u k ptr ≡ some (n, end)) × (length end + k ≡ length ptr))
unfolding read_u
read_u-ok zero ptr h = (0, (ptr, refl, omega arith))
read_u-ok (suc k) [] h = absurd (omega arith)
read_u-ok (suc k) (c ∷ ptr) h =
    let (n, (end, runs, size)) = read_u-ok k ptr (omega arith) in
    (c + 256 * n, (end, rw runs refl, omega arith))

read_block-ok :
    (v : Lanes) (ptr : CString)
    → 32 ≤ length ptr
    → (w : Lanes) × ((end : CString) × (read_block v ptr ≡ some (w, end))
        × (length end + 32 ≡ length ptr))
unfolding read_block
read_block-ok v ptr h =
    let (a, (p, e1, s1)) = read_u-ok 8 ptr (omega arith) in
    let (b, (q, e2, s2)) = read_u-ok 8 p (omega arith) in
    let (c, (r, e3, s3)) = read_u-ok 8 q (omega arith) in
    let (d, (end, e4, s4)) = read_u-ok 8 r (omega arith) in
    (mix_lanes v a b c d, (end, rw (e1, e2, e3, e4) refl, omega arith))

read_blocks-suc :
    (fuel : ℕ) (v w : Lanes) (ptr end : CString)
    → read_block v ptr ≡ some (w, end)
    → read_blocks (suc fuel) v ptr
      ≡ (if leb 32 (length end) then read_blocks fuel w end else some (w, end))
unfolding read_blocks
read_blocks-suc fuel v w ptr end runs = rw (read_blocks, runs) refl

read_blocks-ok :
    (fuel : ℕ) (v : Lanes) (ptr : CString)
    → 32 ≤ length ptr
    → length ptr ≤ fuel
    → (w : Lanes) × ((end : CString) × (read_blocks fuel v ptr ≡ some (w, end)))
unfolding read_blocks
read_blocks-ok zero v ptr h b = absurd (omega arith)
read_blocks-ok (suc fuel) v ptr h b =
    let (w, (end, runs, size)) = read_block-ok v ptr h in
    elim (Bool-cases (leb 32 (length end))) [
      | inl more ↦
          let (x, (last, rest)) = read_blocks-ok fuel w end (ground arith) (omega (arith, size)) in
          (x, (last, read_blocks-suc fuel v w ptr end runs ∙ rw more rest))
      | inr done ↦ (w, (end, read_blocks-suc fuel v w ptr end runs ∙ rw done refl))
    ]

-- A part of the hash that comes to a value.
abbrev GoesOn : Option (ℕ × CString) → Type 0
GoesOn o = (h : ℕ) × ((end : CString) × (o ≡ some (h, end)))

hash_blocks-ok : (h : ℕ) (ptr : CString) → GoesOn (hash_blocks h ptr)
unfolding hash_blocks
hash_blocks-ok h ptr = elim (Bool-cases (leb 32 (length ptr))) [
  | inl long ↦
      let (w, (end, runs)) =
        read_blocks-ok (length ptr) (record { v0 = h; v1 = h; v2 = h; v3 = h }) ptr (ground arith)
          (omega arith) in
      rw (long, runs) (_, (end, refl))
  | inr short ↦ (h, (ptr, rw short refl))
]

hash_pair-ok : (h : ℕ) (ptr : CString) → GoesOn (hash_pair h ptr)
unfolding hash_pair
hash_pair-ok h ptr = elim (Bool-cases (leb 16 (length ptr))) [
  | inl long ↦
      let (a, (p, e1, s1)) = read_u-ok 8 ptr (ground arith) in
      let (b, (end, e2, s2)) = read_u-ok 8 p (ground (arith, s1)) in
      rw (long, e1, e2) (_, (end, refl))
  | inr short ↦ (h, (ptr, rw short refl))
]

hash_part-ok : (n turn h : ℕ) (ptr : CString) → GoesOn (hash_part n turn h ptr)
unfolding hash_part
hash_part-ok n turn h ptr = elim (Bool-cases (leb n (length ptr))) [
  | inl long ↦
      let (a, (end, e, s)) = read_u-ok n ptr (ground arith) in rw (long, e) (_, (end, refl))
  | inr short ↦ (h, (ptr, rw short refl))
]

-- Every part comes to a value, and so does the whole.
metro_hash-ok : (str : CString) → (h : ℕ) × (metro_hash str ≡ some h)
unfolding metro_hash
metro_hash-ok str =
    let (h1, (p1, e1)) = hash_blocks-ok (mul64 (add64 seed k2) k0) str in
    let (h2, (p2, e2)) = hash_pair-ok h1 p1 in
    let (h3, (p3, e3)) = hash_part-ok 8 55 h2 p2 in
    let (h4, (p4, e4)) = hash_part-ok 4 26 h3 p3 in
    let (h5, (p5, e5)) = hash_part-ok 2 48 h4 p4 in
    let (h6, (p6, e6)) = hash_part-ok 1 37 h5 p5 in rw (e1, e2, e3, e4, e5, e6) (_, refl)

-- For every text, of any bytes, `hash` with USE_METROHASH ends, never reads behind the text, and gives a
-- row of the table.
pub hash_metro-in_table :
    (str : CString) → (row : ℕ) × (hash_metro str ≡ some row) × (row < hash_table_size)
unfolding hash_metro
hash_metro-in_table str =
    let (h, runs) = metro_hash-ok str in
    (h % hash_table_size, rw (hash_metro, runs) refl, omega arith)
