-- ===== src/Hash/Metro.antt =====
-- `metro_hash` of system/util/util.c, and `hash` as it is built with USE_METROHASH, on a machine that
-- stores the low byte first.
pub mod Reads
use spacefish.Prelude.{
  ℕ, zero, suc, ◌+◌, ◌-◌, ◌*◌, ◌/◌, ◌%◌, ◌^◌, ◌≤◌, ◌<◌, ◌≡◌, refl, inl, inr, Bool, true, false,
  Option, none, some, [], ◌∷◌, arith, leb, if◌then◌else◌, length, bit_or, bit_xor, Bool-cases,
}
use spacefish.Config.{hash_table_size, u64}
use spacefish.Text.{CString}

-- Sums and products of `uint64_t`.
abbrev pub add64 : ℕ → ℕ → ℕ
add64 a b = u64 (a + b)

abbrev pub mul64 : ℕ → ℕ → ℕ
mul64 a b = u64 (a * b)

unfoldable pub rotate_right : (v k : ℕ) → ℕ
rotate_right v k = bit_or (v / 2 ^ k) (u64 (v * 2 ^ (64 - k)))

abbrev pub k0 : ℕ
k0 = 0xD6D018F5

abbrev pub k1 : ℕ
k1 = 0xA2AA033B

abbrev pub k2 : ℕ
k2 = 0x62992FC1

abbrev pub k3 : ℕ
k3 = 0x30BC5B29

abbrev pub seed : ℕ
seed = 0x29328a2

-- The number in the first `k` bytes, and the bytes behind them; `none` is a read behind the text.
unfoldable pub read_u : (k : ℕ) → CString → Option (ℕ × CString)
read_u zero ptr = some (0, ptr)
read_u (suc k) [] = none
read_u (suc k) (c ∷ ptr) =
    let rest = read_u k ptr in elim rest [ none ↦ none | some (n, end) ↦ some (c + 256 * n, end) ]

abbrev pub then_read : {A : Type 0} → Option (ℕ × CString) → (ℕ → CString → Option A) → Option A
then_read none f = none
then_read (some (n, ptr)) f = f n ptr

-- `v[4]`
pub record Lanes : Type 0 where
  pub v0 : ℕ
  pub v1 : ℕ
  pub v2 : ℕ
  pub v3 : ℕ

-- The lanes after four reads.
unfoldable pub mix_lanes : Lanes → (a b c d : ℕ) → Lanes
unfolding rotate_right
mix_lanes v a b c d =
    let w0 = add64 (rotate_right (add64 v.v0 (mul64 a k0)) 29) v.v2 in
    let w1 = add64 (rotate_right (add64 v.v1 (mul64 b k1)) 29) v.v3 in
    let w2 = add64 (rotate_right (add64 v.v2 (mul64 c k2)) 29) w0 in
    let w3 = add64 (rotate_right (add64 v.v3 (mul64 d k3)) 29) w1 in
    record { v0 = w0; v1 = w1; v2 = w2; v3 = w3 }

-- One round of the loop.
unfoldable pub read_block : Lanes → CString → Option (Lanes × CString)
unfolding read_u mix_lanes
read_block v ptr = then_read (read_u 8 ptr) (λ a ptr. then_read (read_u 8 ptr) (λ b ptr.
    then_read (read_u 8 ptr)
      (λ c ptr. then_read (read_u 8 ptr) (λ d ptr. some (mix_lanes v a b c d, ptr)))))

-- do ... while (ptr <= (end - 32)); the fuel is the length of the text.
unfoldable pub read_blocks : (fuel : ℕ) → Lanes → CString → Option (Lanes × CString)
unfolding read_block
read_blocks zero v ptr = none
read_blocks (suc fuel) v ptr = elim (read_block v ptr) [
  | none ↦ none
  | some (w, rest) ↦
      let more = read_blocks fuel w rest in if leb 32 (length rest) then more else some (w, rest)
]

-- What the lanes add to `h`.
unfoldable pub join_lanes : Lanes → ℕ
unfolding rotate_right
join_lanes v =
    let w2 = bit_xor v.v2 (mul64 (rotate_right (add64 (mul64 (add64 v.v0 v.v3) k0) v.v1) 37) k1) in
    let w3 = bit_xor v.v3 (mul64 (rotate_right (add64 (mul64 (add64 v.v1 w2) k1) v.v0) 37) k0) in
    let w0 = bit_xor v.v0 (mul64 (rotate_right (add64 (mul64 (add64 v.v0 w2) k0) w3) 37) k1) in
    let w1 = bit_xor v.v1 (mul64 (rotate_right (add64 (mul64 (add64 v.v1 w3) k1) w2) 37) k0) in
    bit_xor w0 w1

-- if (len >= 32)
unfoldable pub hash_blocks : ℕ → CString → Option (ℕ × CString)
unfolding read_blocks join_lanes
hash_blocks h ptr =
    if leb 32 (length ptr)
    then (elim (read_blocks (length ptr) (record { v0 = h; v1 = h; v2 = h; v3 = h }) ptr) [
      | none ↦ none
      | some (v, rest) ↦ some (add64 h (join_lanes v), rest)
    ])
    else some (h, ptr)

-- if ((end - ptr) >= 16)
unfoldable pub hash_pair : ℕ → CString → Option (ℕ × CString)
unfolding read_u rotate_right
hash_pair h ptr =
    if leb 16 (length ptr)
    then then_read (read_u 8 ptr) (λ a ptr. then_read (read_u 8 ptr) (λ b ptr.
      let v0 = mul64 (rotate_right (add64 h (mul64 a k2)) 29) k3 in
      let v1 = mul64 (rotate_right (add64 h (mul64 b k2)) 29) k3 in
      let w0 = bit_xor v0 (add64 (rotate_right (mul64 v0 k0) 21) v1) in
      let w1 = bit_xor v1 (add64 (rotate_right (mul64 v1 k3) 21) w0) in some (add64 h w1, ptr)))
    else some (h, ptr)

-- if ((end - ptr) >= n), with 8, 4, 2 and 1
unfoldable pub hash_part : (n turn : ℕ) → ℕ → CString → Option (ℕ × CString)
unfolding read_u rotate_right
hash_part n turn h ptr =
    if leb n (length ptr)
    then then_read (read_u n ptr) (λ a ptr.
      let g = add64 h (mul64 a k3) in some (bit_xor g (mul64 (rotate_right g turn) k1), ptr))
    else some (h, ptr)

unfoldable pub metro_hash : CString → Option ℕ
unfolding hash_blocks hash_pair hash_part rotate_right
metro_hash str = then_read (hash_blocks (mul64 (add64 seed k2) k0) str) (λ h ptr.
    then_read (hash_pair h ptr) (λ h ptr. then_read (hash_part 8 55 h ptr) (λ h ptr.
      then_read (hash_part 4 26 h ptr) (λ h ptr. then_read (hash_part 2 48 h ptr) (λ h ptr.
        then_read (hash_part 1 37 h ptr) (λ h ptr.
          let g = mul64 (bit_xor h (rotate_right h 28)) k0 in
          some (bit_xor g (rotate_right g 29))))))))

-- `hash` with USE_METROHASH
unfoldable pub hash_metro : CString → Option ℕ
unfolding metro_hash
hash_metro str = elim (metro_hash str) [ none ↦ none | some h ↦ some (h % hash_table_size) ]
