-- ===== src/File/Splice.antt =====
-- Overwriting a part of a list, and what that does to a list in two pieces.
use spacefish.Prelude.{
  ℕ, ◌+◌, ◌-◌, ◌≤◌, ◌≡◌, ◌⊎◌, ap, ◌∙◌, sym, inl, inr, List, [], ◌++◌, arith, length, take, drop,
  append_nil, drop_all, drop_nil, append_assoc, take-drop, take-append_le, take-append_ge,
  drop-append_ge, drop-append_le, length-drop,
}

-- `old` with `bytes` written over it from `off`, and behind its end.
abbrev pub splice : ℕ → List ℕ → List ℕ → List ℕ
splice off bytes old = take off old ++ (bytes ++ drop (off + length bytes) old)

-- The write stays in the first piece.
pub splice_within :
    (off : ℕ) (bytes old rest : List ℕ)
    → off + length bytes ≤ length old
    → splice off bytes (old ++ rest) ≡ splice off bytes old ++ rest
splice_within off bytes old rest h =
    rw (take-append_le rest off old (omega arith), drop-append_le rest (off + length bytes) old h)
      (ap (λ r. take off old ++ r) (sym (append_assoc bytes (drop (off + length bytes) old) rest))
        ∙ sym (append_assoc (take off old) (bytes ++ drop (off + length bytes) old) rest))

-- The write fills a first piece of `n` bytes, and goes on in the rest.
pub splice_across :
    (n off : ℕ) (bytes old rest : List ℕ)
    → off ≤ length old
    → length old ≤ n
    → n - off ≤ length bytes
    → (length old ≡ n) ⊎ (rest ≡ [])
    → (take off old ++ take (n - off) bytes) ++ splice 0 (drop (n - off) bytes) rest
      ≡ splice off bytes (old ++ rest)
splice_across n off bytes old rest h small over full =
    let room = n - off in
    let tail : drop (off + length bytes) (old ++ rest) ≡ drop (0 + length (drop room bytes)) rest =
      elim full [
        | inl e ↦
            let k : off + length bytes - length old ≡ 0 + length (drop room bytes) =
              omega (arith, length-drop room bytes) in
            drop-append_ge rest (off + length bytes) old (omega arith) ∙ ap (λ i. drop i rest) k
        | inr e ↦ rw (e, append_nil, drop_nil) (drop_all (off + length bytes) old (omega arith))
      ] in
    rw (tail, take-append_le rest off old h)
      (append_assoc (take off old) (take room bytes) _
        ∙ ap (λ r. take off old ++ r)
            (sym (append_assoc (take room bytes) (drop room bytes) _)
              ∙ ap (λ r. r ++ drop (0 + length (drop room bytes)) rest) (take-drop room bytes)))

-- The write lies behind the first piece.
pub splice_past :
    (k : ℕ) (bytes old rest : List ℕ)
    → splice (length old + k) bytes (old ++ rest) ≡ old ++ splice k bytes rest
splice_past k bytes old rest =
    let a : length old + k - length old ≡ k = omega arith in
    let b : length old + k + length bytes - length old ≡ k + length bytes = omega arith in
    rw
      (
        take-append_ge rest (length old + k) old (omega arith),
        drop-append_ge rest (length old + k + length bytes) old (omega arith),
        a,
        b,
      )
      (append_assoc old (take k rest) (bytes ++ drop (k + length bytes) rest))
