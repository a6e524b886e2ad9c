-- ===== src/Text.antt =====
-- C strings as the list of their bytes before the final 0, and the functions on them that the
-- program takes from <string.h>.
use spacefish.Prelude.{
  ℕ, ◌<◌, ◌≡◌, refl, sym, ap, ◌∙◌, min, length, length-take, take_all, Bool, true, false, ◌&&◌,
  List, [], ◌∷◌, arith, ◌==◌, take,
}
use spacefish.Config.{path_max}

abbrev pub CString : Type 0
CString = List ℕ

unfoldable pub same_bytes : CString → CString → Bool
same_bytes [] [] = true
same_bytes [] (y ∷ ys) = false
same_bytes (x ∷ xs) [] = false
same_bytes (x ∷ xs) (y ∷ ys) = (x == y) && same_bytes xs ys

-- !strncmp(a, b, PATH_MAX)
unfoldable pub same_path : CString → CString → Bool
unfolding same_bytes
same_path a b = same_bytes (take path_max a) (take path_max b)

-- !strcmp(a, b)
unfoldable pub same_string : CString → CString → Bool
unfolding same_bytes
same_string a b = same_bytes a b

same_bytes_refl : (a : CString) → same_bytes a a ≡ true
unfolding same_bytes
same_bytes_refl [] = refl
same_bytes_refl (x ∷ xs) = ground (arith, same_bytes_refl xs)

same_bytes-eq : (a b : CString) → same_bytes a b ≡ true → a ≡ b
unfolding same_bytes
same_bytes-eq [] [] h = refl
same_bytes-eq [] (y ∷ ys) h = cc
same_bytes-eq (x ∷ xs) [] h = cc
same_bytes-eq (x ∷ xs) (y ∷ ys) h = ground (arith, same_bytes-eq xs ys)

same_bytes_sym : (a b : CString) → same_bytes a b ≡ same_bytes b a
unfolding same_bytes
same_bytes_sym [] [] = refl
same_bytes_sym [] (y ∷ ys) = refl
same_bytes_sym (x ∷ xs) [] = refl
same_bytes_sym (x ∷ xs) (y ∷ ys) = ground (arith, same_bytes_sym xs ys)

pub same_path_refl : (a : CString) → same_path a a ≡ true
unfolding same_path
same_path_refl a = same_bytes_refl (take path_max a)

-- Two paths are the same when they agree in their first PATH_MAX bytes.
pub same_path-eq : (a b : CString) → same_path a b ≡ true → take path_max a ≡ take path_max b
unfolding same_path
same_path-eq a b h = same_bytes-eq _ _ h

pub same_path_of_eq : (a b : CString) → take path_max a ≡ take path_max b → same_path a b ≡ true
unfolding same_path
same_path_of_eq a b e = rw e (same_bytes_refl (take path_max b))

-- What is the same as one of two same paths is the same as the other.
pub same_path_trans : (a b c : CString) → same_path a b ≡ true → same_path a c ≡ same_path b c
unfolding same_path
same_path_trans a b c h = rw (same_path-eq a b h) refl

-- A path that fits the buffer is the same as itself only.
pub same_path_short : (a b : CString) → length b < path_max → same_path a b ≡ true → a ≡ b
same_path_short a b h e =
    let cut = same_path-eq a b e in
    let whole : take path_max b ≡ b = take_all path_max b (omega arith) in
    let size : min path_max (length a) ≡ length b =
      sym (length-take path_max a) ∙ ap length (cut ∙ whole) in
    sym (take_all path_max a (omega arith)) ∙ cut ∙ whole

pub same_path_sym : (a b : CString) → same_path a b ≡ same_path b a
unfolding same_path
same_path_sym a b = same_bytes_sym (take path_max a) (take path_max b)
