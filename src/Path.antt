-- ===== src/Path.antt =====
-- `build_abs_path` of system/util/util.c, and the test for paths of the operating system in
-- system/lib/file_syscalls.c.
pub mod Resolved
use spacefish.Prelude.{
  ℕ, zero, suc, ◌+◌, Bool, true, false, Option, none, some, List, [], ◌∷◌, ◌++◌, ◌&&◌, ◌||◌, not,
  ◌==◌, leb, ltb, if◌then◌else◌, length, take, drop,
}
use spacefish.Config.{path_max}
use spacefish.Text.{CString, same_bytes}

-- The characters '/' and '.'.
abbrev pub slash : ℕ
slash = 47

abbrev pub dot : ℕ
dot = 46

-- str[i], which is 0 at the end of the text
abbrev pub char_at : CString → ℕ → ℕ
char_at [] i = 0
char_at (c ∷ cs) zero = c
char_at (c ∷ cs) (suc i) = char_at cs i

-- The text before the last '/', where there is one.
unfoldable pub before_slash : CString → Option CString
before_slash [] = none
before_slash (c ∷ cs) = elim (before_slash cs) [
  | some r ↦ some (c ∷ r)
  | none ↦ if c == slash then some [] else none
]

-- 0 with a path that has been built, 1 for a path that is absolute, -1; else the end of the process
-- where `getcwd` fails, and an access outside a buffer of PATH_MAX bytes, or to NULL.
pub data AbsPath : Type 0 where
  built : CString → AbsPath
  already : AbsPath
  unsupported : AbsPath
  no_cwd : AbsPath
  overrun : AbsPath

-- A text written to a buffer of PATH_MAX bytes, its final 0 included.
abbrev pub in_buffer : CString → AbsPath
in_buffer r = if leb path_max (length r) then overrun else built r

abbrev pub from_cwd : Option CString → (CString → AbsPath) → AbsPath
from_cwd none f = no_cwd
from_cwd (some cwd) f = f cwd

-- Cuts a path at its last '/'.
abbrev pub at_slash : CString → (CString → CString) → AbsPath
at_slash cwd f = elim (before_slash cwd) [ none ↦ overrun | some r ↦ in_buffer (f r) ]

unfoldable pub build_abs_path : (getcwd : Option CString) → CString → AbsPath
unfolding before_slash
build_abs_path getcwd path_in =
    let len = length path_in in
    let c0 = char_at path_in 0 in
    let c1 = char_at path_in 1 in
    let c2 = char_at path_in 2 in
    if ltb path_max len
    then unsupported
    else if c0 == slash && not (c1 == dot)
    then already
    else if ltb 1 len && (c0 == dot && (c1 == dot && c2 == 0))
    then from_cwd getcwd (λ cwd. at_slash cwd (λ r. r))
    else if ltb 1 len && (c0 == dot && c1 == dot)
    then (if not (c2 == slash)
        then unsupported
        else if leb path_max len
        then overrun
        else from_cwd getcwd (λ cwd. at_slash cwd (λ r. r ++ slash ∷ drop 3 path_in)))
    else if ltb 1 len && (c0 == dot && c1 == slash)
    then (if leb path_max len
        then overrun
        else from_cwd getcwd (λ cwd. in_buffer (cwd ++ slash ∷ drop 2 path_in)))
    else if (not (c0 == slash) && not (c0 == dot))
        || (c0 == dot && (not (c1 == dot) && not (c1 == slash)))
    then from_cwd getcwd (λ cwd. in_buffer (cwd ++ slash ∷ path_in))
    else if c0 == dot && c1 == 0
    then from_cwd getcwd (λ cwd. in_buffer (cwd ++ slash ∷ []))
    else unsupported

-- strstr(path, word) != NULL
unfoldable pub contains : CString → CString → Bool
contains word [] = same_bytes word []
contains word (c ∷ path) = same_bytes word (take (length word) (c ∷ path)) || contains word path

-- "/dev/"
abbrev pub dev_dir : CString
dev_dir = 47 ∷ 100 ∷ 101 ∷ 118 ∷ 47 ∷ []

-- "/proc/"
abbrev pub proc_dir : CString
proc_dir = 47 ∷ 112 ∷ 114 ∷ 111 ∷ 99 ∷ 47 ∷ []

unfoldable pub exclusive_path : CString → Bool
unfolding contains
exclusive_path path = contains dev_dir path || contains proc_dir path
