-- ===== src/Path/Resolved.antt =====
-- Which path `build_abs_path` of system/util/util.c makes of a path and the working directory.
use spacefish.Prelude.{
  ◌<◌, ◌≡◌, ◌≢◌, refl, ◌∙◌, inl, inr, true, false, none, some, [], ◌∷◌, ◌++◌, ◌&&◌, ◌==◌, leb, ltb,
  length, arith, has, Bool-cases,
}
use spacefish.Config.{path_max}
use spacefish.Text.{CString}
use spacefish.Path.{slash, dot, char_at, before_slash, built, in_buffer, at_slash, build_abs_path}

-- A path from the working directory that begins with a name, other than "..": "name" or ".name".
abbrev pub Named : CString → Type 0
Named path =
    (char_at path 0 ≢ slash)
    × ((char_at path 0 ≡ dot) → (char_at path 1 ≢ dot) × (char_at path 1 ≢ slash))

-- The path `r` is that of `path`, seen from the directory `cwd`. The directory above is `up`, where `cwd`
-- is `up`, a '/' and a name; of ".." that of a directory of the root is left out.
pub data Resolves : (cwd path : CString) → CString → Type 0 where
  name : {cwd path : CString} → Named path → Resolves cwd path (cwd ++ slash ∷ path)
  dot_name : {cwd rest : CString} → Resolves cwd (dot ∷ slash ∷ rest) (cwd ++ slash ∷ rest)
  above_name :
      (up last : CString) {rest : CString}
      → has slash last ≡ false
      → Resolves (up ++ slash ∷ last) (dot ∷ dot ∷ slash ∷ rest) (up ++ slash ∷ rest)
  above :
      (up last : CString)
      → has slash last ≡ false
      → up ≢ []
      → Resolves (up ++ slash ∷ last) (dot ∷ dot ∷ []) up

before_slash-none : (last : CString) → has slash last ≡ false → before_slash last ≡ none
unfolding before_slash
before_slash-none [] h = refl
before_slash-none (c ∷ last) h = ground (arith, before_slash-none last (ground arith))

before_slash-append :
    (up last : CString) → has slash last ≡ false → before_slash (up ++ slash ∷ last) ≡ some up
unfolding before_slash
before_slash-append [] last h = rw (before_slash-none last h) refl
before_slash-append (c ∷ up) last h = rw (before_slash-append up last h) refl

in_buffer-built : (r : CString) → length r < path_max → in_buffer r ≡ built r
in_buffer-built r h = let fits : leb path_max (length r) ≡ false = ground arith in rw fits refl

at_slash-append :
    (f : CString → CString) (up last : CString)
    → has slash last ≡ false
    → at_slash (up ++ slash ∷ last) f ≡ in_buffer (f up)
at_slash-append f up last h = rw (at_slash, before_slash-append up last h) refl

-- The path that `build_abs_path` builds is that of the path given, as seen from the working directory
-- that `getcwd` returns: for "name" and "./name" the directory, '/' and the name, for "../name" the
-- directory above, '/' and the name, for ".." the directory above; where neither the path given nor
-- that path fills a buffer of PATH_MAX bytes.
pub build_abs_path-Resolves :
    {cwd path r : CString}
    → Resolves cwd path r
    → length path < path_max
    → length r < path_max
    → build_abs_path (some cwd) path ≡ built r
unfolding build_abs_path
build_abs_path-Resolves {cwd} {path} {r} (name (a, b)) short fits =
    let small : ltb path_max (length path) ≡ false = ground arith in
    let off : (ltb 1 (length path) && false) ≡ false = ground arith in
    let no_slash : (char_at path 0 == slash) ≡ false = ground arith in
    elim (Bool-cases (char_at path 0 == dot)) [
      | inl dotted ↦
          let (c, d) = b (ground arith) in
          let no_dot : (char_at path 1 == dot) ≡ false = ground arith in
          let no_slash' : (char_at path 1 == slash) ≡ false = ground arith in
          rw (small, no_slash, dotted, no_dot, no_slash', off) (in_buffer-built r fits)
      | inr plain ↦ rw (small, no_slash, plain, off) (in_buffer-built r fits)
    ]
build_abs_path-Resolves {r = r} (dot_name {cwd} {rest}) short fits =
    let small : ltb path_max (length (dot ∷ slash ∷ rest)) ≡ false = ground arith in
    let room : leb path_max (length (dot ∷ slash ∷ rest)) ≡ false = ground arith in
    let more : ltb 1 (length (dot ∷ slash ∷ rest)) ≡ true = ground arith in
    rw (small, room, more) (in_buffer-built r fits)
build_abs_path-Resolves {r = r} (above_name up last {rest} h) short fits =
    let small : ltb path_max (length (dot ∷ dot ∷ slash ∷ rest)) ≡ false = ground arith in
    let room : leb path_max (length (dot ∷ dot ∷ slash ∷ rest)) ≡ false = ground arith in
    let more : ltb 1 (length (dot ∷ dot ∷ slash ∷ rest)) ≡ true = ground arith in
    rw (small, room, more)
      (at_slash-append (λ r. r ++ slash ∷ rest) up last h ∙ in_buffer-built r fits)
build_abs_path-Resolves {r = r} (above up last h ne) short fits =
    at_slash-append (λ r. r) up last h ∙ in_buffer-built r fits
