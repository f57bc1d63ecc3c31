-- ===== src/Path.antt =====
-- `hlp__pathcopy` of src/helper.c: paths are put together and made absolute.
pub mod Copy
pub mod Normal
mod Tests
use fsvs.Prelude.{
  ℕ, zero, suc, ◌+◌, Bool, true, false, ◌||◌, Option, none, some, List, [], ◌∷◌, ◌++◌, ltb, ◌==◌,
  if◌then◌else◌, Bytes, codes, length, drop, strcmp_eq, strncmp_eq,
}

-- `dest` is held back to front, so that the character in front of it comes first.
unfoldable pub rev_onto : Bytes → Bytes → Bytes
rev_onto [] dest = dest
rev_onto (c ∷ s) dest = rev_onto s (c ∷ dest)

-- `strrchr`: up to the last "/" that was written, without it; or nothing.
unfoldable pub to_separator : Bytes → Bytes
to_separator [] = []
to_separator (c ∷ dest) = let rest = to_separator dest in if c == b'/' then dest else rest

-- Behind a "/": `had_path`, what is written, and what is left.
unfoldable pub behind_separator : Bytes → Bytes → Bool × Bytes × Bytes
unfolding to_separator
behind_separator dest src =
    if strncmp_eq src (codes "./") 2
    then (true, dest, drop 1 src)
    else if strcmp_eq src (codes ".")
    then (true, (if ltb 1 (length dest) then drop 1 dest else dest), [])
    else if strncmp_eq src (codes "../") 3 || strcmp_eq src (codes "..")
    then (false, to_separator (drop 1 dest), drop 2 src)
    else (true, dest, src)

-- The loop; `none` without fuel.
unfoldable pub copy : ℕ → Bool → Bytes → Bytes → Option Bytes
unfolding behind_separator
copy zero had_path dest src = none
copy (suc fuel) had_path dest [] = some dest
copy (suc fuel) had_path dest (c ∷ src) =
    let (had_path', dest', src') = behind_separator (if had_path then dest else c ∷ dest) src in
    let separator = copy fuel had_path' dest' src' in
    let other = copy fuel false (c ∷ dest) src in if c == b'/' then separator else other

-- The characters of the arguments in a row, which `Increment` gives.
unfoldable pub joined : List Bytes → Bytes
joined [] = []
joined (a ∷ args) = a ++ joined args

unfoldable pub is_absolute : Bytes → Bool
is_absolute [] = false
is_absolute (c ∷ s) = c == b'/'

-- The start path without the separators at its end.
unfoldable pub without_separators : Bytes → Bytes
without_separators [] = []
without_separators (c ∷ dest) =
    let rest = without_separators dest in if c == b'/' then rest else c ∷ dest

abbrev pub finished : Option Bytes → Option Bytes
finished none = none
finished (some dest) = some (rev_onto dest [])

-- `hlp__pathcopy`
unfoldable pub pathcopy : Bytes → List Bytes → Option Bytes
unfolding rev_onto copy joined is_absolute without_separators
pathcopy start_path args =
    let text = joined args in
    finished (
      if is_absolute text
      then copy (length text + 1) false [] text
      else copy (length text + 2) false (without_separators (rev_onto start_path [])) (b'/' ∷ text))
