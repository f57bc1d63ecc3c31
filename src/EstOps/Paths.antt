-- ===== src/EstOps/Paths.antt =====
-- `ops__calc_path_len`, `ops__build_path2`, `ops__build_path`, `ops__get_filename` and `ops___split_fnpart` of
-- src/est_ops.c: the paths of entries.
pub mod Built
mod Tests
use fsvs.Prelude.{
  ℕ, zero, suc, ◌+◌, ◌-◌, ◌%◌, ◌^◌, ◌||◌, ◌≡◌, Bool, true, false, Option, none, some, List, [], ◌∷◌,
  ◌++◌, ltb, leb, ◌==◌, if◌then◌else◌, Bytes, length, take,
}

-- An entry, as far as paths are concerned; `path_len` is 0 until it is known. A list of nodes is an entry
-- with its parents, up to the root.
pub record Node : Type 0 where
  pub name : Bytes
  pub path_len : ℕ

-- PATH_SEPARATOR
abbrev pub path_separator : ℕ
path_separator = b'/'

abbrev pub path_len_of : List Node → ℕ
path_len_of [] = 0
path_len_of (n ∷ ns) = n.path_len

-- The length, of 16 bits, is set in the entry, and in the parents that do not have it.
unfoldable pub calc_path_len : List Node → List Node
calc_path_len [] = []
calc_path_len (n ∷ []) = record n { path_len = length n.name % 2 ^ 16 } ∷ []
calc_path_len (n ∷ p ∷ ps) =
    let known = calc_path_len (p ∷ ps) in
    let parents = if p.path_len == 0 then known else p ∷ ps in
    record n { path_len = (path_len_of parents + 1 + length n.name) % 2 ^ 16 } ∷ parents

-- One level of `ops__build_path2`: what stands in the buffer behind it, with at most `max` characters and the
-- terminator at the end; `none` for the return value 0, and for a negative `l`, which `memcpy` does not take. A name
-- is taken in `l` characters.
abbrev pub put_name : Bytes → ℕ → Option Bytes → Option Bytes
put_name name l none = none
put_name name l (some path) = some (path ++ (take l name ++ path_separator ∷ []))

unfoldable pub build_path2 : ℕ → List Node → Option Bytes
build_path2 max [] = none
build_path2 max (n ∷ []) = if ltb max 2 then none else put_name n.name 1 (some [])
build_path2 max (n ∷ p ∷ ps) =
    let l = n.path_len - p.path_len - 1 in
    let parents = build_path2 (max - (l + 1)) (p ∷ ps) in
    if ltb n.path_len (p.path_len + 1) || ltb max (l + 1) then none else put_name n.name l parents

-- The part of `ops__build_path` behind the cache: the path and the lengths that are known then; `none` for the BUG.
-- The last separator is overwritten by the terminator.
abbrev pub cut_last : Option Bytes → Option Bytes
cut_last none = none
cut_last (some path) = some (take (length path - 1) path)

abbrev pub with_len : List Node → List Node
with_len ns = if path_len_of ns == 0 then calc_path_len ns else ns

unfoldable pub build_path : List Node → Option Bytes × List Node
unfolding calc_path_len build_path2
build_path ns =
    let known = with_len ns in (cut_last (build_path2 (path_len_of known + 1) known), known)

-- `ops__get_filename`: what follows the last separator.
abbrev pub behind_last : Bytes → Option Bytes → Bytes
behind_last s none = s
behind_last s (some rest) = rest

unfoldable pub last_part : Bytes → Option Bytes
last_part [] = none
last_part (c ∷ s) =
    let later = last_part s in
    elim later [ some rest ↦ some rest | none ↦ (if c == path_separator then some s else none) ]

unfoldable pub get_filename : Bytes → Bytes
unfolding last_part
get_filename path = behind_last path (last_part path)

-- `ops___split_fnpart`: the first part, and the rest behind the separators, if there is any.
unfoldable pub skip_separators : Bytes → Bytes
skip_separators [] = []
skip_separators (c ∷ s) = if c == path_separator then skip_separators s else c ∷ s

abbrev pub rest_of : Bytes → Option Bytes
rest_of [] = none
rest_of (c ∷ s) = some (c ∷ s)

unfoldable pub split_fnpart : Bytes → Bytes × Option Bytes
unfolding skip_separators
split_fnpart [] = ([], none)
split_fnpart (c ∷ s) =
    let (first, next) = split_fnpart s in
    if c == path_separator then ([], rest_of (skip_separators s)) else (c ∷ first, next)
