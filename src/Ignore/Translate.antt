-- ===== src/Ignore/Translate.antt =====
-- `ign___translate_bracketed_expr` and the translation in `ign__compile_pattern` of src/ignore.c: a
-- shell pattern becomes a regular expression for PCRE.
pub mod Room
pub mod Tokens
use fsvs.Prelude.{
  ℕ, zero, suc, ◌+◌, ◌-◌, ◌*◌, Bool, true, false, not, ◌&&◌, ◌||◌, Option, none, some, List, [],
  ◌∷◌, ◌++◌, ltb, leb, ◌==◌, if◌then◌else◌, Bytes, codes, length, drop, strncmp_eq,
}

-- One character of a bracket expression. `pos` is `pos_in_bracket_expr` + 1, so 0 is outside of it. The
-- character that is written, the new position, and whether the next character is escaped.
unfoldable pub bracket_char : Bool → ℕ → ℕ → ℕ × ℕ × Bool
bracket_char true pos c = (c, pos, false)
bracket_char false pos c =
    if pos == 1 && (c == b'!' || c == b'^')
    then (b'^', pos, false)
    else (c, (if c == b']' && leb 2 pos then 0 else pos + 1), c == b'\\')

-- The loop of `ign___translate_bracketed_expr`, with `room` characters left up to `end_of_buffer`: what
-- is left of the source, and what is written; or `none` for ENOSPC.
unfoldable pub bracketed : Bool → ℕ → ℕ → Bytes → Option (Bytes × Bytes)
unfolding bracket_char
bracketed backslashed pos room [] = some ([], [])
bracketed backslashed pos room (c ∷ src) =
    let (o, pos', backslashed') = bracket_char backslashed pos c in
    let further = bracketed backslashed' pos' (room - 1) src in
    if ltb room 6
    then none
    else if pos' == 0
    then some (src, o ∷ [])
    else elim further [ none ↦ none | some (rest, out) ↦ some (rest, o ∷ out) ]

-- Characters that stand for themselves.
abbrev pub is_plain : ℕ → Bool
is_plain c =
    (leb b'0' c && leb c b'9')
    || (leb b'a' c && leb c b'z')
    || (leb b'A' c && leb c b'Z')
    || c == b'/'
    || c == b'-'

unfoldable pub starts_with : ℕ → Bytes → Bool
starts_with c [] = false
starts_with c (d ∷ s) = c == d

unfoldable pub skip_stars : Bytes → Bytes
skip_stars [] = []
skip_stars (c ∷ s) = if c == b'*' then skip_stars s else c ∷ s

-- The text that `**/` below a directory is replaced by, the one for `**`, and that for `*`.
abbrev pub dirs_text : Bytes
dirs_text = codes "(.*/)?"

abbrev pub any_text : Bytes
any_text = codes ".*"

abbrev pub star_text : Bytes
star_text = codes "[^/]*"

-- `case '*'`, behind the first star: what is written, and what is left of the source.
unfoldable pub star : ℕ → Bytes → Bytes × Bytes
unfolding starts_with skip_stars
star prev src =
    if starts_with b'*' src
    then (if prev == b'/' && starts_with b'/' (drop 1 src)
        then (dirs_text, drop 2 src)
        else (any_text, skip_stars src))
    else (star_text, src)

-- The `switch`, for the character `c` and the source behind it. `prev` is `dest[-1]`. The result is what
-- is written, what is left, and `backslashed`.
unfoldable pub piece : ℕ → ℕ → ℕ → Bytes → Option (Bytes × Bytes × Bool)
unfolding star bracketed
piece prev room c src =
    if c == b'*'
    then (let (out, rest) = star prev src in some (out, rest, false))
    else if c == b'?'
    then some (b'.' ∷ [], src, false)
    else if c == b'['
    then elim (bracketed false 0 room (c ∷ src)) [
      | none ↦ none
      | some (rest, out) ↦ some (out, rest, false)
    ]
    else if is_plain c
    then some (c ∷ [], src, false)
    else if c == b'\\'
    then some (c ∷ [], src, true)
    else some (b'\\' ∷ c ∷ [], src, false)

-- One round of the loop.
unfoldable pub round : Bool → ℕ → ℕ → ℕ → Bytes → Option (Bytes × Bytes × Bool)
unfolding piece
round true prev room c src = some (c ∷ [], src, false)
round false prev room c src = piece prev room c src

-- The text that comes out; ENOSPC; a read behind the end of the source; or the end of the fuel.
pub data Outcome : Type 0 where
  text : Bytes → Outcome
  enospc fault endless : Outcome

abbrev pub prepend : Bytes → Outcome → Outcome
prepend out (text t) = text (out ++ t)
prepend out other = other

abbrev pub last_of : ℕ → Bytes → ℕ
last_of c [] = c
last_of c (d ∷ s) = last_of d s

-- The loop of `ign__compile_pattern`.
unfoldable pub translate : ℕ → Bool → ℕ → ℕ → Bytes → Outcome
unfolding round
translate zero backslashed prev room src = endless
translate (suc fuel) backslashed prev room [] = fault
translate (suc fuel) backslashed prev room (c ∷ src) = elim (round backslashed prev room c src) [
  | none ↦ enospc
  | some (out, rest, backslashed') ↦
      let room' = room - length out in
      if ltb room' 18 then enospc else elim rest [
        | [] ↦ text out
        | d ∷ more ↦ prepend out (translate fuel backslashed' (last_of prev out) room' (d ∷ more))
      ]
]

-- What is written behind the loop: `$`, which `($|/)` replaces together with the character before it
-- where the pattern ends in a `/`.
unfoldable pub all_but_last : Bytes → Bytes
all_but_last [] = []
all_but_last (c ∷ []) = []
all_but_last (c ∷ d ∷ s) = c ∷ all_but_last (d ∷ s)

unfoldable pub anchored : Bytes → Bytes → Bytes
unfolding all_but_last
anchored pattern out =
    if last_of 0 pattern == b'/' then all_but_last out ++ codes "($|/)" else out ++ codes "$"

abbrev pub anchor : Bytes → Outcome → Outcome
anchor pattern (text t) = text (anchored pattern t)
anchor pattern other = other

-- `PT_SHELL`
unfoldable pub compile_shell : Bytes → Outcome
unfolding translate anchored
compile_shell pattern =
    anchor pattern (translate (length pattern + 1) false 0 (5 * length pattern + 16) pattern)

-- The source of a `PT_SHELL_ABS` pattern behind what is stripped; `none` where that is behind its end.
-- `warned` tells whether `wa__warn` lets a pattern pass that is not below the working copy.
pub data Stripped : Type 0 where
  rest_is : Bytes → Stripped
  behind_end refused : Stripped

unfoldable pub strip_wc_path : Bytes → Bool → Bytes → Stripped
strip_wc_path wc_path warned pattern =
    if strncmp_eq pattern wc_path (length wc_path)
    then (let n = 1 + (if length wc_path == 1 then 0 else length wc_path) in
        if ltb (length pattern) n then behind_end else rest_is (drop n pattern))
    else if strncmp_eq pattern (codes "/**") 3
    then rest_is (drop 1 pattern)
    else if warned
    then rest_is pattern
    else refused

-- `PT_SHELL_ABS`
pub data Absolute : Type 0 where
  compiled : Outcome → Absolute
  einval : Absolute

unfoldable pub compile_shell_abs : Bytes → Bool → Bytes → Absolute
unfolding strip_wc_path translate anchored
compile_shell_abs wc_path warned pattern = elim (strip_wc_path wc_path warned pattern) [
  | refused ↦ einval
  | behind_end ↦ compiled fault
  | rest_is src ↦ compiled (
      anchor pattern (
        prepend (codes "./") (translate (length src + 1) false b'/' (5 * length pattern + 14) src)))
]
