-- ===== src/Ignore/Translate/Tokens.antt =====
-- What the translation of src/ignore.c makes of the parts that its comments name: plain characters, `?`,
-- `*`, `**`, and `**` for a row of directories.
use fsvs.Prelude.{
  ℕ, zero, suc, ◌+◌, ◌-◌, ◌*◌, ◌≤◌, ◌≡◌, refl, sym, ap, ◌∙◌, ◌⊎◌, inl, inr, Bool, true, false, ◌&&◌,
  ◌||◌, not, some, List, [], ◌∷◌, ◌++◌, ◌==◌, if◌then◌else◌, Bytes, length, arith,
}
use mathlib.Core.List.{append-nil}
use fsvs.Ignore.Translate.{
  starts_with, skip_stars, round, text, prepend, last_of, translate, anchored, anchor,
  compile_shell, is_plain, dirs_text, any_text, star_text,
}
use fsvs.Ignore.Translate.Room.{translate_end, translate_more}

pub data Token : Type 0 where
  letter : ℕ → Token
  any_letter : Token
  in_directory : Token
  anything : Token
  directories : Token

-- How a token is written in a pattern.
unfoldable pub print_onto : List Token → Bytes
print_onto [] = []
print_onto (letter c ∷ ts) = c ∷ print_onto ts
print_onto (any_letter ∷ ts) = b'?' ∷ print_onto ts
print_onto (in_directory ∷ ts) = b'*' ∷ print_onto ts
print_onto (anything ∷ ts) = b'*' ∷ b'*' ∷ print_onto ts
print_onto (directories ∷ ts) = b'*' ∷ b'*' ∷ b'/' ∷ print_onto ts

-- The regular expression for it.
unfoldable pub meaning : List Token → Bytes
meaning [] = []
meaning (letter c ∷ ts) = (if is_plain c then c ∷ [] else b'\\' ∷ c ∷ []) ++ meaning ts
meaning (any_letter ∷ ts) = b'.' ∷ meaning ts
meaning (in_directory ∷ ts) = star_text ++ meaning ts
meaning (anything ∷ ts) = any_text ++ meaning ts
meaning (directories ∷ ts) = dirs_text ++ meaning ts

abbrev pub is_letter : ℕ → Bool
is_letter c = not (c == b'*' || c == b'?' || c == b'[' || c == b'\\')

-- Whether a text that is printed begins with a star, or with a "/".
abbrev pub begins_star : List Token → Bool
begins_star (in_directory ∷ ts) = true
begins_star (anything ∷ ts) = true
begins_star (directories ∷ ts) = true
begins_star _ = false

abbrev pub begins_slash : List Token → Bool
begins_slash (letter c ∷ ts) = c == b'/'
begins_slash _ = false

-- Patterns that are read back as these tokens: `prev` tells whether a "/" stands before.
abbrev pub IsPattern : Bool → List Token → Type 0
IsPattern slash [] = Unit
IsPattern slash (letter c ∷ ts) = (is_letter c ≡ true) × IsPattern (c == b'/') ts
IsPattern slash (any_letter ∷ ts) = IsPattern false ts
IsPattern slash (in_directory ∷ ts) = (begins_star ts ≡ false) × IsPattern false ts
IsPattern slash (anything ∷ ts) =
    (begins_star ts ≡ false) × ((slash && begins_slash ts) ≡ false) × IsPattern false ts
IsPattern slash (directories ∷ ts) = (slash ≡ true) × IsPattern false ts

starts_with-begins_star :
    (slash : Bool) (ts : List Token)
    → IsPattern slash ts
    → begins_star ts ≡ false
    → starts_with b'*' (print_onto ts) ≡ false
unfolding starts_with print_onto
starts_with-begins_star slash [] w h = refl
starts_with-begins_star slash (letter c ∷ ts) w h = ground arith
starts_with-begins_star slash (any_letter ∷ ts) w h = refl
starts_with-begins_star slash (in_directory ∷ ts) w h = cc
starts_with-begins_star slash (anything ∷ ts) w h = cc
starts_with-begins_star slash (directories ∷ ts) w h = cc

starts_with-begins_slash :
    (ts : List Token) → begins_slash ts ≡ false → starts_with b'/' (print_onto ts) ≡ false
unfolding starts_with print_onto
starts_with-begins_slash [] h = refl
starts_with-begins_slash (letter c ∷ ts) h = ground arith
starts_with-begins_slash (any_letter ∷ ts) h = refl
starts_with-begins_slash (in_directory ∷ ts) h = refl
starts_with-begins_slash (anything ∷ ts) h = refl
starts_with-begins_slash (directories ∷ ts) h = refl

skip_stars_none : (src : Bytes) → starts_with b'*' src ≡ false → skip_stars src ≡ src
unfolding skip_stars starts_with
skip_stars_none [] h = refl
skip_stars_none (c ∷ src) h = ground arith

print_onto-cons :
    (t : Token) (ts : List Token) → (d : ℕ) × (more : Bytes) × (print_onto (t ∷ ts) ≡ d ∷ more)
unfolding print_onto
print_onto-cons (letter c) ts = (c, print_onto ts, refl)
print_onto-cons any_letter ts = (b'?', print_onto ts, refl)
print_onto-cons in_directory ts = (b'*', print_onto ts, refl)
print_onto-cons anything ts = (b'*', b'*' ∷ print_onto ts, refl)
print_onto-cons directories ts = (b'*', b'*' ∷ b'/' ∷ print_onto ts, refl)

-- A round that reads one token, and the rounds for the others.
translate_token :
    (fuel prev room c : ℕ) (src out : Bytes) (ts : List Token)
    → round false prev room c src ≡ some (out, print_onto ts, false)
    → length out + 18 ≤ room
    → ((ts ≡ [])
        ⊎ (translate fuel false (last_of prev out) (room - length out) (print_onto ts)
            ≡ text (meaning ts)))
    → translate (suc fuel) false prev room (c ∷ src) ≡ text (out ++ meaning ts)
translate_token fuel prev room c src out [] e h rest =
    unfold print_onto meaning in
    translate_end fuel false prev room c src out false e h ∙ ap text (sym (append-nil out))
translate_token fuel prev room c src out (t ∷ ts) e h (inl none_left) = ground arith
translate_token fuel prev room c src out (t ∷ ts) e h (inr rest) =
    let (d, more, p) = print_onto-cons t ts in
    translate_more fuel false prev room c src out d more false (rw p at e) h
    ∙ ap (prepend out) (rw p at rest)

abbrev letter_text : ℕ → Bytes
letter_text c = if is_plain c then c ∷ [] else b'\\' ∷ c ∷ []

round-letter :
    (prev room c : ℕ) (src : Bytes)
    → is_letter c ≡ true
    → round false prev room c src ≡ some (letter_text c, src, false)
unfolding round
round-letter prev room c src h = ground arith

round-in_directory :
    (prev room : ℕ) (src : Bytes)
    → starts_with b'*' src ≡ false
    → round false prev room b'*' src ≡ some (star_text, src, false)
unfolding round
round-in_directory prev room [] h = refl
round-in_directory prev room (c ∷ src) h = ground arith

round-anything :
    (prev room : ℕ) (src : Bytes)
    → starts_with b'*' src ≡ false
    → (prev == b'/' && starts_with b'/' src) ≡ false
    → round false prev room b'*' (b'*' ∷ src) ≡ some (any_text, src, false)
unfolding round
round-anything prev room [] h k = ground arith
round-anything prev room (c ∷ src) h k = ground arith

round-directories :
    (prev room : ℕ) (src : Bytes)
    → (prev == b'/') ≡ true
    → round false prev room b'*' (b'*' ∷ b'/' ∷ src) ≡ some (dirs_text, src, false)
unfolding round
round-directories prev room src h = ground arith

last_of-letter : (prev c : ℕ) → last_of prev (letter_text c) ≡ c
last_of-letter prev c = ground arith

length-letter_text : (c : ℕ) → length (letter_text c) ≤ 2
length-letter_text c = ground arith

-- The loop reads the tokens one by one.
translate-print_onto :
    (ts : List Token) (fuel prev room : ℕ) (slash : Bool)
    → IsPattern slash ts
    → (prev == b'/') ≡ slash
    → length (print_onto ts) ≤ fuel
    → 5 * length (print_onto ts) + 18 ≤ room
    → (ts ≡ []) ⊎ (translate fuel false prev room (print_onto ts) ≡ text (meaning ts))
unfolding print_onto meaning
translate-print_onto [] fuel prev room slash w p h k = inl refl
translate-print_onto (letter c ∷ ts) (suc fuel) prev room slash w p h k = inr (
    translate_token fuel prev room c (print_onto ts) (letter_text c) ts
      (round-letter prev room c (print_onto ts) w.0) (omega (arith, length-letter_text c))
      (translate-print_onto ts fuel (last_of prev (letter_text c)) (room - length (letter_text c))
        (c == b'/') w.1 (ap (λ d. d == b'/') (last_of-letter prev c)) (omega arith)
        (omega (arith, length-letter_text c))))
translate-print_onto (any_letter ∷ ts) (suc fuel) prev room slash w p h k = inr (
    translate_token fuel prev room b'?' (print_onto ts) (b'.' ∷ []) ts (unfold round in refl)
      (omega arith)
      (translate-print_onto ts fuel b'.' (room - 1) false w refl (omega arith) (omega arith)))
translate-print_onto (in_directory ∷ ts) (suc fuel) prev room slash w p h k = inr (
    translate_token fuel prev room b'*' (print_onto ts) star_text ts
      (round-in_directory prev room (print_onto ts) (starts_with-begins_star false ts w.1 w.0))
      (omega arith)
      (translate-print_onto ts fuel b'*' (room - 5) false w.1 refl (omega arith) (omega arith)))
translate-print_onto (anything ∷ ts) (suc fuel) prev room slash w p h k = inr (
    translate_token fuel prev room b'*' (b'*' ∷ print_onto ts) any_text ts
      (round-anything prev room (print_onto ts) (starts_with-begins_star false ts w.2 w.0)
        (ground (arith, starts_with-begins_slash ts)))
      (omega arith)
      (translate-print_onto ts fuel b'*' (room - 2) false w.2 refl (omega arith) (omega arith)))
translate-print_onto (directories ∷ ts) (suc fuel) prev room slash w p h k = inr (
    translate_token fuel prev room b'*' (b'*' ∷ b'/' ∷ print_onto ts) dirs_text ts
      (round-directories prev room (print_onto ts) (p ∙ w.0)) (omega arith)
      (translate-print_onto ts fuel b'?' (room - 6) false w.1 refl (omega arith) (omega arith)))
translate-print_onto (t ∷ ts) zero prev room slash w p h k =
    let (d, more, e) = print_onto-cons t ts in absurd (omega (arith, ap length e))

from_start :
    (ts : List Token) (fuel room : ℕ)
    → IsPattern true ts
    → length (print_onto ts) + 2 ≤ fuel
    → 5 * length (print_onto ts) + 26 ≤ room
    → let pattern = letter b'.' ∷ letter b'/' ∷ ts in
      translate fuel false 0 room (print_onto pattern) ≡ text (meaning pattern)
unfolding print_onto meaning
from_start ts zero room w h k = absurd (omega arith)
from_start ts (suc fuel) room w h k =
    translate_token fuel 0 room b'.' (b'/' ∷ print_onto ts) (letter_text b'.') (letter b'/' ∷ ts)
      (unfold round in refl) (omega arith)
      (translate-print_onto (letter b'/' ∷ ts) fuel b'.' (room - 2) false (refl, w) refl
        (omega arith) (omega arith))

-- The regular expression for a whole pattern, with what anchors it.
abbrev pub anchored_meaning : List Token → Bytes
anchored_meaning ts = anchored (print_onto ts) (meaning ts)

-- A shell pattern that is written as "./" and then plain characters, `?`, `*` in a directory, `**`, and
-- `**/` behind a "/" becomes the regular expressions of these parts in a row, anchored at the end.
pub compile_shell-print_onto :
    (ts : List Token)
    → IsPattern true ts
    → let pattern = letter b'.' ∷ letter b'/' ∷ ts in
      compile_shell (print_onto pattern) ≡ text (anchored_meaning pattern)
compile_shell-print_onto ts w =
    let pattern = letter b'.' ∷ letter b'/' ∷ ts in
    unfold compile_shell in
    ap (anchor (print_onto pattern)) (
      from_start ts (length (print_onto pattern) + 1) (5 * length (print_onto pattern) + 16) w
        (unfold print_onto in (omega arith)) (unfold print_onto in (omega arith)))
