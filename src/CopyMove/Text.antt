-- ===== src/CopyMove/Text.antt =====
-- The text that stands for the source of a copy.
use fsvs.Prelude.{
  ℕ, ◌+◌, ◌^◌, ◌≤◌, ◌<◌, ◌≡◌, refl, ap, ◌∙◌, true, false, none, some, [], ◌∷◌, leb, Bytes, length,
  length-append, is_space, skip_ws, print, arith,
}
use fsvs.Prelude.Numerals.{digit_value}
use fsvs.Prelude.Numerals.Reading.{IsEnd, strtol-print}
use fsvs.Prelude.Numerals.Lengths.{print-length, print-longer}
use fsvs.CopyMove.{behind_revision, string_to_rev_path, rev_path_text, rev_path_to_string}

-- A URL is not empty, and does not begin with white space.
abbrev pub IsUrl : Bytes → Type 0
IsUrl [] = ⊥
IsUrl (c ∷ s) = is_space c ≡ false

text_length :
    (url : Bytes) (rev : ℕ)
    → length (rev_path_text url rev) ≡ length (print 10 rev) + 3 + length url
unfolding rev_path_text
text_length url rev = omega (arith, length-append (print 10 rev) (b' ' ∷ url))

not_too_long : (a b : ℕ) → b < a → leb a b ≡ false
not_too_long a b h = ground arith

too_long : (a b : ℕ) → a ≤ b → leb a b ≡ true
too_long a b h = ground arith

short_text :
    (url : Bytes) (rev : ℕ)
    → rev < 10 ^ 8
    → rev_path_to_string url rev ≡ some (rev_path_text url rev)
unfolding rev_path_to_string
short_text url rev h =
    rw
      (not_too_long (10 + 1 + length url + 1) (length (rev_path_text url rev))
        (omega (arith, text_length url rev, print-length 10 (omega arith) rev 7 h)))
      refl

space-IsEnd : IsEnd 32
unfolding digit_value
space-IsEnd = refl

url_kept : (url : Bytes) → IsUrl url → skip_ws (32 ∷ url) ≡ url
unfolding skip_ws
url_kept [] w = absurd w
url_kept (c ∷ s) w = rw w refl

-- A source that is written for a revision of at most eight digits fits into its buffer, and is read as the URL and the
-- revision. The URL is not empty, and does not begin with white space.
pub string_to_rev_path-rev_path_to_string :
    (url : Bytes) (rev : ℕ)
    → IsUrl url
    → rev < 10 ^ 8
    → (s : Bytes) × (rev_path_to_string url rev ≡ some s) × (string_to_rev_path s ≡ some (url, rev))
unfolding string_to_rev_path rev_path_text
string_to_rev_path-rev_path_to_string url rev w h = (
  rev_path_text url rev,
  short_text url rev h,
  ap behind_revision (strtol-print rev 32 url (omega arith) space-IsEnd)
      ∙ ap (λ t. some (t, rev)) (url_kept url w),
)

-- For a revision of nine digits or more the text does not fit, and the program ends at its BUG_ON, although there
-- is said to be room for ten digits.
pub rev_path_to_string-long :
    (url : Bytes) (rev : ℕ) → 10 ^ 8 ≤ rev → rev_path_to_string url rev ≡ none
unfolding rev_path_to_string
rev_path_to_string-long url rev h =
    rw
      (too_long (10 + 1 + length url + 1) (length (rev_path_text url rev))
        (omega (arith, text_length url rev, print-longer 10 (omega arith) rev 8 h)))
      refl
