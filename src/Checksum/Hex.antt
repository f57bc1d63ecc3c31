-- ===== src/Checksum/Hex.antt =====
-- `cs__hex2val`, `cs__char2md5` and `cs__md5tohex` of src/checksum.c: digests as hexadecimal text.
use fsvs.Prelude.{
  ℕ, zero, suc, ◌+◌, ◌-◌, ◌*◌, ◌/◌, ◌%◌, ◌<◌, ◌≡◌, refl, ap, subst, ◌∙◌, inl, inr, ◌&&◌, Option,
  none, some, [], ◌∷◌, ◌++◌, ltb, leb, if◌then◌else◌, Bytes, length, arith, Bool-cases, All,
}

-- The table of `cs__hex2val`; `none` for -1. The NUL at the end of a text is no digit.
unfoldable pub hex2val : ℕ → Option ℕ
hex2val ch =
    if leb b'0' ch && leb ch b'9'
    then some (ch - b'0')
    else if leb b'A' ch && leb ch b'F'
    then some (ch - b'A' + 10)
    else if leb b'a' ch && leb ch b'f'
    then some (ch - b'a' + 10)
    else none

-- The loop of `cs__char2md5`, with `n` bytes to go: the bytes, and what is left of the text; `none` for EINVAL.
unfoldable pub char2bytes : ℕ → Bytes → Option (Bytes × Bytes)
unfolding hex2val
char2bytes zero input = some ([], input)
char2bytes (suc n) [] = none
char2bytes (suc n) (a ∷ []) = none
char2bytes (suc n) (a ∷ b ∷ input) =
    let further = char2bytes n input in
    elim (hex2val a) [
      | none ↦ none
      | some x ↦ elim (hex2val b) [
        | none ↦ none
        | some y ↦ elim further [ none ↦ none | some (md5, rest) ↦ some ((x * 16 + y) ∷ md5, rest) ]
      ]
    ]

-- APR_MD5_DIGESTSIZE
abbrev pub digest_size : ℕ
digest_size = 16

unfoldable pub char2md5 : Bytes → Option (Bytes × Bytes)
unfolding char2bytes
char2md5 input = char2bytes digest_size input

-- A digit of "%02x".
abbrev pub digit_of : ℕ → ℕ
digit_of x = if ltb x 10 then b'0' + x else b'a' + (x - 10)

-- `cs__md5tohex`
unfoldable pub md5tohex : Bytes → Bytes
md5tohex [] = []
md5tohex (x ∷ md5) = digit_of (x / 16) ∷ digit_of (x % 16) ∷ md5tohex md5

hex2val-digit_of : (x : ℕ) → x < 16 → hex2val (digit_of x) ≡ some x
unfolding hex2val
hex2val-digit_of x h = elim (Bool-cases (ltb x 10)) [
  | inl e ↦ rw (e, hex2val) (ground arith)
  | inr e ↦ rw (e, hex2val) (ground arith)
]

char2bytes_pair :
    (n a b x y : ℕ) (input md5 rest : Bytes)
    → hex2val a ≡ some x
    → hex2val b ≡ some y
    → char2bytes n input ≡ some (md5, rest)
    → char2bytes (suc n) (a ∷ b ∷ input) ≡ some ((x * 16 + y) ∷ md5, rest)
unfolding char2bytes
char2bytes_pair n a b x y input md5 rest e f g = rw (e, f, g, char2bytes) refl

char2bytes-md5tohex :
    (md5 rest : Bytes)
    → All (λ x. x < 256) md5
    → char2bytes (length md5) (md5tohex md5 ++ rest) ≡ some (md5, rest)
unfolding char2bytes md5tohex
char2bytes-md5tohex [] rest w = refl
char2bytes-md5tohex (x ∷ md5) rest (h, w) =
    char2bytes_pair (length md5) (digit_of (x / 16)) (digit_of (x % 16)) (x / 16) (x % 16)
      (md5tohex md5 ++ rest) md5 rest (hex2val-digit_of (x / 16) (omega arith))
      (hex2val-digit_of (x % 16) (omega arith)) (char2bytes-md5tohex md5 rest w)
    ∙ ap (λ y. some (y ∷ md5, rest)) (omega arith)

-- A digest that is written as text is read back, whatever stands behind it.
pub char2md5-md5tohex :
    (md5 rest : Bytes)
    → length md5 ≡ 16
    → All (λ x. x < 256) md5
    → char2md5 (md5tohex md5 ++ rest) ≡ some (md5, rest)
unfolding char2md5
char2md5-md5tohex md5 rest n w =
    subst (λ k. char2bytes k (md5tohex md5 ++ rest) ≡ some (md5, rest)) n
      (char2bytes-md5tohex md5 rest w)
