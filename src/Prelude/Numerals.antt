-- ===== src/Prelude/Numerals.antt =====
-- Numbers as text: the conversions of `printf` and of `strtoul`, to a base from 2 to 16.
pub mod Digits
pub mod Reading
pub mod Lengths
use Prim.Native.Nat.{ℕ, zero, suc, ◌+◌, ◌-◌, ◌*◌, ◌/◌, ◌%◌, ◌^◌}
use mathlib.Core.Bool.{Bool, true, false, ◌&&◌, ◌||◌}
use mathlib.Core.List.{List, [], ◌∷◌, ◌++◌}
use mathlib.Core.Option.{Option, none, some}
use fsvs.Prelude.Tests.{ltb, leb, ◌==◌, if◌then◌else◌}
use fsvs.Prelude.Lists.{length, replicate}
use fsvs.Prelude.Strings.{Bytes}

-- `isspace`
abbrev pub is_space : ℕ → Bool
is_space c = c == 32 || (leb 9 c && leb c 13)

-- `hlp__skip_ws`
unfoldable pub skip_ws : Bytes → Bytes
skip_ws [] = []
skip_ws (c ∷ s) = if is_space c then skip_ws s else c ∷ s

-- The digits of printf, and their values; 36 for what is no digit to any base.
unfoldable pub digit : ℕ → ℕ
digit x = if ltb x 10 then b'0' + x else b'a' + (x - 10)

unfoldable pub digit_value : ℕ → ℕ
digit_value c =
    if leb b'0' c && leb c b'9'
    then c - b'0'
    else if leb b'a' c && leb c b'z'
    then c - b'a' + 10
    else if leb b'A' c && leb c b'Z'
    then c - b'A' + 10
    else 36

-- The digits of a number, in front of a text. One round for each digit: the number bounds them.
unfoldable pub print_onto : ℕ → ℕ → ℕ → Bytes → Bytes
unfolding digit
print_onto zero base n acc = acc
print_onto (suc fuel) base n acc =
    let more = print_onto fuel base (n / base) (digit (n % base) ∷ acc) in
    if ltb n base then digit n ∷ acc else more

unfoldable pub print : ℕ → ℕ → Bytes
unfolding print_onto
print base n = print_onto (suc n) base n []

-- A minimal width.
abbrev pub padded : ℕ → ℕ → Bytes → Bytes
padded c width s = replicate (width - length s) c ++ s

-- A signed conversion of 64 bits, given as the bits.
unfoldable pub print_signed : ℕ → Bytes
unfolding print
print_signed n = if ltb n (2 ^ 63) then print 10 n else b'-' ∷ print 10 (2 ^ 64 - n)

-- The digits that a text begins with, behind those that have the value `n`.
unfoldable pub digits : ℕ → ℕ → Bytes → ℕ × Bytes
unfolding digit_value
digits base n [] = (n, [])
digits base n (c ∷ s) =
    let rest = digits base (n * base + digit_value c) s in
    if ltb (digit_value c) base then rest else (n, c ∷ s)

unfoldable pub some_digits : ℕ → Bytes → Option (ℕ × Bytes)
unfolding digits
some_digits base [] = none
some_digits base (c ∷ s) = if ltb (digit_value c) base then some (digits base 0 (c ∷ s)) else none

-- "0x" is skipped if a digit follows.
unfoldable pub skip_prefix : ℕ → Bytes → Bytes
unfolding digit_value
skip_prefix base [] = []
skip_prefix base (z ∷ []) = z ∷ []
skip_prefix base (z ∷ x ∷ []) = z ∷ x ∷ []
skip_prefix base (z ∷ x ∷ h ∷ s) =
    if base == 16 && z == b'0' && (x == b'x' || x == b'X') && ltb (digit_value h) 16
    then h ∷ s
    else z ∷ x ∷ h ∷ s

-- An `unsigned long`: too large values become ULONG_MAX, a sign negates.
abbrev pub as_ulong : Bool → ℕ → ℕ
as_ulong negative n =
    if ltb n (2 ^ 64) then (if negative then (2 ^ 64 - n) % 2 ^ 64 else n) else 2 ^ 64 - 1

-- A `long`, as its bits: what does not fit becomes LONG_MAX or LONG_MIN.
abbrev pub as_long : Bool → ℕ → ℕ
as_long true n = if ltb n (2 ^ 63) then (2 ^ 64 - n) % 2 ^ 64 else 2 ^ 63
as_long false n = if ltb n (2 ^ 63) then n else 2 ^ 63 - 1

module _ (convert : Bool → ℕ → ℕ) where
  abbrev pub with_sign : Bool → Option (ℕ × Bytes) → Option (ℕ × Bytes)
  with_sign negative none = none
  with_sign negative (some (n, rest)) = some (convert negative n, rest)

  unfoldable pub signed_digits : ℕ → Bytes → Option (ℕ × Bytes)
  unfolding some_digits skip_prefix
  signed_digits base [] = none
  signed_digits base (c ∷ s) =
      if c == b'-'
      then with_sign true (some_digits base (skip_prefix base s))
      else if c == b'+'
      then with_sign false (some_digits base (skip_prefix base s))
      else with_sign false (some_digits base (skip_prefix base (c ∷ s)))

-- `strtoul` and `strtol`: the value and what follows, or `none` if there is no number: then the end pointer is the
-- text itself.
unfoldable pub strtoul : ℕ → Bytes → Option (ℕ × Bytes)
unfolding skip_ws signed_digits
strtoul base s = signed_digits as_ulong base (skip_ws s)

unfoldable pub strtol : ℕ → Bytes → Option (ℕ × Bytes)
unfolding skip_ws signed_digits
strtol base s = signed_digits as_long base (skip_ws s)
