-- ===== src/Prelude/Numerals/Reading.antt =====
-- What `strtoul` makes of a number that `printf` has written.
use fsvs.Prelude.Tests.{ltb, Bool-cases, lt→ltb, ltb→le}
use mathlib.Core.List.{append_assoc}
use Prim.Native.Nat.{ℕ, suc, ◌+◌, ◌-◌, ◌%◌, ◌^◌, ◌≤◌, ◌<◌}
use mathlib.Core.Path.{◌≡◌, refl, ap, ◌∙◌}
use mathlib.Core.Logic.{inl, inr}
use mathlib.Core.Bool.{true, false}
use mathlib.Core.List.{[], ◌∷◌, ◌++◌}
use mathlib.Core.Option.{some}
use native.Mathlib.Omega.{arith}
use fsvs.Prelude.Lists.{length, replicate}
use fsvs.Prelude.Strings.{Bytes}
use fsvs.Prelude.Numerals.{
  digit_value, print_onto, print, padded, print_signed, digits, as_ulong, as_long, with_sign,
  signed_digits, strtoul, strtol,
}
use fsvs.Prelude.Numerals.Digits.{
  digits-print_onto, print_onto-IsNumeral, zeros-IsNumeral, digits-zeros, skip_ws-blanks,
  some_digits-numeral, signed_digits-numeral, strtoul-numeral, print_onto-append, digits_stop,
  IsNumeral, blanks-append,
}

-- What a conversion is written in front of: neither a digit nor an "x".
abbrev pub IsEnd : ℕ → Type 0
IsEnd c = digit_value c ≡ 36

module _ (b : ℕ) (two : 2 ≤ b) (sixteen : b ≤ 16) (n : ℕ) (word : n < 2 ^ 64) (c : ℕ) (rest : Bytes)
    (stop : IsEnd c) where
  printed : print b n ++ c ∷ rest ≡ print_onto (suc n) b n (c ∷ rest)
  unfolding print
  printed = print_onto-append b two sixteen (suc n) n [] (c ∷ rest)

  printed-IsNumeral : IsNumeral b (print b n ++ c ∷ rest)
  printed-IsNumeral = rw printed (
      print_onto-IsNumeral b two sixteen (suc n) n (c ∷ rest) (omega arith)
        (λ e. absurd (omega arith)))

  printed-digits : digits b 0 (print b n ++ c ∷ rest) ≡ (n, c ∷ rest)
  printed-digits = rw printed (
      digits-print_onto b two sixteen (suc n) n (c ∷ rest) (omega arith)
      ∙ digits_stop b n c rest (omega arith))

  small : with_sign as_ulong false (some (n, c ∷ rest)) ≡ some (n, c ∷ rest)
  small = rw (lt→ltb n (2 ^ 64) word) refl

  -- Behind `k` blanks.
  pub strtoul-print :
      (k : ℕ) → strtoul b (replicate k 32 ++ (print b n ++ c ∷ rest)) ≡ some (n, c ∷ rest)
  strtoul-print k =
      strtoul-numeral b two sixteen k (print b n ++ c ∷ rest) printed-IsNumeral
      ∙ ap (λ r. with_sign as_ulong false (some r)) printed-digits
      ∙ small

  -- With zeros in front.
  pub strtoul-zeros :
      (k : ℕ) → strtoul b (replicate k b'0' ++ (print b n ++ c ∷ rest)) ≡ some (n, c ∷ rest)
  strtoul-zeros k =
      strtoul-numeral b two sixteen 0 (replicate k b'0' ++ (print b n ++ c ∷ rest))
        (zeros-IsNumeral b two sixteen k (print b n ++ c ∷ rest) printed-IsNumeral)
      ∙ ap (λ r. with_sign as_ulong false (some r))
          (digits-zeros b two sixteen k (print b n ++ c ∷ rest) ∙ printed-digits)
      ∙ small

  -- To the minimal width.
  pub strtoul-padded :
      (k width : ℕ)
      → strtoul b (replicate k 32 ++ (padded 32 width (print b n) ++ c ∷ rest)) ≡ some (n, c ∷ rest)
  strtoul-padded k width =
      ap (strtoul b) (blanks-append k (width - length (print b n)) (print b n) (c ∷ rest))
      ∙ strtoul-print (k + (width - length (print b n)))

  pub strtoul-zero_padded :
      (width : ℕ) → strtoul b (padded b'0' width (print b n) ++ c ∷ rest) ≡ some (n, c ∷ rest)
  strtoul-zero_padded width =
      ap (strtoul b)
        (append_assoc (replicate (width - length (print b n)) b'0') (print b n) (c ∷ rest))
      ∙ strtoul-zeros (width - length (print b n))

  negated :
      (z : Bytes)
      → z ≡ print b n ++ c ∷ rest
      → signed_digits as_ulong b (b'-' ∷ z) ≡ some ((2 ^ 64 - n) % 2 ^ 64, c ∷ rest)
  unfolding signed_digits
  negated z e = rw e (
      ap (with_sign as_ulong true) (some_digits-numeral b two sixteen _ printed-IsNumeral)
      ∙ ap (λ r. with_sign as_ulong true (some r)) printed-digits
      ∙ rw (lt→ltb n (2 ^ 64) word) refl)

-- A signed number of 64 bits comes back as the same bits, whatever its sign.
pub strtoul-print_signed :
    (n : ℕ) (c : ℕ) (rest : Bytes) (k : ℕ)
    → n < 2 ^ 64
    → IsEnd c
    → strtoul 10 (replicate k 32 ++ (print_signed n ++ c ∷ rest)) ≡ some (n, c ∷ rest)
unfolding print_signed strtoul
strtoul-print_signed n c rest k word stop = elim (Bool-cases (ltb n (2 ^ 63))) [
  | inl e ↦ rw e (strtoul-print 10 (omega arith) (omega arith) n word c rest stop k)
  | inr e ↦ rw e (
      ap (signed_digits as_ulong 10) (
        skip_ws-blanks 10 (omega arith) (omega arith) k
          (b'-' ∷ (print 10 (2 ^ 64 - n) ++ c ∷ rest)))
      ∙ negated 10 (omega arith) (omega arith) (2 ^ 64 - n) (omega (arith, ltb→le n (2 ^ 63) e)) c
          rest stop (print 10 (2 ^ 64 - n) ++ c ∷ rest) refl
      ∙ ap (λ v. some (v, c ∷ rest)) (omega (arith, ltb→le n (2 ^ 63) e)))
]

-- A number below 2^63 is read by strtol, too.
pub strtol-print :
    (n : ℕ) (c : ℕ) (rest : Bytes)
    → n < 2 ^ 63
    → IsEnd c
    → strtol 10 (print 10 n ++ c ∷ rest) ≡ some (n, c ∷ rest)
unfolding strtol
strtol-print n c rest word stop =
    signed_digits-numeral 10 (omega arith) (omega arith) as_long (print 10 n ++ c ∷ rest)
      (printed-IsNumeral 10 (omega arith) (omega arith) n (omega arith) c rest stop)
    ∙ ap (λ r. with_sign as_long false (some r))
        (printed-digits 10 (omega arith) (omega arith) n (omega arith) c rest stop)
    ∙ rw (lt→ltb n (2 ^ 63) word) refl
