-- ===== src/Prelude/Numerals/Digits.antt =====
-- The digits that printf writes, and their values.
use native.Mathlib.Nat.{div-add-mod', div-lt_self, mod-lt}
use fsvs.Prelude.Tests.{ltb, ◌==◌, Bool-cases, lt→ltb, le→ltb, ltb→lt, ltb→le}
use mathlib.Core.List.{append_assoc}
use Prim.Native.Nat.{ℕ, zero, suc, ◌+◌, ◌*◌, ◌/◌, ◌%◌, ◌≤◌, ◌<◌}
use mathlib.Core.Path.{◌≡◌, refl, ap, ◌∙◌}
use mathlib.Core.Logic.{◌≢◌, inl, inr}
use mathlib.Core.Bool.{Bool, false}
use mathlib.Core.List.{[], ◌∷◌, ◌++◌}
use mathlib.Core.Option.{some}
use native.Mathlib.Omega.{arith}
use fsvs.Prelude.Lists.{replicate}
use fsvs.Prelude.Strings.{Bytes}
use fsvs.Prelude.Numerals.{
  is_space, skip_ws, digit, digit_value, print_onto, digits, some_digits, skip_prefix, as_ulong,
  with_sign, signed_digits, strtoul,
}

digit_value-digit : (x : ℕ) → x < 16 → digit_value (digit x) ≡ x
unfolding digit_value digit
digit_value-digit x h = ground arith

digits_step :
    (b n c : ℕ) (s : Bytes)
    → digit_value c < b
    → digits b n (c ∷ s) ≡ digits b (n * b + digit_value c) s
unfolding digits
digits_step b n c s h = rw (lt→ltb _ _ h)

pub digits_stop : (b n c : ℕ) (s : Bytes) → b ≤ digit_value c → digits b n (c ∷ s) ≡ (n, c ∷ s)
unfolding digits
digits_stop b n c s h = rw (le→ltb _ _ h)

module _ (b : ℕ) (two : 2 ≤ b) (sixteen : b ≤ 16) where
  digits-digit : (n x : ℕ) (s : Bytes) → x < b → digits b n (digit x ∷ s) ≡ digits b (n * b + x) s
  digits-digit n x s h =
      let e = digit_value-digit x (omega arith) in
      digits_step b n (digit x) s (omega (arith, e)) ∙ ap (λ v. digits b (n * b + v) s) e

  div-lt : (n fuel : ℕ) → b ≤ n → n < suc fuel → n / b < fuel
  div-lt n fuel h k = let p : n / b < n = div-lt_self (omega arith) (omega arith) in omega arith

  pub digits-print_onto :
      (fuel n : ℕ) (acc : Bytes) → n < fuel → digits b 0 (print_onto fuel b n acc) ≡ digits b n acc
  unfolding print_onto
  digits-print_onto zero n acc h = absurd (omega arith)
  digits-print_onto (suc fuel) n acc h = elim (Bool-cases (ltb n b)) [
    | inl e ↦
        rw (e, print_onto)
          (digits-digit 0 n acc (ltb→lt n b e) ∙ ap (λ v. digits b v acc) (omega arith))
    | inr e ↦
        rw (e, print_onto)
          (digits-print_onto fuel (n / b) (digit (n % b) ∷ acc) (div-lt n fuel (ltb→le n b e) h)
            ∙ digits-digit (n / b) (n % b) acc (mod-lt n (omega arith))
            ∙ ap (λ v. digits b v acc) (div-add-mod' n b))
  ]

-- A text that begins with a digit, and with no "x" behind it, so that `strtoul` takes it from the first character on.
abbrev NoPrefix : Bytes → Type 0
NoPrefix [] = Unit
NoPrefix (c ∷ s) = digit_value c ≢ 33

abbrev pub IsNumeral : ℕ → Bytes → Type 0
IsNumeral b s = (c : ℕ) × (t : Bytes) × (s ≡ c ∷ t) × (digit_value c < b) × NoPrefix t

module _ (b : ℕ) (two : 2 ≤ b) (sixteen : b ≤ 16) where
  digit_lem : (x : ℕ) → x < b → digit_value (digit x) < b
  digit_lem x h = omega (arith, digit_value-digit x (omega arith))

  pub print_onto-IsNumeral :
      (fuel n : ℕ) (acc : Bytes) → n < fuel → NoPrefix acc → IsNumeral b (print_onto fuel b n acc)
  unfolding print_onto
  print_onto-IsNumeral zero n acc h w = absurd (omega arith)
  print_onto-IsNumeral (suc fuel) n acc h w = elim (Bool-cases (ltb n b)) [
    | inl e ↦ rw (e, print_onto) (digit n, acc, refl, digit_lem n (ltb→lt n b e), w)
    | inr e ↦
        rw (e, print_onto)
          (print_onto-IsNumeral fuel (n / b) (digit (n % b) ∷ acc)
            (div-lt b two sixteen n fuel (ltb→le n b e) h)
            (λ e. absurd (omega (arith, digit_lem (n % b) (mod-lt n (omega arith))))))
  ]

  zero_digit : digit_value b'0' ≡ 0
  unfolding digit_value
  zero_digit = refl

  zeros-NoPrefix : (k : ℕ) (s : Bytes) → IsNumeral b s → NoPrefix (replicate k b'0' ++ s)
  zeros-NoPrefix zero s (c, t, e, h, w) = rw e (λ x. absurd (omega arith))
  zeros-NoPrefix (suc k) s w = λ x. absurd (omega (arith, zero_digit))

  -- Zeros in front change nothing.
  pub zeros-IsNumeral : (k : ℕ) (s : Bytes) → IsNumeral b s → IsNumeral b (replicate k b'0' ++ s)
  zeros-IsNumeral zero s w = w
  zeros-IsNumeral (suc k) s w =
      (b'0', replicate k b'0' ++ s, refl, omega (arith, zero_digit), zeros-NoPrefix k s w)

  pub digits-zeros : (k : ℕ) (s : Bytes) → digits b 0 (replicate k b'0' ++ s) ≡ digits b 0 s
  digits-zeros zero s = refl
  digits-zeros (suc k) s =
      digits_step b 0 b'0' (replicate k b'0' ++ s) (omega (arith, zero_digit))
      ∙ ap (λ v. digits b v (replicate k b'0' ++ s)) (omega (arith, zero_digit))
      ∙ digits-zeros k s

  not_x : (x : ℕ) → digit_value x ≢ 33 → (x ≢ b'x') × (x ≢ b'X')
  unfolding digit_value
  not_x x h = ground arith

  skip_prefix-numeral : (c : ℕ) (t : Bytes) → NoPrefix t → skip_prefix b (c ∷ t) ≡ c ∷ t
  unfolding skip_prefix
  skip_prefix-numeral c [] w = refl
  skip_prefix-numeral c (x ∷ []) w = refl
  skip_prefix-numeral c (x ∷ h ∷ s) w = ground (arith, not_x x w)

  pub skip_ws-blanks : (k : ℕ) (s : Bytes) → skip_ws (replicate k 32 ++ s) ≡ skip_ws s
  unfolding skip_ws
  skip_ws-blanks zero s = refl
  skip_ws-blanks (suc k) s = skip_ws-blanks k s

  numeral_first :
      (c : ℕ)
      → digit_value c < b
      → (is_space c ≡ false) × ((c == b'-') ≡ false) × ((c == b'+') ≡ false)
  unfolding digit_value
  numeral_first c h = ground arith

  pub some_digits-numeral :
      (s : Bytes) → IsNumeral b s → some_digits b (skip_prefix b s) ≡ some (digits b 0 s)
  unfolding some_digits
  some_digits-numeral s (c, t, e, h, w) = rw (e, skip_prefix-numeral c t w, lt→ltb _ _ h) refl

  pub signed_digits-numeral :
      (convert : Bool → ℕ → ℕ) (s : Bytes)
      → IsNumeral b s
      → signed_digits convert b (skip_ws s) ≡ with_sign convert false (some (digits b 0 s))
  unfolding skip_ws signed_digits some_digits
  signed_digits-numeral convert s (c, t, e, h, w) =
      let (sp, mi, pl) = numeral_first c h in
      rw (e, skip_ws) (rw (sp, mi, pl, skip_prefix-numeral c t w, lt→ltb _ _ h) refl)

  -- Blanks in front are skipped, and the digits are taken.
  pub strtoul-numeral :
      (k : ℕ) (s : Bytes)
      → IsNumeral b s
      → strtoul b (replicate k 32 ++ s) ≡ with_sign as_ulong false (some (digits b 0 s))
  unfolding strtoul
  strtoul-numeral k s w =
      ap (signed_digits as_ulong b) (skip_ws-blanks k s) ∙ signed_digits-numeral as_ulong s w

  pub print_onto-append :
      (fuel n : ℕ) (acc rest : Bytes)
      → print_onto fuel b n acc ++ rest ≡ print_onto fuel b n (acc ++ rest)
  unfolding print_onto
  print_onto-append zero n acc rest = refl
  print_onto-append (suc fuel) n acc rest = elim (Bool-cases (ltb n b)) [
    | inl e ↦ rw (e, print_onto) refl
    | inr e ↦ rw (e, print_onto) (print_onto-append fuel (n / b) (digit (n % b) ∷ acc) rest)
  ]

pub blanks-append :
    (k j : ℕ) (s rest : Bytes)
    → replicate k 32 ++ ((replicate j 32 ++ s) ++ rest) ≡ replicate (k + j) 32 ++ (s ++ rest)
blanks-append zero j s rest =
    append_assoc (replicate j 32) s rest
    ∙ ap (λ (v : ℕ). replicate v 32 ++ (s ++ rest)) (omega arith)
blanks-append (suc k) j s rest =
    ap (λ t. 32 ∷ t) (blanks-append k j s rest)
    ∙ ap (λ (v : ℕ). replicate v 32 ++ (s ++ rest)) {x = suc (k + j)} (omega arith)
