-- ===== src/Prelude/Numerals/Lengths.antt =====
-- How many digits a number has.
use native.Mathlib.Nat.{
  div-lt_self, div-lt_iff_lt-mul, le-div_iff_mul-le, pow-suc, pow-zero, one-le-pow,
}
use fsvs.Prelude.Tests.{ltb, Bool-cases, ltb→lt, ltb→le}
use Prim.Native.Nat.{ℕ, zero, suc, ◌+◌, ◌*◌, ◌/◌, ◌%◌, ◌^◌, ◌≤◌, ◌<◌}
use mathlib.Core.Path.{◌≡◌, ap, sym, ◌∙◌, subst}
use mathlib.Core.Logic.{inl, inr}
use mathlib.Core.List.{[], ◌∷◌}
use native.Mathlib.Omega.{arith}
use fsvs.Prelude.Lists.{length}
use fsvs.Prelude.Strings.{Bytes}
use fsvs.Prelude.Numerals.{digit, print_onto, print}

fewer : (b : ℕ) → 2 ≤ b → (n fuel : ℕ) → b ≤ n → n < suc fuel → n / b < fuel
fewer b two n fuel h k = let p : n / b < n = div-lt_self (omega arith) (omega arith) in omega arith

pow_one : (b : ℕ) → b ^ 1 ≡ b
pow_one b = pow-suc b 0 ∙ ap (λ (v : ℕ). v * b) (pow-zero b) ∙ omega arith

-- How many digits there are.
print_onto-length :
    (b : ℕ) (two : 2 ≤ b) (fuel n k : ℕ) (acc : Bytes)
    → n < fuel
    → n < b ^ suc k
    → length (print_onto fuel b n acc) ≤ suc k + length acc
unfolding print_onto
print_onto-length b two zero n k acc h p = omega arith
print_onto-length b two (suc fuel) n zero acc h p = elim (Bool-cases (ltb n b)) [
  | inl e ↦ rw e (omega arith)
  | inr e ↦ absurd (omega (arith, ltb→le n b e, subst (λ t. n < t) (pow_one b) p))
]
print_onto-length b two (suc fuel) n (suc k) acc h p = elim (Bool-cases (ltb n b)) [
  | inl e ↦ rw (e, print_onto) (omega arith)
  | inr e ↦
      rw (e, print_onto)
        (omega (
          arith,
          print_onto-length b two fuel (n / b) k (digit (n % b) ∷ acc)
              (fewer b two n fuel (ltb→le n b e) h)
              ((div-lt_iff_lt-mul (omega arith)).1 (subst (λ t. n < t) (pow-suc b (suc k)) p)),
        ))
]

pub print-length : (b : ℕ) → 2 ≤ b → (n k : ℕ) → n < b ^ suc k → length (print b n) ≤ suc k
unfolding print
print-length b two n k p = omega (arith, print_onto-length b two (suc n) n k [] (omega arith) p)

print_onto-le : (b fuel n : ℕ) (acc : Bytes) → length acc ≤ length (print_onto fuel b n acc)
unfolding print_onto
print_onto-le b zero n acc = omega arith
print_onto-le b (suc fuel) n acc = elim (Bool-cases (ltb n b)) [
  | inl e ↦ rw (e, print_onto) (omega arith)
  | inr e ↦ rw (e, print_onto) (omega (arith, print_onto-le b fuel (n / b) (digit (n % b) ∷ acc)))
]

times_grows : (a b : ℕ) → 1 ≤ a → b ≤ a * b
times_grows a b h = grind arith

power_grows : (b k : ℕ) → 0 < b → b ≤ b ^ suc k
power_grows b k h =
    subst (λ t. b ≤ t) (sym (pow-suc b k)) (times_grows (b ^ k) b (one-le-pow k b h))

print_onto-longer :
    (b : ℕ) (two : 2 ≤ b) (fuel n k : ℕ) (acc : Bytes)
    → n < fuel
    → b ^ k ≤ n
    → suc k + length acc ≤ length (print_onto fuel b n acc)
unfolding print_onto
print_onto-longer b two zero n k acc h p = omega arith
print_onto-longer b two (suc fuel) n zero acc h p = elim (Bool-cases (ltb n b)) [
  | inl e ↦ rw (e, print_onto) (omega arith)
  | inr e ↦ rw (e, print_onto) (omega (arith, print_onto-le b fuel (n / b) (digit (n % b) ∷ acc)))
]
print_onto-longer b two (suc fuel) n (suc k) acc h p = elim (Bool-cases (ltb n b)) [
  | inl e ↦ absurd (omega (arith, ltb→lt n b e, power_grows b k (omega arith)))
  | inr e ↦
      rw (e, print_onto)
        (omega (
          arith,
          print_onto-longer b two fuel (n / b) k (digit (n % b) ∷ acc)
              (fewer b two n fuel (ltb→le n b e) h)
              ((le-div_iff_mul-le (omega arith)).1 (subst (λ t. t ≤ n) (pow-suc b k) p)),
        ))
]

pub print-longer : (b : ℕ) → 2 ≤ b → (n k : ℕ) → b ^ k ≤ n → suc k ≤ length (print b n)
unfolding print
print-longer b two n k p = omega (arith, print_onto-longer b two (suc n) n k [] (omega arith) p)
