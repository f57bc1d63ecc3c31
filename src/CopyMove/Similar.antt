-- ===== src/CopyMove/Similar.antt =====
-- How similar two directories are said to be.
use Prim.Native.Nat.{Ordering}
use native.Mathlib.Nat.{div-lt_iff_lt-mul, le-div_iff_mul-le}
use fsvs.Prelude.{
  ℕ, suc, ◌+◌, ◌-◌, ◌*◌, ◌/◌, ◌%◌, ◌^◌, ◌∙◌, ◌≤◌, ◌<◌, ◌≡◌, ◌↔◌, refl, ap, subst, List, [], ◌∷◌,
  length, arith,
}
use fsvs.EstOps.Correlate.{Event, only_a, both, only_b, events}
use fsvs.EstOps.Correlate.Events.{firsts, seconds, events_complete}
use fsvs.CopyMove.{common_of, match_count}

module _ {ℓ} {A : Type ℓ} where
  common-le-firsts : (es : List (Event A)) → common_of es ≤ length (firsts es)
  unfolding common_of firsts
  common-le-firsts [] = omega arith
  common-le-firsts (only_a a ∷ es) = omega (arith, common-le-firsts es)
  common-le-firsts (both a b ∷ es) = omega (arith, common-le-firsts es)
  common-le-firsts (only_b b ∷ es) = common-le-firsts es

  common-le-seconds : (es : List (Event A)) → common_of es ≤ length (seconds es)
  unfolding common_of seconds
  common-le-seconds [] = omega arith
  common-le-seconds (only_a a ∷ es) = common-le-seconds es
  common-le-seconds (both a b ∷ es) = omega (arith, common-le-seconds es)
  common-le-seconds (only_b b ∷ es) = omega (arith, common-le-seconds es)

  -- Every entry has a partner.
  abbrev pub IsPaired : List (Event A) → Type 0
  IsPaired [] = Unit
  IsPaired (only_a a ∷ es) = ⊥
  IsPaired (both a b ∷ es) = IsPaired es
  IsPaired (only_b b ∷ es) = ⊥

  IsPaired-common :
      (es : List (Event A))
      → IsPaired es
      → (common_of es ≡ length (firsts es)) × (common_of es ≡ length (seconds es))
  unfolding common_of firsts seconds
  IsPaired-common [] w = (refl, refl)
  IsPaired-common (only_a a ∷ es) w = absurd w
  IsPaired-common (both a b ∷ es) w = let (f, s) = IsPaired-common es w in (ap suc f, ap suc s)
  IsPaired-common (only_b b ∷ es) w = absurd w

  common-IsPaired :
      (es : List (Event A))
      → length (firsts es) ≤ common_of es
      → length (seconds es) ≤ common_of es
      → IsPaired es
  unfolding common_of firsts seconds
  common-IsPaired [] f s = tt
  common-IsPaired (only_a a ∷ es) f s = absurd (omega (arith, common-le-firsts es))
  common-IsPaired (both a b ∷ es) f s = common-IsPaired es (omega arith) (omega arith)
  common-IsPaired (only_b b ∷ es) f s = absurd (omega (arith, common-le-seconds es))

-- Nothing wraps for numbers of entries whose product with 1000 is an `int`.
match_count_exact :
    (a b c : ℕ)
    → 1000 * a < 2 ^ 31
    → 1000 * b < 2 ^ 31
    → c ≤ a
    → match_count a b c ≡ 1000 * c / (a + b - c)
unfolding match_count
match_count_exact a b c r s p =
    ap (λ (x : ℕ). x / ((a + b + (2 ^ 32 - c % 2 ^ 32)) % 2 ^ 32)) {y = 1000 * c} (omega arith)
    ∙ ap (λ (y : ℕ). 1000 * c / y) {y = a + b - c} (omega arith)

match_count-le :
    (a b c : ℕ)
    → 0 < a
    → 1000 * a < 2 ^ 31
    → 1000 * b < 2 ^ 31
    → c ≤ a
    → c ≤ b
    → match_count a b c ≤ 1000
match_count-le a b c h r s p q = rw (match_count_exact a b c r s p) (
    omega (
      arith,
      (div-lt_iff_lt-mul {k = a + b - c} {x = 1000 * c} {y = 1001} (omega arith)).1 (omega arith),
    ))

match_count-full :
    (a b c : ℕ)
    → 0 < a
    → 1000 * a < 2 ^ 31
    → 1000 * b < 2 ^ 31
    → c ≤ a
    → c ≤ b
    → (match_count a b c ≡ 1000) ↔ ((a ≤ c) × (b ≤ c))
match_count-full a b c h r s p q = rw (match_count_exact a b c r s p) (
    let iff = le-div_iff_mul-le {k = a + b - c} {x = 1000} {y = 1000 * c} (omega arith) in
    (
      λ e. let low = iff.0 (omega arith) in (omega arith, omega arith),
      λ w.
          let up = iff.1 (omega arith) in
          let low : 1000 * c / (a + b - c) ≤ 1000 =
            subst (λ (x : ℕ). x ≤ 1000) (match_count_exact a b c r s p)
              (match_count-le a b c h r s p q) in
          omega (arith, up, low),
    ))

-- The statement for the two rows of names of a row of events.
abbrev Rated : {A : Type 0} → List A → List A → List (Event A) → Type 0
Rated xs ys es =
    0 < length xs
    → 1000 * length xs < 2 ^ 31
    → 1000 * length ys < 2 ^ 31
    → (match_count (length xs) (length ys) (common_of es) ≤ 1000)
      × ((match_count (length xs) (length ys) (common_of es) ≡ 1000) ↔ IsPaired es)

rated : {A : Type 0} (es : List (Event A)) → Rated (firsts es) (seconds es) es
rated es h r s =
    let p = common-le-firsts es in
    let q = common-le-seconds es in
    let (full, back) =
      match_count-full (length (firsts es)) (length (seconds es)) (common_of es) h r s p q in
    (
      match_count-le (length (firsts es)) (length (seconds es)) (common_of es) h r s p q,
      (
        λ e. common-IsPaired es (full e).0 (full e).1,
        λ w. let (f, s) = IsPaired-common es w in back (omega arith, omega arith),
      ),
    )

-- The part of common names that `cm___match_children` reckons for two directories, of which the first is not empty, is at most
-- 1000 tenths of a percent, so that the BUG of `cm___output_pct` is not reached. It is all 1000 exactly if
-- every entry of both directories has a partner in the other one. The condition: 1000 times the number of entries of
-- each directory is below 2^31, so that the product does not overflow.
pub match_count-events :
    {A : Type 0} (comp : A → A → Ordering) (as' bs : List A)
    → 0 < length as'
    → 1000 * length as' < 2 ^ 31
    → 1000 * length bs < 2 ^ 31
    → (match_count (length as') (length bs) (common_of (events comp as' bs)) ≤ 1000)
      × ((match_count (length as') (length bs) (common_of (events comp as' bs)) ≡ 1000)
          ↔ IsPaired (events comp as' bs))
match_count-events comp as' bs h r s =
    let es = events comp as' bs in
    let (f, t) = events_complete comp as' bs in
    subst (λ xs. Rated xs bs es) f (subst (λ ys. Rated (firsts es) ys es) t (rated es)) h r s
