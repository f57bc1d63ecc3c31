-- ===== src/Url/Numbers/Free.antt =====
-- `find_next_zero_bit` of src/url.c: a free bit is found, and not far away.
use fsvs.Prelude.{
  ℕ, zero, suc, ◌+◌, ◌≤◌, ◌<◌, ◌≡◌, refl, inl, inr, true, false, some, List, [], ◌∷◌, arith, ltb,
  if◌then◌else◌, length, Bool-cases,
}
use fsvs.Url.Numbers.{is_set, find_next_zero_bit}

-- How many bits are set below a place, and from it on.
unfoldable pub below : ℕ → List ℕ → ℕ
below n [] = 0
below n (m ∷ ms) = let rest = below n ms in if ltb m n then rest + 1 else rest

unfoldable pub from_on : ℕ → List ℕ → ℕ
from_on n [] = 0
from_on n (m ∷ ms) = let rest = from_on n ms in if ltb m n then rest else rest + 1

pub below-from_on : (n : ℕ) (ms : List ℕ) → below n ms + from_on n ms ≡ length ms
unfolding below from_on
below-from_on n [] = refl
below-from_on n (m ∷ ms) = ground (arith, below-from_on n ms)

pub below_mono : (n : ℕ) (ms : List ℕ) → below n ms ≤ below (n + 1) ms
unfolding below
below_mono n [] = omega arith
below_mono n (m ∷ ms) = ground (arith, below_mono n ms)

below-set : (n : ℕ) (ms : List ℕ) → is_set n ms ≡ true → below n ms + 1 ≤ below (n + 1) ms
unfolding below is_set
below-set n [] h = cc
below-set n (m ∷ ms) h = ground (arith, below-set n ms, below_mono n ms)

-- The bit found is free, not before the start, and only set bits lie between.
pub find_next_zero_bit-free :
    (room : ℕ) (bitmap : List ℕ) (from : ℕ) {free : ℕ}
    → find_next_zero_bit room bitmap from ≡ some free
    → (is_set free bitmap ≡ false)
      × (from ≤ free)
      × (free + below from bitmap ≤ from + below free bitmap)
unfolding find_next_zero_bit
find_next_zero_bit-free zero bitmap from h = cc
find_next_zero_bit-free (suc room) bitmap from {free} h =
    ground
      (arith, find_next_zero_bit-free room bitmap (from + 1) {free = free}, below-set from bitmap)

-- A bit is found if not all that are left are set.
pub find_next_zero_bit_total :
    (room : ℕ) (bitmap : List ℕ) (from : ℕ)
    → from_on from bitmap < room
    → (free : ℕ) × (find_next_zero_bit room bitmap from ≡ some free)
unfolding find_next_zero_bit
find_next_zero_bit_total zero bitmap from h = elim h [ ]
find_next_zero_bit_total (suc room) bitmap from h = elim (Bool-cases (is_set from bitmap)) [
  | inr vacant ↦ (from, rw vacant)
  | inl taken ↦ rw taken (
      find_next_zero_bit_total room bitmap (from + 1) (
        omega (
          arith,
          below-set from bitmap taken,
          below-from_on from bitmap,
          below-from_on (from + 1) bitmap,
        )))
]
