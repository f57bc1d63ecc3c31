-- ===== src/Url/Numbers.antt =====
-- `url___set_internal_nums` of src/url.c: every URL gets a number of its own.
pub mod Used
pub mod Free
pub mod Unique
use fsvs.Prelude.{
  ℕ, zero, suc, ◌+◌, Bool, true, false, ◌||◌, Option, none, some, List, [], ◌∷◌, ltb, leb, ◌-◌,
  ◌==◌, if◌then◌else◌, length,
}

-- The members `internal_number` of the list, in order; `none` is INVALID_INTERNAL_NUMBER.
abbrev pub Numbers : Type 0
Numbers = List (Option ℕ)

pub data Outcome : Type 0 where
  numbered : List ℕ → Outcome
  emfile : Outcome
  einval : Outcome
  out_of_bounds : Outcome

-- `sizeof(bitmap)*8`
abbrev pub fd_setsize : ℕ
fd_setsize = 1024

-- The bitmap, as the list of the bits that are set; `FD_ISSET`.
unfoldable pub is_set : ℕ → List ℕ → Bool
is_set n [] = false
is_set n (m ∷ ms) = m == n || is_set n ms

-- The inner loop over the later URLs.
unfoldable pub occurs : ℕ → Numbers → Bool
occurs n [] = false
occurs n (none ∷ ns) = occurs n ns
occurs n (some m ∷ ns) = m == n || occurs n ns

-- What step 1 comes to: the bitmap, two equal numbers, or a bit behind the end of the `fd_set`.
pub data Bitmap : Type 0 where
  used : List ℕ → Bitmap
  duplicate beyond : Bitmap

-- Step 1: the bitmap of the numbers up to `urllist_count`.
unfoldable pub mark_used : ℕ → Numbers → List ℕ → Bitmap
mark_used count [] bitmap = used bitmap
mark_used count (none ∷ ns) bitmap = mark_used count ns bitmap
mark_used count (some n ∷ ns) bitmap =
    let above = mark_used count ns bitmap in
    let marked = mark_used count ns (n ∷ bitmap) in
    if ltb count n
    then (if occurs n ns then duplicate else above)
    else if leb fd_setsize n
    then beyond
    else (if is_set n bitmap then duplicate else marked)

-- `find_next_zero_bit`, with the number of bits that the `fd_set` has from the place on; `none` where it is left.
unfoldable pub find_next_zero_bit : ℕ → List ℕ → ℕ → Option ℕ
find_next_zero_bit zero bitmap from = none
find_next_zero_bit (suc room) bitmap from =
    let next = find_next_zero_bit room bitmap (from + 1) in
    if is_set from bitmap then next else some from

-- Step 2: each invalid number is replaced by the next free bit.
unfoldable pub fill_invalid : Numbers → List ℕ → ℕ → Option (List ℕ)
fill_invalid [] bitmap bit = some []
fill_invalid (some n ∷ ns) bitmap bit = elim (fill_invalid ns bitmap bit) [
  | none ↦ none
  | some rest ↦ some (n ∷ rest)
]
fill_invalid (none ∷ ns) bitmap bit = elim (find_next_zero_bit (fd_setsize - bit) bitmap bit) [
  | none ↦ none
  | some free ↦ elim (fill_invalid ns bitmap (free + 1)) [
    | none ↦ none
    | some rest ↦ some (free ∷ rest)
  ]
]

unfoldable pub fill_all : Numbers → Bitmap → Outcome
fill_all ns duplicate = einval
fill_all ns beyond = out_of_bounds
fill_all ns (used bitmap) = elim (fill_invalid ns bitmap 1) [
  | none ↦ out_of_bounds
  | some rest ↦ numbered rest
]

-- `url___set_internal_nums`; `out_of_bounds` stands for the use of a bit behind the end of the `fd_set`.
unfoldable pub set_internal_nums : Numbers → Outcome
unfolding fill_all
set_internal_nums ns =
    if ltb fd_setsize (length ns) then emfile else fill_all ns (mark_used (length ns) ns [])
