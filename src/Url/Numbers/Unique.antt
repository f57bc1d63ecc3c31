-- ===== src/Url/Numbers/Unique.antt =====
-- `url___set_internal_nums` of src/url.c: the numbers that it leaves are all different.
use fsvs.Prelude.{
  ℕ, ◌+◌, ◌-◌, ◌≤◌, ◌<◌, Option-cases, ◌≡◌, refl, subst, ◌⊎◌, inl, inr, true, false, none, some,
  List, [], ◌∷◌, arith, ltb, length, Bool-cases,
}
use fsvs.Url.Numbers.{
  Numbers, numbered, is_set, Bitmap, used, duplicate, beyond, find_next_zero_bit, mark_used,
  fill_invalid, fill_all, set_internal_nums, fd_setsize,
}
use fsvs.Url.Numbers.Used.{given, missing, Distinct, mark_used-Marked, occurs-given}
use fsvs.Url.Numbers.Free.{
  below, from_on, below-from_on, below_mono, find_next_zero_bit-free, find_next_zero_bit_total,
}

-- The numbers that were given are kept in their places.
abbrev pub Keeps : Numbers → List ℕ → Type 0
Keeps [] [] = Unit
Keeps (none ∷ ns) (r ∷ rs) = Keeps ns rs
Keeps (some n ∷ ns) (r ∷ rs) = (r ≡ n) × Keeps ns rs
Keeps _ _ = ⊥

-- The room that is left behind the bit that was found.
near_room :
    (ns : Numbers) (bitmap : List ℕ) (bit free : ℕ) {max : ℕ}
    → bit ≤ free
    → free + below bit bitmap ≤ bit + below free bitmap
    → bit + (missing ns + 1) + from_on bit bitmap ≤ max
    → free + 1 + missing ns + from_on (free + 1) bitmap ≤ max
near_room ns bitmap bit free after near room =
    omega (arith, below-from_on bit bitmap, below-from_on (free + 1) bitmap, below_mono free bitmap)

fill_invalid_total :
    (ns : Numbers) (bitmap : List ℕ) (bit : ℕ)
    → bit + missing ns + from_on bit bitmap ≤ fd_setsize
    → (rest : List ℕ) × (fill_invalid ns bitmap bit ≡ some rest)
unfolding fill_invalid missing
fill_invalid_total [] bitmap bit room = ([], refl)
fill_invalid_total (some n ∷ ns) bitmap bit room =
    let (rest, e) = fill_invalid_total ns bitmap bit room in (n ∷ rest, ground arith)
fill_invalid_total (none ∷ ns) bitmap bit room =
    let (free, g) = find_next_zero_bit_total (fd_setsize - bit) bitmap bit (omega arith) in
    let (unset, after, near) =
      find_next_zero_bit-free (fd_setsize - bit) bitmap bit {free = free} g in
    let (rest, e) =
      fill_invalid_total ns bitmap (free + 1) (near_room ns bitmap bit free after near room) in
    (free ∷ rest, ground arith)

-- What step 2 leaves: where a number comes from, and that all are different.
record Filled (count : ℕ) (ns : Numbers) (bitmap : List ℕ) (bit : ℕ) (rest : List ℕ) : Type 0 where
  keeps : Keeps ns rest
  distinct : Distinct rest
  origin :
      (m : ℕ)
      → is_set m rest ≡ true
      → (is_set m (given ns) ≡ true) ⊎ ((is_set m bitmap ≡ false) × (bit ≤ m) × (m ≤ count))

fill_invalid-Filled :
    (count : ℕ) (ns : Numbers) (bitmap : List ℕ) (bit : ℕ) (rest : List ℕ)
    → fill_invalid ns bitmap bit ≡ some rest
    → Distinct (given ns)
    → ((m : ℕ) → is_set m (given ns) ≡ true → m ≤ count → is_set m bitmap ≡ true)
    → bit + missing ns + from_on bit bitmap ≤ count + 1
    → Filled count ns bitmap bit rest
unfolding fill_invalid given missing is_set
fill_invalid-Filled count [] bitmap bit rest h d cover room =
    let e : [] ≡ rest = ground arith in
    subst (Filled count [] bitmap bit) e (record { keeps = tt; distinct = tt; origin = λ m a. cc })
fill_invalid-Filled count (some n ∷ ns) bitmap bit rest h d cover room =
    elim (Option-cases (fill_invalid ns bitmap bit)) [
      | inl f ↦ absurd (ground arith)
      | inr (rest', f) ↦
          let r =
            fill_invalid-Filled count ns bitmap bit rest' f d.1 (λ m a. cover m (ground arith))
              room in
          let e : n ∷ rest' ≡ rest = ground arith in
          subst (Filled count (some n ∷ ns) bitmap bit) e (record {
            keeps = (refl, r.keeps);
            distinct = (ground (arith, r.origin n, cover n), r.distinct);
            origin = λ m a. ground (arith, r.origin m);
          })
    ]
fill_invalid-Filled count (none ∷ ns) bitmap bit rest h d cover room =
    elim (Option-cases (find_next_zero_bit (fd_setsize - bit) bitmap bit)) [
      | inl g ↦ absurd (ground arith)
      | inr (free, g) ↦ elim (Option-cases (fill_invalid ns bitmap (free + 1))) [
        | inl f ↦ absurd (ground arith)
        | inr (rest', f) ↦
            let (unset, after, near) =
              find_next_zero_bit-free (fd_setsize - bit) bitmap bit {free = free} g in
            let room' : free + 1 + missing ns + from_on (free + 1) bitmap ≤ count + 1 =
              near_room ns bitmap bit free after near room in
            let r = fill_invalid-Filled count ns bitmap (free + 1) rest' f d cover room' in
            let e : free ∷ rest' ≡ rest = ground arith in
            subst (Filled count (none ∷ ns) bitmap bit) e (record {
              keeps = r.keeps;
              distinct = (ground (arith, r.origin free, cover free), r.distinct);
              origin = λ m a. ground (arith, r.origin m);
            })
      ]
    ]

given-missing : (ns : Numbers) → length (given ns) + missing ns ≡ length ns
unfolding given missing
given-missing [] = refl
given-missing (none ∷ ns) = omega (arith, given-missing ns)
given-missing (some n ∷ ns) = omega (arith, given-missing ns)

used_room :
    (ns : Numbers) (bitmap : List ℕ)
    → mark_used (length ns) ns [] ≡ used bitmap
    → 1 + missing ns + from_on 1 bitmap ≤ length ns + 1
used_room ns bitmap m =
    let u = mark_used-Marked (length ns) ns [] {after = bitmap} m in
    omega (arith, u.size, given-missing ns, below-from_on 1 bitmap)

fill_all-numbered :
    (ns : Numbers) (marked : Bitmap) (rest : List ℕ)
    → mark_used (length ns) ns [] ≡ marked
    → fill_all ns marked ≡ numbered rest
    → Keeps ns rest × Distinct rest
unfolding fill_all
fill_all-numbered ns duplicate rest m h = cc
fill_all-numbered ns beyond rest m h = cc
fill_all-numbered ns (used bitmap) rest m h = elim (Option-cases (fill_invalid ns bitmap 1)) [
  | inl f ↦ absurd (ground arith)
  | inr (rest', f) ↦
      let r =
        fill_invalid-Filled (length ns) ns bitmap 1 rest' f
          (mark_used-Marked (length ns) ns [] {after = bitmap} m).distinct
          (mark_used-Marked (length ns) ns [] {after = bitmap} m).added (used_room ns bitmap m) in
      let e : rest' ≡ rest = ground (arith, f) in
      subst (λ l. Keeps ns l × Distinct l) e (r.keeps, r.distinct)
]

-- Where url___set_internal_nums succeeds, every URL has a number, no two have the same, and the
-- numbers that were valid before are kept; also where some of them are larger than the number of URLs.
pub set_internal_nums-Distinct :
    (ns : Numbers) (rest : List ℕ)
    → set_internal_nums ns ≡ numbered rest
    → Keeps ns rest × Distinct rest
unfolding set_internal_nums
set_internal_nums-Distinct ns rest h = elim (Bool-cases (ltb fd_setsize (length ns))) [
  | inl many ↦ ground arith
  | inr few ↦ fill_all-numbered ns (mark_used (length ns) ns []) rest refl (ground arith)
]

mark_used_total :
    (count : ℕ) (ns : Numbers) (bitmap : List ℕ)
    → count < fd_setsize
    → Distinct (given ns)
    → ((m : ℕ) → is_set m (given ns) ≡ true → is_set m bitmap ≡ false)
    → (after : List ℕ) × (mark_used count ns bitmap ≡ used after)
unfolding mark_used given is_set
mark_used_total count [] bitmap few d free = (bitmap, refl)
mark_used_total count (none ∷ ns) bitmap few d free = mark_used_total count ns bitmap few d free
mark_used_total count (some n ∷ ns) bitmap few d free = elim (Bool-cases (ltb count n)) [
  | inl above ↦
      let (after, e) = mark_used_total count ns bitmap few d.1 (λ m a. free m (ground arith)) in
      (after, ground (arith, occurs-given n ns))
  | inr below ↦
      let (after, e) =
        mark_used_total count ns (n ∷ bitmap) few d.1 (λ m a. ground (arith, free m)) in
      (after, ground (arith, free n))
]

-- url___set_internal_nums succeeds for every list of less than FD_SETSIZE URLs whose valid numbers are
-- different: the search for a free bit ends, and no bit behind the end of the fd_set is used.
pub set_internal_nums_total :
    (ns : Numbers)
    → length ns < fd_setsize
    → Distinct (given ns)
    → (rest : List ℕ) × (set_internal_nums ns ≡ numbered rest)
unfolding set_internal_nums fill_all is_set
set_internal_nums_total ns few d =
    let (bitmap, m) = mark_used_total (length ns) ns [] few d (λ m a. refl) in
    let room = used_room ns bitmap m in
    let (rest, f) = fill_invalid_total ns bitmap 1 (omega arith) in (rest, ground arith)
