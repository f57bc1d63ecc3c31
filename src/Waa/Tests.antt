-- ===== src/Waa/Tests.antt =====
-- Places in an array of inodes, and the theorem about them at a sorted array.
use fsvs.Prelude.{ℕ, zero, suc, ◌≤◌, ◌<◌, ◌≡◌, refl, some, List, [], ◌∷◌, length, arith}
use fsvs.Waa.{Inode, element, sort_by_inode, search_position, find_position}
use fsvs.Waa.Position.{rank, IsSmall, IsPlace, find_position-IsPlace}

abbrev inode : ℕ → Inode
inode n = record { dev = 1; ino = n }

-- The example of the source.
abbrev directories : List Inode
directories = inode 10 ∷ inode 20 ∷ inode 30 ∷ inode 40 ∷ inode 50 ∷ []

new_subdir : find_position (inode 45) directories ≡ some 4
unfolding find_position search_position sort_by_inode
new_subdir = refl

equal_inode : find_position (inode 30) directories ≡ some 2
unfolding find_position search_position sort_by_inode
equal_inode = refl

abbrev two : List Inode
two = inode 10 ∷ inode 20 ∷ []

two-IsSmall : (i : ℕ) → IsSmall (element two i)
two-IsSmall zero = omega arith
two-IsSmall (suc zero) = omega arith
two-IsSmall (suc (suc i)) = omega arith

two-IsSorted : (i j : ℕ) → i ≤ j → j < length two → rank (element two i) ≤ rank (element two j)
two-IsSorted zero zero h k = omega arith
two-IsSorted zero (suc zero) h k = omega arith
two-IsSorted zero (suc (suc j)) h k = absurd (omega arith)
two-IsSorted (suc zero) zero h k = absurd (omega arith)
two-IsSorted (suc zero) (suc zero) h k = omega arith
two-IsSorted (suc zero) (suc (suc j)) h k = absurd (omega arith)
two-IsSorted (suc (suc i)) j h k = absurd (omega arith)

find_position-IsPlace_example :
    (i : ℕ) × (find_position (inode 15) two ≡ some i) × IsPlace (inode 15) two i
find_position-IsPlace_example =
    find_position-IsPlace (inode 15) two (omega arith)
      (record { small = two-IsSmall; sorted = two-IsSorted })
