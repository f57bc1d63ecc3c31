-- ===== src/Waa.antt =====
-- src/waa.c: the order in which waa__output_tree writes the entries. It keeps a row of directories, sorted by the
-- inode of the next entry of each, and looks for places in it by waa___find_position.
pub mod Position
mod Tests
use Prim.Native.Nat.{Ordering, compare}
use fsvs.Prelude.{
  ℕ, zero, suc, ◌+◌, ◌-◌, ◌*◌, ◌/◌, Bool, true, false, Option, none, some, List, [], ◌∷◌, ◌++◌, ltb,
  leb, ◌==◌, if◌then◌else◌, length,
}

-- The device and the inode of an entry.
pub record Inode : Type 0 where
  pub dev : ℕ
  pub ino : ℕ

-- `dir___f_sort_by_inode`: the sign of what it returns.
unfoldable pub sort_by_inode : Inode → Inode → Ordering
sort_by_inode a b = elim (compare a.dev b.dev) [
  | Ordering.gt ↦ Ordering.gt
  | Ordering.lt ↦ Ordering.lt
  | Ordering.eq ↦ compare a.ino b.ino
]

-- An element of the array. It is only read below `count`.
abbrev pub element : List Inode → ℕ → Inode
element [] i = record { dev = 0; ino = 0 }
element (a ∷ as') zero = a
element (a ∷ as') (suc i) = element as' i

-- The loop of `waa___find_position`; `none` where the rounds do not suffice.
unfoldable pub search_position : ℕ → Inode → List Inode → ℕ → ℕ → Option ℕ
search_position zero new array smaller bigger_eq = none
search_position (suc fuel) new array smaller bigger_eq =
    let middle = (bigger_eq + smaller) / 2 in
    let above = search_position fuel new array (middle + 1) bigger_eq in
    let under = search_position fuel new array smaller middle in
    elim (sort_by_inode new (element array middle)) [
      | Ordering.gt ↦ (if leb bigger_eq (middle + 1) then some bigger_eq else above)
      | Ordering.lt ↦ (if leb middle smaller then some middle else under)
      | Ordering.eq ↦ some middle
    ]

-- `waa___find_position`, with its shortcuts in front of the first, and behind the last element.
abbrev pub before_first : Ordering → Option ℕ → Option ℕ
before_first Ordering.lt others = some 0
before_first Ordering.eq others = others
before_first Ordering.gt others = others

abbrev pub behind_end : Ordering → ℕ → Option ℕ → Option ℕ
behind_end Ordering.lt count found = found
behind_end Ordering.eq count found = some count
behind_end Ordering.gt count found = some count

unfoldable pub find_position : Inode → List Inode → Option ℕ
find_position new array =
    let count = length array in
    let found = search_position count new array 1 (count - 1) in
    let others =
      if count == 1
      then some 1
      else behind_end (sort_by_inode new (element array (count - 1))) count found in
    if count == 0 then some 0 else before_first (sort_by_inode new (element array 0)) others
