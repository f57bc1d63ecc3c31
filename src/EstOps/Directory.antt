-- ===== src/EstOps/Directory.antt =====
-- `ops__free_marked`, `ops__delete_entry` and `ops__new_entries` of src/est_ops.c: the arrays of a
-- directory's entries.
pub mod Compact
pub mod Delete
use fsvs.Prelude.{
  ℕ, zero, suc, ◌+◌, ◌-◌, Bool, true, false, not, Option, none, some, List, [], ◌∷◌, ◌++◌, ltb, leb,
  ◌==◌, if◌then◌else◌, length, set, take, drop, get_elem?,
}

-- An entry, as far as these functions see it: its identity and `to_be_ignored`.
pub record Child : Type 0 where
  pub key : ℕ
  pub to_be_ignored : Bool

-- `by_inode` and `by_name` of a directory: NULL, or the `entry_count` pointers before the last NULL.
pub record Dir : Type 0 where
  pub entry_count : ℕ
  pub by_inode : Option (List Child)
  pub by_name : Option (List Child)

-- The loop of `ops__free_marked`, for the `n` rounds from index `i` on: the array, and `new_count`,
-- which is the index that `dst` points to.
unfoldable pub compact : ℕ → ℕ → List Child → ℕ → List Child × ℕ
compact zero i array dst = (array, dst)
compact (suc n) i array dst = elim (get_elem? array i) [
  | none ↦ (array, dst)
  | some c ↦
      (let array' = if c.to_be_ignored then array else set array dst c in
        let dst' = if c.to_be_ignored then dst else dst + 1 in compact n (i + 1) array' dst')
]

-- `ops__free_marked`: the array is cut behind the entries that are kept, and `by_name` is freed.
unfoldable pub free_marked : Dir → Dir
unfolding compact
free_marked dir = elim dir.by_inode [
  | none ↦ record dir { by_name = none }
  | some array ↦
      (let (array', new_count) = compact dir.entry_count 0 array 0 in
        record { entry_count = new_count; by_inode = some (take new_count array'); by_name = none })
]

-- The loop that looks for an entry from the end on: the last index that holds it.
unfoldable pub index_of : ℕ → List Child → ℕ → Option ℕ
index_of key array zero = none
index_of key array (suc n) =
    let lower = index_of key array n in
    elim (get_elem? array n) [ none ↦ lower | some c ↦ (if c.key == key then some n else lower) ]

-- `ops___move_array`
unfoldable pub move_array : List Child → ℕ → List Child
move_array array index = take index array ++ drop (index + 1) array

-- The outcome of `ops__delete_entry`: done, ENOENT, or the stop of a BUG_ON.
pub data Deleted : Type 0 where
  done : Dir → Deleted
  enoent : Dir → Deleted
  bug : Deleted

-- One array: the index is given, or the entry is looked for.
unfoldable pub delete_from : ℕ → ℕ → List Child → Option (List Child)
unfolding index_of move_array
delete_from key count array = elim (index_of key array count) [
  | none ↦ none
  | some i ↦ some (move_array array i)
]

-- `ops__delete_entry` for an entry that is given by `sts`.
unfoldable pub delete_arrays : ℕ → ℕ → Option (List Child) → Option (List Child) → Deleted
unfolding delete_from
delete_arrays key count none none =
    enoent (record { entry_count = count; by_inode = none; by_name = none })
delete_arrays key count (some inodes) none = elim (delete_from key count inodes) [
  | none ↦ bug
  | some l ↦ done (record { entry_count = count - 1; by_inode = some l; by_name = none })
]
delete_arrays key count none (some names) = elim (delete_from key count names) [
  | none ↦ bug
  | some l ↦ done (record { entry_count = count - 1; by_inode = none; by_name = some l })
]
delete_arrays key count (some inodes) (some names) = elim (delete_from key count inodes) [
  | none ↦ bug
  | some l ↦ elim (delete_from key count names) [
    | none ↦ bug
    | some m ↦ done (record { entry_count = count - 1; by_inode = some l; by_name = some m })
  ]
]

unfoldable pub delete_entry : Dir → ℕ → Deleted
unfolding delete_arrays
delete_entry dir key = delete_arrays key dir.entry_count dir.by_inode dir.by_name

-- `ops__new_entries`, but for `to_be_sorted`.
unfoldable pub new_entries : Dir → List Child → Dir
new_entries dir found = record {
  entry_count = dir.entry_count + length found;
  by_inode = some (elim dir.by_inode [ none ↦ found | some l ↦ l ++ found ]);
  by_name = none;
}
