-- ===== src/EstOps/Selection.antt =====
-- `ops___set_todo_bits`, `ops__set_todo_bits` and `ops__are_children_interesting` of src/est_ops.c:
-- which entries are handled, by the selection on the command line and the recursion level.
use fsvs.Prelude.{◌≡◌, Bool, true, false, ◌||◌, Option, none, some, List, [], ◌∷◌, arith}

-- `opt_recursive`: negative, zero or positive.
pub data Recursive : Type 0 where
  negative level_zero positive : Recursive

-- The bits of a `struct estat` that are read or written here.
pub record Bits : Type 0 where
  pub do_userselected : Bool
  pub do_this_entry : Bool
  pub do_filter_allows : Bool
  pub do_filter_allows_done : Bool

-- `ops___set_todo_bits`, for an entry with its parent's `do_userselected`.
unfoldable pub set_todo_bits_below : Recursive → Bool → Bits → Bits
set_todo_bits_below negative parent b = b
set_todo_bits_below level_zero parent b = record b {
  do_this_entry = b.do_this_entry || (parent || b.do_userselected);
}
set_todo_bits_below positive parent b =
    let selected = b.do_userselected || parent in
    record b { do_userselected = selected; do_this_entry = b.do_this_entry || (parent || selected) }

-- `ops__set_todo_bits`, with the bit of the parent, or `none` for the root.
unfoldable pub set_todo_bits : Recursive → Option Bool → Bits → Bits
unfolding set_todo_bits_below
set_todo_bits r none b = record b { do_filter_allows = true; do_filter_allows_done = true }
set_todo_bits r (some parent) b =
    set_todo_bits_below r parent
      (record b { do_filter_allows = true; do_filter_allows_done = true })

-- `ops__are_children_interesting`
unfoldable pub are_children_interesting : Recursive → Bool → Bool
unfolding set_todo_bits_below
are_children_interesting r dir_selected =
    (set_todo_bits_below r dir_selected (record {
      do_userselected = false;
      do_this_entry = false;
      do_filter_allows = false;
      do_filter_allows_done = false;
    })).do_this_entry

-- The bits along a path from the child of an entry down, each set with those of its parent.
unfoldable pub set_path : Recursive → Bool → List Bits → List Bits
unfolding set_todo_bits
set_path r parent [] = []
set_path r parent (b ∷ bs) =
    let b' = set_todo_bits r (some parent) b in b' ∷ set_path r b'.do_userselected bs

abbrev pub some_selected : List Bits → Bool
some_selected [] = false
some_selected (b ∷ bs) = b.do_userselected || some_selected bs

-- The entry at the end of a path.
abbrev pub last_done : Bool → List Bits → Bool
last_done d [] = d
last_done d (b ∷ bs) = last_done b.do_this_entry bs

-- No entry of the path was marked before.
abbrev pub IsFresh : List Bits → Type 0
IsFresh [] = Unit
IsFresh (b ∷ bs) = (b.do_this_entry ≡ false) × IsFresh bs

-- With full recursion an entry is handled exactly if the starting directory, an entry on the way, or
-- the entry itself was selected by the user, at any depth.
pub set_path-positive :
    (parent : Bool) (b : Bits) (bs : List Bits)
    → IsFresh (b ∷ bs)
    → last_done false (set_path positive parent (b ∷ bs)) ≡ (parent || some_selected (b ∷ bs))
unfolding set_path
set_path-positive parent b [] h = ground arith
set_path-positive parent b (c ∷ bs) h =
    ground (arith, set_path-positive (b.do_userselected || parent) c bs h.1)

abbrev pub two_selected : Bool → List Bits → Bool
two_selected parent [] = parent
two_selected parent (b ∷ []) = parent || b.do_userselected
two_selected parent (b ∷ c ∷ bs) = two_selected b.do_userselected (c ∷ bs)

-- Without recursion an entry is handled exactly if it or its parent was selected by the user.
pub set_path-level_zero :
    (parent : Bool) (b : Bits) (bs : List Bits)
    → IsFresh (b ∷ bs)
    → last_done false (set_path level_zero parent (b ∷ bs)) ≡ two_selected parent (b ∷ bs)
unfolding set_path
set_path-level_zero parent b [] h = ground arith
set_path-level_zero parent b (c ∷ bs) h =
    ground (arith, set_path-level_zero b.do_userselected c bs h.1)

-- The children of a directory are said to be interesting exactly if a child that is not selected
-- itself would be handled.
pub are_children_interesting_iff :
    (r : Recursive) (dir_selected : Bool) (b : Bits)
    → b.do_userselected ≡ false
    → b.do_this_entry ≡ false
    → are_children_interesting r dir_selected
      ≡ (set_todo_bits r (some dir_selected) b).do_this_entry
unfolding are_children_interesting set_todo_bits
are_children_interesting_iff r d b h k = ground arith
