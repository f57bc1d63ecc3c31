-- ===== src/EstOps/Tests.antt =====
-- Runs of the functions of src/est_ops.c, and the theorems at concrete entries.
use Prim.Native.Nat.{compare}
use fsvs.Prelude.{
  ℕ, ◌+◌, ◌≤◌, ◌<◌, ◌≡◌, refl, ◌↔◌, inl, inr, true, false, none, some, List, [], ◌∷◌, length, arith,
}
use fsvs.EstOps.FreeList.{Block, FreeList, merge, free_block, given, allocate}
use fsvs.EstOps.FreeList.Cells.{inside, cells, NoneEmpty, free_block-cells, allocate-cells}
use fsvs.EstOps.Changes.{Stat, no_change, Same, stat_to_action, stat_to_action-Same}
use fsvs.EstOps.Correlate.{only_a, both, only_b, events}
use fsvs.EstOps.Correlate.Events.{IsCollation, alone_a, without_partner, events-alone_a}
use fsvs.EstOps.Selection.{Bits}
use fsvs.EstOps.Directory.{Child, Dir, free_marked, delete_entry, done, index_of}
use fsvs.EstOps.Directory.Compact.{unmarked, free_marked_lem}

-- Entries 100 to 103 are free, and 200.
abbrev free : FreeList
free = record { addr = 100; count = 4 } ∷ record { addr = 200; count = 1 } ∷ []

abbrev first_free : Block
first_free = record { addr = 100; count = 4 }

abbrev next_free : FreeList
next_free = record { addr = 200; count = 1 } ∷ []

merged : free_block 201 free ≡ first_free ∷ record { addr = 200; count = 2 } ∷ []
unfolding free_block merge
merged = refl

allocated : allocate 60 none 3 free ≡ given 101 3 (record { addr = 100; count = 1 } ∷ next_free)
unfolding allocate
allocated = refl

fresh_block : allocate 60 (some 500) 3 [] ≡ given 500 3 (record { addr = 503; count = 57 } ∷ [])
unfolding allocate
fresh_block = refl

free_block-cells_example : cells (free_block 201 free) 201 ≡ inside 201 1 201 + cells free 201
free_block-cells_example = free_block-cells 201 free 201

allocate-cells_example :
    (start : ℕ) × (got : ℕ) × (list : FreeList) × (allocate 60 none 3 free ≡ given start got list)
    × (0 < got)
    × (got ≤ 3)
    × NoneEmpty list
    × ((x : ℕ) → cells free x ≡ inside start got x + cells list x)
allocate-cells_example =
    allocate-cells 60 none 3 first_free next_free (omega arith, (omega arith, tt)) (omega arith)

-- A file of mode 0100644.
abbrev file : Stat
file = record { mode = 33188; mtime = 5; ctime = 6; uid = 1000; gid = 100; rdev = 0; size = 12 }

grown : stat_to_action file (record file { size = 13 }) false ≡ record no_change { changed = true }
unfolding stat_to_action
grown = refl

stat_to_action-Same_example :
    (stat_to_action file (record file { ctime = 7 }) true ≡ no_change)
    ↔ Same file (record file { ctime = 7 }) true
stat_to_action-Same_example =
    stat_to_action-Same file (record file { ctime = 7 }) true (inr (inr (inr (inl refl))))

-- Names as numbers, in their order.
compare-IsCollation : IsCollation compare
compare-IsCollation = record {
  flip_lt = λ a b h. ground arith;
  flip_gt = λ a b h. ground arith;
  trans_lt = λ a b c h k. ground arith;
  eq_lt = λ a b c h k. ground arith;
}

events_run :
    events compare (1 ∷ 2 ∷ 4 ∷ []) (2 ∷ 3 ∷ []) ≡ only_a 1 ∷ both 2 2 ∷ only_b 3 ∷ only_a 4 ∷ []
unfolding events
events_run = refl

events-alone_a_example :
    alone_a (events compare (1 ∷ 2 ∷ 4 ∷ []) (2 ∷ 3 ∷ []))
    ≡ without_partner compare (1 ∷ 2 ∷ 4 ∷ []) (2 ∷ 3 ∷ [])
events-alone_a_example =
    events-alone_a compare compare-IsCollation (1 ∷ 2 ∷ 4 ∷ []) (2 ∷ 3 ∷ [])
      ((refl, (refl, tt)), ((refl, tt), (tt, tt))) ((refl, tt), (tt, tt))

abbrev plain : Bits
plain = record {
  do_userselected = false;
  do_this_entry = false;
  do_filter_allows = false;
  do_filter_allows_done = false;
}

abbrev chosen : Bits
chosen = record plain { do_userselected = true }

-- Three entries, of which the second is to be ignored.
abbrev children : List Child
children =
    record { key = 1; to_be_ignored = false }
    ∷ record { key = 2; to_be_ignored = true }
    ∷ record { key = 3; to_be_ignored = false }
    ∷ []

abbrev dir : Dir
dir = record { entry_count = 3; by_inode = some children; by_name = some children }

free_marked_lem_example : free_marked dir ≡ record {
  entry_count = length (unmarked children);
  by_inode = some (unmarked children);
  by_name = none;
}
free_marked_lem_example = free_marked_lem dir children refl refl

-- The directory without its second entry.
abbrev two_left : List Child
two_left =
    record { key = 1; to_be_ignored = false } ∷ record { key = 3; to_be_ignored = false } ∷ []

deleted :
    delete_entry dir 2
    ≡ done (record { entry_count = 2; by_inode = some two_left; by_name = some two_left })
unfolding delete_entry index_of
deleted = refl
