-- ===== src/EstOps/Paths/Tests.antt =====
-- Paths of entries, and the theorem about them at an entry with two parents.
use fsvs.Prelude.{arith, ◌≡◌, refl, inl, inr, none, some, List, [], ◌∷◌, codes, length}
use fsvs.EstOps.Paths.{Node, path_len_of, build_path, get_filename, split_fnpart}
use fsvs.EstOps.Paths.Built.{joined_path, names, IsKnown, build_path-joined}

-- The length of the entry is not known yet.
abbrev chain : List Node
chain =
    record { name = codes "file"; path_len = 0 }
    ∷ record { name = codes "dir"; path_len = 5 }
    ∷ record { name = codes "."; path_len = 1 }
    ∷ []

path_built : build_path chain ≡ (
  some (codes "./dir/file"),
  record { name = codes "file"; path_len = 10 }
      ∷ record { name = codes "dir"; path_len = 5 }
      ∷ record { name = codes "."; path_len = 1 }
      ∷ [],
)
unfolding build_path
path_built = refl

file_part : get_filename (codes "./dir/file") ≡ codes "file"
unfolding get_filename
file_part = refl

first_part : split_fnpart (codes "abc//def/ghi") ≡ (codes "abc", some (codes "def/ghi"))
unfolding split_fnpart
first_part = refl

only_part : split_fnpart (codes "name////") ≡ (codes "name", none)
unfolding split_fnpart
only_part = refl

build_path-joined_example :
    ((build_path chain).0 ≡ some (joined_path (names chain)))
    × (length (joined_path (names chain)) ≡ path_len_of (build_path chain).1)
    × IsKnown (build_path chain).1
    × (names (build_path chain).1 ≡ names chain)
build_path-joined_example =
    build_path-joined record { name = codes "file"; path_len = 0 } _
      (inl refl, (inr (refl, (refl, refl)), (refl, inr refl))) (omega arith)
