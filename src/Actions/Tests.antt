-- ===== src/Actions/Tests.antt =====
-- Runs of the functions of src/actions.c, and the theorems at concrete lists of actions.
use fsvs.Prelude.{
  ℕ, ◌+◌, ◌<◌, ◌≡◌, refl, ◌⊎◌, ◌↔◌, get_elem?, true, false, some, List, [], ◌∷◌, length, codes,
  Bytes, strncmp_eq,
}
use fsvs.Actions.{Seen, dispatch, found, enoent, einval, find_action_by_name}
use fsvs.Actions.Names.{NoneBegins}
use fsvs.Actions.FindByName.{
  IsOnly, IsLastNamed, find_action_by_name-found, find_action_by_name-enoent,
}

-- Some of the actions of the program.
abbrev names : List (List Bytes)
names =
    (codes "commit" ∷ codes "checkin" ∷ codes "ci" ∷ [])
    ∷ (codes "checkout" ∷ codes "co" ∷ [])
    ∷ (codes "status" ∷ [])
    ∷ (codes "sync-repos" ∷ [])
    ∷ []

by_name : find_action_by_name names (codes "co") ≡ found 1
unfolding find_action_by_name strncmp_eq
by_name = refl

by_beginning : find_action_by_name names (codes "st") ≡ found 2
unfolding find_action_by_name strncmp_eq
by_beginning = refl

ambiguous : find_action_by_name names (codes "s") ≡ einval
unfolding find_action_by_name strncmp_eq
ambiguous = refl

unknown : find_action_by_name names (codes "x") ≡ enoent
unfolding find_action_by_name strncmp_eq
unknown = refl

find_action_by_name-found_example :
    (2 < length names) × (IsLastNamed (codes "st") names 2 ⊎ IsOnly (codes "st") names 2)
find_action_by_name-found_example = find_action_by_name-found names (codes "st") by_beginning

find_action_by_name-enoent_example :
    (find_action_by_name names (codes "x") ≡ enoent)
    ↔ ((j : ℕ) (ns : List Bytes) → get_elem? names j ≡ some ns → NoneBegins (codes "x") ns)
find_action_by_name-enoent_example = find_action_by_name-enoent names (codes "x")

-- A callback that counts its calls and fails.
abbrev count : ℕ → ℕ × ℕ
count s = (s + 1, 5)

abbrev under_removed : Seen
under_removed = record {
  has_callback = true;
  allowed_by_filter = true;
  child_changed = false;
  all_removed = false;
  parent = some (true, false);
}

not_shown : dispatch count under_removed 7 ≡ (7, 0)
unfolding dispatch
not_shown = refl

shown : dispatch count (record under_removed { parent = some (true, true) }) 7 ≡ (8, 5)
unfolding dispatch
shown = refl
