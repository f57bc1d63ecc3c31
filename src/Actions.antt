-- ===== src/Actions.antt =====
-- `ac__dispatch` and `act__find_action_by_name` of src/actions.c: finding an action by its name, and
-- which entries its callback is called for.
pub mod Names
pub mod FindByName
pub mod Dispatch
pub mod Tests
use fsvs.Prelude.{
  ℕ, zero, suc, ◌+◌, Bool, true, false, not, ◌&&◌, ◌||◌, Option, none, some, List, [], ◌∷◌, ltb,
  leb, ◌==◌, if◌then◌else◌, Bytes, length, strncmp_eq, get_elem?,
}

-- The loop over the names of one action: no match, a match of the beginning, or of the whole.
pub data Match : Type 0 where
  no_match prefix exact : Match

unfoldable pub match_names : Bytes → List Bytes → Match
match_names cmd [] = no_match
match_names cmd (cp ∷ names) =
    let further = match_names cmd names in
    if strncmp_eq cp cmd (length cmd)
    then (if length cmd == length cp then exact else prefix)
    else further

-- The outcome: `*action_p` as an index of `action_list`, or ENOENT or EINVAL.
pub data Found : Type 0 where
  found : ℕ → Found
  enoent einval : Found

-- The checks behind the loop.
unfoldable pub check_matches : ℕ → ℕ → Found
check_matches action_v match_nr =
    if ltb match_nr 1 then enoent else if leb 2 match_nr then einval else found action_v

-- The loop from the last action to the first: for the actions below `n`, with `action_v` and `match_nr`.
unfoldable pub find_below : Bytes → List (List Bytes) → ℕ → ℕ → ℕ → Found
unfolding match_names check_matches
find_below cmd action_list zero action_v match_nr = check_matches action_v match_nr
find_below cmd action_list (suc i) action_v match_nr = elim (get_elem? action_list i) [
  | none ↦ find_below cmd action_list i action_v match_nr
  | some names ↦ elim (match_names cmd names) [
    | no_match ↦ find_below cmd action_list i action_v match_nr
    | prefix ↦ find_below cmd action_list i i (match_nr + 1)
    | exact ↦ found i
  ]
]

-- `act__find_action_by_name`
unfoldable pub find_action_by_name : List (List Bytes) → Bytes → Found
unfolding find_below
find_action_by_name action_list cmd = find_below cmd action_list (length action_list) 0 0

-- What `ac__dispatch` looks at: whether the action has a callback, `ops__allowed_by_filter`,
-- FS_CHILD_CHANGED, the option all_removed, and the parent's FS_REMOVED and FS_NEW, if there is one.
pub record Seen : Type 0 where
  pub has_callback : Bool
  pub allowed_by_filter : Bool
  pub child_changed : Bool
  pub all_removed : Bool
  pub parent : Option (Bool × Bool)

-- `(parent->entry_status & FS_REPLACED) == FS_REMOVED`, as FS_REPLACED is FS_REMOVED with FS_NEW.
unfoldable pub only_removed : Option (Bool × Bool) → Bool
only_removed none = false
only_removed (some (removed, is_new)) = removed && not is_new

-- `ac__dispatch`: the callback on a state, or nothing and the status 0.
unfoldable pub dispatch {ℓ} : {S : Type ℓ} → (S → S × ℕ) → Seen → S → S × ℕ
unfolding only_removed
dispatch local_callback e s =
    if not e.has_callback
    then (s, 0)
    else if e.allowed_by_filter || e.child_changed
    then (if e.all_removed || not (only_removed e.parent) then local_callback s else (s, 0))
    else (s, 0)
