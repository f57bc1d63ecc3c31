-- ===== src/CopyMove/Tests.antt =====
-- Runs of the functions of src/cp_mv.c, and the theorems at concrete copies.
use Prim.Native.Nat.{compare}
use fsvs.Prelude.{
  ℕ, ◌≤◌, ◌≡◌, ◌↔◌, refl, Bool, true, false, Option, none, some, List, [], ◌∷◌, ◌++◌, if◌then◌else◌,
  Bytes, codes, strcmp_eq, arith,
}
use fsvs.EstOps.Paths.{build_path}
use fsvs.EstOps.Correlate.{events}
use fsvs.CopyMove.{
  Entry, source, enoent, string_to_rev_path, rev_path_to_string, get_source, registered_key,
  common_of, match_count,
}
use fsvs.CopyMove.Text.{string_to_rev_path-rev_path_to_string, rev_path_to_string-long}
use fsvs.CopyMove.Below.{HasSource, get_source-below}
use fsvs.CopyMove.Similar.{IsPaired, match_count-events}

stored_source : rev_path_to_string (codes "file:///r/a") 17 ≡ some (codes "0 17 file:///r/a")
unfolding rev_path_to_string
stored_source = refl

parsed_source : string_to_rev_path (codes "0 17 file:///r/a") ≡ some (codes "file:///r/a", 17)
unfolding string_to_rev_path
parsed_source = refl

other_version : string_to_rev_path (codes "1 17 file:///r/a") ≡ none
unfolding string_to_rev_path
other_version = refl

string_to_rev_path-rev_path_to_string_example :
    (s : Bytes) × (rev_path_to_string (codes "file:///r/a") 99999999 ≡ some s)
    × (string_to_rev_path s ≡ some (codes "file:///r/a", 99999999))
string_to_rev_path-rev_path_to_string_example =
    string_to_rev_path-rev_path_to_string (codes "file:///r/a") 99999999 refl (omega arith)

rev_path_to_string-long_example : rev_path_to_string (codes "file:///r/a") 100000000 ≡ none
rev_path_to_string-long_example =
    rev_path_to_string-long (codes "file:///r/a") 100000000 (omega arith)

-- ./dst was copied, and dst/sub/file is in it.
abbrev entry : Bytes → ℕ → Bool → Bool → Entry
entry name path_len is_base is_sub = record {
  node = record { name = name; path_len = path_len };
  is_base = is_base;
  is_sub = is_sub;
}

abbrev root : List Entry
root = entry (codes ".") 1 false false ∷ []

abbrev copied : Entry
copied = entry (codes "dst") 0 true false

abbrev sources : Bytes → Option Bytes
sources name = if strcmp_eq name (codes "dst") then some (codes "0 17 file:///r/src") else none

copied-HasSource : HasSource sources (copied ∷ root) (codes "file:///r/src") 17
unfolding strcmp_eq string_to_rev_path build_path
copied-HasSource = record {
  name = codes "./dst";
  value = codes "0 17 file:///r/src";
  path = refl;
  found = refl;
  parsed = refl;
}

copied_key : registered_key sources (copied ∷ root) none true ≡ some (codes "dst")
unfolding registered_key strcmp_eq
copied_key = refl

no_source : get_source sources (entry (codes "new") 0 false false ∷ root) none ≡ enoent
unfolding get_source
no_source = refl

get_source-below_example :
    get_source sources
      (entry (codes "file") 0 false true ∷ (entry (codes "sub") 0 false true ∷ [] ++ copied ∷ root))
      none
    ≡ source (codes "file:///r/src/sub/file") 27 17
get_source-below_example =
    get_source-below sources (entry (codes "file") 0 false true)
      (entry (codes "sub") 0 false true ∷ []) copied root (codes "file:///r/src") 17 none refl refl
      (refl, tt) refl copied-HasSource

match_count-events_example :
    (match_count 3 2 (common_of (events compare (1 ∷ 2 ∷ 4 ∷ []) (2 ∷ 3 ∷ []))) ≤ 1000)
    × ((match_count 3 2 (common_of (events compare (1 ∷ 2 ∷ 4 ∷ []) (2 ∷ 3 ∷ []))) ≡ 1000)
        ↔ IsPaired (events compare (1 ∷ 2 ∷ 4 ∷ []) (2 ∷ 3 ∷ [])))
match_count-events_example =
    match_count-events compare (1 ∷ 2 ∷ 4 ∷ []) (2 ∷ 3 ∷ []) (omega arith) (omega arith)
      (omega arith)
