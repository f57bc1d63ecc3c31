-- ===== src/Ignore/Pattern.antt =====
-- The test of one pattern in `ign__is_ignore` of src/ignore.c, with `ign___compare_dev` and `dir___f_sort_by_inodePP` of
-- src/direnum.c.
pub mod Holds
use Prim.Native.Nat.{bit_and}
use fsvs.Prelude.{
  ℕ, zero, suc, ◌+◌, ◌%◌, ◌^◌, Bool, true, false, not, ◌&&◌, ◌||◌, Option, none, some, List, [],
  ◌∷◌, ltb, ◌==◌, ◌⊎◌, inl, inr, if◌then◌else◌, Bytes,
}

-- `struct sstat_t`, as far as patterns look at it.
pub record Stat : Type 0 where
  pub mode : ℕ
  pub dev : ℕ
  pub ino : ℕ

-- `PT_DEVICE`: `compare` has the bits 1 for less, 2 for equal, and 4 for greater.
pub record Device : Type 0 where
  pub major : ℕ
  pub minor : ℕ
  pub compare : ℕ
  pub has_minor : Bool

-- `type` with the member of the union that belongs to it. A pattern can have no compiled expression.
pub data Kind : Type 0 where
  shell pcre shell_abs : Option Bytes → Kind
  device : Device → Kind
  inode : Stat → Kind

pub record Group : Type 0 where
  pub is_ignore : Bool

-- `struct ignore_t`
pub record Pattern : Type 0 where
  pub group_name : Bytes
  pub group_def : Option Group
  pub kind : Kind
  pub mode_match_and : ℕ
  pub mode_match_cmp : ℕ
  pub dir_only : Bool
  pub stats_tested : ℕ
  pub stats_matches : ℕ

-- `struct estat`: `parent` has the numbers of the directory, `path` is what `ops__build_path` gives.
pub record Entry : Type 0 where
  pub parent : Option Stat
  pub to_be_ignored : Bool
  pub st : Stat
  pub path : ℕ ⊎ Bytes

-- What `pcre2_match` returns: a positive number, 0, PCRE2_ERROR_NOMATCH, or another error.
pub data Matched : Type 0 where
  matched too_small no_match : Matched
  bad : ℕ → Matched

-- The code that is called: `pcre2_match` for an expression, a path, and the size of the match data; whether
-- `pcre2_match_data_create` succeeds; `ign___load_group`; and MAJOR and MINOR.
pub record Services : Type 0 where
  pub pcre2_match : Bytes → Bytes → ℕ → Matched
  pub create : ℕ → Bool
  pub load_group : Bytes → ℕ ⊎ Group
  pub major_of : ℕ → ℕ
  pub minor_of : ℕ → ℕ

-- The results of comparisons, from -2 to +2.
pub data Order : Type 0 where
  minus_two minus_one equal plus_one plus_two : Order

-- `ign___compare_dev`
unfoldable pub compare_dev : Services → Stat → Device → Order
compare_dev sv st ign =
    if ltb ign.major (sv.major_of st.dev)
    then plus_two
    else if ltb (sv.major_of st.dev) ign.major
    then minus_two
    else if not ign.has_minor
    then equal
    else if ltb ign.minor (sv.minor_of st.dev)
    then plus_one
    else if ltb (sv.minor_of st.dev) ign.minor
    then minus_one
    else equal

-- `dir___f_sort_by_inodePP`
unfoldable pub sort_by_inode : Stat → Stat → Order
sort_by_inode a b =
    if ltb b.dev a.dev
    then plus_two
    else if ltb a.dev b.dev
    then minus_two
    else if ltb b.ino a.ino
    then plus_one
    else if ltb a.ino b.ino
    then minus_one
    else equal

abbrev pub is_less : Order → Bool
is_less minus_two = true
is_less minus_one = true
is_less _ = false

abbrev pub is_equal : Order → Bool
is_equal equal = true
is_equal _ = false

-- The `switch` on `ign->compare`; `none` where it has no case.
unfoldable pub device_holds : ℕ → Order → Option Bool
device_holds compare o =
    if compare == 1
    then some (is_less o)
    else if compare == 3
    then some (is_less o || is_equal o)
    else if compare == 2
    then some (is_equal o)
    else if compare == 6
    then some (not (is_less o))
    else if compare == 4
    then some (not (is_less o || is_equal o))
    else none

-- S_ISDIR
unfoldable pub is_dir : ℕ → Bool
is_dir mode = bit_and mode 0xf000 == 0x4000

-- `match_data` and `pcre2_match_data_size`, which are kept from call to call.
pub record Scratch : Type 0 where
  pub created : Bool
  pub size : ℕ

-- How a test ends: with the status 0, with another one that means that the pattern does not match, with an
-- error, or without fuel.
pub data Ended : Type 0 where
  found missed endless : Ended
  failed : ℕ → Ended

abbrev pub enomem : ℕ
enomem = 12

-- The loop about `pcre2_match`, which makes the match data larger as long as they are too small.
unfoldable pub run_match : Services → Bytes → Bytes → ℕ → Scratch → Ended × Scratch
run_match sv re path zero s = (endless, s)
run_match sv re path (suc fuel) s =
    let larger = run_match sv re path fuel (record s { size = s.size + 5 }) in
    elim (sv.pcre2_match re path s.size) [
      | matched ↦ (found, s)
      | no_match ↦ (missed, s)
      | bad e ↦ (failed e, s)
      | too_small ↦
          if sv.create (s.size + 5)
          then larger
          else (failed enomem, record { created = false; size = s.size + 5 })
    ]

-- `status` as it was, where a test does not set it; and its negation.
abbrev pub kept : Bool → Ended
kept is_zero = if is_zero then found else missed

-- The test of a shell or pcre pattern.
unfoldable pub test_text :
    Services → ℕ → Bool → Bytes → ℕ → Pattern → Option Bytes → Scratch → Ended × Scratch
unfolding run_match is_dir
test_text sv fuel is_zero path mode p compiled s =
    if p.dir_only && not (is_dir mode)
    then (missed, s)
    else if not (p.mode_match_and == 0) && not (bit_and mode p.mode_match_and == p.mode_match_cmp)
    then (missed, s)
    else elim compiled [ none ↦ (kept is_zero, s) | some re ↦ run_match sv re path fuel s ]

-- Directories are taken at the numbers of their parent.
unfoldable pub test_device : Services → Bool → Stat → Stat → Device → Ended
unfolding compare_dev device_holds is_dir
test_device sv is_zero dir st d =
    elim (device_holds d.compare (compare_dev sv (if is_dir st.mode then dir else st) d)) [
      | none ↦ kept (not is_zero)
      | some b ↦ kept b
    ]

unfoldable pub test_pattern :
    Services → ℕ → Bool → Stat → Bytes → Stat → Pattern → Scratch → Ended × Scratch
unfolding test_text test_device sort_by_inode
test_pattern sv fuel is_zero dir path st p s = elim p.kind [
  | shell c ↦ test_text sv fuel is_zero path st.mode p c s
  | pcre c ↦ test_text sv fuel is_zero path st.mode p c s
  | shell_abs c ↦ test_text sv fuel is_zero path st.mode p c s
  | device d ↦ (test_device sv is_zero dir st d, s)
  | inode i ↦ (kept (is_equal (sort_by_inode i st)), s)
]
