-- ===== src/Options/Tests.antt =====
-- Runs of the functions of src/options.c, and the theorems at concrete options.
use fsvs.Prelude.{
  ltb, if◌then◌else◌, skip_ws, ◌≡◌, refl, none, some, [], ◌∷◌, arith, codes, get_elem?, strcmp_eq,
  strncmp_eq, split_at_first,
}
use fsvs.Options.{
  Value, ok, Strings, find_string, string2val, strings2bitmap, words, or_words, is_clearing,
  Setting, parse_option, parse, load_env,
}
use fsvs.Options.Priority.{string2val-Overwrites, set_to, parse_option_comm}
use fsvs.Options.Bitmap.{or_all, values, strings2bitmap-clearing}
use fsvs.Options.Env.{load_env_keeps}

-- opt___filter_strings, in part.
abbrev filter_strings : Strings
filter_strings =
    (0x7, codes "text") ∷ (0x20, codes "mtime") ∷ (0x40, codes "owner") ∷ (0, codes "none") ∷ []

abbrev yes_no : Strings
yes_no = (1, codes "yes") ∷ (0, codes "no") ∷ []

abbrev unset : Value
unset = record { i_val = 0x200; cp_val = none }

split_words : words (codes "mtime,:a") ≡ codes "mtime" ∷ [] ∷ codes "a" ∷ []
unfolding words
split_words = refl

combined :
    strings2bitmap filter_strings (codes "mtime,owner") 7 unset
    ≡ (record unset { i_val = 0x260 }, ok)
unfolding strings2bitmap words find_string strcmp_eq or_words is_clearing
combined = refl

strings2bitmap-clearing_example :
    strings2bitmap filter_strings (codes "text,none,mtime") 7 unset
    ≡ (record unset { i_val = or_all 0 (values filter_strings (codes "mtime" ∷ [])) }, ok)
strings2bitmap-clearing_example =
    strings2bitmap-clearing filter_strings (codes "text,none,mtime") 7 unset (codes "text" ∷ [])
      (codes "mtime" ∷ []) (codes "none") 0 (unfold words in refl)
      ((7, unfold find_string strcmp_eq in refl), tt) (unfold find_string strcmp_eq in refl)
      (unfold is_clearing in refl)
      ((0x20, unfold find_string strcmp_eq in refl, unfold is_clearing in refl), tt)

abbrev dir_sort : Setting
dir_sort = record { name = codes "dir_sort"; parse = string2val yes_no; value = unset; prio = 0 }

abbrev on_command_line : Setting
on_command_line = record dir_sort { name = codes "stat_color"; prio = 7 }

parse_option_comm_example :
    (parse_option (parse_option dir_sort 1 (codes "yes")).0 5 (codes " no")
      ≡ parse_option dir_sort 5 (codes " no"))
    × (parse_option (parse_option dir_sort 5 (codes " no")).0 1 (codes "yes")
        ≡ parse_option dir_sort 5 (codes " no"))
    × (parse_option dir_sort 5 (codes " no") ≡ (
      if ltb 5 dir_sort.prio
          then dir_sort
          else set_to dir_sort 5 (dir_sort.parse (skip_ws (codes " no")) 5 dir_sort.value).0,
      ok,
    ))
parse_option_comm_example =
    parse_option_comm dir_sort (codes "yes") (codes " no") 1 5 (string2val-Overwrites yes_no)
      (omega arith) (unfold skip_ws string2val find_string strcmp_eq in refl)
      (unfold skip_ws string2val find_string strcmp_eq in refl)

dashed :
    parse (dir_sort ∷ []) (codes "dir-sort=yes") none 7
    ≡ (record dir_sort { value = record unset { i_val = 1 }; prio = 7 } ∷ [], ok)
unfolding parse split_at_first string2val find_string strcmp_eq
dashed = refl

from_environment :
    load_env (dir_sort ∷ []) (codes "FSVS_DIR_SORT=yes" ∷ codes "FSVS_X=1" ∷ codes "HOME=/" ∷ [])
    ≡ (record dir_sort { value = record unset { i_val = 1 }; prio = 5 } ∷ [], ok)
unfolding load_env strncmp_eq string2val find_string strcmp_eq
from_environment = refl

load_env_keeps_example :
    get_elem? (load_env (dir_sort ∷ on_command_line ∷ []) (codes "FSVS_STAT_COLOR=yes" ∷ [])).0 1
    ≡ some on_command_line
load_env_keeps_example =
    load_env_keeps (dir_sort ∷ on_command_line ∷ []) (codes "FSVS_STAT_COLOR=yes" ∷ []) 1 refl
      (omega arith)
