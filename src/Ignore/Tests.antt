-- ===== src/Ignore/Tests.antt =====
-- Runs of the functions of src/ignore.c, and the theorems at concrete patterns.
use fsvs.Prelude.{
  ℕ, ◌+◌, ◌-◌, ◌&&◌, ◌*◌, ◌≤◌, ◌≡◌, refl, true, false, none, some, List, [], ◌∷◌, Bool-cases, leb,
  Bytes, codes, length, strcmp_eq, strncmp_eq, arith, inl, inr, if◌then◌else◌,
}
use fsvs.Ignore.Translate.{text, compile_shell, compile_shell_abs, strip_wc_path, rest_is, compiled}
use fsvs.Ignore.Translate.Room.{compile_shell_total, strip_wc_path_sibling}
use fsvs.Ignore.Translate.Tokens.{
  Token, letter, any_letter, in_directory, directories, print_onto, anchored_meaning,
  compile_shell-print_onto,
}
use fsvs.Ignore.Match.{is_ignore, unknown, taken, ignored, ok}
use fsvs.Ignore.Pattern.{
  Stat, shell, inode, device, Pattern, Entry, Services, matched, no_match, too_small, Scratch,
  is_dir,
}
use fsvs.Ignore.Parse.{Rule, init_pattern_into}
use fsvs.Ignore.Specification.{Services as Libc, einval, fault, stopif, device_spec}
use fsvs.Ignore.Parse.Sound.{IsRule, init_pattern_into-IsRule}
use fsvs.Ignore.Specification.Sound.{Fine}
use fsvs.Ignore.Match.First.{Decides, is_ignore-Decides}
use fsvs.Ignore.Pattern.Holds.{Promises, pattern_holds}
use fsvs.Ignore.Match.Stale.{is_ignore-twice}

-- `*` in a directory, and characters that are no words.
star_run : compile_shell (codes "./a*.b") ≡ text (codes "\\./a[^/]*\\.b$")
unfolding compile_shell
star_run = refl

directories_run : compile_shell (codes "./**/b/") ≡ text (codes "\\./(.*/)?b($|/)")
unfolding compile_shell
directories_run = refl

bracket_run : compile_shell (codes "./[!a]") ≡ text (codes "\\./[^a]$")
unfolding compile_shell
bracket_run = refl

abs_run : compile_shell_abs (codes "/etc") false (codes "/etc/a?") ≡ compiled (text (codes "./a.$"))
unfolding compile_shell_abs strncmp_eq
abs_run = refl

-- A backslash at the end takes away the anchor.
backslash_run : compile_shell (codes "./a\\") ≡ text (codes "\\./a\\$")
unfolding compile_shell
backslash_run = refl

compile_shell_total_example :
    (out : Bytes) × (compile_shell (codes "./a*b") ≡ text out)
    × (length out + 1 ≤ 5 * length (codes "./a*b") + 16)
compile_shell_total_example = compile_shell_total (codes "a*b")

strip_wc_path_sibling_example :
    strip_wc_path (codes "/etc") false (codes "/etcetera") ≡ rest_is (codes "tera")
strip_wc_path_sibling_example =
    strip_wc_path_sibling (codes "/etc") false b'e' (codes "tera") (omega arith)

abbrev tokens : List Token
tokens = directories ∷ letter b'a' ∷ in_directory ∷ any_letter ∷ []

compile_shell-print_onto_example :
    compile_shell (print_onto (letter b'.' ∷ letter b'/' ∷ tokens))
    ≡ text (anchored_meaning (letter b'.' ∷ letter b'/' ∷ tokens))
compile_shell-print_onto_example = compile_shell-print_onto tokens (refl, (refl, (refl, tt)))

-- An entry of a directory, and a library that asks for larger match data first.
abbrev services : Services
services = record {
  pcre2_match = λ re path size.
      if leb 3 size then (if strcmp_eq re path then matched else no_match) else too_small;
  create = λ size. true;
  load_group = λ name. inr (record { is_ignore = strcmp_eq name (codes "ignore") });
  major_of = λ dev. dev;
  minor_of = λ dev. 0;
}

abbrev path : Bytes
path = codes "./a.o"

services-Promises : Promises services strcmp_eq path 3
services-Promises = (
  λ re size h. ground arith,
  λ re size. elim (Bool-cases (leb 3 size)) [ inl e ↦ inr (rw e refl) | inr e ↦ inl (rw e refl) ],
  λ size. refl,
)

abbrev directory : Stat
directory = record { mode = 0x41ed; dev = 8; ino = 2 }

abbrev object : Entry
object = record {
  parent = some directory;
  to_be_ignored = false;
  st = record { mode = 0x89ed; dev = 8; ino = 77 };
  path = inr path;
}

abbrev by_inode : ℕ → Pattern
by_inode ino = record {
  group_name = codes "ignore";
  group_def = none;
  kind = inode (record { mode = 0; dev = 8; ino = ino });
  mode_match_and = 0;
  mode_match_cmp = 0;
  dir_only = false;
  stats_tested = 0;
  stats_matches = 0;
}

abbrev by_name : Pattern
by_name = record (by_inode 0) { group_name = codes "take"; kind = shell (some path) }

-- A pattern like "mode:04000:0".
abbrev by_mode : Pattern
by_mode = record (by_inode 0) { kind = shell none; mode_match_and = 0x800; mode_match_cmp = 0x800 }

abbrev scratch : Scratch
scratch = record { created = false; size = 2 }

taken_run :
    (is_ignore services 2 object scratch (by_inode 76 ∷ by_name ∷ by_mode ∷ [])).is_ignored ≡ taken
unfolding is_ignore strcmp_eq
taken_run = refl

is_ignore-Decides_example :
    let v = is_ignore services 2 object scratch (by_inode 76 ∷ by_name ∷ []) in
    (v.status ≡ ok)
    × Decides services strcmp_eq directory path object.st (by_inode 76 ∷ by_name ∷ []) v
is_ignore-Decides_example =
    is_ignore-Decides services strcmp_eq path 3 1 object directory scratch
      (by_inode 76 ∷ by_name ∷ []) services-Promises (omega arith)
      ((tt, _, refl), (((path, refl), _, refl), tt)) refl refl refl

is_ignore-twice_example :
    let v = is_ignore services 2 object scratch (by_inode 76 ∷ by_mode ∷ []) in
    (v.is_ignored ≡ ignored)
    × ((is_ignore services 2 object v.scratch v.patterns).is_ignored ≡ unknown)
is_ignore-twice_example =
    is_ignore-twice services strcmp_eq path 3 1 object directory scratch (by_inode 76) by_mode
      (record { is_ignore = true }) (record { is_ignore = true }) services-Promises (omega arith)
      refl refl refl tt (unfold strcmp_eq in refl) (unfold pattern_holds in refl) refl
      (unfold is_dir in refl) refl (unfold strcmp_eq in refl)

-- Numbers of one digit.
abbrev digit : Bytes → ℕ × ℕ
digit [] = (0, 0)
digit (c ∷ s) = if leb b'0' c && leb c b'9' then (c - b'0', 1) else (0, 0)

abbrev libc : Libc
libc = record {
  strtoul = digit;
  strtoull = digit;
  sscanf_modes = λ s. none;
  mkdev = λ major minor. 256 * major + minor;
  pcre2_compile = λ icase re. true;
  wc_path = codes "/etc";
  warned = false;
}

abbrev accepted : Rule
accepted = record {
  pattern = codes "take,dironly,./a*";
  group_name = codes "take";
  kind = shell (some (codes "\\./a[^/]*$"));
  mode_match_and = 0;
  mode_match_cmp = 0;
  dir_only = true;
  is_icase = false;
}

accepted_run : init_pattern_into libc (codes " take,dironly,./a*") ≡ inr accepted
unfolding init_pattern_into stopif strncmp_eq
accepted_run = refl

-- A second group is refused.
twice_run : init_pattern_into libc (codes "take,group:a,./a*") ≡ inl einval
unfolding init_pattern_into stopif strncmp_eq
twice_run = refl

-- A device can be compared with "<>", for which the test has no case.
device_run :
    device_spec libc (codes "<>8")
    ≡ inr (device (record { major = 8; minor = 0; compare = 5; has_minor = false }))
unfolding device_spec stopif
device_run = refl

-- The base of the working copy itself is read behind its end.
base_run : init_pattern_into libc (codes "/etc") ≡ inl fault
unfolding init_pattern_into stopif strncmp_eq
base_run = refl

init_pattern_into-IsRule_example : Fine IsRule (init_pattern_into libc (codes "take,dironly,./a*"))
init_pattern_into-IsRule_example = init_pattern_into-IsRule libc (codes "take,dironly,./a*")
