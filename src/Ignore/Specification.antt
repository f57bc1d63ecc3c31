-- ===== src/Ignore/Specification.antt =====
-- The specifications in the text of a pattern, for `ign___init_pattern_into` and `ign__compile_pattern` of src/ignore.c.
pub mod Sound
use Prim.Native.Nat.{bit_and, bit_or}
use fsvs.Prelude.{
  is_space, ℕ, zero, suc, ◌+◌, ◌-◌, ◌%◌, ◌^◌, Bool, true, false, not, ◌&&◌, ◌||◌, Option, none,
  some, List, [], ◌∷◌, ◌++◌, ltb, leb, ◌==◌, ◌⊎◌, inl, inr, if◌then◌else◌, Bytes, codes, length,
  drop, strncmp_eq, all,
}
use fsvs.Ignore.Translate.{
  Outcome, text, Absolute, compiled, compile_shell, compile_shell_abs, starts_with,
}
use fsvs.Ignore.Translate.{
  enospc as no_space, fault as overrun, endless as unfinished, einval as not_below,
}
use fsvs.Ignore.Pattern.{Stat, Device, Kind, shell, pcre, shell_abs, device, inode}

-- EINVAL, ENOSPC, a read behind the end of the text, and the end of the fuel.
pub data Error : Type 0 where
  einval enospc fault endless : Error

-- `data_seen`
pub record DataSeen : Type 0 where
  pub group : Bool
  pub dir : Bool
  pub icase : Bool
  pub mode : Bool
  pub pattern_subst : Bool

-- The fields of `struct ignore_t` that come from the text. `kind` is `none` while there is no pattern.
pub record Draft : Type 0 where
  pub group_name : Option Bytes
  pub kind : Option Kind
  pub mode_match_and : ℕ
  pub mode_match_cmp : ℕ
  pub dir_only : Bool
  pub is_icase : Bool
  pub data_seen : DataSeen

-- The code that is called: `strtoul` and `strtoull` give the number and how many characters they took (0: none),
-- `sscanf` for "%o:%o%n" gives the numbers by their 32 bits and the length; MKDEV; whether `pcre2_compile` accepts
-- an expression; the base path, and whether `wa__warn` lets an absolute pattern pass that is not below it.
pub record Services : Type 0 where
  pub strtoul : Bytes → ℕ × ℕ
  pub strtoull : Bytes → ℕ × ℕ
  pub sscanf_modes : Bytes → Option (ℕ × ℕ × ℕ)
  pub mkdev : ℕ → ℕ → ℕ
  pub pcre2_compile : Bool → Bytes → Bool
  pub wc_path : Bytes
  pub warned : Bool

abbrev pub is_alpha : ℕ → Bool
is_alpha c = (leb b'a' c && leb c b'z') || (leb b'A' c && leb c b'Z')

abbrev pub is_alnum : ℕ → Bool
is_alnum c = is_alpha c || (leb b'0' c && leb c b'9')

unfoldable pub letters : Bytes → Bytes × Bytes
letters [] = ([], [])
letters (c ∷ s) = let (w, rest) = letters s in if is_alpha c then (c ∷ w, rest) else ([], c ∷ s)

-- Up to `ign___parm_delimiter`.
unfoldable pub to_delimiter : Bytes → Bytes × Bytes
to_delimiter [] = ([], [])
to_delimiter (c ∷ s) =
    let (w, rest) = to_delimiter s in if c == b',' then ([], c ∷ s) else (c ∷ w, rest)

unfoldable pub skip_delimiters : Bytes → Bytes
skip_delimiters [] = []
skip_delimiters (c ∷ s) = let rest = skip_delimiters s in if c == b',' then rest else c ∷ s

-- `param` and what is behind the specification: at its delimiter, or at the end.
unfoldable pub param_of : Bytes → Option Bytes × Bytes
unfolding to_delimiter
param_of [] = (none, [])
param_of (c ∷ s) =
    if c == b':'
    then (some (to_delimiter s).0, (to_delimiter s).1)
    else (none, (to_delimiter (c ∷ s)).1)

-- Whether the word, of `n` letters, abbreviates a keyword.
abbrev pub is_word : Bytes → Bytes → ℕ → Bool
is_word keyword pattern n = strncmp_eq keyword pattern n

-- `STOPIF_CODE_ERR` with EINVAL
unfoldable pub stopif : {A : Type 0} → Bool → Error ⊎ A → Error ⊎ A
stopif b r = if b then inl einval else r

-- `have_now`
abbrev pub have_now : Bool → Draft → Error ⊎ Draft
have_now seen d = stopif seen (inr d)

unfoldable pub group_spec : Option Bytes → Draft → Error ⊎ Draft
group_spec none d = inl einval
group_spec (some []) d = inl einval
group_spec (some (c ∷ name)) d = stopif (d.data_seen.group || not (all is_alnum (c ∷ name))) (
    inr
      (record d { group_name = some (c ∷ name); data_seen = record d.data_seen { group = true } }))

abbrev pub group_word : Bytes → Draft → Error ⊎ Draft
group_word name d =
    have_now d.data_seen.group
      (record d { group_name = some name; data_seen = record d.data_seen { group = true } })

abbrev pub dironly_spec : Draft → Error ⊎ Draft
dironly_spec d = have_now d.data_seen.dir (record d {
  dir_only = true;
  data_seen = record d.data_seen { dir = true; pattern_subst = true };
})

abbrev pub nocase_spec : Draft → Error ⊎ Draft
nocase_spec d =
    have_now d.data_seen.icase
      (record d { is_icase = true; data_seen = record d.data_seen { icase = true } })

-- `value > 07777` for an `int`.
abbrev pub too_big : ℕ → Bool
too_big value = ltb 0o7777 value && ltb value (2 ^ 31)

abbrev pub bad_modes : ℕ → ℕ → Bool
bad_modes and_value cmp_value =
    too_big and_value || too_big cmp_value || not (bit_and cmp_value (2 ^ 32 - 1 - and_value) == 0)

unfoldable pub mode_spec : Services → Option Bytes → Bytes → Draft → Error ⊎ Draft
mode_spec sv none at_param d = inl einval
mode_spec sv (some param) at_param d = elim (sv.sscanf_modes at_param) [
  | none ↦ inl einval
  | some (and_value, cmp_value, stop) ↦
      stopif (d.data_seen.mode || not (stop == length param) || bad_modes and_value cmp_value) (
        inr (record d {
          mode_match_and = and_value % 2 ^ 16;
          mode_match_cmp = cmp_value % 2 ^ 16;
          data_seen = record d.data_seen { mode = true; pattern_subst = true };
        }))
]

-- The operators in front of a device number.
unfoldable pub comparison : ℕ → Bytes → ℕ × Bytes
comparison seen [] = (seen, [])
comparison seen (c ∷ s) =
    let less = comparison (bit_or seen 1) s in
    let same = comparison (bit_or seen 2) s in
    let more = comparison (bit_or seen 4) s in
    if c == b'<'
    then less
    else if c == b'='
    then same
    else if c == b'>'
    then more
    else (seen, c ∷ s)

-- Behind the major number.
unfoldable pub minor_spec : Services → ℕ → ℕ → Bytes → Error ⊎ Kind
minor_spec sv compare major [] =
    inr
      (device (record { major = major % 2 ^ 32; minor = 0; compare = compare; has_minor = false }))
minor_spec sv compare major (c ∷ s) =
    let (minor, n) = sv.strtoul s in
    stopif (not (c == b':') || n == 0 || ltb n (length s)) (
      inr (
        device (record {
          major = major % 2 ^ 32;
          minor = minor % 2 ^ 32;
          compare = compare;
          has_minor = true;
        })))

-- Behind "DEVICE:".
unfoldable pub device_spec : Services → Bytes → Error ⊎ Kind
unfolding comparison minor_spec
device_spec sv s =
    let (seen, at_major) = comparison 0 s in
    let (major, n) = sv.strtoul at_major in
    stopif (n == 0) (minor_spec sv (if seen == 0 then 2 else seen) major (drop n at_major))

-- A number with a ":" behind it.
unfoldable pub number_and_colon : Services → Bytes → Option (ℕ × Bytes)
unfolding starts_with
number_and_colon sv s =
    let (value, n) = sv.strtoul s in
    let rest = drop n s in
    if n == 0 || not (starts_with b':' rest) then none else some (value, drop 1 rest)

-- Behind "INODE:".
unfoldable pub inode_spec : Services → Bytes → Error ⊎ Kind
unfolding number_and_colon
inode_spec sv s = elim (number_and_colon sv s) [
  | none ↦ inl einval
  | some (mj, at_minor) ↦ elim (number_and_colon sv at_minor) [
    | none ↦ inl einval
    | some (mn, at_inode) ↦
        let (ino, n) = sv.strtoull at_inode in
        stopif (n == 0 || ltb n (length at_inode))
          (inr (inode (record { mode = 0; dev = sv.mkdev (mj % 2 ^ 32) (mn % 2 ^ 32); ino = ino })))
  ]
]

-- The end of `ign__compile_pattern`.
abbrev pub compile_text : Services → Bool → (Option Bytes → Kind) → Outcome → Error ⊎ Kind
compile_text sv icase kind (text re) =
    stopif (not (sv.pcre2_compile icase re)) (inr (kind (some re)))
compile_text sv icase kind no_space = inl enospc
compile_text sv icase kind overrun = inl fault
compile_text sv icase kind unfinished = inl endless

-- `ign__compile_pattern`, by the type of the pattern.
unfoldable pub compile_pattern : Services → Bool → Kind → Bytes → Error ⊎ Kind
unfolding compile_shell compile_shell_abs
compile_pattern sv icase (shell c) pattern = compile_text sv icase shell (compile_shell pattern)
compile_pattern sv icase (pcre c) pattern = compile_text sv icase pcre (text pattern)
compile_pattern sv icase (shell_abs c) pattern =
    elim (compile_shell_abs sv.wc_path sv.warned pattern) [
      | compiled o ↦ compile_text sv icase shell_abs o
      | not_below ↦ inl einval
    ]
compile_pattern sv icase other pattern = inr other

-- A pattern that begins with "./", "/" or "PCRE:"; it is at least three characters long.
unfoldable pub text_spec : Services → Bool → Bytes → Error ⊎ Kind
unfolding compile_pattern
text_spec sv icase pattern =
    let kind =
      if strncmp_eq pattern (codes "./") 2
      then shell none
      else if strncmp_eq pattern (codes "/") 1
      then shell_abs none
      else pcre none in
    let is_text = strncmp_eq pattern (codes "./") 2 || strncmp_eq pattern (codes "/") 1 in
    let source = if is_text then pattern else drop 5 pattern in
    stopif (not is_text && not (strncmp_eq (codes "PCRE:") pattern 5))
      (stopif (ltb (length source) 3) (compile_pattern sv icase kind source))
