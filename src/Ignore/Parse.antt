-- ===== src/Ignore/Parse.antt =====
-- `ign___init_pattern_into` of src/ignore.c: the loop over the specifications of a pattern, and what it makes of
-- them.
pub mod Sound
use Prim.Native.Nat.{bit_and, bit_or}
use fsvs.Prelude.{
  is_space, ℕ, zero, suc, ◌+◌, ◌-◌, ◌%◌, ◌^◌, Bool, true, false, not, ◌&&◌, ◌||◌, Option, none,
  some, List, [], ◌∷◌, ◌++◌, ltb, leb, ◌==◌, ◌⊎◌, inl, inr, if◌then◌else◌, Bytes, codes, length,
  drop, strncmp_eq, all,
}
use fsvs.Ignore.Translate.{
  Outcome, text, Absolute, compiled, compile_shell, compile_shell_abs, starts_with,
}
use fsvs.Ignore.Translate.{
  enospc as no_space, fault as overrun, endless as unfinished, einval as not_below,
}
use fsvs.Ignore.Pattern.{Stat, Device, Kind, shell, pcre, shell_abs, device, inode}
use fsvs.Ignore.Specification.{
  Error, einval, enospc, fault, endless, DataSeen, Draft, Services, is_alpha, is_alnum, letters,
  to_delimiter, skip_delimiters, param_of, is_word, stopif, have_now, group_spec, group_word,
  dironly_spec, nocase_spec, too_big, bad_modes, mode_spec, comparison, minor_spec, device_spec,
  number_and_colon, inode_spec, compile_text, compile_pattern, text_spec,
}

abbrev pub with_kind : Draft → Error ⊎ Kind → Error ⊎ (Draft × Option Bytes)
with_kind d (inl e) = inl e
with_kind d (inr k) = inr (record d { kind = some k }, none)

abbrev pub go_on : Bytes → Error ⊎ Draft → Error ⊎ (Draft × Option Bytes)
go_on rest (inl e) = inl e
go_on rest (inr d) = inr (d, some rest)

-- The branches of the loop for a text that begins with a word of `n` letters, `at_eo_word` behind it. The result
-- has the text at `eo_parm`, or `none` where the loop ends with HAVE_PATTERN.
unfoldable pub word_spec : Services → Draft → Bytes → ℕ → Bytes → Error ⊎ (Draft × Option Bytes)
unfolding param_of group_spec mode_spec device_spec inode_spec text_spec
word_spec sv d pattern n at_eo_word =
    let (param, rest) = param_of at_eo_word in
    if is_word (codes "take") pattern n
    then go_on rest (group_word (codes "take") d)
    else if is_word (codes "ignore") pattern n
    then go_on rest (group_word (codes "ignore") d)
    else if is_word (codes "group:") pattern n
    then go_on rest (group_spec param d)
    else if is_word (codes "dironly") pattern n
    then go_on rest (dironly_spec d)
    else if is_word (codes "nocase") pattern n || is_word (codes "insens") pattern n
    then go_on rest (nocase_spec d)
    else if is_word (codes "mode:") pattern n
    then go_on rest (mode_spec sv param (drop 1 at_eo_word) d)
    else if strncmp_eq (codes "DEVICE:") pattern 7
    then with_kind d (device_spec sv (drop 7 pattern))
    else if strncmp_eq (codes "INODE:") pattern 6
    then with_kind d (inode_spec sv (drop 6 pattern))
    else with_kind d (text_spec sv d.is_icase pattern)

-- One round of the loop.
unfoldable pub specification : Services → Draft → Bytes → Error ⊎ (Draft × Option Bytes)
unfolding letters word_spec
specification sv d pattern =
    let (w, at_eo_word) = letters pattern in
    if length w == 0
    then with_kind d (text_spec sv d.is_icase pattern)
    else word_spec sv d pattern (length w) at_eo_word

-- The loop.
unfoldable pub specifications : Services → ℕ → Draft → Bytes → Error ⊎ Draft
unfolding specification skip_delimiters
specifications sv fuel d [] = inr d
specifications sv zero d (c ∷ s) = inl endless
specifications sv (suc fuel) d (c ∷ s) = elim (specification sv d (c ∷ s)) [
  | inl e ↦ inl e
  | inr (d', none) ↦ inr d'
  | inr (d', some rest) ↦ specifications sv fuel d' (skip_delimiters rest)
]

-- A pattern as it is used: `pattern` is the text that is saved.
pub record Rule : Type 0 where
  pub pattern : Bytes
  pub group_name : Bytes
  pub kind : Kind
  pub mode_match_and : ℕ
  pub mode_match_cmp : ℕ
  pub dir_only : Bool
  pub is_icase : Bool

abbrev pub kind_of : Option Kind → Kind
kind_of none = shell none
kind_of (some k) = k

abbrev pub name_or_default : Option Bytes → Bytes
name_or_default none = codes "ignore"
name_or_default (some g) = g

abbrev pub is_given : {A : Type 0} → Option A → Bool
is_given none = false
is_given (some a) = true

-- Behind the loop: the default group, and a pattern of specifications only.
unfoldable pub finish : Bytes → Draft → Error ⊎ Rule
finish pattern d = stopif (not (is_given d.kind || d.data_seen.pattern_subst)) (
    stopif (length (name_or_default d.group_name) == 0) (
      inr (record {
        pattern = if is_given d.group_name then pattern else codes "group:ignore," ++ pattern;
        group_name = name_or_default d.group_name;
        kind = kind_of d.kind;
        mode_match_and = d.mode_match_and;
        mode_match_cmp = d.mode_match_cmp;
        dir_only = d.dir_only;
        is_icase = d.is_icase;
      })))

abbrev pub empty_draft : Draft
empty_draft = record {
  group_name = none;
  kind = none;
  mode_match_and = 0;
  mode_match_cmp = 0;
  dir_only = false;
  is_icase = false;
  data_seen = record {
    group = false;
    dir = false;
    icase = false;
    mode = false;
    pattern_subst = false;
  };
}

-- White space in front; a text of white space only is refused.
unfoldable pub skip_blanks : Bytes → Bytes
skip_blanks [] = []
skip_blanks (c ∷ s) = let rest = skip_blanks s in if is_space c then rest else c ∷ s

-- `ign___init_pattern_into`, for a text that is terminated where it ends.
unfoldable pub init_pattern_into : Services → Bytes → Error ⊎ Rule
unfolding specifications finish skip_blanks
init_pattern_into sv given =
    let pattern = skip_blanks given in
    elim (specifications sv (length pattern) empty_draft pattern) [
      | inl e ↦ inl e
      | inr d ↦ finish pattern d
    ]
