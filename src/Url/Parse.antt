-- ===== src/Url/Parse.antt =====
-- `url__parse` of src/url.c, and `hlp__parse_rev` of src/helper.c: the definition of an URL.
pub mod Lengths
use fsvs.Prelude.{
  ℕ, zero, suc, ◌+◌, ◌%◌, ◌^◌, ◌-◌, ◌≤◌, ◌<◌, ◌≡◌, refl, Bool, true, false, not, ◌&&◌, ◌||◌, Option,
  none, some, List, [], ◌∷◌, ◌++◌, ltb, leb, ◌==◌, if◌then◌else◌, Bytes, codes, length, drop, take,
  map, strcmp_eq, strncmp_eq, split_at_first,
}
use fsvs.Url.{Url, Seen, Rev, head, number, Signed, plus, minus}

-- The code that is called: `strtoull` to base 10 and `strtol` give the number and how many characters they took
-- (0: none).
pub record Libc : Type 0 where
  pub strtoull : Bytes → ℕ × ℕ
  pub strtol : Bytes → Signed × ℕ

-- What comes out: the URL and the flags, EINVAL, or the end of the fuel.
pub data Parsed : Type 0 where
  defined : Url → Seen → Parsed
  refused unfinished : Parsed

-- Up to the first comma.
unfoldable pub to_comma : Bytes → Bytes × Bytes
to_comma [] = ([], [])
to_comma (c ∷ s) = let (w, rest) = to_comma s in if c == b',' then ([], c ∷ s) else (c ∷ w, rest)

unfoldable pub skip_commas : Bytes → Bytes
skip_commas [] = []
skip_commas (c ∷ s) = let rest = skip_commas s in if c == b',' then rest else c ∷ s

-- A letter for `strncasecmp`.
abbrev pub lower : ℕ → ℕ
lower c = if leb b'A' c && leb c b'Z' then c + 32 else c

-- `hlp__parse_rev` with `eos`: the revision, and how many characters were taken. `target` is
-- `opt_target_revision`.
unfoldable pub parse_rev : Libc → ℕ → Bytes → Option (Rev × ℕ)
parse_rev lib target stg =
    if target == 0
    then none
    else if strncmp_eq (map lower stg) (codes "head") 4
    then some (head, 4)
    else some (number (lib.strtoull stg).0, (lib.strtoull stg).1)

-- An attribute: what is set, or `none` for EINVAL. `value` goes up to the comma, `at_value` to the end.
abbrev pub Attribute : Type 0
Attribute = Option (Url × Seen)

unfoldable pub name_attribute : Option Bytes → Url → Seen → Attribute
name_attribute none u seen = none
name_attribute (some value) u seen =
    if seen.have_name
    then none
    else if length value == 0
    then some (u, seen)
    else some (record u { name = some value }, record seen { have_name = true })

unfoldable pub target_attribute : Libc → ℕ → Option Bytes → Bytes → Url → Seen → Attribute
unfolding parse_rev
target_attribute lib target none at_value u seen = none
target_attribute lib target (some value) at_value u seen = elim (parse_rev lib target at_value) [
  | none ↦ none
  | some (rev, n) ↦
      if seen.have_target || n == 0 || not (n == length value)
      then none
      else some (record u { target_rev = rev }, record seen { have_target = true })
]

-- A `long` that is assigned to an `int` of 32 bits.
abbrev pub of_bits : ℕ → Signed
of_bits w = if ltb w (2 ^ 31) then plus w else minus (2 ^ 32 - w)

abbrev pub as_int : Signed → Signed
as_int (plus n) = of_bits (n % 2 ^ 32)
as_int (minus n) = of_bits ((2 ^ 32 - n % 2 ^ 32) % 2 ^ 32)

unfoldable pub prio_attribute : Libc → Option Bytes → Bytes → Url → Seen → Attribute
prio_attribute lib none at_value u seen = none
prio_attribute lib (some value) at_value u seen =
    let (priority, n) = lib.strtol at_value in
    if seen.have_prio || n == 0 || not (n == length value)
    then none
    else some (record u { priority = as_int priority }, record seen { have_prio = true })

-- A bit field of one bit.
abbrev pub one_bit : Signed → Bool
one_bit (plus n) = n % 2 == 1
one_bit (minus n) = n % 2 == 1

unfoldable pub readonly_attribute : Libc → Option Bytes → Bytes → Url → Seen → Attribute
readonly_attribute lib none at_value u seen =
    if seen.have_readonly
    then none
    else some (record u { is_readonly = true }, record seen { have_readonly = true })
readonly_attribute lib (some value) at_value u seen =
    let (flag, n) = lib.strtol at_value in
    if seen.have_readonly || n == 0 || not (n == length value)
    then none
    else some (record u { is_readonly = one_bit flag }, record seen { have_readonly = true })

-- Whether the text begins with a protocol of `n` letters that is known.
unfoldable pub is_protocol : Bytes → ℕ → Bool
is_protocol cur n =
    if strncmp_eq (codes "svn+") cur 4
    then ltb 4 n
    else (n == 3 && strncmp_eq (codes "svn:") cur 4)
      || (n == 4 && (strncmp_eq (codes "http:") cur 5 || strncmp_eq (codes "file:") cur 5))
      || (n == 5 && strncmp_eq (codes "https:") cur 6)

-- `vlen`, after the separators at the end of a value are taken off: the text is given back to front.
unfoldable pub stripped : ℕ → Bytes → ℕ
stripped zero back = 0
stripped (suc n) [] = suc n
stripped (suc n) (c ∷ back) =
    let less = stripped n back in if ltb 3 (suc n) && c == b'/' then less else suc n

unfoldable pub back_to_front : Bytes → Bytes → Bytes
back_to_front [] onto = onto
back_to_front (c ∷ s) onto = back_to_front s (c ∷ onto)

-- The URL. It is copied up to the NUL that replaces the first separator taken off, or else to the end of the
-- input.
unfoldable pub url_attribute : Bytes → ℕ → Option Bytes → Url → Seen → Attribute
unfolding is_protocol stripped back_to_front
url_attribute cur n none u seen = none
url_attribute cur n (some value) u seen =
    let vlen = stripped (length value) (back_to_front value []) in
    if not (is_protocol cur n) || ltb (length value) 3 || not (strncmp_eq value (codes "//") 2)
    then none
    else some (
      record u {
        url = if vlen == length value then cur else take (n + 1 + vlen) cur;
        urllen = n + 1 + vlen;
      },
      record seen { have_url = true },
    )

-- `strncmp` of a keyword, or of its short form, with the `n` characters of the name.
abbrev pub is_keyword : Bytes → Bytes → Bytes → ℕ → Bool
is_keyword keyword short cur n = strncmp_eq keyword cur n || strncmp_eq short cur n

-- One attribute at `cur`, with what is behind it.
unfoldable pub attribute : Libc → ℕ → Bytes → Url → Seen → Attribute × Bytes
unfolding to_comma name_attribute target_attribute prio_attribute readonly_attribute url_attribute
attribute lib target cur u seen =
    let (text, rest) = to_comma cur in
    let parts = split_at_first b':' text in
    let n : ℕ = elim parts [ none ↦ length text | some (name, v) ↦ length name ] in
    let value : Option Bytes = elim parts [ none ↦ none | some (name, v) ↦ some v ] in
    let at_value = drop (n + 1) cur in
    (
      if is_keyword (codes "name") (codes "N") cur n
          then name_attribute value u seen
          else if is_keyword (codes "target") (codes "T") cur n
          then target_attribute lib target value at_value u seen
          else if is_keyword (codes "prio") (codes "P") cur n
          then prio_attribute lib value at_value u seen
          else if is_keyword (codes "readonly") (codes "ro") cur n
          then readonly_attribute lib value at_value u seen
          else url_attribute cur n value u seen,
      rest,
    )

-- The loop.
unfoldable pub attributes : Libc → ℕ → ℕ → Bytes → Url → Seen → Parsed
unfolding attribute skip_commas
attributes lib target zero cur u seen = unfinished
attributes lib target (suc fuel) cur u seen =
    let (a, rest) = attribute lib target cur u seen in
    elim a [
      | none ↦ refused
      | some (u', seen') ↦
          let further = attributes lib target fuel (skip_commas rest) u' seen' in
          if seen'.have_url || length (skip_commas rest) == 0 then defined u' seen' else further
    ]

abbrev pub empty_url : Url
empty_url = record {
  url = [];
  name = none;
  priority = plus 0;
  target_rev = head;
  current_rev = 0;
  is_readonly = false;
  internal_number = none;
  urllen = 0;
}

abbrev pub nothing_seen : Seen
nothing_seen = record {
  have_name = false;
  have_prio = false;
  have_url = false;
  have_target = false;
  have_readonly = false;
}

-- `url__parse`, with a place for the result; `needs_url` where there is none for the flags.
unfoldable pub url_parse : Libc → ℕ → Bool → Bytes → Parsed
unfolding attributes
url_parse lib target needs_url input =
    elim (attributes lib target (length input + 1) input empty_url nothing_seen) [
      | defined u seen ↦ if needs_url && not seen.have_url then refused else defined u seen
      | refused ↦ refused
      | unfinished ↦ unfinished
    ]
