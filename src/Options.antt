-- ===== src/Options.antt =====
-- `opt__parse_option`, `opt__parse`, `opt__load_env` of src/options.c, and the parsers of values.
pub mod Bitmap
pub mod Priority
pub mod Env
pub mod Tests
use Prim.Native.Nat.{bit_and, bit_or}
use fsvs.Prelude.{
  skip_ws, ℕ, zero, suc, ◌+◌, Bool, true, false, not, ◌&&◌, ◌||◌, Option, none, some, List, [], ◌∷◌,
  ltb, leb, ◌==◌, if◌then◌else◌, Bytes, codes, length, strcmp_eq, strncmp_eq, split_at_first, drop,
}

-- `i_val` and `cp_val` of `struct opt__list_t`; `i_val` by its 32 bits.
pub record Value : Type 0 where
  pub i_val : ℕ
  pub cp_val : Option Bytes

pub data Status : Type 0 where
  ok enoent einval enomem : Status

-- `opt___parse_t`, with the value of the option before and after.
abbrev pub Parser : Type 0
Parser = Bytes → ℕ → Value → Value × Status

-- `struct opt___val_str_t`, and `opt___find_string` (`none` for EINVAL).
abbrev pub Strings : Type 0
Strings = List (ℕ × Bytes)

unfoldable pub find_string : Strings → Bytes → Option ℕ
find_string [] string = none
find_string ((val, name) ∷ list) string =
    let rest = find_string list string in if strcmp_eq string name then some val else rest

-- `opt___string2val`
unfoldable pub string2val : Strings → Parser
string2val parm string prio v = elim (find_string parm string) [
  | none ↦ (v, einval)
  | some i ↦ (record v { i_val = i }, ok)
]

-- The words that `strsep` gives; there can be empty ones.
abbrev pub is_delim : ℕ → Bool
is_delim c = c == b';' || c == b',' || c == b':' || c == b'/'

unfoldable pub words_from : Bytes → Bytes × List Bytes
words_from [] = ([], [])
words_from (c ∷ s) = let (w, ws) = words_from s in if is_delim c then ([], w ∷ ws) else (c ∷ w, ws)

unfoldable pub words : Bytes → List Bytes
unfolding words_from
words s = let (w, ws) = words_from s in w ∷ ws

-- BITMAP_CLEAR and BITMAP_CLEAR_MASK
abbrev pub bitmap_clear : ℕ
bitmap_clear = 0x40000000

abbrev pub bitmap_clear_mask : ℕ
bitmap_clear_mask = 0x50000000

unfoldable pub is_clearing : ℕ → Bool
is_clearing i = i == 0 || bit_and i bitmap_clear_mask == bitmap_clear

-- The loop of `opt___strings2bitmap`; `none` for a word that is not known.
unfoldable pub or_words : Strings → List Bytes → ℕ → Option ℕ
or_words parm [] val = some val
or_words parm (cp ∷ ws) val = elim (find_string parm cp) [
  | none ↦ none
  | some i ↦ or_words parm ws (if is_clearing i then 0 else bit_or val i)
]

-- `opt___strings2bitmap`
unfoldable pub strings2bitmap : Strings → Parser
unfolding words
strings2bitmap parm string prio v = elim (or_words parm (words string) v.i_val) [
  | none ↦ (v, einval)
  | some val ↦ (record v { i_val = val }, ok)
]

-- `opt___strings2empty_bm`
unfoldable pub strings2empty_bm : Strings → Parser
strings2empty_bm parm string prio v = strings2bitmap parm string prio (record v { i_val = 0 })

-- `opt___store_string`; whether there is memory for a length is an argument.
unfoldable pub store_string : (ℕ → Bool) → Parser
store_string gives string prio v =
    if gives (length string)
    then (record { i_val = length string; cp_val = some string }, ok)
    else (record v { i_val = length string }, enomem)

-- What `opt___store_env_noempty` stores: the text, or the variable that a `$` names.
unfoldable pub expanded : (Bytes → Option Bytes) → Bytes → Option Bytes
expanded getenv [] = some []
expanded getenv (c ∷ s) = if c == b'$' then getenv s else some (c ∷ s)

unfoldable pub store_nonempty : (ℕ → Bool) → Option Bytes → Parser
store_nonempty gives none string prio v = (v, ok)
store_nonempty gives (some []) string prio v = (v, ok)
store_nonempty gives (some (c ∷ s)) string prio v = store_string gives (c ∷ s) prio v

-- `opt___store_env_noempty`
unfoldable pub store_env_noempty : (ℕ → Bool) → (Bytes → Option Bytes) → Parser
unfolding expanded store_nonempty
store_env_noempty gives getenv string prio v =
    store_nonempty gives (expanded getenv string) string prio v

-- `struct opt__list_t`; `parse` stands for the function with its `parm`.
pub record Setting : Type 0 where
  pub name : Bytes
  pub parse : Parser
  pub value : Value
  pub prio : ℕ

abbrev pub parsed : Setting → ℕ → Value × Status → Setting × Status
parsed ent prio (v, ok) = (record ent { value = v; prio = prio }, ok)
parsed ent prio (v, other) = (record ent { value = v }, other)

-- `opt__parse_option`
unfoldable pub parse_option : Setting → ℕ → Bytes → Setting × Status
unfolding skip_ws
parse_option ent prio string =
    if leb ent.prio prio
    then parsed ent prio (ent.parse (skip_ws string) prio ent.value)
    else (ent, ok)

-- `hlp__strncmp_uline_eq_dash(name, key, klen) == 0 && name[klen] == 0`, for the `klen` bytes of the key.
unfoldable pub name_matches : Bytes → Bytes → Bool
name_matches [] [] = true
name_matches [] (k ∷ key) = false
name_matches (n ∷ name) [] = false
name_matches (n ∷ name) (k ∷ key) = (n == k || (n == b'_' && k == b'-')) && name_matches name key

-- The loop of `opt__parse`.
unfoldable pub set_named : List Setting → Bytes → ℕ → Bytes → List Setting × Status
unfolding parse_option name_matches
set_named [] key prio value = ([], enoent)
set_named (ent ∷ list) key prio value =
    let (list', status) = set_named list key prio value in
    if name_matches ent.name key
    then (let (ent', done) = parse_option ent prio (skip_ws value) in (ent' ∷ list, done))
    else (ent ∷ list', status)

-- `opt__parse`. The loop that shortens `klen` looks at the `=` or the NUL behind the key, so it does
-- nothing.
unfoldable pub parse_parts : List Setting → Option (Bytes × Bytes) → ℕ → List Setting × Status
unfolding set_named
parse_parts list none prio = (list, einval)
parse_parts list (some (key, value)) prio = set_named list key prio value

unfoldable pub parse : List Setting → Bytes → Option Bytes → ℕ → List Setting × Status
unfolding parse_parts
parse list key none prio = parse_parts list (split_at_first b'=' (skip_ws key)) prio
parse list key (some value) prio = set_named list (skip_ws key) prio value

-- PRIO_ENV
abbrev pub prio_env : ℕ
prio_env = 5

-- `tolower`
abbrev pub tolower : ℕ → ℕ
tolower c = if leb b'A' c && leb c b'Z' then c + 32 else c

-- The key in lower case and the value, if `=` comes up within `n` bytes; the buffer holds 31.
-- The source looks for `=` without a test for the end of the text, which an environment always has.
unfoldable pub env_parts : ℕ → Bytes → Option (Bytes × Bytes)
env_parts n [] = none
env_parts zero (c ∷ s) = if c == b'=' then some ([], s) else none
env_parts (suc n) (c ∷ s) =
    let rest = env_parts n s in
    if c == b'='
    then some ([], s)
    else elim rest [ none ↦ none | some (key, value) ↦ some (tolower c ∷ key, value) ]

-- One round of `opt__load_env`: the error that stops it, if there is one.
unfoldable pub load_var : List Setting → Bytes → List Setting × Status
unfolding env_parts parse
load_var list cur =
    if strncmp_eq cur (codes "FSVS_") 5
    then elim (env_parts 31 (drop 5 cur)) [
      | none ↦ (list, ok)
      | some (key, value) ↦
          (let (list', status) = parse list key (some value) prio_env in
            (list', elim status [ enoent ↦ ok | other ↦ other ]))
    ]
    else (list, ok)

-- `opt__load_env`
unfoldable pub load_env : List Setting → List Bytes → List Setting × Status
unfolding load_var
load_env list [] = (list, ok)
load_env list (cur ∷ env) =
    let (list', status) = load_var list cur in
    let rest = load_env list' env in elim status [ ok ↦ rest | other ↦ (list', other) ]
