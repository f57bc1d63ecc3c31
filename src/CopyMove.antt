-- ===== src/CopyMove.antt =====
-- src/cp_mv.c: the sources of copied entries, as they are stored and looked up, and the similarity of directories.
pub mod Text
pub mod Below
pub mod Similar
mod Tests
use fsvs.Prelude.{
  ℕ, zero, suc, ◌+◌, ◌-◌, ◌*◌, ◌/◌, ◌%◌, ◌^◌, ◌≡◌, Bool, true, false, not, ◌&&◌, ◌||◌, Option, none,
  some, List, [], ◌∷◌, ◌++◌, ltb, leb, ◌==◌, if◌then◌else◌, Bytes, codes, length, map, skip_ws,
  is_space, print, strtol,
}
use fsvs.EstOps.Paths.{Node, build_path}
use fsvs.EstOps.Correlate.{Event, only_a, both, only_b}

-- `cm___string_to_rev_path`: the URL, and the revision as its 64 bits, or `none` for EINVAL.
abbrev pub behind_version : Bytes → Option Bytes
behind_version [] = none
behind_version (a ∷ []) = none
behind_version (a ∷ b ∷ s) = if a == b'0' && b == b' ' then some s else none

abbrev pub behind_revision : Option (ℕ × Bytes) → Option (Bytes × ℕ)
behind_revision none = none
behind_revision (some (rev, [])) = none
behind_revision (some (rev, c ∷ s)) = if is_space c then some (skip_ws (c ∷ s), rev) else none

abbrev pub parsed_source : Option Bytes → Option (Bytes × ℕ)
parsed_source none = none
parsed_source (some s) = behind_revision (strtol 10 s)

unfoldable pub string_to_rev_path : Bytes → Option (Bytes × ℕ)
unfolding strtol
string_to_rev_path s = parsed_source (behind_version s)

-- `cm___rev_path_to_string`, with the memory given: the text, or `none` for the BUG where it does not fit.
unfoldable pub rev_path_text : Bytes → ℕ → Bytes
unfolding print
rev_path_text url revision = codes "0 " ++ (print 10 revision ++ b' ' ∷ url)

unfoldable pub rev_path_to_string : Bytes → ℕ → Option Bytes
unfolding rev_path_text
rev_path_to_string url revision =
    let buflen = 10 + 1 + length url + 1 in
    let text = rev_path_text url revision in if leb buflen (length text) then none else some text

-- An entry with the flags RF_COPY_BASE and RF_COPY_SUB. A list of these is an entry with its parents.
pub record Entry : Type 0 where
  pub node : Node
  pub is_base : Bool
  pub is_sub : Bool

abbrev pub nodes : List Entry → List Node
nodes es = map (λ e. e.node) es

-- What is answered: the URL in a buffer with so much room, and the revision; or an error, the end at a BUG_ON, or
-- a write behind the end of the buffer.
pub data Answer : Type 0 where
  source : Bytes → ℕ → ℕ → Answer
  enoent einval bug overrun : Answer

-- "./" in front of a name is skipped.
abbrev pub relative : Bytes → Bytes
relative [] = []
relative (a ∷ []) = a ∷ []
relative (a ∷ b ∷ s) = if a == b'.' && b == b'/' then s else a ∷ b ∷ s

-- The part of `cm___get_base_source` behind the lookup.
abbrev pub allocated : ℕ → Option (Bytes × ℕ) → Answer
allocated alloc_extra none = einval
allocated alloc_extra (some (url, rev)) = source url (length url + 1 + alloc_extra + 4) rev

abbrev pub found_value : ℕ → Option Bytes → Answer
found_value alloc_extra none = enoent
found_value alloc_extra (some value) = allocated alloc_extra (string_to_rev_path value)

-- The file with the sources is an argument: what hsh__fetch gives for a name.
module _ (fetch : Bytes → Option Bytes) where
  abbrev pub named_source : ℕ → Option Bytes → Answer
  named_source alloc_extra none = bug
  named_source alloc_extra (some name) = found_value alloc_extra (fetch (relative name))

  -- `cm___get_base_source`, and the key that is registered for deletion, if that is asked for. The name is built
  -- where it is not given.
  abbrev pub name_of : List Entry → Option Bytes → Option Bytes
  name_of es (some name) = some name
  name_of es none = (build_path (nodes es)).0

  unfoldable pub get_base_source : List Entry → Option Bytes → ℕ → Answer
  unfolding string_to_rev_path build_path
  get_base_source es name alloc_extra = named_source alloc_extra (name_of es name)

  unfoldable pub registered_key : List Entry → Option Bytes → Bool → Option Bytes
  unfolding build_path
  registered_key es name false = none
  registered_key es name true = elim (name_of es name) [
    | none ↦ none
    | some n ↦ elim (fetch (relative n)) [ none ↦ none | some value ↦ some (relative n) ]
  ]

  -- `/` and the name are written behind the URL, with the terminator.
  abbrev pub with_name : Bytes → Answer → Answer
  with_name name (source url room rev) =
      if ltb room (length url + 1 + length name + 1)
      then overrun
      else source (url ++ b'/' ∷ name) room rev
  with_name name other = other

  -- `cm___get_sub_source_rek`: the first entry is `cur`.
  unfoldable pub get_sub_source_rek : List Entry → ℕ → Answer
  unfolding get_base_source
  get_sub_source_rek [] length_to_add = bug
  get_sub_source_rek (cur ∷ []) length_to_add = bug
  get_sub_source_rek (cur ∷ copied ∷ es) length_to_add =
      let to_add = length_to_add + (length cur.node.name + 1) in
      let above = get_sub_source_rek (copied ∷ es) to_add in
      with_name cur.node.name
        (if copied.is_base then get_base_source (copied ∷ es) none to_add else above)

  -- `cm___get_sub_source`
  unfoldable pub get_sub_source : List Entry → Answer
  unfolding get_sub_source_rek
  get_sub_source es = get_sub_source_rek es 0

  -- `cm__get_source`
  unfoldable pub get_source : List Entry → Option Bytes → Answer
  unfolding get_sub_source get_base_source
  get_source [] name = bug
  get_source (e ∷ es) name =
      if e.is_base
      then get_base_source (e ∷ es) name 0
      else if e.is_sub
      then get_sub_source (e ∷ es)
      else enoent

-- `both` and the loop of `cm___match_children`: how many entries of two directories have a common name.
unfoldable pub common_of {ℓ} : {A : Type ℓ} → List (Event A) → ℕ
common_of [] = 0
common_of (only_a a ∷ es) = common_of es
common_of (both a b ∷ es) = suc (common_of es)
common_of (only_b b ∷ es) = common_of es

-- `match_count` of a directory that is similar to one with `count` entries, in tenths of a percent. The product
-- is one of `int`, and all is divided as 32 bits without a sign.
unfoldable pub match_count : ℕ → ℕ → ℕ → ℕ
match_count count other common =
    (1000 * common % 2 ^ 32) / ((count + other + (2 ^ 32 - common % 2 ^ 32)) % 2 ^ 32)
