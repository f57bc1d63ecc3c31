-- ===== src/Url.antt =====
-- src/url.c and src/url.h: the list of URLs of a working copy, how a definition is put into it, and
-- the internal numbers that the entry lists refer to.
pub mod Numbers
pub mod Parse
mod Unique
mod Tests
use fsvs.Prelude.{
  ℕ, zero, suc, ◌+◌, ◌-◌, ◌^◌, Bool, true, false, ◌&&◌, Option, none, some, List, [], ◌∷◌, ◌++◌,
  ltb, ◌==◌, if◌then◌else◌, length, set, Bytes, strcmp_eq,
}

-- `svn_revnum_t`, with SVN_INVALID_REVNUM for HEAD.
pub data Rev : Type 0 where
  head : Rev
  number : ℕ → Rev

-- A signed number: a sign and an absolute value.
pub data Signed : Type 0 where
  plus : ℕ → Signed
  minus : ℕ → Signed

-- `struct url_t`, as far as definitions are concerned; the name is NULL, or a text, and the internal
-- number is `none` for INVALID_INTERNAL_NUMBER.
pub record Url : Type 0 where
  pub url : Bytes
  pub name : Option Bytes
  pub priority : Signed
  pub target_rev : Rev
  pub current_rev : ℕ
  pub is_readonly : Bool
  pub internal_number : Option ℕ
  pub urllen : ℕ

-- The flags HAVE_NAME, HAVE_PRIO, HAVE_URL, HAVE_TARGET and HAVE_READONLY.
pub record Seen : Type 0 where
  pub have_name : Bool
  pub have_prio : Bool
  pub have_url : Bool
  pub have_target : Bool
  pub have_readonly : Bool

pub data Status : Type 0 where
  ok einval eaddrinuse eaddrnotavail emfile : Status

-- `strcmp` on a name that may be NULL.
unfoldable pub name_is : Option Bytes → Url → Bool
name_is name u = elim u.name [
  | none ↦ (elim name [ none ↦ true | some _ ↦ false ])
  | some n ↦ (elim name [ none ↦ false | some m ↦ strcmp_eq n m ])
]

abbrev pub normal_name : Option Bytes → Option Bytes
normal_name (some []) = none
normal_name (some (c ∷ s)) = some (c ∷ s)
normal_name none = none

-- The first element for which a test holds, with its index: the loop of the three searches.
module _ (test : Url → Bool) where
  unfoldable pub first_index : List Url → ℕ → Option ℕ
  first_index [] i = none
  first_index (u ∷ us) i = if test u then some i else first_index us (i + 1)

-- `url__find_by_name`, `url__find_by_url` and `url__find_by_intnum`: the index in the list, and `none`
-- for EADDRNOTAVAIL.
unfoldable pub find_by_name : Option Bytes → List Url → Option ℕ
unfolding first_index name_is
find_by_name name us = first_index (name_is (normal_name name)) us 0

unfoldable pub find_by_url : Bytes → List Url → Option ℕ
unfolding first_index
find_by_url url us = first_index (λ u. strcmp_eq u.url url) us 0

-- The numbers as 32 bits; INVALID_INTERNAL_NUMBER is -1.
abbrev pub intnum : Option ℕ → ℕ
intnum none = 2 ^ 32 - 1
intnum (some m) = m

abbrev pub number_is : ℕ → Url → Bool
number_is n u = intnum u.internal_number == n

unfoldable pub find_by_intnum : ℕ → List Url → Option ℕ
unfolding first_index
find_by_intnum n us = first_index (number_is n) us 0

-- The assignments to an entry that is overwritten: only what was given is changed.
unfoldable pub overwrite : Seen → Url → Url → Url
overwrite seen target dupl = record dupl {
  target_rev = if seen.have_target then target.target_rev else dupl.target_rev;
  priority = if seen.have_prio then target.priority else dupl.priority;
  is_readonly = if seen.have_readonly then target.is_readonly else dupl.is_readonly;
  name = if seen.have_name then target.name else dupl.name;
}

-- The list with the element at an index overwritten.
unfoldable pub overwrite_at : Seen → Url → List Url → ℕ → List Url
overwrite_at seen target [] i = []
overwrite_at seen target (u ∷ us) zero = overwrite seen target u ∷ us
overwrite_at seen target (u ∷ us) (suc i) = u ∷ overwrite_at seen target us i

-- What `url__insert_or_replace` gives back: the list, the status, and the index of `*storage`; that an
-- entry was overwritten is `existed`.
pub record Inserted : Type 0 where
  pub urls : List Url
  pub status : Status
  pub storage : ℕ
  pub existed : Bool

abbrev pub is_some : Option ℕ → Bool
is_some none = false
is_some (some i) = true

abbrev pub refused : List Url → Status → Inserted
refused us status = record { urls = us; status = status; storage = 0; existed = false }

unfoldable pub insert_new : Seen → Url → Option ℕ → List Url → Inserted
insert_new seen target by_name us =
    if seen.have_url
    then (if seen.have_name && is_some by_name
        then refused us eaddrinuse
        else record { urls = us ++ target ∷ []; status = ok; storage = length us; existed = false })
    else refused us einval

unfoldable pub insert_found : Seen → Url → Option ℕ → Option ℕ → List Url → Inserted
unfolding insert_new overwrite_at
insert_found seen target by_name none us = insert_new seen target by_name us
insert_found seen target by_name (some i) us = record {
  urls = overwrite_at seen target us i;
  status = ok;
  storage = i;
  existed = true;
}

-- `url__insert_or_replace`, behind the call of `url__parse`.
unfoldable pub insert_or_replace : Seen → Url → List Url → Inserted
unfolding insert_found
insert_or_replace seen target us =
    let by_name = if seen.have_name then find_by_name target.name us else none in
    let dupl = if seen.have_url then find_by_url target.url us else by_name in
    insert_found seen target by_name dupl us
