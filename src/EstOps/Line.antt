-- ===== src/EstOps/Line.antt =====
-- `ops__save_1entry` and `ops__load_1entry` of src/est_ops.c: the line of an entry in the entry list,
-- and the text of devices.
pub mod Fields
pub mod Entry
pub mod Numeric
pub mod DeviceText
pub mod Described
pub mod UrlOf
pub mod RoundTrip
pub mod Room
mod Tests
use fsvs.Prelude.{
  ℕ, zero, suc, ◌+◌, ◌-◌, ◌*◌, ◌/◌, ◌%◌, ◌^◌, ◌≡◌, Bool, true, false, not, ◌&&◌, ◌||◌, Option, none,
  some, List, [], ◌∷◌, ◌++◌, ltb, ◌==◌, if◌then◌else◌, Bytes, codes, strncmp_eq, length, drop,
  get_elem?, skip_ws, is_space, print, padded, print_signed, strtoul,
}
use fsvs.Checksum.Hex.{char2md5, md5tohex}
use fsvs.EstOps.Changes.{file_type, char_type, dir_type, block_type, link_type}
use fsvs.Url.{Url, find_by_intnum}

-- What the source returns: EINVAL, EADDRNOTAVAIL of the list of URLs, the end at a BUG_ON, or
-- a name that is read behind the end of the list.
pub data Result (A : Type 0) : Type 0 where
  ok : A → Result A
  einval eaddrnotavail bug overrun : Result A

infixl 5 ◌>>=◌ ◌>>◌
abbrev pub ◌>>=◌ : {A B : Type 0} → Result A → (A → Result B) → Result B
ok a >>= f = f a
einval >>= f = einval
eaddrnotavail >>= f = eaddrnotavail
bug >>= f = bug
overrun >>= f = overrun

abbrev pub given : {A : Type 0} → Option A → Result A
given none = einval
given (some a) = ok a

abbrev pub ◌>>◌ : {B : Type 0} → Result (Unit {0}) → Result B → Result B
m >> k = m >>= λ _. k

abbrev pub require : Bool → Result (Unit {0})
require true = ok tt
require false = einval

abbrev pub bug_on : Bool → Result (Unit {0})
bug_on true = bug
bug_on false = ok tt

-- RF_DONT_WRITE and RF_PUSHPROPS as bits of the flags, and the bits of RF___SAVE_MASK, the lowest seven.
abbrev bit : ℕ → ℕ → Bool
bit i flags = flags / 2 ^ i % 2 == 1

abbrev pub saved_flags : ℕ → ℕ
saved_flags flags = flags % 128

-- A child, as far as it is looked at here.
pub record Listed : Type 0 where
  pub to_be_ignored : Bool
  pub flags : ℕ

-- `struct grouping_t`
pub record Grouping : Type 0 where
  pub has_auto_props : Bool
  pub url : Option Url
  pub is_ignore : Bool

-- `struct estat`. A time is given as the bits of its 64, as are the revisions. The device number of a device
-- stands where the size of a file does. `match_pattern` is the group of the pattern that matched.
pub record Estat : Type 0 where
  pub name : Bytes
  pub mode : ℕ
  pub ctime : ℕ
  pub mtime : ℕ
  pub size : ℕ
  pub dev : ℕ
  pub ino : ℕ
  pub uid : ℕ
  pub gid : ℕ
  pub flags : ℕ
  pub old_rev_mode : ℕ
  pub new_rev_mode : ℕ
  pub local_mode : ℕ
  pub repos_rev : ℕ
  pub old_rev : ℕ
  pub url : Option Url
  pub md5 : Bytes
  pub entry_count : ℕ
  pub by_inode : List Listed
  pub match_pattern : Option Grouping
  pub to_be_ignored : Bool

-- MKDEV, MAJOR and MINOR of the system.
pub record Devices : Type 0 where
  pub mkdev : ℕ → ℕ → ℕ
  pub major : ℕ → ℕ
  pub minor : ℕ → ℕ

abbrev pub is_directory : ℕ → Bool
is_directory mode = file_type mode == dir_type

abbrev pub is_device_mode : ℕ → Bool
is_device_mode mode = file_type mode == block_type || file_type mode == char_type

-- MODE_T_to_PACKED, into a field of four bits
abbrev pub packed : ℕ → ℕ
packed mode = mode / 4096 % 16

-- `ops__should_entry_be_written_in_list`
unfoldable pub should_be_written : Listed → Bool
should_be_written c = not (c.to_be_ignored || bit 18 c.flags)

-- `ops___entries_to_write`
unfoldable pub count_written : List Listed → ℕ
unfolding should_be_written
count_written [] = 0
count_written (c ∷ cs) = if should_be_written c then suc (count_written cs) else count_written cs

unfoldable pub entries_to_write : Estat → ℕ
unfolding count_written
entries_to_write dir = if dir.entry_count == 0 then 0 else count_written dir.by_inode

-- `ops__apply_group` with no `props`; whether prp__set_from_aprhash succeeds is an argument. `none`: it fails.
unfoldable pub group_applied : Bool → Estat → Grouping → Option Estat
group_applied set_props sts group =
    let applied = record sts {
      flags = if group.has_auto_props && not (bit 3 sts.flags) then sts.flags + 8 else sts.flags;
      url = elim sts.url [ none ↦ group.url | some u ↦ some u ];
      to_be_ignored = group.is_ignore;
      match_pattern = none;
    } in
    if group.has_auto_props && not set_props then none else some applied

unfoldable pub apply_group : Bool → Estat → Option Estat
unfolding group_applied
apply_group set_props sts = elim sts.match_pattern [
  | none ↦ some sts
  | some g ↦ group_applied set_props sts g
]

-- `ops___dev_to_string`, for a device
unfoldable pub dev_to_string : Devices → ℕ → ℕ → ℕ → Bytes
dev_to_string sys mode rdev delimiter =
    (if file_type mode == block_type then codes "bdev" else codes "cdev")
    ++ (delimiter ∷ codes "0x")
    ++ print 16 (sys.major rdev % 2 ^ 32)
    ++ codes ":0x"
    ++ print 16 (sys.minor rdev % 2 ^ 32)

-- The literal text of a conversion of `sscanf`.
abbrev pub expect : Bytes → Bytes → Option Bytes
expect [] s = some s
expect (c ∷ cs) [] = none
expect (c ∷ cs) (d ∷ s) = if c == d then expect cs s else none

-- `sscanf(data, "%c0x%X:0x%X%n")`: all three, and what follows. A number is read as strtoul does.
unfoldable pub scan_device : Bytes → Result (ℕ × ℕ × ℕ × Bytes)
unfolding strtoul
scan_device [] = einval
scan_device (delimiter ∷ s) = do
  s1 ← given (expect (codes "0x") s)
  maj ← given (strtoul 16 s1)
  s2 ← given (expect (codes ":0x") maj.1)
  min ← given (strtoul 16 s2)
  ok (delimiter, maj.0 % 2 ^ 32, min.0 % 2 ^ 32, min.1)

-- The type that the mode is given.
abbrev pub with_type : ℕ → Estat → Estat
with_type type sts = record sts {
  mode = sts.mode - packed sts.mode * 4096 + type * 4096;
  local_mode = type;
}

unfoldable pub device_of : Devices → Estat → ℕ → Bytes → Result (Estat × Bytes)
unfolding scan_device
device_of sys sts type s = do
  r ← scan_device s
  require (r.0 == b':' || r.0 == b' ')
  ok (with_type type (record sts { size = sys.mkdev r.1 r.2 }), r.3)

-- `ops__string_to_dev`: the entry, and what follows its text.
unfoldable pub string_to_dev : Devices → Estat → Bytes → Result (Estat × Bytes)
unfolding strncmp_eq
string_to_dev sys sts s =
    if strncmp_eq s (codes "link ") 5
    then ok (with_type link_type sts, drop 5 s)
    else if strncmp_eq s (codes "cdev") 4
    then device_of sys sts char_type (drop 4 s)
    else if strncmp_eq s (codes "bdev") 4
    then device_of sys sts block_type (drop 4 s)
    else einval

-- `hlp__get_word`: what follows the word.
unfoldable pub behind_word : Bytes → Bytes
behind_word [] = []
behind_word (c ∷ s) = if c == 0 || is_space c then c ∷ s else behind_word s

unfoldable pub get_word : Bytes → Bytes
unfolding behind_word skip_ws
get_word s = behind_word (skip_ws s)
