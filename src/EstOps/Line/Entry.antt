-- ===== src/EstOps/Line/Entry.antt =====
-- `ops__save_1entry` and `ops__load_1entry` of src/est_ops.c: the whole line.
use fsvs.Prelude.{
  ℕ, ◌+◌, ◌-◌, ◌^◌, Bool, not, ◌&&◌, Option, none, some, List, [], ◌∷◌, ◌++◌, ltb, ◌==◌,
  if◌then◌else◌, Bytes, length, get_elem?, split_at_first,
}
use fsvs.Url.{Url, intnum, find_by_intnum}
use fsvs.EstOps.Line.{
  Result, ok, eaddrnotavail, overrun, ◌>>=◌, ◌>>◌, given, bug_on, expect, Devices, Estat,
  is_directory, packed, saved_flags, entries_to_write, apply_group,
}
use fsvs.EstOps.Line.Fields.{
  Head, write_head, read_head, LineNumbers, write_numbers, read_numbers, write_descr, read_descr,
}

-- SET_REVNUM, as 64 bits
abbrev pub set_revnum : ℕ
set_revnum = 2 ^ 64 - 12

-- WAA_MAX_DIR_INFO_CHARS, with 255 for NAME_MAX: the space of the line without its terminator.
abbrev pub max_dir_info_chars : ℕ
max_dir_info_chars = 453

abbrev pub revision_of : Estat → ℕ
revision_of sts = elim sts.url [
  | none ↦ sts.repos_rev
  | some u ↦ if sts.repos_rev == set_revnum then u.current_rev else sts.repos_rev
]

abbrev pub intnum_of : Option Url → ℕ
intnum_of none = 0
intnum_of (some u) = intnum u.internal_number

abbrev pub head_of : Estat → Head
head_of sts = record {
  mode = sts.mode;
  ctime = sts.ctime;
  mtime = sts.mtime;
  flags = saved_flags sts.flags;
}

abbrev pub numbers_of : Estat → ℕ → LineNumbers
numbers_of sts parent_ino = record {
  size = sts.size;
  revision = revision_of sts;
  intnum = intnum_of sts.url;
  dev = sts.dev;
  ino = sts.ino;
  parent = parent_ino;
  count = if is_directory sts.mode then entries_to_write sts else 0;
  uid = sts.uid;
  gid = sts.gid;
}

-- The `sprintf`, in front of a text.
unfoldable pub write_info : Devices → Estat → ℕ → Bytes → Bytes
unfolding write_head write_descr write_numbers
write_info sys sts parent_ino rest =
    write_head (head_of sts)
      (write_descr sys sts (write_numbers (numbers_of sts parent_ino) (sts.name ++ rest)))

-- What `ops__save_1entry` comes to: the line, an error of the group, or one of the two BUG_ONs about the length.
pub data Saved : Type 0 where
  line : Bytes → Saved
  failed too_long : Saved

-- The last two characters of the buffer, once a line of `len` characters, not more than there is space for, its
-- terminator and the newline were put into it: they are 0 and 0xff from the start, and lines that reach them do not get
-- past the check.
abbrev pub last_two : ℕ → ℕ × ℕ
last_two len = (
  if len + 1 == max_dir_info_chars then 10 else 0,
  if len + 1 == max_dir_info_chars + 1 then 10 else 255,
)

abbrev pub is_intact : ℕ × ℕ → Bool
is_intact (c, d) = c == 0 && d == 255

unfoldable pub saved_text : Devices → Estat → ℕ → Saved
unfolding write_info
saved_text sys sts parent_ino =
    let len = length (write_info sys sts parent_ino []) in
    if ltb max_dir_info_chars len
    then too_long
    else if is_intact (last_two len)
    then line (write_info sys sts parent_ino (0 ∷ 10 ∷ []))
    else too_long

abbrev pub saved : Devices → Option Estat → ℕ → Saved
saved sys none parent_ino = failed
saved sys (some sts) parent_ino = saved_text sys sts parent_ino

-- `ops__save_1entry`; that the line is written to the file is not part of it.
unfoldable pub save_1entry : Devices → Bool → Estat → ℕ → Saved
unfolding apply_group saved_text
save_1entry sys set_props sts parent_ino = saved sys (apply_group set_props sts) parent_ino

-- The URL of an entry: by its number, or the last one of the list for the root.
unfoldable pub last_url : List Url → Option Url
last_url [] = none
last_url (u ∷ []) = some u
last_url (u ∷ v ∷ us) = last_url (v ∷ us)

abbrev pub found_url : List Url → Option ℕ → Result (Option Url)
found_url urls none = eaddrnotavail
found_url urls (some i) = ok (get_elem? urls i)

unfoldable pub url_of : List Url → Option Url → ℕ → ℕ → Result (Option Url)
unfolding last_url find_by_intnum
url_of urls old parent intnum =
    if parent == 0
    then ok (last_url urls)
    else if intnum == 0
    then ok old
    else found_url urls (find_by_intnum intnum urls)

-- What `ops__load_1entry` gives: the entry, its name, the number of its parent, and what follows the line.
pub record Loaded : Type 0 where
  pub entry : Estat
  pub filename : Bytes
  pub parent_inode : ℕ
  pub rest : Bytes

abbrev pub skip_newline : Bytes → Bytes
skip_newline [] = []
skip_newline (c ∷ s) = if c == 10 then s else c ∷ s

abbrev pub name_end : Option (Bytes × Bytes) → Result (Bytes × Bytes)
name_end none = overrun
name_end (some (name, behind)) = ok (name, skip_newline behind)

-- The fields that are set before the description is read, and after the numbers.
abbrev pub with_head : Estat → Head → Estat
with_head sts h = record sts {
  mode = h.mode;
  ctime = h.ctime;
  mtime = h.mtime;
  flags = h.flags;
  old_rev_mode = packed h.mode;
  new_rev_mode = packed h.mode;
  local_mode = packed h.mode;
}

abbrev pub with_numbers : Estat → LineNumbers → Option Url → Estat
with_numbers sts n url = record sts {
  size = n.size;
  old_rev = n.revision;
  repos_rev = n.revision;
  dev = n.dev;
  ino = n.ino;
  uid = n.uid;
  gid = n.gid;
  entry_count = if is_directory sts.mode then n.count else sts.entry_count;
  url = url;
}

-- The checks behind the numbers, and the name.
unfoldable pub load_end : List Url → Estat → LineNumbers → Bytes → Result Loaded
unfolding url_of split_at_first
load_end urls sts n s = do
  bug_on (not (n.count == 0) && not (is_directory sts.mode))
  s1 ← given (expect (32 ∷ []) s)
  url ← url_of urls sts.url n.parent n.intnum
  name ← name_end (split_at_first 0 s1)
  ok (record {
    entry = with_numbers sts n url;
    filename = name.0;
    parent_inode = n.parent;
    rest = name.1;
  })

unfoldable pub load_1entry : Devices → List Url → Estat → Bytes → Result Loaded
unfolding read_head read_descr read_numbers load_end
load_1entry sys urls sts s = do
  head ← read_head s
  descr ← read_descr sys (with_head sts head.0) head.1
  numbers ← read_numbers descr.1
  load_end urls descr.0 numbers.0 numbers.1
