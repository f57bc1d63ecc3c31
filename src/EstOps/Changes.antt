-- ===== src/EstOps/Changes.antt =====
-- `ops__stat_to_action` of src/est_ops.c: which changes the meta-data of an entry show.
use fsvs.Prelude.{
  ℕ, ◌/◌, ◌%◌, ◌≡◌, ◌≢◌, ◌↔◌, ◌⊎◌, Bool, true, false, not, ◌&&◌, ◌||◌, arith, ◌==◌, if◌then◌else◌,
}

-- `struct sstat_t`: seconds only of the times; `rdev` and `size` share their place in the source.
pub record Stat : Type 0 where
  pub mode : ℕ
  pub mtime : ℕ
  pub ctime : ℕ
  pub uid : ℕ
  pub gid : ℕ
  pub rdev : ℕ
  pub size : ℕ

-- The bits FS_META_MTIME, FS_META_OWNER, FS_META_GROUP, FS_META_UMODE, FS_REPLACED (FS_NEW and
-- FS_REMOVED), FS_CHANGED and FS_LIKELY of a status.
pub record Change : Type 0 where
  pub meta_mtime : Bool
  pub meta_owner : Bool
  pub meta_group : Bool
  pub meta_umode : Bool
  pub replaced : Bool
  pub changed : Bool
  pub likely : Bool

-- FS_NO_CHANGE
abbrev pub no_change : Change
no_change = record {
  meta_mtime = false;
  meta_owner = false;
  meta_group = false;
  meta_umode = false;
  replaced = false;
  changed = false;
  likely = false;
}

-- The values of `mode & S_IFMT`, divided by 0x1000.
abbrev pub file_type : ℕ → ℕ
file_type mode = mode / 4096 % 16

abbrev pub char_type : ℕ
char_type = 2

abbrev pub dir_type : ℕ
dir_type = 4

abbrev pub block_type : ℕ
block_type = 6

abbrev pub regular_type : ℕ
regular_type = 8

abbrev pub link_type : ℕ
link_type = 10

-- The bits that are set before the types are looked at.
unfoldable pub meta_change : Stat → Stat → Change
meta_change old new = record no_change {
  meta_mtime = not (old.mtime == new.mtime);
  meta_owner = not (old.uid == new.uid);
  meta_group = not (old.gid == new.gid);
  meta_umode = not (old.mode == new.mode);
}

-- The `switch` on the type; the default case stands behind a BUG_ON.
unfoldable pub same_type : ℕ → Stat → Stat → Bool → Change → Change
same_type type old new is_copy c =
    if type == block_type || type == char_type
    then (if old.rdev == new.rdev then c else record c { replaced = true })
    else if type == link_type || type == regular_type
    then (if not (old.size == new.size)
        then record c { changed = true }
        else if c.meta_mtime || (not (old.ctime == new.ctime) && not is_copy)
        then record c { likely = true }
        else c)
    else if type == dir_type
    then (if c.meta_mtime || not (old.ctime == new.ctime) then record c { likely = true } else c)
    else no_change

-- `ops__stat_to_action`; `is_copy` is the test of RF___IS_COPY. The entry is none that is to be ignored, which the
-- source sees to by a BUG_ON where the types are the same.
unfoldable pub stat_to_action : Stat → Stat → Bool → Change
unfolding meta_change same_type
stat_to_action old new is_copy =
    let c = meta_change old new in
    if file_type old.mode == file_type new.mode
    then same_type (file_type new.mode) old new is_copy c
    else record c { replaced = true }

-- An entry of a type that is versioned.
abbrev pub IsVersioned : ℕ → Type 0
IsVersioned type =
    (type ≡ block_type)
    ⊎ (type ≡ char_type)
    ⊎ (type ≡ link_type)
    ⊎ (type ≡ regular_type)
    ⊎ (type ≡ dir_type)

abbrev pub is_device : ℕ → Bool
is_device type = type == block_type || type == char_type

abbrev pub is_file : ℕ → Bool
is_file type = type == link_type || type == regular_type

-- What must be as before for an entry to count as not changed. The change time of a device is not
-- looked at, nor is that of a copied file.
pub record Same (old new : Stat) (is_copy : Bool) : Type 0 where
  pub mode : old.mode ≡ new.mode
  pub mtime : old.mtime ≡ new.mtime
  pub uid : old.uid ≡ new.uid
  pub gid : old.gid ≡ new.gid
  pub rdev : is_device (file_type new.mode) ≡ true → old.rdev ≡ new.rdev
  pub size : is_file (file_type new.mode) ≡ true → old.size ≡ new.size
  pub file_ctime : is_file (file_type new.mode) ≡ true → is_copy ≡ false → old.ctime ≡ new.ctime
  pub dir_ctime : file_type new.mode ≡ dir_type → old.ctime ≡ new.ctime

no_change→Same :
    (old new : Stat) (is_copy : Bool)
    → IsVersioned (file_type new.mode)
    → stat_to_action old new is_copy ≡ no_change
    → Same old new is_copy
unfolding stat_to_action
no_change→Same old new is_copy v h = ground arith

Same→no_change :
    (old new : Stat) (is_copy : Bool)
    → Same old new is_copy
    → stat_to_action old new is_copy ≡ no_change
unfolding stat_to_action
Same→no_change old new is_copy h = ground arith

-- For an entry of a versioned type ops__stat_to_action reports no change exactly if mode, mtime, owner
-- and group are the same, and the device number, or the size and (but for a copy) the change time, or
-- the change time of a directory.
pub stat_to_action-Same :
    (old new : Stat) (is_copy : Bool)
    → IsVersioned (file_type new.mode)
    → (stat_to_action old new is_copy ≡ no_change) ↔ Same old new is_copy
stat_to_action-Same old new is_copy v =
    (no_change→Same old new is_copy v, Same→no_change old new is_copy)

-- ops__stat_to_action reports an entry as replaced exactly if its type is another one, or if it is a
-- device with another number; only a link or a file is reported as changed, if the size is another.
pub stat_to_action-replaced :
    (old new : Stat) (is_copy : Bool)
    → let c = stat_to_action old new is_copy in
      ((c.replaced ≡ true) ↔ (
        (file_type old.mode ≢ file_type new.mode)
        ⊎ ((is_device (file_type new.mode) ≡ true) × (old.rdev ≢ new.rdev))))
      × ((c.changed ≡ true) ↔ (
          (file_type old.mode ≡ file_type new.mode)
          × (is_file (file_type new.mode) ≡ true)
          × (old.size ≢ new.size)))
unfolding stat_to_action
stat_to_action-replaced old new is_copy =
    ((ground arith, ground arith), (ground arith, ground arith))
