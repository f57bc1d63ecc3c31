-- ===== src/EstOps/Line/RoundTrip.antt =====
-- A line that is written is read back.
use mathlib.Core.List.{append_assoc}
use mathlib.Core.Path.{◌∙◌}
use fsvs.Prelude.{
  ℕ, ◌<◌, ◌≡◌, ◌≢◌, inl, inr, refl, ap, sym, Bool, true, false, not, ◌&&◌, Option, some, List, [],
  ◌∷◌, ◌++◌, ◌==◌, if◌then◌else◌, Bytes, length, arith, All, Bool-cases, ne→==, split_at_first,
}
use fsvs.Url.{Url}
use fsvs.EstOps.Line.UrlOf.{IsUrl, url_of-IsUrl}
use fsvs.EstOps.Line.{
  Result, ok, ◌>>=◌, bug_on, Devices, Estat, is_directory, packed, saved_flags, apply_group,
  entries_to_write,
}
use fsvs.EstOps.Line.Fields.{
  Head, LineNumbers, write_head, write_descr, read_head, read_descr, read_numbers, write_numbers,
}
use fsvs.EstOps.Line.Numeric.{
  FitsHead, FitsNumbers, read_head-write_head, read_numbers-write_numbers,
}
use fsvs.EstOps.Line.Described.{described, read_descr-write_descr}
use fsvs.EstOps.Line.Entry.{
  head_of, numbers_of, with_head, write_info, line, saved_text, saved, save_1entry, revision_of,
  intnum_of, url_of, Loaded, load_end, load_1entry,
}

-- An entry whose fields have their size in the source, with a time from 1970 to 2106, whose name holds no NUL.
pub record Fits (sts : Estat) (parent_ino : ℕ) : Type 0 where
  pub head : FitsHead (head_of sts)
  pub numbers : FitsNumbers (numbers_of sts parent_ino)
  pub digest : is_directory sts.mode ≡ false → (length sts.md5 ≡ 16) × All (λ x. x < 256) sts.md5
  pub name : All (λ c. c ≢ 0) sts.name

split_at_first-append :
    (name s : Bytes) → All (λ c. c ≢ 0) name → split_at_first 0 (name ++ 0 ∷ s) ≡ some (name, s)
unfolding split_at_first
split_at_first-append [] s w = refl
split_at_first-append (c ∷ name) s (h, w) = rw (ne→== c 0 h, split_at_first-append name s w) refl

write_head-append : (h : Head) (s t : Bytes) → write_head h s ++ t ≡ write_head h (s ++ t)
unfolding write_head
write_head-append h s t = simp append_assoc

write_numbers-append :
    (n : LineNumbers) (s t : Bytes) → write_numbers n s ++ t ≡ write_numbers n (s ++ t)
unfolding write_numbers
write_numbers-append n s t = simp append_assoc

write_descr-append :
    (sys : Devices) (sts : Estat) (s t : Bytes)
    → write_descr sys sts s ++ t ≡ write_descr sys sts (s ++ t)
unfolding write_descr
write_descr-append sys sts s t = simp append_assoc

bug_free : (t : Bool) → bug_on (not t && false) ≡ ok tt
bug_free true = refl
bug_free false = refl

module _ (sys : Devices) (sts : Estat) (parent_ino : ℕ) where
  write_info-append :
      (s t : Bytes) → write_info sys sts parent_ino s ++ t ≡ write_info sys sts parent_ino (s ++ t)
  unfolding write_info
  write_info-append s t =
      write_head-append (head_of sts) _ t
      ∙ ap (write_head (head_of sts)) (
          write_descr-append sys sts _ t
          ∙ ap (write_descr sys sts) (
              write_numbers-append (numbers_of sts parent_ino) (sts.name ++ s) t
              ∙ ap (write_numbers (numbers_of sts parent_ino)) (append_assoc sts.name s t)))

  -- What is expected of the line in an entry that was `sts0`; its URL aside.
  abbrev pub restored : Estat → Option Url → Bytes → Loaded
  restored sts0 url rest = record {
    entry = record sts0 {
      mode = sts.mode;
      ctime = sts.ctime;
      mtime = sts.mtime;
      size = sts.size;
      dev = sts.dev;
      ino = sts.ino;
      uid = sts.uid;
      gid = sts.gid;
      flags = saved_flags sts.flags;
      old_rev_mode = packed sts.mode;
      new_rev_mode = packed sts.mode;
      local_mode = packed sts.mode;
      repos_rev = revision_of sts;
      old_rev = revision_of sts;
      url = url;
      md5 = if is_directory sts.mode then sts0.md5 else sts.md5;
      entry_count = if is_directory sts.mode then entries_to_write sts else sts0.entry_count;
    };
    filename = sts.name;
    parent_inode = parent_ino;
    rest = rest;
  }

  load_step :
      (urls : List Url) (sts0 d : Estat) (h : Head) (n : LineNumbers) (s s1 s2 s3 : Bytes)
      → read_head s ≡ ok (h, s1)
      → read_descr sys (with_head sts0 h) s1 ≡ ok (d, s2)
      → read_numbers s2 ≡ ok (n, s3)
      → load_1entry sys urls sts0 s ≡ load_end urls d n s3
  unfolding load_1entry
  load_step urls sts0 d h n s s1 s2 s3 e1 e2 e3 = rw (e1, e2, e3) refl

  load_end-restored :
      (urls : List Url) (sts0 : Estat) (rest : Bytes)
      → All (λ c. c ≢ 0) sts.name
      → load_end urls
          (described sys sts0 sts)
          (numbers_of sts parent_ino)
          (32 ∷ (sts.name ++ 0 ∷ 10 ∷ rest))
        ≡ (url_of urls sts0.url parent_ino (intnum_of sts.url) >>= λ url.
            ok (restored sts0 url rest))
  unfolding load_end
  load_end-restored urls sts0 rest w = elim (Bool-cases (is_directory sts.mode)) [
    | inl e ↦
        rw (e, split_at_first-append sts.name (10 ∷ rest) w) rw
          (bug_free (entries_to_write sts == 0)) refl
    | inr e ↦ rw (e, split_at_first-append sts.name (10 ∷ rest) w) refl
  ]

  load_1entry-write_info :
      (urls : List Url) (sts0 : Estat) (rest : Bytes)
      → Fits sts parent_ino
      → load_1entry sys urls sts0 (write_info sys sts parent_ino (0 ∷ 10 ∷ rest)) ≡ (
          url_of urls sts0.url parent_ino (intnum_of sts.url) >>= λ url.
          ok (restored sts0 url rest))
  unfolding write_info write_numbers
  load_1entry-write_info urls sts0 rest w =
      load_step urls sts0 (described sys sts0 sts) (head_of sts) (numbers_of sts parent_ino) _ _ _ _
        (read_head-write_head (head_of sts) _ w.head)
        (read_descr-write_descr sys sts0 sts _ w.digest)
        (read_numbers-write_numbers (numbers_of sts parent_ino) _ w.numbers)
      ∙ load_end-restored urls sts0 rest w.name

saved_text-line :
    (sys : Devices) (sts : Estat) (parent_ino : ℕ) (text : Bytes)
    → saved_text sys sts parent_ino ≡ line text
    → text ≡ write_info sys sts parent_ino (0 ∷ 10 ∷ [])
unfolding saved_text
saved_text-line sys sts parent_ino text h = ground arith

-- A line of `ops__save_1entry` comes from the entry with its group applied, and fits into the buffer.
save_1entry-line :
    (sys : Devices) (set_props : Bool) (sts sts' : Estat) (parent_ino : ℕ) (text : Bytes)
    → save_1entry sys set_props sts parent_ino ≡ line text
    → apply_group set_props sts ≡ some sts'
    → text ≡ write_info sys sts' parent_ino (0 ∷ 10 ∷ [])
unfolding save_1entry
save_1entry-line sys set_props sts sts' parent_ino text h e =
    saved_text-line sys sts' parent_ino text (ap (λ o. saved sys o parent_ino) (sym e) ∙ h)

-- A line that `ops__save_1entry` has made of an entry is read back by `ops__load_1entry` with all its fields,
-- whatever stood in the entry that is filled, and what follows the line is left. The modes come back packed, of
-- the flags those of RF___SAVE_MASK, the count of a directory is that of the children to be written. The URL of an entry
-- with no parent is the last one of the list, or none if there is none; with the number 0 the entry that is filled keeps
-- its own; else it is the first one of the list with the number, and if there is none, the result is
-- EADDRNOTAVAIL. The fields of the entry, with its group applied, have their size in the source, the times are those
-- from 1970 to 2106, the digest of what is no directory has 16 bytes, and the name holds no NUL.
pub load_1entry-save_1entry :
    (sys : Devices) (set_props : Bool) (urls : List Url) (sts sts' sts0 : Estat) (parent_ino : ℕ)
    (text rest : Bytes)
    → save_1entry sys set_props sts parent_ino ≡ line text
    → apply_group set_props sts ≡ some sts'
    → Fits sts' parent_ino
    → (r : Result (Option Url)) × IsUrl urls sts0.url parent_ino (intnum_of sts'.url) r
      × (load_1entry sys urls sts0 (text ++ rest)
          ≡ (r >>= λ url. ok (restored sys sts' parent_ino sts0 url rest)))
load_1entry-save_1entry sys set_props urls sts sts' sts0 parent_ino text rest h e w = (
  url_of urls sts0.url parent_ino (intnum_of sts'.url),
  url_of-IsUrl urls sts0.url parent_ino (intnum_of sts'.url),
  ap (load_1entry sys urls sts0) (
        ap (λ t. t ++ rest) (save_1entry-line sys set_props sts sts' parent_ino text h e)
        ∙ write_info-append sys sts' parent_ino (0 ∷ 10 ∷ []) rest)
      ∙ load_1entry-write_info sys sts' parent_ino urls sts0 rest w,
)
