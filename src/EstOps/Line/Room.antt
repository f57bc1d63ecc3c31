-- ===== src/EstOps/Line/Room.antt =====
-- The buffer of `ops__save_1entry` is large enough for what is no device.
use fsvs.Prelude.{
  inl, inr, ℕ, zero, suc, ◌+◌, ◌-◌, ◌*◌, ◌%◌, ◌^◌, ◌≤◌, ◌<◌, ◌≡◌, refl, ap, ◌∙◌, Bool, true, false,
  some, [], ◌∷◌, ◌++◌, Bytes, length, length-append, replicate, print, padded, print_signed, arith,
  Bool-cases, lt→ltb, le→ltb, ne→==,
}
use fsvs.Prelude.Numerals.Lengths.{print-length}
use fsvs.Checksum.Hex.{md5tohex}
use fsvs.EstOps.Line.{Devices, Estat, is_directory, is_device_mode, apply_group}
use fsvs.EstOps.Line.Fields.{Head, LineNumbers, write_head, write_descr, write_numbers}
use fsvs.EstOps.Line.Entry.{
  head_of, numbers_of, max_dir_info_chars, write_info, line, saved_text, saved, save_1entry,
}

length-replicate : (k c : ℕ) → length (replicate {A = ℕ} k c) ≡ k
length-replicate zero c = refl
length-replicate (suc k) c = ap suc (length-replicate k c)

length-padded : (c width : ℕ) (s : Bytes) → length s ≤ width → length (padded c width s) ≡ width
length-padded c width s h =
    omega (
      arith,
      length-append (replicate (width - length s) c) s,
      length-replicate (width - length s) c,
    )

length-print_signed : (n : ℕ) → n < 2 ^ 63 → length (print_signed n) ≤ 19
unfolding print_signed
length-print_signed n h =
    rw (lt→ltb n (2 ^ 63) h) (print-length 10 (omega arith) n 18 (omega arith))

length-md5tohex : (md5 : Bytes) → length (md5tohex md5) ≡ 2 * length md5
unfolding md5tohex
length-md5tohex [] = refl
length-md5tohex (x ∷ md5) = omega (arith, length-md5tohex md5)

-- One field, with the blank behind it.
length-field :
    (a rest : Bytes) (k m : ℕ)
    → length a ≤ k
    → length rest ≤ m
    → length (a ++ 32 ∷ rest) ≤ k + suc m
length-field a rest k m h w = omega (arith, length-append a (32 ∷ rest))

length-print_word : (n : ℕ) → n < 2 ^ 32 → length (print 10 n) ≤ 10
length-print_word n h = print-length 10 (omega arith) n 9 (omega arith)

length-time : (n : ℕ) → length (padded 32 8 (print 16 (n % 2 ^ 32))) ≤ 8
length-time n = omega (
  arith,
  length-padded 32 8 (print 16 (n % 2 ^ 32))
      (print-length 16 (omega arith) (n % 2 ^ 32) 7 (omega arith)),
)

length-mode : (n : ℕ) → n < 8 ^ 7 → length (padded b'0' 7 (print 8 n)) ≤ 7
length-mode n h =
    omega (arith, length-padded b'0' 7 (print 8 n) (print-length 8 (omega arith) n 6 h))

-- A time is cut to 32 bits before it is written, and a mode has at most seven octal digits.
write_head-length :
    (h : Head) (rest : Bytes)
    → h.mode < 8 ^ 7
    → h.flags < 128
    → length (write_head h rest) ≤ 29 + length rest
unfolding write_head
write_head-length h rest m f =
    let f4 =
      length-field (print 16 h.flags) rest 2 (length rest)
        (print-length 16 (omega arith) h.flags 1 (omega arith)) (omega arith) in
    let f3 =
      length-field (padded 32 8 (print 16 (h.mtime % 2 ^ 32))) _ 8 _ (length-time h.mtime) f4 in
    let f2 =
      length-field (padded 32 8 (print 16 (h.ctime % 2 ^ 32))) _ 8 _ (length-time h.ctime) f3 in
    let f1 = length-field (padded b'0' 7 (print 8 h.mode)) _ 7 _ (length-mode h.mode m) f2 in
    omega (arith, f1)

-- The ranges in which the line fits: 63 bits for the size and the inodes, and ten digits for the revision.
pub record HasShortNumbers (n : LineNumbers) : Type 0 where
  pub size : n.size < 2 ^ 63
  pub revision : n.revision < 10 ^ 10
  pub intnum : n.intnum < 2 ^ 32
  pub dev : n.dev < 2 ^ 64
  pub ino : n.ino < 2 ^ 63
  pub parent : n.parent < 2 ^ 63
  pub count : n.count < 2 ^ 32
  pub uid : n.uid < 2 ^ 32
  pub gid : n.gid < 2 ^ 32

length-print_revision : (n : ℕ) → n < 10 ^ 10 → length (print_signed n) ≤ 10
unfolding print_signed
length-print_revision n h =
    rw (lt→ltb n (2 ^ 63) (omega arith)) (print-length 10 (omega arith) n 9 h)

-- The number of children takes at most `k` characters.
write_numbers-length :
    (n : LineNumbers) (rest : Bytes) (k : ℕ)
    → HasShortNumbers n
    → length (print 10 n.count) ≤ k
    → length (write_numbers n rest) ≤ 123 + k + length rest
unfolding write_numbers
write_numbers-length n rest k w count =
    let r9 =
      length-field (print 10 n.gid) rest 10 (length rest) (length-print_word n.gid w.gid)
        (omega arith) in
    let r8 = length-field (print 10 n.uid) _ 10 _ (length-print_word n.uid w.uid) r9 in
    let r7 = length-field (print 10 n.count) _ k _ count r8 in
    let r6 =
      length-field (print_signed n.parent) _ 19 _ (length-print_signed n.parent w.parent) r7 in
    let r5 = length-field (print_signed n.ino) _ 19 _ (length-print_signed n.ino w.ino) r6 in
    let r4 =
      length-field (print 16 n.dev) _ 16 _ (print-length 16 (omega arith) n.dev 15 w.dev) r5 in
    let r3 = length-field (print 10 n.intnum) _ 10 _ (length-print_word n.intnum w.intnum) r4 in
    let r2 =
      length-field (print_signed n.revision) _ 10 _ (length-print_revision n.revision w.revision)
        r3 in
    let r1 = length-field (print_signed n.size) _ 19 _ (length-print_signed n.size w.size) r2 in
    omega (arith, r1)

write_descr-directory :
    (sys : Devices) (sts : Estat) (rest : Bytes)
    → is_device_mode sts.mode ≡ false
    → is_directory sts.mode ≡ true
    → length (write_descr sys sts rest) ≤ 4 + length rest
unfolding write_descr
write_descr-directory sys sts rest dev e = rw (dev, e) (omega arith)

write_descr-file :
    (sys : Devices) (sts : Estat) (rest : Bytes)
    → is_device_mode sts.mode ≡ false
    → is_directory sts.mode ≡ false
    → length sts.md5 ≡ 16
    → length (write_descr sys sts rest) ≤ 35 + length rest
unfolding write_descr
write_descr-file sys sts rest dev e w =
    rw (dev, e) (omega (arith, length-append (md5tohex sts.md5) rest, length-md5tohex sts.md5, w))

no_children : (k : ℕ) → k ≡ 0 → length (print 10 k) ≤ 1
no_children k e = rw e (print-length 10 (omega arith) 0 0 (omega arith))

-- A directory has no digest, and anything else no children.
digest_and_count :
    (sys : Devices) (sts : Estat) (parent_ino : ℕ) (rest : Bytes)
    → is_device_mode sts.mode ≡ false
    → (is_directory sts.mode ≡ false → length sts.md5 ≡ 16)
    → HasShortNumbers (numbers_of sts parent_ino)
    → length (write_descr sys sts (write_numbers (numbers_of sts parent_ino) rest))
      ≤ 159 + length rest
digest_and_count sys sts parent_ino rest dev w n = elim (Bool-cases (is_directory sts.mode)) [
  | inl e ↦ omega (
    arith,
    write_descr-directory sys sts (write_numbers (numbers_of sts parent_ino) rest) dev e,
    write_numbers-length (numbers_of sts parent_ino) rest 10 n
        (length-print_word (numbers_of sts parent_ino).count n.count),
  )
  | inr e ↦ omega (
    arith,
    write_descr-file sys sts (write_numbers (numbers_of sts parent_ino) rest) dev e (w e),
    write_numbers-length (numbers_of sts parent_ino) rest 1 n
        (no_children (numbers_of sts parent_ino).count (rw e refl)),
  )
]

-- With its terminator and the newline the line does not reach the last two characters of the buffer.
short :
    (sys : Devices) (sts : Estat) (parent_ino : ℕ)
    → is_device_mode sts.mode ≡ false
    → sts.mode < 8 ^ 7
    → (is_directory sts.mode ≡ false → length sts.md5 ≡ 16)
    → HasShortNumbers (numbers_of sts parent_ino)
    → length sts.name ≤ 255
    → length (write_info sys sts parent_ino []) + 1 < max_dir_info_chars
unfolding write_info
short sys sts parent_ino dev mode w n name =
    let l2 = digest_and_count sys sts parent_ino (sts.name ++ []) dev w n in
    let l1 =
      write_head-length (head_of sts)
        (write_descr sys sts (write_numbers (numbers_of sts parent_ino) (sts.name ++ []))) mode
        (omega arith) in
    omega (arith, l1, l2, length-append sts.name [])

saved_text-short :
    (sys : Devices) (sts : Estat) (parent_ino : ℕ)
    → length (write_info sys sts parent_ino []) + 1 < max_dir_info_chars
    → saved_text sys sts parent_ino ≡ line (write_info sys sts parent_ino (0 ∷ 10 ∷ []))
unfolding saved_text
saved_text-short sys sts parent_ino h =
    rw
      (
        le→ltb max_dir_info_chars (length (write_info sys sts parent_ino [])) (omega arith),
        ne→== (length (write_info sys sts parent_ino []) + 1) max_dir_info_chars
            (λ e. absurd (omega arith)),
        ne→== (length (write_info sys sts parent_ino []) + 1) (max_dir_info_chars + 1)
            (λ e. absurd (omega arith)),
      )
      refl

-- The line of an entry that is no device fits into the buffer, with its terminator, and what marks the end of the
-- buffer stays, so neither BUG_ON about the length is reached. The mode has its 16 bits, size and inodes are below 2^63, the revision has at most ten digits,
-- the digest has 16 bytes, and the name has at most NAME_MAX.
pub save_1entry-fits :
    (sys : Devices) (set_props : Bool) (sts sts' : Estat) (parent_ino : ℕ)
    → apply_group set_props sts ≡ some sts'
    → is_device_mode sts'.mode ≡ false
    → sts'.mode < 8 ^ 7
    → (is_directory sts'.mode ≡ false → length sts'.md5 ≡ 16)
    → HasShortNumbers (numbers_of sts' parent_ino)
    → length sts'.name ≤ 255
    → save_1entry sys set_props sts parent_ino ≡ line (write_info sys sts' parent_ino (0 ∷ 10 ∷ []))
unfolding save_1entry
save_1entry-fits sys set_props sts sts' parent_ino e dev mode w n name =
    ap (λ o. saved sys o parent_ino) e
    ∙ saved_text-short sys sts' parent_ino (short sys sts' parent_ino dev mode w n name)
