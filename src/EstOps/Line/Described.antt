-- ===== src/EstOps/Line/Described.antt =====
-- The description in a line of the entry list, a device or a digest, is read back as it was written (est_ops.c).
use mathlib.Core.Path.{◌∙◌}
use fsvs.Prelude.{
  ◌+◌, ◌-◌, ◌*◌, ◌/◌, ◌%◌, ◌^◌, ◌<◌, ◌≡◌, inl, inr, refl, ap, false, [], ◌∷◌, ◌++◌, ◌==◌,
  if◌then◌else◌, Bytes, codes, length, skip_ws, arith, All, Bool-cases,
}
use fsvs.Checksum.Hex.{md5tohex, char2md5-md5tohex}
use fsvs.EstOps.Changes.{file_type, block_type}
use fsvs.EstOps.Line.{
  ok, Devices, Estat, is_directory, is_device_mode, packed, dev_to_string, string_to_dev,
  behind_word, get_word,
}
use fsvs.EstOps.Line.Fields.{write_descr, read_device, read_md5, read_descr}
use fsvs.EstOps.Line.Numeric.{space-IsEnd}
use fsvs.EstOps.Line.Entry.{head_of, with_head}
use fsvs.EstOps.Line.DeviceText.{string_to_dev-dev_to_string, digit_of-space, read_back}

-- The first character of a digest.
md5tohex-skip_ws :
    (md5 rest : Bytes)
    → length md5 ≡ 16
    → All (λ x. x < 256) md5
    → skip_ws (md5tohex md5 ++ rest) ≡ md5tohex md5 ++ rest
unfolding md5tohex skip_ws
md5tohex-skip_ws [] rest n w = absurd (omega arith)
md5tohex-skip_ws (x ∷ md5) rest n (h, w) = rw (digit_of-space (x / 16) (omega arith)) refl

-- The entry behind the description, in front of the numbers.
abbrev pub described : Devices → Estat → Estat → Estat
described sys sts0 sts = record (with_head sts0 (head_of sts)) {
  size =
      if is_device_mode sts.mode
      then sys.mkdev (sys.major sts.size % 2 ^ 32) (sys.minor sts.size % 2 ^ 32)
      else sts0.size;
  md5 = if is_directory sts.mode then sts0.md5 else sts.md5;
}

module _ (sys : Devices) (sts0 sts : Estat) where
  abbrev with_device : Estat
  with_device = record (with_head sts0 (head_of sts)) {
    size =
        if is_device_mode sts.mode
        then sys.mkdev (sys.major sts.size % 2 ^ 32) (sys.minor sts.size % 2 ^ 32)
        else sts0.size;
  }

  with_type_same :
      read_back sys (with_head sts0 (head_of sts)) sts.mode sts.size
      ≡ record (with_head sts0 (head_of sts)) {
        size = sys.mkdev (sys.major sts.size % 2 ^ 32) (sys.minor sts.size % 2 ^ 32);
      }
  with_type_same =
      ap
        (λ v. record (with_head sts0 (head_of sts)) {
          mode = v;
          size = sys.mkdev (sys.major sts.size % 2 ^ 32) (sys.minor sts.size % 2 ^ 32);
        })
        {x = sts.mode - packed sts.mode * 4096 + file_type sts.mode * 4096} (omega arith)

  dev_to_string-skip_ws :
      (t : Bytes)
      → skip_ws (dev_to_string sys sts.mode sts.size b':' ++ t)
        ≡ dev_to_string sys sts.mode sts.size b':' ++ t
  unfolding dev_to_string skip_ws
  dev_to_string-skip_ws t = elim (Bool-cases (file_type sts.mode == block_type)) [
    | inl e ↦ rw e refl
    | inr e ↦ rw e refl
  ]

  read_device_lem :
      (t : Bytes)
      → read_device sys (with_head sts0 (head_of sts)) (
          skip_ws (
            (if is_device_mode sts.mode
              then dev_to_string sys sts.mode sts.size b':'
              else codes "nd")
            ++ 32 ∷ t))
        ≡ ok (with_device, 32 ∷ t)
  unfolding read_device get_word behind_word
  read_device_lem t = elim (Bool-cases (is_device_mode sts.mode)) [
    | inl e ↦ rw e (
        ap (string_to_dev sys (with_head sts0 (head_of sts))) (dev_to_string-skip_ws (32 ∷ t))
        ∙ string_to_dev-dev_to_string sys (with_head sts0 (head_of sts)) sts.mode sts.size b':' 32 t
            e (inl refl) space-IsEnd
        ∙ ap (λ r. ok (r, 32 ∷ t)) with_type_same)
    | inr e ↦ rw e refl
  ]

  read_md5_lem :
      (t : Bytes)
      → (is_directory sts.mode ≡ false → (length sts.md5 ≡ 16) × All (λ x. x < 256) sts.md5)
      → read_md5 with_device (
          skip_ws
            (32 ∷ ((if is_directory sts.mode then codes "x" else md5tohex sts.md5) ++ 32 ∷ t)))
        ≡ ok (described sys sts0 sts, 32 ∷ t)
  unfolding read_md5 get_word behind_word skip_ws
  read_md5_lem t w = elim (Bool-cases (is_directory sts.mode)) [
    | inl e ↦ rw e refl
    | inr e ↦
        (let (n, v) = w e in
          rw (e, md5tohex-skip_ws sts.md5 (32 ∷ t) n v, char2md5-md5tohex sts.md5 (32 ∷ t) n v)
            refl)
  ]

  pub read_descr-write_descr :
      (t : Bytes)
      → (is_directory sts.mode ≡ false → (length sts.md5 ≡ 16) × All (λ x. x < 256) sts.md5)
      → read_descr sys (with_head sts0 (head_of sts)) (write_descr sys sts (32 ∷ t))
        ≡ ok (described sys sts0 sts, 32 ∷ t)
  unfolding read_descr write_descr
  read_descr-write_descr t w =
      rw
        (read_device_lem
          ((if is_directory sts.mode then codes "x" else md5tohex sts.md5) ++ 32 ∷ t))
        (read_md5_lem t w)
