-- ===== src/EstOps/Line/DeviceText.antt =====
-- The description of a device is read back as it was written.
use mathlib.Core.List.{append_assoc}
use mathlib.Core.Path.{◌∙◌}
use fsvs.Prelude.{
  ℕ, ◌%◌, ◌^◌, ◌<◌, ◌≡◌, ◌⊎◌, inl, inr, refl, ap, sym, true, false, ◌||◌, ◌∷◌, ◌++◌, ◌==◌, Bytes,
  codes, is_space, print, arith, Bool-cases,
}
use fsvs.Prelude.Numerals.{digit_value}
use fsvs.Prelude.Numerals.Reading.{IsEnd, strtoul-print}
use fsvs.Checksum.Hex.{digit_of}
use fsvs.EstOps.Changes.{file_type, char_type, block_type}
use fsvs.EstOps.Line.{
  ok, Devices, Estat, is_device_mode, dev_to_string, scan_device, with_type, device_of,
  string_to_dev,
}

colon-IsEnd : IsEnd b':'
unfolding digit_value
colon-IsEnd = refl

abbrev pub device_text : ℕ → ℕ → ℕ → Bytes → Bytes
device_text d maj min rest =
    d ∷ b'0' ∷ b'x' ∷ (print 16 maj ++ b':' ∷ b'0' ∷ b'x' ∷ (print 16 min ++ rest))

scan_device-device_text :
    (d maj min c : ℕ) (rest : Bytes)
    → maj < 2 ^ 32
    → min < 2 ^ 32
    → IsEnd c
    → scan_device (device_text d maj min (c ∷ rest)) ≡ ok (d, maj, min, c ∷ rest)
unfolding scan_device
scan_device-device_text d maj min c rest h k stop =
    rw
      (
        strtoul-print 16 (omega arith) (omega arith) maj (omega arith) b':'
            (b'0' ∷ b'x' ∷ (print 16 min ++ c ∷ rest)) colon-IsEnd 0,
        strtoul-print 16 (omega arith) (omega arith) min (omega arith) c rest stop 0,
      )
      (ground arith)

other_device :
    (t : ℕ)
    → (t == block_type) ≡ false
    → (t == block_type || t == char_type) ≡ true
    → (t == char_type) ≡ true
other_device t e h = ground arith

==_eq : (a b : ℕ) → (a == b) ≡ true → a ≡ b
==_eq a b h = ground arith

pub digit_of-space : (x : ℕ) → x < 16 → is_space (digit_of x) ≡ false
digit_of-space x h = ground arith

abbrev pub read_back : Devices → Estat → ℕ → ℕ → Estat
read_back sys sts mode rdev =
    with_type (file_type mode)
      (record sts { size = sys.mkdev (sys.major rdev % 2 ^ 32) (sys.minor rdev % 2 ^ 32) })

module _ (sys : Devices) (sts : Estat) (mode rdev d c : ℕ) (rest : Bytes) where
  device_text-append :
      (kind : Bytes)
      → kind
          ++ (d ∷ codes "0x")
          ++ print 16 (sys.major rdev % 2 ^ 32)
          ++ codes ":0x"
          ++ print 16 (sys.minor rdev % 2 ^ 32)
          ++ c ∷ rest
        ≡ kind ++ device_text d (sys.major rdev % 2 ^ 32) (sys.minor rdev % 2 ^ 32) (c ∷ rest)
  device_text-append kind = simp append_assoc

  device_of-device_text :
      (type : ℕ)
      → (d ≡ b':') ⊎ (d ≡ b' ')
      → IsEnd c
      → device_of sys sts type
          (device_text d (sys.major rdev % 2 ^ 32) (sys.minor rdev % 2 ^ 32) (c ∷ rest))
        ≡ ok (
          with_type type
              (record sts { size = sys.mkdev (sys.major rdev % 2 ^ 32) (sys.minor rdev % 2 ^ 32) }),
          c ∷ rest,
        )
  unfolding device_of
  device_of-device_text type h stop =
      rw
        (scan_device-device_text d (sys.major rdev % 2 ^ 32) (sys.minor rdev % 2 ^ 32) c rest
          (omega arith) (omega arith) stop)
        (ground arith)

  string_to_dev-text :
      (type : ℕ) (kind t : Bytes)
      → string_to_dev sys sts (kind ++ t) ≡ device_of sys sts type t
      → t ≡ device_text d (sys.major rdev % 2 ^ 32) (sys.minor rdev % 2 ^ 32) (c ∷ rest)
      → (d ≡ b':') ⊎ (d ≡ b' ')
      → IsEnd c
      → string_to_dev sys sts (
          kind
          ++ (d ∷ codes "0x")
          ++ print 16 (sys.major rdev % 2 ^ 32)
          ++ codes ":0x"
          ++ print 16 (sys.minor rdev % 2 ^ 32)
          ++ c ∷ rest)
        ≡ ok (
          with_type type
              (record sts { size = sys.mkdev (sys.major rdev % 2 ^ 32) (sys.minor rdev % 2 ^ 32) }),
          c ∷ rest,
        )
  string_to_dev-text type kind t e f h stop =
      ap (string_to_dev sys sts) (device_text-append kind ∙ ap (λ z. kind ++ z) (sym f))
      ∙ e
      ∙ ap (device_of sys sts type) f
      ∙ device_of-device_text type h stop

  -- The text that ops___dev_to_string makes of a device is read by ops__string_to_dev as the type and the
  -- numbers of the device, to 32 bits, with either delimiter, and what follows it is left; it is followed by neither
  -- a digit nor a letter.
  pub string_to_dev-dev_to_string :
      is_device_mode mode ≡ true
      → (d ≡ b':') ⊎ (d ≡ b' ')
      → IsEnd c
      → string_to_dev sys sts (dev_to_string sys mode rdev d ++ c ∷ rest)
        ≡ ok (read_back sys sts mode rdev, c ∷ rest)
  unfolding string_to_dev dev_to_string
  string_to_dev-dev_to_string dev h stop = elim (Bool-cases (file_type mode == block_type)) [
    | inl e ↦
        rw (e, ==_eq (file_type mode) block_type e)
          (string_to_dev-text block_type (codes "bdev") _ refl refl h stop)
    | inr e ↦
        rw (e, ==_eq (file_type mode) char_type (other_device (file_type mode) e dev))
          (string_to_dev-text char_type (codes "cdev") _ refl refl h stop)
  ]
