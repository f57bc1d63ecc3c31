-- ===== src/EstOps/Line/Fields.antt =====
-- The groups of fields of a line: how `ops__save_1entry` writes them, and how `ops__load_1entry` reads them.
use fsvs.Prelude.{
  ℕ, ◌%◌, ◌^◌, none, some, [], ◌∷◌, ◌++◌, if◌then◌else◌, Bytes, codes, skip_ws, print, padded,
  print_signed, strtoul,
}
use fsvs.Checksum.Hex.{char2md5, md5tohex}
use fsvs.EstOps.Line.{
  Result, ok, ◌>>=◌, given, expect, Devices, Estat, is_directory, is_device_mode, dev_to_string,
  string_to_dev, get_word,
}

-- A conversion that failed gives 0, and takes nothing.
unfoldable pub number : ℕ → Bytes → ℕ × Bytes
number base s = elim (strtoul base s) [ none ↦ (0, s) | some r ↦ r ]

-- "%07llo %8x %8x %x "
pub record Head : Type 0 where
  pub mode : ℕ
  pub ctime : ℕ
  pub mtime : ℕ
  pub flags : ℕ

unfoldable pub write_head : Head → Bytes → Bytes
write_head h rest =
    padded b'0' 7 (print 8 h.mode)
    ++ 32
      ∷ (padded 32 8 (print 16 (h.ctime % 2 ^ 32))
          ++ 32
            ∷ (padded 32 8 (print 16 (h.mtime % 2 ^ 32)) ++ 32 ∷ (print 16 h.flags ++ 32 ∷ rest)))

-- The first block of `ops__load_1entry`.
unfoldable pub read_head : Bytes → Result (Head × Bytes)
read_head s = do
  mode ← given (strtoul 8 (skip_ws s))
  s1 ← given (expect (32 ∷ []) mode.1)
  let ctime = number 16 s1
  let mtime = number 16 ctime.1
  flags ← given (strtoul 16 (skip_ws mtime.1))
  s2 ← given (expect (32 ∷ []) flags.1)
  ok (
    record { mode = mode.0 % 2 ^ 32; ctime = ctime.0; mtime = mtime.0; flags = flags.0 % 2 ^ 32 },
    s2,
  )

-- " %lld %ld %u %lx %lld %lld %u %u %u "
pub record LineNumbers : Type 0 where
  pub size : ℕ
  pub revision : ℕ
  pub intnum : ℕ
  pub dev : ℕ
  pub ino : ℕ
  pub parent : ℕ
  pub count : ℕ
  pub uid : ℕ
  pub gid : ℕ

unfoldable pub write_numbers : LineNumbers → Bytes → Bytes
write_numbers n rest =
    32
    ∷ (print_signed n.size
        ++ 32
          ∷ (print_signed n.revision
              ++ 32
                ∷ (print 10 n.intnum
                    ++ 32
                      ∷ (print 16 n.dev
                          ++ 32
                            ∷ (print_signed n.ino
                                ++ 32
                                  ∷ (print_signed n.parent
                                      ++ 32
                                        ∷ (print 10 n.count
                                            ++ 32
                                              ∷ (print 10 n.uid
                                                  ++ 32 ∷ (print 10 n.gid ++ 32 ∷ rest)))))))))

-- The block for base 10.
unfoldable pub read_numbers : Bytes → Result (LineNumbers × Bytes)
read_numbers s = do
  let size = number 10 s
  let revision = number 10 size.1
  let intnum = number 10 revision.1
  let dev = number 16 intnum.1
  let ino = number 10 dev.1
  let parent = number 10 ino.1
  let count = number 10 parent.1
  let uid = number 10 count.1
  gid ← given (strtoul 10 (skip_ws uid.1))
  ok (
    record {
      size = size.0;
      revision = revision.0;
      intnum = intnum.0 % 2 ^ 32;
      dev = dev.0;
      ino = ino.0;
      parent = parent.0;
      count = count.0 % 2 ^ 32;
      uid = uid.0 % 2 ^ 32;
      gid = gid.0 % 2 ^ 32;
    },
    gid.1,
  )

-- The description of a device, and the digest of what is no directory.
unfoldable pub write_descr : Devices → Estat → Bytes → Bytes
write_descr sys sts rest =
    (if is_device_mode sts.mode then dev_to_string sys sts.mode sts.size b':' else codes "nd")
    ++ 32 ∷ ((if is_directory sts.mode then codes "x" else md5tohex sts.md5) ++ rest)

unfoldable pub read_device : Devices → Estat → Bytes → Result (Estat × Bytes)
read_device sys sts s =
    if is_device_mode sts.mode then string_to_dev sys sts s else ok (sts, get_word s)

unfoldable pub read_md5 : Estat → Bytes → Result (Estat × Bytes)
read_md5 sts s =
    if is_directory sts.mode
    then ok (sts, get_word s)
    else (do r ← given (char2md5 s); ok (record sts { md5 = r.0 }, r.1))

unfoldable pub read_descr : Devices → Estat → Bytes → Result (Estat × Bytes)
read_descr sys sts s = do r ← read_device sys sts (skip_ws s); read_md5 r.0 (skip_ws r.1)
