-- ===== src/EstOps/Line/Tests.antt =====
-- A line of the entry list, as it is written and read, and the theorems about it at this entry.
use fsvs.Prelude.{
  ◌/◌, ◌%◌, ◌+◌, ◌*◌, ◌≡◌, refl, true, false, Option, none, some, [], ◌∷◌, ◌++◌, Bytes, codes,
  replicate, skip_ws, print, print_signed, strtoul, arith,
}
use fsvs.Checksum.Hex.{char2md5, md5tohex}
use fsvs.Url.{Url, Rev, plus}
use fsvs.EstOps.Line.{
  Result, ok, einval, ◌>>=◌, Devices, Estat, apply_group, dev_to_string, string_to_dev, device_of,
  get_word,
}
use fsvs.EstOps.Line.Fields.{
  number, write_head, write_numbers, write_descr, read_head, read_numbers, read_device, read_md5,
  read_descr,
}
use fsvs.EstOps.Line.Entry.{line, write_info, save_1entry, load_1entry}
use fsvs.EstOps.Line.UrlOf.{IsUrl}
use fsvs.EstOps.Line.RoundTrip.{restored, load_1entry-save_1entry}
use fsvs.EstOps.Line.Room.{save_1entry-fits}

-- Device numbers of 8 and 8 bits.
abbrev small_devices : Devices
small_devices = record {
  mkdev = λ maj min. maj * 256 + min;
  major = λ d. d / 256;
  minor = λ d. d % 256;
}

abbrev repository : Url
repository = record {
  url = codes "file:///r";
  name = none;
  priority = plus 0;
  target_rev = Rev.number 0;
  current_rev = 7;
  is_readonly = false;
  internal_number = some 3;
  urllen = 9;
}

abbrev file : Estat
file = record {
  name = codes "a b";
  mode = 33188;
  ctime = 1200000000;
  mtime = 1300000000;
  size = 5;
  dev = 2049;
  ino = 99;
  uid = 0;
  gid = 4294967295;
  flags = 262145;
  old_rev_mode = 0;
  new_rev_mode = 0;
  local_mode = 0;
  repos_rev = 18446744073709551604;
  old_rev = 0;
  url = some repository;
  md5 = replicate 16 171;
  entry_count = 0;
  by_inode = [];
  match_pattern = none;
  to_be_ignored = false;
}

abbrev empty : Estat
empty = record {
  name = [];
  mode = 0;
  ctime = 0;
  mtime = 0;
  size = 0;
  dev = 0;
  ino = 0;
  uid = 0;
  gid = 0;
  flags = 0;
  old_rev_mode = 0;
  new_rev_mode = 0;
  local_mode = 0;
  repos_rev = 0;
  old_rev = 0;
  url = none;
  md5 = [];
  entry_count = 0;
  by_inode = [];
  match_pattern = none;
  to_be_ignored = false;
}

abbrev file_line : Bytes
file_line =
    codes
      "0100644 47868c00 4d7c6d00 1 nd abababababababababababababababab 5 7 3 801 99 1 0 0 4294967295 a b"
    ++ 0 ∷ 10 ∷ []

saved_file : save_1entry small_devices true file 1 ≡ line file_line
unfolding save_1entry write_head write_numbers write_descr print print_signed md5tohex
saved_file = refl

loaded_file :
    load_1entry small_devices (repository ∷ []) empty (file_line ++ b'x' ∷ [])
    ≡ ok (restored small_devices file 1 empty (some repository) (b'x' ∷ []))
unfolding load_1entry number read_head read_numbers read_device read_md5 read_descr get_word skip_ws
    strtoul char2md5
loaded_file = refl

device_text : dev_to_string small_devices 24576 2049 b' ' ≡ codes "bdev 0x8:0x1"
unfolding dev_to_string print
device_text = refl

not_a_device : string_to_dev small_devices empty (codes "bdev;0x8:0x1") ≡ einval
unfolding string_to_dev device_of strtoul
not_a_device = refl

file_ungrouped : apply_group true file ≡ some file
unfolding apply_group
file_ungrouped = refl

load_1entry-save_1entry_example :
    (r : Result (Option Url)) × IsUrl (repository ∷ []) none 1 3 r
    × (load_1entry small_devices (repository ∷ []) empty (file_line ++ b'x' ∷ [])
        ≡ (r >>= λ url. ok (restored small_devices file 1 empty url (b'x' ∷ []))))
load_1entry-save_1entry_example =
    load_1entry-save_1entry small_devices true (repository ∷ []) file file empty 1 file_line
      (b'x' ∷ []) saved_file file_ungrouped
      (record {
        head = record {
          mode = omega arith;
          ctime = omega arith;
          mtime = omega arith;
          flags = omega arith;
        };
        numbers = record {
          size = omega arith;
          revision = omega arith;
          intnum = omega arith;
          dev = omega arith;
          ino = omega arith;
          parent = omega arith;
          count = omega arith;
          uid = omega arith;
          gid = omega arith;
        };
        digest = λ _. (refl, omega arith);
        name = omega arith;
      })

save_1entry-fits_example :
    save_1entry small_devices true file 1 ≡ line (write_info small_devices file 1 (0 ∷ 10 ∷ []))
save_1entry-fits_example =
    save_1entry-fits small_devices true file file 1 file_ungrouped refl (omega arith) (λ _. refl)
      (record {
        size = omega arith;
        revision = omega arith;
        intnum = omega arith;
        dev = omega arith;
        ino = omega arith;
        parent = omega arith;
        count = omega arith;
        uid = omega arith;
        gid = omega arith;
      })
      (omega arith)
