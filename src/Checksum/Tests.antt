-- ===== src/Checksum/Tests.antt =====
-- Runs of the functions of src/checksum.c, and the theorems at concrete data.
use fsvs.Prelude.{
  ◌+◌, ◌≤◌, ◌≡◌, refl, arith, Option, none, some, List, [], ◌∷◌, ◌++◌, map, length, Bytes, codes,
}
use fsvs.Checksum.Manber.{Manber, Line, manber_data_init, end_of_block, update_manber}
use fsvs.Checksum.Manber.Cuts.{machine_of, without_digest, update_manber-append}
use fsvs.Checksum.Hex.{char2md5, md5tohex}
use fsvs.Checksum.Manber.Full.{update_manber-full}
use fsvs.Checksum.Manber.Tiles.{Tile, update_manber-Tile}

-- The digest of a block, where the MD5 is taken as the bytes themselves.
abbrev bytes_of : Manber × Option Bytes → Bytes
bytes_of (m, rest) = m.block_md5_ctx

-- A zero that comes in a buffer of its own at the start of a block is left out of the MD5 sum of the block.
whole_run : bytes_of (end_of_block (λ s. s) manber_data_init (0 ∷ 1 ∷ [])) ≡ 0 ∷ 1 ∷ []
unfolding end_of_block
whole_run = refl

cut_run :
    bytes_of (end_of_block (λ s. s) (end_of_block (λ s. s) manber_data_init (0 ∷ [])).0 (1 ∷ []))
    ≡ 1 ∷ []
unfolding end_of_block
cut_run = refl

abbrev zero_byte : Bytes
zero_byte = 0 ∷ []

abbrev one_byte : Bytes
one_byte = 7 ∷ []

abbrev two_bytes : Bytes
two_bytes = 0 ∷ 7 ∷ []

update_manber-append_example :
    (m' : Manber) × (m'' : Manber) × (whole : Manber) × (first : List Line) × (more : List Line)
    × (lines : List Line) × (update_manber
          (λ s. s)
          (length zero_byte + 2)
          manber_data_init
          zero_byte
        ≡ some (m', first))
    × (update_manber (λ s. s) (length one_byte + 2) m' one_byte ≡ some (m'', more))
    × (update_manber
          (λ s. s)
          (length (zero_byte ++ one_byte) + 2)
          manber_data_init
          (zero_byte ++ one_byte)
        ≡ some (whole, lines))
    × (machine_of whole ≡ machine_of m'')
    × (map without_digest lines ≡ map without_digest first ++ map without_digest more)
update_manber-append_example = update_manber-append (λ s. s) manber_data_init zero_byte one_byte

update_manber-Tile_example :
    (m' : Manber) × (lines : List Line) × (update_manber
        (λ s. s)
        (length two_bytes + 2)
        manber_data_init
        two_bytes
      ≡ some (m', lines))
    × Tile 0 (map without_digest lines) m'.last_fpos
    × (m'.last_fpos ≤ m'.fpos)
    × (m'.fpos ≡ 0 + length two_bytes)
update_manber-Tile_example = update_manber-Tile (λ s. s) manber_data_init two_bytes (omega arith)

abbrev digest : Bytes
digest = 0 ∷ 1 ∷ 2 ∷ 3 ∷ 4 ∷ 5 ∷ 6 ∷ 7 ∷ 8 ∷ 9 ∷ 10 ∷ 171 ∷ 205 ∷ 239 ∷ 254 ∷ 255 ∷ []

md5tohex_run : md5tohex digest ≡ codes "000102030405060708090aabcdeffeff"
unfolding md5tohex
md5tohex_run = refl

short_run : char2md5 (codes "00010203 4") ≡ none
unfolding char2md5
short_run = refl

update_manber-full_example :
    (m' : Manber) × (lines : List Line) × (update_manber
        (λ s. s)
        (length two_bytes + 2)
        manber_data_init
        two_bytes
      ≡ some (m', lines))
    × (m'.full_md5_ctx ≡ [] ++ two_bytes)
update_manber-full_example = update_manber-full (λ s. s) manber_data_init two_bytes
