-- ===== src/Checksum/Manber.antt =====
-- `cs___manber_init`, `cs___manber_data_init`, `cs___end_of_block` and `cs___update_manber` of src/checksum.c: a
-- stream is cut into blocks where the sum of its last bytes has a special value.
pub mod Machine
pub mod Cuts
pub mod Tiles
pub mod Full
use Prim.Native.Nat.{bit_and, bit_or}
use fsvs.Prelude.{
  ℕ, zero, suc, ◌+◌, ◌-◌, ◌*◌, ◌%◌, ◌^◌, Bool, true, false, not, Option, none, some, List, [], ◌∷◌,
  ◌++◌, ltb, ◌==◌, if◌then◌else◌, Bytes, length, take,
}

-- CS__MANBER_PRIME, CS__MANBER_BACKTRACK, CS__MANBER_BITMASK, and CS__MANBER_MODULUS, which is -1, as an unsigned
-- number of 32 bits.
abbrev pub prime : ℕ
prime = 31

abbrev pub backtrack_size : ℕ
backtrack_size = 2048

abbrev pub bitmask : ℕ
bitmask = 2 ^ 17 - 1

abbrev pub modulus : ℕ
modulus = 2 ^ 32 - 1

-- The first loop of `cs___manber_init`, and the table. There is no value for 0xff.
unfoldable pub power : ℕ → ℕ
power zero = 1
power (suc n) = bit_and (power n * prime % 2 ^ 32) modulus

unfoldable pub values : ℕ → ℕ
unfolding power
values c = if ltb c 0xff then bit_and (c * power backtrack_size % 2 ^ 32) modulus else 0

-- The part of `struct t_manber_data` that the blocks depend on; `backtrack` by its index.
pub record Core : Type 0 where
  pub state : ℕ
  pub last_state : ℕ
  pub bktrk_bytes : ℕ
  pub bktrk_last : ℕ
  pub backtrack : ℕ → ℕ
  pub data_bits : ℕ

-- The whole of it. `block_md5_ctx` and `full_md5_ctx` are the bytes that they were updated with; `block_md5` is
-- `none` for the digest of zeroes that a new block begins with.
pub record Manber : Type 0 where
  pub core : Core
  pub fpos : ℕ
  pub last_fpos : ℕ
  pub block_md5_ctx : Bytes
  pub full_md5_ctx : Bytes
  pub block_md5 : Option Bytes

abbrev pub put : (ℕ → ℕ) → ℕ → ℕ → ℕ → ℕ
put f i v j = if j == i then v else f j

-- The index behind `bktrk_last`.
abbrev pub next : ℕ → ℕ
next i = bit_and (i + 1) (backtrack_size - 1)

-- One byte of the first loop of `cs___end_of_block`.
abbrev pub absorb : Core → ℕ → Core
absorb c byte = record {
  state = (c.state * prime + byte) % 2 ^ 32 % modulus;
  last_state = c.last_state;
  bktrk_bytes = c.bktrk_bytes + 1;
  bktrk_last = next c.bktrk_last;
  backtrack = put c.backtrack c.bktrk_last byte;
  data_bits = bit_or c.data_bits byte;
}

-- One byte of the last loop.
abbrev pub roll : Core → ℕ → Core
roll c byte = record {
  state = (c.state * prime + byte + 2 ^ 32 - values (c.backtrack c.bktrk_last)) % 2 ^ 32 % modulus;
  last_state = c.state;
  bktrk_bytes = c.bktrk_bytes;
  bktrk_last = next c.bktrk_last;
  backtrack = put c.backtrack c.bktrk_last byte;
  data_bits = c.data_bits;
}

abbrev pub is_border : Core → Bool
is_border c = bit_and c.state bitmask == 0

-- A call with no data begins a new block.
abbrev pub reset : Core → Core
reset c = record c { state = 0; last_state = 0; bktrk_bytes = 0; bktrk_last = 0; data_bits = 0 }

-- The first loop: the state, the number of bytes, and the data that are left.
unfoldable pub fill : Core → Bytes → Core × ℕ × Bytes
fill c [] = (c, 0, [])
fill c (byte ∷ s) =
    let (c', i, rest) = fill (absorb c byte) s in
    if ltb c.bktrk_bytes backtrack_size then (c', i + 1, rest) else (c, 0, byte ∷ s)

-- The loop for zeroes.
unfoldable pub zeroes : Bytes → ℕ × Bytes
zeroes [] = (0, [])
zeroes (byte ∷ s) = let (i, rest) = zeroes s in if byte == 0 then (i + 1, rest) else (0, byte ∷ s)

-- The last loop; whether it ends at a border.
unfoldable pub roll_all : Core → Bytes → Core × ℕ × Bytes × Bool
unfolding values
roll_all c [] = (c, 0, [], false)
roll_all c (byte ∷ s) =
    let (c', i, rest, found) = roll_all (roll c byte) s in
    if is_border (roll c byte) then (roll c byte, 1, s, true) else (c', i + 1, rest, found)

-- Behind the loops: the MD5 sums and the position, `i` bytes into the data.
abbrev pub advanced : Manber → Core → ℕ → Bytes → Manber
advanced m c i bytes = record m {
  core = c;
  fpos = m.fpos + i;
  full_md5_ctx = m.full_md5_ctx ++ take i bytes;
}

abbrev pub hashed : Manber → ℕ → Bytes → Bytes
hashed m i bytes = m.block_md5_ctx ++ take i bytes

-- `cs___end_of_block` with data: what is left behind the end of the block, if it ends; `md5` is the digest.
unfoldable pub end_of_block : (Bytes → Bytes) → Manber → Bytes → Manber × Option Bytes
unfolding fill zeroes roll_all
end_of_block md5 m bytes =
    let (c, i, rest) = fill m.core bytes in
    if c.data_bits == 0
    then (let (j, others) = zeroes rest in
        elim others [
          | [] ↦ (advanced m c (i + j) bytes, none)
          | byte ∷ s ↦ (advanced m c (i + j) bytes, some (byte ∷ s))
        ])
    else (let (c', j, others, found) = roll_all c rest in
        let block = hashed m (i + j) bytes in
        if found
        then (
          record (advanced m c' (i + j) bytes) {
            block_md5_ctx = block;
            block_md5 = some (md5 block);
          },
          some others,
        )
        else (record (advanced m c' (i + j) bytes) { block_md5_ctx = block }, none))

-- A call without data.
abbrev pub new_block : Manber → Manber
new_block m = record m { core = reset m.core; block_md5_ctx = []; block_md5 = none }

-- `cs___manber_data_init`
abbrev pub manber_data_init : Manber
manber_data_init = record {
  core = record {
    state = 0;
    last_state = 0;
    bktrk_bytes = 0;
    bktrk_last = 0;
    backtrack = λ i. 0;
    data_bits = 0;
  };
  fpos = 0;
  last_fpos = 0;
  block_md5_ctx = [];
  full_md5_ctx = [];
  block_md5 = none;
}

-- A line of the file of block sums.
pub record Line : Type 0 where
  pub digest : Option Bytes
  pub before : ℕ
  pub start : ℕ
  pub size : ℕ

abbrev pub line_of : Manber → Line
line_of m = record {
  digest = m.block_md5;
  before = m.core.last_state;
  start = m.last_fpos;
  size = m.fpos - m.last_fpos;
}

-- `cs___update_manber`: the lines are written to the file; `none` without fuel.
unfoldable pub update_manber : (Bytes → Bytes) → ℕ → Manber → Bytes → Option (Manber × List Line)
unfolding end_of_block
update_manber md5 zero m bytes = none
update_manber md5 (suc fuel) m bytes =
    let (m', e) = end_of_block md5 m bytes in
    elim e [
      | none ↦ some (m', [])
      | some rest ↦
          elim (update_manber md5 fuel (record (new_block m') { last_fpos = m'.fpos }) rest) [
            | none ↦ none
            | some (m'', lines) ↦ some (m'', line_of m' ∷ lines)
          ]
    ]
