-- ===== src/Cache.antt =====
-- src/cache.c and src/cache.h: the small caches. A cache is an array of pointers to entries of
-- which `lru` marks the last one used; the slots behind the used ones are NULL, so the list
-- `entries` holds the used ones and its length is the member `used`.
mod Room
mod Lookup
mod Recency
mod Store
mod Tests
use fsvs.Prelude.{
  ℕ, zero, suc, ◌+◌, ◌-◌, ◌*◌, ◌/◌, ◌%◌, Bool, true, false, ◌||◌, Option, none, some, List, [], ◌∷◌,
  ◌++◌, ltb, leb, ◌==◌, if◌then◌else◌, length, get_elem?, set, take, drop, Bytes,
}

-- What `malloc` and `realloc` do: whether a request is met, and what new memory holds.
pub record Allocator : Type 0 where
  pub gives : ℕ → Bool
  pub byte : ℕ → ℕ
  pub word : ℕ

-- `struct cache_entry_t`: `len` is the member, `data` the memory from `data[0]` on.
pub record Entry : Type 0 where
  pub id : ℕ
  pub hash_data : ℕ
  pub len : ℕ
  pub data_at : ℕ → ℕ

-- A `struct cache_entry_t *`: NULL, an entry, or a pointer that was given to `free`.
pub data Slot : Type 0 where
  null : Slot
  live : Entry → Slot
  freed : Slot

-- The return values; `fault` is a read through a pointer that is not valid.
pub data Status : Type 0 where
  ok enoent enomem fault : Status

-- The arguments `data` and `len`: a text with a length, a text with the length -1, or NULL.
pub data Source : Type 0 where
  part : Bytes → ℕ → Source
  whole : Bytes → Source
  space : ℕ → Source

-- sizeof(struct cache_entry_t) with 8-byte longs, and where `data` begins in it.
abbrev pub entry_size : ℕ
entry_size = 24

abbrev pub data_offset : ℕ
data_offset = 20

-- The byte at an index of a C string; its NUL stands at its length.
abbrev pub byte_at : Bytes → ℕ → ℕ
byte_at [] i = 0
byte_at (c ∷ cs) zero = c
byte_at (c ∷ cs) (suc i) = byte_at cs i

abbrev pub source_len : Source → ℕ
source_len (part s n) = n
source_len (whole s) = length s
source_len (space n) = n

-- `memcpy(ce->data, data, len)`, if there is data.
unfoldable pub copied : Source → (ℕ → ℕ) → ℕ → ℕ
copied (part s n) old i = if ltb i n then byte_at s i else old i
copied (whole s) old i = if ltb i (length s) then byte_at s i else old i
copied (space n) old i = old i

-- `(alloc_len + 96-1) & ~64`: the bit of weight 64 is cleared.
unfoldable pub round_up : ℕ → ℕ
round_up n = let m = n + 96 - 1 in m - 64 * ((m / 64) % 2)

-- The assignments at the end of `cch__entry_set`.
unfoldable pub fill : ℕ → Source → Entry → Entry
fill id src ce = record ce {
  id = id;
  data_at = λ i. if i == source_len src then 0 else copied src ce.data_at i;
}

-- Whether the block at hand is too small, or larger than needed by more than 1024 bytes.
unfoldable pub must_allocate : Entry → ℕ → Bool
must_allocate ce n = ltb ce.len (n + entry_size) || ltb 1024 (ce.len - n)

-- A new block, and one that `realloc` moved the old one to.
unfoldable pub new_block : Allocator → ℕ → Entry
new_block al size = record {
  id = al.word;
  hash_data = al.word;
  len = size - entry_size - 1;
  data_at = al.byte;
}

unfoldable pub moved_block : Allocator → ℕ → Entry → Entry
moved_block al size ce = record ce {
  len = size - entry_size - 1;
  data_at = λ i. if ltb i (ce.len + 1 + entry_size - data_offset) then ce.data_at i else al.byte i;
}

-- `cch__entry_set`: the slot afterwards.
unfoldable pub entry_set : Allocator → Slot → ℕ → Source → Bool → Slot × Status
entry_set al null id src copy_old_data =
    let size = round_up (source_len src + entry_size) in
    if al.gives size then (live (fill id src (new_block al size)), ok) else (null, enomem)
entry_set al freed id src copy_old_data = (freed, fault)
entry_set al (live ce) id src copy_old_data =
    let size = round_up (source_len src + entry_size) in
    if must_allocate ce (source_len src)
    then (if al.gives size
        then (if copy_old_data
            then (live (fill id src (moved_block al size ce)), ok)
            else (live (fill id src (new_block al size)), ok))
        else (if copy_old_data then (live ce, enomem) else (freed, enomem)))
    else (live (fill id src ce), ok)

-- `struct cache_t`
pub record Cache : Type 0 where
  pub max : ℕ
  pub lru : ℕ
  pub entries : List Slot

-- `cch__new_cache` for a pointer that is NULL.
unfoldable pub new_cache : ℕ → Cache
new_cache max = record { max = max; lru = 0; entries = [] }

pub data Found : Type 0 where
  at_index : ℕ → Entry → Found
  absent : Found
  bad_pointer : Found

-- The loop of `cch__find` from index `i` on.
unfoldable pub find_from : List Slot → ℕ → ℕ → Found
find_from [] i id = absent
find_from (live ce ∷ slots) i id = if ce.id == id then at_index i ce else find_from slots (i + 1) id
find_from (null ∷ slots) i id = bad_pointer
find_from (freed ∷ slots) i id = bad_pointer

-- `cch__find`
unfoldable pub find : Cache → ℕ → Found
find c id = find_from c.entries 0 id

abbrev pub slot_at : List Slot → ℕ → Slot
slot_at slots i = elim (get_elem? slots i) [ none ↦ null | some s ↦ s ]

-- `cch__add`
unfoldable pub add : Allocator → Cache → ℕ → Source → Cache × Status
add al c id src =
    let used = length c.entries in
    if leb c.max used
    then (let i = if leb c.max (c.lru + 1) then 0 else c.lru + 1 in
        let (slot, status) = entry_set al (slot_at c.entries i) id src false in
        (record c { lru = i; entries = set c.entries i slot }, status))
    else (let (slot, status) = entry_set al null id src false in
        (record c { lru = used; entries = c.entries ++ slot ∷ [] }, status))

-- `cch__set_active`: the entry at `i` moves next to the last one used, which it becomes.
unfoldable pub set_active : Cache → ℕ → Cache
set_active c i =
    let es = c.entries in
    let tmp = slot_at es i in
    if ltb i c.lru
    then record c {
      entries = take i es ++ (take (c.lru - i) (drop (i + 1) es) ++ tmp ∷ drop (c.lru + 1) es);
    }
    else if ltb c.lru i
    then record c {
      lru = c.lru + 1;
      entries =
          take (c.lru + 1) es
          ++ tmp ∷ (take (i - (c.lru + 1)) (drop (c.lru + 1) es) ++ drop (i + 1) es);
    }
    else c

abbrev pub stored_at : Allocator → Cache → ℕ → ℕ → Source → Bool → Cache × Status
stored_at al c i id src copy_old_data =
    let (slot, status) = entry_set al (slot_at c.entries i) id src copy_old_data in
    (record c { entries = set c.entries i slot }, status)

-- `cch__set_by_id`
unfoldable pub set_by_id : Allocator → Cache → ℕ → Source → Bool → Cache × Status
set_by_id al c id src copy_old_data = elim (find c id) [
  | absent ↦ add al c id src
  | bad_pointer ↦ (c, fault)
  | at_index i _ ↦ stored_at al (set_active c i) i id src copy_old_data
]

-- The packing of `n` characters, five bits of `c - 0x20` each, in `cch___string_to_cv`.
unfoldable pub pack_chars : ℕ → Bytes → ℕ
pack_chars zero s = 0
pack_chars (suc n) [] = 0
pack_chars (suc n) (c ∷ s) = (c + 256 - 0x20) % 32 + 32 * pack_chars n s

-- `cch___string_to_cv`
unfoldable pub string_to_cv : Bytes → ℕ
string_to_cv s = pack_chars 6 s

-- `strcmp(key, data) == 0` for the memory of an entry, from the index `i` on.
unfoldable pub holds_from : (ℕ → ℕ) → ℕ → Bytes → Bool
holds_from mem i [] = mem i == 0
holds_from mem i (c ∷ cs) =
    let rest = holds_from mem (i + 1) cs in if mem i == c then rest else false

-- `cch__hash_find`: the value, if the first entry with the hash has the key.
unfoldable pub hash_find : Cache → Bytes → Option ℕ × Status
hash_find c key = elim (find c (string_to_cv key)) [
  | absent ↦ (none, enoent)
  | bad_pointer ↦ (none, fault)
  | at_index i ce ↦ if holds_from ce.data_at 0 key then (some ce.hash_data, ok) else (none, enoent)
]

abbrev with_value : ℕ → Slot → Slot
with_value v (live ce) = live (record ce { hash_data = v })
with_value v null = null
with_value v freed = freed

-- `cch__hash_add`
unfoldable pub hash_add : Allocator → Cache → Bytes → ℕ → Cache × Status
hash_add al c key v =
    let (c', status) = add al c (string_to_cv key) (part key (length key)) in
    elim status [
      | ok ↦ (
        record c' { entries = set c'.entries c'.lru (with_value v (slot_at c'.entries c'.lru)) },
        ok,
      )
      | other ↦ (c', other)
    ]
