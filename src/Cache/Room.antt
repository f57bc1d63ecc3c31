-- ===== src/Cache/Room.antt =====
-- `cch__entry_set` of src/cache.c: the room in the block, and what is stored.
use fsvs.Prelude.{
  ℕ, suc, ◌+◌, ◌≤◌, ◌≡◌, refl, ◌≢◌, inl, inr, Bool, true, false, [], ◌∷◌, arith, ◌==◌,
  if◌then◌else◌, length, Bytes, Bool-cases,
}
use fsvs.Cache.{
  Allocator, Entry, Slot, null, live, freed, ok, Source, whole, space, byte_at, source_len, copied,
  round_up, fill, must_allocate, new_block, moved_block, entry_set, entry_size, holds_from,
}

pub round_up_bounds : (n : ℕ) → (n + 31 ≤ round_up n) × (round_up n ≤ n + 95)
unfolding round_up
round_up_bounds n = omega arith

-- The block reaches behind the terminator, and is not larger than the data by more than 1 kB.
pub record HasRoom (n : ℕ) (ce : Entry) : Type 0 where
  pub terminated : n + entry_size ≤ ce.len
  pub not_wasteful : ce.len ≤ n + 1024

-- A successful call of cch__entry_set, whatever the slot held and whichever way the block was got,
-- leaves an entry with the id, whose block has room for the data and its terminator, and at most
-- 1024 bytes more than the data.
pub entry_set-HasRoom :
    (al : Allocator) (slot : Slot) (id : ℕ) (src : Source) (copy : Bool) {ce : Entry}
    → entry_set al slot id src copy ≡ (live ce, ok)
    → HasRoom (source_len src) ce × (ce.id ≡ id)
unfolding entry_set fill new_block moved_block must_allocate
entry_set-HasRoom al null id src copy h =
    ground (arith, round_up_bounds (source_len src + entry_size))
entry_set-HasRoom al freed id src copy h = cc
entry_set-HasRoom al (live old) id src copy h =
    ground (arith, round_up_bounds (source_len src + entry_size))

byte_at_end : (s : Bytes) → byte_at s (length s) ≡ 0
byte_at_end [] = refl
byte_at_end (c ∷ s) = byte_at_end s

-- A memory that shows the text from index `i` on.
holds_of_bytes :
    (mem : ℕ → ℕ) (i : ℕ) (s : Bytes)
    → ((k : ℕ) → k ≤ length s → mem (i + k) ≡ byte_at s k)
    → holds_from mem i s ≡ true
unfolding holds_from
holds_of_bytes mem i [] h = ground (arith, h 0)
holds_of_bytes mem i (c ∷ s) h = ground (
  arith,
  h 0,
  holds_of_bytes mem (i + 1) s
      (λ k le. let e : i + 1 + k ≡ i + suc k = omega arith in rw e (h (suc k) (omega arith))),
)

stored_bytes :
    (s : Bytes) (old : ℕ → ℕ) (k : ℕ)
    → k ≤ length s
    → (if k == length s then 0 else copied (whole s) old k) ≡ byte_at s k
unfolding copied
stored_bytes s old k h = ground (arith, byte_at_end s)

fill-holds :
    (id : ℕ) (s : Bytes) (ce : Entry) → holds_from (fill id (whole s) ce).data_at 0 s ≡ true
unfolding fill
fill-holds id s ce =
    holds_of_bytes _ 0 s
      λ k le. let e : 0 + k ≡ k = omega arith in rw e (stored_bytes s ce.data_at k le)

-- A successful call ends with the assignments to some block.
pub entry_set-fill :
    (al : Allocator) (slot : Slot) (id : ℕ) (src : Source) (copy : Bool) {ce : Entry}
    → entry_set al slot id src copy ≡ (live ce, ok)
    → (base : Entry) × (ce ≡ fill id src base)
unfolding entry_set
entry_set-fill al null id src copy h =
    (new_block al (round_up (source_len src + entry_size)), ground arith)
entry_set-fill al freed id src copy h = cc
entry_set-fill al (live old) id src true h =
    elim (Bool-cases (must_allocate old (source_len src))) [
      | inl e ↦ (moved_block al (round_up (source_len src + entry_size)) old, ground arith)
      | inr e ↦ (old, ground arith)
    ]
entry_set-fill al (live old) id src false h =
    elim (Bool-cases (must_allocate old (source_len src))) [
      | inl e ↦ (new_block al (round_up (source_len src + entry_size)), ground arith)
      | inr e ↦ (old, ground arith)
    ]

-- A successful call of cch__entry_set with a text of length -1 leaves a block whose C string is that
-- text, whatever the slot held.
pub entry_set-holds :
    (al : Allocator) (slot : Slot) (id : ℕ) (s : Bytes) (copy : Bool) {ce : Entry}
    → entry_set al slot id (whole s) copy ≡ (live ce, ok)
    → holds_from ce.data_at 0 s ≡ true
entry_set-holds al slot id s copy h =
    let (base, e) = entry_set-fill al slot id (whole s) copy h in rw e (fill-holds id s base)

-- With copy_old_data and no data a successful call keeps every byte that the old block had, but for
-- the terminator that it writes, also where the block is moved.
pub entry_set-keeps :
    (al : Allocator) (old : Entry) (id n i : ℕ) {ce : Entry}
    → entry_set al (live old) id (space n) true ≡ (live ce, ok)
    → i ≢ n
    → i ≤ old.len
    → ce.data_at i ≡ old.data_at i
unfolding entry_set fill moved_block copied
entry_set-keeps al old id n i h ne le = ground arith
