-- ===== src/EstOps/FreeList.antt =====
-- `ops__allocate` and the end of `ops__free_entry` in src/est_ops.c: the list of free blocks of
-- entries. Addresses count in units of sizeof(struct estat).
pub mod Cells
use fsvs.Prelude.{
  ℕ, zero, suc, ◌+◌, ◌-◌, Bool, true, false, ◌&&◌, Option, none, some, List, [], ◌∷◌, ltb, leb,
  ◌==◌, if◌then◌else◌,
}

-- `struct free_estat`, with its own address.
pub record Block : Type 0 where
  pub addr : ℕ
  pub count : ℕ

abbrev pub FreeList : Type 0
FreeList = List Block

-- The loop of `ops__free_entry`: the block at `a` is merged with the first free block that it touches.
unfoldable pub merge : ℕ → FreeList → Option FreeList
merge a [] = none
merge a (b ∷ rest) =
    let further = merge a rest in
    if a + 1 == b.addr
    then some (record { addr = a; count = b.count + 1 } ∷ rest)
    else if a == b.addr + b.count
    then some (record b { count = b.count + 1 } ∷ rest)
    else elim further [ none ↦ none | some l ↦ some (b ∷ l) ]

-- `ops__free_entry`, once the children are freed.
unfoldable pub free_block : ℕ → FreeList → FreeList
free_block a list = elim (merge a list) [
  | none ↦ record { addr = a; count = 1 } ∷ list
  | some l ↦ l
]

-- What `ops__allocate` gives: `*where`, `*count` and the list; or that `calloc` failed (ENOMEM), or
-- that nothing was asked for (BUG_ON).
pub data Allocated : Type 0 where
  given : ℕ → ℕ → FreeList → Allocated
  enomem : Allocated
  bug : Allocated

-- The smallest number of entries that is asked of `calloc`, 8192/sizeof(struct estat), is a parameter,
-- and so is the address that `calloc` returns (`none` for NULL).
unfoldable pub allocate_new : ℕ → Option ℕ → ℕ → Allocated
allocate_new at_least none needed = enomem
allocate_new at_least (some fresh) needed =
    let size = if ltb needed at_least then at_least else needed in
    given fresh needed
      (if ltb needed size then record { addr = fresh + needed; count = size - needed } ∷ [] else [])

unfoldable pub allocate_from : ℕ → Option ℕ → ℕ → FreeList → Allocated
unfolding allocate_new
allocate_from at_least fresh needed [] = allocate_new at_least fresh needed
allocate_from at_least fresh needed (b ∷ next) =
    if leb b.count needed
    then given b.addr b.count next
    else given (b.addr + (b.count - needed)) needed (record b { count = b.count - needed } ∷ next)

-- `ops__allocate`
unfoldable pub allocate : ℕ → Option ℕ → ℕ → FreeList → Allocated
unfolding allocate_from
allocate at_least fresh needed list =
    if needed == 0 then bug else allocate_from at_least fresh needed list
