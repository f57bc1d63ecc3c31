-- ===== src/EstOps/FreeList/Cells.antt =====
-- The free list of src/est_ops.c as the multiset of its cells: nothing is lost or handed out twice.
use fsvs.Prelude.{
  ◌-◌, Bool-cases, ℕ, ◌+◌, ◌≤◌, ◌<◌, ◌≡◌, inl, inr, ◌&&◌, Option, some, [], ◌∷◌, arith, ltb, leb,
  if◌then◌else◌, Option-cases, All,
}
use fsvs.EstOps.FreeList.{Block, FreeList, merge, free_block, given, allocate}

-- 1 for an address of the area, and 0 for any other.
abbrev pub inside : ℕ → ℕ → ℕ → ℕ
inside start size x = if leb start x && ltb x (start + size) then 1 else 0

-- How many free blocks an address belongs to.
unfoldable pub cells : FreeList → ℕ → ℕ
cells [] x = 0
cells (b ∷ list) x = inside b.addr b.count x + cells list x

merge-cells :
    (a : ℕ) (list : FreeList) {merged : FreeList} (x : ℕ)
    → merge a list ≡ some merged
    → cells merged x ≡ inside a 1 x + cells list x
unfolding merge cells
merge-cells a [] x h = cc
merge-cells a (b ∷ rest) {merged} x h = elim (Option-cases (merge a rest)) [
  | inl e ↦ ground arith
  | inr (l, e) ↦ ground (arith, merge-cells a rest {merged = l} x e)
]

-- Freeing an entry adds its address to the free cells, one time, and no other; wherever it is merged.
pub free_block-cells :
    (a : ℕ) (list : FreeList) (x : ℕ) → cells (free_block a list) x ≡ inside a 1 x + cells list x
unfolding free_block cells
free_block-cells a list x = elim (Option-cases (merge a list)) [
  | inl e ↦ rw (e, free_block)
  | inr (l, e) ↦ rw (e, free_block) (merge-cells a list {merged = l} x e)
]

-- No block of the list is empty.
abbrev pub NoneEmpty : FreeList → Type 0
NoneEmpty list = All (λ b. 0 < b.count) list

merge-NoneEmpty :
    (a : ℕ) (list : FreeList) {merged : FreeList}
    → merge a list ≡ some merged
    → NoneEmpty list
    → NoneEmpty merged
unfolding merge
merge-NoneEmpty a [] h n = cc
merge-NoneEmpty a (b ∷ rest) {merged} h n = elim (Option-cases (merge a rest)) [
  | inl e ↦ ground arith
  | inr (l, e) ↦ ground (arith, merge-NoneEmpty a rest {merged = l} e n.1)
]

allocate_total :
    (at_least : ℕ) (fresh : Option ℕ) (needed : ℕ) (b : Block) (next : FreeList)
    → 0 < needed
    → (start : ℕ) × (got : ℕ) × (list : FreeList) × (allocate at_least fresh needed (b ∷ next)
        ≡ given start got list)
unfolding allocate
allocate_total at_least fresh needed b next pos = elim (Bool-cases (leb b.count needed)) [
  | inl e ↦ (b.addr, b.count, next, ground arith)
  | inr e ↦ (
    b.addr + (b.count - needed),
    needed,
    record b { count = b.count - needed } ∷ next,
    ground arith,
  )
]

given-cells :
    (at_least : ℕ) (fresh : Option ℕ) (needed : ℕ) (b : Block) (next : FreeList) {start got : ℕ}
    {list : FreeList}
    → NoneEmpty (b ∷ next)
    → allocate at_least fresh needed (b ∷ next) ≡ given start got list
    → (0 < got)
      × (got ≤ needed)
      × NoneEmpty list
      × ((x : ℕ) → cells (b ∷ next) x ≡ inside start got x + cells list x)
unfolding allocate cells
given-cells at_least fresh needed b next {start} {got} {list} n h =
    (ground arith, ground arith, ground arith, λ x. ground arith)

-- From a list that has free blocks, none of them empty, ops__allocate always hands out entries: between
-- one and the number that is needed. Their cells were free, and exactly they are taken out of the list.
pub allocate-cells :
    (at_least : ℕ) (fresh : Option ℕ) (needed : ℕ) (b : Block) (next : FreeList)
    → NoneEmpty (b ∷ next)
    → 0 < needed
    → (start : ℕ) × (got : ℕ) × (list : FreeList) × (allocate at_least fresh needed (b ∷ next)
        ≡ given start got list)
      × (0 < got)
      × (got ≤ needed)
      × NoneEmpty list
      × ((x : ℕ) → cells (b ∷ next) x ≡ inside start got x + cells list x)
allocate-cells at_least fresh needed b next n pos =
    let (start, got, list, e) = allocate_total at_least fresh needed b next pos in
    let (some_got, at_most, none_empty, same) =
      given-cells at_least fresh needed b next {start = start} {got = got} {list = list} n e in
    (start, got, list, e, some_got, at_most, none_empty, same)

rest_of : ℕ → ℕ → ℕ → FreeList
rest_of at_least fresh needed =
    if ltb needed at_least
    then record { addr = fresh + needed; count = at_least - needed } ∷ []
    else []

-- Where the list is empty and memory is to be had, ops__allocate hands out as many entries as are
-- needed, and puts the rest of the memory that it gets into the list.
pub allocate_new-cells :
    (at_least fresh needed : ℕ)
    → 0 < needed
    → (list : FreeList) × (allocate at_least (some fresh) needed [] ≡ given fresh needed list)
      × NoneEmpty list
      × ((x : ℕ)
          → inside fresh (if ltb needed at_least then at_least else needed) x
            ≡ inside fresh needed x + cells list x)
unfolding allocate cells rest_of
allocate_new-cells at_least fresh needed pos = elim (Bool-cases (ltb needed at_least)) [
  | inl e ↦ (rest_of at_least fresh needed, ground arith, ground arith, λ x. ground arith)
  | inr e ↦ (rest_of at_least fresh needed, ground arith, ground arith, λ x. ground arith)
]
