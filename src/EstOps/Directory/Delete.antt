-- ===== src/EstOps/Directory/Delete.antt =====
-- `ops__delete_entry` of src/est_ops.c: one entry leaves each of the arrays.
use fsvs.Prelude.{
  ℕ, zero, suc, ◌+◌, ◌-◌, ◌≡◌, ◌<◌, ◌⊎◌, ◌≢◌, refl, subst, ap, inl, inr, Option, none, some, List,
  [], ◌∷◌, ◌++◌, arith, ◌==◌, take, drop, get_elem?, Bool-cases, Option-cases, ==_iff,
}
use fsvs.EstOps.Directory.{
  Child, Dir, index_of, move_array, delete_from, done, bug, delete_arrays, delete_entry,
}

take-get-drop :
    (array : List Child) (i j : ℕ) {c : Child}
    → get_elem? array i ≡ some c
    → j ≡ i + 1
    → array ≡ take i array ++ c ∷ drop j array
take-get-drop [] i j h e = cc
take-get-drop (d ∷ array) i zero h e = absurd (omega arith)
take-get-drop (d ∷ array) zero (suc zero) h e = ground arith
take-get-drop (d ∷ array) zero (suc (suc j)) h e = absurd (omega arith)
take-get-drop (d ∷ array) (suc i) (suc j) {c} h e =
    ap (λ l. d ∷ l) (take-get-drop array i j {c = c} h (omega arith))

index_of-get :
    (key : ℕ) (array : List Child) (n : ℕ) {i : ℕ}
    → index_of key array n ≡ some i
    → (c : Child) × (get_elem? array i ≡ some c) × (c.key ≡ key)
unfolding index_of
index_of-get key array zero h = cc
index_of-get key array (suc n) {i} h = elim (Option-cases (get_elem? array n)) [
  | inl e ↦ index_of-get key array n {i = i} (rw (e, index_of) at h)
  | inr (c, e) ↦ elim (Bool-cases (c.key == key)) [
    | inl same ↦ let at_n : n ≡ i = ground arith in (c, rw at_n at e, (==_iff c.key key).0 same)
    | inr other ↦ index_of-get key array n {i = i} (ground arith)
  ]
]

-- An array without one of its entries, which has the key.
abbrev pub Removed : ℕ → List Child → List Child → Type 0
Removed key array l =
    (before : List Child) × (c : Child) × (after : List Child) × (c.key ≡ key)
    × (array ≡ before ++ c ∷ after)
    × (l ≡ before ++ after)

delete_from-Removed :
    (key count : ℕ) (array : List Child) {l : List Child}
    → delete_from key count array ≡ some l
    → Removed key array l
unfolding delete_from move_array
delete_from-Removed key count array {l} h = elim (Option-cases (index_of key array count)) [
  | inl e ↦ absurd (ground arith)
  | inr (i, e) ↦
      let (c, at_i, k) = index_of-get key array count {i = i} e in
      (
        take i array,
        c,
        drop (i + 1) array,
        k,
        take-get-drop array i (i + 1) {c = c} at_i refl,
        ground arith,
      )
]

-- For an array that is there, and for NULL.
abbrev pub RemovedFrom : ℕ → Option (List Child) → Option (List Child) → Type 0
RemovedFrom key none none = Unit
RemovedFrom key (some array) (some l) = Removed key array l
RemovedFrom key _ _ = ⊥

-- Both arrays have lost an entry with the key, and the count is one less.
abbrev pub HasRemoved : ℕ → ℕ → Option (List Child) → Option (List Child) → Dir → Type 0
HasRemoved key count inodes names dir =
    RemovedFrom key inodes dir.by_inode
    × RemovedFrom key names dir.by_name
    × (dir.entry_count ≡ count - 1)

delete_arrays-HasRemoved :
    (key count : ℕ) (inodes names : Option (List Child)) {dir : Dir}
    → delete_arrays key count inodes names ≡ done dir
    → HasRemoved key count inodes names dir
unfolding delete_arrays
delete_arrays-HasRemoved key count none none h = cc
delete_arrays-HasRemoved key count (some a) none {dir} h =
    elim (Option-cases (delete_from key count a)) [
      | inl e ↦ absurd (ground arith)
      | inr (l, e) ↦
          let same : record { entry_count = count - 1; by_inode = some l; by_name = none } ≡ dir =
            ground arith in
          subst (λ d. HasRemoved key count (some a) none d) same
            (delete_from-Removed key count a {l = l} e, tt, refl)
    ]
delete_arrays-HasRemoved key count none (some b) {dir} h =
    elim (Option-cases (delete_from key count b)) [
      | inl e ↦ absurd (ground arith)
      | inr (m, e) ↦
          let same : record { entry_count = count - 1; by_inode = none; by_name = some m } ≡ dir =
            ground arith in
          subst (λ d. HasRemoved key count none (some b) d) same
            (tt, delete_from-Removed key count b {l = m} e, refl)
    ]
delete_arrays-HasRemoved key count (some a) (some b) {dir} h =
    elim (Option-cases (delete_from key count a)) [
      | inl e ↦ absurd (ground arith)
      | inr (l, e) ↦ elim (Option-cases (delete_from key count b)) [
        | inl f ↦ absurd (ground arith)
        | inr (m, f) ↦
            let same : record { entry_count = count - 1; by_inode = some l; by_name = some m }
                ≡ dir =
              ground arith in
            subst (λ d. HasRemoved key count (some a) (some b) d) same
              (
                delete_from-Removed key count a {l = l} e,
                delete_from-Removed key count b {l = m} f,
                refl,
              )
      ]
    ]

-- No entry of an array, below the count, has the key; NULL lacks nothing.
abbrev pub Lacks : ℕ → ℕ → Option (List Child) → Type 0
Lacks key count none = ⊥
Lacks key count (some array) =
    (j : ℕ) (c : Child) → j < count → get_elem? array j ≡ some c → c.key ≢ key

Eq-cases : (i j : ℕ) → (i ≡ j) ⊎ (i ≢ j)
Eq-cases i j = ground arith

index_of-lower :
    (key : ℕ) (array : List Child) (n : ℕ)
    → index_of key array (suc n) ≡ none
    → index_of key array n ≡ none
unfolding index_of
index_of-lower key array n h = elim (Option-cases (get_elem? array n)) [
  | inl e ↦ ground arith
  | inr (c, e) ↦ ground arith
]

index_of-none :
    (key : ℕ) (array : List Child) (n : ℕ) → index_of key array n ≡ none → Lacks key n (some array)
unfolding index_of
index_of-none key array zero h j c lt e = absurd (omega arith)
index_of-none key array (suc n) h j c lt e = elim (Eq-cases j n) [
  | inl q ↦ let at_n : get_elem? array n ≡ some c = rw q at e in λ same. absurd (ground arith)
  | inr q ↦ index_of-none key array n (index_of-lower key array n h) j c (omega arith) e
]

delete_from-none :
    (key count : ℕ) (array : List Child)
    → delete_from key count array ≡ none
    → Lacks key count (some array)
unfolding delete_from
delete_from-none key count array h = elim (Option-cases (index_of key array count)) [
  | inl e ↦ index_of-none key array count e
  | inr (i, e) ↦ absurd (ground arith)
]

delete_arrays_total :
    (key count : ℕ) (inodes names : Option (List Child))
    → ((after : Dir) × (delete_arrays key count inodes names ≡ done after))
      ⊎ ((delete_arrays key count inodes names ≡ bug)
          × (Lacks key count inodes ⊎ Lacks key count names))
      ⊎ ((inodes ≡ none) × (names ≡ none))
unfolding delete_arrays
delete_arrays_total key count none none = inr (inr (refl, refl))
delete_arrays_total key count (some a) none = elim (Option-cases (delete_from key count a)) [
  | inl e ↦ inr (inl (rw (e, delete_arrays) refl, inl (delete_from-none key count a e)))
  | inr (l, e) ↦ inl (
    record { entry_count = count - 1; by_inode = some l; by_name = none },
    rw (e, delete_arrays) refl,
  )
]
delete_arrays_total key count none (some b) = elim (Option-cases (delete_from key count b)) [
  | inl e ↦ inr (inl (rw (e, delete_arrays) refl, inr (delete_from-none key count b e)))
  | inr (m, e) ↦ inl (
    record { entry_count = count - 1; by_inode = none; by_name = some m },
    rw (e, delete_arrays) refl,
  )
]
delete_arrays_total key count (some a) (some b) = elim (Option-cases (delete_from key count a)) [
  | inl e ↦ inr (inl (rw (e, delete_arrays) refl, inl (delete_from-none key count a e)))
  | inr (l, e) ↦ elim (Option-cases (delete_from key count b)) [
    | inl f ↦ inr (inl (rw (e, f, delete_arrays) refl, inr (delete_from-none key count b f)))
    | inr (m, f) ↦ inl (
      record { entry_count = count - 1; by_inode = some l; by_name = some m },
      rw (e, f, delete_arrays) refl,
    )
  ]
]

-- ops__delete_entry takes one entry with the key out of each of the arrays that the directory has, keeps
-- the order of the others, and counts one less; or it stops at a BUG_ON where one of the arrays has no
-- such entry below the count; or the directory has neither array.
pub delete_entry-HasRemoved :
    (dir : Dir) (key : ℕ)
    → ((after : Dir) × (delete_entry dir key ≡ done after)
        × HasRemoved key dir.entry_count dir.by_inode dir.by_name after)
      ⊎ ((delete_entry dir key ≡ bug)
          × (Lacks key dir.entry_count dir.by_inode ⊎ Lacks key dir.entry_count dir.by_name))
      ⊎ ((dir.by_inode ≡ none) × (dir.by_name ≡ none))
unfolding delete_entry
delete_entry-HasRemoved dir key =
    elim (delete_arrays_total key dir.entry_count dir.by_inode dir.by_name) [
      | inl (after, e) ↦ inl (
        after,
        e,
        delete_arrays-HasRemoved key dir.entry_count dir.by_inode dir.by_name {dir = after} e,
      )
      | inr rest ↦ inr rest
    ]
