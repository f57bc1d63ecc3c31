-- ===== src/EstOps/Directory/Compact.antt =====
-- `ops__free_marked` of src/est_ops.c: moving the entries in place comes to a filter.
use fsvs.Prelude.{
  ℕ, zero, suc, ◌+◌, ◌≡◌, refl, sym, ap, ◌∙◌, inl, inr, true, false, none, some, List, [], ◌∷◌,
  ◌++◌, arith, if◌then◌else◌, length, set, take, get_elem?, Bool-cases, length-append,
  take-append_self,
}
use mathlib.Core.List.{append_assoc, append-nil}
use fsvs.EstOps.Directory.{Child, Dir, compact, free_marked}

-- The entries that are not marked.
unfoldable pub unmarked : List Child → List Child
unmarked [] = []
unmarked (c ∷ cs) = let rest = unmarked cs in if c.to_be_ignored then rest else c ∷ rest

get-middle :
    (kept junk rest : List Child) (c : Child) (i : ℕ)
    → i ≡ length kept + length junk
    → get_elem? (kept ++ (junk ++ c ∷ rest)) i ≡ some c
get-middle [] [] rest c zero e = refl
get-middle [] [] rest c (suc i) e = absurd (omega arith)
get-middle [] (j ∷ junk) rest c zero e = absurd (omega arith)
get-middle [] (j ∷ junk) rest c (suc i) e = get-middle [] junk rest c i (omega arith)
get-middle (k ∷ kept) junk rest c zero e = absurd (omega arith)
get-middle (k ∷ kept) junk rest c (suc i) e = get-middle kept junk rest c i (omega arith)

-- The entry is copied down behind those that are kept.
set-middle :
    (kept junk rest : List Child) (c : Child) (dst : ℕ)
    → dst ≡ length kept
    → (junk' : List Child) × (set (kept ++ (junk ++ c ∷ rest)) dst c
        ≡ (kept ++ c ∷ []) ++ (junk' ++ rest))
      × (length junk' ≡ length junk)
set-middle [] [] rest c zero e = ([], refl, refl)
set-middle [] (j ∷ junk) rest c zero e = (
  junk ++ c ∷ [],
  ap (λ l. c ∷ l) (sym (append_assoc junk (c ∷ []) rest)),
  omega (arith, length-append {0} junk (c ∷ [])),
)
set-middle [] junk rest c (suc dst) e = absurd (omega arith)
set-middle (k ∷ kept) junk rest c zero e = absurd (omega arith)
set-middle (k ∷ kept) junk rest c (suc dst) e =
    let (junk', p, n) = set-middle kept junk rest c dst (omega arith) in
    (junk', ap (λ l. k ∷ l) p, n)

abbrev Compacted : List Child → List Child → List Child × ℕ → Type 0
Compacted kept todo r =
    (take r.1 r.0 ≡ kept ++ unmarked todo) × (r.1 ≡ length kept + length (unmarked todo))

-- One round of the loop.
compact-step :
    (n i dst : ℕ) (array : List Child) (c : Child)
    → get_elem? array i ≡ some c
    → compact (suc n) i array dst
      ≡ compact n
          (i + 1)
          (if c.to_be_ignored then array else set array dst c)
          (if c.to_be_ignored then dst else dst + 1)
unfolding compact
compact-step n i dst array c h = rw (h, compact) refl

-- One round of the loop, on an entry that is marked, and on one that is kept.
compact-marked :
    (n i dst : ℕ) (array : List Child) (c : Child)
    → get_elem? array i ≡ some c
    → c.to_be_ignored ≡ true
    → compact (suc n) i array dst ≡ compact n (i + 1) array dst
compact-marked n i dst array c h k = simp (compact-step n i dst array c h, k)

compact-unmarked :
    (n i dst : ℕ) (array : List Child) (c : Child)
    → get_elem? array i ≡ some c
    → c.to_be_ignored ≡ false
    → compact (suc n) i array dst ≡ compact n (i + 1) (set array dst c) (dst + 1)
compact-unmarked n i dst array c h k = simp (compact-step n i dst array c h, k)

unmarked-marked :
    (c : Child) (rest : List Child) → c.to_be_ignored ≡ true → unmarked (c ∷ rest) ≡ unmarked rest
unfolding unmarked
unmarked-marked c rest h = simp h

unmarked-unmarked :
    (c : Child) (rest : List Child)
    → c.to_be_ignored ≡ false
    → unmarked (c ∷ rest) ≡ c ∷ unmarked rest
unfolding unmarked
unmarked-unmarked c rest h = simp h

compact-Compacted :
    (todo kept junk : List Child) (i dst : ℕ)
    → i ≡ length kept + length junk
    → dst ≡ length kept
    → Compacted kept todo (compact (length todo) i (kept ++ (junk ++ todo)) dst)
compact-Compacted [] kept junk i dst e f =
    unfold compact unmarked in
    (rw f (take-append_self kept (junk ++ []) ∙ sym (append-nil kept)), omega arith)
compact-Compacted (c ∷ rest) kept junk i dst e f = elim (Bool-cases c.to_be_ignored) [
  | inl dropped ↦
      let next =
        compact-Compacted rest kept (junk ++ c ∷ []) (i + 1) dst
          (omega (arith, length-append {0} junk (c ∷ []))) f in
      rw
        (
          compact-marked (length rest) i dst (kept ++ (junk ++ c ∷ rest)) c
              (get-middle kept junk rest c i e) dropped,
          unmarked-marked c rest dropped,
        )
        (rw (append_assoc junk (c ∷ []) rest) at next)
  | inr stays ↦
      let (junk', p, n) = set-middle kept junk rest c dst f in
      let next =
        compact-Compacted rest (kept ++ c ∷ []) junk' (i + 1) (dst + 1)
          (omega (arith, length-append {0} kept (c ∷ [])))
          (omega (arith, length-append {0} kept (c ∷ []))) in
      rw
        (
          compact-unmarked (length rest) i dst (kept ++ (junk ++ c ∷ rest)) c
              (get-middle kept junk rest c i e) stays,
          unmarked-unmarked c rest stays,
          p,
        )
        (
          next.0 ∙ append_assoc kept (c ∷ []) (unmarked rest),
          omega (arith, next.1, length-append {0} kept (c ∷ [])),
        )
]

-- ops__free_marked on a directory with entries keeps exactly those that are not marked, in their order,
-- counts them, and drops the array by name.
pub free_marked_lem :
    (dir : Dir) (array : List Child)
    → dir.by_inode ≡ some array
    → dir.entry_count ≡ length array
    → free_marked dir ≡ record {
      entry_count = length (unmarked array);
      by_inode = some (unmarked array);
      by_name = none;
    }
unfolding free_marked
free_marked_lem dir array h n =
    let (t, c) = compact-Compacted array [] [] 0 0 refl refl in
    let same : 0 + length (unmarked array) ≡ length (unmarked array) = omega arith in
    rw (h, n)
      (rw (t, c)
        (ap
          (λ (k : ℕ). record { entry_count = k; by_inode = some (unmarked array); by_name = none })
          same))
