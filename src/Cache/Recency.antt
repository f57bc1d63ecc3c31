-- ===== src/Cache/Recency.antt =====
-- `cch__set_active` and `cch__add` of src/cache.c against the list of entries from the last used one
-- to the one that is given up next.
use mathlib.Core.List.{reverse, reverse-append, reverse-cons, append_assoc, append-nil}
use fsvs.Prelude.{
  ℕ, zero, suc, ◌+◌, ◌-◌, ◌<◌, ◌≡◌, refl, sym, ap, ◌∙◌, subst, ltb→lt, ltb→le, inl, inr, true,
  false, some, List, [], ◌∷◌, ◌++◌, arith, ltb, leb, if◌then◌else◌, length, get_elem?, set, take,
  drop, Bool-cases, lt→ltb, le→ltb, take-append-drop, length-take, length-drop, length-append,
  get_elem?_of_lt, get_elem?-append_end, drop-append_self, take-append_self,
}
use fsvs.Cache.{Allocator, Slot, Source, Cache, slot_at, set_active, add, entry_set}

-- The slots from the last used one down to the start, and then from the end down to its neighbour.
abbrev pub recency_of : ℕ → List Slot → List Slot
recency_of lru es = reverse (take (lru + 1) es) ++ reverse (drop (lru + 1) es)

unfoldable pub recency : Cache → List Slot
recency c = recency_of c.lru c.entries

module _ {ℓ} {A : Type ℓ} where
  take-append_eq : (xs ys : List A) (n : ℕ) → n ≡ length xs → take n (xs ++ ys) ≡ xs
  take-append_eq xs ys n e = rw e (take-append_self xs ys)

  drop-append_eq : (xs ys : List A) (n : ℕ) → n ≡ length xs → drop n (xs ++ ys) ≡ ys
  drop-append_eq xs ys n e = rw e (drop-append_self xs ys)

  pub get_elem?-split :
      (xs : List A) (i : ℕ) (x : A)
      → get_elem? xs i ≡ some x
      → (p q : List A) × (xs ≡ p ++ x ∷ q) × (length p ≡ i)
  get_elem?-split [] i x h = cc
  get_elem?-split (y ∷ xs) zero x h = ([], xs, ground arith, refl)
  get_elem?-split (y ∷ xs) (suc i) x h =
      let (p, q, e, n) = get_elem?-split xs i x h in (y ∷ p, q, ap (λ t. y ∷ t) e, ap suc n)

-- A list in which the slot `s` has moved to the front, with the order of the others kept.
abbrev pub MovedToFront : Slot → List Slot → List Slot → Type 0
MovedToFront s before after = (p q : List Slot) × (before ≡ p ++ s ∷ q) × (after ≡ s ∷ p ++ q)

recency-cut :
    (lru : ℕ) (xs ys : List Slot)
    → lru + 1 ≡ length xs
    → recency_of lru (xs ++ ys) ≡ reverse xs ++ reverse ys
recency-cut lru xs ys e = rw (take-append_eq xs ys (lru + 1) e, drop-append_eq xs ys (lru + 1) e)

ruleset reversal = (reverse-append, reverse-cons, append_assoc)

-- The slot stands before the last used one: `a s b c` becomes `a b s c`.
module _ (a b c : List Slot) (s : Slot) where
  recency_below :
      (lru : ℕ)
      → lru + 1 ≡ length a + 1 + length b
      → MovedToFront s (recency_of lru (a ++ s ∷ (b ++ c))) (recency_of lru (a ++ (b ++ s ∷ c)))
  recency_below lru e = (
    reverse b,
    reverse a ++ reverse c,
    ap (recency_of lru) (sym (append_assoc a (s ∷ b) c))
        ∙ (recency-cut lru (a ++ s ∷ b) c (omega (arith, length-append {0} a (s ∷ b)))
            ∙ simp reversal),
    ap (recency_of lru) (sym (append_assoc a b (s ∷ c)) ∙ regroup)
        ∙ (recency-cut lru (a ++ (b ++ s ∷ [])) c
              (omega (arith, length-append {0} a (b ++ s ∷ []), length-append {0} b (s ∷ [])))
            ∙ simp reversal),
  )
    where
      regroup : (a ++ b) ++ s ∷ c ≡ (a ++ (b ++ s ∷ [])) ++ c
      regroup = simp append_assoc

  -- The slot stands behind it: `a b s c` becomes `a s b c`, and the next slot is the last used one.
  recency_above :
      (lru : ℕ)
      → lru + 1 ≡ length a
      → MovedToFront s
          (recency_of lru (a ++ (b ++ s ∷ c)))
          (recency_of (lru + 1) (a ++ s ∷ (b ++ c)))
  recency_above lru e = (
    reverse a ++ reverse c,
    reverse b,
    recency-cut lru a (b ++ s ∷ c) e ∙ simp reversal,
    ap (recency_of (lru + 1)) regroup
        ∙ (recency-cut (lru + 1) (a ++ s ∷ []) (b ++ c)
              (omega (arith, length-append {0} a (s ∷ [])))
            ∙ simp reversal),
  )
    where
      regroup : a ++ s ∷ (b ++ c) ≡ (a ++ s ∷ []) ++ (b ++ c)
      regroup = simp append_assoc

slot_at-cut : (a r : List Slot) (s : Slot) (i : ℕ) → i ≡ length a → slot_at (a ++ s ∷ r) i ≡ s
slot_at-cut a r s i e = rw (e, get_elem?-append_end a s r, slot_at)

drop-suc_eq : (a r : List Slot) (s : Slot) (n : ℕ) → n ≡ length a + 1 → drop n (a ++ s ∷ r) ≡ r
drop-suc_eq a r s n e =
    let e' : n ≡ length (a ++ s ∷ []) = omega (arith, length-append {0} a (s ∷ [])) in
    ap (drop n) (sym (append_assoc a (s ∷ []) r)) ∙ drop-append_eq (a ++ s ∷ []) r n e'

-- What the two moves of memory do to a list that is cut at the places that they name.
module _ (a b c : List Slot) (s : Slot) (max : ℕ) where
  set_active-below :
      (i lru : ℕ)
      → i ≡ length a
      → lru ≡ length a + length b
      → i < lru
      → set_active (record { max = max; lru = lru; entries = a ++ s ∷ (b ++ c) }) i
        ≡ record { max = max; lru = lru; entries = a ++ (b ++ s ∷ c) }
  unfolding set_active
  set_active-below i lru e n lt = rw (lt→ltb i lru lt) (
      cc (
        slot_at-cut a (b ++ c) s i e,
        take-append_eq a (s ∷ (b ++ c)) i e,
        drop-suc_eq a (b ++ c) s (i + 1) (omega arith),
        take-append_eq b c (lru - i) (omega arith),
        drop-append_eq (a ++ s ∷ b) c (lru + 1) (omega (arith, length-append {0} a (s ∷ b))),
        append_assoc a (s ∷ b) c,
      ))

  pub set_active-above :
      (i lru : ℕ)
      → lru + 1 ≡ length a
      → i ≡ length a + length b
      → set_active (record { max = max; lru = lru; entries = a ++ (b ++ s ∷ c) }) i
        ≡ record { max = max; lru = lru + 1; entries = a ++ s ∷ (b ++ c) }
  unfolding set_active
  set_active-above i lru e n =
      let at_s : i ≡ length (a ++ b) = omega (arith, length-append {0} a b) in
      rw (le→ltb i lru (omega arith), lt→ltb lru i (omega arith))
        (cc (
          slot_at-cut (a ++ b) c s i at_s,
          append_assoc a b (s ∷ c),
          take-append_eq a (b ++ s ∷ c) (lru + 1) e,
          drop-append_eq a (b ++ s ∷ c) (lru + 1) e,
          take-append_eq b (s ∷ c) (i - (lru + 1)) (omega arith),
          drop-suc_eq (a ++ b) c s (i + 1) (omega arith),
        ))

abbrev pub cache_of : ℕ → ℕ → List Slot → Cache
cache_of max lru es = record { max = max; lru = lru; entries = es }

abbrev Fronts : Cache → ℕ → Slot → Type 0
Fronts c i s = MovedToFront s (recency c) (recency (set_active c i))

module _ (max lru i : ℕ) (s : Slot) where
  Fronts-below :
      (a b c : List Slot)
      → i ≡ length a
      → lru ≡ length a + length b
      → i < lru
      → Fronts (cache_of max lru (a ++ s ∷ (b ++ c))) i s
  unfolding recency
  Fronts-below a b c e n lt =
      rw (set_active-below a b c s max i lru e n lt) (recency_below a b c s lru (omega arith))

  Fronts-above :
      (a b c : List Slot)
      → lru + 1 ≡ length a
      → i ≡ length a + length b
      → Fronts (cache_of max lru (a ++ (b ++ s ∷ c))) i s
  unfolding recency
  Fronts-above a b c e n = rw (set_active-above a b c s max i lru e n) (recency_above a b c s lru e)

  Fronts-same :
      (a r : List Slot) → i ≡ length a → i ≡ lru → Fronts (cache_of max lru (a ++ s ∷ r)) i s
  unfolding recency set_active
  Fronts-same a r e same =
      let cut : recency_of lru (a ++ s ∷ r) ≡ s ∷ (reverse a ++ reverse r) =
        ap (recency_of lru) regroup
        ∙ (recency-cut lru (a ++ s ∷ []) r (omega (arith, length-append {0} a (s ∷ [])))
            ∙ simp reversal) in
      rw (le→ltb i lru (omega arith), le→ltb lru i (omega arith))
        ([], reverse a ++ reverse r, cut, cut)
    where
      regroup : a ++ s ∷ r ≡ (a ++ s ∷ []) ++ r
      regroup = simp append_assoc

  Fronts-cut :
      (a r : List Slot)
      → i ≡ length a
      → lru < length a + 1 + length r
      → Fronts (cache_of max lru (a ++ s ∷ r)) i s
  Fronts-cut a r e lt = elim (Bool-cases (ltb i lru)) [
    | inl h ↦
        subst (λ r'. Fronts (cache_of max lru (a ++ s ∷ r')) i s) (take-append-drop (lru - i) r)
          (Fronts-below a (take (lru - i) r) (drop (lru - i) r) e
            (omega (arith, ltb→lt i lru h, length-take {0} (lru - i) r)) (ltb→lt i lru h))
    | inr h ↦ elim (Bool-cases (ltb lru i)) [
      | inl k ↦
          subst (λ es. Fronts (cache_of max lru es) i s)
            (sym (append_assoc (take (lru + 1) a) (drop (lru + 1) a) (s ∷ r))
              ∙ ap (λ t. t ++ s ∷ r) (take-append-drop (lru + 1) a))
            (Fronts-above (take (lru + 1) a) (drop (lru + 1) a) r
              (omega (arith, ltb→lt lru i k, length-take {0} (lru + 1) a))
              (omega
                (arith, ltb→lt lru i k, length-take {0} (lru + 1) a, length-drop {0} (lru + 1) a)))
      | inr k ↦ Fronts-same a r e (omega (arith, ltb→le i lru h, ltb→le lru i k))
    ]
  ]

-- cch__set_active at the index of a used entry makes that entry the most recently used one, and keeps
-- the order of all others, wherever the entry stands to the last used one.
pub set_active-MovedToFront :
    (c : Cache) (i : ℕ) (s : Slot)
    → get_elem? c.entries i ≡ some s
    → c.lru < length c.entries
    → MovedToFront s (recency c) (recency (set_active c i))
set_active-MovedToFront c i s h lt =
    let (a, r, e, n) = get_elem?-split c.entries i s h in
    subst (λ es. Fronts (cache_of c.max c.lru es) i s) (sym e)
      (Fronts-cut c.max c.lru i s a r (sym n)
        (omega (arith, ap (λ es. length es) e, length-append {0} a (s ∷ r))))

pub set-cut :
    (a r : List Slot) (t v : Slot) (i : ℕ) → i ≡ length a → set (a ++ t ∷ r) i v ≡ a ++ v ∷ r
set-cut [] r t v zero e = refl
set-cut [] r t v (suc i) e = absurd (omega arith)
set-cut (x ∷ a) r t v zero e = absurd (omega arith)
set-cut (x ∷ a) r t v (suc i) e = ap (λ l. x ∷ l) (set-cut a r t v i (omega arith))

abbrev pub Evicts : Allocator → ℕ → Source → Cache → Type 0
Evicts al id src c =
    (slot : Slot) × (kept : List Slot) × (last : Slot) × (recency c ≡ kept ++ last ∷ [])
    × (recency (add al c id src).0 ≡ slot ∷ kept)
    × ((slot, (add al c id src).1) ≡ entry_set al last id src false)

module _ (al : Allocator) (id : ℕ) (src : Source) (max lru : ℕ) (t : Slot) where
  add-cut :
      (i : ℕ) (a r : List Slot)
      → i ≡ length a
      → (if leb max (lru + 1) then 0 else lru + 1) ≡ i
      → length (a ++ t ∷ r) ≡ max
      → add al (cache_of max lru (a ++ t ∷ r)) id src ≡ (
          let (slot, status) = entry_set al t id src false in
          (cache_of max i (a ++ slot ∷ r), status))
  unfolding add
  add-cut i a r e at full =
      let full' : leb max (length (a ++ t ∷ r)) ≡ true = ground arith in
      rw (full', at) (cc (slot_at-cut a r t i e, set-cut a r t (entry_set al t id src false).0 i e))

  Evicts-next :
      (a r : List Slot)
      → lru + 1 ≡ length a
      → lru + 1 < max
      → length (a ++ t ∷ r) ≡ max
      → Evicts al id src (cache_of max lru (a ++ t ∷ r))
  unfolding recency recency_above
  Evicts-next a r e lt full = rw (add-cut (lru + 1) a r e (ground arith) full) (
    (entry_set al t id src false).0,
    reverse a ++ reverse r,
    t,
    recency-cut lru a (t ∷ r) e ∙ simp reversal,
    (recency_above a [] r (entry_set al t id src false).0 lru e).3
        ∙ append-nil ((entry_set al t id src false).0 ∷ (reverse a ++ reverse r)),
    refl,
  )

  Evicts-wrap :
      (r : List Slot)
      → lru + 1 ≡ max
      → length (t ∷ r) ≡ max
      → Evicts al id src (cache_of max lru (t ∷ r))
  unfolding recency
  Evicts-wrap r e full = rw (add-cut 0 [] r refl (ground arith) full) (
    (entry_set al t id src false).0,
    reverse r,
    t,
    ap (recency_of lru) (sym (append-nil (t ∷ r)))
        ∙ (recency-cut lru (t ∷ r) [] (omega arith) ∙ simp (reversal, append-nil)),
    refl,
    refl,
  )

first : (es : List Slot) → 0 < length es → (t : Slot) × (r : List Slot) × (es ≡ t ∷ r)
first [] h = elim h [ ]
first (t ∷ r) h = (t, r, refl)

-- cch__add to a cache that is full gives up the entry that was used longest ago, and makes the new one
-- the most recently used; the order of the others is kept. The new slot and the status are those of
-- cch__entry_set on the slot that was given up.
pub add-Evicts :
    (al : Allocator) (c : Cache) (id : ℕ) (src : Source)
    → length c.entries ≡ c.max
    → c.lru < c.max
    → Evicts al id src c
add-Evicts al c id src full lt =
    let (t₀, r₀, cut₀) = first c.entries (omega arith) in
    elim (Bool-cases (leb c.max (c.lru + 1))) [
      | inl wrap ↦
          subst (λ es. Evicts al id src (cache_of c.max c.lru es)) (sym cut₀)
            (Evicts-wrap al id src c.max c.lru t₀ r₀ (ground arith)
              (ap (λ es. length es) (sym cut₀) ∙ full))
      | inr next ↦
          let (t, at) = get_elem?_of_lt c.entries (c.lru + 1) (ground arith) in
          let (a, r, e, n) = get_elem?-split c.entries (c.lru + 1) t at in
          subst (λ es. Evicts al id src (cache_of c.max c.lru es)) (sym e)
            (Evicts-next al id src c.max c.lru t a r (sym n) (ground arith)
              (ap (λ es. length es) (sym e) ∙ full))
    ]
