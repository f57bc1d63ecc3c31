-- ===== src/Cache/Lookup.antt =====
-- `cch__find`, `cch__add` and `cch__set_by_id` of src/cache.c: what is found, and the well-formedness
-- of a cache.
use fsvs.Prelude.{
  ℕ, zero, suc, ◌+◌, ◌≤◌, ◌<◌, ◌≡◌, sym, ap, ◌∙◌, ◌⊎◌, inl, inr, Bool, true, false, List, [], ◌∷◌,
  ◌++◌, arith, leb, if◌then◌else◌, length, set, Bool-cases, All, length-set, length-append,
}
use fsvs.Cache.{
  Allocator, Slot, null, live, freed, Source, ok, Cache, slot_at, add, entry_set, new_cache,
}

abbrev pub IsLive : Slot → Type 0
IsLive (live ce) = Unit
IsLive _ = ⊥

-- What holds of a cache between two calls.
pub record IsValid (c : Cache) : Type 0 where
  pub not_empty : 0 < c.max
  pub within : length c.entries ≤ c.max
  pub last_used : (c.lru ≡ 0) ⊎ (c.lru < length c.entries)
  pub appending : length c.entries < c.max → (length c.entries ≡ 0) ⊎ (c.lru + 1 ≡ length c.entries)
  pub all_live : All IsLive c.entries

new_cache-IsValid : (max : ℕ) → 0 < max → IsValid (new_cache max)
unfolding new_cache
new_cache-IsValid max h = ground arith

All-set : (es : List Slot) (i : ℕ) (s : Slot) → All IsLive es → IsLive s → All IsLive (set es i s)
All-set [] i s h l = tt
All-set (e ∷ es) zero s h l = (l, h.1)
All-set (e ∷ es) (suc i) s h l = (h.0, All-set es i s h.1 l)

All-append : (es : List Slot) (s : Slot) → All IsLive es → IsLive s → All IsLive (es ++ s ∷ [])
All-append [] s h l = (l, tt)
All-append (e ∷ es) s h l = (h.0, All-append es s h.1 l)

All-slot_at : (es : List Slot) (i : ℕ) → All IsLive es → i < length es → IsLive (slot_at es i)
All-slot_at [] i h lt = elim lt [ ]
All-slot_at (e ∷ es) zero h lt = h.0
All-slot_at (e ∷ es) (suc i) h lt = All-slot_at es i h.1 (omega arith)

-- A successful call of `cch__entry_set` leaves an entry.
pub entry_set-IsLive :
    (al : Allocator) (slot : Slot) (id : ℕ) (src : Source) (copy : Bool)
    → (entry_set al slot id src copy).1 ≡ ok
    → IsLive (entry_set al slot id src copy).0
unfolding entry_set
entry_set-IsLive al null id src copy h = ground arith
entry_set-IsLive al freed id src copy h = cc
entry_set-IsLive al (live ce) id src copy h = ground arith

-- The slot that cch__add goes on to, when every one is used.
abbrev pub next_slot : Cache → ℕ
next_slot c = if leb c.max (c.lru + 1) then 0 else c.lru + 1

pub add-full :
    (al : Allocator) (c : Cache) (id : ℕ) (src : Source)
    → leb c.max (length c.entries) ≡ true
    → add al c id src ≡ (
        let (slot, status) = entry_set al (slot_at c.entries (next_slot c)) id src false in
        (record c { lru = next_slot c; entries = set c.entries (next_slot c) slot }, status))
unfolding add
add-full al c id src full = rw full

pub add-room :
    (al : Allocator) (c : Cache) (id : ℕ) (src : Source)
    → leb c.max (length c.entries) ≡ false
    → add al c id src ≡ (
        let (slot, status) = entry_set al null id src false in
        (record c { lru = length c.entries; entries = c.entries ++ slot ∷ [] }, status))
unfolding add
add-room al c id src room = rw room

-- A successful cch__add keeps a cache well-formed, whether it takes a new slot or gives one up.
pub add-IsValid :
    (al : Allocator) (c : Cache) (id : ℕ) (src : Source)
    → IsValid c
    → (add al c id src).1 ≡ ok
    → IsValid (add al c id src).0
add-IsValid al c id src v h = elim (Bool-cases (leb c.max (length c.entries))) [
  | inl full ↦
      let i = next_slot c in
      let slot = slot_at c.entries i in
      let e = ap (λ r. r.1) (add-full al c id src full) in
      let l = length-set {0} c.entries i (entry_set al slot id src false).0 in
      rw (add-full al c id src full) (record {
        not_empty = v.not_empty;
        within = omega (arith, v.within, l);
        last_used = ground (arith, l);
        appending = ground (arith, l);
        all_live =
            All-set c.entries i (entry_set al slot id src false).0 v.all_live
              (entry_set-IsLive al slot id src false (sym e ∙ h));
      })
  | inr room ↦
      let e = ap (λ r. r.1) (add-room al c id src room) in
      let l = length-append {0} c.entries ((entry_set al null id src false).0 ∷ []) in
      rw (add-room al c id src room) (record {
        not_empty = v.not_empty;
        within = ground (arith, l);
        last_used = ground (arith, l);
        appending = ground (arith, l);
        all_live =
            All-append c.entries (entry_set al null id src false).0 v.all_live
              (entry_set-IsLive al null id src false (sym e ∙ h));
      })
]
