-- ===== src/Cache/Store.antt =====
-- `cch__find` and `cch__set_by_id` of src/cache.c: which entry is found, and what a store leaves.
use mathlib.Core.List.{append_assoc}
use fsvs.Prelude.{
  ℕ, zero, suc, ◌+◌, ◌<◌, ◌≡◌, refl, ◌↔◌, sym, ap, ◌∙◌, inl, inr, Bool, true, false, List, [], ◌∷◌,
  ◌++◌, arith, leb, ◌==◌, length, set, take, drop, subst, Bool-cases, All, length-take, length-drop,
  take-append-drop, get_elem?_of_lt,
}
use fsvs.Cache.{
  Allocator, Entry, Slot, null, live, freed, Source, ok, Cache, slot_at, stored_at, set_active, add,
  entry_set, set_by_id, at_index, absent, find, find_from,
}
use fsvs.Cache.Lookup.{IsLive, IsValid, next_slot, add-full, add-room, entry_set-IsLive}
use fsvs.Cache.Room.{entry_set-HasRoom}
use fsvs.Cache.Recency.{cache_of, set_active-above, set-cut, get_elem?-split}

-- An entry with another id.
abbrev pub Misses : ℕ → Slot → Type 0
Misses id (live ce) = (ce.id == id) ≡ false
Misses id _ = ⊥

-- The entry stands behind others that all have another id.
abbrev pub FirstAt : ℕ → List Slot → ℕ → Entry → Type 0
FirstAt id es i ce =
    (a r : List Slot) × (es ≡ a ++ live ce ∷ r) × (length a ≡ i) × All (Misses id) a × (ce.id ≡ id)

find_from-FirstAt :
    (es : List Slot) (k id i : ℕ) (ce : Entry)
    → find_from es k id ≡ at_index i ce
    → (j : ℕ) × (k + j ≡ i) × FirstAt id es j ce
unfolding find_from
find_from-FirstAt [] k id i ce h = cc
find_from-FirstAt (null ∷ es) k id i ce h = cc
find_from-FirstAt (freed ∷ es) k id i ce h = cc
find_from-FirstAt (live x ∷ es) k id i ce h = elim (Bool-cases (x.id == id)) [
  | inl same ↦ (0, ground arith, ([], es, ground arith, refl, tt, ground arith))
  | inr other ↦
      let (j, at, (a, r, cut, n, misses, same)) =
        find_from-FirstAt es (k + 1) id i ce (ground arith) in
      (
        suc j,
        omega arith,
        (live x ∷ a, r, ap (λ t. live x ∷ t) cut, ap suc n, (other, misses), same),
      )
]

find_from-skip :
    (a r : List Slot) (k id : ℕ)
    → All (Misses id) a
    → find_from (a ++ r) k id ≡ find_from r (k + length a) id
unfolding find_from
find_from-skip [] r k id h = ap (λ n. find_from r n id) (omega arith)
find_from-skip (null ∷ a) r k id h = absurd h.0
find_from-skip (freed ∷ a) r k id h = absurd h.0
find_from-skip (live x ∷ a) r k id h =
    rw h.0 (find_from-skip a r (k + 1) id h.1 ∙ ap (λ n. find_from r n id) (omega arith))

FirstAt-find_from :
    (es : List Slot) (id i : ℕ) (ce : Entry)
    → FirstAt id es i ce
    → find_from es 0 id ≡ at_index i ce
unfolding find_from
FirstAt-find_from es id i ce (a, r, cut, n, misses, same) =
    let hit : (ce.id == id) ≡ true = ground arith in
    ap (λ l. find_from l 0 id) cut
    ∙ (find_from-skip a (live ce ∷ r) 0 id misses ∙ rw hit (ap (λ n. at_index n ce) (omega arith)))

-- cch__find gives an index and its entry exactly when that entry has the id and all before it are
-- entries with other ids.
pub find-FirstAt :
    (c : Cache) (id i : ℕ) (ce : Entry) → (find c id ≡ at_index i ce) ↔ FirstAt id c.entries i ce
unfolding find
find-FirstAt c id i ce = (
  λ h.
      let (j, at, first) = find_from-FirstAt c.entries 0 id i ce h in
      subst (λ n. FirstAt id c.entries n ce) (omega arith) first,
  FirstAt-find_from c.entries id i ce,
)

set-beyond :
    (a t : List Slot) (s v : Slot) (i : ℕ)
    → length a < i
    → (t' : List Slot) × (set (a ++ s ∷ t) i v ≡ a ++ s ∷ t')
set-beyond a t s v zero h = elim h [ ]
set-beyond [] t s v (suc i) h = (set t i v, refl)
set-beyond (x ∷ a) t s v (suc i) h =
    let (t', e) = set-beyond a t s v i (omega arith) in (t', ap (λ l. x ∷ l) e)

stale_slots :
    (a t : List Slot) (old : Entry) (new : Slot) (id i : ℕ)
    → length a < i
    → All (Misses id) a
    → old.id ≡ id
    → find_from (set (a ++ live old ∷ t) i new) 0 id ≡ at_index (length a) old
stale_slots a t old new id i lt misses same =
    let (t', e) = set-beyond a t (live old) new i lt in
    FirstAt-find_from _ id (length a) old (a, t', e, refl, misses, same)

All-take : (P : Slot → Type 0) (n : ℕ) (a : List Slot) → All P a → All P (take n a)
All-take P zero a h = tt
All-take P (suc n) [] h = tt
All-take P (suc n) (x ∷ a) h = (h.0, All-take P n a h.1)

set_by_id-found :
    (al : Allocator) (c : Cache) (id : ℕ) (src : Source) (copy : Bool) (i : ℕ) (ce : Entry)
    → find c id ≡ at_index i ce
    → set_by_id al c id src copy ≡ stored_at al (set_active c i) i id src copy
unfolding set_by_id
set_by_id-found al c id src copy i ce h = rw (h, set_by_id)

-- What is moved where the entry found stands behind the slot that follows the last used one.
moved :
    (c : Cache) (id i : ℕ) (old : Entry)
    → FirstAt id c.entries i old
    → c.lru + 1 < i
    → (a t : List Slot) × (set_active c i ≡ cache_of c.max (c.lru + 1) (a ++ live old ∷ t))
      × (length a ≡ c.lru + 1)
      × All (Misses id) a
moved c id i old (p, r, cut, n, misses, same) lt =
    let a = take (c.lru + 1) p in
    let b = drop (c.lru + 1) p in
    let la = length-take {0} (c.lru + 1) p in
    let regroup : a ++ (b ++ live old ∷ r) ≡ c.entries =
      sym (append_assoc a b (live old ∷ r))
      ∙ (ap (λ l. l ++ live old ∷ r) (take-append-drop (c.lru + 1) p) ∙ sym cut) in
    (
      a,
      b ++ r,
      ap (λ es. set_active (cache_of c.max c.lru es) i) (sym regroup)
          ∙ set_active-above a b r (live old) c.max i c.lru (omega arith)
              (omega (arith, length-drop {0} (c.lru + 1) p)),
      omega arith,
      All-take (Misses id) (c.lru + 1) p misses,
    )

-- cch__set_by_id for an id that is in use, at a slot behind the one that follows the last used slot,
-- does not store for a later lookup: cch__set_active has moved the entry away from the index that is
-- then written, another entry is overwritten, and cch__find goes on to give the entry with the old
-- data.
pub set_by_id-stale :
    (al : Allocator) (c : Cache) (id : ℕ) (src : Source) (copy : Bool) (i : ℕ) (old : Entry)
    → find c id ≡ at_index i old
    → c.lru + 1 < i
    → find (set_by_id al c id src copy).0 id ≡ at_index (c.lru + 1) old
unfolding find
set_by_id-stale al c id src copy i old h lt =
    let first = (find-FirstAt c id i old).0 h in
    let (a, t, act, n, misses) = moved c id i old first lt in
    rw (set_by_id-found al c id src copy i old h, act)
      (rw (← n) (stale_slots a t old _ id i (omega arith) misses first.5))

IsLive-live : (s : Slot) → IsLive s → (ce : Entry) × (s ≡ live ce)
IsLive-live null h = absurd h
IsLive-live freed h = absurd h
IsLive-live (live ce) h = (ce, refl)

pub entry_set-ok :
    (al : Allocator) (slot : Slot) (id : ℕ) (src : Source) (copy : Bool)
    → (entry_set al slot id src copy).1 ≡ ok
    → (ce : Entry) × ((entry_set al slot id src copy).0 ≡ live ce) × (ce.id ≡ id)
entry_set-ok al slot id src copy h =
    let (ce, e) = IsLive-live _ (entry_set-IsLive al slot id src copy h) in
    (ce, e, (entry_set-HasRoom al slot id src copy {ce = ce} (λ i. (e i, h i))).1)

absent-Misses : (es : List Slot) (k id : ℕ) → find_from es k id ≡ absent → All (Misses id) es
unfolding find_from
absent-Misses [] k id h = tt
absent-Misses (null ∷ es) k id h = cc
absent-Misses (freed ∷ es) k id h = cc
absent-Misses (live x ∷ es) k id h = elim (Bool-cases (x.id == id)) [
  | inl same ↦ absurd (ground arith)
  | inr other ↦ (other, absent-Misses es (k + 1) id (ground arith))
]

All-prefix : (P : Slot → Type 0) (a r : List Slot) → All P (a ++ r) → All P a
All-prefix P [] r h = tt
All-prefix P (x ∷ a) r h = (h.0, All-prefix P a r h.1)

-- cch__add leaves the new entry where cch__find gives it, if no other entry has the id; then cch__find
-- gives the slot that is marked as the last used one.
pub find-add :
    (al : Allocator) (c : Cache) (id : ℕ) (src : Source)
    → IsValid c
    → (add al c id src).1 ≡ ok
    → find c id ≡ absent
    → (ce : Entry) × (find (add al c id src).0 id ≡ at_index (add al c id src).0.lru ce)
      × (ce.id ≡ id)
unfolding find
find-add al c id src v h free = elim (Bool-cases (leb c.max (length c.entries))) [
  | inl full ↦
      let e = add-full al c id src full in
      let s = slot_at c.entries (next_slot c) in
      let (ce, made, same) = entry_set-ok al s id src false (sym (ap (λ r. r.1) e) ∙ h) in
      let (t, at) = get_elem?_of_lt c.entries (next_slot c) (ground (arith, v.last_used)) in
      let (a, r, cut, n) = get_elem?-split c.entries (next_slot c) t at in
      let put =
        ap (λ es. set es (next_slot c) (live ce)) cut
        ∙ set-cut a r t (live ce) (next_slot c) (sym n) in
      (
        ce,
        rw (e, made)
            (FirstAt-find_from _ id (next_slot c) ce (
              a,
              r,
              put,
              n,
              All-prefix (Misses id) a (t ∷ r)
                  (subst (All (Misses id)) cut (absent-Misses c.entries 0 id free)),
              same,
            )),
        same,
      )
  | inr room ↦
      let e = add-room al c id src room in
      let (ce, made, same) = entry_set-ok al null id src false (sym (ap (λ r. r.1) e) ∙ h) in
      (
        ce,
        rw (e, made)
            (FirstAt-find_from _ id (length c.entries) ce
              (c.entries, [], refl, refl, absent-Misses c.entries 0 id free, same)),
        same,
      )
]
