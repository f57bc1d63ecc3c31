-- ===== src/Hash/Garbage.antt =====
-- `hsh__collect_garbage` (hash_ops.c), after any row of registrations.
use fsvs.Prelude.{
  ℕ, ◌≡◌, ◌≢◌, refl, ap, sym, subst, ◌∙◌, inl, inr, true, ◌||◌, Option, none, some, List, [], ◌∷◌,
  if◌then◌else◌, Bytes, strcmp_eq, arith, Bool-cases,
}
use fsvs.Hash.{
  Gdbm, Hash, Status, ok, enoent, efbig, error, bug, remove_all, has_key, registered,
  register_delete, collected, collect_garbage,
}
use fsvs.Hash.Registered.{
  Removed, remove_all-Removed, remove_all-ok, register_all, or_false, IsDistinct, has_key_known,
}

register_delete-IsDistinct :
    {V : Type 0} (g : Gdbm V) (h : Hash g) (k : Bytes)
    → IsDistinct (registered h.to_delete)
    → IsDistinct (registered (register_delete g h k).to_delete)
unfolding register_delete
register_delete-IsDistinct g h k w = elim (Bool-cases (has_key k (registered h.to_delete))) [
  | inl e ↦ rw e w
  | inr e ↦ rw e (e, w)
]

register_delete-has_key :
    {V : Type 0} (g : Gdbm V) (h : Hash g) (k j : Bytes)
    → has_key j (registered (register_delete g h k).to_delete)
      ≡ (strcmp_eq j k || has_key j (registered h.to_delete))
unfolding register_delete
register_delete-has_key g h k j = elim (Bool-cases (has_key k (registered h.to_delete))) [
  | inl e ↦ rw e (has_key_known j k (registered h.to_delete) e)
  | inr e ↦ rw e (unfold has_key in refl)
]

register_all-IsDistinct :
    {V : Type 0} (g : Gdbm V) (ks : List Bytes) (h : Hash g)
    → IsDistinct (registered h.to_delete)
    → IsDistinct (registered (register_all g ks h).to_delete)
unfolding register_all
register_all-IsDistinct g [] h w = w
register_all-IsDistinct g (k ∷ ks) h w =
    register_all-IsDistinct g ks (register_delete g h k) (register_delete-IsDistinct g h k w)

register_all-has_key :
    {V : Type 0} (g : Gdbm V) (ks : List Bytes) (h : Hash g) (j : Bytes)
    → has_key j (registered (register_all g ks h).to_delete)
      ≡ (has_key j ks || has_key j (registered h.to_delete))
unfolding register_all has_key
register_all-has_key g [] h j = refl
register_all-has_key g (k ∷ ks) h j =
    ground
      (arith, register_all-has_key g ks (register_delete g h k) j, register_delete-has_key g h k j)

register_all-db :
    {V : Type 0} (g : Gdbm V) (ks : List Bytes) (h : Hash g) → (register_all g ks h).db ≡ h.db
unfolding register_all
register_all-db g [] h = refl
register_all-db g (k ∷ ks) h =
    register_all-db g ks (register_delete g h k) ∙ (unfold register_delete in refl)

nothing_registered :
    {V : Type 0} (g : Gdbm V) (h : Hash g)
    → h.to_delete ≡ none
    → IsDistinct (registered h.to_delete)
nothing_registered g h e = subst (λ o. IsDistinct (registered o)) (sym e) tt

only_new :
    {V : Type 0} (g : Gdbm V) (h : Hash g) (ks : List Bytes)
    → h.to_delete ≡ none
    → (j : Bytes) → has_key j (registered (register_all g ks h).to_delete) ≡ has_key j ks
only_new g h ks e j =
    register_all-has_key g ks h j
    ∙ ap (λ o. has_key j ks || has_key j (registered o)) e
    ∙ (unfold has_key in or_false (has_key j ks))

-- A successful collection: nothing stays registered, and exactly the registered keys are gone.
abbrev pub Collected :
    {V : Type 0} (g : Gdbm V) → Hash g → List Bytes → Hash g × ℕ × Status → Type 0
Collected g h ks (h', n, s) =
    (s ≡ ok)
    × (h'.to_delete ≡ none)
    × ((j : Bytes) → g.fetch h'.db j ≡ (if has_key j ks then none else g.fetch h.db j))

module _ {V : Type 0} (g : Gdbm V) where
  collected-Collected :
      (h : Hash g) (ks : List Bytes) (r : g.Db × List Bytes × ℕ × Status)
      → r.3 ≡ ok
      → Removed g h.db ks 0 r
      → Collected g h ks (collected g h r)
  collected-Collected h ks (d, left, n, ok) e (f, m) = (refl, refl, f)
  collected-Collected h ks (d, left, n, enoent) e w = cc
  collected-Collected h ks (d, left, n, efbig) e w = cc
  collected-Collected h ks (d, left, n, error) e w = cc
  collected-Collected h ks (d, left, n, bug) e w = cc

  module _
      (deletes : (d : g.Db) (k : Bytes)
        → g.fetch d k ≢ none
        → (d' : g.Db) × (g.delete d k ≡ some d')) where
    collect_cases :
        (d : g.Db) (o : Option (List Bytes))
        → IsDistinct (registered o)
        → ((j : Bytes) → has_key j (registered o) ≡ true → g.fetch d j ≢ none)
        → Collected g
            (record { db = d; to_delete = o })
            (registered o)
            (collect_garbage g (record { db = d; to_delete = o }))
    unfolding collect_garbage has_key
    collect_cases d none w f = (refl, refl, λ j. refl)
    collect_cases d (some ks) w f =
        collected-Collected (record { db = d; to_delete = some ks }) ks (remove_all g d ks 0)
          (remove_all-ok g deletes ks d 0 w f) (remove_all-Removed g ks d 0)

    after_registering :
        (h h1 : Hash g) (ks : List Bytes) (r : Hash g × ℕ × Status)
        → h1.db ≡ h.db
        → ((j : Bytes) → has_key j (registered h1.to_delete) ≡ has_key j ks)
        → Collected g h1 (registered h1.to_delete) r
        → Collected g h ks r
    after_registering h h1 ks (h2, n, s) e k (a, b, f) =
        (a, b, λ j. f j ∙ rw (k j) (ap (λ d. if has_key j ks then none else g.fetch d j) e))

    -- Once any row of keys that are in the file has been registered, also some of them more than once, and none
    -- before them, `hsh__collect_garbage` succeeds: exactly these keys are gone, and none stays registered. The
    -- condition: gdbm_delete works for a key that is there.
    pub collect_garbage-register_all :
        (h : Hash g) (ks : List Bytes)
        → h.to_delete ≡ none
        → ((j : Bytes) → has_key j ks ≡ true → g.fetch h.db j ≢ none)
        → Collected g h ks (collect_garbage g (register_all g ks h))
    collect_garbage-register_all h ks e f =
        let h1 = register_all g ks h in
        let same : (j : Bytes) → has_key j (registered h1.to_delete) ≡ has_key j ks =
          λ j. only_new g h ks e j in
        after_registering h h1 ks (collect_garbage g h1) (register_all-db g ks h) same (
          collect_cases h1.db h1.to_delete
            (register_all-IsDistinct g ks h (nothing_registered g h e))
            (λ j p.
              subst (λ d. g.fetch d j ≢ none) (sym (register_all-db g ks h))
                (f j (sym (same j) ∙ p))))
