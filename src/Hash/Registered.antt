-- ===== src/Hash/Registered.antt =====
-- The keys that are registered for the deletion at the end, and the deletion of a row of keys (hash_ops.c).
use mathlib.Core.Bool.{false≢true}
use fsvs.Prelude.{
  ℕ, ◌+◌, ◌≡◌, ◌≢◌, refl, ap, sym, subst, ◌∙◌, inl, inr, Bool, true, false, ◌||◌, none, some, List,
  [], ◌∷◌, if◌then◌else◌, Bytes, length, strcmp_eq, strcmp_eq_refl, strcmp_eq_iff, arith,
  Bool-cases, Option-cases,
}
use fsvs.Hash.{
  Gdbm, Hash, Status, ok, enoent, efbig, error, bug, remove_all, has_key, register_delete,
}

-- A row of registrations.
unfoldable pub register_all : {V : Type 0} (g : Gdbm V) → List Bytes → Hash g → Hash g
register_all g [] h = h
register_all g (k ∷ ks) h = register_all g ks (register_delete g h k)

pub or_false : (b : Bool) → (b || false) ≡ b
or_false b = ground arith

abbrev pub IsDistinct : List Bytes → Type 0
IsDistinct [] = Unit
IsDistinct (k ∷ ks) = (has_key k ks ≡ false) × IsDistinct ks

-- `has_key` sees equal keys alike.
has_key_same : (j k : Bytes) (ks : List Bytes) → strcmp_eq j k ≡ true → has_key j ks ≡ has_key k ks
has_key_same j k ks e = ap (λ t. has_key t ks) ((strcmp_eq_iff j k).0 e)

has_key_head : (k : Bytes) (ks : List Bytes) → has_key k (k ∷ ks) ≡ true
unfolding has_key
has_key_head k ks = rw (strcmp_eq_refl k) refl

has_key_tail : (j k : Bytes) (ks : List Bytes) → has_key j ks ≡ true → has_key j (k ∷ ks) ≡ true
unfolding has_key
has_key_tail j k ks p = ground arith

strcmp_eq_comm : (a b : Bytes) → strcmp_eq a b ≡ strcmp_eq b a
unfolding strcmp_eq
strcmp_eq_comm [] [] = refl
strcmp_eq_comm [] (y ∷ ys) = refl
strcmp_eq_comm (x ∷ xs) [] = refl
strcmp_eq_comm (x ∷ xs) (y ∷ ys) = ground (arith, strcmp_eq_comm xs ys)

pub has_key_known :
    (j k : Bytes) (ks : List Bytes)
    → has_key k ks ≡ true
    → has_key j ks ≡ (strcmp_eq j k || has_key j ks)
has_key_known j k ks e = elim (Bool-cases (strcmp_eq j k)) [
  | inl same ↦ rw same (has_key_same j k ks same ∙ e)
  | inr other ↦ rw other refl
]

module _ {V : Type 0} (g : Gdbm V) where
  open g use {Db, fetch, delete, fetch-delete}

  -- What is found afterwards, and how many keys were removed, if there was no error.
  abbrev pub Removed : Db → List Bytes → ℕ → Db × List Bytes × ℕ × Status → Type 0
  Removed d ks n (d', left, m, ok) =
      ((j : Bytes) → fetch d' j ≡ (if has_key j ks then none else fetch d j)) × (m ≡ n + length ks)
  Removed d ks n (d', left, m, other) = Unit

  remove_stop :
      (d : Db) (k : Bytes) (ks : List Bytes) (n : ℕ)
      → delete d k ≡ none
      → remove_all g d (k ∷ ks) n ≡ (d, k ∷ ks, n, error)
  unfolding remove_all
  remove_stop d k ks n e = rw (e, remove_all) refl

  remove_step :
      (d d' : Db) (k : Bytes) (ks : List Bytes) (n : ℕ)
      → delete d k ≡ some d'
      → remove_all g d (k ∷ ks) n ≡ remove_all g d' ks (n + 1)
  unfolding remove_all
  remove_step d d' k ks n e = rw (e, remove_all) refl

  Removed-step :
      (d d' : Db) (k : Bytes) (ks : List Bytes) (n : ℕ) (r : Db × List Bytes × ℕ × Status)
      → delete d k ≡ some d'
      → Removed d' ks (n + 1) r
      → Removed d (k ∷ ks) n r
  unfolding has_key
  Removed-step d d' k ks n (d2, left, m, ok) e (f, h) =
      (λ j. f j ∙ ground (arith, fetch-delete d d' k j e, strcmp_eq_comm k j), omega arith)
  Removed-step d d' k ks n (d2, left, m, enoent) e w = tt
  Removed-step d d' k ks n (d2, left, m, efbig) e w = tt
  Removed-step d d' k ks n (d2, left, m, error) e w = tt
  Removed-step d d' k ks n (d2, left, m, bug) e w = tt

  pub remove_all-Removed : (ks : List Bytes) (d : Db) (n : ℕ) → Removed d ks n (remove_all g d ks n)
  remove_all-Removed [] d n = unfold remove_all has_key in (λ j. refl, omega arith)
  remove_all-Removed (k ∷ ks) d n = elim (Option-cases (delete d k)) [
    | inl e ↦ subst (Removed d (k ∷ ks) n) (sym (remove_stop d k ks n e)) tt
    | inr (d', e) ↦
        subst (Removed d (k ∷ ks) n) (sym (remove_step d d' k ks n e)) (
          Removed-step d d' k ks n (remove_all g d' ks (n + 1)) e
            (remove_all-Removed ks d' (n + 1)))
  ]

  still_there :
      (d d' : Db) (k j : Bytes) (ks : List Bytes)
      → delete d k ≡ some d'
      → has_key k ks ≡ false
      → has_key j ks ≡ true
      → fetch d j ≢ none
      → fetch d' j ≢ none
  still_there d d' k j ks e h p f q = elim (Bool-cases (strcmp_eq k j)) [
    | inl same ↦ absurd (false≢true (sym h ∙ has_key_same k j ks same ∙ p))
    | inr other ↦ f (sym (fetch-delete d d' k j e ∙ rw other refl) ∙ q)
  ]

  -- Keys that are there can be deleted.
  module _
      (deletes : (d : Db) (k : Bytes) → fetch d k ≢ none → (d' : Db) × (delete d k ≡ some d')) where
    pub remove_all-ok :
        (ks : List Bytes) (d : Db) (n : ℕ)
        → IsDistinct ks
        → ((j : Bytes) → has_key j ks ≡ true → fetch d j ≢ none)
        → (remove_all g d ks n).3 ≡ ok
    remove_all-ok [] d n w f = unfold remove_all in refl
    remove_all-ok (k ∷ ks) d n (h, w) f =
        let (d', e) = deletes d k (f k (has_key_head k ks)) in
        ap (λ r. r.3) (remove_step d d' k ks n e)
        ∙ remove_all-ok ks d' (n + 1) w
            (λ j p. still_there d d' k j ks e h p (f j (has_key_tail j k ks p)))
