-- ===== src/Hash/Stored.antt =====
-- The list that is stored under a key of a hash file for a row of values (hash_ops.c).
use fsvs.Prelude.{
  ℕ, zero, suc, ◌+◌, ◌≤◌, ◌<◌, ◌≡◌, ◌≢◌, refl, ap, sym, subst, ◌∙◌, inl, inr, false, Option, none,
  some, List, [], ◌∷◌, ◌++◌, ltb, ◌==◌, if◌then◌else◌, Bytes, length, length-append, take,
  strcmp_eq, strcmp_eq_iff, ==_iff, ne→==, lt→ltb, le→ltb, arith, Bool-cases, ltb→lt, ltb→le,
}
use fsvs.Hash.{
  Gdbm, Status, ok, efbig, list_max, PointerList, stored, with_pointer, insert_into, insert_found,
  insert_pointer,
}

-- What is stored for a row of values.
abbrev pub stored_list : List ℕ → Option PointerList
stored_list [] = none
stored_list (v ∷ vs) = some (record {
  count = if ltb list_max (length (v ∷ vs)) then list_max + 1 else length (v ∷ vs);
  entries = take list_max (v ∷ vs);
})

take_short : (n : ℕ) (xs ys : List ℕ) → n ≤ length xs → take n (xs ++ ys) ≡ take n xs
take_short zero xs ys h = refl
take_short (suc n) [] ys h = absurd (omega arith)
take_short (suc n) (x ∷ xs) ys h = ap (λ t. x ∷ t) (take_short n xs ys (omega arith))

pub take_long : (n : ℕ) (xs : List ℕ) → length xs ≤ n → take n xs ≡ xs
take_long zero [] h = refl
take_long zero (x ∷ xs) h = absurd (omega arith)
take_long (suc n) [] h = refl
take_long (suc n) (x ∷ xs) h = ap (λ t. x ∷ t) (take_long n xs (omega arith))

-- Whether a call has stored the list, or refused the pointer and changed nothing.
abbrev pub WentOn : Status → Type 0
WentOn ok = Unit
WentOn efbig = Unit
WentOn other = ⊥

-- The record for a row of values that is not empty.
abbrev list_of : List ℕ → PointerList
list_of vs = record {
  count = if ltb list_max (length vs) then list_max + 1 else length vs;
  entries = take list_max vs;
}

stored_list-append :
    (v : ℕ) (vs : List ℕ) (value : ℕ)
    → stored_list ((v ∷ vs) ++ value ∷ []) ≡ some (list_of ((v ∷ vs) ++ value ∷ []))
stored_list-append v vs value = refl

-- The three ways to go on with a list that is there.
full_list :
    (vs : List ℕ) (value : ℕ)
    → length vs ≡ list_max
    → record (list_of vs) { count = (list_of vs).count + 1 } ≡ list_of (vs ++ value ∷ [])
full_list vs value h =
    ground (arith, length-append vs (value ∷ []), take_short list_max vs (value ∷ []) (omega arith))

overflown_list :
    (vs : List ℕ) (value : ℕ) → list_max < length vs → list_of vs ≡ list_of (vs ++ value ∷ [])
overflown_list vs value h =
    ground (arith, length-append vs (value ∷ []), take_short list_max vs (value ∷ []) (omega arith))

longer_list :
    (vs : List ℕ) (value : ℕ)
    → length vs < list_max
    → with_pointer (list_of vs) value ≡ list_of (vs ++ value ∷ [])
longer_list vs value h = ground (
  arith,
  length-append vs (value ∷ []),
  take_long list_max vs (omega arith),
  take_long list_max (vs ++ value ∷ []) (omega (arith, length-append vs (value ∷ []))),
)

overflown_count : (vs : List ℕ) → list_max < length vs → list_max < (list_of vs).count
overflown_count vs h = ground arith

short_count : (vs : List ℕ) → length vs ≤ list_max → (list_of vs).count ≡ length vs
short_count vs h = ground arith

pub below :
    (vs : List ℕ)
    → ltb list_max (length vs) ≡ false
    → (length vs == list_max) ≡ false
    → length vs < list_max
below vs h k = ground arith

not_full : (n : ℕ) → n ≡ list_max → (n == list_max) ≢ false
not_full n h e = ground arith

module _ (g : Gdbm PointerList) (d : g.Db) (key j : Bytes) where
  open g use {Db, fetch, store, fetch-store}

  -- What is found afterwards, if the call went on.
  abbrev Finds : Option PointerList → Db × Status → Type 0
  Finds l (d', s) = WentOn s → fetch d' j ≡ (if strcmp_eq key j then l else fetch d j)

  Finds-store :
      (l : PointerList) (o : Option Db) → store d key l ≡ o → Finds (some l) (stored g d o)
  Finds-store l none e w = absurd w
  Finds-store l (some d2) e w = fetch-store d d2 key j l e

  Finds-kept : (l : Option PointerList) → fetch d key ≡ l → Finds l (d, efbig)
  Finds-kept l e w = elim (Bool-cases (strcmp_eq key j)) [
    | inl same ↦ rw same (subst (λ k. fetch d k ≡ l) ((strcmp_eq_iff key j).0 same) e)
    | inr other ↦ rw other refl
  ]

  into_full :
      (l : PointerList) (value : ℕ)
      → l.count ≡ list_max
      → Finds (some (record l { count = l.count + 1 })) (insert_into g d key l value)
  unfolding insert_into
  into_full l value h = elim (Bool-cases (l.count == list_max)) [
    | inl e ↦ rw e (Finds-store _ _ refl)
    | inr e ↦ absurd (not_full l.count h e)
  ]

  into_overflown :
      (l : PointerList) (value : ℕ)
      → list_max < l.count
      → fetch d key ≡ some l
      → Finds (some l) (insert_into g d key l value)
  unfolding insert_into
  into_overflown l value h e =
      rw (ne→== l.count list_max (λ q. absurd (omega arith)), lt→ltb list_max l.count h)
        (Finds-kept (some l) e)

  into_longer :
      (l : PointerList) (value : ℕ)
      → l.count < list_max
      → Finds (some (with_pointer l value)) (insert_into g d key l value)
  unfolding insert_into
  into_longer l value h =
      rw (ne→== l.count list_max (λ q. absurd (omega arith)), le→ltb list_max l.count (omega arith))
        (Finds-store _ _ refl)

  -- The new list is that of one more value, in each of the three cases.
  abbrev Goes : List ℕ → ℕ → PointerList → Type 0
  Goes vs value l = Finds (some l) (insert_into g d key (list_of vs) value)

  insert_into-Finds :
      (vs : List ℕ) (value : ℕ)
      → fetch d key ≡ some (list_of vs)
      → Finds (some (list_of (vs ++ value ∷ []))) (insert_into g d key (list_of vs) value)
  insert_into-Finds vs value e = elim (Bool-cases (ltb list_max (length vs))) [
    | inl more ↦
        subst (Goes vs value) (overflown_list vs value (ltb→lt list_max (length vs) more)) (
          into_overflown (list_of vs) value (overflown_count vs (ltb→lt list_max (length vs) more))
            e)
    | inr few ↦ elim (Bool-cases (length vs == list_max)) [
      | inl full ↦
          subst (Goes vs value) (full_list vs value ((==_iff (length vs) list_max).0 full)) (
            into_full (list_of vs) value (
              short_count vs (ltb→le list_max (length vs) few)
              ∙ (==_iff (length vs) list_max).0 full))
      | inr room ↦ subst (Goes vs value) (longer_list vs value (below vs few room)) (
          into_longer (list_of vs) value
            (omega (arith, short_count vs (ltb→le list_max (length vs) few), below vs few room)))
    ]
  ]

  pub insert_pointer-Finds :
      (value : ℕ) (vs : List ℕ)
      → fetch d key ≡ stored_list vs
      → Finds (stored_list (vs ++ value ∷ [])) (insert_pointer g d key value)
  unfolding insert_pointer
  insert_pointer-Finds value [] e =
      subst (λ o. Finds (stored_list (value ∷ [])) (insert_found g d key value o)) (sym e)
        (Finds-store _ _ refl)
  insert_pointer-Finds value (v ∷ vs) e =
      subst (λ o. Finds (stored_list ((v ∷ vs) ++ value ∷ [])) (insert_found g d key value o))
        (sym e) (insert_into-Finds (v ∷ vs) value e)
