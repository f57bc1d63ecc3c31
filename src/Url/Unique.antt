-- ===== src/Url/Unique.antt =====
-- `url__insert_or_replace` of src/url.c: what stays unique in the list of URLs.
use fsvs.Prelude.{
  ℕ, zero, suc, ◌+◌, ◌≡◌, refl, sym, ap, ◌∙◌, ◌≢◌, ◌⊎◌, inl, inr, true, false, ◌&&◌, Option, none,
  some, List, [], ◌∷◌, ◌++◌, map, arith, if◌then◌else◌, length, Bytes, strcmp_eq, strcmp_eq_refl,
  Bool-cases, All, get_elem?,
}
use fsvs.Url.{
  Url, Seen, ok, einval, eaddrinuse, first_index, find_by_name, find_by_url, overwrite,
  overwrite_at, insert_found, insert_or_replace, is_some,
}

-- No two texts of the list are equal.
abbrev pub Distinct : List Bytes → Type 0
Distinct [] = Unit
Distinct (x ∷ xs) = All (λ y. strcmp_eq x y ≡ false) xs × Distinct xs

abbrev pub urls_of : List Url → List Bytes
urls_of us = map (λ u. u.url) us

All-snoc :
    (P : Bytes → Type 0) (us : List Url) (t : Url)
    → All P (urls_of us)
    → P t.url
    → All P (urls_of (us ++ t ∷ []))
All-snoc P [] t h k = (k, tt)
All-snoc P (u ∷ us) t h k = (h.0, All-snoc P us t h.1 k)

Distinct-snoc :
    (us : List Url) (t : Url) (i : ℕ)
    → Distinct (urls_of us)
    → first_index (λ u. strcmp_eq u.url t.url) us i ≡ none
    → Distinct (urls_of (us ++ t ∷ []))
unfolding first_index
Distinct-snoc [] t i h n = (tt, tt)
Distinct-snoc (u ∷ us) t i h n = elim (Bool-cases (strcmp_eq u.url t.url)) [
  | inl e ↦ absurd (ground arith)
  | inr e ↦ (
    All-snoc (λ y. strcmp_eq u.url y ≡ false) us t h.0 e,
    Distinct-snoc us t (i + 1) h.1 (ground arith),
  )
]

urls_of-overwrite_at :
    (seen : Seen) (t : Url) (us : List Url) (i : ℕ)
    → urls_of (overwrite_at seen t us i) ≡ urls_of us
unfolding overwrite_at overwrite
urls_of-overwrite_at seen t [] i = refl
urls_of-overwrite_at seen t (u ∷ us) zero = refl
urls_of-overwrite_at seen t (u ∷ us) (suc i) =
    ap (λ l. u.url ∷ l) (urls_of-overwrite_at seen t us i)

insert_found-Distinct :
    (seen : Seen) (target : Url) (by_name dupl : Option ℕ) (us : List Url)
    → Distinct (urls_of us)
    → (dupl ≡ none → seen.have_url ≡ true → find_by_url target.url us ≡ none)
    → Distinct (urls_of (insert_found seen target by_name dupl us).urls)
unfolding insert_found
insert_found-Distinct seen target by_name (some i) us h new =
    rw (urls_of-overwrite_at seen target us i) h
insert_found-Distinct seen target by_name none us h new = elim (Bool-cases seen.have_url) [
  | inr missing ↦ rw missing h
  | inl given ↦ elim (Bool-cases (seen.have_name && is_some by_name)) [
    | inl taken ↦ rw (given, taken) h
    | inr free ↦
        rw (given, free) (Distinct-snoc us target 0 h (unfold find_by_url in new refl given))
  ]
]

-- The URLs of the list stay distinct, whether url__insert_or_replace appends the definition,
-- overwrites an entry or refuses it.
pub insert_or_replace-Distinct :
    (seen : Seen) (target : Url) (us : List Url)
    → Distinct (urls_of us)
    → Distinct (urls_of (insert_or_replace seen target us).urls)
unfolding insert_or_replace
insert_or_replace-Distinct seen target us h =
    insert_found-Distinct seen target _ _ us h (λ e given. rw given at e)

first_index-snoc :
    (url : Bytes) (us : List Url) (t : Url) (k : ℕ)
    → strcmp_eq t.url url ≡ true
    → first_index (λ u. strcmp_eq u.url url) us k ≡ none
    → first_index (λ u. strcmp_eq u.url url) (us ++ t ∷ []) k ≡ some (k + length us)
unfolding first_index
first_index-snoc url [] t k h n = ground arith
first_index-snoc url (u ∷ us) t k h n = ground (arith, first_index-snoc url us t (k + 1))

first_index-overwrite_at :
    (url : Bytes) (seen : Seen) (t : Url) (us : List Url) (i k : ℕ)
    → first_index (λ u. strcmp_eq u.url url) (overwrite_at seen t us i) k
      ≡ first_index (λ u. strcmp_eq u.url url) us k
unfolding first_index overwrite_at overwrite
first_index-overwrite_at url seen t [] i k = refl
first_index-overwrite_at url seen t (u ∷ us) zero k = refl
first_index-overwrite_at url seen t (u ∷ us) (suc i) k =
    ground (arith, first_index-overwrite_at url seen t us i (k + 1))

insert_found-find :
    (seen : Seen) (target : Url) (by_name dupl : Option ℕ) (us : List Url)
    → seen.have_url ≡ true
    → find_by_url target.url us ≡ dupl
    → (insert_found seen target by_name dupl us).status ≡ ok
    → find_by_url target.url (insert_found seen target by_name dupl us).urls
      ≡ some (insert_found seen target by_name dupl us).storage
unfolding insert_found find_by_url
insert_found-find seen target by_name (some i) us given f h =
    first_index-overwrite_at target.url seen target us i 0 ∙ f
insert_found-find seen target by_name none us given f h =
    ground (arith, first_index-snoc target.url us target 0, strcmp_eq_refl target.url)

-- A definition with an URL that url__insert_or_replace accepts is found under that URL afterwards, at
-- the place that it gives back.
pub find-insert_or_replace :
    (seen : Seen) (target : Url) (us : List Url)
    → seen.have_url ≡ true
    → (insert_or_replace seen target us).status ≡ ok
    → find_by_url target.url (insert_or_replace seen target us).urls
      ≡ some (insert_or_replace seen target us).storage
unfolding insert_or_replace
find-insert_or_replace seen target us given h =
    insert_found-find seen target _ _ us given (rw given refl) h

-- Where url__insert_or_replace fails the list stays as it was, and the reason is one of two: no URL is
-- given and the name is missing or unknown (EINVAL), or an URL that is not in the list comes with a
-- name that is (EADDRINUSE).
pub insert_or_replace_error :
    (seen : Seen) (target : Url) (us : List Url)
    → let r = insert_or_replace seen target us in
      let by_name = if seen.have_name then find_by_name target.name us else none in
      (r.status ≡ ok)
      ⊎ ((r.urls ≡ us) × (r.status ≡ einval) × (seen.have_url ≡ false) × (by_name ≡ none))
      ⊎ ((r.urls ≡ us)
          × (r.status ≡ eaddrinuse)
          × (find_by_url target.url us ≡ none)
          × (is_some by_name ≡ true))
unfolding insert_or_replace
insert_or_replace_error seen target us = ground arith

overwrite_at_self :
    (seen : Seen) (t : Url) (us : List Url) (i : ℕ) (u : Url)
    → get_elem? us i ≡ some u
    → get_elem? (overwrite_at seen t us i) i ≡ some (overwrite seen t u)
unfolding overwrite_at
overwrite_at_self seen t [] i u h = cc
overwrite_at_self seen t (v ∷ us) zero u h = ground arith
overwrite_at_self seen t (v ∷ us) (suc i) u h = overwrite_at_self seen t us i u h

overwrite_at-other :
    (seen : Seen) (t : Url) (us : List Url) (i j : ℕ)
    → i ≢ j
    → get_elem? (overwrite_at seen t us i) j ≡ get_elem? us j
unfolding overwrite_at
overwrite_at-other seen t [] i j h = refl
overwrite_at-other seen t (v ∷ us) zero zero h = absurd (h refl)
overwrite_at-other seen t (v ∷ us) zero (suc j) h = refl
overwrite_at-other seen t (v ∷ us) (suc i) zero h = refl
overwrite_at-other seen t (v ∷ us) (suc i) (suc j) h =
    overwrite_at-other seen t us i j (λ e. h (ap suc e))

-- Names do not stay unique: a definition whose URL is in the list and whose name belongs to another
-- entry is accepted, and afterwards two entries have the name.
pub insert_or_replace-name_twice :
    (seen : Seen) (target : Url) (us : List Url) (i j : ℕ) (u v : Url)
    → seen.have_url ≡ true
    → seen.have_name ≡ true
    → find_by_url target.url us ≡ some i
    → get_elem? us i ≡ some u
    → get_elem? us j ≡ some v
    → i ≢ j
    → v.name ≡ target.name
    → let r = insert_or_replace seen target us in
      (r.status ≡ ok)
      × (get_elem? r.urls j ≡ some v)
      × ((w : Url) × (get_elem? r.urls i ≡ some w) × (w.name ≡ v.name))
unfolding insert_or_replace overwrite
insert_or_replace-name_twice seen target us i j u v given named found at_i at_j ne same =
    simp (given, found)
      (
        refl,
        overwrite_at-other seen target us i j ne ∙ at_j,
        (overwrite seen target u, overwrite_at_self seen target us i u at_i, rw named (sym same)),
      )
