-- ===== src/EstOps/Line/UrlOf.antt =====
-- The URL of an entry that is loaded, without the search by which it is found.
use fsvs.Prelude.{
  ℕ, suc, ◌+◌, ◌≡◌, ◌≢◌, refl, ap, ◌∙◌, ◌⊎◌, inl, inr, true, false, Option, none, some, List, [],
  ◌∷◌, ◌++◌, ◌==◌, length, get_elem?, arith, All, Bool-cases,
}
use fsvs.Url.{Url, intnum, number_is, first_index, find_by_intnum}
use fsvs.EstOps.Line.{Result, ok, eaddrnotavail}
use fsvs.EstOps.Line.Entry.{last_url, found_url, url_of}

-- The root has the last URL of the list, if there is one.
abbrev pub IsLast : List Url → Result (Option Url) → Type 0
IsLast urls r =
    ((urls ≡ []) × (r ≡ ok none))
    ⊎ ((front : List Url) × (u : Url) × (urls ≡ front ++ u ∷ []) × (r ≡ ok (some u)))

-- No URL with the number gives EADDRNOTAVAIL; otherwise it is the first one.
abbrev pub IsFirst : List Url → ℕ → Result (Option Url) → Type 0
IsFirst urls n r =
    (All (λ u. intnum u.internal_number ≢ n) urls × (r ≡ eaddrnotavail))
    ⊎ ((front : List Url) × (u : Url) × (back : List Url) × (urls ≡ front ++ u ∷ back)
        × All (λ v. intnum v.internal_number ≢ n) front
        × (intnum u.internal_number ≡ n)
        × (r ≡ ok (some u)))

-- What a line with the parent and the number gives to an entry with the URL `old`: the root is the entry without a
-- parent, and the number 0 leaves the URL.
abbrev pub IsUrl : List Url → Option Url → ℕ → ℕ → Result (Option Url) → Type 0
IsUrl urls old parent n r =
    ((parent ≡ 0) × IsLast urls r)
    ⊎ ((parent ≢ 0) × (n ≡ 0) × (r ≡ ok old))
    ⊎ ((parent ≢ 0) × (n ≢ 0) × IsFirst urls n r)

IsLast-later :
    (u : Url) (us : List Url) (o : Option Url) → us ≢ [] → IsLast us (ok o) → IsLast (u ∷ us) (ok o)
IsLast-later u us o h (inl (e, r)) = absurd (h e)
IsLast-later u us o h (inr (front, v, e, r)) = inr (u ∷ front, v, ap (λ t. u ∷ t) e, r)

last_url-IsLast : (urls : List Url) → IsLast urls (ok (last_url urls))
unfolding last_url
last_url-IsLast [] = inl (refl, refl)
last_url-IsLast (u ∷ []) = inr ([], u, refl, refl)
last_url-IsLast (u ∷ v ∷ us) =
    IsLast-later u (v ∷ us) (last_url (v ∷ us)) (λ e. cc) (last_url-IsLast (v ∷ us))

-- Where the search by a number comes to, from the index `k` on.
abbrev Searched : List Url → ℕ → ℕ → Option ℕ → Type 0
Searched us n k o =
    (All (λ u. intnum u.internal_number ≢ n) us × (o ≡ none))
    ⊎ ((front : List Url) × (u : Url) × (back : List Url) × (us ≡ front ++ u ∷ back)
        × All (λ v. intnum v.internal_number ≢ n) front
        × (intnum u.internal_number ≡ n)
        × (o ≡ some (k + length front)))

is_other : (a b : ℕ) → (a == b) ≡ false → a ≢ b
is_other a b h e = ground arith

is_same : (a b : ℕ) → (a == b) ≡ true → a ≡ b
is_same a b h = ground arith

Searched-later :
    (u : Url) (us : List Url) (n k : ℕ) (o : Option ℕ)
    → intnum u.internal_number ≢ n
    → Searched us n (k + 1) o
    → Searched (u ∷ us) n k o
Searched-later u us n k o h (inl (w, e)) = inl ((h, w), e)
Searched-later u us n k o h (inr (front, v, back, e, w, s, r)) = inr (
  u ∷ front,
  v,
  back,
  ap (λ t. u ∷ t) e,
  (h, w),
  s,
  r ∙ ap (λ (i : ℕ). some i) {y = k + suc (length front)} (omega arith),
)

first_index-Searched : (us : List Url) (n k : ℕ) → Searched us n k (first_index (number_is n) us k)
unfolding first_index
first_index-Searched [] n k = inl (tt, refl)
first_index-Searched (u ∷ us) n k = elim (Bool-cases (intnum u.internal_number == n)) [
  | inl e ↦ rw e (
      inr (
        [],
        u,
        us,
        refl,
        tt,
        is_same (intnum u.internal_number) n e,
        ap (λ (i : ℕ). some i) {y = k + 0} (omega arith),
      ))
  | inr e ↦ rw e (
      Searched-later u us n k (first_index (number_is n) us (k + 1))
        (is_other (intnum u.internal_number) n e) (first_index-Searched us n (k + 1)))
]

get_elem?-append :
    (front back : List Url) (u : Url) → get_elem? (front ++ u ∷ back) (length front) ≡ some u
get_elem?-append [] back u = refl
get_elem?-append (v ∷ front) back u = get_elem?-append front back u

Searched-IsFirst :
    (us : List Url) (n : ℕ) (o : Option ℕ) → Searched us n 0 o → IsFirst us n (found_url us o)
Searched-IsFirst us n o (inl (w, e)) = inl (w, ap (found_url us) e)
Searched-IsFirst us n o (inr (front, u, back, e, w, s, r)) = inr (
  front,
  u,
  back,
  e,
  w,
  s,
  ap (found_url us) r
      ∙ ap (λ (i : ℕ). found_url us (some i)) {y = length front} (omega arith)
      ∙ ap (λ t. ok (get_elem? t (length front))) e
      ∙ ap ok (get_elem?-append front back u),
)

pub url_of-IsUrl :
    (urls : List Url) (old : Option Url) (parent n : ℕ)
    → IsUrl urls old parent n (url_of urls old parent n)
unfolding url_of find_by_intnum
url_of-IsUrl urls old parent n = elim (Bool-cases (parent == 0)) [
  | inl e ↦ rw e (inl (is_same parent 0 e, last_url-IsLast urls))
  | inr e ↦ elim (Bool-cases (n == 0)) [
    | inl f ↦ rw (e, f) (inr (inl (is_other parent 0 e, is_same n 0 f, refl)))
    | inr f ↦
        rw (e, f)
          (inr (
            inr (
              is_other parent 0 e,
              is_other n 0 f,
              Searched-IsFirst urls n (first_index (number_is n) urls 0)
                  (first_index-Searched urls n 0),
            )))
  ]
]
