-- ===== src/Url/Parse/Lengths.antt =====
-- What `url__parse` of src/url.c accepts, and that it comes to an end.
use fsvs.Prelude.{
  ℕ, zero, suc, ◌+◌, ◌-◌, ◌≤◌, ◌<◌, ◌≡◌, refl, ap, ◌⊎◌, inl, inr, Bool, true, false, not, ◌&&◌,
  ◌||◌, Option, none, some, [], ◌∷◌, ltb, ◌==◌, if◌then◌else◌, Bytes, codes, length, drop, take,
  arith, strncmp_eq, split_at_first, split_at_first-join, Bool-cases, Option-cases, length-append,
}
use fsvs.Url.{Url, Seen}
use fsvs.Url.Parse.{
  Libc, Parsed, defined, refused, unfinished, to_comma, skip_commas, parse_rev, Attribute,
  name_attribute, target_attribute, prio_attribute, readonly_attribute, is_protocol, stripped,
  back_to_front, url_attribute, is_keyword, attribute, attributes, empty_url, nothing_seen,
  url_parse,
}

-- An URL that was found has at least seven characters, and its length does not go behind its text.
abbrev pub HasLength : Url → Seen → Type 0
HasLength u seen = (seen.have_url ≡ false) ⊎ ((7 ≤ u.urllen) × (u.urllen ≤ length u.url))

unfoldable IsAttribute : Attribute → Type 0
IsAttribute none = Unit
IsAttribute (some (u, seen)) = HasLength u seen

-- A value stands behind a name of `n` characters and a ":".
abbrev ValueFits : ℕ → Option Bytes → Bytes → Type 0
ValueFits n none cur = Unit
ValueFits n (some v) cur = n + 1 + length v ≤ length cur

name-IsAttribute :
    (value : Option Bytes) (u : Url) (seen : Seen)
    → seen.have_url ≡ false
    → IsAttribute (name_attribute value u seen)
unfolding name_attribute IsAttribute
name-IsAttribute none u seen h = tt
name-IsAttribute (some value) u seen h = elim (Bool-cases seen.have_name) [
  | inl e ↦ rw (e, name_attribute) tt
  | inr e ↦ elim (Bool-cases (length value == 0)) [
    | inl z ↦ rw (e, z, name_attribute) (inl h)
    | inr z ↦ rw (e, z, name_attribute) (inl h)
  ]
]

target-IsAttribute :
    (lib : Libc) (target : ℕ) (value : Option Bytes) (s : Bytes) (u : Url) (seen : Seen)
    → seen.have_url ≡ false
    → IsAttribute (target_attribute lib target value s u seen)
unfolding target_attribute IsAttribute
target-IsAttribute lib target none s u seen h = tt
target-IsAttribute lib target (some value) s u seen h =
    elim (Option-cases (parse_rev lib target s)) [
      | inl e ↦ rw (e, target_attribute) tt
      | inr ((rev, n), e) ↦
          elim (Bool-cases (seen.have_target || n == 0 || not (n == length value))) [
            | inl b ↦ rw (e, b, target_attribute) tt
            | inr b ↦ rw (e, b, target_attribute) (inl h)
          ]
    ]

prio-IsAttribute :
    (lib : Libc) (value : Option Bytes) (s : Bytes) (u : Url) (seen : Seen)
    → seen.have_url ≡ false
    → IsAttribute (prio_attribute lib value s u seen)
unfolding prio_attribute IsAttribute
prio-IsAttribute lib none s u seen h = tt
prio-IsAttribute lib (some value) s u seen h =
    elim (Bool-cases
      (seen.have_prio || (lib.strtol s).1 == 0 || not ((lib.strtol s).1 == length value))) [
        | inl b ↦ rw (b, prio_attribute) tt
        | inr b ↦ rw (b, prio_attribute) (inl h)
      ]

readonly-IsAttribute :
    (lib : Libc) (value : Option Bytes) (s : Bytes) (u : Url) (seen : Seen)
    → seen.have_url ≡ false
    → IsAttribute (readonly_attribute lib value s u seen)
unfolding readonly_attribute IsAttribute
readonly-IsAttribute lib none s u seen h = elim (Bool-cases seen.have_readonly) [
  | inl b ↦ rw (b, readonly_attribute) tt
  | inr b ↦ rw (b, readonly_attribute) (inl h)
]
readonly-IsAttribute lib (some value) s u seen h =
    elim (Bool-cases
      (seen.have_readonly || (lib.strtol s).1 == 0 || not ((lib.strtol s).1 == length value))) [
        | inl b ↦ rw (b, readonly_attribute) tt
        | inr b ↦ rw (b, readonly_attribute) (inl h)
      ]

is_protocol-length : (cur : Bytes) (n : ℕ) → is_protocol cur n ≡ true → 3 ≤ n
unfolding is_protocol
is_protocol-length cur n h = ground arith

stripped-le : (n : ℕ) (back : Bytes) → 3 ≤ n → (3 ≤ stripped n back) × (stripped n back ≤ n)
unfolding stripped
stripped-le zero back h = absurd (omega arith)
stripped-le (suc n) [] h = (h, omega arith)
stripped-le (suc n) (c ∷ back) h = elim (Bool-cases (ltb 3 (suc n) && c == b'/')) [
  | inl e ↦ let (l, m) = stripped-le n back (ground arith) in rw (e, stripped) (l, omega arith)
  | inr e ↦ rw (e, stripped) (h, omega arith)
]

length-take : (n : ℕ) (s : Bytes) → n ≤ length s → length (take n s) ≡ n
length-take zero s h = refl
length-take (suc n) [] h = absurd (omega arith)
length-take (suc n) (c ∷ s) h = omega (arith, length-take n s (omega arith))

length-if :
    (b : Bool) (k : ℕ) (cur : Bytes) → k ≤ length cur → k ≤ length (if b then cur else take k cur)
length-if true k cur h = h
length-if false k cur h = omega (arith, length-take k cur h)

url-IsAttribute :
    (cur : Bytes) (n : ℕ) (value : Option Bytes) (u : Url) (seen : Seen)
    → ValueFits n value cur
    → IsAttribute (url_attribute cur n value u seen)
unfolding url_attribute IsAttribute
url-IsAttribute cur n none u seen h = tt
url-IsAttribute cur n (some v) u seen h =
    elim (Bool-cases
      (not (is_protocol cur n) || ltb (length v) 3 || not (strncmp_eq v (codes "//") 2))) [
        | inl b ↦ rw (b, url_attribute) tt
        | inr b ↦
            let protocol : is_protocol cur n ≡ true = ground arith in
            let three : 3 ≤ length v = ground arith in
            let m = is_protocol-length cur n protocol in
            let (l, k) = stripped-le (length v) (back_to_front v []) three in
            rw (b, url_attribute)
              (inr (
                omega arith,
                length-if _ (n + 1 + stripped (length v) (back_to_front v [])) cur (omega arith),
              ))
      ]

IsAttribute-if :
    (b : Bool) (x y : Attribute) → IsAttribute x → IsAttribute y → IsAttribute (if b then x else y)
IsAttribute-if true x y h k = h
IsAttribute-if false x y h k = k

keywords-IsAttribute :
    (lib : Libc) (target : ℕ) (cur : Bytes) (n : ℕ) (value : Option Bytes) (u : Url) (seen : Seen)
    → seen.have_url ≡ false
    → ValueFits n value cur
    → let s = drop (n + 1) cur in
      IsAttribute (
        if is_keyword (codes "name") (codes "N") cur n
        then name_attribute value u seen
        else if is_keyword (codes "target") (codes "T") cur n
        then target_attribute lib target value s u seen
        else if is_keyword (codes "prio") (codes "P") cur n
        then prio_attribute lib value s u seen
        else if is_keyword (codes "readonly") (codes "ro") cur n
        then readonly_attribute lib value s u seen
        else url_attribute cur n value u seen)
keywords-IsAttribute lib target cur n value u seen h w =
    let s = drop (n + 1) cur in
    IsAttribute-if (is_keyword (codes "name") (codes "N") cur n) _ _
      (name-IsAttribute value u seen h)
      (IsAttribute-if (is_keyword (codes "target") (codes "T") cur n) _ _
        (target-IsAttribute lib target value s u seen h)
        (IsAttribute-if (is_keyword (codes "prio") (codes "P") cur n) _ _
          (prio-IsAttribute lib value s u seen h)
          (IsAttribute-if (is_keyword (codes "readonly") (codes "ro") cur n) _ _
            (readonly-IsAttribute lib value s u seen h) (url-IsAttribute cur n value u seen w))))

to_comma-length : (s : Bytes) → length (to_comma s).0 + length (to_comma s).1 ≡ length s
unfolding to_comma
to_comma-length [] = omega arith
to_comma-length (c ∷ s) = ground (arith, to_comma-length s)

split-length :
    (sep : ℕ) (s a b : Bytes)
    → split_at_first sep s ≡ some (a, b)
    → length a + 1 + length b ≡ length s
split-length sep s a b e =
    omega (arith, ap length (split_at_first-join sep s a b e), length-append {0} a (sep ∷ b))

attribute-IsAttribute :
    (lib : Libc) (target : ℕ) (cur : Bytes) (u : Url) (seen : Seen)
    → seen.have_url ≡ false
    → IsAttribute (attribute lib target cur u seen).0
unfolding attribute
attribute-IsAttribute lib target cur u seen h =
    elim (Option-cases (split_at_first b':' (to_comma cur).0)) [
      | inl e ↦
          rw (e, attribute)
            (keywords-IsAttribute lib target cur (length (to_comma cur).0) none u seen h tt)
      | inr ((name, v), e) ↦
          let l = split-length b':' (to_comma cur).0 name v e in
          let k = to_comma-length cur in
          rw (e, attribute)
            (keywords-IsAttribute lib target cur (length name) (some v) u seen h (omega arith))
    ]

skip_commas-le : (s : Bytes) → length (skip_commas s) ≤ length s
unfolding skip_commas
skip_commas-le [] = omega arith
skip_commas-le (c ∷ s) = ground (arith, skip_commas-le s)

skip_commas-to_comma : (s : Bytes) → length (skip_commas (to_comma s).1) ≤ length s - 1
unfolding skip_commas to_comma
skip_commas-to_comma [] = omega arith
skip_commas-to_comma (c ∷ s) = elim (Bool-cases (c == b',')) [
  | inl e ↦ rw (e, to_comma) (rw (e, skip_commas) (omega (arith, skip_commas-le s)))
  | inr e ↦ rw (e, to_comma) (omega (arith, skip_commas-to_comma s))
]

-- The result: an URL with its length, or a refusal; the loop comes to an end.
abbrev pub IsParsed : Parsed → Type 0
IsParsed (defined u seen) = HasLength u seen
IsParsed refused = Unit
IsParsed unfinished = ⊥

attributes-IsParsed :
    (lib : Libc) (target fuel : ℕ) (cur : Bytes) (u : Url) (seen : Seen)
    → seen.have_url ≡ false
    → length cur < fuel
    → IsParsed (attributes lib target fuel cur u seen)
unfolding attributes IsAttribute
attributes-IsParsed lib target zero cur u seen h l = absurd (omega arith)
attributes-IsParsed lib target (suc fuel) cur u seen h l =
    let w = attribute-IsAttribute lib target cur u seen h in
    let k : length (skip_commas (attribute lib target cur u seen).1) ≤ length cur - 1 =
      unfold attribute in skip_commas-to_comma cur in
    elim (Option-cases (attribute lib target cur u seen).0) [
      | inl e ↦ rw (e, attributes) tt
      | inr ((u', seen'), e) ↦
          let w' : HasLength u' seen' = rw e at w in
          elim (Bool-cases
            (seen'.have_url || length (skip_commas (attribute lib target cur u seen).1) == 0)) [
              | inl b ↦ rw (e, b, attributes) w'
              | inr b ↦
                  rw (e, b, attributes)
                    (attributes-IsParsed lib target fuel
                      (skip_commas (attribute lib target cur u seen).1) u' seen' (ground arith)
                      (ground arith))
            ]
    ]

needed_url :
    (needs_url : Bool) (r : Parsed)
    → IsParsed r
    → let q : Parsed = elim r [
      | defined u seen ↦ if needs_url && not seen.have_url then refused else defined u seen
      | refused ↦ refused
      | unfinished ↦ unfinished
    ] in
      ((u : Url) × (seen : Seen) × (q ≡ defined u seen)
        × HasLength u seen
        × ((needs_url && not seen.have_url) ≡ false))
      ⊎ (q ≡ refused)
needed_url needs_url (defined u seen) w = elim (Bool-cases (needs_url && not seen.have_url)) [
  | inl b ↦ inr (rw b refl)
  | inr b ↦ inl (u, seen, rw b refl, w, b)
]
needed_url needs_url refused w = inr refl
needed_url needs_url unfinished w = absurd w

-- Every text is refused, or gives a definition in which an URL, if there is one, has at least seven
-- characters and a length that does not go behind its text. The loop always comes to an end. If an URL is
-- needed, a definition that is accepted has one.
pub url_parse_total :
    (lib : Libc) (target : ℕ) (needs_url : Bool) (input : Bytes)
    → ((u : Url) × (seen : Seen) × (url_parse lib target needs_url input ≡ defined u seen)
        × HasLength u seen
        × ((needs_url && not seen.have_url) ≡ false))
      ⊎ (url_parse lib target needs_url input ≡ refused)
unfolding url_parse
url_parse_total lib target needs_url input =
    needed_url needs_url (attributes lib target (length input + 1) input empty_url nothing_seen) (
      attributes-IsParsed lib target (length input + 1) input empty_url nothing_seen refl
        (omega arith))
