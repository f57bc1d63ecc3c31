-- ===== src/Actions/FindByName.antt =====
-- What `act__find_action_by_name` of src/actions.c finds.
use fsvs.Prelude.{
  ℕ, zero, suc, ◌+◌, ◌<◌, ◌≡◌, refl, ◌≢◌, ◌↔◌, ◌⊎◌, inl, inr, ap, sym, subst, ◌∙◌, Option, none,
  some, List, Bytes, length, get_elem?, get_elem?-lt, get_elem?_of_lt, arith, Option-cases,
}
use fsvs.Actions.Names.{
  NoneBegins, IsNamed, IsBegun, Means, match_names-Means, IsNamed-exact, no_match-NoneBegins,
  NoneBegins-no_match,
}
use fsvs.Actions.{
  Match, no_match, prefix, exact, match_names, found, enoent, check_matches, find_below,
  find_action_by_name,
}

Match-cases : (m : Match) → (m ≡ no_match) ⊎ (m ≡ prefix) ⊎ (m ≡ exact)
Match-cases m = ground arith

Eq-cases : (i j : ℕ) → (i ≡ j) ⊎ (i ≢ j)
Eq-cases i j = ground arith

-- What the loop makes of one index.
unfoldable pub match_at : Bytes → List (List Bytes) → ℕ → Match
match_at cmd l i = elim (get_elem? l i) [ none ↦ no_match | some names ↦ match_names cmd names ]

-- How many actions below `n` match by a beginning, and the lowest of them.
unfoldable pub prefixes : Bytes → List (List Bytes) → ℕ → ℕ
prefixes cmd l zero = 0
prefixes cmd l (suc i) =
    let rest = prefixes cmd l i in
    elim (match_at cmd l i) [ no_match ↦ rest | prefix ↦ suc rest | exact ↦ rest ]

unfoldable pub lowest : Bytes → List (List Bytes) → ℕ → ℕ → ℕ
lowest cmd l zero v = v
lowest cmd l (suc i) v = elim (match_at cmd l i) [
  | no_match ↦ lowest cmd l i v
  | prefix ↦ lowest cmd l i i
  | exact ↦ lowest cmd l i v
]

-- The last action below `n` that has the text as a name.
unfoldable pub last_exact : Bytes → List (List Bytes) → ℕ → Option ℕ
last_exact cmd l zero = none
last_exact cmd l (suc i) =
    let rest = last_exact cmd l i in
    elim (match_at cmd l i) [ no_match ↦ rest | prefix ↦ rest | exact ↦ some i ]

-- Whatever was found before, an exact match below decides; without one the counts are checked.
find_below_lem :
    (cmd : Bytes) (l : List (List Bytes)) (n v m : ℕ)
    → find_below cmd l n v m ≡ elim (last_exact cmd l n) [
      | none ↦ check_matches (lowest cmd l n v) (m + prefixes cmd l n)
      | some i ↦ found i
    ]
unfolding find_below last_exact prefixes lowest match_at
find_below_lem cmd l zero v m = ground arith
find_below_lem cmd l (suc i) v m =
    ground (arith, find_below_lem cmd l i v m, find_below_lem cmd l i i (m + 1))

prefixes_zero :
    (cmd : Bytes) (l : List (List Bytes)) (n : ℕ)
    → prefixes cmd l n ≡ 0
    → last_exact cmd l n ≡ none
    → (j : ℕ) → j < n
    → match_at cmd l j ≡ no_match
unfolding prefixes last_exact
prefixes_zero cmd l zero h k j j<n = absurd (omega arith)
prefixes_zero cmd l (suc i) h k j j<n = elim (Match-cases (match_at cmd l i)) [
  | inl e ↦ elim (Eq-cases j i) [
    | inl q ↦ rw (q, e) refl
    | inr q ↦ prefixes_zero cmd l i (ground arith) (ground arith) j (omega arith)
  ]
  | inr (inl e) ↦ absurd (ground arith)
  | inr (inr e) ↦ absurd (ground arith)
]

lowest_zero :
    (cmd : Bytes) (l : List (List Bytes)) (n v : ℕ) → prefixes cmd l n ≡ 0 → lowest cmd l n v ≡ v
unfolding prefixes lowest
lowest_zero cmd l zero v h = refl
lowest_zero cmd l (suc i) v h = ground (arith, lowest_zero cmd l i v)

prefixes_one :
    (cmd : Bytes) (l : List (List Bytes)) (n v : ℕ)
    → prefixes cmd l n ≡ 1
    → last_exact cmd l n ≡ none
    → (lowest cmd l n v < n)
      × (match_at cmd l (lowest cmd l n v) ≡ prefix)
      × ((j : ℕ) → j < n → j ≢ lowest cmd l n v → match_at cmd l j ≡ no_match)
unfolding prefixes last_exact lowest
prefixes_one cmd l zero v h k = absurd (omega (arith, h))
prefixes_one cmd l (suc i) v h k = elim (Match-cases (match_at cmd l i)) [
  | inl e ↦
      let (lt, p, u) = prefixes_one cmd l i v (ground arith) (ground arith) in
      rw (e, lowest)
        (
          omega (arith, lt),
          p,
          λ j j<n ne. elim (Eq-cases j i) [ inl q ↦ rw (q, e) refl | inr q ↦ u j (omega arith) ne ],
        )
  | inr (inl e) ↦
      let same = lowest_zero cmd l i i (ground arith) in
      rw (e, lowest, same)
        (
          omega arith,
          e,
          λ j j<n ne. prefixes_zero cmd l i (ground arith) (ground arith) j (omega arith),
        )
  | inr (inr e) ↦ absurd (ground arith)
]

last_exact-some :
    (cmd : Bytes) (l : List (List Bytes)) (n : ℕ) {i : ℕ}
    → last_exact cmd l n ≡ some i
    → (i < n) × (match_at cmd l i ≡ exact) × ((j : ℕ) → i < j → j < n → match_at cmd l j ≢ exact)
unfolding last_exact
last_exact-some cmd l zero h = cc
last_exact-some cmd l (suc n) {i} h = elim (Match-cases (match_at cmd l n)) [
  | inl e ↦
      let (lt, x, u) = last_exact-some cmd l n {i = i} (ground arith) in
      (
        omega arith,
        x,
        λ j i<j j<n q. elim (Eq-cases j n) [ inl r ↦ cc | inr r ↦ u j i<j (omega arith) q ],
      )
  | inr (inl e) ↦
      let (lt, x, u) = last_exact-some cmd l n {i = i} (ground arith) in
      (
        omega arith,
        x,
        λ j i<j j<n q. elim (Eq-cases j n) [ inl r ↦ cc | inr r ↦ u j i<j (omega arith) q ],
      )
  | inr (inr e) ↦ (ground arith, ground arith, λ j i<j j<n q. absurd (ground arith))
]

match_at_of :
    (cmd : Bytes) (l : List (List Bytes)) (i : ℕ) {names : List Bytes}
    → get_elem? l i ≡ some names
    → match_at cmd l i ≡ match_names cmd names
unfolding match_at
match_at_of cmd l i e = rw (e, match_at) refl

-- The names of the action at an index, and what a result of the comparison means for them.
match_at-Means :
    (cmd : Bytes) (l : List (List Bytes)) (i : ℕ) (m : Match)
    → i < length l
    → match_at cmd l i ≡ m
    → (names : List Bytes) × (get_elem? l i ≡ some names) × Means cmd names m
match_at-Means cmd l i m lt e =
    let (names, at_i) = get_elem?_of_lt l i lt in
    (
      names,
      at_i,
      subst (Means cmd names) (sym (match_at_of cmd l i at_i) ∙ e) (match_names-Means cmd names),
    )

-- The last action that is named by the text.
abbrev pub IsLastNamed : Bytes → List (List Bytes) → ℕ → Type 0
IsLastNamed cmd l i =
    ((names : List Bytes) × (get_elem? l i ≡ some names) × IsNamed cmd names)
    × ((j : ℕ) (names : List Bytes) → i < j → get_elem? l j ≡ some names → ¬ IsNamed cmd names)

-- The only action that has a name beginning with the text, which is not the text.
abbrev pub IsOnly : Bytes → List (List Bytes) → ℕ → Type 0
IsOnly cmd l i =
    ((names : List Bytes) × (get_elem? l i ≡ some names) × IsBegun cmd names)
    × ((j : ℕ) (names : List Bytes) → j ≢ i → get_elem? l j ≡ some names → NoneBegins cmd names)

later_not-IsNamed :
    (cmd : Bytes) (l : List (List Bytes)) (i : ℕ)
    → ((j : ℕ) → i < j → j < length l → match_at cmd l j ≢ exact)
    → (j : ℕ) (names : List Bytes) → i < j
    → get_elem? l j ≡ some names
    → ¬ IsNamed cmd names
later_not-IsNamed cmd l i u j names lt at_j (front, back, e, w) =
    u j lt (get_elem?-lt l j at_j)
      (match_at_of cmd l j at_j ∙ ap (match_names cmd) e ∙ IsNamed-exact cmd front back w)

others_not_begun :
    (cmd : Bytes) (l : List (List Bytes)) (i : ℕ)
    → ((j : ℕ) → j < length l → j ≢ i → match_at cmd l j ≡ no_match)
    → (j : ℕ) (names : List Bytes) → j ≢ i
    → get_elem? l j ≡ some names
    → NoneBegins cmd names
others_not_begun cmd l i u j names ne at_j =
    subst (Means cmd names) (sym (match_at_of cmd l j at_j) ∙ u j (get_elem?-lt l j at_j) ne)
      (match_names-Means cmd names)

-- act__find_action_by_name gives an index of the list: either the last action for which the first of its names that
-- begin with the text is the text itself, or an action for which this name is longer than the text, while no other
-- action has a name that begins with the text.
pub find_action_by_name-found :
    (l : List (List Bytes)) (cmd : Bytes) {i : ℕ}
    → find_action_by_name l cmd ≡ found i
    → (i < length l) × (IsLastNamed cmd l i ⊎ IsOnly cmd l i)
unfolding find_action_by_name check_matches
find_action_by_name-found l cmd {i} h = elim (Option-cases (last_exact cmd l (length l))) [
  | inl e ↦
      let k : check_matches (lowest cmd l (length l) 0) (0 + prefixes cmd l (length l)) ≡ found i =
        ground (arith, find_below_lem cmd l (length l) 0 0) in
      let (lt, p, u) = prefixes_one cmd l (length l) 0 (ground arith) e in
      let same : lowest cmd l (length l) 0 ≡ i = ground arith in
      let lt' = rw same at lt in
      (
        lt',
        inr (
          match_at-Means cmd l i prefix lt' (rw same at p),
          others_not_begun cmd l i (rw same at u),
        ),
      )
  | inr (x, e) ↦
      let (lt, p, u) = last_exact-some cmd l (length l) {i = x} e in
      let same : x ≡ i = ground (arith, find_below_lem cmd l (length l) 0 0) in
      let lt' = rw same at lt in
      (
        lt',
        inl (
          match_at-Means cmd l i exact lt' (rw same at p),
          later_not-IsNamed cmd l i (rw same at u),
        ),
      )
]

prefixes-none :
    (cmd : Bytes) (l : List (List Bytes)) (n : ℕ)
    → ((j : ℕ) → j < n → match_at cmd l j ≡ no_match)
    → (prefixes cmd l n ≡ 0) × (last_exact cmd l n ≡ none)
unfolding prefixes last_exact
prefixes-none cmd l zero h = (refl, refl)
prefixes-none cmd l (suc i) h =
    let (p, q) = prefixes-none cmd l i (λ j j<i. h j (omega arith)) in
    (ground (arith, h i (omega arith)), ground (arith, h i (omega arith)))

-- act__find_action_by_name reports ENOENT exactly if no name of any action begins with the text.
pub find_action_by_name-enoent :
    (l : List (List Bytes)) (cmd : Bytes)
    → (find_action_by_name l cmd ≡ enoent)
      ↔ ((j : ℕ) (names : List Bytes) → get_elem? l j ≡ some names → NoneBegins cmd names)
unfolding find_action_by_name check_matches
find_action_by_name-enoent l cmd =
    let at_end = find_below_lem cmd l (length l) 0 0 in
    (
      λ h j names at_j.
          let no_exact : last_exact cmd l (length l) ≡ none = ground arith in
          let no_prefix : prefixes cmd l (length l) ≡ 0 = ground arith in
          no_match-NoneBegins cmd names (
            sym (match_at_of cmd l j at_j)
            ∙ prefixes_zero cmd l (length l) no_prefix no_exact j (get_elem?-lt l j at_j)),
      λ h.
          let (p, q) = prefixes-none cmd l (length l) (λ j j<n.
            let (names, at_j) = get_elem?_of_lt l j j<n in
            match_at_of cmd l j at_j ∙ NoneBegins-no_match cmd names (h j names at_j)) in
          ground arith,
    )
