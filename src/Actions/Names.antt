-- ===== src/Actions/Names.antt =====
-- What the loop over the names of one action in `act__find_action_by_name` (src/actions.c) finds.
use mathlib.Core.Bool.{false≢true}
use mathlib.Core.List.{append-nil}
use fsvs.Prelude.{
  ℕ, ◌≡◌, refl, inl, inr, All, ap, sym, subst, ◌∙◌, ◌++◌, ◌==◌, if◌then◌else◌, ==_refl, ne→==,
  length-append, strncmp_eq-prefix, strncmp_eq_of_prefix, Bool-cases, false, List, [], ◌∷◌, Bytes,
  length, strncmp_eq, arith,
}
use fsvs.Actions.{Match, no_match, prefix, exact, match_names}

-- What the names of an action have to do with the text, which is compared with one name after the other up to the first
-- that begins with it: none begins with it, that one is the text itself, or it goes on behind it.
abbrev pub Begins : Bytes → Bytes → Type 0
Begins cmd cp = (rest : Bytes) × (cp ≡ cmd ++ rest)

abbrev pub NoneBegins : Bytes → List Bytes → Type 0
NoneBegins cmd names = All (λ cp. ¬ Begins cmd cp) names

abbrev pub IsNamed : Bytes → List Bytes → Type 0
IsNamed cmd names =
    (front : List Bytes) × (back : List Bytes) × (names ≡ front ++ cmd ∷ back)
    × NoneBegins cmd front

abbrev pub IsBegun : Bytes → List Bytes → Type 0
IsBegun cmd names =
    (front : List Bytes) × (back : List Bytes) × (c : ℕ) × (rest : Bytes) × (names
      ≡ front ++ (cmd ++ c ∷ rest) ∷ back)
    × NoneBegins cmd front

abbrev pub Means : Bytes → List Bytes → Match → Type 0
Means cmd names no_match = NoneBegins cmd names
Means cmd names prefix = IsBegun cmd names
Means cmd names exact = IsNamed cmd names

Means-later :
    (cmd cp : Bytes) (names : List Bytes) (m : Match)
    → ¬ Begins cmd cp
    → Means cmd names m
    → Means cmd (cp ∷ names) m
Means-later cmd cp names no_match h w = (h, w)
Means-later cmd cp names prefix h (front, back, c, rest, e, w) =
    (cp ∷ front, back, c, rest, ap (λ t. cp ∷ t) e, (h, w))
Means-later cmd cp names exact h (front, back, e, w) =
    (cp ∷ front, back, ap (λ t. cp ∷ t) e, (h, w))

not_begun : (cmd cp : Bytes) → strncmp_eq cp cmd (length cmd) ≡ false → ¬ Begins cmd cp
not_begun cmd cp h (rest, e) =
    false≢true (sym h ∙ ap (λ t. strncmp_eq t cmd (length cmd)) e ∙ strncmp_eq_of_prefix cmd rest)

match_names_skip :
    (cmd cp : Bytes) (names : List Bytes)
    → strncmp_eq cp cmd (length cmd) ≡ false
    → match_names cmd (cp ∷ names) ≡ match_names cmd names
unfolding match_names
match_names_skip cmd cp names h = rw h refl

match_names_hit :
    (cmd rest : Bytes) (names : List Bytes)
    → match_names cmd ((cmd ++ rest) ∷ names)
      ≡ (if length cmd == length (cmd ++ rest) then exact else prefix)
unfolding match_names
match_names_hit cmd rest names = rw (strncmp_eq_of_prefix cmd rest) refl

match_names_exact : (cmd : Bytes) (names : List Bytes) → match_names cmd (cmd ∷ names) ≡ exact
unfolding match_names
match_names_exact cmd names =
    rw
      (
        ap (λ t. strncmp_eq t cmd (length cmd)) (sym (append-nil cmd))
            ∙ strncmp_eq_of_prefix cmd [],
        ==_refl (length cmd),
      )
      refl

match_names_longer :
    (cmd rest : Bytes) (c : ℕ) (names : List Bytes)
    → match_names cmd ((cmd ++ c ∷ rest) ∷ names) ≡ prefix
match_names_longer cmd rest c names =
    match_names_hit cmd (c ∷ rest) names
    ∙ (rw
        (ne→== (length cmd) (length (cmd ++ c ∷ rest))
          (λ e. absurd (omega (arith, e, length-append cmd (c ∷ rest)))))
        refl)

Means-hit :
    (cmd rest : Bytes) (names : List Bytes)
    → Means cmd ((cmd ++ rest) ∷ names) (match_names cmd ((cmd ++ rest) ∷ names))
Means-hit cmd [] names =
    subst (λ t. Means cmd (t ∷ names) (match_names cmd (t ∷ names))) (sym (append-nil cmd))
      (subst (Means cmd (cmd ∷ names)) (sym (match_names_exact cmd names)) ([], names, refl, tt))
Means-hit cmd (c ∷ rest) names =
    subst (Means cmd ((cmd ++ c ∷ rest) ∷ names)) (sym (match_names_longer cmd rest c names))
      ([], names, c, rest, refl, tt)

pub match_names-Means : (cmd : Bytes) (names : List Bytes) → Means cmd names (match_names cmd names)
match_names-Means cmd [] = unfold match_names in tt
match_names-Means cmd (cp ∷ names) = elim (Bool-cases (strncmp_eq cp cmd (length cmd))) [
  | inl e ↦
      let (rest, q) = strncmp_eq-prefix cp cmd e in
      subst (λ t. Means cmd (t ∷ names) (match_names cmd (t ∷ names))) (sym q)
        (Means-hit cmd rest names)
  | inr e ↦ subst (Means cmd (cp ∷ names)) (sym (match_names_skip cmd cp names e)) (
      Means-later cmd cp names (match_names cmd names) (not_begun cmd cp e)
        (match_names-Means cmd names))
]

-- A name that is the text is found behind names that do not begin with it.
pub IsNamed-exact :
    (cmd : Bytes) (front back : List Bytes)
    → NoneBegins cmd front
    → match_names cmd (front ++ cmd ∷ back) ≡ exact
IsNamed-exact cmd [] back w = match_names_exact cmd back
IsNamed-exact cmd (cp ∷ front) back (h, w) = elim (Bool-cases (strncmp_eq cp cmd (length cmd))) [
  | inl e ↦ absurd (h (strncmp_eq-prefix cp cmd e))
  | inr e ↦ match_names_skip cmd cp (front ++ cmd ∷ back) e ∙ IsNamed-exact cmd front back w
]

pub no_match-NoneBegins :
    (cmd : Bytes) (names : List Bytes) → match_names cmd names ≡ no_match → NoneBegins cmd names
no_match-NoneBegins cmd names e = subst (Means cmd names) e (match_names-Means cmd names)

pub NoneBegins-no_match :
    (cmd : Bytes) (names : List Bytes) → NoneBegins cmd names → match_names cmd names ≡ no_match
NoneBegins-no_match cmd [] w = unfold match_names in refl
NoneBegins-no_match cmd (cp ∷ names) (h, w) = elim (Bool-cases (strncmp_eq cp cmd (length cmd))) [
  | inl e ↦ absurd (h (strncmp_eq-prefix cp cmd e))
  | inr e ↦ match_names_skip cmd cp names e ∙ NoneBegins-no_match cmd names w
]
