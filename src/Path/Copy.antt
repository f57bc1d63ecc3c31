-- ===== src/Path/Copy.antt =====
-- The loop of `hlp__pathcopy` in src/helper.c, component by component.
use mathlib.Core.Bool.{false≢true}
use fsvs.Prelude.{
  ℕ, zero, suc, ◌≤◌, ◌<◌, ◌≡◌, refl, ap, ◌∙◌, ◌⊎◌, inl, inr, Bool, true, false, not, ◌&&◌, some,
  List, [], ◌∷◌, ◌++◌, ◌==◌, if◌then◌else◌, Bytes, length, drop, strcmp_eq, strncmp_eq, arith, All,
  all,
}
use fsvs.Path.{rev_onto, to_separator, behind_separator, copy}

-- A component has no "/". An empty one and "." say nothing, ".." takes away the one in front.
abbrev pub is_component : Bytes → Bool
is_component c = all (λ x. not (x == b'/')) c

abbrev pub push : List Bytes → Bytes → List Bytes
push st [] = st
push st (x ∷ []) = if x == b'.' then st else (x ∷ []) ∷ st
push st (x ∷ y ∷ []) = if x == b'.' && y == b'.' then drop 1 st else (x ∷ y ∷ []) ∷ st
push st (x ∷ y ∷ z ∷ c) = (x ∷ y ∷ z ∷ c) ∷ st

-- The components that are left, the last one first.
unfoldable pub normal : List Bytes → List Bytes → List Bytes
normal st [] = st
normal st (c ∷ cs) = normal (push st c) cs

-- The path of components, and the one of a stack of them in front of a text.
unfoldable pub path_of : List Bytes → Bytes
path_of [] = []
path_of (c ∷ cs) = b'/' ∷ c ++ path_of cs

unfoldable pub rendered : List Bytes → Bytes → Bytes
rendered [] s = s
rendered (c ∷ st) s = rendered st (b'/' ∷ c ++ s)

-- The last component is not empty and not ".".
abbrev pub ends : List Bytes → Bool
ends [] = true
ends (c ∷ d ∷ cs) = ends (d ∷ cs)
ends ([] ∷ []) = false
ends ((x ∷ []) ∷ []) = not (x == b'.')
ends ((x ∷ y ∷ c) ∷ []) = true

-- A stack back to front.
unfoldable pub written : List Bytes → Bytes
unfolding rev_onto
written [] = []
written (c ∷ st) = rev_onto c (b'/' ∷ written st)

-- The loop ends with `r`, with more fuel than there are characters.
abbrev pub Gives : Bool → Bytes → Bytes → Bytes → Type 0
Gives had_path dest src r = (fuel : ℕ) → length src < fuel → copy fuel had_path dest src ≡ some r

pub Gives-end : (had_path : Bool) (dest : Bytes) → Gives had_path dest [] dest
unfolding copy
Gives-end had_path dest zero h = absurd (omega arith)
Gives-end had_path dest (suc fuel) h = refl

-- One character, and a component.
pub Gives-other :
    (had_path : Bool) (dest src r : Bytes) (c : ℕ)
    → (c == b'/') ≡ false
    → Gives false (c ∷ dest) src r
    → Gives had_path dest (c ∷ src) r
unfolding copy
Gives-other had_path dest src r c e g zero h = absurd (omega arith)
Gives-other had_path dest src r c e g (suc fuel) h = rw (e, copy) (g fuel (omega arith))

pub Gives-component :
    (c src dest r : Bytes)
    → is_component c ≡ true
    → Gives false (rev_onto c dest) src r
    → Gives false dest (c ++ src) r
unfolding rev_onto
Gives-component [] src dest r h g = g
Gives-component (x ∷ c) src dest r h g =
    Gives-other false dest (c ++ src) r x (ground arith)
      (Gives-component c src (x ∷ dest) r (ground arith) g)

pub Gives-separator :
    (had_path : Bool) (dest src r : Bytes) (h' : Bool) (dest' src' : Bytes)
    → behind_separator (if had_path then dest else b'/' ∷ dest) src ≡ (h', dest', src')
    → length src' ≤ length src
    → Gives h' dest' src' r
    → Gives had_path dest (b'/' ∷ src) r
unfolding copy
Gives-separator had_path dest src r h' dest' src' e l g zero h = absurd (omega arith)
Gives-separator had_path dest src r h' dest' src' e l g (suc fuel) h =
    ap (λ x. copy fuel x.0 x.1 x.2) e ∙ g fuel (omega arith)

-- The four cases behind a "/".
pub behind_dot :
    (dest : Bytes) (d : Bytes) (cs : List Bytes)
    → behind_separator dest (b'.' ∷ path_of (d ∷ cs)) ≡ (true, dest, path_of (d ∷ cs))
unfolding behind_separator path_of strncmp_eq
behind_dot dest d cs = refl

pub behind_nothing :
    (dest : Bytes) (d : Bytes) (cs : List Bytes)
    → behind_separator dest (path_of (d ∷ cs)) ≡ (true, dest, path_of (d ∷ cs))
unfolding behind_separator path_of strncmp_eq strcmp_eq
behind_nothing dest d cs = refl

pub behind_dots :
    (dest : Bytes) (cs : List Bytes)
    → behind_separator dest (b'.' ∷ b'.' ∷ path_of cs)
      ≡ (false, to_separator (drop 1 dest), path_of cs)
unfolding behind_separator path_of strncmp_eq strcmp_eq
behind_dots dest [] = refl
behind_dots dest (c ∷ cs) = refl

-- Components that are names.
abbrev pub is_name : Bytes → Bool
is_name [] = false
is_name (x ∷ []) = not (x == b'.')
is_name (x ∷ y ∷ []) = not (x == b'.' && y == b'.')
is_name (x ∷ y ∷ z ∷ c) = true

pub behind_name :
    (dest c : Bytes) (cs : List Bytes)
    → is_component c ≡ true
    → is_name c ≡ true
    → behind_separator dest (c ++ path_of cs) ≡ (true, dest, c ++ path_of cs)
unfolding behind_separator strncmp_eq strcmp_eq path_of
behind_name dest [] cs h n = cc
behind_name dest (x ∷ []) [] h n = ground arith
behind_name dest (x ∷ []) (d ∷ cs) h n = ground arith
behind_name dest (x ∷ y ∷ []) [] h n = ground arith
behind_name dest (x ∷ y ∷ []) (d ∷ cs) h n = ground arith
behind_name dest (x ∷ y ∷ z ∷ c) cs h n = ground arith

pub push-name : (st : List Bytes) (c : Bytes) → is_name c ≡ true → push st c ≡ c ∷ st
push-name st [] n = cc
push-name st (x ∷ []) n = ground arith
push-name st (x ∷ y ∷ []) n = ground arith
push-name st (x ∷ y ∷ z ∷ c) n = refl

pub component_cases :
    (c : Bytes) → (c ≡ []) ⊎ (c ≡ b'.' ∷ []) ⊎ (c ≡ b'.' ∷ b'.' ∷ []) ⊎ (is_name c ≡ true)
component_cases [] = inl refl
component_cases (x ∷ []) = ground arith
component_cases (x ∷ y ∷ []) = ground arith
component_cases (x ∷ y ∷ z ∷ c) = inr (inr (inr refl))

pub to_separator-rev_onto :
    (c dest : Bytes) → is_component c ≡ true → to_separator (rev_onto c dest) ≡ to_separator dest
unfolding to_separator rev_onto
to_separator-rev_onto [] dest h = refl
to_separator-rev_onto (x ∷ c) dest h =
    let e : (x == b'/') ≡ false = ground arith in
    to_separator-rev_onto c (x ∷ dest) (ground arith) ∙ rw (e, to_separator) refl

abbrev pub AreComponents : List Bytes → Type 0
AreComponents cs = All (λ c. is_component c ≡ true) cs

pub to_separator-written :
    (st : List Bytes) → AreComponents st → to_separator (written st) ≡ written (drop 1 st)
unfolding written to_separator
to_separator-written [] h = refl
to_separator-written (c ∷ st) (h, k) = to_separator-rev_onto c (b'/' ∷ written st) h

pub drop-AreComponents : (st : List Bytes) → AreComponents st → AreComponents (drop 1 st)
drop-AreComponents [] h = h
drop-AreComponents (c ∷ st) (h, k) = k

-- An empty component, and ".".
pub Gives-nothing :
    (had_path : Bool) (dest : Bytes) (st : List Bytes) (d : Bytes) (cs : List Bytes) (r : Bytes)
    → (if had_path then dest else b'/' ∷ dest) ≡ b'/' ∷ written st
    → Gives true (b'/' ∷ written st) (path_of (d ∷ cs)) r
    → Gives had_path dest (b'/' ∷ path_of (d ∷ cs)) r
Gives-nothing had_path dest st d cs r q g =
    Gives-separator had_path dest (path_of (d ∷ cs)) r true (b'/' ∷ written st) (path_of (d ∷ cs))
      (rw q (behind_nothing (b'/' ∷ written st) d cs)) (omega arith) g

pub Gives-dot :
    (had_path : Bool) (dest : Bytes) (st : List Bytes) (d : Bytes) (cs : List Bytes) (r : Bytes)
    → (if had_path then dest else b'/' ∷ dest) ≡ b'/' ∷ written st
    → Gives true (b'/' ∷ written st) (path_of (d ∷ cs)) r
    → Gives had_path dest (b'/' ∷ b'.' ∷ path_of (d ∷ cs)) r
Gives-dot had_path dest st d cs r q g =
    Gives-separator had_path dest (b'.' ∷ path_of (d ∷ cs)) r true (b'/' ∷ written st)
      (path_of (d ∷ cs)) (rw q (behind_dot (b'/' ∷ written st) d cs)) (omega arith) g

-- A component that is a name, with what is copied behind it.
pub Gives-name :
    (had_path : Bool) (dest : Bytes) (st : List Bytes) (c : Bytes) (cs : List Bytes) (r : Bytes)
    → (if had_path then dest else b'/' ∷ dest) ≡ b'/' ∷ written st
    → is_component c ≡ true
    → is_name c ≡ true
    → Gives false (written (c ∷ st)) (path_of cs) r
    → Gives had_path dest (b'/' ∷ c ++ path_of cs) r
unfolding written rev_onto
Gives-name had_path dest st [] cs r q h n g = cc
Gives-name had_path dest st (x ∷ c) cs r q h n g =
    Gives-separator had_path dest ((x ∷ c) ++ path_of cs) r true (b'/' ∷ written st)
      ((x ∷ c) ++ path_of cs) (rw q (behind_name (b'/' ∷ written st) (x ∷ c) cs h n)) (omega arith)
      (Gives-other true (b'/' ∷ written st) (c ++ path_of cs) r x (ground arith)
        (Gives-component c (path_of cs) (x ∷ b'/' ∷ written st) r (ground arith) g))

pub Gives-dots :
    (had_path : Bool) (dest : Bytes) (st : List Bytes) (cs : List Bytes) (r : Bytes)
    → (if had_path then dest else b'/' ∷ dest) ≡ b'/' ∷ written st
    → AreComponents st
    → Gives false (written (drop 1 st)) (path_of cs) r
    → Gives had_path dest (b'/' ∷ b'.' ∷ b'.' ∷ path_of cs) r
Gives-dots had_path dest st cs r q h g =
    Gives-separator had_path dest (b'.' ∷ b'.' ∷ path_of cs) r false (written (drop 1 st))
      (path_of cs)
      (rw q (behind_dots (b'/' ∷ written st) cs)
        ∙ ap (λ d. (false, d, path_of cs)) (to_separator-written st h))
      (omega arith) g

pub copy_lem :
    (cs : List Bytes) (c : Bytes) (st : List Bytes) (had_path : Bool) (dest : Bytes)
    → (if had_path then dest else b'/' ∷ dest) ≡ b'/' ∷ written st
    → AreComponents st
    → AreComponents (c ∷ cs)
    → ends (c ∷ cs) ≡ true
    → Gives had_path dest (path_of (c ∷ cs)) (written (normal st (c ∷ cs)))
unfolding path_of normal
copy_lem [] c st had_path dest q h (k, tt) e = elim (component_cases c) [
  | inl z ↦ absurd (false≢true (rw z at e))
  | inr (inl z) ↦ absurd (false≢true (rw z at e))
  | inr (inr (inl z)) ↦ rw z (
      Gives-dots had_path dest st [] (written (drop 1 st)) q h
        (Gives-end false (written (drop 1 st))))
  | inr (inr (inr n)) ↦ rw (push-name st c n) (
      Gives-name had_path dest st c [] (written (c ∷ st)) q k n
        (Gives-end false (written (c ∷ st))))
]
copy_lem (d ∷ cs) c st had_path dest q h (k, l) e = elim (component_cases c) [
  | inl z ↦ rw z (
      Gives-nothing had_path dest st d cs _ q
        (copy_lem cs d st true (b'/' ∷ written st) refl h l e))
  | inr (inl z) ↦
      rw z
        (Gives-dot had_path dest st d cs _ q (copy_lem cs d st true (b'/' ∷ written st) refl h l e))
  | inr (inr (inl z)) ↦ rw z (
      Gives-dots had_path dest st (d ∷ cs) _ q h
        (copy_lem cs d (drop 1 st) false (written (drop 1 st)) refl (drop-AreComponents st h) l e))
  | inr (inr (inr n)) ↦ rw (push-name st c n) (
      Gives-name had_path dest st c (d ∷ cs) _ q k n
        (copy_lem cs d (c ∷ st) false (written (c ∷ st)) refl (k, h) l e))
]
