-- ===== src/Path/Normal.antt =====
-- `hlp__pathcopy` of src/helper.c against its specification by components.
use fsvs.Prelude.{
  ℕ, ◌+◌, ◌<◌, ◌≡◌, refl, ap, ◌∙◌, inl, inr, true, false, some, List, [], ◌∷◌, ◌++◌, ◌==◌,
  if◌then◌else◌, Bytes, length, arith, Bool-cases, All,
}
use fsvs.Path.{rev_onto, joined, is_absolute, without_separators, pathcopy, finished}
use fsvs.Path.Copy.{is_component, normal, path_of, rendered, ends, written, AreComponents, copy_lem}

-- A stack that is turned round.
rev_onto_twice : (c dest s : Bytes) → rev_onto (rev_onto c dest) s ≡ rev_onto dest (c ++ s)
unfolding rev_onto
rev_onto_twice [] dest s = refl
rev_onto_twice (x ∷ c) dest s = rev_onto_twice c (x ∷ dest) s

rev_onto-written : (st : List Bytes) (s : Bytes) → rev_onto (written st) s ≡ rendered st s
unfolding written rendered rev_onto
rev_onto-written [] s = refl
rev_onto-written (c ∷ st) s =
    rev_onto_twice c (b'/' ∷ written st) s ∙ rev_onto-written st (b'/' ∷ c ++ s)

rev_onto-append : (c s dest : Bytes) → rev_onto (c ++ s) dest ≡ rev_onto s (rev_onto c dest)
unfolding rev_onto
rev_onto-append [] s dest = refl
rev_onto-append (x ∷ c) s dest = rev_onto-append c s (x ∷ dest)

rev_onto-rendered :
    (st : List Bytes) (s : Bytes) → rev_onto (rendered st s) [] ≡ rev_onto s (written st)
unfolding written rendered rev_onto
rev_onto-rendered [] s = refl
rev_onto-rendered (c ∷ st) s =
    rev_onto-rendered st (b'/' ∷ c ++ s) ∙ rev_onto-append c s (b'/' ∷ written st)

without_separators-rev_onto :
    (x : ℕ) (c dest : Bytes)
    → is_component (x ∷ c) ≡ true
    → without_separators (rev_onto (x ∷ c) dest) ≡ rev_onto (x ∷ c) dest
unfolding without_separators rev_onto
without_separators-rev_onto x [] dest h =
    let e : (x == b'/') ≡ false = ground arith in rw (e, without_separators) refl
without_separators-rev_onto x (y ∷ c) dest h =
    without_separators-rev_onto y c (x ∷ dest) (ground arith)

-- Components of a directory: none is empty.
abbrev pub IsDirectory : List Bytes → Type 0
IsDirectory st = All (λ c. (is_component c ≡ true) × (0 < length c)) st

IsDirectory-AreComponents : (st : List Bytes) → IsDirectory st → AreComponents st
IsDirectory-AreComponents [] h = tt
IsDirectory-AreComponents (c ∷ st) ((h, n), k) = (h, IsDirectory-AreComponents st k)

without_separators-written :
    (st : List Bytes) → IsDirectory st → without_separators (written st) ≡ written st
unfolding written without_separators
without_separators-written [] h = refl
without_separators-written ([] ∷ st) ((h, n), k) = absurd (omega arith)
without_separators-written ((x ∷ c) ∷ st) ((h, n), k) =
    without_separators-rev_onto x c (b'/' ∷ written st) h

-- A path that is given in parts is copied as the path of its normal form: without empty components and ".", and
-- with each ".." and the component in front of it taken away (only the ".." at the root). It is taken below the
-- start path if it does not begin with "/". The conditions: the start path is a path of components that are not
-- empty, and the last component of the given path is neither empty nor ".". If no component is left, the result
-- is the empty text.
pub pathcopy-normal :
    (start_path : Bytes) (args st : List Bytes) (c : Bytes) (cs : List Bytes)
    → start_path ≡ rendered st []
    → IsDirectory st
    → AreComponents (c ∷ cs)
    → ends (c ∷ cs) ≡ true
    → (if is_absolute (joined args) then joined args else b'/' ∷ joined args) ≡ path_of (c ∷ cs)
    → pathcopy start_path args
      ≡ some (rendered (normal (if is_absolute (joined args) then [] else st) (c ∷ cs)) [])
unfolding pathcopy
pathcopy-normal start_path args st c cs s d h e p = elim (Bool-cases (is_absolute (joined args))) [
  | inl a ↦
      let q : joined args ≡ path_of (c ∷ cs) = rw a at p in
      let g =
        copy_lem cs c [] false [] (unfold written in refl) tt h e (length (path_of (c ∷ cs)) + 1)
          (omega arith) in
      rw (a, pathcopy, q) (ap finished g ∙ ap some (rev_onto-written (normal [] (c ∷ cs)) []))
  | inr a ↦
      let q : b'/' ∷ joined args ≡ path_of (c ∷ cs) = rw a at p in
      let g =
        copy_lem cs c st false (written st) refl (IsDirectory-AreComponents st d) h e
          (length (joined args) + 2) (omega (arith, ap length q)) in
      let b : without_separators (rev_onto start_path []) ≡ written st = rw s (
        ap without_separators (rev_onto-rendered st [])
        ∙ (unfold rev_onto in without_separators-written st d)) in
      rw (a, pathcopy, b, q) (ap finished g ∙ ap some (rev_onto-written (normal st (c ∷ cs)) []))
]
