-- ===== src/EstOps/Paths/Built.antt =====
-- The path of an entry is built from the names on the way to it.
use mathlib.Core.List.{append_assoc}
use fsvs.Prelude.{
  ℕ, ◌+◌, ◌-◌, ◌%◌, ◌^◌, ◌≤◌, ◌<◌, ◌≡◌, ◌≢◌, refl, ap, sym, subst, ◌∙◌, ◌⊎◌, inl, inr, false, none,
  some, List, [], ◌∷◌, ◌++◌, ◌==◌, if◌then◌else◌, Bytes, length, length-append, take,
  take-append_self, arith, All, Bool-cases, le→ltb, ne→==,
}
use fsvs.EstOps.Paths.{
  Node, path_separator, path_len_of, calc_path_len, put_name, build_path2, cut_last, with_len,
  build_path, last_part, get_filename,
}

-- The path, from the names alone; the name of the entry is the first one.
abbrev pub joined_path : List Bytes → Bytes
joined_path [] = []
joined_path (n ∷ []) = n
joined_path (n ∷ p ∷ ps) = joined_path (p ∷ ps) ++ path_separator ∷ n

-- A length that is known is right, and then the parent's is known, too. The root has a name of one character.
abbrev pub IsKnown : List Node → Type 0
IsKnown [] = Unit
IsKnown (n ∷ []) = (length n.name ≡ 1) × (n.path_len ≡ 1)
IsKnown (n ∷ p ∷ ps) = (n.path_len ≡ p.path_len + 1 + length n.name) × IsKnown (p ∷ ps)

abbrev pub IsCached : List Node → Type 0
IsCached [] = Unit
IsCached (n ∷ []) = (length n.name ≡ 1) × ((n.path_len ≡ 0) ⊎ (n.path_len ≡ 1))
IsCached (n ∷ p ∷ ps) = ((n.path_len ≡ 0) ⊎ IsKnown (n ∷ p ∷ ps)) × IsCached (p ∷ ps)

abbrev pub names : List Node → List Bytes
names [] = []
names (n ∷ ns) = n.name ∷ names ns

path_len-joined :
    (n : Node) (ns : List Node)
    → IsKnown (n ∷ ns)
    → length (joined_path (names (n ∷ ns))) ≡ n.path_len
path_len-joined n [] w = omega arith
path_len-joined n (p ∷ ps) (e, w) = omega (
  arith,
  path_len-joined p ps w,
  length-append (joined_path (names (p ∷ ps))) (path_separator ∷ n.name),
)

known_zero : (k : ℕ) → k ≡ 0 → (k == 0) ≢ false
known_zero k z e = ground arith

cached-IsKnown :
    (n : Node) (ns : List Node) → IsCached (n ∷ ns) → (n.path_len == 0) ≡ false → IsKnown (n ∷ ns)
cached-IsKnown n [] (h, inl z) e = absurd (known_zero n.path_len z e)
cached-IsKnown n [] (h, inr z) e = (h, z)
cached-IsKnown n (p ∷ ps) (inl z, w) e = absurd (known_zero n.path_len z e)
cached-IsKnown n (p ∷ ps) (inr k, w) e = k

abbrev with_parents : Node → List Node → List Node
with_parents n parents =
    record n { path_len = (path_len_of parents + 1 + length n.name) % 2 ^ 16 } ∷ parents

calc_step :
    (n p : Node) (ps : List Node)
    → calc_path_len (n ∷ p ∷ ps)
      ≡ with_parents n (if p.path_len == 0 then calc_path_len (p ∷ ps) else p ∷ ps)
unfolding calc_path_len
calc_step n p ps = refl

abbrev Known : List Node → List Bytes → Type 0
Known ns ms = IsKnown ns × (names ns ≡ ms)

-- The lengths that are known have their 16 bits if the path has.
with_parents-Known :
    (n : Node) (parents : List Node) (m : Bytes) (ms : List Bytes)
    → length (joined_path (n.name ∷ m ∷ ms)) < 2 ^ 16
    → Known parents (m ∷ ms)
    → Known (with_parents n parents) (n.name ∷ m ∷ ms)
with_parents-Known n [] m ms short (w, e) = cc
with_parents-Known n (q ∷ qs) m ms short (w, e) =
    let l : length (joined_path (m ∷ ms)) ≡ q.path_len =
      ap (λ t. length (joined_path t)) (sym e) ∙ path_len-joined q qs w in
    (
      (omega (arith, l, length-append (joined_path (m ∷ ms)) (path_separator ∷ n.name)), w),
      ap (λ t. n.name ∷ t) e,
    )

shorter :
    (n m : Bytes) (ms : List Bytes)
    → length (joined_path (n ∷ m ∷ ms)) < 2 ^ 16
    → length (joined_path (m ∷ ms)) < 2 ^ 16
shorter n m ms h = omega (arith, length-append (joined_path (m ∷ ms)) (path_separator ∷ n))

calc_path_len-Known :
    (n : Node) (ns : List Node)
    → IsCached (n ∷ ns)
    → length (joined_path (names (n ∷ ns))) < 2 ^ 16
    → Known (calc_path_len (n ∷ ns)) (names (n ∷ ns))
calc_path_len-Known n [] (h, w) short = unfold calc_path_len in ((h, omega arith), refl)
calc_path_len-Known n (p ∷ ps) (h, w) short =
    subst (λ t. Known t (names (n ∷ p ∷ ps))) (sym (calc_step n p ps))
      (elim (Bool-cases (p.path_len == 0)) [
        | inl e ↦ rw e (
            with_parents-Known n (calc_path_len (p ∷ ps)) p.name (names ps) short
              (calc_path_len-Known p ps w (shorter n.name p.name (names ps) short)))
        | inr e ↦
            rw e (
              with_parents-Known n (p ∷ ps) p.name (names ps) short (cached-IsKnown p ps w e, refl))
      ])

with_len-Known :
    (n : Node) (ns : List Node)
    → IsCached (n ∷ ns)
    → length (joined_path (names (n ∷ ns))) < 2 ^ 16
    → Known (with_len (n ∷ ns)) (names (n ∷ ns))
with_len-Known n ns w short = elim (Bool-cases (n.path_len == 0)) [
  | inl e ↦ rw e (calc_path_len-Known n ns w short)
  | inr e ↦ rw e (cached-IsKnown n ns w e, refl)
]

-- What `ops__build_path2` writes, with the separator at the end.
take_self : (s : Bytes) → take (length s) s ≡ s
take_self [] = refl
take_self (c ∷ s) = ap (λ t. c ∷ t) (take_self s)

build_step :
    (n p : Node) (ps : List Node) (max l : ℕ)
    → p.path_len < n.path_len
    → n.path_len - p.path_len - 1 ≡ l
    → l + 1 ≤ max
    → build_path2 max (n ∷ p ∷ ps) ≡ put_name n.name l (build_path2 (max - (l + 1)) (p ∷ ps))
unfolding build_path2
build_step n p ps max l lt e h =
    rw (e, le→ltb max (l + 1) h, le→ltb n.path_len (p.path_len + 1) (omega arith)) refl

build_root : (n : Node) (max : ℕ) → 2 ≤ max → build_path2 max (n ∷ []) ≡ put_name n.name 1 (some [])
unfolding build_path2
build_root n max h = rw (le→ltb max 2 h) refl

append_separator :
    (path name : Bytes)
    → (path ++ path_separator ∷ []) ++ (name ++ path_separator ∷ [])
      ≡ (path ++ path_separator ∷ name) ++ path_separator ∷ []
append_separator path name =
    append_assoc path (path_separator ∷ []) (name ++ path_separator ∷ [])
    ∙ sym (append_assoc path (path_separator ∷ name) (path_separator ∷ []))

build_path2-joined :
    (n : Node) (ns : List Node) (max : ℕ)
    → IsKnown (n ∷ ns)
    → n.path_len < max
    → build_path2 max (n ∷ ns) ≡ some (joined_path (names (n ∷ ns)) ++ path_separator ∷ [])
build_path2-joined n [] max (h, w) k =
    build_root n max (omega arith)
    ∙ ap (λ (l : ℕ). put_name n.name l (some [])) (sym h)
    ∙ ap (λ t. some (t ++ path_separator ∷ [])) (take_self n.name)
build_path2-joined n (p ∷ ps) max (e, w) k =
    build_step n p ps max (length n.name) (omega arith) (omega arith) (omega arith)
    ∙ ap (put_name n.name (length n.name))
        (build_path2-joined p ps (max - (length n.name + 1)) w (omega arith))
    ∙ ap
        (λ t.
          some
            ((joined_path (names (p ∷ ps)) ++ path_separator ∷ []) ++ (t ++ path_separator ∷ [])))
        (take_self n.name)
    ∙ ap some (append_separator (joined_path (names (p ∷ ps))) n.name)

cut_separator : (path : Bytes) → cut_last (some (path ++ path_separator ∷ [])) ≡ some path
cut_separator path =
    ap (λ (l : ℕ). some (take l (path ++ path_separator ∷ []))) {y = length path}
      (omega (arith, length-append path (path_separator ∷ [])))
    ∙ ap some (take-append_self path (path_separator ∷ []))

Known-path :
    (ns : List Node) (m : Bytes) (ms : List Bytes)
    → Known ns (m ∷ ms)
    → cut_last (build_path2 (path_len_of ns + 1) ns) ≡ some (joined_path (m ∷ ms))
Known-path [] m ms (w, e) = cc
Known-path (n ∷ ns) m ms (w, e) =
    ap cut_last (build_path2-joined n ns (n.path_len + 1) w (omega arith))
    ∙ cut_separator (joined_path (names (n ∷ ns)))
    ∙ ap (λ t. some (joined_path t)) e

Known-length :
    (ns : List Node) (m : Bytes) (ms : List Bytes)
    → Known ns (m ∷ ms)
    → length (joined_path (m ∷ ms)) ≡ path_len_of ns
Known-length [] m ms (w, e) = cc
Known-length (n ∷ ns) m ms (w, e) =
    ap (λ t. length (joined_path t)) (sym e) ∙ path_len-joined n ns w

-- The path that `ops__build_path` makes of an entry is that of the names from the root to the entry, with a separator
-- between two of them, whatever of the lengths is known before. It has exactly the length that is stored in the entry,
-- so that the space of one more character is always enough, and the BUG is not reached. The known lengths
-- stay right. The conditions: the path is shorter than 2^16 characters, the root has a name of one character, and a
-- length that is known before is right, and those of the entry's parents are known with it.
pub build_path-joined :
    (n : Node) (ns : List Node)
    → IsCached (n ∷ ns)
    → length (joined_path (names (n ∷ ns))) < 2 ^ 16
    → ((build_path (n ∷ ns)).0 ≡ some (joined_path (names (n ∷ ns))))
      × (length (joined_path (names (n ∷ ns))) ≡ path_len_of (build_path (n ∷ ns)).1)
      × IsKnown (build_path (n ∷ ns)).1
      × (names (build_path (n ∷ ns)).1 ≡ names (n ∷ ns))
unfolding build_path
build_path-joined n ns w short =
    let k = with_len-Known n ns w short in
    (
      Known-path (with_len (n ∷ ns)) n.name (names ns) k,
      Known-length (with_len (n ∷ ns)) n.name (names ns) k,
      k.0,
      k.1,
    )

last_part-none : (s : Bytes) → All (λ c. c ≢ path_separator) s → last_part s ≡ none
unfolding last_part
last_part-none [] w = refl
last_part-none (c ∷ s) (h, w) = rw (last_part-none s w, ne→== c path_separator h) refl

last_part-append :
    (path name : Bytes)
    → All (λ c. c ≢ path_separator) name
    → last_part (path ++ path_separator ∷ name) ≡ some name
unfolding last_part
last_part-append [] name w = rw (last_part-none name w) refl
last_part-append (c ∷ path) name w = rw (last_part-append path name w) refl

get_filename-joined :
    (m : Bytes) (ms : List Bytes)
    → All (λ c. c ≢ path_separator) m
    → get_filename (joined_path (m ∷ ms)) ≡ m
unfolding get_filename
get_filename-joined m [] w = rw (last_part-none m w) refl
get_filename-joined m (p ∷ ps) w = rw (last_part-append (joined_path (p ∷ ps)) m w) refl
