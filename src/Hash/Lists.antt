-- ===== src/Hash/Lists.antt =====
-- The lists of pointers under the keys of a hash file, over any row of insertions.
use mathlib.Core.List.{append_assoc, append-nil}
use fsvs.Prelude.{
  ℕ, zero, suc, ◌≡◌, refl, ap, ◌∙◌, inl, inr, Option, none, some, List, [], ◌∷◌, ◌++◌, ltb, ◌==◌,
  if◌then◌else◌, Bytes, length, take, strcmp_eq, strcmp_eq_iff, arith, Bool-cases, ltb→le,
}
use fsvs.Hash.{
  Gdbm, Status, ok, enoent, efbig, error, bug, list_max, PointerList, insert_pointer, got, list_get,
}
use fsvs.Hash.Stored.{insert_pointer-Finds, stored_list, take_long, WentOn}

-- The values that a row of insertions has for a key.
abbrev pub values_of : Bytes → List (Bytes × ℕ) → List ℕ
values_of key [] = []
values_of key ((k, v) ∷ ps) = if strcmp_eq k key then v ∷ values_of key ps else values_of key ps

-- A row of calls of `cm___hash_register`, which takes EFBIG for success; `none` for an error or a BUG.
abbrev pub next_call : {D : Type 0} → (D → Option D) → D × Status → Option D
next_call rest (d, ok) = rest d
next_call rest (d, efbig) = rest d
next_call rest (d, other) = none

unfoldable pub insert_all : (g : Gdbm PointerList) → List (Bytes × ℕ) → g.Db → Option g.Db
insert_all g [] d = some d
insert_all g ((k, v) ∷ ps) d = next_call (insert_all g ps) (insert_pointer g d k v)

next_call-some :
    {D : Type 0} (rest : D → Option D) (r : D × Status) (d' : D)
    → next_call rest r ≡ some d'
    → WentOn r.1 × (rest r.0 ≡ some d')
next_call-some rest (d, ok) d' h = (tt, h)
next_call-some rest (d, efbig) d' h = (tt, h)
next_call-some rest (d, enoent) d' h = cc
next_call-some rest (d, error) d' h = cc
next_call-some rest (d, bug) d' h = cc

-- The rows of all keys after one insertion.
abbrev one_more : Bytes → ℕ → (Bytes → List ℕ) → Bytes → List ℕ
one_more k v f j = if strcmp_eq k j then f k ++ v ∷ [] else f j

one_more-values :
    (k : Bytes) (v : ℕ) (f : Bytes → List ℕ) (key : Bytes) (ps : List (Bytes × ℕ))
    → one_more k v f key ++ values_of key ps ≡ f key ++ values_of key ((k, v) ∷ ps)
one_more-values k v f key ps = elim (Bool-cases (strcmp_eq k key)) [
  | inl e ↦ rw e (
      append_assoc (f k) (v ∷ []) (values_of key ps)
      ∙ ap (λ j. f j ++ v ∷ values_of key ps) ((strcmp_eq_iff k key).0 e))
  | inr e ↦ rw e refl
]

module _ (g : Gdbm PointerList) where
  abbrev Stores : g.Db → (Bytes → List ℕ) → Type 0
  Stores d f = (j : Bytes) → g.fetch d j ≡ stored_list (f j)

  insert_pointer-Stores :
      (d : g.Db) (k : Bytes) (v : ℕ) (f : Bytes → List ℕ)
      → Stores d f
      → WentOn (insert_pointer g d k v).1
      → Stores (insert_pointer g d k v).0 (one_more k v f)
  insert_pointer-Stores d k v f all w j =
      insert_pointer-Finds g d k j v (f k) (all k) w
      ∙ (elim (Bool-cases (strcmp_eq k j)) [ inl e ↦ rw e refl | inr e ↦ rw e (all j) ])

  insert_all-stored :
      (ps : List (Bytes × ℕ)) (d d' : g.Db) (key : Bytes) (f : Bytes → List ℕ)
      → Stores d f
      → insert_all g ps d ≡ some d'
      → g.fetch d' key ≡ stored_list (f key ++ values_of key ps)
  unfolding insert_all
  insert_all-stored [] d d' key f all h = cc (append-nil (f key), all key)
  insert_all-stored ((k, v) ∷ ps) d d' key f all h =
      let (w, h') = next_call-some (insert_all g ps) (insert_pointer g d k v) d' h in
      insert_all-stored ps (insert_pointer g d k v).0 d' key (one_more k v f)
        (insert_pointer-Stores d k v f all w) h'
      ∙ ap stored_list (one_more-values k v f key ps)

take_twice : (n : ℕ) (xs : List ℕ) → take n (take n xs) ≡ take n xs
take_twice zero xs = refl
take_twice (suc n) [] = refl
take_twice (suc n) (x ∷ xs) = ap (λ t. x ∷ t) (take_twice n xs)

got-stored_list :
    (ws : List ℕ) → got (stored_list ws) ≡ (take list_max ws, if length ws == 0 then enoent else ok)
got-stored_list [] = refl
got-stored_list (v ∷ ws) = elim (Bool-cases (ltb list_max (length (v ∷ ws)))) [
  | inl e ↦ ground (arith, take_twice list_max (v ∷ ws))
  | inr e ↦ ground (
    arith,
    take_long list_max (v ∷ ws) (ltb→le list_max (length (v ∷ ws)) e),
    take_long (length (v ∷ ws)) (v ∷ ws) (omega arith),
  )
]

-- The pointers that `hsh__list_get` gives for a key are the first 32 that were inserted under it, in order, and
-- ENOENT if there are none; over any row of insertions under any keys that meets no error of gdbm. The BUG is not
-- reached.
pub list_get-insert_all :
    (g : Gdbm PointerList) (ps : List (Bytes × ℕ)) (d d' : g.Db) (key : Bytes)
    → ((k : Bytes) → g.fetch d k ≡ none)
    → insert_all g ps d ≡ some d'
    → list_get g d' key
      ≡ (take list_max (values_of key ps), if length (values_of key ps) == 0 then enoent else ok)
unfolding list_get
list_get-insert_all g ps d d' key e h =
    ap got (insert_all-stored g ps d d' key (λ _. []) e h) ∙ got-stored_list (values_of key ps)
