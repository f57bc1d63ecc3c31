-- ===== src/Hash/Tests.antt =====
-- A file of gdbm in memory, runs of the functions of src/hash_ops.c on it, and the theorems at these.
use fsvs.Prelude.{
  ℕ, zero, suc, ◌≡◌, ◌≢◌, refl, Bool, true, false, Option, none, some, List, [], ◌∷◌, ◌==◌, ◌||◌,
  if◌then◌else◌, Bytes, codes, map, length, take, strcmp_eq, strcmp_eq_iff, ap, subst, inl, inr,
  arith, Bool-cases, Option-cases,
}
use mathlib.Core.Option
use fsvs.Hash.{
  Gdbm, Hash, ok, enoent, efbig, list_max, insert_pointer, list_get, has_key, register_delete,
  collect_garbage,
}
use fsvs.Hash.Lists.{values_of, insert_all, list_get-insert_all}
use fsvs.Hash.Garbage.{Collected, collect_garbage-register_all}
use fsvs.Hash.Registered.{register_all}

module _ {V : Type 0} where
  abbrev lookup : List (Bytes × V) → Bytes → Option V
  lookup [] j = none
  lookup ((k, v) ∷ d) j = if strcmp_eq k j then some v else lookup d j

  abbrev without : List (Bytes × V) → Bytes → List (Bytes × V)
  without [] j = []
  without ((k, v) ∷ d) j = if strcmp_eq k j then without d j else (k, v) ∷ without d j

  abbrev deleted : List (Bytes × V) → Bytes → Option V → Option (List (Bytes × V))
  deleted d k none = none
  deleted d k (some v) = some (without d k)

  lookup-without :
      (d : List (Bytes × V)) (k j : Bytes)
      → lookup (without d k) j ≡ (if strcmp_eq k j then none else lookup d j)
  lookup-without [] k j = ground arith
  lookup-without ((i, v) ∷ d) k j =
      ground (arith, lookup-without d k j, strcmp_eq_iff i k, strcmp_eq_iff i j, strcmp_eq_iff k j)

  lookup-deleted :
      (d d' : List (Bytes × V)) (k j : Bytes) (o : Option V)
      → deleted d k o ≡ some d'
      → lookup d' j ≡ (if strcmp_eq k j then none else lookup d j)
  lookup-deleted d d' k j none e = cc
  lookup-deleted d d' k j (some v) e =
      subst (λ t. lookup t j ≡ (if strcmp_eq k j then none else lookup d j)) (cc)
        (lookup-without d k j)

  lookup-stored :
      (d d' : List (Bytes × V)) (k j : Bytes) (v : V)
      → some ((k, v) ∷ d) ≡ some d'
      → lookup d' j ≡ (if strcmp_eq k j then some v else lookup d j)
  lookup-stored d d' k j v e = ground arith

  abbrev in_memory : Gdbm V
  in_memory = record {
    Db = List (Bytes × V);
    fetch = lookup;
    store = λ d k v. some ((k, v) ∷ d);
    delete = λ d k. deleted d k (lookup d k);
    keys = map (λ e. e.0);
    fetch-store = λ d d' k j v e. lookup-stored d d' k j v e;
    fetch-delete = λ d d' k j e. lookup-deleted d d' k j (lookup d k) e;
  }

  deletes :
      (d : List (Bytes × V)) (k : Bytes)
      → lookup d k ≢ none
      → (d' : List (Bytes × V)) × (deleted d k (lookup d k) ≡ some d')
  deletes d k h = elim (Option-cases (lookup d k)) [
    | inl e ↦ absurd (h e)
    | inr (v, e) ↦ (without d k, ap (deleted d k) e)
  ]

abbrev insertions : List (Bytes × ℕ)
insertions = (codes "a", 1) ∷ (codes "b", 2) ∷ (codes "a", 3) ∷ []

inserted :
    Option.map (λ d. list_get in_memory d (codes "a")) (insert_all in_memory insertions [])
    ≡ some (1 ∷ 3 ∷ [], ok)
unfolding insert_all insert_pointer list_get strcmp_eq
inserted = refl

many_insertions : ℕ → List (Bytes × ℕ)
many_insertions zero = []
many_insertions (suc n) = (codes "a", n) ∷ many_insertions n

-- The second insertion after 32 is refused, the first one is not.
overflow :
    Option.map
      (λ d. (insert_pointer in_memory d (codes "a") 7).1)
      (insert_all in_memory (many_insertions 32) [])
    ≡ some ok
unfolding insert_all insert_pointer strcmp_eq many_insertions
overflow = refl

refused :
    Option.map
      (λ d. (insert_pointer in_memory d (codes "a") 7).1)
      (insert_all in_memory (many_insertions 33) [])
    ≡ some efbig
unfolding insert_all insert_pointer strcmp_eq many_insertions
refused = refl

list_get-insert_all_example :
    list_get in_memory
      ((codes "a", record { count = 2; entries = 1 ∷ 3 ∷ [] })
        ∷ (codes "b", record { count = 1; entries = 2 ∷ [] })
        ∷ (codes "a", record { count = 1; entries = 1 ∷ [] })
        ∷ [])
      (codes "a")
    ≡ (
      take list_max (values_of (codes "a") insertions),
      if length (values_of (codes "a") insertions) == 0 then enoent else ok,
    )
unfolding insert_all insert_pointer strcmp_eq
list_get-insert_all_example =
    list_get-insert_all in_memory insertions [] _ (codes "a") (λ k. refl) refl

abbrev two_keys : Hash (in_memory {V = ℕ})
two_keys = record { db = (codes "a", 1) ∷ (codes "b", 2) ∷ []; to_delete = none }

collected_once :
    collect_garbage in_memory (register_all in_memory (codes "a" ∷ codes "a" ∷ []) two_keys)
    ≡ (record { db = (codes "b", 2) ∷ []; to_delete = none }, 1, ok)
unfolding collect_garbage register_all register_delete strcmp_eq
collected_once = refl

no_key : (b : Bool) → b ≡ false → (b || (b || false)) ≢ true
no_key b e h = ground arith

a_is_there : lookup two_keys.db (codes "a") ≡ some 1
unfolding strcmp_eq
a_is_there = refl

none_some : lookup two_keys.db (codes "a") ≢ none
none_some e = cc a_is_there

one_key : (j : Bytes) → has_key j (codes "a" ∷ codes "a" ∷ []) ≡ true → lookup two_keys.db j ≢ none
unfolding has_key
one_key j h e = elim (Bool-cases (strcmp_eq j (codes "a"))) [
  | inl same ↦
      none_some (subst (λ t. lookup two_keys.db t ≡ none) ((strcmp_eq_iff j (codes "a")).0 same) e)
  | inr other ↦ absurd (no_key (strcmp_eq j (codes "a")) other h)
]

collect_garbage-register_all_example :
    Collected in_memory two_keys
      (codes "a" ∷ codes "a" ∷ [])
      (collect_garbage in_memory (register_all in_memory (codes "a" ∷ codes "a" ∷ []) two_keys))
collect_garbage-register_all_example =
    collect_garbage-register_all in_memory deletes two_keys (codes "a" ∷ codes "a" ∷ []) refl
      one_key
