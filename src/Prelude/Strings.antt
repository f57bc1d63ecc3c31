-- ===== src/Prelude/Strings.antt =====
-- C strings: the bytes before the terminating NUL. `strcmp` and `strncmp` are only asked for equality.
use Prim.Native.Nat.{ℕ, zero, suc}
use Prim.Native.Char.{code}
use Prim.Native.String.{String}
use mathlib.Core.Path.{◌≡◌, refl}
use mathlib.Core.Logic.{◌↔◌, inl, inr}
use mathlib.Core.Bool.{Bool, true, false, ◌&&◌}
use mathlib.Core.List.{List, [], ◌∷◌, ◌++◌}
use mathlib.Core.Option.{Option, none, some}
use native.Mathlib.Omega.{arith}
use fsvs.Prelude.Tests.{◌==◌, if◌then◌else◌, Option-cases}
use fsvs.Prelude.Lists.{length}

abbrev pub Bytes : Type 0
Bytes = List ℕ

-- The code points of a text: its bytes, as it is ASCII.
abbrev pub codes : String → Bytes
codes String.[] = []
codes (String.◌∷◌ c s) = code c ∷ codes s

-- `strcmp(a, b) == 0`
unfoldable pub strcmp_eq : Bytes → Bytes → Bool
strcmp_eq [] [] = true
strcmp_eq [] (y ∷ ys) = false
strcmp_eq (x ∷ xs) [] = false
strcmp_eq (x ∷ xs) (y ∷ ys) = x == y && strcmp_eq xs ys

-- `strncmp(a, b, n) == 0`
unfoldable pub strncmp_eq : Bytes → Bytes → ℕ → Bool
strncmp_eq a b zero = true
strncmp_eq [] [] (suc n) = true
strncmp_eq [] (y ∷ ys) (suc n) = false
strncmp_eq (x ∷ xs) [] (suc n) = false
strncmp_eq (x ∷ xs) (y ∷ ys) (suc n) = x == y && strncmp_eq xs ys n

pub strcmp_eq_refl : (a : Bytes) → strcmp_eq a a ≡ true
unfolding strcmp_eq
strcmp_eq_refl [] = refl
strcmp_eq_refl (x ∷ xs) = ground (arith, strcmp_eq_refl xs)

pub strcmp_eq→≡ : (a b : Bytes) → strcmp_eq a b ≡ true → a ≡ b
unfolding strcmp_eq
strcmp_eq→≡ [] [] h = refl
strcmp_eq→≡ [] (y ∷ ys) h = cc
strcmp_eq→≡ (x ∷ xs) [] h = cc
strcmp_eq→≡ (x ∷ xs) (y ∷ ys) h = ground (arith, strcmp_eq→≡ xs ys)

pub strcmp_eq_iff : (a b : Bytes) → (strcmp_eq a b ≡ true) ↔ (a ≡ b)
strcmp_eq_iff a b = (strcmp_eq→≡ a b, λ e. rw e (strcmp_eq_refl b))

-- With the length of the second text the comparison asks for a prefix.
pub strncmp_eq-prefix :
    (a b : Bytes) → strncmp_eq a b (length b) ≡ true → (rest : Bytes) × (a ≡ b ++ rest)
unfolding strncmp_eq
strncmp_eq-prefix a [] h = (a, refl)
strncmp_eq-prefix [] (y ∷ ys) h = cc
strncmp_eq-prefix (x ∷ xs) (y ∷ ys) h =
    let (rest, e) = strncmp_eq-prefix xs ys (ground arith) in (rest, ground arith)

pub strncmp_eq_of_prefix : (b rest : Bytes) → strncmp_eq (b ++ rest) b (length b) ≡ true
unfolding strncmp_eq
strncmp_eq_of_prefix [] rest = refl
strncmp_eq_of_prefix (y ∷ ys) rest = ground (arith, strncmp_eq_of_prefix ys rest)

-- What stands before the first `sep`, and what stands behind it: `strchr`, with the text cut there.
unfoldable pub split_at_first : ℕ → Bytes → Option (Bytes × Bytes)
split_at_first sep [] = none
split_at_first sep (c ∷ cs) =
    let rest = split_at_first sep cs in
    if c == sep
    then some ([], cs)
    else elim rest [ none ↦ none | some (before, behind) ↦ some (c ∷ before, behind) ]

pub split_at_first-join :
    (sep : ℕ) (s before behind : Bytes)
    → split_at_first sep s ≡ some (before, behind)
    → s ≡ before ++ sep ∷ behind
unfolding split_at_first
split_at_first-join sep [] before behind h = cc
split_at_first-join sep (c ∷ cs) before behind h = elim (Option-cases (split_at_first sep cs)) [
  | inl e ↦ ground arith
  | inr ((b, a), e) ↦ ground (arith, split_at_first-join sep cs b a e)
]
