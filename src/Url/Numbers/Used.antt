-- ===== src/Url/Numbers/Used.antt =====
-- Step 1 of `url___set_internal_nums` in src/url.c: the bitmap holds the numbers in use.
use fsvs.Prelude.{
  ℕ, ◌+◌, ◌≤◌, ◌≡◌, refl, inl, inr, true, false, none, some, List, [], ◌∷◌, arith, ltb, leb, length,
  Bool-cases,
}
use fsvs.Url.Numbers.{Numbers, is_set, occurs, mark_used, used, fd_setsize}

-- The numbers that are given, and how many are missing.
unfoldable pub given : Numbers → List ℕ
given [] = []
given (none ∷ ns) = given ns
given (some n ∷ ns) = n ∷ given ns

unfoldable pub missing : Numbers → ℕ
missing [] = 0
missing (none ∷ ns) = missing ns + 1
missing (some n ∷ ns) = missing ns

-- No number stands in the list twice.
abbrev pub Distinct : List ℕ → Type 0
Distinct [] = Unit
Distinct (n ∷ ns) = (is_set n ns ≡ false) × Distinct ns

pub occurs-given : (n : ℕ) (ns : Numbers) → occurs n ns ≡ is_set n (given ns)
unfolding occurs is_set given
occurs-given n [] = refl
occurs-given n (none ∷ ns) = occurs-given n ns
occurs-given n (some m ∷ ns) = ground (arith, occurs-given n ns)

-- What the bitmap and the numbers that are left have to do with one another: the numbers not above
-- `count` are in the new bitmap, as are those that were in it before.
pub record Marked (count : ℕ) (ns : Numbers) (before after : List ℕ) : Type 0 where
  pub distinct : Distinct (given ns)
  pub fresh : (m : ℕ) → is_set m (given ns) ≡ true → m ≤ count → is_set m before ≡ false
  pub kept : (m : ℕ) → is_set m before ≡ true → is_set m after ≡ true
  pub added : (m : ℕ) → is_set m (given ns) ≡ true → m ≤ count → is_set m after ≡ true
  pub size : length after ≤ length before + length (given ns)

pub mark_used-Marked :
    (count : ℕ) (ns : Numbers) (before : List ℕ) {after : List ℕ}
    → mark_used count ns before ≡ used after
    → Marked count ns before after
unfolding mark_used given is_set
mark_used-Marked count [] before h = record {
  distinct = tt;
  fresh = λ m a. cc;
  kept = λ m a. ground arith;
  added = λ m a. cc;
  size = ground arith;
}
mark_used-Marked count (none ∷ ns) before h =
    let r = mark_used-Marked count ns before h in
    record { distinct = r.distinct; fresh = r.fresh; kept = r.kept; added = r.added; size = r.size }
mark_used-Marked count (some n ∷ ns) before {after} h = elim (Bool-cases (ltb count n)) [
  | inl above ↦
      let r = mark_used-Marked count ns before {after = after} (ground arith) in
      record {
        distinct = (ground (arith, occurs-given n ns), r.distinct);
        fresh = λ m a le. ground (arith, r.fresh m);
        kept = r.kept;
        added = λ m a le. ground (arith, r.added m);
        size = ground (arith, r.size);
      }
  | inr below ↦ elim (Bool-cases (leb fd_setsize n)) [
    | inl outside ↦ absurd (ground arith)
    | inr inside ↦
        let r = mark_used-Marked count ns (n ∷ before) {after = after} (ground arith) in
        record {
          distinct = (ground (arith, r.fresh n), r.distinct);
          fresh = λ m a le. ground (arith, r.fresh m);
          kept = λ m a. ground (arith, r.kept m);
          added = λ m a le. ground (arith, r.added m, r.kept m);
          size = ground (arith, r.size);
        }
  ]
]
