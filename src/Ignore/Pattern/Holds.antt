-- ===== src/Ignore/Pattern/Holds.antt =====
-- The test of one pattern in `ign__is_ignore` of src/ignore.c against a specification that has no state.
use fsvs.Prelude.{
  ℕ, zero, suc, ◌+◌, ◌*◌, ◌≤◌, ◌≡◌, refl, ap, ◌⊎◌, inl, inr, Bool, true, false, not, ◌&&◌, ◌||◌,
  Option, none, some, leb, ◌==◌, if◌then◌else◌, Bytes, arith, Bool-cases, Option-cases,
}
use Prim.Native.Nat.{bit_and}
use fsvs.Ignore.Match.{counted, with_group}
use fsvs.Ignore.Pattern.{
  Stat, Device, Kind, shell, pcre, shell_abs, device, inode, Group, Pattern, matched, no_match,
  too_small, Services, compare_dev, device_holds, sort_by_inode, is_dir, Order, is_equal, Scratch,
  Ended, run_match, kept, test_text, test_device, test_pattern,
}

-- The mode is one that the pattern asks for.
abbrev pub is_allowed : Pattern → ℕ → Bool
is_allowed p mode =
    not (p.dir_only && not (is_dir mode))
    && (p.mode_match_and == 0 || bit_and mode p.mode_match_and == p.mode_match_cmp)

abbrev pub text_holds : (Bytes → Bytes → Bool) → Bytes → Option Bytes → Bool
text_holds holds path none = false
text_holds holds path (some re) = holds re path

abbrev pub is_true : Option Bool → Bool
is_true none = false
is_true (some b) = b

-- Whether a pattern holds for an entry, if `holds` tells it for regular expressions.
unfoldable pub pattern_holds :
    Services → (Bytes → Bytes → Bool) → Stat → Bytes → Stat → Pattern → Bool
pattern_holds sv holds dir path st p = elim p.kind [
  | shell c ↦ is_allowed p st.mode && text_holds holds path c
  | pcre c ↦ is_allowed p st.mode && text_holds holds path c
  | shell_abs c ↦ is_allowed p st.mode && text_holds holds path c
  | device d ↦
      is_true (device_holds d.compare (compare_dev sv (if is_dir st.mode then dir else st) d))
  | inode i ↦ i.dev == st.dev && i.ino == st.ino
]

-- Patterns whose test sets the status: those with an expression, and one of five comparisons of devices.
abbrev pub IsDefinite : Kind → Type 0
IsDefinite (shell c) = (re : Bytes) × (c ≡ some re)
IsDefinite (pcre c) = (re : Bytes) × (c ≡ some re)
IsDefinite (shell_abs c) = (re : Bytes) × (c ≡ some re)
IsDefinite (device d) = (leb 1 d.compare && leb d.compare 6 && not (d.compare == 5)) ≡ true
IsDefinite (inode i) = Unit

-- What `pcre2_match` promises: with match data for `n` pairs it tells whether the expression holds, and with
-- smaller ones it may also ask for larger ones; they can be created.
abbrev pub Promises : Services → (Bytes → Bytes → Bool) → Bytes → ℕ → Type 0
Promises sv holds path n =
    ((re : Bytes) (size : ℕ)
      → n ≤ size
      → sv.pcre2_match re path size ≡ (if holds re path then matched else no_match))
    × ((re : Bytes) (size : ℕ)
        → (sv.pcre2_match re path size ≡ too_small)
          ⊎ (sv.pcre2_match re path size ≡ (if holds re path then matched else no_match)))
    × ((size : ℕ) → sv.create size ≡ true)

abbrev pub group_of : Services → Pattern → ℕ ⊎ Group
group_of sv p = elim p.group_def [ some g ↦ inr g | none ↦ sv.load_group p.group_name ]

-- A pattern whose group is known.
abbrev pub grouped : Pattern → Group → Pattern
grouped p g = record p { group_def = some g }

-- One test of a pattern has been counted.
abbrev pub tested : Services → Pattern → Pattern
tested sv p = elim (group_of sv p) [ inl e ↦ counted p | inr g ↦ counted (grouped p g) ]

pub grouped_same : (p : Pattern) (g : Group) → p.group_def ≡ some g → p ≡ grouped p g
grouped_same p g e = ap (λ o. record p { group_def = o }) e

pub with_group_lem :
    (sv : Services) (z : Bool) (p : Pattern) (g : Group)
    → group_of sv p ≡ inr g
    → (z' : Bool) × (with_group sv z p ≡ inr (grouped p g, g, z'))
unfolding with_group
with_group_lem sv z p g e = elim (Option-cases p.group_def) [
  | inl q ↦
      let l : sv.load_group p.group_name ≡ inr g = rw q at e in (true, rw (q, l, with_group) refl)
  | inr (f, q) ↦
      let l : f ≡ g = ground arith in
      (z, rw (q, l, with_group) (ap (λ a. inr (a, g, z)) (grouped_same p g (rw l at q))))
]

-- One call of `pcre2_match` that is told.
pub run_match_told :
    (sv : Services) (re : Bytes) (path : Bytes) (b : Bool) (fuel : ℕ) (s : Scratch)
    → sv.pcre2_match re path s.size ≡ (if b then matched else no_match)
    → run_match sv re path (suc fuel) s ≡ (kept b, s)
unfolding run_match
run_match_told sv re path true fuel s e = rw (e, run_match) refl
run_match_told sv re path false fuel s e = rw (e, run_match) refl

-- With enough steps the loop about `pcre2_match` tells whether the expression holds.
pub run_match_lem :
    (sv : Services) (holds : Bytes → Bytes → Bool) (path : Bytes) (n : ℕ)
    → Promises sv holds path n
    → (re : Bytes) (fuel : ℕ) (s : Scratch) → n ≤ s.size + 5 * fuel
    → (s' : Scratch) × (run_match sv re path (suc fuel) s ≡ (kept (holds re path), s'))
      × (s.size ≤ s'.size)
unfolding run_match
run_match_lem sv holds path n w re zero s h =
    (s, run_match_told sv re path (holds re path) zero s (w.0 re s.size (omega arith)), omega arith)
run_match_lem sv holds path n w re (suc fuel) s h = elim (w.1 re s.size) [
  | inr e ↦ (s, run_match_told sv re path (holds re path) (suc fuel) s e, omega arith)
  | inl e ↦
      let (s', q, l) =
        run_match_lem sv holds path n w re fuel (record s { size = s.size + 5 }) (omega arith) in
      (s', rw (e, w.2 (s.size + 5), run_match) q, omega arith)
]

pub not-or : (a b c : Bool) → (a || b) ≡ c → (not a && not b) ≡ not c
not-or true b c e = ap not e
not-or false b c e = ap not e

pub test_text_lem :
    (sv : Services) (holds : Bytes → Bytes → Bool) (path : Bytes) (n : ℕ)
    → Promises sv holds path n
    → (fuel : ℕ) (z : Bool) (mode : ℕ) (p : Pattern) (re : Bytes) (s : Scratch)
    → n ≤ s.size + 5 * fuel
    → (s' : Scratch) × (test_text sv (suc fuel) z path mode p (some re) s
        ≡ (kept (is_allowed p mode && holds re path), s'))
      × (s.size ≤ s'.size)
unfolding test_text
test_text_lem sv holds path n w fuel z mode p re s h =
    elim (Bool-cases (p.dir_only && not (is_dir mode))) [
      | inl d ↦ (s, rw (d, test_text) refl, omega arith)
      | inr d ↦
          elim (Bool-cases
            (p.mode_match_and == 0 || bit_and mode p.mode_match_and == p.mode_match_cmp)) [
              | inl m ↦
                  let (s', e, l) = run_match_lem sv holds path n w re fuel s h in
                  (s', rw (d, m, not-or _ _ true m, test_text) e, l)
              | inr m ↦ (s, rw (d, m, not-or _ _ false m, test_text) refl, omega arith)
            ]
    ]

pub has_case :
    (compare : ℕ) (o : Order)
    → (leb 1 compare && leb compare 6 && not (compare == 5)) ≡ true
    → device_holds compare o ≡ some (is_true (device_holds compare o))
unfolding device_holds
has_case compare o h = ground arith

pub sort_by_inode_lem :
    (a b : Stat) → is_equal (sort_by_inode a b) ≡ (a.dev == b.dev && a.ino == b.ino)
unfolding sort_by_inode
sort_by_inode_lem a b = ground arith

-- What a test ends with, and match data that are never made smaller.
abbrev pub Ends : Ended × Scratch → Bool → Scratch → Type 0
Ends r b s = (s' : Scratch) × (r ≡ (kept b, s')) × (s.size ≤ s'.size)

pub test_compiled :
    (sv : Services) (holds : Bytes → Bytes → Bool) (path : Bytes) (n : ℕ)
    → Promises sv holds path n
    → (fuel : ℕ) (z : Bool) (mode : ℕ) (p : Pattern) (c : Option Bytes) (s : Scratch)
    → (re : Bytes) × (c ≡ some re)
    → n ≤ s.size + 5 * fuel
    → Ends
        (test_text sv (suc fuel) z path mode p c s)
        (is_allowed p mode && text_holds holds path c)
        s
test_compiled sv holds path n w fuel z mode p c s (re, e) h =
    rw e (test_text_lem sv holds path n w fuel z mode p re s h)

pub test_device_lem :
    (sv : Services) (z : Bool) (dir st : Stat) (d : Device)
    → IsDefinite (device d)
    → test_device sv z dir st d
      ≡ kept
          (is_true (device_holds d.compare (compare_dev sv (if is_dir st.mode then dir else st) d)))
unfolding test_device
test_device_lem sv z dir st d h =
    rw (has_case d.compare (compare_dev sv (if is_dir st.mode then dir else st) d) h, test_device)
      refl

-- A test of a pattern that sets the status ends with what the specification says.
pub test_pattern_lem :
    (sv : Services) (holds : Bytes → Bytes → Bool) (path : Bytes) (n : ℕ)
    → Promises sv holds path n
    → (fuel : ℕ) (z : Bool) (dir st : Stat) (p : Pattern) (s : Scratch) → IsDefinite p.kind
    → n ≤ s.size + 5 * fuel
    → Ends (test_pattern sv (suc fuel) z dir path st p s) (pattern_holds sv holds dir path st p) s
unfolding test_pattern pattern_holds
test_pattern_lem sv holds path n w fuel z dir st p s d h =
    elim p.kind
        as (λ k.
          p.kind ≡ k
          → IsDefinite k
          → Ends (test_pattern sv (suc fuel) z dir path st p s)
              (pattern_holds sv holds dir path st p) s) [
                | shell c ↦ λ q d.
                    rw (q, test_pattern, pattern_holds)
                      (test_compiled sv holds path n w fuel z st.mode p c s d h)
                | pcre c ↦ λ q d.
                    rw (q, test_pattern, pattern_holds)
                      (test_compiled sv holds path n w fuel z st.mode p c s d h)
                | shell_abs c ↦ λ q d.
                    rw (q, test_pattern, pattern_holds)
                      (test_compiled sv holds path n w fuel z st.mode p c s d h)
                | device i ↦ λ q d. (
                  s,
                  rw (q, test_pattern, pattern_holds)
                      (ap (λ t. (t, s)) (test_device_lem sv z dir st i d)),
                  omega arith,
                )
                | inode i ↦ λ q d. (
                  s,
                  rw (q, test_pattern, pattern_holds)
                      (ap (λ b. (kept b, s)) (sort_by_inode_lem i st)),
                  omega arith,
                )
              ]
      refl d
