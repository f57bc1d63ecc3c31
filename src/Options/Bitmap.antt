-- ===== src/Options/Bitmap.antt =====
-- `opt___strings2bitmap` of src/options.c: the words of a value.
use Prim.Native.Nat.{bit_or}
use fsvs.Prelude.{
  ◌∙◌, ℕ, ◌≡◌, refl, ◌⊎◌, inl, inr, true, false, none, some, List, [], ◌∷◌, ◌++◌, arith,
  if◌then◌else◌, Bytes, All, Option-cases,
}
use fsvs.Options.{
  Strings, find_string, is_clearing, or_words, words, Value, ok, einval, strings2bitmap,
}

-- Words that are in the list.
abbrev pub AllKnown : Strings → List Bytes → Type 0
AllKnown parm ws = All (λ w. (i : ℕ) × (find_string parm w ≡ some i)) ws

or_words-clearing :
    (parm : Strings) (before after : List Bytes) (w : Bytes) (i val : ℕ)
    → AllKnown parm before
    → find_string parm w ≡ some i
    → is_clearing i ≡ true
    → or_words parm (before ++ w ∷ after) val ≡ or_words parm after 0
unfolding or_words
or_words-clearing parm [] after w i val k h c = rw (h, or_words, c) refl
or_words-clearing parm (b ∷ before) after w i val ((j, e), k) h c =
    rw (e, or_words) (or_words-clearing parm before after w i _ k h c)

-- The values of words, and all of them together.
unfoldable pub values : Strings → List Bytes → List ℕ
values parm [] = []
values parm (w ∷ ws) = elim (find_string parm w) [
  | none ↦ values parm ws
  | some i ↦ i ∷ values parm ws
]

abbrev pub or_all : ℕ → List ℕ → ℕ
or_all val [] = val
or_all val (i ∷ is) = or_all (bit_or val i) is

-- Words that are in the list and do not clear the bits.
abbrev pub AllSetting : Strings → List Bytes → Type 0
AllSetting parm ws = All (λ w. (i : ℕ) × (find_string parm w ≡ some i) × (is_clearing i ≡ false)) ws

or_words-setting :
    (parm : Strings) (ws : List Bytes) (val : ℕ)
    → AllSetting parm ws
    → or_words parm ws val ≡ some (or_all val (values parm ws))
unfolding or_words values
or_words-setting parm [] val h = refl
or_words-setting parm (w ∷ ws) val ((i, e, c), h) =
    rw (e, or_words, c, values) (or_words-setting parm ws (bit_or val i) h)

-- In a value whose words are all known, only those behind the last clearing one count: their bits
-- together are the new value, whatever was set before.
pub strings2bitmap-clearing :
    (parm : Strings) (string : Bytes) (prio : ℕ) (v : Value) (before after : List Bytes) (w : Bytes)
    (i : ℕ)
    → words string ≡ before ++ w ∷ after
    → AllKnown parm before
    → find_string parm w ≡ some i
    → is_clearing i ≡ true
    → AllSetting parm after
    → strings2bitmap parm string prio v ≡ (record v { i_val = or_all 0 (values parm after) }, ok)
unfolding strings2bitmap
strings2bitmap-clearing parm string prio v before after w i split known e c setting =
    let all : or_words parm (words string) v.i_val ≡ some (or_all 0 (values parm after)) =
      rw split (
        or_words-clearing parm before after w i v.i_val known e c
        ∙ or_words-setting parm after 0 setting) in
    rw (all, strings2bitmap) refl

or_words_total :
    (parm : Strings) (ws : List Bytes) (val : ℕ)
    → (AllKnown parm ws × ((r : ℕ) × (or_words parm ws val ≡ some r)))
      ⊎ ((¬ AllKnown parm ws) × (or_words parm ws val ≡ none))
unfolding or_words
or_words_total parm [] val = inl (tt, (val, refl))
or_words_total parm (w ∷ ws) val = elim (Option-cases (find_string parm w)) [
  | inl e ↦ inr (λ k. absurd (ground arith), rw (e, or_words) refl)
  | inr (i, e) ↦ elim (or_words_total parm ws (if is_clearing i then 0 else bit_or val i)) [
    | inl (k, (r, q)) ↦ inl (((i, e), k), (r, rw (e, or_words) q))
    | inr (k, q) ↦ inr (λ a. k a.1, rw (e, or_words) q)
  ]
]

-- A value is accepted exactly if all of its words are known; else EINVAL is returned and the option
-- keeps its value.
pub strings2bitmap_error :
    (parm : Strings) (string : Bytes) (prio : ℕ) (v : Value)
    → (AllKnown parm (words string) × ((strings2bitmap parm string prio v).1 ≡ ok))
      ⊎ ((¬ AllKnown parm (words string)) × (strings2bitmap parm string prio v ≡ (v, einval)))
unfolding strings2bitmap
strings2bitmap_error parm string prio v = elim (or_words_total parm (words string) v.i_val) [
  | inl (k, (r, q)) ↦ inl (k, rw (q, strings2bitmap) refl)
  | inr (k, q) ↦ inr (k, rw (q, strings2bitmap) refl)
]
