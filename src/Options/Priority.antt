-- ===== src/Options/Priority.antt =====
-- The priorities of options: `opt__parse_option` and `opt__parse` of src/options.c.
use fsvs.Prelude.{
  skip_ws, ℕ, ◌≤◌, ◌<◌, ◌≡◌, refl, ◌∙◌, ap, ◌⊎◌, inl, inr, arith, leb, Bytes, Bool-cases, ltb,
  le→ltb, lt→ltb, if◌then◌else◌,
}
use fsvs.Options.{
  Value, Status, ok, enoent, einval, enomem, Parser, Strings, string2val, Setting, parsed,
  parse_option,
}

Le-cases : (a b : ℕ) → (a ≤ b) ⊎ (b < a)
Le-cases a b = ground arith

-- A value that is accepted does not depend on an earlier one.
abbrev pub Overwrites : Parser → Type 0
Overwrites f = (s t : Bytes) (p q : ℕ) (v : Value) → (f s p v).1 ≡ ok → f s p (f t q v).0 ≡ f s p v

pub string2val-Overwrites : (parm : Strings) → Overwrites (string2val parm)
unfolding string2val
string2val-Overwrites parm s t p q v h = ground arith

pub parse_option_low :
    (ent : Setting) (p : ℕ) (s : Bytes) → p < ent.prio → parse_option ent p s ≡ (ent, ok)
unfolding parse_option
parse_option_low ent p s h = ground arith

-- An option that has been set.
abbrev pub set_to : Setting → ℕ → Value → Setting
set_to ent p v = record ent { value = v; prio = p }

parsed_ok :
    (ent : Setting) (p : ℕ) (r : Value × Status)
    → r.1 ≡ ok
    → parsed ent p r ≡ (set_to ent p r.0, ok)
parsed_ok ent p (v, ok) h = refl
parsed_ok ent p (v, enoent) h = cc
parsed_ok ent p (v, einval) h = cc
parsed_ok ent p (v, enomem) h = cc

parse_option_high :
    (ent : Setting) (p : ℕ) (s : Bytes)
    → ent.prio ≤ p
    → (ent.parse (skip_ws s) p ent.value).1 ≡ ok
    → parse_option ent p s ≡ (set_to ent p (ent.parse (skip_ws s) p ent.value).0, ok)
unfolding parse_option
parse_option_high ent p s le h = elim (Bool-cases (leb ent.prio p)) [
  | inl e ↦ simp e (parsed_ok ent p _ h)
  | inr e ↦ absurd (ground arith)
]

-- The value of the higher priority stays.
parse_option-lower_first :
    (ent : Setting) (s t : Bytes) (p q : ℕ)
    → Overwrites ent.parse
    → p < q
    → (ent.parse (skip_ws s) p ent.value).1 ≡ ok
    → (ent.parse (skip_ws t) q ent.value).1 ≡ ok
    → parse_option (parse_option ent p s).0 q t ≡ parse_option ent q t
parse_option-lower_first ent s t p q law lt h k = elim (Le-cases ent.prio p) [
  | inl le ↦
      let again = law (skip_ws t) (skip_ws s) q p ent.value k in
      simp (parse_option_high ent p s le h, parse_option_high ent q t (omega arith) k)
        (parse_option_high (set_to ent p (ent.parse (skip_ws s) p ent.value).0) q t (omega arith)
            (rw again k)
          ∙ ap (λ r. (set_to ent q r.0, ok)) again)
  | inr above ↦ simp (parse_option_low ent p s above)
]

parse_option-higher_first :
    (ent : Setting) (s t : Bytes) (p q : ℕ)
    → p < q
    → (ent.parse (skip_ws t) q ent.value).1 ≡ ok
    → parse_option (parse_option ent q t).0 p s ≡ parse_option ent q t
parse_option-higher_first ent s t p q lt k = elim (Le-cases ent.prio q) [
  | inl le ↦
      simp (parse_option_high ent q t le k)
        (parse_option_low (set_to ent q (ent.parse (skip_ws t) q ent.value).0) p s lt)
  | inr above ↦ simp (parse_option_low ent q t above) (parse_option_low ent p s (omega arith))
]

-- Two accepted settings of one option, of different priority, may be read in either order: the setting of the higher
-- priority alone gives the same, and that is its value and its priority, unless the option has a higher one
-- already. The condition: what the option's parser accepts does not depend on the value before, as for opt___string2val;
-- opt___strings2bitmap, which adds bits to the value, is not one of these.
pub parse_option_comm :
    (ent : Setting) (s t : Bytes) (p q : ℕ)
    → Overwrites ent.parse
    → p < q
    → (ent.parse (skip_ws s) p ent.value).1 ≡ ok
    → (ent.parse (skip_ws t) q ent.value).1 ≡ ok
    → (parse_option (parse_option ent p s).0 q t ≡ parse_option ent q t)
      × (parse_option (parse_option ent q t).0 p s ≡ parse_option ent q t)
      × (parse_option ent q t ≡ (
        if ltb q ent.prio then ent else set_to ent q (ent.parse (skip_ws t) q ent.value).0,
        ok,
      ))
parse_option_comm ent s t p q law lt h k = (
  parse_option-lower_first ent s t p q law lt h k,
  parse_option-higher_first ent s t p q lt k,
  elim (Le-cases ent.prio q) [
    | inl le ↦ rw (le→ltb q ent.prio le) (parse_option_high ent q t le k)
    | inr above ↦ rw (lt→ltb q ent.prio above) (parse_option_low ent q t above)
  ],
)
