-- ===== src/Ignore/Parse/Sound.antt =====
-- What `ign___init_pattern_into` of src/ignore.c accepts, and how it can fail.
use fsvs.Prelude.{
  ℕ, zero, suc, ◌+◌, ◌≤◌, ◌≡◌, refl, ◌⊎◌, inl, inr, Bool, true, false, ◌||◌, Option, none, some, [],
  ◌∷◌, ◌==◌, if◌then◌else◌, Bytes, codes, length, drop, arith, Bool-cases, strncmp_eq,
}
use fsvs.Ignore.Pattern.{Kind, shell}
use fsvs.Ignore.Parse.{
  with_kind, go_on, word_spec, specification, specifications, kind_of, name_or_default, Rule,
  finish, empty_draft, init_pattern_into, skip_blanks,
}
use fsvs.Ignore.Specification.{
  Error, einval, enospc, fault, endless, Draft, Services, is_word, to_delimiter, param_of, letters,
  skip_delimiters,
}
use fsvs.Ignore.Specification.Sound.{
  IsCompiled, IsName, Fine, IsOptional, IsDraft, Fine-inr, Fine-stopif, group_spec-IsDraft,
  have_now-IsDraft, group_word-IsDraft, mode_spec-IsDraft, device_spec-IsCompiled,
  inode_spec-IsCompiled, text_spec-IsCompiled,
}

-- What is left behind a specification is not longer than `m`.
abbrev pub IsNext : ℕ → Draft × Option Bytes → Type 0
IsNext m (d, o) = IsDraft d × IsOptional (λ rest. length rest ≤ m) o

Fine-ite :
    {A : Type 0} (P : A → Type 0) (b : Bool) (r s : Error ⊎ A)
    → Fine P r
    → Fine P s
    → Fine P (if b then r else s)
Fine-ite P true r s h k = h
Fine-ite P false r s h k = k

go_on-IsNext :
    (m : ℕ) (rest : Bytes) (r : Error ⊎ Draft)
    → length rest ≤ m
    → Fine IsDraft r
    → Fine (IsNext m) (go_on rest r)
unfolding Fine
go_on-IsNext m rest (inl einval) l h = tt
go_on-IsNext m rest (inl fault) l h = tt
go_on-IsNext m rest (inl enospc) l h = h
go_on-IsNext m rest (inl endless) l h = h
go_on-IsNext m rest (inr d) l h = (h, l)

with_kind-IsNext :
    (m : ℕ) (d : Draft) (r : Error ⊎ Kind)
    → IsDraft d
    → Fine IsCompiled r
    → Fine (IsNext m) (with_kind d r)
unfolding Fine
with_kind-IsNext m d (inl einval) w h = tt
with_kind-IsNext m d (inl fault) w h = tt
with_kind-IsNext m d (inl enospc) w h = h
with_kind-IsNext m d (inl endless) w h = h
with_kind-IsNext m d (inr k) w h = ((w.0, h), tt)

to_delimiter-le : (s : Bytes) → length (to_delimiter s).1 ≤ length s
unfolding to_delimiter
to_delimiter-le [] = omega arith
to_delimiter-le (c ∷ s) = ground (arith, to_delimiter-le s)

param_of-le : (s : Bytes) → length (param_of s).1 ≤ length s
unfolding param_of
param_of-le [] = omega arith
param_of-le (c ∷ s) = ground (arith, to_delimiter-le s, to_delimiter-le (c ∷ s))

letters_lem : (s : Bytes) → length (letters s).0 + length (letters s).1 ≡ length s
unfolding letters
letters_lem [] = omega arith
letters_lem (c ∷ s) = ground (arith, letters_lem s)

skip_delimiters-le : (s : Bytes) → length (skip_delimiters s) ≤ length s
unfolding skip_delimiters
skip_delimiters-le [] = omega arith
skip_delimiters-le (c ∷ s) = ground (arith, skip_delimiters-le s)

Fine-IsNext :
    (m n : ℕ) (r : Error ⊎ (Draft × Option Bytes)) → m ≤ n → Fine (IsNext m) r → Fine (IsNext n) r
unfolding Fine
Fine-IsNext m n (inl einval) l h = tt
Fine-IsNext m n (inl fault) l h = tt
Fine-IsNext m n (inl enospc) l h = h
Fine-IsNext m n (inl endless) l h = h
Fine-IsNext m n (inr (d, none)) l h = h
Fine-IsNext m n (inr (d, some rest)) l h = (h.0, omega arith)

word_spec-IsNext :
    (sv : Services) (d : Draft) (pattern : Bytes) (n : ℕ) (s : Bytes)
    → IsDraft d
    → Fine (IsNext (length s)) (word_spec sv d pattern n s)
unfolding word_spec
word_spec-IsNext sv d pattern n s w =
    let next : (r : Error ⊎ Draft)
        → Fine IsDraft r
        → Fine (IsNext (length s)) (go_on (param_of s).1 r) =
      λ r h. go_on-IsNext (length s) (param_of s).1 r (param_of-le s) h in
    let last : (r : Error ⊎ Kind) → Fine IsCompiled r → Fine (IsNext (length s)) (with_kind d r) =
      λ r h. with_kind-IsNext (length s) d r w h in
    Fine-ite (IsNext (length s)) (is_word (codes "take") pattern n) _ _
      (next _ (group_word-IsDraft (codes "take") d (omega arith, refl) w))
      (Fine-ite (IsNext (length s)) (is_word (codes "ignore") pattern n) _ _
        (next _ (group_word-IsDraft (codes "ignore") d (omega arith, refl) w))
        (Fine-ite (IsNext (length s)) (is_word (codes "group:") pattern n) _ _
          (next _ (group_spec-IsDraft (param_of s).0 d w))
          (Fine-ite (IsNext (length s)) (is_word (codes "dironly") pattern n) _ _
            (next _ (
              have_now-IsDraft d.data_seen.dir
                (record d {
                  dir_only = true;
                  data_seen = record d.data_seen { dir = true; pattern_subst = true };
                })
                w))
            (Fine-ite (IsNext (length s))
              (is_word (codes "nocase") pattern n || is_word (codes "insens") pattern n) _ _
              (next _ (
                have_now-IsDraft d.data_seen.icase
                  (record d { is_icase = true; data_seen = record d.data_seen { icase = true } })
                  w))
              (Fine-ite (IsNext (length s)) (is_word (codes "mode:") pattern n) _ _
                (next _ (mode_spec-IsDraft sv (param_of s).0 (drop 1 s) d w))
                (Fine-ite (IsNext (length s)) (strncmp_eq (codes "DEVICE:") pattern 7) _ _
                  (last _ (device_spec-IsCompiled sv (drop 7 pattern)))
                  (Fine-ite (IsNext (length s)) (strncmp_eq (codes "INODE:") pattern 6) _ _
                    (last _ (inode_spec-IsCompiled sv (drop 6 pattern)))
                    (last _ (text_spec-IsCompiled sv d.is_icase pattern)))))))))

specification-IsNext :
    (sv : Services) (d : Draft) (c : ℕ) (s : Bytes)
    → IsDraft d
    → Fine (IsNext (length s)) (specification sv d (c ∷ s))
unfolding specification
specification-IsNext sv d c s w = elim (Bool-cases (length (letters (c ∷ s)).0 == 0)) [
  | inl e ↦
      rw (e, specification)
        (with_kind-IsNext (length s) d _ w (text_spec-IsCompiled sv d.is_icase (c ∷ s)))
  | inr e ↦
      rw (e, specification)
        (Fine-IsNext _ _ _ (ground (arith, letters_lem (c ∷ s)))
          (word_spec-IsNext sv d (c ∷ s) (length (letters (c ∷ s)).0) (letters (c ∷ s)).1 w))
]

-- One round of the loop.
specifications_step :
    (sv : Services) (fuel : ℕ) (d : Draft) (c : ℕ) (s : Bytes)
    → ((d' : Draft) (rest : Bytes)
        → length rest ≤ length s
        → IsDraft d'
        → Fine IsDraft (specifications sv fuel d' (skip_delimiters rest)))
    → Fine (IsNext (length s)) (specification sv d (c ∷ s))
    → Fine IsDraft (specifications sv (suc fuel) d (c ∷ s))
unfolding specifications Fine
specifications_step sv fuel d c s ih h =
    elim (specification sv d (c ∷ s))
        as (λ r.
          specification sv d (c ∷ s) ≡ r
          → Fine (IsNext (length s)) r
          → Fine IsDraft (specifications sv (suc fuel) d (c ∷ s))) [
            | inl einval ↦ λ e h. rw (e, specifications) tt
            | inl fault ↦ λ e h. rw (e, specifications) tt
            | inl enospc ↦ λ e h. absurd h
            | inl endless ↦ λ e h. absurd h
            | inr (d', none) ↦ λ e h. rw (e, specifications) h.0
            | inr (d', some rest) ↦ λ e h. rw (e, specifications) (ih d' rest h.1 h.0)
          ]
      refl h

specifications-IsDraft :
    (sv : Services) (fuel : ℕ) (d : Draft) (s : Bytes)
    → length s ≤ fuel
    → IsDraft d
    → Fine IsDraft (specifications sv fuel d s)
unfolding specifications
specifications-IsDraft sv fuel d [] l w = Fine-inr IsDraft d w
specifications-IsDraft sv zero d (c ∷ s) l w = absurd (omega arith)
specifications-IsDraft sv (suc fuel) d (c ∷ s) l w =
    specifications_step sv fuel d c s
      (λ d' rest m w'.
        specifications-IsDraft sv fuel d' (skip_delimiters rest)
          (omega (arith, skip_delimiters-le rest)) w')
      (specification-IsNext sv d c s w)

-- A pattern that is accepted: its group has a name of letters and digits, and it has a test that sets the status,
-- or is one of specifications only.
abbrev pub IsRule : Rule → Type 0
IsRule r = IsName r.group_name × ((r.kind ≡ shell none) ⊎ IsCompiled r.kind)

Fine-IsRule :
    (r : Rule)
    → IsName r.group_name
    → (r.kind ≡ shell none) ⊎ IsCompiled r.kind
    → Fine IsRule (inr r)
Fine-IsRule r h k = Fine-inr IsRule r (h, k)

name_or_default-IsName : (o : Option Bytes) → IsOptional IsName o → IsName (name_or_default o)
name_or_default-IsName none w = (omega arith, refl)
name_or_default-IsName (some g) w = w

kind_of-IsCompiled :
    (o : Option Kind) → IsOptional IsCompiled o → (kind_of o ≡ shell none) ⊎ IsCompiled (kind_of o)
kind_of-IsCompiled none w = inl refl
kind_of-IsCompiled (some k) w = inr w

finish-IsRule : (pattern : Bytes) (d : Draft) → IsDraft d → Fine IsRule (finish pattern d)
unfolding finish
finish-IsRule pattern d w = Fine-stopif IsRule _ _ (λ h.
    Fine-stopif IsRule _ _ (λ h.
      Fine-IsRule _ (name_or_default-IsName d.group_name w.0) (kind_of-IsCompiled d.kind w.1)))

-- The end of the function.
init_step :
    (pattern : Bytes) (r : Error ⊎ Draft)
    → Fine IsDraft r
    → Fine IsRule (elim r as (λ r. Error ⊎ Rule) [ inl e ↦ inl e | inr d ↦ finish pattern d ])
unfolding Fine
init_step pattern (inl einval) h = tt
init_step pattern (inl fault) h = tt
init_step pattern (inl enospc) h = h
init_step pattern (inl endless) h = h
init_step pattern (inr d) h = finish-IsRule pattern d h

-- Every text is either accepted as such a pattern, or refused with EINVAL, or read behind its end. The loop comes
-- to an end, and the memory for a translated pattern is never too small.
pub init_pattern_into-IsRule :
    (sv : Services) (given : Bytes) → Fine IsRule (init_pattern_into sv given)
unfolding init_pattern_into
init_pattern_into-IsRule sv given = init_step (skip_blanks given) _ (
    specifications-IsDraft sv (length (skip_blanks given)) empty_draft (skip_blanks given)
      (omega arith) (tt, tt))
