-- ===== src/Ignore/Specification/Sound.antt =====
-- What the specifications of `ign___init_pattern_into` in src/ignore.c can give.
use fsvs.Prelude.{
  ℕ, ◌%◌, ◌^◌, ◌<◌, ◌≡◌, refl, ◌⊎◌, inl, inr, Bool, true, false, not, ◌||◌, Option, none, some, [],
  ◌∷◌, ◌==◌, if◌then◌else◌, Bytes, codes, length, drop, arith, Bool-cases, Option-cases, all,
  strncmp_eq, strncmp_eq-prefix,
}
use fsvs.Ignore.Pattern.{Kind, shell, pcre, shell_abs, device, inode}
use fsvs.Ignore.Translate.{
  text, Stripped, rest_is, behind_end, refused, compile_shell_abs, strip_wc_path, fault as overrun,
}
use fsvs.Ignore.Translate.Room.{compile_shell_total, compile_shell_abs_total}
use fsvs.Ignore.Specification.{
  Error, einval, enospc, fault, endless, Draft, Services, is_alnum, stopif, have_now, group_spec,
  group_word, mode_spec, device_spec, minor_spec, inode_spec, compile_text, compile_pattern,
  text_spec, comparison, number_and_colon,
}

-- A pattern whose test sets the status; a device is compared in some way.
abbrev pub IsCompiled : Kind → Type 0
IsCompiled (shell c) = (re : Bytes) × (c ≡ some re)
IsCompiled (pcre c) = (re : Bytes) × (c ≡ some re)
IsCompiled (shell_abs c) = (re : Bytes) × (c ≡ some re)
IsCompiled (device d) = (d.compare == 0) ≡ false
IsCompiled (inode i) = Unit

abbrev pub IsName : Bytes → Type 0
IsName name = (0 < length name) × (all is_alnum name ≡ true)

-- The only errors are EINVAL and a read behind the end of the text.
unfoldable pub Fine : {A : Type 0} → (A → Type 0) → Error ⊎ A → Type 0
Fine P (inl einval) = Unit
Fine P (inl fault) = Unit
Fine P (inl enospc) = ⊥
Fine P (inl endless) = ⊥
Fine P (inr a) = P a

abbrev pub IsOptional : {A : Type 0} → (A → Type 0) → Option A → Type 0
IsOptional P none = Unit
IsOptional P (some a) = P a

abbrev pub IsDraft : Draft → Type 0
IsDraft d = IsOptional IsName d.group_name × IsOptional IsCompiled d.kind

-- A refusal, a result, and a test that refuses.
pub Fine-einval : {A : Type 0} (P : A → Type 0) → Fine P (inl einval)
unfolding Fine
Fine-einval P = tt

pub Fine-inr : {A : Type 0} (P : A → Type 0) (a : A) → P a → Fine P (inr a)
unfolding Fine
Fine-inr P a h = h

pub Fine-stopif :
    {A : Type 0} (P : A → Type 0) (b : Bool) (r : Error ⊎ A)
    → (b ≡ false → Fine P r)
    → Fine P (stopif b r)
unfolding stopif
Fine-stopif P true r h = Fine-einval P
Fine-stopif P false r h = h refl

pub or_right : (a b : Bool) → (a || not b) ≡ false → b ≡ true
or_right true b h = cc
or_right false true h = refl
or_right false false h = cc

pub group_spec-IsDraft :
    (param : Option Bytes) (d : Draft) → IsDraft d → Fine IsDraft (group_spec param d)
unfolding group_spec
group_spec-IsDraft none d w = Fine-einval IsDraft
group_spec-IsDraft (some []) d w = Fine-einval IsDraft
group_spec-IsDraft (some (c ∷ name)) d w = Fine-stopif IsDraft _ _ (λ e.
    Fine-inr IsDraft
      (record d { group_name = some (c ∷ name); data_seen = record d.data_seen { group = true } })
      ((omega arith, or_right d.data_seen.group (all is_alnum (c ∷ name)) e), w.1))

pub have_now-IsDraft : (seen : Bool) (d : Draft) → IsDraft d → Fine IsDraft (have_now seen d)
have_now-IsDraft seen d w = Fine-stopif IsDraft _ _ (λ h. Fine-inr IsDraft d w)

pub group_word-IsDraft :
    (name : Bytes) (d : Draft) → IsName name → IsDraft d → Fine IsDraft (group_word name d)
group_word-IsDraft name d h w =
    have_now-IsDraft d.data_seen.group
      (record d { group_name = some name; data_seen = record d.data_seen { group = true } })
      (h, w.1)

pub mode_spec-IsDraft :
    (sv : Services) (param : Option Bytes) (at_param : Bytes) (d : Draft)
    → IsDraft d
    → Fine IsDraft (mode_spec sv param at_param d)
unfolding mode_spec
mode_spec-IsDraft sv none at_param d w = Fine-einval IsDraft
mode_spec-IsDraft sv (some param) at_param d w = elim (Option-cases (sv.sscanf_modes at_param)) [
  | inl e ↦ rw (e, mode_spec) (Fine-einval IsDraft)
  | inr ((a, c, stop), e) ↦
      rw (e, mode_spec)
        (Fine-stopif IsDraft _ _ (λ h.
          Fine-inr IsDraft
            (record d {
              mode_match_and = a % 2 ^ 16;
              mode_match_cmp = c % 2 ^ 16;
              data_seen = record d.data_seen { mode = true; pattern_subst = true };
            })
            w))
]

pub has_compare : (n : ℕ) → ((if n == 0 then 2 else n) == 0) ≡ false
has_compare n = ground arith

pub minor_spec-IsCompiled :
    (sv : Services) (compare major : ℕ) (s : Bytes)
    → (compare == 0) ≡ false
    → Fine IsCompiled (minor_spec sv compare major s)
unfolding minor_spec
minor_spec-IsCompiled sv compare major [] h =
    Fine-inr IsCompiled
      (device (record { major = major % 2 ^ 32; minor = 0; compare = compare; has_minor = false }))
      h
minor_spec-IsCompiled sv compare major (c ∷ s) h = Fine-stopif IsCompiled _ _ (λ e.
    Fine-inr IsCompiled
      (device (record {
        major = major % 2 ^ 32;
        minor = (sv.strtoul s).0 % 2 ^ 32;
        compare = compare;
        has_minor = true;
      }))
      h)

pub device_spec-IsCompiled : (sv : Services) (s : Bytes) → Fine IsCompiled (device_spec sv s)
unfolding device_spec
device_spec-IsCompiled sv s =
    Fine-stopif IsCompiled _ _
      (λ h. minor_spec-IsCompiled sv _ _ _ (has_compare (comparison 0 s).0))

pub inode_spec-IsCompiled : (sv : Services) (s : Bytes) → Fine IsCompiled (inode_spec sv s)
unfolding inode_spec
inode_spec-IsCompiled sv s = elim (Option-cases (number_and_colon sv s)) [
  | inl e ↦ rw (e, inode_spec) (Fine-einval IsCompiled)
  | inr ((mj, at_minor), e) ↦ elim (Option-cases (number_and_colon sv at_minor)) [
    | inl f ↦ rw (e, f, inode_spec) (Fine-einval IsCompiled)
    | inr ((mn, at_inode), f) ↦
        rw (e, f, inode_spec) (Fine-stopif IsCompiled _ _ (λ h. Fine-inr IsCompiled _ tt))
  ]
]

pub compile_text-IsCompiled :
    (sv : Services) (icase : Bool) (kind : Option Bytes → Kind) (re : Bytes)
    → IsCompiled (kind (some re))
    → Fine IsCompiled (compile_text sv icase kind (text re))
compile_text-IsCompiled sv icase kind re w =
    Fine-stopif IsCompiled _ _ (λ h. Fine-inr IsCompiled (kind (some re)) w)

pub compile_text-fault :
    (sv : Services) (icase : Bool) (kind : Option Bytes → Kind)
    → Fine IsCompiled (compile_text sv icase kind overrun)
unfolding Fine
compile_text-fault sv icase kind = tt

pub Stripped-cases :
    (s : Stripped)
    → (s ≡ refused)
      ⊎ (s ≡ behind_end)
      ⊎ (s ≡ rest_is [])
      ⊎ ((c : ℕ) × (src : Bytes) × (s ≡ rest_is (c ∷ src)))
Stripped-cases refused = inl refl
Stripped-cases behind_end = inr (inl refl)
Stripped-cases (rest_is []) = inr (inr (inl refl))
Stripped-cases (rest_is (c ∷ src)) = inr (inr (inr (c, src, refl)))

-- The translation of an absolute pattern never ends with ENOSPC, nor without an end.
pub compile_abs-IsCompiled :
    (sv : Services) (icase : Bool) (c : Option Bytes) (p : Bytes)
    → Fine IsCompiled (compile_pattern sv icase (shell_abs c) (b'/' ∷ p))
unfolding compile_pattern
compile_abs-IsCompiled sv icase c p =
    elim (Stripped-cases (strip_wc_path sv.wc_path sv.warned (b'/' ∷ p))) [
      | inl e ↦ rw (e, compile_pattern, compile_shell_abs) (Fine-einval IsCompiled)
      | inr (inl e) ↦
          rw (e, compile_pattern, compile_shell_abs) (compile_text-fault sv icase shell_abs)
      | inr (inr (inl e)) ↦
          rw (e, compile_pattern, compile_shell_abs) (compile_text-fault sv icase shell_abs)
      | inr (inr (inr (d, src, e))) ↦
          let (out, q, small) = compile_shell_abs_total sv.wc_path sv.warned p d src e in
          rw (q, compile_pattern) (compile_text-IsCompiled sv icase shell_abs out (out, refl))
    ]

pub compile_shell-IsCompiled :
    (sv : Services) (icase : Bool) (c : Option Bytes) (p : Bytes)
    → Fine IsCompiled (compile_pattern sv icase (shell c) (b'.' ∷ b'/' ∷ p))
unfolding compile_pattern
compile_shell-IsCompiled sv icase c p =
    let (out, q, small) = compile_shell_total p in
    rw (q, compile_pattern) (compile_text-IsCompiled sv icase shell out (out, refl))

pub compile_pcre-IsCompiled :
    (sv : Services) (icase : Bool) (c : Option Bytes) (p : Bytes)
    → Fine IsCompiled (compile_pattern sv icase (pcre c) p)
unfolding compile_pattern
compile_pcre-IsCompiled sv icase c p = compile_text-IsCompiled sv icase pcre p (p, refl)

pub text_spec-IsCompiled :
    (sv : Services) (icase : Bool) (p : Bytes) → Fine IsCompiled (text_spec sv icase p)
unfolding text_spec
text_spec-IsCompiled sv icase p = elim (Bool-cases (strncmp_eq p (codes "./") 2)) [
  | inl e ↦
      let (rest, q) = strncmp_eq-prefix p (codes "./") e in
      rw (e, text_spec)
        (Fine-stopif IsCompiled _ _ (λ h.
          Fine-stopif IsCompiled _ _ (λ h. rw q (compile_shell-IsCompiled sv icase none rest))))
  | inr e ↦ elim (Bool-cases (strncmp_eq p (codes "/") 1)) [
    | inl f ↦
        let (rest, q) = strncmp_eq-prefix p (codes "/") f in
        rw (e, f, text_spec)
          (Fine-stopif IsCompiled _ _ (λ h.
            Fine-stopif IsCompiled _ _ (λ h. rw q (compile_abs-IsCompiled sv icase none rest))))
    | inr f ↦
        rw (e, f, text_spec)
          (Fine-stopif IsCompiled _ _ (λ h.
            Fine-stopif IsCompiled _ _ (λ h. compile_pcre-IsCompiled sv icase none (drop 5 p))))
  ]
]
