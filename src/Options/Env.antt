-- ===== src/Options/Env.antt =====
-- `opt__load_env` of src/options.c: what the environment cannot change.
use fsvs.Prelude.{
  skip_ws, ℕ, zero, suc, ◌<◌, ◌≡◌, sym, ap, ◌∙◌, subst, ◌⊎◌, inl, inr, some, List, [], ◌∷◌, arith,
  Bytes, get_elem?, Bool-cases, Option-cases, strncmp_eq, codes, drop,
}
use fsvs.Options.{
  Status, ok, enoent, einval, enomem, Setting, set_named, parse, prio_env, load_env, load_var,
  name_matches, env_parts,
}
use fsvs.Options.Priority.{parse_option_low}

Status-cases : (s : Status) → (s ≡ ok) ⊎ (s ≡ enoent) ⊎ (s ≡ einval) ⊎ (s ≡ enomem)
Status-cases s = ground arith

set_named_keeps :
    (list : List Setting) (key : Bytes) (prio : ℕ) (value : Bytes) (i : ℕ) {ent : Setting}
    → get_elem? list i ≡ some ent
    → prio < ent.prio
    → get_elem? (set_named list key prio value).0 i ≡ some ent
unfolding set_named
set_named_keeps [] key prio value i h lt = cc
set_named_keeps (e ∷ list) key prio value zero {ent} h lt =
    let same : e ≡ ent = ground arith in
    let low = parse_option_low e prio (skip_ws value) (subst (λ x. prio < x.prio) (sym same) lt) in
    elim (Bool-cases (name_matches e.name key)) [
      | inl m ↦ rw (m, set_named) (ap (λ r. some r.0) low ∙ h)
      | inr m ↦ rw (m, set_named) h
    ]
set_named_keeps (e ∷ list) key prio value (suc i) {ent} h lt =
    elim (Bool-cases (name_matches e.name key)) [
      | inl m ↦ rw (m, set_named) h
      | inr m ↦ rw (m, set_named) (set_named_keeps list key prio value i {ent = ent} h lt)
    ]

load_var_keeps :
    (list : List Setting) (cur : Bytes) (i : ℕ) {ent : Setting}
    → get_elem? list i ≡ some ent
    → prio_env < ent.prio
    → get_elem? (load_var list cur).0 i ≡ some ent
unfolding load_var parse
load_var_keeps list cur i {ent} h lt = elim (Bool-cases (strncmp_eq cur (codes "FSVS_") 5)) [
  | inl m ↦ elim (Option-cases (env_parts 31 (drop 5 cur))) [
    | inl e ↦ rw (m, load_var, e) h
    | inr ((key, value), e) ↦
        rw (m, load_var, e) (set_named_keeps list (skip_ws key) prio_env value i {ent = ent} h lt)
  ]
  | inr m ↦ rw (m, load_var) h
]

-- Whatever the environment holds, and also where opt__load_env stops at an error in it, an option that
-- was set with a higher priority, as on the command line, stays as it is.
pub load_env_keeps :
    (list : List Setting) (env : List Bytes) (i : ℕ) {ent : Setting}
    → get_elem? list i ≡ some ent
    → prio_env < ent.prio
    → get_elem? (load_env list env).0 i ≡ some ent
unfolding load_env
load_env_keeps list [] i h lt = h
load_env_keeps list (cur ∷ env) i {ent} h lt =
    let next = load_var_keeps list cur i {ent = ent} h lt in
    elim (Status-cases (load_var list cur).1) [
      | inl e ↦ rw (e, load_env) (load_env_keeps (load_var list cur).0 env i {ent = ent} next lt)
      | inr (inl e) ↦ rw (e, load_env) next
      | inr (inr (inl e)) ↦ rw (e, load_env) next
      | inr (inr (inr e)) ↦ rw (e, load_env) next
    ]
