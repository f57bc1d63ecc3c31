-- ===== src/Warnings/Tests.antt =====
-- Runs of the functions of src/warnings.c, and the theorems at concrete options and warnings.
use fsvs.Prelude.{◌≡◌, refl, [], ◌∷◌, arith, codes, split_at_first, strcmp_eq, strncmp_eq}
use fsvs.Warnings.{
  Warning, Table, Status, ok, einval, printed, once, stop, warn_options, parse_option, find_action,
  set_warn_option, set_all, set_tokens, split_process, warn, summary,
}
use fsvs.Warnings.Priority.{set_warn_option_comm}

abbrev meta_ignored : Table
meta_ignored = (set_warn_option (codes "meta=ignore") 5 warn_options).0

set_warn_option_comm_example :
    (set_warn_option
      (codes "meta=ignore")
      5
      (set_warn_option (codes "meta-user=stop") 7 warn_options).0).0
    ≡ (set_warn_option (codes "meta-user=stop") 7 meta_ignored).0
set_warn_option_comm_example =
    set_warn_option_comm (codes "meta=ignore") (codes "meta-user=stop") 5 7 warn_options
      (omega arith)

bad_word_status : (set_warn_option (codes "meta=quiet") 5 warn_options).1 ≡ einval
unfolding set_warn_option parse_option split_at_first find_action strcmp_eq
bad_word_status = refl

abbrev user : Warning
user = record { text = codes "meta-user"; action = once; count_of = 0; prio = 0 }

abbrev chown : Warning
chown = record { text = codes "chown-other"; action = stop; count_of = 0; prio = 0 }

-- The two words of a line, of which the second is refused.
abbrev one_set : Table × Status
one_set = split_process (codes "no-urllist=stop, x=stop") 3 warn_options

split_keeps_first : one_set.1 ≡ einval
unfolding split_process set_tokens set_warn_option parse_option split_at_first find_action strcmp_eq
    set_all strncmp_eq
split_keeps_first = refl

summary_line : summary ((warn ok printed user).entry ∷ chown ∷ []) ≡ (codes "meta-user", 1) ∷ []
unfolding summary warn
summary_line = refl
