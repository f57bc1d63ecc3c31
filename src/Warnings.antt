-- ===== src/Warnings.antt =====
-- src/warnings.c and src/warnings.h: the table of warnings, the option that sets their actions, and
-- what happens when a warning is raised.
mod Priority
mod Raise
mod Tests
use fsvs.Prelude.{
  ℕ, ◌+◌, ◌%◌, ◌^◌, Bool, true, false, not, ◌&&◌, ◌||◌, Option, none, some, List, [], ◌∷◌, ◌++◌,
  map, ltb, leb, ◌==◌, if◌then◌else◌, length, get_elem?, set, Bytes, codes, strcmp_eq, strncmp_eq,
  split_at_first,
}

-- `warning_action_e`
pub data Action : Type 0 where
  once always stop ignore count : Action

-- `enum opt__prio_e` of src/options.h, by its values.
abbrev pub Prio : Type 0
Prio = ℕ

-- `struct wa__warnings`
pub record Warning : Type 0 where
  pub text : Bytes
  pub action : Action
  pub count_of : ℕ
  pub prio : Prio

abbrev pub Table : Type 0
Table = List Warning

-- The return values that occur here, and any other one.
pub data Status : Type 0 where
  ok einval eagain : Status
  code : ℕ → Status

-- `wa__warn_action_text`, from the last index down, as the loop goes.
abbrev pub action_texts : List (Bytes × Action)
action_texts =
    (codes "count", count)
    ∷ (codes "ignore", ignore)
    ∷ (codes "stop", stop)
    ∷ (codes "always", always)
    ∷ (codes "once", once)
    ∷ []

abbrev named : Bytes → Action → Warning
named text action = record { text = text; action = action; count_of = 0; prio = 0 }

-- `wa___warn_options`, in the order of `warning_e`.
abbrev pub warn_options : Table
warn_options =
    named (codes "meta-mtime") once
    ∷ named (codes "meta-user") once
    ∷ named (codes "meta-group") once
    ∷ named (codes "meta-umask") once
    ∷ named (codes "no-urllist") once
    ∷ named (codes "charset-invalid") once
    ∷ named (codes "chmod-eperm") once
    ∷ named (codes "chmod-other") stop
    ∷ named (codes "chown-eperm") once
    ∷ named (codes "chown-other") stop
    ∷ named (codes "propname-reserved") stop
    ∷ named (codes "mixed-rev-wc") always
    ∷ named (codes "diff-status") ignore
    ∷ named (codes "ignpat-wcbase") always
    ∷ named (codes "_test-warning") ignore
    ∷ []

-- The loop that looks for the action.
unfoldable pub find_action : Bytes → List (Bytes × Action) → Option Action
find_action word [] = none
find_action word ((text, action) ∷ rest) =
    if strcmp_eq text word then some action else find_action word rest

-- `strncmp(warning->text, stg, len) == 0`
abbrev pub selected : Bytes → ℕ → Warning → Bool
selected stg len w = strncmp_eq w.text stg len

-- The body of the loop over the warnings.
unfoldable pub set_one : Bytes → ℕ → Action → Prio → Warning → Warning
set_one stg len action prio w =
    if selected stg len w && leb w.prio prio then record w { action = action; prio = prio } else w

unfoldable pub any_selected : Bytes → ℕ → Table → Bool
any_selected stg len [] = false
any_selected stg len (w ∷ table) = selected stg len w || any_selected stg len table

-- The loop over the warnings, and its status.
unfoldable pub set_all : Bytes → ℕ → Action → Prio → Table → Table × Status
unfolding set_one any_selected
set_all stg len action prio table =
    (map (set_one stg len action prio) table, if any_selected stg len table then ok else einval)

-- The first half of `wa__set_warn_option`: the length of the name before the '=', and the action.
unfoldable pub parse_option : Bytes → Option (ℕ × Action)
parse_option stg = elim (split_at_first b'=' stg) [
  | none ↦ none
  | some (key, word) ↦ elim (find_action word action_texts) [
    | none ↦ none
    | some action ↦ some (length key, action)
  ]
]

unfoldable pub apply_option : Option (ℕ × Action) → Bytes → Prio → Table → Table × Status
apply_option none stg prio table = (table, einval)
apply_option (some (len, action)) stg prio table = set_all stg len action prio table

-- `wa__set_warn_option`
unfoldable pub set_warn_option : Bytes → Prio → Table → Table × Status
unfolding apply_option
set_warn_option stg prio table = apply_option (parse_option stg) stg prio table

-- The delimiters that are given to `strtok`.
abbrev pub is_delim : ℕ → Bool
is_delim c = c == b',' || c == b';' || c == b' ' || c == 13 || c == 9 || c == 10

abbrev push_token : Bytes → List Bytes → List Bytes
push_token [] ts = ts
push_token (c ∷ t) ts = (c ∷ t) ∷ ts

-- The token that a text begins with (maybe empty), and those that follow it.
unfoldable pub tokens_from : Bytes → Bytes × List Bytes
tokens_from [] = ([], [])
tokens_from (c ∷ s) =
    let (t, ts) = tokens_from s in if is_delim c then ([], push_token t ts) else (c ∷ t, ts)

-- What `strtok` gives call by call: the longest runs without a delimiter.
unfoldable pub tokens : Bytes → List Bytes
unfolding tokens_from
tokens s = let (t, ts) = tokens_from s in push_token t ts

-- The loop of `wa__split_process`: it stops at the first token that is refused.
unfoldable pub set_tokens : List Bytes → Prio → Table → Table × Status
set_tokens [] prio table = (table, ok)
set_tokens (t ∷ ts) prio table =
    let (table', status) = set_warn_option t prio table in
    let rest = set_tokens ts prio table' in elim status [ ok ↦ rest | other ↦ (table', other) ]

-- `wa__split_process`
unfoldable pub split_process : Bytes → Prio → Table → Table × Status
unfolding tokens
split_process warn prio table = set_tokens (tokens warn) prio table

-- The outcome of the calls of `fprintf`: all well, or the `errno` of a failure.
pub data Output : Type 0 where
  printed : Output
  failed : ℕ → Output

-- What a call of `wa__warn` does: the entry afterwards, the status, and whether it wrote.
pub record Raised : Type 0 where
  pub entry : Warning
  pub status : Status
  pub wrote : Bool

abbrev pub is_once : Action → Bool
is_once once = true
is_once _ = false

-- The common tail of the three cases that print, for a status that is not an error.
unfoldable pub after_printing : Output → Warning → Raised
after_printing (failed e) w = record { entry = w; status = code e; wrote = true }
after_printing printed w = record {
  entry = if is_once w.action then record w { action = count } else w;
  status = ok;
  wrote = true;
}

abbrev pub stop_status : Status → Status
stop_status ok = eagain
stop_status other = other

-- The `switch` of `wa__warn` on the action.
unfoldable pub raise_as : Action → Status → Output → Warning → Raised
unfolding after_printing
raise_as ignore stat out w = record { entry = w; status = ok; wrote = false }
raise_as count stat out w = record { entry = w; status = ok; wrote = false }
raise_as stop stat out w = record { entry = w; status = stop_status stat; wrote = true }
raise_as once stat out w = after_printing out w
raise_as always stat out w = after_printing out w

-- `wa__warn` on its entry of the table.
unfoldable pub warn : Status → Output → Warning → Raised
unfolding raise_as
warn stat out w = raise_as w.action stat out (record w { count_of = (w.count_of + 1) % 2 ^ 32 })

abbrev pub is_ignored : Action → Bool
is_ignored ignore = true
is_ignored _ = false

-- The lines of `wa__summary`: name and number of the warnings that occurred and are not ignored.
unfoldable pub summary : Table → List (Bytes × ℕ)
summary [] = []
summary (w ∷ table) =
    let rest = summary table in
    if not (is_ignored w.action) && not (w.count_of == 0) then (w.text, w.count_of) ∷ rest else rest
