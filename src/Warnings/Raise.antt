-- ===== src/Warnings/Raise.antt =====
-- `wa__warn` and `wa__summary` of src/warnings.c: what is written over a row of calls.
use fsvs.Prelude.{
  ℕ, ◌+◌, ◌%◌, ◌^◌, ◌<◌, ◌≡◌, refl, ◌≢◌, ◌⊎◌, List, [], ◌∷◌, arith, if◌then◌else◌, length, ◌↔◌,
}
use fsvs.Warnings.{
  Action, Warning, Status, ok, Output, printed, once, always, stop, ignore, count, stop_status,
  warn,
}

-- A row of calls for one entry: the entry afterwards, and how many of them wrote.
unfoldable pub warn_row : List (Status × Output) → Warning → Warning × ℕ
warn_row [] w = (w, 0)
warn_row ((stat, out) ∷ calls) w =
    let r = warn stat out w in
    let (w', n) = warn_row calls r.entry in (w', if r.wrote then n + 1 else n)

abbrev pub AllPrinted : List (Status × Output) → Type 0
AllPrinted [] = Unit
AllPrinted ((stat, out) ∷ calls) = (out ≡ printed) × AllPrinted calls

quiet_row :
    (calls : List (Status × Output)) (w : Warning)
    → w.action ≡ count
    → ((warn_row calls w).1 ≡ 0) × ((warn_row calls w).0.action ≡ count)
unfolding warn_row warn
quiet_row [] w h = (refl, h)
quiet_row ((stat, out) ∷ calls) w h =
    ground (arith, quiet_row calls (record w { count_of = (w.count_of + 1) % 2 ^ 32 }))

-- However often a warning set to `once` is raised (at least one time, the output working), wa__warn
-- writes it one time, and the entry has gone over to counting.
pub warn_once :
    (stat : Status) (calls : List (Status × Output)) (w : Warning)
    → w.action ≡ once
    → ((warn_row ((stat, printed) ∷ calls) w).1 ≡ 1)
      × ((warn_row ((stat, printed) ∷ calls) w).0.action ≡ count)
unfolding warn_row warn
warn_once stat calls w h =
    ground
      (arith, quiet_row calls (record w { count_of = (w.count_of + 1) % 2 ^ 32; action = count }))

counted_one :
    (stat : Status) (out : Output) (w : Warning)
    → (warn stat out w).entry.count_of ≡ (w.count_of + 1) % 2 ^ 32
unfolding warn
counted_one stat out w = ground arith

-- Every call is counted, whatever the action is and whether or not the output works; the counter is
-- an unsigned of 32 bits.
pub warn_row-counts :
    (calls : List (Status × Output)) (w : Warning)
    → w.count_of < 2 ^ 32
    → (warn_row calls w).0.count_of ≡ (w.count_of + length calls) % 2 ^ 32
unfolding warn_row
warn_row-counts [] w h = omega arith
warn_row-counts ((stat, out) ∷ calls) w h =
    ground (arith, counted_one stat out w, warn_row-counts calls (warn stat out w).entry)

abbrev pub Passes : Action → Output → Type 0
Passes a out = (a ≡ ignore) ⊎ (a ≡ count) ⊎ ((out ≡ printed) × ((a ≡ once) ⊎ (a ≡ always)))

-- wa__warn succeeds exactly for a warning that is ignored or counted, and for one that is to be
-- written and does not stop the program, if the output works.
pub warn-ok :
    (stat : Status) (out : Output) (w : Warning)
    → ((warn stat out w).status ≡ ok) ↔ Passes w.action out
unfolding warn
warn-ok stat out w = (ground arith, ground arith)

-- A warning that stops the program gives the status of the caller, or EAGAIN where that is no error,
-- and stays a stopping one.
pub warn-stop :
    (stat : Status) (out : Output) (w : Warning)
    → w.action ≡ stop
    → ((warn stat out w).status ≡ stop_status stat)
      × ((warn stat out w).status ≢ ok)
      × ((warn stat out w).entry.action ≡ stop)
unfolding warn
warn-stop stat out w h = (ground arith, ground arith, ground arith)
