-- ===== src/Warnings/Priority.antt =====
-- `wa__set_warn_option` and `wa__split_process` of src/warnings.c: priorities, errors, and words.
use fsvs.Prelude.{ℕ, ◌≡◌, refl, sym, ◌≢◌, false, Option, none, some, [], ◌∷◌, map, arith, Bytes}
use fsvs.Warnings.{
  Action, Warning, Table, Prio, ok, einval, set_one, any_selected, set_all, apply_option,
  parse_option, set_warn_option,
}

-- What one option does to each entry.
setter : Option (ℕ × Action) → Bytes → Prio → Warning → Warning
setter none stg prio w = w
setter (some (len, action)) stg prio w = set_one stg len action prio w

map_self : (f : Warning → Warning) (table : Table) → ((w : Warning) → f w ≡ w) → map f table ≡ table
map_self f [] h = refl
map_self f (w ∷ table) h = cc (h w, map_self f table h)

map_comm :
    (f g : Warning → Warning) (table : Table)
    → ((w : Warning) → f (g w) ≡ g (f w))
    → map f (map g table) ≡ map g (map f table)
map_comm f g [] h = refl
map_comm f g (w ∷ table) h = cc (h w, map_comm f g table h)

apply_option-setter :
    (o : Option (ℕ × Action)) (stg : Bytes) (prio : Prio) (table : Table)
    → (apply_option o stg prio table).0 ≡ map (setter o stg prio) table
unfolding apply_option set_all setter
apply_option-setter none stg prio table = sym (map_self _ table (λ w. refl))
apply_option-setter (some (len, action)) stg prio table = refl

set_warn_option-setter :
    (stg : Bytes) (prio : Prio) (table : Table)
    → (set_warn_option stg prio table).0 ≡ map (setter (parse_option stg) stg prio) table
unfolding set_warn_option
set_warn_option-setter stg prio table = apply_option-setter (parse_option stg) stg prio table

setter_comm :
    (m n : Option (ℕ × Action)) (s t : Bytes) (p q : Prio) (w : Warning)
    → p ≢ q
    → setter m s p (setter n t q w) ≡ setter n t q (setter m s p w)
unfolding setter set_one
setter_comm none n s t p q w h = refl
setter_comm (some a) none s t p q w h = refl
setter_comm (some (k, a)) (some (l, b)) s t p q w h = ground arith

-- Settings of different priority may be read in either order: whatever two option strings are given
-- to wa__set_warn_option, also ones that are refused, the table that results is the same.
pub set_warn_option_comm :
    (s t : Bytes) (p q : Prio) (table : Table)
    → p ≢ q
    → (set_warn_option s p (set_warn_option t q table).0).0
      ≡ (set_warn_option t q (set_warn_option s p table).0).0
set_warn_option_comm s t p q table h = simp set_warn_option-setter (
    map_comm (setter (parse_option s) s p) (setter (parse_option t) t q) table
      (λ w. setter_comm (parse_option s) (parse_option t) s t p q w h))

set_one-not_selected :
    (stg : Bytes) (len : ℕ) (action : Action) (prio : Prio) (table : Table)
    → any_selected stg len table ≡ false
    → map (set_one stg len action prio) table ≡ table
unfolding any_selected set_one
set_one-not_selected stg len action prio [] h = refl
set_one-not_selected stg len action prio (w ∷ table) h =
    ground (arith, set_one-not_selected stg len action prio table)

apply_option_error :
    (o : Option (ℕ × Action)) (stg : Bytes) (prio : Prio) (table : Table)
    → (apply_option o stg prio table).1 ≢ ok
    → apply_option o stg prio table ≡ (table, einval)
unfolding apply_option set_all
apply_option_error none stg prio table h = refl
apply_option_error (some (len, action)) stg prio table h =
    ground (arith, set_one-not_selected stg len action prio table)

-- A call of wa__set_warn_option that fails returns EINVAL and leaves the table as it was.
pub set_warn_option_error :
    (stg : Bytes) (prio : Prio) (table : Table)
    → (set_warn_option stg prio table).1 ≢ ok
    → set_warn_option stg prio table ≡ (table, einval)
unfolding set_warn_option
set_warn_option_error stg prio table h = apply_option_error (parse_option stg) stg prio table h
