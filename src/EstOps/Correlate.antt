-- ===== src/EstOps/Correlate.antt =====
-- `ops__correlate_dirs` of src/est_ops.c: two directories, sorted by name, walked side by side.
pub mod Events
use Prim.Native.Nat.{Ordering}
use fsvs.Prelude.{
  ℕ, zero, suc, Bool, true, false, ◌||◌, Option, none, some, List, [], ◌∷◌, ◌++◌, map,
  if◌then◌else◌,
}

-- What the loop comes to: an entry of the first directory only, of both, or of the second only.
pub data Event {ℓ} (A : Type ℓ) : Type ℓ where
  only_a : A → Event A
  both : A → A → Event A
  only_b : A → Event A

-- The loops over `list_A` and `list_B`. The comparison of two names, `strcoll`, is a parameter.
module _ {ℓ} {A : Type ℓ} (comp : A → A → Ordering) where
  unfoldable pub events : List A → List A → List (Event A)
  events [] bs = map only_b bs
  events (a ∷ as') [] = only_a a ∷ events as' []
  events (a ∷ as') (b ∷ bs) = elim (comp a b) [
    | Ordering.eq ↦ both a b ∷ events as' bs
    | Ordering.gt ↦ only_b b ∷ events (a ∷ as') bs
    | Ordering.lt ↦ only_a a ∷ events as' (b ∷ bs)
  ]

-- Which of the four callbacks are given.
pub record Given : Type 0 where
  pub only_a : Bool
  pub both : Bool
  pub only_b : Bool
  pub for_every : Bool

-- A call of a callback, and of `for_every` with its two arguments.
pub data Call {ℓ} (A : Type ℓ) : Type ℓ where
  call_only_a : A → Call A
  call_both : A → A → Call A
  call_only_b : A → Call A
  call_every : Option A → Option A → Call A

abbrev when {ℓ} : {A : Type ℓ} → Bool → A → List A
when true x = x ∷ []
when false x = []

-- The calls at one event.
unfoldable pub calls_of {ℓ} : {A : Type ℓ} → Given → Event A → List (Call A)
calls_of g (only_a a) = when g.only_a (call_only_a a) ++ when g.for_every (call_every (some a) none)
calls_of g (both a b) =
    when g.both (call_both a b) ++ when g.for_every (call_every (some a) (some b))
calls_of g (only_b b) = when g.only_b (call_only_b b) ++ when g.for_every (call_every none (some b))

unfoldable pub all_calls {ℓ} : {A : Type ℓ} → Given → List (Event A) → List (Call A)
all_calls g [] = []
all_calls g (e ∷ es) = calls_of g e ++ all_calls g es

-- The calls are made in turn, and the first status that is not 0 ends the loop. A callback changes a
-- state and returns a status.
module _ {ℓ κ} {A : Type ℓ} {S : Type κ} (callback : Call A → S → S × ℕ) where
  unfoldable pub run_calls : List (Call A) → S → S × ℕ
  run_calls [] s = (s, 0)
  run_calls (c ∷ cs) s =
      let (s', status) = callback c s in
      let rest = run_calls cs s' in elim status [ zero ↦ rest | suc e ↦ (s', suc e) ]

-- `ops__correlate_dirs` on the two sorted lists.
unfoldable pub correlate_dirs {ℓ κ} :
    {A : Type ℓ} {S : Type κ} (comp : A → A → Ordering) (callback : Call A → S → S × ℕ)
    → Given
    → List A
    → List A
    → S
    → S × ℕ
unfolding events calls_of all_calls run_calls
correlate_dirs comp callback g as' bs s = run_calls callback (all_calls g (events comp as' bs)) s
