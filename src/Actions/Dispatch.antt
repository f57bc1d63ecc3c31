-- ===== src/Actions/Dispatch.antt =====
-- When `ac__dispatch` of src/actions.c calls the callback.
use fsvs.Prelude.{ℕ, ◌≡◌, ◌⊎◌, Bool, true, false, not, ◌&&◌, ◌||◌, arith}
use fsvs.Actions.{Seen, only_removed, dispatch}

-- What makes an entry one that is shown.
abbrev pub IsShown : Seen → Type 0
IsShown e =
    (e.has_callback ≡ true)
    × ((e.allowed_by_filter ≡ true) ⊎ (e.child_changed ≡ true))
    × ((e.all_removed ≡ true) ⊎ (only_removed e.parent ≡ false))

abbrev pub is_shown : Seen → Bool
is_shown e =
    e.has_callback
    && (e.allowed_by_filter || e.child_changed)
    && (e.all_removed || not (only_removed e.parent))

-- ac__dispatch calls the callback, with its status, if there is one, the entry passes the filter or has
-- a changed child, and all removed entries are wanted or the parent is not just removed; in every other
-- case it does nothing and succeeds.
pub dispatch-IsShown {ℓ} :
    {S : Type ℓ} (local_callback : S → S × ℕ) (e : Seen) (s : S)
    → (IsShown e × (dispatch local_callback e s ≡ local_callback s))
      ⊎ ((is_shown e ≡ false) × (dispatch local_callback e s ≡ (s, 0)))
unfolding dispatch
dispatch-IsShown local_callback e s = ground arith
