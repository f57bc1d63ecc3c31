-- ===== src/Checksum/Manber/Machine.antt =====
-- A machine that takes one byte at a time, and the loops of `cs___end_of_block` in src/checksum.c.
use fsvs.Prelude.{
  ℕ, ◌+◌, ◌-◌, ◌≡◌, refl, sym, ap, ◌∙◌, ◌⊎◌, inl, inr, Bool, true, false, List, [], ◌∷◌, ◌++◌, ltb,
  ◌==◌, if◌then◌else◌, Bytes, arith, Bool-cases,
}
use mathlib.Core.List.{append_assoc}
use fsvs.Checksum.Manber.{
  Core, backtrack_size, absorb, roll, is_border, reset, fill, zeroes, roll_all,
}

-- What the blocks depend on, and a block without its digest.
pub record Machine : Type 0 where
  pub core : Core
  pub fpos : ℕ
  pub last_fpos : ℕ

pub record Border : Type 0 where
  pub before : ℕ
  pub start : ℕ
  pub size : ℕ

abbrev pub border_of : Machine → Border
border_of m = record {
  before = m.core.last_state;
  start = m.last_fpos;
  size = m.fpos - m.last_fpos;
}

abbrev pub begun : Machine → Machine
begun m = record m { core = reset m.core; last_fpos = m.fpos }

abbrev pub moved : Machine → Core → ℕ → Machine
moved m c i = record m { core = c; fpos = m.fpos + i }

-- One byte. The zeroes that begin a block end before the first other byte, if there are enough of them.
unfoldable pub step : Machine → ℕ → Machine × List Border
step m byte =
    let rolled = moved m (roll m.core byte) 1 in
    if ltb m.core.bktrk_bytes backtrack_size
    then (moved m (absorb m.core byte) 1, [])
    else if m.core.data_bits == 0
    then (if byte == 0
        then (moved m m.core 1, [])
        else (moved (begun m) (absorb (reset m.core) byte) 1, border_of m ∷ []))
    else if is_border (roll m.core byte)
    then (begun rolled, border_of rolled ∷ [])
    else (rolled, [])

unfoldable pub run : Machine → Bytes → Machine × List Border
unfolding step
run m [] = (m, [])
run m (byte ∷ s) =
    let (m', first) = step m byte in let (m'', more) = run m' s in (m'', first ++ more)

-- A row of bytes in two parts.
pub run-append :
    (m : Machine) (a b : Bytes)
    → let (m', first) = run m a in
      let (m'', more) = run m' b in run m (a ++ b) ≡ (m'', first ++ more)
unfolding run
run-append m [] b = refl
run-append m (byte ∷ a) b =
    let (m', first) = step m byte in
    rw (run-append m' a b) (
      ap (λ l. ((run (run m' a).0 b).0, l))
        (sym (append_assoc first (run m' a).1 (run (run m' a).0 b).1)))

pub run-step :
    (m m' : Machine) (byte : ℕ) (s : Bytes) → step m byte ≡ (m', []) → run m (byte ∷ s) ≡ run m' s
unfolding run
run-step m m' byte s e = rw e refl

pub run-step_border :
    (m m' : Machine) (b : Border) (byte : ℕ) (s : Bytes)
    → step m byte ≡ (m', b ∷ [])
    → run m (byte ∷ s) ≡ ((run m' s).0, b ∷ (run m' s).1)
unfolding run
run-step_border m m' b byte s e = rw e refl

pub run_nil : (m : Machine) → run m [] ≡ (m, [])
unfolding run
run_nil m = refl

pub moved_twice : (m : Machine) (c d : Core) (i : ℕ) → moved (moved m c 1) d i ≡ moved m d (i + 1)
moved_twice m c d i = ap (λ n. record m { core = d; fpos = n }) (omega arith)

-- The three loops.
pub fill-run :
    (m : Machine) (s : Bytes)
    → let (c, i, rest) = fill m.core s in
      (run m s ≡ run (moved m c i) rest)
      × ((rest ≡ []) ⊎ (ltb c.bktrk_bytes backtrack_size ≡ false))
unfolding fill step
fill-run m [] = (ap (λ n. run (record m { fpos = n }) []) (omega arith), inl refl)
fill-run m (byte ∷ s) = elim (Bool-cases (ltb m.core.bktrk_bytes backtrack_size)) [
  | inl e ↦
      let (q, w) = fill-run (moved m (absorb m.core byte) 1) s in
      rw (e, fill)
        (
          run-step m (moved m (absorb m.core byte) 1) byte s (rw (e, step) refl)
              ∙ q
              ∙ ap (λ n. run n (fill (absorb m.core byte) s).2)
                  (moved_twice m (absorb m.core byte) (fill (absorb m.core byte) s).0
                    (fill (absorb m.core byte) s).1),
          w,
        )
  | inr e ↦ rw (e, fill) (ap (λ n. run (record m { fpos = n }) (byte ∷ s)) (omega arith), inr e)
]

pub zeroes-run :
    (m : Machine) (s : Bytes)
    → ltb m.core.bktrk_bytes backtrack_size ≡ false
    → (m.core.data_bits == 0) ≡ true
    → let (i, rest) = zeroes s in
      (run m s ≡ run (moved m m.core i) rest)
      × ((rest ≡ []) ⊎ ((byte : ℕ) × (more : Bytes) × (rest ≡ byte ∷ more) × ((byte == 0) ≡ false)))
unfolding zeroes step
zeroes-run m [] h d = (ap (λ n. run (record m { fpos = n }) []) (omega arith), inl refl)
zeroes-run m (byte ∷ s) h d = elim (Bool-cases (byte == 0)) [
  | inl e ↦
      let (q, w) = zeroes-run (moved m m.core 1) s h d in
      rw (e, zeroes)
        (
          run-step m (moved m m.core 1) byte s (rw (h, d, e, step) refl)
              ∙ q
              ∙ ap (λ n. run n (zeroes s).1) (moved_twice m m.core m.core (zeroes s).0),
          w,
        )
  | inr e ↦
      rw (e, zeroes)
        (ap (λ n. run (record m { fpos = n }) (byte ∷ s)) (omega arith), inr (byte, s, refl, e))
]

-- The last loop, up to a border or to the end.
abbrev pub After : Machine → Bytes → Core × ℕ × Bytes × Bool → Type 0
After m s (c, i, rest, found) =
    let m' = moved m c i in
    if found
    then run m s ≡ ((run (begun m') rest).0, border_of m' ∷ (run (begun m') rest).1)
    else (run m s ≡ (m', [])) × (rest ≡ [])

pub After-step :
    (m m' : Machine) (byte : ℕ) (s : Bytes) (c : Core) (i : ℕ) (rest : Bytes) (found : Bool)
    → run m (byte ∷ s) ≡ run m' s
    → moved m' c i ≡ moved m c (i + 1)
    → After m' s (c, i, rest, found)
    → After m (byte ∷ s) (c, i + 1, rest, found)
After-step m m' byte s c i rest true e q h =
    e ∙ h ∙ ap (λ n. ((run (begun n) rest).0, border_of n ∷ (run (begun n) rest).1)) q
After-step m m' byte s c i rest false e q h = (e ∙ h.0 ∙ ap (λ n. (n, [])) q, h.1)

pub roll-run :
    (m : Machine) (s : Bytes)
    → ltb m.core.bktrk_bytes backtrack_size ≡ false
    → (m.core.data_bits == 0) ≡ false
    → After m s (roll_all m.core s)
unfolding roll_all step
roll-run m [] h d = (run_nil m ∙ ap (λ n. (record m { fpos = n }, [])) (omega arith), refl)
roll-run m (byte ∷ s) h d = elim (Bool-cases (is_border (roll m.core byte))) [
  | inl e ↦
      rw (e, roll_all)
        (run-step_border m (begun (moved m (roll m.core byte) 1))
          (border_of (moved m (roll m.core byte) 1)) byte s (rw (h, d, e, step) refl))
  | inr e ↦
      let (c, i, rest, found) = roll_all (roll m.core byte) s in
      rw (e, roll_all)
        (After-step m (moved m (roll m.core byte) 1) byte s c i rest found
          (run-step m (moved m (roll m.core byte) 1) byte s (rw (h, d, e, step) refl))
          (moved_twice m (roll m.core byte) c i) (roll-run (moved m (roll m.core byte) 1) s h d))
]
