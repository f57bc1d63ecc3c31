-- ===== src/Checksum/Manber/Cuts.antt =====
-- The blocks of src/checksum.c do not depend on how a stream is cut into buffers: `cs___update_manber` against a
-- machine that takes one byte at a time.
use fsvs.Prelude.{
  ℕ, zero, suc, ◌+◌, ◌-◌, ◌≤◌, ◌<◌, ◌≡◌, refl, sym, ap, ◌∙◌, ◌⊎◌, inl, inr, true, false, Option,
  none, some, List, [], ◌∷◌, ◌++◌, map, ltb, ◌==◌, if◌then◌else◌, Bytes, length, arith, Bool-cases,
}
use fsvs.Checksum.Manber.{
  Core, Manber, Line, backtrack_size, absorb, roll, is_border, reset, fill, zeroes, roll_all,
  end_of_block, new_block, line_of, update_manber,
}
use fsvs.Checksum.Manber.Machine.{
  Machine, Border, border_of, begun, moved, step, run, run-append, run-step, run-step_border,
  run_nil, fill-run, zeroes-run, After, roll-run,
}

abbrev pub machine_of : Manber → Machine
machine_of m = record { core = m.core; fpos = m.fpos; last_fpos = m.last_fpos }

abbrev pub without_digest : Line → Border
without_digest l = record { before = l.before; start = l.start; size = l.size }

-- A call of `cs___end_of_block` takes the bytes up to the next border.
abbrev Blocks : Manber → Bytes → Manber × Option Bytes → Type 0
Blocks m bytes (m', none) = run (machine_of m) bytes ≡ (machine_of m', [])
Blocks m bytes (m', some rest) =
    let begun' = begun (machine_of m') in
    (run (machine_of m) bytes
      ≡ ((run begun' rest).0, border_of (machine_of m') ∷ (run begun' rest).1))
    × (length rest ≤ length bytes)
    × (ltb m.core.bktrk_bytes backtrack_size ≡ true → length rest < length bytes)

fill-length :
    (c : Core) (s : Bytes)
    → let (c', i, rest) = fill c s in
      (i + length rest ≡ length s)
      × (ltb c.bktrk_bytes backtrack_size ≡ true → length rest ≤ length s - 1)
unfolding fill
fill-length c [] = (omega arith, λ h. omega arith)
fill-length c (byte ∷ s) = elim (Bool-cases (ltb c.bktrk_bytes backtrack_size)) [
  | inl e ↦
      let (q, w) = fill-length (absorb c byte) s in rw (e, fill) (omega arith, λ h. omega arith)
  | inr e ↦ rw (e, fill) (omega arith, λ h. cc)
]

zeroes-length : (s : Bytes) → (zeroes s).0 + length (zeroes s).1 ≡ length s
unfolding zeroes
zeroes-length [] = omega arith
zeroes-length (byte ∷ s) = ground (arith, zeroes-length s)

roll_all-length :
    (c : Core) (s : Bytes)
    → let (c', i, rest, found) = roll_all c s in
      (i + length rest ≡ length s) × (found ≡ true → 1 ≤ i)
unfolding roll_all
roll_all-length c [] = (omega arith, λ h. cc)
roll_all-length c (byte ∷ s) = elim (Bool-cases (is_border (roll c byte))) [
  | inl e ↦ rw (e, roll_all) (omega arith, λ h. omega arith)
  | inr e ↦
      let (q, w) = roll_all-length (roll c byte) s in
      rw (e, roll_all) (omega arith, λ h. omega arith)
]

-- The end of a block of zeroes: the byte behind it begins the next block.
run_zeroes_end :
    (m : Machine) (byte : ℕ) (s : Bytes)
    → ltb m.core.bktrk_bytes backtrack_size ≡ false
    → (m.core.data_bits == 0) ≡ true
    → (byte == 0) ≡ false
    → run m (byte ∷ s) ≡ ((run (begun m) (byte ∷ s)).0, border_of m ∷ (run (begun m) (byte ∷ s)).1)
unfolding step
run_zeroes_end m byte s h d e =
    let m' = moved (begun m) (absorb (reset m.core) byte) 1 in
    run-step_border m m' (border_of m) byte s (rw (h, d, e, step) refl)
    ∙ ap (λ r. (r.0, border_of m ∷ r.1)) (sym (run-step (begun m) m' byte s refl))

moved_sum : (m : Machine) (c d : Core) (i j : ℕ) → moved (moved m c i) d j ≡ moved m d (i + j)
moved_sum m c d i j = ap (λ n. record m { core = d; fpos = n }) (omega arith)

-- The last two loops, behind the first one.
zeroes_end :
    (m : Machine) (s : Bytes)
    → (s ≡ []) ⊎ (ltb m.core.bktrk_bytes backtrack_size ≡ false)
    → (m.core.data_bits == 0) ≡ true
    → let (i, rest) = zeroes s in
      (run m s ≡ run (moved m m.core i) rest)
      × ((rest ≡ [])
          ⊎ ((ltb m.core.bktrk_bytes backtrack_size ≡ false)
              × (byte : ℕ) × (more : Bytes) × (rest ≡ byte ∷ more)
              × ((byte == 0) ≡ false)))
unfolding zeroes
zeroes_end m [] w d = (ap (λ n. run (record m { fpos = n }) []) (omega arith), inl refl)
zeroes_end m (byte ∷ s) (inl e) d = absurd (omega (arith, ap length e))
zeroes_end m (byte ∷ s) (inr h) d =
    let (q, w) = zeroes-run m (byte ∷ s) h d in
    (q, elim w [ inl e ↦ inl e | inr (b, more, e, o) ↦ inr (h, b, more, e, o) ])

roll_end :
    (m : Machine) (s : Bytes)
    → (s ≡ []) ⊎ (ltb m.core.bktrk_bytes backtrack_size ≡ false)
    → (m.core.data_bits == 0) ≡ false
    → After m s (roll_all m.core s)
unfolding roll_all
roll_end m [] w d = (run_nil m ∙ ap (λ n. (record m { fpos = n }, [])) (omega arith), refl)
roll_end m (byte ∷ s) (inl e) d = absurd (omega (arith, ap length e))
roll_end m (byte ∷ s) (inr h) d = roll-run m (byte ∷ s) h d

end_of_block_lem :
    (md5 : Bytes → Bytes) (m : Manber) (bytes : Bytes) → Blocks m bytes (end_of_block md5 m bytes)
unfolding end_of_block
end_of_block_lem md5 m bytes =
    let mm = machine_of m in
    let (c, i, rest) = fill m.core bytes in
    let (q, w) = fill-run mm bytes in
    let (l, k) = fill-length m.core bytes in
    elim (Bool-cases (c.data_bits == 0)) [
      | inl z ↦
          let j = (zeroes rest).0 in
          let (q2, w2) = zeroes_end (moved mm c i) rest w z in
          elim w2 [
            | inl e ↦
                rw (z, e, end_of_block)
                  (q
                    ∙ q2
                    ∙ ap (run (moved (moved mm c i) c j)) e
                    ∙ run_nil _
                    ∙ ap (λ n. (n, [])) (moved_sum mm c c i j))
            | inr (full, byte, more, e, o) ↦
                let sum : (zeroes rest).0 + length (byte ∷ more) ≡ length rest =
                  rw e at (zeroes-length rest) in
                rw (z, e, end_of_block)
                  (
                    q
                        ∙ q2
                        ∙ ap (run (moved (moved mm c i) c j)) e
                        ∙ run_zeroes_end (moved (moved mm c i) c j) byte more full z o
                        ∙ ap
                            (λ n. (
                              (run (begun n) (byte ∷ more)).0,
                              border_of n ∷ (run (begun n) (byte ∷ more)).1,
                            ))
                            (moved_sum mm c c i j),
                    omega arith,
                    λ h. omega (arith, k h),
                  )
          ]
      | inr z ↦
          let (c', j, others, found) = roll_all c rest in
          let (sum, positive) = roll_all-length c rest in
          let a = roll_end (moved mm c i) rest w z in
          elim (Bool-cases found) [
            | inl f ↦
                rw (z, f, end_of_block)
                  (
                    q
                        ∙ rw f at a
                        ∙ ap
                            (λ n.
                              ((run (begun n) others).0, border_of n ∷ (run (begun n) others).1))
                            (moved_sum mm c c' i j),
                    omega arith,
                    λ h. omega (arith, positive f),
                  )
            | inr f ↦
                rw (z, f, end_of_block)
                  (q ∙ (rw f at a).0 ∙ ap (λ n. (n, [])) (moved_sum mm c c' i j))
          ]
    ]

-- How many calls of `cs___end_of_block` are enough.
abbrev needed : Manber → Bytes → ℕ
needed m bytes = length bytes + (if ltb m.core.bktrk_bytes backtrack_size then 1 else 2)

needed_zero : (m : Manber) (bytes : Bytes) → needed m bytes ≤ 0 → ⊥
needed_zero m bytes h = ground arith

needed-le : (m : Manber) (bytes : Bytes) → needed m bytes ≤ length bytes + 2
needed-le m bytes = ground arith

-- What a call of `cs___update_manber` does: the blocks that the machine finds, and its state.
abbrev pub Updates : Manber → Bytes → Option (Manber × List Line) → Type 0
Updates m bytes none = ⊥
Updates m bytes (some (m', lines)) =
    run (machine_of m) bytes ≡ (machine_of m', map without_digest lines)

update_more :
    (md5 : Bytes → Bytes) (fuel : ℕ) (m : Manber) (bytes : Bytes) (m' : Manber) (rest : Bytes)
    → (let n = begun (machine_of m') in
        run (machine_of m) bytes ≡ ((run n rest).0, border_of (machine_of m') ∷ (run n rest).1))
    → (r : Option (Manber × List Line))
    → Updates (record (new_block m') { last_fpos = m'.fpos }) rest r
    → Updates m bytes (elim r as (λ r. Option (Manber × List Line)) [
      | none ↦ none
      | some (m'', lines) ↦ some (m'', line_of m' ∷ lines)
    ])
update_more md5 fuel m bytes m' rest q none u = u
update_more md5 fuel m bytes m' rest q (some (m'', lines)) u =
    q ∙ ap (λ r. (r.0, border_of (machine_of m') ∷ r.1)) u

update_step :
    (md5 : Bytes → Bytes) (fuel : ℕ) (m : Manber) (bytes : Bytes)
    → ((m' : Manber) (rest : Bytes)
        → needed m' rest ≤ fuel
        → Updates m' rest (update_manber md5 fuel m' rest))
    → needed m bytes ≤ suc fuel
    → (o : Option Bytes) → (end_of_block md5 m bytes).1 ≡ o
    → Blocks m bytes ((end_of_block md5 m bytes).0, o)
    → Updates m bytes (update_manber md5 (suc fuel) m bytes)
unfolding update_manber
update_step md5 fuel m bytes ih h none e b = rw (e, update_manber) b
update_step md5 fuel m bytes ih h (some rest) e (q, l, k) =
    let m' = (end_of_block md5 m bytes).0 in
    let again = record (new_block m') { last_fpos = m'.fpos } in
    let enough : needed again rest ≤ fuel =
      elim (Bool-cases (ltb m.core.bktrk_bytes backtrack_size)) [
        | inl f ↦ omega (arith, k f, rw f at h)
        | inr f ↦ omega (arith, rw f at h)
      ] in
    rw (e, update_manber)
      (update_more md5 fuel m bytes m' rest q (update_manber md5 fuel again rest)
        (ih again rest enough))

update_lem :
    (md5 : Bytes → Bytes) (fuel : ℕ) (m : Manber) (bytes : Bytes)
    → needed m bytes ≤ fuel
    → Updates m bytes (update_manber md5 fuel m bytes)
update_lem md5 zero m bytes h = absurd (needed_zero m bytes h)
update_lem md5 (suc fuel) m bytes h =
    update_step md5 fuel m bytes (update_lem md5 fuel) h (end_of_block md5 m bytes).1 refl
      (end_of_block_lem md5 m bytes)

-- A call with enough fuel, and what it gives.
Updates-some :
    (m : Manber) (bytes : Bytes) (r : Option (Manber × List Line))
    → Updates m bytes r
    → (m' : Manber) × (lines : List Line) × (r ≡ some (m', lines))
      × (run (machine_of m) bytes ≡ (machine_of m', map without_digest lines))
Updates-some m bytes none u = absurd u
Updates-some m bytes (some (m', lines)) u = (m', lines, refl, u)

pub update_manber_total :
    (md5 : Bytes → Bytes) (m : Manber) (bytes : Bytes)
    → (m' : Manber) × (lines : List Line) × (update_manber md5 (length bytes + 2) m bytes
        ≡ some (m', lines))
      × (run (machine_of m) bytes ≡ (machine_of m', map without_digest lines))
update_manber_total md5 m bytes =
    Updates-some m bytes _ (update_lem md5 (length bytes + 2) m bytes (needed-le m bytes))

-- The blocks of a stream, less their digests, and the state behind them do not depend on how the stream is cut
-- into buffers: two calls of `cs___update_manber` find what one call finds for the two buffers in a row. The
-- calls end, with two rounds more than there are bytes.
pub update_manber-append :
    (md5 : Bytes → Bytes) (m : Manber) (a b : Bytes)
    → (m' : Manber) × (m'' : Manber) × (whole : Manber) × (first : List Line) × (more : List Line)
      × (lines : List Line) × (update_manber md5 (length a + 2) m a ≡ some (m', first))
      × (update_manber md5 (length b + 2) m' b ≡ some (m'', more))
      × (update_manber md5 (length (a ++ b) + 2) m (a ++ b) ≡ some (whole, lines))
      × (machine_of whole ≡ machine_of m'')
      × (map without_digest lines ≡ map without_digest first ++ map without_digest more)
update_manber-append md5 m a b =
    let (m', first, e, q) = update_manber_total md5 m a in
    let (m'', more, f, r) = update_manber_total md5 m' b in
    let (whole, lines, g, t) = update_manber_total md5 m (a ++ b) in
    let same : (machine_of whole, map without_digest lines)
        ≡ (machine_of m'', map without_digest first ++ map without_digest more) =
      sym t
      ∙ run-append (machine_of m) a b
      ∙ ap (λ x. ((run x.0 b).0, x.1 ++ (run x.0 b).1)) q
      ∙ ap (λ x. (x.0, map without_digest first ++ x.1)) r in
    (m', m'', whole, first, more, lines, e, f, g, ap (λ x. x.0) same, ap (λ x. x.1) same)
