-- ===== src/Checksum/Manber/Tiles.antt =====
-- The blocks that `cs___update_manber` of src/checksum.c writes follow each other without a gap.
use fsvs.Prelude.{
  ℕ, ◌+◌, ◌≤◌, ◌≡◌, refl, sym, subst, inl, inr, some, List, [], ◌∷◌, ◌++◌, map, ltb, ◌==◌, Bytes,
  length, arith, Bool-cases,
}
use fsvs.Checksum.Manber.{Manber, Line, roll, is_border, backtrack_size, update_manber}
use fsvs.Checksum.Manber.Cuts.{machine_of, without_digest, update_manber_total}
use fsvs.Checksum.Manber.Machine.{Machine, Border, step, run}

-- Blocks in a row between two positions.
abbrev pub Tile : ℕ → List Border → ℕ → Type 0
Tile from [] to = from ≡ to
Tile from (b ∷ bs) to = (b.start ≡ from) × Tile (from + b.size) bs to

-- Where a machine goes on.
abbrev Goes : Machine → Machine × List Border → ℕ → Type 0
Goes m (m', bs) n =
    Tile m.last_fpos bs m'.last_fpos × (m'.last_fpos ≤ m'.fpos) × (m'.fpos ≡ m.fpos + n)

step-Goes : (m : Machine) (byte : ℕ) → m.last_fpos ≤ m.fpos → Goes m (step m byte) 1
unfolding step
step-Goes m byte h = elim (Bool-cases (ltb m.core.bktrk_bytes backtrack_size)) [
  | inl e ↦ rw (e, step) (refl, omega arith, refl)
  | inr e ↦ elim (Bool-cases (m.core.data_bits == 0)) [
    | inl d ↦ elim (Bool-cases (byte == 0)) [
      | inl z ↦ rw (e, d, z, step) (refl, omega arith, refl)
      | inr z ↦ rw (e, d, z, step) ((refl, omega arith), omega arith, refl)
    ]
    | inr d ↦ elim (Bool-cases (is_border (roll m.core byte))) [
      | inl b ↦ rw (e, d, b, step) ((refl, omega arith), omega arith, refl)
      | inr b ↦ rw (e, d, b, step) (refl, omega arith, refl)
    ]
  ]
]

Tile-append : (a b c : ℕ) (xs ys : List Border) → Tile a xs b → Tile b ys c → Tile a (xs ++ ys) c
Tile-append a b c [] ys h k = subst (λ x. Tile x ys c) (sym h) k
Tile-append a b c (x ∷ xs) ys h k = (h.0, Tile-append (a + x.size) b c xs ys h.1 k)

run-Goes : (m : Machine) (s : Bytes) → m.last_fpos ≤ m.fpos → Goes m (run m s) (length s)
unfolding run
run-Goes m [] h = (refl, h, omega arith)
run-Goes m (byte ∷ s) h =
    let (m', first) = step m byte in
    let (t, l, e) = step-Goes m byte h in
    let (u, k, f) = run-Goes m' s l in
    (
      Tile-append m.last_fpos m'.last_fpos (run m' s).0.last_fpos first (run m' s).1 t u,
      k,
      omega arith,
    )

-- The blocks that a call of `cs___update_manber` writes follow each other without a gap, from the start of the
-- block that was open before to the start of the one that is open behind it; and the position in the file has
-- moved by all of the bytes.
pub update_manber-Tile :
    (md5 : Bytes → Bytes) (m : Manber) (bytes : Bytes)
    → m.last_fpos ≤ m.fpos
    → (m' : Manber) × (lines : List Line) × (update_manber md5 (length bytes + 2) m bytes
        ≡ some (m', lines))
      × Tile m.last_fpos (map without_digest lines) m'.last_fpos
      × (m'.last_fpos ≤ m'.fpos)
      × (m'.fpos ≡ m.fpos + length bytes)
update_manber-Tile md5 m bytes h =
    let (m', lines, e, q) = update_manber_total md5 m bytes in
    let g : Goes (machine_of m) (machine_of m', map without_digest lines) (length bytes) =
      subst (λ r. Goes (machine_of m) r (length bytes)) q (run-Goes (machine_of m) bytes h) in
    (m', lines, e, g.0, g.1, g.2)
