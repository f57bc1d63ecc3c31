-- ===== src/Checksum/Manber/Full.antt =====
-- The MD5 sum of a whole file in src/checksum.c is taken of all of its bytes, however they are cut into buffers.
use fsvs.Prelude.{
  ℕ, zero, suc, ◌+◌, ◌≡◌, refl, sym, ap, subst, ◌∙◌, false, inl, inr, Option, none, some, List, [],
  ◌∷◌, ◌++◌, ltb, ◌==◌, Bytes, length, take, arith, Bool-cases,
}
use mathlib.Core.List.{append_assoc, append-nil}
use fsvs.Checksum.Manber.{
  Core, Manber, Line, backtrack_size, absorb, roll, is_border, fill, zeroes, roll_all, end_of_block,
  new_block, update_manber, line_of,
}
use fsvs.Checksum.Manber.Cuts.{update_manber_total}

-- The first `i` bytes, with what is behind them.
abbrev Splits : ℕ → Bytes → Bytes → Type 0
Splits i s rest = take i s ++ rest ≡ s

Splits-step : (i byte : ℕ) (s rest : Bytes) → Splits i s rest → Splits (i + 1) (byte ∷ s) rest
Splits-step i byte s rest h =
    let e : i + 1 ≡ suc i = omega arith in
    ap (λ n. take n (byte ∷ s) ++ rest) e ∙ ap (λ t. byte ∷ t) h

tail_eq : (x : ℕ) (a b : Bytes) → x ∷ a ≡ x ∷ b → a ≡ b
tail_eq x a b h = ground arith

take_nil : (n : ℕ) → take {A = ℕ} n [] ≡ []
take_nil zero = refl
take_nil (suc n) = refl

Splits-sum :
    (i j : ℕ) (s rest others : Bytes)
    → Splits i s rest
    → Splits j rest others
    → Splits (i + j) s others
Splits-sum zero j s rest others h k =
    let e : 0 + j ≡ j = omega arith in
    ap (λ n. take n s ++ others) e ∙ ap (λ t. take j t ++ others) (sym h) ∙ k ∙ h
Splits-sum (suc i) j [] rest others h k =
    ap (λ t. t ++ others) (take_nil (suc i + j) ∙ sym (take_nil j))
    ∙ ap (λ t. take j t ++ others) (sym h)
    ∙ k
    ∙ h
Splits-sum (suc i) j (x ∷ s) rest others h k =
    let e : suc i + j ≡ suc (i + j) = omega arith in
    ap (λ n. take n (x ∷ s) ++ others) e
    ∙ ap (λ t. x ∷ t) (Splits-sum i j s rest others (tail_eq x (take i s ++ rest) s h) k)

fill-Splits : (c : Core) (s : Bytes) → Splits (fill c s).1 s (fill c s).2
unfolding fill
fill-Splits c [] = refl
fill-Splits c (byte ∷ s) = elim (Bool-cases (ltb c.bktrk_bytes backtrack_size)) [
  | inl e ↦
      rw (e, fill)
        (Splits-step (fill (absorb c byte) s).1 byte s (fill (absorb c byte) s).2
          (fill-Splits (absorb c byte) s))
  | inr e ↦ rw (e, fill) refl
]

zeroes-Splits : (s : Bytes) → Splits (zeroes s).0 s (zeroes s).1
unfolding zeroes
zeroes-Splits [] = refl
zeroes-Splits (byte ∷ s) = elim (Bool-cases (byte == 0)) [
  | inl e ↦ rw (e, zeroes) (Splits-step (zeroes s).0 byte s (zeroes s).1 (zeroes-Splits s))
  | inr e ↦ rw (e, zeroes) refl
]

roll_all-Splits : (c : Core) (s : Bytes) → Splits (roll_all c s).1 s (roll_all c s).2
unfolding roll_all
roll_all-Splits c [] = refl
roll_all-Splits c (byte ∷ s) = elim (Bool-cases (is_border (roll c byte))) [
  | inl e ↦ rw (e, roll_all) refl
  | inr e ↦
      rw (e, roll_all)
        (Splits-step (roll_all (roll c byte) s).1 byte s (roll_all (roll c byte) s).2
          (roll_all-Splits (roll c byte) s))
]

-- What is left behind a call.
abbrev left : Option Bytes → Bytes
left none = []
left (some rest) = rest

roll_all_nil : (c : Core) (s : Bytes) → (roll_all c s).3 ≡ false → (roll_all c s).2 ≡ []
unfolding roll_all
roll_all_nil c [] = λ h. refl
roll_all_nil c (byte ∷ s) = elim (Bool-cases (is_border (roll c byte))) [
  | inl e ↦ rw (e, roll_all) (λ h. cc)
  | inr e ↦ rw (e, roll_all) (roll_all_nil (roll c byte) s)
]

-- The bytes of the file that a call has taken, with what is left.
abbrev Takes : Manber → Bytes → Manber × Option Bytes → Type 0
Takes m bytes (m', o) = m'.full_md5_ctx ++ left o ≡ m.full_md5_ctx ++ bytes

join_taken : (a s others : Bytes) (n : ℕ) → Splits n s others → (a ++ take n s) ++ others ≡ a ++ s
join_taken a s others n h = append_assoc a (take n s) others ∙ ap (λ t. a ++ t) h

end_of_block-Takes :
    (md5 : Bytes → Bytes) (m : Manber) (bytes : Bytes) → Takes m bytes (end_of_block md5 m bytes)
unfolding end_of_block
end_of_block-Takes md5 m bytes =
    let (c, i, rest) = fill m.core bytes in
    let a = fill-Splits m.core bytes in
    elim (Bool-cases (c.data_bits == 0)) [
      | inl z ↦
          let (j, others) = zeroes rest in
          let b = Splits-sum i j bytes rest others a (zeroes-Splits rest) in
          elim others as (λ o. others ≡ o → Takes m bytes (end_of_block md5 m bytes)) [
            | [] ↦ λ e.
                rw (z, e, end_of_block) (join_taken m.full_md5_ctx bytes [] (i + j) (rw e at b))
            | byte ∷ s ↦ λ e.
                rw (z, e, end_of_block)
                  (join_taken m.full_md5_ctx bytes (byte ∷ s) (i + j) (rw e at b))
          ]
            refl
      | inr z ↦
          let (c', j, others, found) = roll_all c rest in
          let b = Splits-sum i j bytes rest others a (roll_all-Splits c rest) in
          elim (Bool-cases found) [
            | inl f ↦ rw (z, f, end_of_block) (join_taken m.full_md5_ctx bytes others (i + j) b)
            | inr f ↦
                rw (z, f, end_of_block)
                  (join_taken m.full_md5_ctx bytes [] (i + j) (rw (roll_all_nil c rest f) at b))
          ]
    ]

-- A call of `cs___update_manber` that ends.
abbrev TakesAll : Manber → Bytes → Option (Manber × List Line) → Type 0
TakesAll m bytes none = Unit
TakesAll m bytes (some (m', lines)) = m'.full_md5_ctx ≡ m.full_md5_ctx ++ bytes

Takes-more :
    (m m' : Manber) (bytes rest : Bytes) (l : Line) (r : Option (Manber × List Line))
    → m'.full_md5_ctx ++ rest ≡ m.full_md5_ctx ++ bytes
    → TakesAll m' rest r
    → TakesAll m bytes (elim r as (λ r. Option (Manber × List Line)) [
      | none ↦ none
      | some (m'', lines) ↦ some (m'', l ∷ lines)
    ])
Takes-more m m' bytes rest l none h u = tt
Takes-more m m' bytes rest l (some (m'', lines)) h u = u ∙ h

Takes-step :
    (md5 : Bytes → Bytes) (fuel : ℕ) (m : Manber) (bytes : Bytes)
    → ((m' : Manber) (rest : Bytes) → TakesAll m' rest (update_manber md5 fuel m' rest))
    → (o : Option Bytes) → (end_of_block md5 m bytes).1 ≡ o
    → Takes m bytes ((end_of_block md5 m bytes).0, o)
    → TakesAll m bytes (update_manber md5 (suc fuel) m bytes)
unfolding update_manber
Takes-step md5 fuel m bytes ih none e h =
    rw (e, update_manber) (sym (append-nil (end_of_block md5 m bytes).0.full_md5_ctx) ∙ h)
Takes-step md5 fuel m bytes ih (some rest) e h =
    let m' = (end_of_block md5 m bytes).0 in
    let again = record (new_block m') { last_fpos = m'.fpos } in
    rw (e, update_manber)
      (Takes-more m again bytes rest (line_of m') (update_manber md5 fuel again rest) h
        (ih again rest))

update_manber-TakesAll :
    (md5 : Bytes → Bytes) (fuel : ℕ) (m : Manber) (bytes : Bytes)
    → TakesAll m bytes (update_manber md5 fuel m bytes)
unfolding update_manber
update_manber-TakesAll md5 zero m bytes = tt
update_manber-TakesAll md5 (suc fuel) m bytes =
    Takes-step md5 fuel m bytes (update_manber-TakesAll md5 fuel) (end_of_block md5 m bytes).1 refl
      (end_of_block-Takes md5 m bytes)

-- A call of `cs___update_manber` ends, and gives all of its bytes, once and in order, to the MD5 sum of the file.
pub update_manber-full :
    (md5 : Bytes → Bytes) (m : Manber) (bytes : Bytes)
    → (m' : Manber) × (lines : List Line) × (update_manber md5 (length bytes + 2) m bytes
        ≡ some (m', lines))
      × (m'.full_md5_ctx ≡ m.full_md5_ctx ++ bytes)
update_manber-full md5 m bytes =
    let (m', lines, e, q) = update_manber_total md5 m bytes in
    (
      m',
      lines,
      e,
      subst (TakesAll m bytes) e (update_manber-TakesAll md5 (length bytes + 2) m bytes),
    )
