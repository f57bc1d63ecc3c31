-- ===== src/Waa/Position.antt =====
-- The place that `waa___find_position` gives is right.
use Prim.Native.Nat.{Ordering}
use fsvs.Prelude.{
  ℕ, zero, suc, ◌+◌, ◌-◌, ◌*◌, ◌/◌, ◌^◌, ◌≤◌, ◌<◌, ◌≡◌, refl, sym, subst, inl, inr, true, Option,
  some, List, leb, ◌==◌, if◌then◌else◌, length, arith, Bool-cases, leb→le, leb→lt,
}
use fsvs.Waa.{
  Inode, sort_by_inode, element, search_position, find_position, before_first, behind_end,
}

is_number : (a b : ℕ) → (a == b) ≡ true → a ≡ b
is_number a b h = ground arith

-- The order of inodes, as numbers.
abbrev pub rank : Inode → ℕ
rank a = a.dev * 2 ^ 64 + a.ino

abbrev pub IsSmall : Inode → Type 0
IsSmall a = a.ino < 2 ^ 64

-- What the comparison says of the ranks.
abbrev Compares : Ordering → ℕ → ℕ → Type 0
Compares Ordering.lt m n = m < n
Compares Ordering.eq m n = m ≡ n
Compares Ordering.gt m n = n < m

sort_by_inode-rank :
    (a b : Inode) → IsSmall a → IsSmall b → Compares (sort_by_inode a b) (rank a) (rank b)
unfolding sort_by_inode
sort_by_inode-rank a b h k = ground arith

-- An array that is sorted, with inodes of 64 bits.
pub record IsSorted (array : List Inode) : Type 0 where
  pub small : (i : ℕ) → IsSmall (element array i)
  pub sorted :
      (i j : ℕ) → i ≤ j → j < length array → rank (element array i) ≤ rank (element array j)

-- The place: what stands in front of it is not larger, and what stands from it on is not smaller.
pub record IsPlace (new : Inode) (array : List Inode) (i : ℕ) : Type 0 where
  pub within : i ≤ length array
  pub front : (j : ℕ) → j < i → rank (element array j) ≤ rank new
  pub back : (j : ℕ) → i ≤ j → j < length array → rank new ≤ rank (element array j)

module _ (new : Inode) (array : List Inode) (small : IsSmall new) (s : IsSorted array) where
  -- Two neighbours are enough.
  place :
      (i : ℕ)
      → i < length array
      → 0 < i
      → rank (element array (i - 1)) ≤ rank new
      → rank new ≤ rank (element array i)
      → IsPlace new array i
  place i h p f b = record {
    within = omega arith;
    front = λ j k. omega (arith, f, s.sorted j (i - 1) (omega arith) (omega arith));
    back = λ j k l. omega (arith, b, s.sorted i j k l);
  }

  strictly :
      (i j : ℕ)
      → i < length array
      → j < length array
      → rank (element array i) < rank (element array j)
      → i < j
  strictly i j h k e = elim (Bool-cases (leb j i)) [
    | inl le ↦ absurd (omega (arith, e, s.sorted j i (leb→le j i le) h))
    | inr lt ↦ leb→lt j i lt
  ]

  abbrev Finds : Option ℕ → Type 0
  Finds o = (i : ℕ) × (o ≡ some i) × IsPlace new array i

  abbrev middle_of : ℕ → ℕ → ℕ
  middle_of smaller bigger_eq = (bigger_eq + smaller) / 2

  -- One round, by the sign of the comparison.
  round_gt :
      (fuel smaller bigger_eq : ℕ)
      → sort_by_inode new (element array (middle_of smaller bigger_eq)) ≡ Ordering.gt
      → search_position (suc fuel) new array smaller bigger_eq ≡ (
          if leb bigger_eq (middle_of smaller bigger_eq + 1)
          then some bigger_eq
          else search_position fuel new array (middle_of smaller bigger_eq + 1) bigger_eq)
  unfolding search_position
  round_gt fuel smaller bigger_eq e = rw (e, search_position) refl

  round_lt :
      (fuel smaller bigger_eq : ℕ)
      → sort_by_inode new (element array (middle_of smaller bigger_eq)) ≡ Ordering.lt
      → search_position (suc fuel) new array smaller bigger_eq ≡ (
          if leb (middle_of smaller bigger_eq) smaller
          then some (middle_of smaller bigger_eq)
          else search_position fuel new array smaller (middle_of smaller bigger_eq))
  unfolding search_position
  round_lt fuel smaller bigger_eq e = rw (e, search_position) refl

  round_eq :
      (fuel smaller bigger_eq : ℕ)
      → sort_by_inode new (element array (middle_of smaller bigger_eq)) ≡ Ordering.eq
      → search_position (suc fuel) new array smaller bigger_eq ≡ some (middle_of smaller bigger_eq)
  unfolding search_position
  round_eq fuel smaller bigger_eq e = rw (e, search_position) refl

  -- The loop halves the part between an element that is not larger and one that is larger.
  search_position-IsPlace :
      (fuel smaller bigger_eq : ℕ)
      → bigger_eq - smaller < fuel
      → 0 < smaller
      → smaller ≤ bigger_eq
      → bigger_eq < length array
      → rank (element array (smaller - 1)) ≤ rank new
      → rank new < rank (element array bigger_eq)
      → Finds (search_position fuel new array smaller bigger_eq)
  search_position-IsPlace zero smaller bigger_eq h p q r f b = absurd (omega arith)
  search_position-IsPlace (suc fuel) smaller bigger_eq h p q r f b =
      let m = middle_of smaller bigger_eq in
      let low : smaller ≤ m = omega arith in
      let high : m ≤ bigger_eq = omega arith in
      elim (sort_by_inode new (element array m))
          as (λ o.
            sort_by_inode new (element array m) ≡ o
            → Compares o (rank new) (rank (element array m))
            → Finds (search_position (suc fuel) new array smaller bigger_eq)) [
              | Ordering.gt ↦ λ e c.
                  let less : m < bigger_eq =
                    strictly m bigger_eq (omega (arith, high)) r (omega (arith, c, b)) in
                  subst Finds (sym (round_gt fuel smaller bigger_eq e))
                    (elim (Bool-cases (leb bigger_eq (m + 1))) [
                      | inl stop ↦ rw stop (
                        bigger_eq,
                        refl,
                        place bigger_eq r (omega arith)
                            (omega (
                              arith,
                              c,
                              s.sorted (bigger_eq - 1) m
                                  (omega (arith, leb→le bigger_eq (m + 1) stop))
                                  (omega (arith, high)),
                            ))
                            (omega (arith, b)),
                      )
                      | inr go ↦ rw go (
                          search_position-IsPlace fuel (m + 1) bigger_eq (omega (arith, low))
                            (omega arith) (omega (arith, less)) r
                            (omega (
                              arith,
                              c,
                              s.sorted (m + 1 - 1) m (omega arith) (omega (arith, high)),
                            ))
                            b)
                    ])
              | Ordering.lt ↦ λ e c.
                  subst Finds (sym (round_lt fuel smaller bigger_eq e))
                    (elim (Bool-cases (leb m smaller)) [
                      | inl stop ↦ rw stop (
                        m,
                        refl,
                        place m (omega (arith, high)) (omega (arith, low))
                            (omega (
                              arith,
                              f,
                              s.sorted (m - 1) (smaller - 1) (omega (arith, leb→le m smaller stop))
                                  (omega arith),
                            ))
                            (omega (arith, c)),
                      )
                      | inr go ↦ rw go (
                          search_position-IsPlace fuel smaller m
                            (omega (arith, leb→lt m smaller go)) p low (omega arith) f c)
                    ])
              | Ordering.eq ↦ λ e c. subst Finds (sym (round_eq fuel smaller bigger_eq e)) (
                m,
                refl,
                place m (omega (arith, high)) (omega (arith, low))
                    (omega (arith, c, s.sorted (m - 1) m (omega arith) (omega (arith, high))))
                    (omega (arith, c)),
              )
            ]
        refl (sort_by_inode-rank new (element array m) small (s.small m))

  zero-IsPlace : rank new < rank (element array 0) → 0 < length array → IsPlace new array 0
  zero-IsPlace c h = record {
    within = omega arith;
    front = λ j k. absurd (omega arith);
    back = λ j k l. omega (arith, c, s.sorted 0 j k l);
  }

  end-IsPlace :
      0 < length array
      → rank (element array (length array - 1)) ≤ rank new
      → IsPlace new array (length array)
  end-IsPlace h c = record {
    within = omega arith;
    front = λ j k. omega (arith, c, s.sorted j (length array - 1) (omega arith) (omega arith));
    back = λ j k l. absurd (omega arith);
  }

  before_first-Finds :
      (o : Ordering) (others : Option ℕ)
      → Compares o (rank new) (rank (element array 0))
      → 0 < length array
      → (rank (element array 0) ≤ rank new → Finds others)
      → Finds (before_first o others)
  before_first-Finds Ordering.lt others c h f = (0, refl, zero-IsPlace c h)
  before_first-Finds Ordering.eq others c h f = f (omega arith)
  before_first-Finds Ordering.gt others c h f = f (omega arith)

  behind_end-Finds :
      (o : Ordering) (found : Option ℕ)
      → Compares o (rank new) (rank (element array (length array - 1)))
      → 0 < length array
      → (rank new < rank (element array (length array - 1)) → Finds found)
      → Finds (behind_end o (length array) found)
  behind_end-Finds Ordering.lt found c h f = f c
  behind_end-Finds Ordering.eq found c h f = (length array, refl, end-IsPlace h (omega arith))
  behind_end-Finds Ordering.gt found c h f = (length array, refl, end-IsPlace h (omega arith))

  -- In an array that is sorted by inode waa___find_position always finds a place for a new entry: no element in front of it
  -- is larger, and none from it on is smaller; also with equal inodes. The loop ends within as many rounds as
  -- there are elements.
  pub find_position-IsPlace : (i : ℕ) × (find_position new array ≡ some i) × IsPlace new array i
  unfolding find_position
  find_position-IsPlace = elim (Bool-cases (length array == 0)) [
    | inl e ↦ rw e (
      0,
      refl,
      record {
        within = omega arith;
        front = λ j k. absurd (omega arith);
        back = λ j k l. absurd (omega (arith, is_number (length array) 0 e));
      },
    )
    | inr e ↦ rw e (
        before_first-Finds (sort_by_inode new (element array 0)) _
          (sort_by_inode-rank new (element array 0) small (s.small 0)) (ground arith)
          (λ f. elim (Bool-cases (length array == 1)) [
            | inl one ↦ rw one (
              1,
              refl,
              record {
                within = omega (arith, is_number (length array) 1 one);
                front = λ j k. omega (
                  arith,
                  f,
                  s.sorted j 0 (omega arith) (omega (arith, is_number (length array) 1 one)),
                );
                back = λ j k l. absurd (omega (arith, is_number (length array) 1 one));
              },
            )
            | inr more ↦ rw more (
                behind_end-Finds (sort_by_inode new (element array (length array - 1))) _
                  (sort_by_inode-rank new (element array (length array - 1)) small
                    (s.small (length array - 1)))
                  (ground arith)
                  (λ b.
                    search_position-IsPlace (length array) 1 (length array - 1) (ground arith)
                      (omega arith) (ground arith) (ground arith) f b))
          ]))
  ]
