-- ===== src/Ignore/Translate/Room.antt =====
-- The buffer of `ign__compile_pattern` in src/ignore.c is large enough, and its loop ends.
use fsvs.Prelude.{
  ℕ, zero, suc, ◌+◌, ◌-◌, ◌*◌, ◌≤◌, ◌<◌, ◌≡◌, refl, ap, ◌∙◌, ◌⊎◌, inl, inr, Bool, true, false, some,
  [], ◌∷◌, ◌++◌, ltb, ◌==◌, if◌then◌else◌, Bytes, codes, length, drop, arith, Bool-cases,
  length-append, length-drop, strncmp_eq_of_prefix,
}
use fsvs.Ignore.Translate.{
  bracket_char, bracketed, skip_stars, star, piece, round, text, prepend, last_of, translate,
  all_but_last, anchored, anchor, compile_shell, compile_shell_abs, compiled, rest_is,
  strip_wc_path, is_plain,
}

drop_past : (xs : Bytes) (c : ℕ) (p : Bytes) (n : ℕ) → n ≡ 1 + length xs → drop n (xs ++ c ∷ p) ≡ p
drop_past xs c p zero e = absurd (omega arith)
drop_past [] c p (suc zero) e = refl
drop_past [] c p (suc (suc n)) e = absurd (omega arith)
drop_past (x ∷ xs) c p (suc n) e = drop_past xs c p n (omega arith)

skip_stars-le : (src : Bytes) → length (skip_stars src) ≤ length src
unfolding skip_stars
skip_stars-le [] = omega arith
skip_stars-le (c ∷ src) = ground (arith, skip_stars-le src)

-- With room for what is left, a bracket expression is copied one to one, up to some point.
abbrev Copies : Bool → ℕ → ℕ → Bytes → Type 0
Copies backslashed pos room src =
    (rest : Bytes) × (out : Bytes) × (bracketed backslashed pos room src ≡ some (rest, out))
    × (length out + length rest ≡ length src)
    × ((length src ≡ 0) ⊎ (length rest < length src))

bracketed_total :
    (backslashed : Bool) (pos room : ℕ) (src : Bytes)
    → length src + 5 ≤ room
    → Copies backslashed pos room src
unfolding bracketed
bracketed_total backslashed pos room [] h = ([], [], refl, refl, inl refl)
bracketed_total backslashed pos room (c ∷ src) h =
    let step = bracket_char backslashed pos c in
    let (rest, out, e, same, less) = bracketed_total step.2 step.1 (room - 1) src (omega arith) in
    elim (Bool-cases (step.1 == 0)) [
      | inl closed ↦ (src, step.0 ∷ [], ground arith, omega arith, inr (omega arith))
      | inr more ↦ (rest, step.0 ∷ out, ground arith, omega arith, inr (omega arith))
    ]

-- A round of the loop takes something, and writes at most five characters for each one.
abbrev Rounds : Bool → ℕ → ℕ → ℕ → Bytes → Type 0
Rounds backslashed prev room c src =
    (out : Bytes) × (rest : Bytes) × (b : Bool) × (round backslashed prev room c src
      ≡ some (out, rest, b))
    × (length rest < length src + 1)
    × (length out + 5 * length rest ≤ 5 * length src + 5)

drop-le : (n : ℕ) (src : Bytes) → length (drop n src) ≤ length src
drop-le zero src = omega arith
drop-le (suc n) [] = omega arith
drop-le (suc n) (c ∷ src) = omega (arith, drop-le n src)

star_lem :
    (prev : ℕ) (src : Bytes)
    → (length (star prev src).1 ≤ length src)
      × (length (star prev src).0 + 5 * length (star prev src).1 ≤ 5 * length src + 5)
unfolding star
star_lem prev [] = (omega arith, omega arith)
star_lem prev (c ∷ []) = (ground arith, ground arith)
star_lem prev (c ∷ d ∷ src) =
    (ground (arith, skip_stars-le (d ∷ src)), ground (arith, skip_stars-le (d ∷ src)))

piece_total :
    (prev room c : ℕ) (src : Bytes)
    → length src + 6 ≤ room
    → (out : Bytes) × (rest : Bytes) × (b : Bool) × (piece prev room c src ≡ some (out, rest, b))
      × (length rest ≤ length src)
      × (length out + 5 * length rest ≤ 5 * length src + 5)
unfolding piece
piece_total prev room c src h = elim (Bool-cases (c == b'*')) [
  | inl is_star ↦
      let (shorter, small) = star_lem prev src in
      ((star prev src).0, (star prev src).1, false, rw (is_star, piece) refl, shorter, small)
  | inr e ↦ elim (Bool-cases (c == b'?')) [
    | inl q ↦ (b'.' ∷ [], src, false, rw (e, q, piece) refl, omega arith, omega arith)
    | inr q ↦ elim (Bool-cases (c == b'[')) [
      | inl k ↦
          let (rest, out, same, sum, less) = bracketed_total false 0 room (c ∷ src) (omega arith) in
          (out, rest, false, rw (e, q, k, same, piece) refl, omega arith, omega arith)
      | inr k ↦ elim (Bool-cases (is_plain c)) [
        | inl p ↦ (c ∷ [], src, false, ground arith, omega arith, omega arith)
        | inr p ↦ elim (Bool-cases (c == b'\\')) [
          | inl b ↦ (c ∷ [], src, true, ground arith, omega arith, omega arith)
          | inr b ↦ (b'\\' ∷ c ∷ [], src, false, ground arith, omega arith, omega arith)
        ]
      ]
    ]
  ]
]

round_total :
    (backslashed : Bool) (prev room c : ℕ) (src : Bytes)
    → length src + 6 ≤ room
    → Rounds backslashed prev room c src
unfolding round
round_total true prev room c src h = (c ∷ [], src, false, refl, omega arith, omega arith)
round_total false prev room c src h =
    let (out, rest, b, e, shorter, small) = piece_total prev room c src h in
    (out, rest, b, e, omega arith, small)

-- One round of the loop, where it ends, and where it goes on.
pub translate_end :
    (fuel : ℕ) (backslashed : Bool) (prev room c : ℕ) (src : Bytes) (out : Bytes) (b : Bool)
    → round backslashed prev room c src ≡ some (out, [], b)
    → length out + 18 ≤ room
    → translate (suc fuel) backslashed prev room (c ∷ src) ≡ text out
unfolding translate
translate_end fuel backslashed prev room c src out b e h =
    let enough : ltb (room - length out) 18 ≡ false = ground arith in rw (e, translate, enough) refl

pub translate_more :
    (fuel : ℕ) (backslashed : Bool) (prev room c : ℕ) (src : Bytes) (out : Bytes) (d : ℕ)
    (more : Bytes) (b : Bool)
    → round backslashed prev room c src ≡ some (out, d ∷ more, b)
    → length out + 18 ≤ room
    → translate (suc fuel) backslashed prev room (c ∷ src)
      ≡ prepend out (translate fuel b (last_of prev out) (room - length out) (d ∷ more))
unfolding translate
translate_more fuel backslashed prev room c src out d more b e h =
    let enough : ltb (room - length out) 18 ≡ false = ground arith in rw (e, translate, enough) refl

abbrev pub Fits : ℕ → Bool → ℕ → ℕ → ℕ → Bytes → Type 0
Fits fuel backslashed prev room c src =
    (out : Bytes) × (translate fuel backslashed prev room (c ∷ src) ≡ text out)
    × (length out ≤ 5 * length src + 5)

-- With room for five characters for each one that is left, and 18 more, the loop ends well.
pub translate_total :
    (fuel : ℕ) (backslashed : Bool) (prev room c : ℕ) (src : Bytes)
    → length src < fuel
    → 5 * length src + 23 ≤ room
    → Fits fuel backslashed prev room c src
translate_total zero backslashed prev room c src h k = absurd (omega arith)
translate_total (suc fuel) backslashed prev room c src h k =
    let (out, rest, b, e, shorter, small) = round_total backslashed prev room c src (omega arith) in
    elim rest
        as (λ r.
          round backslashed prev room c src ≡ some (out, r, b)
          → length r < length src + 1
          → length out + 5 * length r ≤ 5 * length src + 5
          → Fits (suc fuel) backslashed prev room c src) [
            | [] ↦ λ e s m. (
              out,
              translate_end fuel backslashed prev room c src out b e (omega arith),
              omega arith,
            )
            | d ∷ more ↦ λ e s m.
                let (o, q, l) =
                  translate_total fuel b (last_of prev out) (room - length out) d more (omega arith)
                    (omega arith) in
                (
                  out ++ o,
                  translate_more fuel backslashed prev room c src out d more b e (omega arith)
                      ∙ ap (prepend out) q,
                  omega (arith, length-append {0} out o),
                )
          ]
      e shorter small

all_but_last-le : (out : Bytes) → length (all_but_last out) ≤ length out
unfolding all_but_last
all_but_last-le [] = omega arith
all_but_last-le (c ∷ []) = omega arith
all_but_last-le (c ∷ d ∷ out) = omega (arith, all_but_last-le (d ∷ out))

anchored_room : (pattern out : Bytes) → length (anchored pattern out) ≤ length out + 5
unfolding anchored
anchored_room pattern out = ground (
  arith,
  all_but_last-le out,
  length-append {0} (all_but_last out) (codes "($|/)"),
  length-append {0} out (codes "$"),
)

-- The first character of a pattern that is not absolute.
translate_dot :
    (fuel room : ℕ) (src : Bytes)
    → 5 * length src + 25 ≤ room
    → length src + 2 ≤ fuel
    → (out : Bytes) × (translate fuel false 0 room (b'.' ∷ b'/' ∷ src) ≡ text out)
      × (length out ≤ 5 * length src + 7)
translate_dot zero room src h k = absurd (omega arith)
translate_dot (suc fuel) room src h k =
    let (out, e, small) =
      translate_total fuel false b'.' (room - 2) b'/' src (omega arith) (omega arith) in
    (
      b'\\' ∷ b'.' ∷ out,
      translate_more fuel false 0 room b'.' (b'/' ∷ src) (b'\\' ∷ b'.' ∷ []) b'/' src false
            (unfold round in refl) (omega arith)
          ∙ ap (prepend (b'\\' ∷ b'.' ∷ [])) e,
      omega arith,
    )

-- A shell pattern that begins with "./" is always translated: the loop ends, ENOSPC never comes up, and
-- the regular expression with its terminator fits into the memory that is allocated for it.
pub compile_shell_total :
    (src : Bytes)
    → let pattern = b'.' ∷ b'/' ∷ src in
      (out : Bytes) × (compile_shell pattern ≡ text out)
      × (length out + 1 ≤ 5 * length pattern + 16)
unfolding compile_shell
compile_shell_total src =
    let pattern = b'.' ∷ b'/' ∷ src in
    let (out, e, small) =
      translate_dot (length pattern + 1) (5 * length pattern + 16) src (omega arith)
        (omega arith) in
    (anchored pattern out, ap (anchor pattern) e, omega (arith, anchored_room pattern out))

-- The first character of a pattern that nothing is stripped from.
translate_slash :
    (fuel room : ℕ) (src : Bytes)
    → 5 * length src + 19 ≤ room
    → length src + 1 ≤ fuel
    → (out : Bytes) × (translate fuel false b'/' room (b'/' ∷ src) ≡ text out)
      × (length out ≤ 5 * length src + 1)
translate_slash zero room src h k = absurd (omega arith)
translate_slash (suc fuel) room [] h k = (
  b'/' ∷ [],
  translate_end fuel false b'/' room b'/' [] (b'/' ∷ []) false (unfold round in refl) (omega arith),
  omega arith,
)
translate_slash (suc fuel) room (d ∷ src) h k =
    let (out, e, small) =
      translate_total fuel false b'/' (room - 1) d src (omega arith) (omega arith) in
    (
      b'/' ∷ out,
      translate_more fuel false b'/' room b'/' (d ∷ src) (b'/' ∷ []) d src false
            (unfold round in refl) (omega arith)
          ∙ ap (prepend (b'/' ∷ [])) e,
      omega arith,
    )

strip_cases :
    (wc_path : Bytes) (warned : Bool) (p : Bytes) {src : Bytes}
    → strip_wc_path wc_path warned (b'/' ∷ p) ≡ rest_is src
    → (length src < length p + 1) ⊎ (b'/' ∷ p ≡ src)
unfolding strip_wc_path
strip_cases wc_path warned p {src} h =
    ground
      (arith, length-drop {0} (1 + (if length wc_path == 1 then 0 else length wc_path)) (b'/' ∷ p))

strip_text :
    (wc_path : Bytes) (warned : Bool) (p : Bytes) (c : ℕ) (src : Bytes)
    → strip_wc_path wc_path warned (b'/' ∷ p) ≡ rest_is (c ∷ src)
    → (out : Bytes) × (translate
          (length (c ∷ src) + 1)
          false
          b'/'
          (5 * length (b'/' ∷ p) + 14)
          (c ∷ src)
        ≡ text out)
      × (length out ≤ 5 * length p + 5)
strip_text wc_path warned p c src h = elim (strip_cases wc_path warned p {src = c ∷ src} h) [
  | inl shorter ↦
      let (out, e, small) =
        translate_total (length (c ∷ src) + 1) false b'/' (5 * length (b'/' ∷ p) + 14) c src
          (omega arith) (omega arith) in
      (out, e, omega arith)
  | inr whole ↦
      let (out, e, small) =
        translate_slash (length (b'/' ∷ p) + 1) (5 * length (b'/' ∷ p) + 14) p (omega arith)
          (omega arith) in
      let heads : b'/' ≡ c = ground arith in
      let tails : p ≡ src = ground arith in (out, rw (← heads, ← tails) e, omega arith)
]

-- An absolute pattern is translated, within its memory, if it is accepted and something is left of it
-- behind the base of the working copy.
pub compile_shell_abs_total :
    (wc_path : Bytes) (warned : Bool) (p : Bytes) (c : ℕ) (src : Bytes)
    → let pattern = b'/' ∷ p in
      strip_wc_path wc_path warned pattern ≡ rest_is (c ∷ src)
      → (out : Bytes) × (compile_shell_abs wc_path warned pattern ≡ compiled (text out))
        × (length out + 1 ≤ 5 * length pattern + 16)
unfolding compile_shell_abs
compile_shell_abs_total wc_path warned p c src h =
    let pattern = b'/' ∷ p in
    let (out, e, small) = strip_text wc_path warned p c src h in
    (
      anchored pattern (b'.' ∷ b'/' ∷ out),
      rw (h, compile_shell_abs, e) refl,
      omega (arith, anchored_room pattern (b'.' ∷ b'/' ∷ out)),
    )

-- Whether an absolute pattern is below the base is decided without a look at the character behind the
-- base: whatever it is, also no "/", it is dropped and the rest is taken as a path below the base.
pub strip_wc_path_sibling :
    (wc_path : Bytes) (warned : Bool) (c : ℕ) (p : Bytes)
    → 1 < length wc_path
    → strip_wc_path wc_path warned (wc_path ++ c ∷ p) ≡ rest_is p
unfolding strip_wc_path
strip_wc_path_sibling wc_path warned c p h =
    let long : (length wc_path == 1) ≡ false = ground arith in
    let fits : ltb (length (wc_path ++ c ∷ p)) (1 + length wc_path) ≡ false =
      ground (arith, length-append {0} wc_path (c ∷ p)) in
    rw (strncmp_eq_of_prefix wc_path (c ∷ p), long, fits)
      (ap rest_is (drop_past wc_path c p (1 + length wc_path) refl))
