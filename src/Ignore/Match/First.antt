-- ===== src/Ignore/Match/First.antt =====
-- `ign__is_ignore` of src/ignore.c against its specification: the first pattern that holds decides.
use fsvs.Prelude.{
  ℕ, suc, ◌+◌, ◌*◌, ◌≤◌, ◌≡◌, refl, sym, ap, ◌∙◌, ◌⊎◌, inl, inr, Bool, true, false, not, ◌&&◌, none,
  some, List, [], ◌∷◌, ◌++◌, map, Bytes, length, arith, Bool-cases, All,
}
use fsvs.Ignore.Match.{
  unknown, ok, Verdict, answer_of, behind, counted, hit, with_group, ask, is_ignore,
}
use fsvs.Ignore.Pattern.{
  Stat, Group, Pattern, Entry, Services, Scratch, found, missed, kept, test_pattern,
}
use fsvs.Ignore.Pattern.Holds.{
  pattern_holds, IsDefinite, Promises, group_of, grouped, tested, with_group_lem, test_pattern_lem,
}

abbrev pub Ready : Services → Pattern → Type 0
Ready sv p = IsDefinite p.kind × (g : Group) × (group_of sv p ≡ inr g)

-- The first pattern that holds decides; the ones before it and it are counted as tested, it is counted as
-- matching, and those behind it are as before. If none holds, nothing is decided.
abbrev pub Decides :
    Services → (Bytes → Bytes → Bool) → Stat → Bytes → Stat → List Pattern → Verdict → Type 0
Decides sv holds dir path st ps v =
    (All (λ p. pattern_holds sv holds dir path st p ≡ false) ps
      × (v.is_ignored ≡ unknown)
      × (v.match_pattern ≡ none)
      × (v.patterns ≡ map (tested sv) ps))
    ⊎ ((before : List Pattern) × (p : Pattern) × (after : List Pattern) × (g : Group) × (ps
          ≡ before ++ p ∷ after)
        × All (λ p. pattern_holds sv holds dir path st p ≡ false) before
        × (pattern_holds sv holds dir path st p ≡ true)
        × (group_of sv p ≡ inr g)
        × (v.is_ignored ≡ answer_of g)
        × (v.match_pattern ≡ some (length before))
        × (v.patterns ≡ map (tested sv) before ++ hit (tested sv p) ∷ after))

pub ask_found :
    (sv : Services) (fuel : ℕ) (z z' : Bool) (dir st : Stat) (path : Bytes) (s s' : Scratch)
    (p q : Pattern) (g : Group) (ps : List Pattern)
    → with_group sv z p ≡ inr (q, g, z')
    → test_pattern sv fuel z' dir path st (counted q) s ≡ (found, s')
    → ask sv fuel z dir path st s (p ∷ ps) ≡ record {
      status = ok;
      is_ignored = answer_of g;
      match_pattern = some 0;
      patterns = hit (counted q) ∷ ps;
      scratch = s';
    }
unfolding ask
ask_found sv fuel z z' dir st path s s' p q g ps e t = rw (e, t, ask) (rw (ap (λ x. x.1) t) refl)

pub ask_missed :
    (sv : Services) (fuel : ℕ) (z z' : Bool) (dir st : Stat) (path : Bytes) (s s' : Scratch)
    (p q : Pattern) (g : Group) (ps : List Pattern)
    → with_group sv z p ≡ inr (q, g, z')
    → test_pattern sv fuel z' dir path st (counted q) s ≡ (missed, s')
    → ask sv fuel z dir path st s (p ∷ ps)
      ≡ behind (counted q) (ask sv fuel false dir path st s' ps)
unfolding ask
ask_missed sv fuel z z' dir st path s s' p q g ps e t = rw (e, t, ask) (rw (ap (λ x. x.1) t) refl)

tested_lem :
    (sv : Services) (p : Pattern) (g : Group)
    → group_of sv p ≡ inr g
    → tested sv p ≡ counted (grouped p g)
tested_lem sv p g e = rw (e, tested) refl

-- A pattern in front that does not hold.
Decides-behind :
    (sv : Services) (holds : Bytes → Bytes → Bool) (dir st : Stat) (path : Bytes) (p : Pattern)
    (ps : List Pattern) (v : Verdict)
    → pattern_holds sv holds dir path st p ≡ false
    → Decides sv holds dir path st ps v
    → Decides sv holds dir path st (p ∷ ps) (behind (tested sv p) v)
Decides-behind sv holds dir st path p ps v b (inl (a, u, m, e)) =
    inl ((b, a), u, rw m refl, ap (λ l. tested sv p ∷ l) e)
Decides-behind sv holds dir st path p ps v b (inr (before, q, after, g, e, a, h, k, u, m, t)) =
    inr (
      p ∷ before,
      q,
      after,
      g,
      ap (λ l. p ∷ l) e,
      (b, a),
      h,
      k,
      u,
      rw m (ap some (omega arith)),
      ap (λ l. tested sv p ∷ l) t,
    )

and_false : (b : Bool) → (b && false) ≡ false
and_false true = refl
and_false false = refl

ask_lem :
    (sv : Services) (holds : Bytes → Bytes → Bool) (path : Bytes) (n : ℕ)
    → Promises sv holds path n
    → (fuel : ℕ) (z : Bool) (dir st : Stat) (s : Scratch) (ps : List Pattern) → All (Ready sv) ps
    → n ≤ s.size + 5 * fuel
    → let v = ask sv (suc fuel) z dir path st s ps in
      (v.status ≡ ok) × Decides sv holds dir path st ps v
unfolding ask
ask_lem sv holds path n w fuel z dir st s [] r h = (refl, inl (tt, refl, refl, refl))
ask_lem sv holds path n w fuel z dir st s (p ∷ ps) ((d, g, e), r) h =
    let (z', q) = with_group_lem sv z p g e in
    let (s', t, l) =
      test_pattern_lem sv holds path n w fuel z' dir st (counted (grouped p g)) s d h in
    let (o, rest) = ask_lem sv holds path n w fuel false dir st s' ps r (omega arith) in
    let same : pattern_holds sv holds dir path st (counted (grouped p g))
        ≡ pattern_holds sv holds dir path st p =
      unfold pattern_holds in refl in
    elim (Bool-cases (pattern_holds sv holds dir path st p)) [
      | inl b ↦
          let t' : test_pattern sv (suc fuel) z' dir path st (counted (grouped p g)) s
              ≡ (found, s') =
            t ∙ ap (λ b. (kept b, s')) (same ∙ b) in
          rw (ask_found sv (suc fuel) z z' dir st path s s' p (grouped p g) g ps q t') (
            refl,
            inr (
              [],
              p,
              ps,
              g,
              refl,
              tt,
              b,
              e,
              refl,
              refl,
              ap (λ a. hit a ∷ ps) (sym (tested_lem sv p g e)),
            ),
          )
      | inr b ↦
          let t' : test_pattern sv (suc fuel) z' dir path st (counted (grouped p g)) s
              ≡ (missed, s') =
            t ∙ ap (λ b. (kept b, s')) (same ∙ b) in
          rw
            (
              ask_missed sv (suc fuel) z z' dir st path s s' p (grouped p g) g ps q t',
              ← tested_lem sv p g e,
            )
            (
              o,
              Decides-behind sv holds dir st path p ps (ask sv (suc fuel) false dir path st s' ps) b
                  rest,
            )
    ]

-- An entry that is not the root and is not marked is looked up in the list.
pub is_ignore-ask :
    (sv : Services) (path : Bytes) (fuel : ℕ) (sts : Entry) (dir : Stat) (s : Scratch)
    (ps : List Pattern)
    → ((size : ℕ) → sv.create size ≡ true)
    → sts.parent ≡ some dir
    → sts.to_be_ignored ≡ false
    → sts.path ≡ inr path
    → is_ignore sv fuel sts s ps ≡ ask sv fuel true dir path sts.st (record s { created = true }) ps
unfolding is_ignore
is_ignore-ask sv path fuel sts dir s ps w d i p =
    let c : (not s.created && not (sv.create s.size)) ≡ false =
      rw (w s.size) (and_false (not s.created)) in
    rw (d, i, c, p, is_ignore) refl

-- For an entry that is not the root and is not marked to be ignored, the first pattern in the list that holds
-- decides, and the counters are advanced up to it: if the path can be built, every pattern sets the status and
-- its group is known or can be read, `pcre2_match` needs at most `n` pairs, and match data can be created. The
-- loop about `pcre2_match` then ends after at most n / 5 + 1 rounds.
pub is_ignore-Decides :
    (sv : Services) (holds : Bytes → Bytes → Bool) (path : Bytes) (n fuel : ℕ) (sts : Entry)
    (dir : Stat) (s : Scratch) (ps : List Pattern)
    → Promises sv holds path n
    → n ≤ 5 * fuel
    → All (Ready sv) ps
    → sts.parent ≡ some dir
    → sts.to_be_ignored ≡ false
    → sts.path ≡ inr path
    → let v = is_ignore sv (suc fuel) sts s ps in
      (v.status ≡ ok) × Decides sv holds dir path sts.st ps v
is_ignore-Decides sv holds path n fuel sts dir s ps w h r d i p =
    rw (is_ignore-ask sv path (suc fuel) sts dir s ps w.2 d i p) (
      ask_lem sv holds path n w fuel true dir sts.st (record s { created = true }) ps r
        (omega arith))
