-- ===== src/Ignore/Match/Stale.antt =====
-- `ign__is_ignore` of src/ignore.c with a pattern that has no expression, like "mode:04000:04000".
use Prim.Native.Nat.{bit_and}
use fsvs.Prelude.{
  ℕ, suc, ◌+◌, ◌*◌, ◌≤◌, ◌≡◌, refl, ap, ◌∙◌, inr, Bool, not, ◌&&◌, ◌||◌, ◌==◌, true, false, none,
  some, List, [], ◌∷◌, Bytes, arith,
}
use fsvs.Ignore.Match.{unknown, ok, answer_of, behind, counted, hit, with_group, ask, is_ignore}
use fsvs.Ignore.Pattern.{
  Stat, shell, Group, Pattern, Entry, Services, Scratch, kept, is_dir, test_text, test_pattern,
}
use fsvs.Ignore.Match.First.{ask_found, ask_missed, is_ignore-ask}
use fsvs.Ignore.Pattern.Holds.{
  is_allowed, IsDefinite, Promises, group_of, grouped, pattern_holds, with_group_lem,
  test_pattern_lem, not-or, grouped_same,
}

and-parts : (a b : Bool) → (not a && b) ≡ true → (a ≡ false) × (b ≡ true)
and-parts true b h = cc
and-parts false b h = (refl, h)

-- Such a pattern leaves the status as it was.
test_shell_none :
    (sv : Services) (fuel : ℕ) (z : Bool) (dir st : Stat) (path : Bytes) (q : Pattern) (s : Scratch)
    → q.kind ≡ shell none
    → is_allowed q st.mode ≡ true
    → test_pattern sv fuel z dir path st q s ≡ (kept z, s)
unfolding test_pattern test_text
test_shell_none sv fuel z dir st path q s k a =
    let (d, m) =
      and-parts (q.dir_only && not (is_dir st.mode))
        (q.mode_match_and == 0 || bit_and st.mode q.mode_match_and == q.mode_match_cmp) a in
    rw (k, test_pattern, d, not-or _ _ true m) refl

-- The loop behind a pattern that does not hold.
ask-behind :
    (sv : Services) (holds : Bytes → Bytes → Bool) (path : Bytes) (n fuel : ℕ) (z : Bool)
    (dir st : Stat) (s : Scratch) (p : Pattern) (ps : List Pattern)
    → Promises sv holds path n
    → n ≤ s.size + 5 * fuel
    → IsDefinite p.kind
    → (g : Group) → group_of sv p ≡ inr g
    → pattern_holds sv holds dir path st p ≡ false
    → (s' : Scratch) × (ask sv (suc fuel) z dir path st s (p ∷ ps)
        ≡ behind (counted (grouped p g)) (ask sv (suc fuel) false dir path st s' ps))
      × (s.size ≤ s'.size)
ask-behind sv holds path n fuel z dir st s p ps w h d g e b =
    let (z', q) = with_group_lem sv z p g e in
    let (s', t, l) =
      test_pattern_lem sv holds path n w fuel z' dir st (counted (grouped p g)) s d h in
    let same : pattern_holds sv holds dir path st (counted (grouped p g))
        ≡ pattern_holds sv holds dir path st p =
      unfold pattern_holds in refl in
    (
      s',
      ask_missed sv (suc fuel) z z' dir st path s s' p (grouped p g) g ps q
          (t ∙ ap (λ b. (kept b, s')) (same ∙ b)),
      l,
    )

-- The pattern without an expression, at the end of the list: where its group has to be read, and where it has
-- been read.
ask_fresh :
    (sv : Services) (fuel : ℕ) (z : Bool) (dir st : Stat) (path : Bytes) (s : Scratch) (q : Pattern)
    (g : Group)
    → q.kind ≡ shell none
    → is_allowed q st.mode ≡ true
    → q.group_def ≡ none
    → sv.load_group q.group_name ≡ inr g
    → ask sv fuel z dir path st s (q ∷ []) ≡ record {
      status = ok;
      is_ignored = answer_of g;
      match_pattern = some 0;
      patterns = hit (counted (grouped q g)) ∷ [];
      scratch = s;
    }
unfolding with_group
ask_fresh sv fuel z dir st path s q g k a u l =
    ask_found sv fuel z true dir st path s s q (grouped q g) g [] (rw (u, l, with_group) refl)
      (test_shell_none sv fuel true dir st path (counted (grouped q g)) s k a)

ask_loaded :
    (sv : Services) (fuel : ℕ) (dir st : Stat) (path : Bytes) (s : Scratch) (q : Pattern)
    (g : Group)
    → q.kind ≡ shell none
    → is_allowed q st.mode ≡ true
    → q.group_def ≡ some g
    → ask sv fuel false dir path st s (q ∷ [])
      ≡ behind (counted q) (ask sv fuel false dir path st s [])
unfolding with_group
ask_loaded sv fuel dir st path s q g k a u =
    ask_missed sv fuel false false dir st path s s q q g []
      (rw (u, with_group) (ap (λ a. inr (a, g, false)) (grouped_same q g u)))
      (test_shell_none sv fuel false dir st path (counted q) s k a)

-- A pattern without an expression, behind one that does not hold, decides when its group is read for it. If the
-- same entry is looked up once more, with the list and the match data as they were left, it does not decide
-- any more.
pub is_ignore-twice :
    (sv : Services) (holds : Bytes → Bytes → Bool) (path : Bytes) (n fuel : ℕ) (sts : Entry)
    (dir : Stat) (s : Scratch) (p q : Pattern) (f g : Group)
    → Promises sv holds path n
    → n ≤ 5 * fuel
    → sts.parent ≡ some dir
    → sts.to_be_ignored ≡ false
    → sts.path ≡ inr path
    → IsDefinite p.kind
    → group_of sv p ≡ inr f
    → pattern_holds sv holds dir path sts.st p ≡ false
    → q.kind ≡ shell none
    → is_allowed q sts.st.mode ≡ true
    → q.group_def ≡ none
    → sv.load_group q.group_name ≡ inr g
    → let v = is_ignore sv (suc fuel) sts s (p ∷ q ∷ []) in
      (v.is_ignored ≡ answer_of g)
      × ((is_ignore sv (suc fuel) sts v.scratch v.patterns).is_ignored ≡ unknown)
unfolding ask
is_ignore-twice sv holds path n fuel sts dir s p q f g w h d i t k e b m a u l =
    let start = record s { created = true } in
    let (s', r, small) =
      ask-behind sv holds path n fuel true dir sts.st start p (q ∷ []) w (omega arith) k f e b in
    let fresh = ask_fresh sv (suc fuel) false dir sts.st path s' q g m a u l in
    let p' = counted (grouped p f) in
    let q' = hit (counted (grouped q g)) in
    let b' : pattern_holds sv holds dir path sts.st p' ≡ false = unfold pattern_holds in b in
    let (s'', r', small') =
      ask-behind sv holds path n fuel true dir sts.st (record s' { created = true }) p' (q' ∷ []) w
        (omega arith) k f refl b' in
    let loaded = ask_loaded sv (suc fuel) dir sts.st path s'' q' g m a refl in
    rw (is_ignore-ask sv path (suc fuel) sts dir s (p ∷ q ∷ []) w.2 d i t, r, fresh)
      (
        refl,
        rw (is_ignore-ask sv path (suc fuel) sts dir s' (p' ∷ q' ∷ []) w.2 d i t, r', loaded) refl,
      )
