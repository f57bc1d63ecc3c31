-- ===== src/Ignore/Match.antt =====
-- `ign__is_ignore` of src/ignore.c: the list of patterns is asked about one entry.
pub mod First
pub mod Stale
use Prim.Native.Nat.{bit_and}
use fsvs.Prelude.{
  ℕ, zero, suc, ◌+◌, ◌%◌, ◌^◌, Bool, true, false, not, ◌&&◌, ◌||◌, Option, none, some, List, [],
  ◌∷◌, ltb, ◌==◌, ◌⊎◌, inl, inr, if◌then◌else◌, Bytes,
}
use fsvs.Ignore.Pattern.{
  Stat, Device, Kind, shell, pcre, shell_abs, device, inode, Group, Pattern, Entry, Matched,
  matched, too_small, no_match, bad, Services, Order, minus_two, minus_one, equal, plus_one,
  plus_two, compare_dev, sort_by_inode, is_less, is_equal, device_holds, is_dir, Scratch, Ended,
  found, missed, endless, failed, enomem, run_match, kept, test_text, test_device, test_pattern,
}

-- `*is_ignored`: 0, +1, or -1.
pub data Answer : Type 0 where
  unknown ignored taken : Answer

pub data Status : Type 0 where
  ok unfinished : Status
  error : ℕ → Status

-- The results of `ign__is_ignore`; `match_pattern` is an index.
pub record Verdict : Type 0 where
  pub status : Status
  pub is_ignored : Answer
  pub match_pattern : Option ℕ
  pub patterns : List Pattern
  pub scratch : Scratch

abbrev pub answer_of : Group → Answer
answer_of g = if g.is_ignore then ignored else taken

abbrev pub undecided : Status → List Pattern → Scratch → Verdict
undecided status ps s = record {
  status = status;
  is_ignored = unknown;
  match_pattern = none;
  patterns = ps;
  scratch = s;
}

abbrev pub behind : Pattern → Verdict → Verdict
behind p v = record v {
  patterns = p ∷ v.patterns;
  match_pattern = elim v.match_pattern [ none ↦ none | some i ↦ some (i + 1) ];
}

-- The counters are unsigned numbers of 32 bits.
abbrev pub counted : Pattern → Pattern
counted p = record p { stats_tested = (p.stats_tested + 1) % 2 ^ 32 }

abbrev pub hit : Pattern → Pattern
hit p = record p { stats_matches = (p.stats_matches + 1) % 2 ^ 32 }

-- `ign___load_group`, which is called where the group is not known yet; it leaves the status 0.
unfoldable pub with_group : Services → Bool → Pattern → ℕ ⊎ (Pattern × Group × Bool)
with_group sv is_zero p = elim p.group_def [
  | some g ↦ inr (p, g, is_zero)
  | none ↦ elim (sv.load_group p.group_name) [
    | inl e ↦ inl e
    | inr g ↦ inr (record p { group_def = some g }, g, true)
  ]
]

-- The loop over the patterns; `is_zero` tells whether `status` is 0.
unfoldable pub ask : Services → ℕ → Bool → Stat → Bytes → Stat → Scratch → List Pattern → Verdict
unfolding with_group test_pattern
ask sv fuel is_zero dir path st s [] = undecided ok [] s
ask sv fuel is_zero dir path st s (p ∷ ps) = elim (with_group sv is_zero p) [
  | inl e ↦ undecided (error e) (p ∷ ps) s
  | inr (q, g, z) ↦
      let (t, s') = test_pattern sv fuel z dir path st (counted q) s in
      elim t [
        | found ↦ record {
          status = ok;
          is_ignored = answer_of g;
          match_pattern = some 0;
          patterns = hit (counted q) ∷ ps;
          scratch = s';
        }
        | missed ↦ behind (counted q) (ask sv fuel false dir path st s' ps)
        | failed e ↦ undecided (error e) (counted q ∷ ps) s'
        | endless ↦ undecided unfinished (counted q ∷ ps) s'
      ]
]

-- `ign__is_ignore`
unfoldable pub is_ignore : Services → ℕ → Entry → Scratch → List Pattern → Verdict
unfolding ask
is_ignore sv fuel sts s ps = elim sts.parent [
  | none ↦ undecided ok ps s
  | some dir ↦
      if sts.to_be_ignored
      then record (undecided ok ps s) { is_ignored = ignored }
      else if not s.created && not (sv.create s.size)
      then undecided (error enomem) ps s
      else elim sts.path [
        | inl e ↦ undecided (error e) ps (record s { created = true })
        | inr path ↦ ask sv fuel true dir path sts.st (record s { created = true }) ps
      ]
]
