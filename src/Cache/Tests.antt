-- ===== src/Cache/Tests.antt =====
-- Runs of the functions of src/cache.c, and the theorems at concrete caches.
use fsvs.Prelude.{ℕ, ◌≡◌, refl, true, false, some, [], ◌∷◌, arith, codes}
use fsvs.Cache.{
  Allocator, Entry, null, live, whole, space, ok, Cache, set_active, add, entry_set, set_by_id,
  at_index, find, find_from, round_up, fill, must_allocate, copied, holds_from, string_to_cv,
  pack_chars, hash_add, hash_find, new_block, new_cache,
}
use fsvs.Cache.Room.{HasRoom, entry_set-HasRoom}
use fsvs.Cache.Recency.{MovedToFront, recency, set_active-MovedToFront, Evicts, add-Evicts}
use fsvs.Cache.Lookup.{IsValid}
use fsvs.Cache.Store.{set_by_id-stale}

-- Memory is always given, and is filled with sevens; and an allocator that gives none.
abbrev plenty : Allocator
plenty = record { gives = λ n. true; byte = λ i. 7; word = 7 }

abbrev exhausted : Allocator
exhausted = record { gives = λ n. false; byte = λ i. 7; word = 7 }

abbrev entry : ℕ → Entry
entry id = record { id = id; hash_data = 0; len = 100; data_at = λ i. 0 }

abbrev three : Cache
three = record {
  max = 3;
  lru = 0;
  entries = live (entry 10) ∷ live (entry 11) ∷ live (entry 12) ∷ [];
}

entry_set-HasRoom_example :
    HasRoom 2 (fill 5 (whole (codes "ab")) (new_block plenty 57)) × (◌≡◌ {A = ℕ} 5 5)
unfolding fill
entry_set-HasRoom_example =
    entry_set-HasRoom plenty null 5 (whole (codes "ab")) false
      {ce = fill 5 (whole (codes "ab")) (new_block plenty 57)} (unfold entry_set round_up in refl)

set_active-MovedToFront_example :
    MovedToFront (live (entry 12)) (recency three) (recency (set_active three 2))
set_active-MovedToFront_example =
    set_active-MovedToFront three 2 (live (entry 12)) refl (omega arith)

add-Evicts_example : Evicts plenty 13 (space 4) three
add-Evicts_example = add-Evicts plenty three 13 (space 4) refl (omega arith)

three-IsValid : IsValid three
three-IsValid = ground arith

add-three_ok : (add plenty three 13 (space 4)).1 ≡ ok
unfolding add entry_set must_allocate
add-three_ok = refl

three_finds : find three 12 ≡ at_index 2 (entry 12)
unfolding find find_from
three_finds = refl

set_by_id-stale_example :
    find (set_by_id plenty three 12 (whole (codes "new")) false).0 12 ≡ at_index 1 (entry 12)
set_by_id-stale_example =
    set_by_id-stale plenty three 12 (whole (codes "new")) false 2 (entry 12) three_finds
      (omega arith)

hash_round :
    hash_find (hash_add plenty (new_cache 4) (codes "root") 0).0 (codes "root") ≡ (some 0, ok)
unfolding hash_find hash_add string_to_cv pack_chars add entry_set find find_from new_cache
    holds_from fill copied
hash_round = refl

-- Names that differ in case, or behind the sixth character, share a hash.
hash_collision :
    (string_to_cv (codes "User") ≡ string_to_cv (codes "uSER"))
    × (string_to_cv (codes "apache1") ≡ string_to_cv (codes "apache2"))
unfolding string_to_cv pack_chars
hash_collision = (refl, refl)
