-- ===== src/Url/Tests.antt =====
-- Runs of the functions of src/url.c, and the theorems at concrete lists of URLs.
use fsvs.Prelude.{
  ◌⊎◌, not, ◌&&◌, ◌-◌, leb, if◌then◌else◌, Bytes, strncmp_eq, split_at_first, ℕ, ◌≡◌, refl, true,
  false, none, some, List, [], ◌∷◌, arith, codes, get_elem?, strcmp_eq,
}
use fsvs.Url.{
  Url, Seen, plus, minus, head, ok, find_by_name, find_by_url, find_by_intnum, insert_or_replace,
}
use fsvs.Url.Parse.{Libc, defined, refused, empty_url, nothing_seen, url_parse}
use fsvs.Url.Parse.{as_int, one_bit}
use fsvs.Url.Parse.Lengths.{HasLength, url_parse_total}
use fsvs.Url.Unique.{Distinct, urls_of, insert_or_replace-Distinct, insert_or_replace-name_twice}
use fsvs.Url.Numbers.{
  Numbers, numbered, einval as duplicate, set_internal_nums, mark_used, find_next_zero_bit,
  fill_invalid, is_set, occurs,
}
use fsvs.Url.Numbers.Used.{given}
use fsvs.Url.Numbers.Used.{Distinct as DistinctNumbers}
use fsvs.Url.Numbers.Unique.{Keeps, set_internal_nums-Distinct, set_internal_nums_total}

abbrev trunk : Url
trunk = record {
  url = codes "http://a/trunk";
  name = some (codes "t");
  priority = plus 10;
  target_rev = head;
  current_rev = 0;
  is_readonly = false;
  internal_number = none;
  urllen = 14;
}

abbrev local : Url
local = record trunk { url = codes "file:///b"; name = some (codes "l"); urllen = 9 }

abbrev urls : List Url
urls = trunk ∷ local ∷ []

abbrev name_and_url : Seen
name_and_url = record {
  have_name = true;
  have_prio = false;
  have_url = true;
  have_target = false;
  have_readonly = false;
}

-- name:t,file:///b
abbrev renamed : Url
renamed = record local { name = some (codes "t") }

renamed_found : find_by_url renamed.url urls ≡ some 1
unfolding find_by_url strcmp_eq
renamed_found = refl

renamed_ok : (insert_or_replace name_and_url renamed urls).status ≡ ok
unfolding insert_or_replace find_by_url strcmp_eq
renamed_ok = refl

insert_or_replace-Distinct_example :
    Distinct (urls_of (insert_or_replace name_and_url renamed urls).urls)
insert_or_replace-Distinct_example =
    insert_or_replace-Distinct name_and_url renamed urls
      (unfold strcmp_eq in ((refl, tt), (tt, tt)))

insert_or_replace-name_twice_example :
    let r = insert_or_replace name_and_url renamed urls in
    (r.status ≡ ok)
    × (get_elem? r.urls 0 ≡ some trunk)
    × ((w : Url) × (get_elem? r.urls 1 ≡ some w) × (w.name ≡ trunk.name))
insert_or_replace-name_twice_example =
    insert_or_replace-name_twice name_and_url renamed urls 1 0 local trunk refl refl renamed_found
      refl refl (omega arith) refl

-- The name with the priority alone changes the entry that has the name.
only_name :
    (insert_or_replace
      (record name_and_url { have_url = false })
      (record trunk { url = [] })
      urls).storage
    ≡ 0
unfolding insert_or_replace find_by_name strcmp_eq
only_name = refl

by_number :
    find_by_intnum 4
      (record trunk { internal_number = some 3 } ∷ record local { internal_number = some 4 } ∷ [])
    ≡ some 1
unfolding find_by_intnum
by_number = refl

-- INVALID_INTERNAL_NUMBER is found as -1.
number_invalid : find_by_intnum 4294967295 (trunk ∷ []) ≡ some 0
unfolding find_by_intnum
number_invalid = refl

-- What an `int` and a bit keep of a number.
cut_priority : as_int (plus 4294967290) ≡ minus 6
cut_priority = refl

even_flag : one_bit (plus 2) ≡ false
even_flag = refl

abbrev some_missing : Numbers
some_missing = none ∷ some 1 ∷ some 70 ∷ none ∷ some 2 ∷ []

some_numbered : set_internal_nums some_missing ≡ numbered (3 ∷ 1 ∷ 70 ∷ 4 ∷ 2 ∷ [])
unfolding set_internal_nums mark_used find_next_zero_bit fill_invalid is_set occurs
some_numbered = refl

twice_refused : set_internal_nums (some 70 ∷ some 70 ∷ []) ≡ duplicate
unfolding set_internal_nums mark_used occurs
twice_refused = refl

set_internal_nums-Distinct_example :
    Keeps some_missing (3 ∷ 1 ∷ 70 ∷ 4 ∷ 2 ∷ []) × DistinctNumbers (3 ∷ 1 ∷ 70 ∷ 4 ∷ 2 ∷ [])
set_internal_nums-Distinct_example =
    set_internal_nums-Distinct some_missing (3 ∷ 1 ∷ 70 ∷ 4 ∷ 2 ∷ []) some_numbered

set_internal_nums_total_example : (rest : List ℕ) × (set_internal_nums some_missing ≡ numbered rest)
set_internal_nums_total_example =
    set_internal_nums_total some_missing (omega arith)
      (unfold given is_set in (refl, (refl, (refl, tt))))

-- Numbers of one digit.
abbrev digit : Bytes → ℕ × ℕ
digit [] = (0, 0)
digit (c ∷ s) = if leb b'0' c && leb c b'9' then (c - b'0', 1) else (0, 0)

abbrev libc : Libc
libc = record { strtoull = digit; strtol = λ s. (plus (digit s).0, (digit s).1) }

abbrev parsed_url : Url
parsed_url = record empty_url {
  url = codes "http://a/b";
  name = some (codes "t");
  priority = plus 3;
  urllen = 10;
}

parsed_run :
    url_parse libc 1 true (codes "name:t,prio:3,http://a/b/")
    ≡ defined parsed_url
        (record nothing_seen { have_name = true; have_prio = true; have_url = true })
unfolding url_parse strncmp_eq split_at_first
parsed_run = refl

-- What stands behind the URL is not parsed, and becomes a part of it.
behind_run :
    url_parse libc 1 true (codes "svn://a,prio:3")
    ≡ defined
        (record empty_url { url = codes "svn://a,prio:3"; urllen = 7 })
        (record nothing_seen { have_url = true })
unfolding url_parse strncmp_eq split_at_first
behind_run = refl

-- An empty keyword is taken as a beginning of "name".
empty_run :
    url_parse libc 1 false (codes ":t")
    ≡ defined
        (record empty_url { name = some (codes "t") })
        (record nothing_seen { have_name = true })
unfolding url_parse strncmp_eq split_at_first
empty_run = refl

url_parse_total_example :
    let r = url_parse libc 1 true (codes "name:t,http://a/b/") in
    ((u : Url) × (seen : Seen) × (r ≡ defined u seen)
      × HasLength u seen
      × ((true && not seen.have_url) ≡ false))
    ⊎ (r ≡ refused)
url_parse_total_example = url_parse_total libc 1 true (codes "name:t,http://a/b/")
