-- ===== src/Hash.antt =====
-- src/hash_ops.c: the hash files, and the lists of pointers that are stored in them. The storage is gdbm, which is
-- an argument with what the code relies on.
pub mod Stored
pub mod Lists
pub mod Registered
pub mod Garbage
mod Tests
use fsvs.Prelude.{
  ℕ, zero, suc, ◌+◌, ◌≡◌, Bool, true, false, not, ◌&&◌, ◌||◌, Option, none, some, List, [], ◌∷◌,
  ◌++◌, ltb, leb, ◌==◌, if◌then◌else◌, Bytes, length, take, strcmp_eq,
}

-- A file of gdbm: `none` for an error of gdbm_store or gdbm_delete. The keys come up in the order of gdbm_firstkey
-- and gdbm_nextkey. The laws are what the documentation of gdbm says of a successful call, and that a key that is
-- in the file can be deleted.
pub record Gdbm (V : Type 0) : Type 1 where
  pub Db : Type 0
  pub fetch : Db → Bytes → Option V
  pub store : Db → Bytes → V → Option Db
  pub delete : Db → Bytes → Option Db
  pub keys : Db → List Bytes
  pub fetch-store :
      (d d' : Db) (k j : Bytes) (v : V)
      → store d k v ≡ some d'
      → fetch d' j ≡ (if strcmp_eq k j then some v else fetch d j)
  pub fetch-delete :
      (d d' : Db) (k j : Bytes)
      → delete d k ≡ some d'
      → fetch d' j ≡ (if strcmp_eq k j then none else fetch d j)

-- 0, ENOENT and EFBIG, the error of gdbm, and the end at a BUG_ON.
pub data Status : Type 0 where
  ok enoent efbig error bug : Status

-- HASH__LIST_MAX
abbrev pub list_max : ℕ
list_max = 32

-- `struct hsh___list`, with the entries that are in use; the pointers are numbers.
pub record PointerList : Type 0 where
  pub count : ℕ
  pub entries : List ℕ

module _ {V : Type 0} (g : Gdbm V) where
  open g use {Db, fetch, store, delete, keys}

  -- `hsh__fetch`; a hash that was not opened has nothing.
  unfoldable pub hsh_fetch : Option Db → Bytes → Option V
  hsh_fetch none key = none
  hsh_fetch (some d) key = fetch d key

  -- `hsh__store`: a value that is empty removes the key.
  abbrev pub stored : Db → Option Db → Db × Status
  stored d none = (d, error)
  stored d (some d') = (d', ok)

  unfoldable pub hsh_store : Db → Bytes → Option V → Db × Status
  hsh_store d key none = stored d (delete d key)
  hsh_store d key (some v) = stored d (store d key v)

  -- `hsh__first`, and the loop by `hsh__next`: the first key, and the one that follows a key.
  unfoldable pub first_of : List Bytes → Option Bytes
  first_of [] = none
  first_of (k ∷ ks) = some k

  unfoldable pub hsh_first : Option Db → Option Bytes
  unfolding first_of
  hsh_first none = none
  hsh_first (some d) = first_of (keys d)

  -- The loop of `hsh__collect_garbage` over the keys of `to_delete`: the keys that are left in it at an error,
  -- and how many were removed.
  unfoldable pub remove_all : Db → List Bytes → ℕ → Db × List Bytes × ℕ × Status
  remove_all d [] n = (d, [], n, ok)
  remove_all d (k ∷ ks) n = elim (delete d k) [
    | none ↦ (d, k ∷ ks, n, error)
    | some d' ↦ remove_all d' ks (n + 1)
  ]

-- `hash_t`, as far as the deletions go: the file, and the keys that are registered, if `to_delete` was opened.
pub record Hash {V : Type 0} (g : Gdbm V) : Type 0 where
  pub db : g.Db
  pub to_delete : Option (List Bytes)

-- Whether a key is in a list.
unfoldable pub has_key : Bytes → List Bytes → Bool
has_key k [] = false
has_key k (j ∷ js) = strcmp_eq k j || has_key k js

abbrev pub registered : Option (List Bytes) → List Bytes
registered none = []
registered (some ks) = ks

module _ {V : Type 0} (g : Gdbm V) where
  -- `hsh__register_delete` without an error of hsh___new_bare or gdbm_store, on which it stops; gdbm_store replaces a
  -- key that is there.
  unfoldable pub register_delete : Hash g → Bytes → Hash g
  unfolding has_key
  register_delete h key = record h {
    to_delete = some (
        if has_key key (registered h.to_delete)
        then registered h.to_delete
        else key ∷ registered h.to_delete);
  }

  -- `hsh__collect_garbage`: what it leaves, how many keys were removed, and the status. At an error all keys stay
  -- registered.
  abbrev pub collected : Hash g → g.Db × List Bytes × ℕ × Status → Hash g × ℕ × Status
  collected h (d, left, n, ok) = (record h { db = d; to_delete = none }, n, ok)
  collected h (d, left, n, other) = (record h { db = d }, n, other)

  unfoldable pub collect_garbage : Hash g → Hash g × ℕ × Status
  unfolding remove_all
  collect_garbage h = elim h.to_delete [
    | none ↦ (h, 0, ok)
    | some ks ↦ collected h (remove_all g h.db ks 0)
  ]

abbrev pub with_pointer : PointerList → ℕ → PointerList
with_pointer l value = record l { count = l.count + 1; entries = l.entries ++ value ∷ [] }

-- What `hsh__list_get` makes of a list: the pointers, or ENOENT, or the BUG.
abbrev pub got : Option PointerList → List ℕ × Status
got none = ([], enoent)
got (some l) =
    let c = if l.count == list_max + 1 then list_max else l.count in
    if c == 0 || ltb list_max c then ([], bug) else (take c l.entries, ok)

-- The lists of pointers.
module _ (g : Gdbm PointerList) where
  open g use {Db, fetch, store, delete, keys}

  -- The branches behind a list that was found.
  unfoldable pub insert_into : Db → Bytes → PointerList → ℕ → Db × Status
  insert_into d key l value =
      if l.count == list_max
      then stored g d (store d key (record l { count = l.count + 1 }))
      else if ltb list_max l.count
      then (d, efbig)
      else stored g d (store d key (with_pointer l value))

  -- `hsh__insert_pointer`
  abbrev pub insert_found : Db → Bytes → ℕ → Option PointerList → Db × Status
  insert_found d key value none =
      stored g d (store d key (record { count = 1; entries = value ∷ [] }))
  insert_found d key value (some l) = insert_into d key l value

  unfoldable pub insert_pointer : Db → Bytes → ℕ → Db × Status
  unfolding insert_into
  insert_pointer d key value = insert_found d key value (fetch d key)

  -- `hsh__list_get`
  unfoldable pub list_get : Db → Bytes → List ℕ × Status
  list_get d key = got (fetch d key)
