-- ===== src/CopyMove/Below.antt =====
-- The source of an entry below a copied directory.
use mathlib.Core.List.{append_assoc}
use fsvs.Prelude.{
  ℕ, ◌+◌, ◌≤◌, ◌≡◌, refl, ap, ◌∙◌, true, false, Option, none, some, List, [], ◌∷◌, ◌++◌, Bytes,
  length, length-append, All, arith, le→ltb,
}
use fsvs.EstOps.Paths.{build_path}
use fsvs.CopyMove.{
  Entry, nodes, Answer, source, relative, string_to_rev_path, get_base_source, with_name,
  get_sub_source_rek, get_sub_source, get_source,
}

-- The names of a row of entries, the last one first, each behind a "/".
abbrev pub below : List Entry → Bytes
below [] = []
below (e ∷ es) = below es ++ b'/' ∷ e.node.name

module _ (fetch : Bytes → Option Bytes) where
  -- The source that is stored for an entry.
  pub record HasSource (es : List Entry) (url : Bytes) (rev : ℕ) : Type 0 where
    pub name : Bytes
    pub value : Bytes
    pub path : (build_path (nodes es)).0 ≡ some name
    pub found : fetch (relative name) ≡ some value
    pub parsed : string_to_rev_path value ≡ some (url, rev)

  base_source :
      (es : List Entry) (url : Bytes) (rev : ℕ) (extra : ℕ)
      → HasSource es url rev
      → get_base_source fetch es none extra ≡ source url (length url + 1 + extra + 4) rev
  unfolding get_base_source
  base_source es url rev extra s = rw (s.path, s.found, s.parsed) refl

  room_for :
      (name url : Bytes) (room rev : ℕ)
      → length url + 1 + length name + 1 ≤ room
      → with_name fetch name (source url room rev) ≡ source (url ++ b'/' ∷ name) room rev
  room_for name url room rev h = rw (le→ltb room (length url + 1 + length name + 1) h) refl

  rek_base :
      (cur b : Entry) (es : List Entry) (extra : ℕ)
      → b.is_base ≡ true
      → get_sub_source_rek fetch (cur ∷ b ∷ es) extra
        ≡ with_name fetch cur.node.name
            (get_base_source fetch (b ∷ es) none (extra + (length cur.node.name + 1)))
  unfolding get_sub_source_rek
  rek_base cur b es extra h = rw h refl

  rek_sub :
      (cur b : Entry) (es : List Entry) (extra : ℕ)
      → b.is_base ≡ false
      → get_sub_source_rek fetch (cur ∷ b ∷ es) extra
        ≡ with_name fetch cur.node.name
            (get_sub_source_rek fetch (b ∷ es) (extra + (length cur.node.name + 1)))
  unfolding get_sub_source_rek
  rek_sub cur b es extra h = rw h refl

  abbrev answer : Bytes → ℕ → List Entry → ℕ → Answer
  answer url rev es extra =
      source (url ++ below es) (length url + 1 + (extra + length (below es)) + 4) rev

  rek-below :
      (cur : Entry) (mids : List Entry) (b : Entry) (ups : List Entry) (url : Bytes) (rev extra : ℕ)
      → HasSource (b ∷ ups) url rev
      → b.is_base ≡ true
      → All (λ m. m.is_base ≡ false) mids
      → get_sub_source_rek fetch (cur ∷ (mids ++ b ∷ ups)) extra ≡ answer url rev (cur ∷ mids) extra
  rek-below cur [] b ups url rev extra s h w =
      rek_base cur b ups extra h
      ∙ ap (with_name fetch cur.node.name)
          (base_source (b ∷ ups) url rev (extra + (length cur.node.name + 1)) s)
      ∙ room_for cur.node.name url _ rev (omega arith)
      ∙ ap (λ (r : ℕ). source (url ++ b'/' ∷ cur.node.name) r rev) (omega arith)
  rek-below cur (m ∷ mids) b ups url rev extra s h (e, w) =
      rek_sub cur m (mids ++ b ∷ ups) extra e
      ∙ ap (with_name fetch cur.node.name)
          (rek-below m mids b ups url rev (extra + (length cur.node.name + 1)) s h w)
      ∙ room_for cur.node.name (url ++ below (m ∷ mids)) _ rev
          (omega (arith, length-append url (below (m ∷ mids))))
      ∙ ap (λ (r : ℕ). source ((url ++ below (m ∷ mids)) ++ b'/' ∷ cur.node.name) r rev)
          (omega (arith, length-append (below (m ∷ mids)) (b'/' ∷ cur.node.name)))
      ∙ ap (λ t. source t (length url + 1 + (extra + length (below (cur ∷ m ∷ mids))) + 4) rev)
          (append_assoc url (below (m ∷ mids)) (b'/' ∷ cur.node.name))

  -- The source of an entry below the copied one is the URL of that one's source, with the names on the way behind it,
  -- and its revision: of the entries above it the nearest that was copied itself counts. The names are written into
  -- the buffer that was allocated for the URL with one allocation, and never behind its end. The conditions: the entry
  -- has RF_COPY_SUB and not RF_COPY_BASE, and a source is stored for the copied one that can be read.
  pub get_source-below :
      (cur : Entry) (mids : List Entry) (b : Entry) (ups : List Entry) (url : Bytes) (rev : ℕ)
      (name : Option Bytes)
      → cur.is_base ≡ false
      → cur.is_sub ≡ true
      → All (λ m. m.is_base ≡ false) mids
      → b.is_base ≡ true
      → HasSource (b ∷ ups) url rev
      → get_source fetch (cur ∷ (mids ++ b ∷ ups)) name
        ≡ source (url ++ below (cur ∷ mids)) (length url + 1 + length (below (cur ∷ mids)) + 4) rev
  unfolding get_source get_sub_source
  get_source-below cur mids b ups url rev name e f w h s =
      rw (e, f)
        (rek-below cur mids b ups url rev 0 s h w
          ∙ ap (λ (r : ℕ). source (url ++ below (cur ∷ mids)) r rev) (omega arith))
