-- ===== src/EstOps/Correlate/Events.antt =====
-- What `ops__correlate_dirs` of src/est_ops.c comes to.
use Prim.Native.Nat.{Ordering}
use fsvs.Prelude.{
  ◌≡◌, refl, ap, ◌∙◌, sym, ◌⊎◌, inl, inr, if◌then◌else◌, Bool, true, false, List, [], ◌∷◌, map,
  arith, All,
}
use fsvs.EstOps.Correlate.{Event, only_a, both, only_b, events}

module _ {ℓ} {A : Type ℓ} where
  -- The entries of the first, and of the second directory that events name.
  unfoldable pub firsts : List (Event A) → List A
  firsts [] = []
  firsts (only_a a ∷ es) = a ∷ firsts es
  firsts (both a b ∷ es) = a ∷ firsts es
  firsts (only_b b ∷ es) = firsts es

  unfoldable pub seconds : List (Event A) → List A
  seconds [] = []
  seconds (only_a a ∷ es) = seconds es
  seconds (both a b ∷ es) = b ∷ seconds es
  seconds (only_b b ∷ es) = b ∷ seconds es

  only_b-firsts : (bs : List A) → firsts (map only_b bs) ≡ []
  unfolding firsts
  only_b-firsts [] = refl
  only_b-firsts (b ∷ bs) = only_b-firsts bs

  only_b-seconds : (bs : List A) → seconds (map only_b bs) ≡ bs
  unfolding seconds
  only_b-seconds [] = refl
  only_b-seconds (b ∷ bs) = ap (λ l. b ∷ l) (only_b-seconds bs)

module _ {ℓ} {A : Type ℓ} (comp : A → A → Ordering) where
  -- Every entry of both directories comes up one time, in the order of its list, whatever the
  -- comparison of names says.
  pub events_complete :
      (as' bs : List A) → (firsts (events comp as' bs) ≡ as') × (seconds (events comp as' bs) ≡ bs)
  unfolding events firsts seconds
  events_complete [] bs = (only_b-firsts bs, only_b-seconds bs)
  events_complete (a ∷ as') [] = let (f, s) = events_complete as' [] in (ap (λ l. a ∷ l) f, s)
  events_complete (a ∷ as') (b ∷ bs) =
      ground
        (arith, events_complete as' bs, events_complete (a ∷ as') bs, events_complete as' (b ∷ bs))

-- The entries that only one directory has, by the events.
module _ {ℓ} {A : Type ℓ} where
  unfoldable pub alone_a : List (Event A) → List A
  alone_a [] = []
  alone_a (only_a a ∷ es) = a ∷ alone_a es
  alone_a (both a b ∷ es) = alone_a es
  alone_a (only_b b ∷ es) = alone_a es

  only_b-alone_a : (bs : List A) → alone_a (map only_b bs) ≡ []
  unfolding alone_a
  only_b-alone_a [] = refl
  only_b-alone_a (b ∷ bs) = only_b-alone_a bs

abbrev is_eq : Ordering → Bool
is_eq Ordering.eq = true
is_eq _ = false

-- What `strcoll` is documented to be on the names of entries: an order, up to names that it equates.
pub record IsCollation {ℓ} {A : Type ℓ} (comp : A → A → Ordering) : Type ℓ where
  pub flip_lt : (a b : A) → comp a b ≡ Ordering.lt → comp b a ≡ Ordering.gt
  pub flip_gt : (a b : A) → comp a b ≡ Ordering.gt → comp b a ≡ Ordering.lt
  pub trans_lt :
      (a b c : A) → comp a b ≡ Ordering.lt → comp b c ≡ Ordering.lt → comp a c ≡ Ordering.lt
  pub eq_lt : (a b c : A) → comp a b ≡ Ordering.eq → comp a c ≡ Ordering.lt → comp b c ≡ Ordering.lt

module _ {ℓ} {A : Type ℓ} (comp : A → A → Ordering) where
  -- Whether a list has an entry of the name of `a`; and those of a list that have no such partner.
  unfoldable pub has_partner : A → List A → Bool
  has_partner a [] = false
  has_partner a (b ∷ bs) = if is_eq (comp a b) then true else has_partner a bs

  unfoldable pub without_partner : List A → List A → List A
  without_partner [] bs = []
  without_partner (a ∷ as') bs =
      let rest = without_partner as' bs in if has_partner a bs then rest else a ∷ rest

  -- Sorted by name, with no name twice.
  abbrev pub Sorted : List A → Type ℓ
  Sorted [] = Unit
  Sorted (a ∷ as') = All (λ b. comp a b ≡ Ordering.lt) as' × Sorted as'

  without_partner-nil : (as' : List A) → without_partner as' [] ≡ as'
  unfolding without_partner has_partner
  without_partner-nil [] = refl
  without_partner-nil (a ∷ as') = ap (λ l. a ∷ l) (without_partner-nil as')

  events-nil : (as' : List A) → alone_a (events comp as' []) ≡ as'
  unfolding events alone_a
  events-nil [] = refl
  events-nil (a ∷ as') = ap (λ l. a ∷ l) (events-nil as')

  -- An entry of the second directory that is equal to none of the first makes no difference.
  without_partner-skip :
      (as' bs : List A) (b : A)
      → All (λ a. comp a b ≡ Ordering.gt) as'
      → without_partner as' (b ∷ bs) ≡ without_partner as' bs
  unfolding without_partner has_partner
  without_partner-skip [] bs b h = refl
  without_partner-skip (a ∷ as') bs b h = ground (arith, without_partner-skip as' bs b h.1)

  has_partner-less :
      (a : A) (bs : List A) → All (λ b. comp a b ≡ Ordering.lt) bs → has_partner a bs ≡ false
  unfolding has_partner
  has_partner-less a [] h = refl
  has_partner-less a (b ∷ bs) h = ground (arith, has_partner-less a bs h.1)

module _ {ℓ} {A : Type ℓ} (comp : A → A → Ordering) (law : IsCollation comp) where
  All-above :
      (a b : A) (as' : List A)
      → comp b a ≡ Ordering.lt
      → All (λ x. comp a x ≡ Ordering.lt) as'
      → All (λ x. comp x b ≡ Ordering.gt) as'
  All-above a b [] h s = tt
  All-above a b (x ∷ as') h s =
      (law.flip_lt b x (law.trans_lt b a x h s.0), All-above a b as' h s.1)

  All-equal :
      (a b : A) (as' : List A)
      → comp a b ≡ Ordering.eq
      → All (λ x. comp a x ≡ Ordering.lt) as'
      → All (λ x. comp x b ≡ Ordering.gt) as'
  All-equal a b [] h s = tt
  All-equal a b (x ∷ as') h s = (law.flip_lt b x (law.eq_lt a b x h s.0), All-equal a b as' h s.1)

  All-below :
      (a b : A) (bs : List A)
      → comp a b ≡ Ordering.lt
      → All (λ x. comp b x ≡ Ordering.lt) bs
      → All (λ x. comp a x ≡ Ordering.lt) bs
  All-below a b [] h s = tt
  All-below a b (x ∷ bs) h s = (law.trans_lt a b x h s.0, All-below a b bs h s.1)

  Ordering-cases : (o : Ordering) → (o ≡ Ordering.eq) ⊎ (o ≡ Ordering.gt) ⊎ (o ≡ Ordering.lt)
  Ordering-cases o = ground arith

  -- On two directories that are sorted by name, the entries reported for the first one only are
  -- exactly those whose name the second one does not have, in their order.
  pub events-alone_a :
      (as' bs : List A)
      → Sorted comp as'
      → Sorted comp bs
      → alone_a (events comp as' bs) ≡ without_partner comp as' bs
  unfolding events alone_a without_partner has_partner
  events-alone_a [] bs s t = only_b-alone_a bs
  events-alone_a (a ∷ as') [] s t =
      ap (λ l. a ∷ l) (events-nil comp as' ∙ sym (without_partner-nil comp as'))
  events-alone_a (a ∷ as') (b ∷ bs) s t = elim (Ordering-cases (comp a b)) [
    | inl e ↦ ground (
      arith,
      events-alone_a as' bs s.1 t.1,
      without_partner-skip comp as' bs b (All-equal a b as' e s.0),
    )
    | inr (inl e) ↦ ground (
      arith,
      events-alone_a (a ∷ as') bs s t.1,
      without_partner-skip comp (a ∷ as') bs b (e, All-above a b as' (law.flip_gt a b e) s.0),
    )
    | inr (inr e) ↦ ground (
      arith,
      events-alone_a as' (b ∷ bs) s.1 t,
      has_partner-less comp a bs (All-below a b bs e t.0),
    )
  ]
