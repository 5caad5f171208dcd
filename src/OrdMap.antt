-- ===== src/OrdMap.antt =====
-- `BTreeMap<String, V>`: an association list in the order of its keys, which is the order in which
-- the program walks it.
use frust.Prelude.{
  ◌≡◌, refl, subst, inl, inr, true, Option, none, some, List, [], ◌∷◌, arith, if◌then◌else◌,
  Bool-cases, In,
}
use frust.Prelude.Text.{
  Text, text_eq, text_eq_sound, text_eq_iff, text_ltb, text_ltb_irrefl, text_ltb_trans,
  text_ltb_total,
}

abbrev pub OrdMap {ℓ} : Type ℓ → Type ℓ
OrdMap V = List (Text × V)

-- Every key of the list is above `k`.
abbrev pub Above {ℓ} : {V : Type ℓ} → Text → OrdMap V → Type 0
Above k [] = Unit
Above k ((j, v) ∷ m) = (text_ltb k j ≡ true) × Above k m

-- The keys rise strictly.
abbrev pub IsSorted {ℓ} : {V : Type ℓ} → OrdMap V → Type 0
IsSorted [] = Unit
IsSorted ((k, v) ∷ m) = Above k m × IsSorted m

module _ {ℓ} {V : Type ℓ} where
  -- map.get(k)
  unfoldable pub get : Text → OrdMap V → Option V
  get k [] = none
  get k ((j, v) ∷ m) = if text_eq j k then some v else get k m

  -- map.insert(k, v)
  unfoldable pub insert : Text → V → OrdMap V → OrdMap V
  insert k v [] = (k, v) ∷ []
  insert k v ((j, w) ∷ m) =
      let rest = insert k v m in
      if text_eq j k
      then (k, v) ∷ m
      else if text_ltb k j
      then (k, v) ∷ (j, w) ∷ m
      else (j, w) ∷ rest

  -- map.remove(k)
  unfoldable pub remove : Text → OrdMap V → OrdMap V
  remove k [] = []
  remove k ((j, w) ∷ m) = let rest = remove k m in if text_eq j k then rest else (j, w) ∷ rest

  pub get-insert :
      (k j : Text) (v : V) (m : OrdMap V)
      → get j (insert k v m) ≡ (if text_eq k j then some v else get j m)
  unfolding get insert
  get-insert k j v [] = refl
  get-insert k j v ((i, w) ∷ m) =
      ground (arith, text_eq_iff k j, text_eq_iff i k, text_eq_iff i j, get-insert k j v m)

  pub get-remove :
      (k j : Text) (m : OrdMap V) → get j (remove k m) ≡ (if text_eq k j then none else get j m)
  unfolding get remove
  get-remove k j [] = ground arith
  get-remove k j ((i, w) ∷ m) =
      ground (arith, text_eq_iff k j, text_eq_iff i k, text_eq_iff i j, get-remove k j m)

  -- A key below all others is not found among them.
  pub get-Above : (k : Text) (m : OrdMap V) → Above k m → get k m ≡ none
  unfolding get
  get-Above k [] h = refl
  get-Above k ((j, v) ∷ m) h = ground (arith, text_eq_iff j k, text_ltb_irrefl k, get-Above k m)

  Above-below : (i k : Text) (m : OrdMap V) → text_ltb i k ≡ true → Above k m → Above i m
  Above-below i k [] e h = tt
  Above-below i k ((j, v) ∷ m) e h = (text_ltb_trans i k j e h.0, Above-below i k m e h.1)

  Above-insert :
      (i k : Text) (v : V) (m : OrdMap V) → text_ltb i k ≡ true → Above i m → Above i (insert k v m)
  unfolding insert
  Above-insert i k v [] e h = (e, tt)
  Above-insert i k v ((j, w) ∷ m) e h = elim (Bool-cases (text_eq j k)) [
    | inl p ↦ rw p (e, h.1)
    | inr p ↦ rw p (elim (Bool-cases (text_ltb k j)) [
      | inl q ↦ rw q (e, (h.0, h.1))
      | inr q ↦ rw q (h.0, Above-insert i k v m e h.1)
    ])
  ]

  -- Insertion keeps the order of the keys.
  pub insert-IsSorted : (k : Text) (v : V) (m : OrdMap V) → IsSorted m → IsSorted (insert k v m)
  unfolding insert
  insert-IsSorted k v [] h = (tt, tt)
  insert-IsSorted k v ((j, w) ∷ m) h = elim (Bool-cases (text_eq j k)) [
    | inl p ↦ rw p (subst (λ t. Above t m) (text_eq_sound j k p) h.0, h.1)
    | inr p ↦ rw p (elim (Bool-cases (text_ltb k j)) [
      | inl q ↦ rw q ((q, Above-below k j m q h.0), (h.0, h.1))
      | inr q ↦ rw q (Above-insert j k v m (text_ltb_total k j p q) h.0, insert-IsSorted k v m h.1)
    ])
  ]

module _ {V : Type 0} where
  pub get-In : (k : Text) {v : V} (m : OrdMap V) → get k m ≡ some v → In (k, v) m
  unfolding get
  get-In k [] h = cc
  get-In k ((j, w) ∷ m) h = elim (Bool-cases (text_eq j k)) [
    | inl p ↦ inl (ground (arith, text_eq_iff j k))
    | inr p ↦ inr (get-In k m (ground arith))
  ]

  In-Above : (i k : Text) (v : V) (m : OrdMap V) → Above i m → In (k, v) m → text_ltb i k ≡ true
  In-Above i k v [] h p = absurd p
  In-Above i k v ((j, w) ∷ m) h (inl e) = ground arith
  In-Above i k v ((j, w) ∷ m) h (inr p) = In-Above i k v m h.1 p

  -- In a sorted map an entry is what its key finds.
  pub In-get : (k : Text) (v : V) (m : OrdMap V) → IsSorted m → In (k, v) m → get k m ≡ some v
  unfolding get
  In-get k v [] h p = absurd p
  In-get k v ((j, w) ∷ m) h (inl e) = ground (arith, text_eq_iff j k)
  In-get k v ((j, w) ∷ m) h (inr p) =
      ground (arith, text_eq_iff j k, In-Above j k v m h.0 p, text_ltb_irrefl k, In-get k v m h.1 p)
