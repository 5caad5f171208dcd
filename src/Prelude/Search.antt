-- ===== src/Prelude/Search.antt =====
-- Searches of a list by a Boolean test: `filter` and `find` against the members.
use frust.Prelude.{
  ◌≡◌, refl, sym, ap, ◌∙◌, subst, inl, inr, Bool, true, false, some, List, [], ◌∷◌, Bool-cases,
  filter, find, is_empty, In,
}

pub In-filter :
    {A : Type 0} (p : A → Bool) (a : A) (xs : List A) → In a (filter p xs) → In a xs × (p a ≡ true)
In-filter p a [] h = absurd h
In-filter p a (x ∷ xs) h = elim (Bool-cases (p x)) [
  | inl e ↦ elim (rw e at h) [
    | inl same ↦ (inl same, subst (λ y. p y ≡ true) (sym same) e)
    | inr i ↦ let r = In-filter p a xs i in (inr r.0, r.1)
  ]
  | inr e ↦ let r = In-filter p a xs (rw e at h) in (inr r.0, r.1)
]

pub filter-In :
    {A : Type 0} (p : A → Bool) (a : A) (xs : List A) → In a xs → p a ≡ true → In a (filter p xs)
filter-In p a [] h e = h
filter-In p a (x ∷ xs) (inl same) e = rw (sym (ap p same) ∙ e) (inl same)
filter-In p a (x ∷ xs) (inr i) e = elim (Bool-cases (p x)) [
  | inl q ↦ rw q (inr (filter-In p a xs i e))
  | inr q ↦ rw q (filter-In p a xs i e)
]

pub true_not_false : ¬ (true ≡ false)
true_not_false h = cc

keep_first :
    {A : Type 0} (p : A → Bool) {a : A} (x : A) (xs : List A)
    → p x ≡ true
    → find p (x ∷ xs) ≡ some a
    → some x ≡ some a
keep_first p x xs e h = rw e at h

some_eq : {A : Type 0} {a b : A} → some a ≡ some b → a ≡ b
some_eq h = cc

pub find-some :
    {A : Type 0} (p : A → Bool) (a : A) (xs : List A) → find p xs ≡ some a → In a xs × (p a ≡ true)
find-some p a [] h = cc
find-some p a (x ∷ xs) h = elim (Bool-cases (p x)) [
  | inl e ↦
      let same = some_eq (keep_first p x xs e h) in (inl (sym same), subst (λ y. p y ≡ true) same e)
  | inr e ↦ let r = find-some p a xs (rw e at h) in (inr r.0, r.1)
]

pub In-find :
    {A : Type 0} (p : A → Bool) (a : A) (xs : List A)
    → In a xs
    → p a ≡ true
    → (b : A) × (find p xs ≡ some b)
In-find p a [] h e = absurd h
In-find p a (x ∷ xs) (inl same) e = (x, rw (sym (ap p same) ∙ e) refl)
In-find p a (x ∷ xs) (inr i) e = elim (Bool-cases (p x)) [
  | inl q ↦ (x, rw q refl)
  | inr q ↦ let r = In-find p a xs i e in (r.0, rw q r.1)
]

pub In-is_empty : {A : Type 0} (a : A) (xs : List A) → In a xs → is_empty xs ≡ false
In-is_empty a [] h = absurd h
In-is_empty a (x ∷ xs) h = refl

pub find-is_empty :
    {A : Type 0} (p : A → Bool) (a : A) (xs : List A) → find p xs ≡ some a → is_empty xs ≡ false
find-is_empty p a xs h = In-is_empty a xs (find-some p a xs h).0

pub filter-is_empty :
    {A : Type 0} (p : A → Bool) (xs : List A) → is_empty (filter p xs) ≡ false → is_empty xs ≡ false
filter-is_empty p [] h = h
filter-is_empty p (x ∷ xs) h = refl
