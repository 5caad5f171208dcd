-- ===== src/Prelude/Digits.antt =====
-- Natural numbers in decimal digits, as Rust prints and parses unsigned integers.
use frust.Prelude.{
  ℕ, zero, suc, ◌+◌, ◌-◌, ◌*◌, ◌/◌, ◌%◌, ◌≤◌, ◌≡◌, refl, ◌∙◌, inl, inr, Bool, true, false, [], ◌∷◌,
  ◌++◌, arith, ltb, if◌then◌else◌, Bool-cases, is_empty,
}
use frust.Prelude.Text.{Text}
use frust.Prelude.Chars.{is_digit, all}

-- `n.to_string()`: with fuel for each digit, the last digit of what is left
unfoldable pub digits_fuel : ℕ → ℕ → Text
digits_fuel zero n = (48 + n % 10) ∷ []
digits_fuel (suc fuel) n =
    let front = digits_fuel fuel (n / 10) in
    if ltb n 10 then (48 + n) ∷ [] else front ++ (48 + n % 10) ∷ []

unfoldable pub digits : ℕ → Text
unfolding digits_fuel
digits n = digits_fuel n n

-- The value of a run of digits, from the value of those before.
unfoldable pub value_from : ℕ → Text → ℕ
value_from acc [] = acc
value_from acc (c ∷ s) = value_from (acc * 10 + (c - 48)) s

abbrev pub value_of : Text → ℕ
value_of s = value_from 0 s

value_from-append :
    (acc : ℕ) (s t : Text) → value_from acc (s ++ t) ≡ value_from (value_from acc s) t
unfolding value_from
value_from-append acc [] t = refl
value_from-append acc (c ∷ s) t = value_from-append (acc * 10 + (c - 48)) s t

digits_fuel-value : (fuel n : ℕ) → n ≤ fuel → value_of (digits_fuel fuel n) ≡ n
unfolding digits_fuel value_from
digits_fuel-value zero n h = ground arith
digits_fuel-value (suc fuel) n h = elim (Bool-cases (ltb n 10)) [
  | inl e ↦ rw e (omega arith)
  | inr e ↦ rw e (
      value_from-append 0 (digits_fuel fuel (n / 10)) ((48 + n % 10) ∷ [])
      ∙ ground (arith, digits_fuel-value fuel (n / 10)))
]

pub value-digits : (n : ℕ) → value_of (digits n) ≡ n
unfolding digits
value-digits n = digits_fuel-value n n (omega arith)

pub all-append :
    (p : ℕ → Bool) (s t : Text) → all p s ≡ true → all p t ≡ true → all p (s ++ t) ≡ true
all-append p [] t h k = k
all-append p (c ∷ s) t h k = ground (arith, all-append p s t)

digits_fuel-all : (fuel n : ℕ) → all is_digit (digits_fuel fuel n) ≡ true
unfolding digits_fuel
digits_fuel-all zero n = ground arith
digits_fuel-all (suc fuel) n = elim (Bool-cases (ltb n 10)) [
  | inl e ↦ rw e (ground arith)
  | inr e ↦ rw e (
      all-append is_digit (digits_fuel fuel (n / 10)) ((48 + n % 10) ∷ [])
        (digits_fuel-all fuel (n / 10)) (ground arith))
]

pub digits-all : (n : ℕ) → all is_digit (digits n) ≡ true
unfolding digits
digits-all n = digits_fuel-all n n

digits_fuel-nonempty : (fuel n : ℕ) → is_empty (digits_fuel fuel n) ≡ false
unfolding digits_fuel
digits_fuel-nonempty zero n = refl
digits_fuel-nonempty (suc fuel) n = elim (Bool-cases (ltb n 10)) [
  | inl e ↦ rw e refl
  | inr e ↦ rw e (append_empty (digits_fuel fuel (n / 10)))
]
  where
    append_empty : (s : Text) → is_empty (s ++ (48 + n % 10) ∷ []) ≡ false
    append_empty [] = refl
    append_empty (c ∷ s) = refl

pub digits-nonempty : (n : ℕ) → is_empty (digits n) ≡ false
unfolding digits
digits-nonempty n = digits_fuel-nonempty n n
