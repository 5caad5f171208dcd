-- ===== src/Kernel/Decimal/Plain.antt =====
-- Amounts in plain digits, printed and parsed (frust-kernel/kernel/src/decimal.rs, `to_plain_string`
-- and `parse`).
use frust.Prelude.{
  Option, none, ℕ, zero, suc, ◌-◌, ◌%◌, ◌^◌, ◌≤◌, ◌<◌, ◌≡◌, refl, ap, ◌∙◌, subst, inl, inr, Bool,
  true, false, not, ◌&&◌, ◌||◌, none, some, [], ◌∷◌, ◌++◌, append-nil, arith, ltb, leb, ◌==◌,
  if◌then◌else◌, ==_iff, Bool-cases, length, take, drop, is_empty, length-append,
}
use frust.Prelude.Text.{Text, codes}
use frust.Prelude.Chars.{
  is_digit, is_space, all, trim, trim_start, trim_end, strip_prefix, split_on,
}
use frust.Prelude.Digits.{
  digits, value_of, value_from, value-digits, digits-all, digits-nonempty, all-append,
}
use frust.Prelude.Int.{ℤ, pos, negsuc, magnitude, is_negative}
use frust.Kernel.Decimal.{
  Decimal, i128_bound, negate, parse_parts, parse_body, parse_trimmed, parse, zeros, with_point,
  to_plain_string,
}
use frust.Kernel.Decimal.Division.{negated_small}

-- A text that is two runs of digits, or one
split_on-single : (s : Text) → all is_digit s ≡ true → split_on b'.' s ≡ s ∷ []
unfolding split_on
split_on-single [] h = refl
split_on-single (c ∷ s) h = ground (arith, split_on-single s, h)

split_on-pair :
    (a b : Text)
    → all is_digit a ≡ true
    → all is_digit b ≡ true
    → split_on b'.' (a ++ b'.' ∷ b) ≡ a ∷ b ∷ []
unfolding split_on
split_on-pair [] b h k = ground (arith, split_on-single b)
split_on-pair (c ∷ a) b h k = ground (arith, split_on-pair a b, h, k)

zeros-all : (n : ℕ) → all is_digit (zeros n) ≡ true
zeros-all zero = refl
zeros-all (suc n) = zeros-all n

value-zeros : (n : ℕ) (s : Text) → value_of (zeros n ++ s) ≡ value_of s
unfolding value_from
value-zeros zero s = refl
value-zeros (suc n) s = value-zeros n s

length-zeros : (n : ℕ) → length (zeros n) ≡ n
length-zeros zero = refl
length-zeros (suc n) = ground (arith, length-zeros n)

-- A digit or the point
abbrev is_amount_char : ℕ → Bool
is_amount_char c = is_digit c || c == b'.'

trim_start-amount : (s : Text) → all is_amount_char s ≡ true → trim_start s ≡ s
unfolding trim_start is_space
trim_start-amount [] h = refl
trim_start-amount (c ∷ s) h = ground (arith, h)

trim_end-amount : (s : Text) → all is_amount_char s ≡ true → trim_end s ≡ s
unfolding trim_end is_space
trim_end-amount [] h = refl
trim_end-amount (c ∷ s) h = ground (arith, h, trim_end-amount s)

trim-amount : (s : Text) → all is_amount_char s ≡ true → trim s ≡ s
unfolding trim
trim-amount s h = rw (trim_start-amount s h) (trim_end-amount s h)

trim-minus :
    (c : ℕ) (s : Text) → all is_amount_char (c ∷ s) ≡ true → trim (b'-' ∷ c ∷ s) ≡ b'-' ∷ c ∷ s
unfolding trim trim_start trim_end is_space
trim-minus c s h = ground (arith, h, trim_end-amount (c ∷ s) h)

all-split :
    (p : ℕ → Bool) (a b : Text) → all p (a ++ b) ≡ true → (all p a ≡ true) × (all p b ≡ true)
all-split p [] b h = (refl, h)
all-split p (c ∷ a) b h = ground (arith, h, all-split p a b)

take-drop : (n : ℕ) (s : Text) → take n s ++ drop n s ≡ s
take-drop zero s = refl
take-drop (suc n) [] = refl
take-drop (suc n) (c ∷ s) = ap (λ t. c ∷ t) (take-drop n s)

length-drop : (n : ℕ) (s : Text) → n ≤ length s → length (drop n s) ≡ length s - n
length-drop zero s h = omega arith
length-drop (suc n) [] h = omega arith
length-drop (suc n) (c ∷ s) h = omega (arith, length-drop n s)

-- What `parse` makes of the value `v` at the scale `s`: nothing if it does not fit
abbrev as_read : Bool → ℕ → ℕ → Option Decimal
as_read neg v s =
    if ltb v i128_bound
    then some (record { mantissa = if neg then negate (pos v) else pos v; scale = s })
    else none

parse_parts-digits :
    (neg : Bool) (int frac : Text)
    → is_empty int ≡ false
    → all is_digit int ≡ true
    → all is_digit frac ≡ true
    → length frac < 2 ^ 32
    → parse_parts neg int frac ≡ as_read neg (value_of (int ++ frac)) (length frac)
parse_parts-digits neg int frac e h k l =
    elim (Bool-cases (ltb (value_of (int ++ frac)) i128_bound)) [
      | inl v ↦ rw (e, h, k, and_false (not (is_empty frac)), v, small (length frac) l) refl
      | inr v ↦ rw (e, h, k, and_false (not (is_empty frac)), v) refl
    ]
  where
    and_false : (b : Bool) → (b && false) ≡ false
    and_false true = refl
    and_false false = refl

    small : (n : ℕ) → n < 2 ^ 32 → n % 2 ^ 32 ≡ n
    small n h = omega arith

-- A text without a sign from which `parse` reads the value `v` at the scale `s`
abbrev IsPrinted : Bool → ℕ → ℕ → Text → Type 0
IsPrinted neg v s body =
    (all is_amount_char body ≡ true)
    × (is_empty body ≡ false)
    × (parse_body neg (split_on b'.' body) ≡ as_read neg v s)

amount : (t : Text) → all is_digit t ≡ true → all is_amount_char t ≡ true
amount [] h = refl
amount (c ∷ t) h = ground (arith, amount t, h)

-- A whole number and a fraction that are together the digits
pair_digits :
    (neg : Bool) (int frac : Text) (v s : ℕ)
    → is_empty int ≡ false
    → all is_digit int ≡ true
    → all is_digit frac ≡ true
    → value_of (int ++ frac) ≡ v
    → length frac ≡ s
    → s < 2 ^ 32
    → IsPrinted neg v s (int ++ b'.' ∷ frac)
pair_digits neg int frac v s e h k w l q = (
  all-append is_amount_char int (b'.' ∷ frac) (amount int h) (amount frac k),
  not_empty int,
  rw (split_on-pair int frac h k, ← w, ← l) (parse_parts-digits neg int frac e h k (rw l q)),
)
  where
    not_empty : (t : Text) → is_empty (t ++ b'.' ∷ frac) ≡ false
    not_empty [] = refl
    not_empty (c ∷ t) = refl

whole_digits :
    (neg : Bool) (ds : Text)
    → is_empty ds ≡ false
    → all is_digit ds ≡ true
    → IsPrinted neg (value_of ds) 0 ds
whole_digits neg ds e h = (
  amount ds h,
  e,
  rw (split_on-single ds h) (
      subst (λ t. parse_parts neg ds [] ≡ as_read neg (value_of t) 0) (append-nil ds)
        (parse_parts-digits neg ds [] e h refl (omega arith))),
)

is_empty-take : (n : ℕ) (s : Text) → 0 < n → is_empty s ≡ false → is_empty (take n s) ≡ false
is_empty-take zero s h e = absurd (no_less h)
  where
    no_less : ¬ (0 < 0)
    no_less k = omega arith
is_empty-take (suc n) [] h e = e
is_empty-take (suc n) (c ∷ s) h e = refl

with_point-digits :
    (neg : Bool) (ds : Text) (s : ℕ)
    → is_empty ds ≡ false
    → all is_digit ds ≡ true
    → s < 2 ^ 32
    → IsPrinted neg (value_of ds) s (with_point ds s)
with_point-digits neg ds s e h l = elim (Bool-cases (s == 0)) [
  | inl t ↦ rw (t, (==_iff s 0).0 t) (whole_digits neg ds e h)
  | inr t ↦ elim (Bool-cases (ltb s (length ds))) [
    | inl u ↦ rw (t, u) (split_digits (ground (arith, u)) (ground (arith, t)))
    | inr u ↦ rw (t, u) (padded_digits (ground (arith, u)))
  ]
]
  where
    split_digits :
        s < length ds
        → ¬ (s ≡ 0)
        → IsPrinted neg (value_of ds) s (take (length ds - s) ds ++ b'.' ∷ drop (length ds - s) ds)
    split_digits u t =
        let n = length ds - s in
        let (front, back) = all-split is_digit (take n ds) (drop n ds) (rw (take-drop n ds) h) in
        pair_digits neg (take n ds) (drop n ds) (value_of ds) s (is_empty-take n ds (omega arith) e)
          front back (ap value_of (take-drop n ds)) (length-drop n ds (omega arith) ∙ omega arith) l

    padded_digits :
        length ds ≤ s → IsPrinted neg (value_of ds) s (b'0' ∷ b'.' ∷ zeros (s - length ds) ++ ds)
    padded_digits u =
        let frac = zeros (s - length ds) ++ ds in
        pair_digits neg (b'0' ∷ []) frac (value_of ds) s refl refl
          (all-append is_digit (zeros (s - length ds)) ds (zeros-all (s - length ds)) h)
          (value-zeros (suc (s - length ds)) ds)
          (length-append (zeros (s - length ds)) ds
            ∙ (let padding = length-zeros (s - length ds) in omega arith))
          l

no_minus :
    (c : ℕ) (s : Text) → all is_amount_char (c ∷ s) ≡ true → strip_prefix (codes "-") (c ∷ s) ≡ none
unfolding strip_prefix
no_minus c s h = ground (arith, h)

parse-IsPrinted :
    (v s : ℕ) (body : Text) → IsPrinted false v s body → parse body ≡ as_read false v s
unfolding parse
parse-IsPrinted v s [] (a, e, p) = absurd (apart e)
  where
    apart : ¬ (true ≡ false)
    apart k = cc
parse-IsPrinted v s (c ∷ body) (a, e, p) =
    ap parse_trimmed (trim-amount (c ∷ body) a) ∙ rw (no_minus c body a) p

parse-minus :
    (v s : ℕ) (body : Text) → IsPrinted true v s body → parse (b'-' ∷ body) ≡ as_read true v s
unfolding parse
parse-minus v s [] (a, e, p) = absurd (apart e)
  where
    apart : ¬ (true ≡ false)
    apart k = cc
parse-minus v s (c ∷ body) (a, e, p) =
    ap parse_trimmed (trim-minus c body a) ∙ (unfold strip_prefix in p)

printed : (neg : Bool) (n s : ℕ) → s < 2 ^ 32 → IsPrinted neg n s (with_point (digits n) s)
printed neg n s k =
    subst (λ v. IsPrinted neg v s (with_point (digits n) s)) (value-digits n)
      (with_point-digits neg (digits n) s (digits-nonempty n) (digits-all n) k)

-- What was read of a negated amount is the amount.
as_read_negated :
    (n s : ℕ)
    → as_read true (suc n) s
      ≡ (if ltb (suc n) i128_bound then some (record { mantissa = negsuc n; scale = s }) else none)
as_read_negated n s = elim (Bool-cases (ltb (suc n) i128_bound)) [
  | inl e ↦ rw e (
      ap (λ m. some (record { mantissa = m; scale = s }))
        (negated_small true (suc n) (below i128_bound n e)))
  | inr e ↦ rw e refl
]
  where
    below : (b n : ℕ) → ltb (suc n) b ≡ true → leb b (suc n) ≡ false
    below b n h = ground arith

-- Printing an amount whose scale fits 32 bits and parsing the text gives the amount back, its scale
-- included, but for the one mantissa of an `i128` whose magnitude is 2 ^ 127: the text of the least
-- `i128` is not parsed.
pub parse-to_plain_string :
    (d : Decimal)
    → d.scale < 2 ^ 32
    → parse (to_plain_string d) ≡ (if ltb (magnitude d.mantissa) (2 ^ 127) then some d else none)
unfolding to_plain_string i128_bound
parse-to_plain_string d k = by_sign d.mantissa
  where
    by_sign :
        (m : ℤ)
        → parse (
            if is_negative m
            then b'-' ∷ with_point (digits (magnitude m)) d.scale
            else with_point (digits (magnitude m)) d.scale)
          ≡ (if ltb (magnitude m) i128_bound
              then some (record { mantissa = m; scale = d.scale })
              else none)
    by_sign (pos n) =
        parse-IsPrinted n d.scale (with_point (digits n) d.scale) (printed false n d.scale k)
    by_sign (negsuc n) =
        parse-minus (suc n) d.scale (with_point (digits (suc n)) d.scale)
          (printed true (suc n) d.scale k)
        ∙ as_read_negated n d.scale
