-- ===== src/Kernel/Decimal.antt =====
-- Money: exact decimals on an `i128` mantissa (frust-kernel/kernel/src/decimal.rs). Arithmetic that
-- the code leaves unchecked wraps around, as in a release build.
pub mod Plain
pub mod Rounding
pub mod Division
pub mod Scale
pub mod Tens
pub mod Sum
mod Tests
use frust.Prelude.{
  ℕ, zero, suc, ◌+◌, ◌-◌, ◌*◌, ◌/◌, ◌%◌, ◌^◌, ◌≤◌, ◌<◌, min, max, compare, Ordering, ◌≡◌, refl, sym,
  ap, ◌∙◌, subst, ◌≢◌, ◌↔◌, ◌⊎◌, inl, inr, Bool, true, false, not, ◌&&◌, ◌||◌, Option, none, some,
  List, [], ◌∷◌, ◌++◌, map, append-nil, append_assoc, arith, ltb, leb, ◌==◌, if◌then◌else◌, ==_iff,
  ltb→lt, leb→le, Bool-cases, Option-cases, bool_eq, length, take, drop, get_elem?, any, filter,
  find, is_empty, length-append, All, All-append, All-map, In, In-append_left, In-append_right,
  In-append,
}
use frust.Prelude.Text.{
  Text, codes, text_eq, text_eq_sound, text_eq_refl, text_eq_iff, text_ltb, text_ltb_irrefl,
  text_ltb_trans, text_ltb_total, contains, contains-In, In-contains,
}
use frust.Prelude.Result.{Result, ok, err, ◌>>=◌}
use frust.Prelude.Chars.{is_digit, all, trim, strip_prefix, split_on}
use frust.Prelude.Digits.{digits, value_of}
use frust.Prelude.Int.{ℤ, pos, negsuc, magnitude, is_negative, signed, ◌+ℤ◌}

pub data Mode : Type 0 where
  half_even half_up down : Mode

pub data MoneyError : Type 0 where
  overflow div_by_zero : MoneyError

pub record Decimal : Type 0 where
  pub mantissa : ℤ
  pub scale : ℕ

-- 2 ^ 127: an `i128` is below it, and not below its negation.
unfoldable pub i128_bound : ℕ
i128_bound = 2 ^ 127

abbrev pub i128_max : ℕ
i128_max = i128_bound - 1

unfoldable pub fits : Bool → ℕ → Bool
fits true m = leb m i128_bound
fits false m = ltb m i128_bound

-- The `i128` that has the same bits as a magnitude, with a minus or without
unfoldable pub wrapped : Bool → ℕ → ℤ
unfolding i128_bound
wrapped neg n =
    let m = (if neg then (2 ^ 128 - n % 2 ^ 128) % 2 ^ 128 else n % 2 ^ 128) in
    if ltb m i128_bound then pos m else negsuc (2 ^ 128 - 1 - m)

-- `-m`
unfoldable pub negate : ℤ → ℤ
unfolding wrapped
negate m = wrapped (not (is_negative m)) (magnitude m)

abbrev pub product_is_negative : ℤ → ℤ → Bool
product_is_negative a b = not (bool_eq (is_negative a) (is_negative b))

unfoldable pub checked_mul : ℤ → ℤ → Result MoneyError ℤ
unfolding fits
checked_mul a b =
    let m = magnitude a * magnitude b in
    let neg = product_is_negative a b in if fits neg m then ok (signed neg m) else err overflow

unfoldable pub saturating : ℤ → ℤ
saturating (pos n) = pos (min n i128_max)
saturating (negsuc n) = negsuc (min n i128_max)

abbrev pub saturating_mul : ℤ → ℤ → ℤ
saturating_mul a b = saturating (signed (product_is_negative a b) (magnitude a * magnitude b))

unfoldable pub pow10 : ℕ → Result MoneyError ℕ
pow10 n = if ltb (10 ^ n) i128_bound then ok (10 ^ n) else err overflow

abbrev pub parse_i128 : Text → Option ℤ
parse_i128 s = if ltb (value_of s) i128_bound then some (pos (value_of s)) else none

abbrev pub parse_parts : Bool → Text → Text → Option Decimal
parse_parts neg int frac =
    if is_empty int || not (all is_digit int)
    then none
    else if not (is_empty frac) && not (all is_digit frac)
    then none
    else elim (parse_i128 (int ++ frac)) [
      | none ↦ none
      | some m ↦
          some (record { mantissa = if neg then negate m else m; scale = length frac % 2 ^ 32 })
    ]

abbrev pub parse_body : Bool → List Text → Option Decimal
parse_body neg [] = none
parse_body neg (int ∷ []) = parse_parts neg int []
parse_body neg (int ∷ frac ∷ []) = parse_parts neg int frac
parse_body neg (int ∷ frac ∷ _ ∷ _) = none

abbrev pub parse_trimmed : Text → Option Decimal
parse_trimmed s = if is_empty s then none else elim (strip_prefix (codes "-") s) [
  | some rest ↦ parse_body true (split_on b'.' rest)
  | none ↦ parse_body false (split_on b'.' s)
]

unfoldable pub parse : Text → Option Decimal
parse s = parse_trimmed (trim s)

unfoldable pub rescaled : Decimal → ℕ → Decimal
unfolding wrapped saturating
rescaled d scale = if leb scale d.scale then d else record {
  mantissa = saturating_mul d.mantissa (wrapped false (10 ^ (scale - d.scale)));
  scale = scale;
}

unfoldable pub add : Decimal → Decimal → Decimal
add a b =
    let scale = max a.scale b.scale in
    record {
      mantissa = saturating ((rescaled a scale).mantissa +ℤ (rescaled b scale).mantissa);
      scale = scale;
    }

unfoldable pub neg : Decimal → Decimal
unfolding negate
neg d = record { mantissa = negate d.mantissa; scale = d.scale }

unfoldable pub mul : Decimal → Decimal → Result MoneyError Decimal
unfolding checked_mul
mul a b = checked_mul a.mantissa b.mantissa >>= λ m.
    ok (record { mantissa = m; scale = (a.scale + b.scale) % 2 ^ 32 })

-- On a `u128` quotient, remainder and unit
unfoldable pub apply_rounding : ℕ → ℕ → ℕ → Mode → Result MoneyError ℕ
apply_rounding q r unit mode =
    let up = (if ltb (q + 1) (2 ^ 128) then ok (q + 1) else err overflow) in
    if r == 0 then ok q else elim mode [
      | down ↦ ok q
      | half_up ↦
          if leb (2 ^ 128) (r * 2) then err overflow else if ltb (r * 2) unit then ok q else up
      | half_even ↦
          if leb (2 ^ 128) (r * 2)
          then err overflow
          else if ltb (r * 2) unit
          then ok q
          else if ltb unit (r * 2)
          then up
          else if q % 2 == 1
          then up
          else ok q
    ]

-- The numerator and denominator of `div_round`, at the target scale
unfoldable pub scaled_fraction : Decimal → Decimal → ℕ → Result MoneyError (ℤ × ℤ)
unfolding pow10 checked_mul
scaled_fraction a b scale =
    if leb a.scale (scale + b.scale)
    then (pow10 ((scale + b.scale - a.scale) % 2 ^ 32) >>= λ factor.
        checked_mul a.mantissa (pos factor) >>= λ num. ok (num, b.mantissa))
    else (pow10 ((a.scale - (scale + b.scale)) % 2 ^ 32) >>= λ factor.
        checked_mul b.mantissa (pos factor) >>= λ den. ok (a.mantissa, den))

-- `num / den`, rounded
unfoldable pub divide : ℤ → ℤ → ℕ → Mode → Result MoneyError Decimal
unfolding apply_rounding negate
divide num den scale mode =
    apply_rounding (magnitude num / magnitude den) (magnitude num % magnitude den) (magnitude den)
      mode
    >>= λ m.
        if leb i128_bound m
        then err overflow
        else ok (record {
          mantissa = if product_is_negative num den then negate (pos m) else pos m;
          scale = scale;
        })

unfoldable pub div_round : Decimal → Decimal → ℕ → Mode → Result MoneyError Decimal
unfolding scaled_fraction divide
div_round a b scale mode =
    if magnitude b.mantissa == 0
    then err div_by_zero
    else (scaled_fraction a b scale >>= λ (num, den). divide num den scale mode)

-- Some digits dropped, the value of the last of them being `factor` units
unfoldable pub narrowed : Decimal → ℕ → ℕ → Mode → Decimal
unfolding apply_rounding negate
narrowed d factor target mode =
    let abs = magnitude d.mantissa in
    let m : ℕ = elim (apply_rounding (abs / factor) (abs % factor) factor mode) [
      | err _ ↦ abs / factor
      | ok m ↦ m
    ] in
    let mantissa = pos (min m i128_max) in
    record {
      mantissa = if is_negative d.mantissa then negate mantissa else mantissa;
      scale = target;
    }

unfoldable pub round : Decimal → ℕ → Mode → Decimal
unfolding rescaled pow10 narrowed
round d target mode =
    if leb d.scale target
    then rescaled d target
    else elim (pow10 (d.scale - target)) [ err _ ↦ d | ok factor ↦ narrowed d factor target mode ]

abbrev pub zeros : ℕ → Text
zeros zero = []
zeros (suc n) = b'0' ∷ zeros n

abbrev pub with_point : Text → ℕ → Text
with_point ds s =
    if s == 0
    then ds
    else if ltb s (length ds)
    then take (length ds - s) ds ++ b'.' ∷ drop (length ds - s) ds
    else b'0' ∷ b'.' ∷ zeros (s - length ds) ++ ds

unfoldable pub to_plain_string : Decimal → Text
to_plain_string d =
    let body = with_point (digits (magnitude d.mantissa)) d.scale in
    if is_negative d.mantissa then b'-' ∷ body else body

abbrev pub cmp_ℤ : ℤ → ℤ → Ordering
cmp_ℤ (pos a) (pos b) = compare a b
cmp_ℤ (pos a) (negsuc b) = Ordering.gt
cmp_ℤ (negsuc a) (pos b) = Ordering.lt
cmp_ℤ (negsuc a) (negsuc b) = compare b a

unfoldable pub cmp : Decimal → Decimal → Ordering
unfolding rescaled
cmp a b =
    let scale = max a.scale b.scale in
    cmp_ℤ ((rescaled a scale).mantissa) ((rescaled b scale).mantissa)
