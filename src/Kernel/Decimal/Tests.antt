-- ===== src/Kernel/Decimal/Tests.antt =====
-- Amounts of the source's own tests.
use frust.Prelude.{
  ℕ, zero, suc, ◌+◌, ◌-◌, ◌*◌, ◌/◌, ◌%◌, ◌^◌, ◌≤◌, ◌<◌, min, max, compare, Ordering, ◌≡◌, refl, sym,
  ap, ◌∙◌, subst, ◌≢◌, ◌↔◌, ◌⊎◌, inl, inr, Bool, true, false, not, ◌&&◌, ◌||◌, Option, none, some,
  List, [], ◌∷◌, ◌++◌, map, append-nil, append_assoc, arith, ltb, leb, ◌==◌, if◌then◌else◌, ==_iff,
  ltb→lt, leb→le, Bool-cases, Option-cases, bool_eq, length, take, drop, get_elem?, any, filter,
  find, is_empty, length-append, All, All-append, All-map, In, In-append_left, In-append_right,
  In-append,
}
use frust.Prelude.Text.{codes}
use frust.Prelude.Result.{ok, err}
use frust.Prelude.Int.{ℤ, pos, negsuc, magnitude, is_negative, signed}
use frust.Kernel.Decimal.{
  Mode, half_even, half_up, down, overflow, div_by_zero, Decimal, parse, to_plain_string, add, mul,
  div_round, round,
}
use frust.Kernel.Decimal.Rounding.{IsRounded}
use frust.Kernel.Decimal.Division.{div_round-refines}
use frust.Kernel.Decimal.Scale.{round-IsRounded}
use frust.Kernel.Decimal.Plain.{parse-to_plain_string}
use frust.Kernel.Decimal.Sum.{fold, fold_exact, total}
use frust.Kernel.Decimal.Tens.{tens, level}

abbrev amount : Decimal
amount = record { mantissa = negsuc 12_339; scale = 3 }

abbrev small_amount : Decimal
small_amount = record { mantissa = negsuc 4; scale = 3 }

printed :
    (to_plain_string amount ≡ codes "-12.340") × (to_plain_string small_amount ≡ codes "-0.005")
unfolding to_plain_string frust.Prelude.Digits.digits
printed = (refl, refl)

parsed :
    (parse (codes " 1.50 ") ≡ some (record { mantissa = pos 150; scale = 2 }))
    × (parse (codes "1e5") ≡ none)
unfolding parse frust.Prelude.Chars.trim frust.Prelude.Chars.strip_prefix
    frust.Prelude.Chars.split_on frust.Prelude.Digits.value_from frust.Kernel.Decimal.i128_bound
parsed = (refl, refl)

-- A fraction may be empty.
open_fraction : parse (codes "1.") ≡ some (record { mantissa = pos 1; scale = 0 })
unfolding parse frust.Prelude.Chars.trim frust.Prelude.Chars.strip_prefix
    frust.Prelude.Chars.split_on frust.Prelude.Digits.value_from frust.Kernel.Decimal.i128_bound
open_fraction = refl

half_even_neighbours :
    (round (record { mantissa = pos 2125; scale = 3 }) 2 half_even
      ≡ record { mantissa = pos 212; scale = 2 })
    × (round (record { mantissa = pos 2135; scale = 3 }) 2 half_even
        ≡ record { mantissa = pos 214; scale = 2 })
unfolding round
half_even_neighbours = (refl, refl)

third :
    div_round
      (record { mantissa = pos 1; scale = 0 })
      (record { mantissa = negsuc 2; scale = 0 })
      2
      half_up
    ≡ ok (record { mantissa = negsuc 32; scale = 2 })
unfolding div_round
third = refl

no_divisor : div_round amount (record { mantissa = pos 0; scale = 2 }) 2 half_up ≡ err div_by_zero
unfolding div_round
no_divisor = refl

-- The factor of a gap of 39 digits is beyond an `i128`, and wraps around.
wide_gap :
    add (record { mantissa = pos 1; scale = 0 }) (record { mantissa = pos 0; scale = 39 })
    ≡ record { mantissa = negsuc 20_847_100_762_815_390_390_123_822_295_304_634_367; scale = 39 }
unfolding add frust.Kernel.Decimal.saturating frust.Prelude.Int.◌+ℤ◌ frust.Kernel.Decimal.rescaled
wide_gap = refl

parse-to_plain_string_example : parse (codes "-12.340") ≡ some amount
unfolding to_plain_string frust.Prelude.Digits.digits
parse-to_plain_string_example = parse-to_plain_string amount (omega arith)

div_round-refines_example :
    IsRounded half_up 100 3 33 × (negsuc 32 ≡ signed true 33) × (◌≡◌ {A = ℕ} 2 2)
div_round-refines_example =
    div_round-refines (record { mantissa = pos 1; scale = 0 })
      (record { mantissa = negsuc 2; scale = 0 }) 2 half_up (omega arith) (omega arith) third

round-IsRounded_example :
    let out = round amount 1 half_even in
    IsRounded half_even 12_340 100 (magnitude out.mantissa)
    × (out.mantissa ≡ signed true (magnitude out.mantissa))
    × (out.scale ≡ 1)
round-IsRounded_example =
    round-IsRounded amount 1 half_even (omega arith) (omega arith) (omega arith)

-- -12.339 and 0.5, at three digits
fold_exact_example :
    level 3 (fold amount (record { mantissa = pos 5; scale = 1 } ∷ []))
    ≡ total 3 (amount ∷ record { mantissa = pos 5; scale = 1 } ∷ [])
fold_exact_example =
    fold_exact 3 amount (record { mantissa = pos 5; scale = 1 } ∷ []) (omega arith)
      (omega arith, (omega arith, tt)) (unfold tens in omega arith)
