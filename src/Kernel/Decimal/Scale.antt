-- ===== src/Kernel/Decimal/Scale.antt =====
-- Rounding to a money scale (frust-kernel/kernel/src/decimal.rs, `round`).
use native.Mathlib.Nat.{mod-lt, div-mul-le_self, mul-le-mul_left, pow-le-pow_right}
use frust.Prelude.{
  ℕ, ◌+◌, ◌-◌, ◌*◌, ◌/◌, ◌%◌, ◌^◌, ◌≤◌, ◌<◌, min, ◌≡◌, refl, inl, inr, false, arith, ltb, leb, ◌==◌,
  Bool-cases,
}
use frust.Prelude.Result.{ok}
use frust.Prelude.Int.{magnitude, is_negative, signed, magnitude-signed}
use frust.Kernel.Decimal.{
  Mode, half_even, half_up, down, Decimal, i128_bound, i128_max, pow10, apply_rounding, narrowed,
  round,
}
use frust.Kernel.Decimal.Rounding.{IsRounded, apply_rounding-IsRounded}
use frust.Kernel.Decimal.Division.{negated_small}

-- Quotients and remainders of an `i128` round without overflow.
apply_rounding-total :
    (q r d : ℕ) (mode : Mode)
    → q < 2 ^ 127
    → r < 2 ^ 127
    → (m : ℕ) × (apply_rounding q r d mode ≡ ok m) × (m ≤ q + 1)
unfolding apply_rounding
apply_rounding-total q r d mode h k = elim (Bool-cases (r == 0)) [
  | inl e ↦ (q, rw e refl, omega arith)
  | inr e ↦ by_mode mode e
]
  where
    by_mode :
        (mode : Mode)
        → (r == 0) ≡ false
        → (m : ℕ) × (apply_rounding q r d mode ≡ ok m) × (m ≤ q + 1)
    by_mode down e = (q, rw e refl, omega arith)
    by_mode half_up e = elim (Bool-cases (ltb (r * 2) d)) [
      | inl f ↦ (q, ground (arith, e, f), omega arith)
      | inr f ↦ (q + 1, ground (arith, e, f), omega arith)
    ]
    by_mode half_even e = elim (Bool-cases (ltb (r * 2) d)) [
      | inl f ↦ (q, ground (arith, e, f), omega arith)
      | inr f ↦ elim (Bool-cases (ltb d (r * 2))) [
        | inl g ↦ (q + 1, ground (arith, e, f, g), omega arith)
        | inr g ↦ elim (Bool-cases (q % 2 == 1)) [
          | inl i ↦ (q + 1, ground (arith, e, f, g, i), omega arith)
          | inr i ↦ (q, ground (arith, e, f, g, i), omega arith)
        ]
      ]
    ]

pow10-small : (n : ℕ) → n ≤ 38 → pow10 n ≡ ok (10 ^ n)
unfolding pow10 i128_bound
pow10-small n h =
    let most = pow-le-pow_right {n = 10} (omega arith) {i = n} {j = 38} h in ground arith

few_left : (n d : ℕ) → n ≤ 2 ^ 127 → 10 ≤ d → n / d ≤ 2 ^ 127 / 10
few_left n d h k = let u = div-mul-le_self n d in let v = mul-le-mul_left (n / d) k in omega arith

narrowed-IsRounded :
    (d : Decimal) (factor target : ℕ) (mode : Mode)
    → magnitude d.mantissa ≤ 2 ^ 127
    → 10 ≤ factor
    → factor < 2 ^ 127
    → IsRounded mode
        (magnitude d.mantissa)
        factor
        (magnitude (narrowed d factor target mode).mantissa)
      × ((narrowed d factor target mode).mantissa
          ≡ signed (is_negative d.mantissa) (magnitude (narrowed d factor target mode).mantissa))
      × ((narrowed d factor target mode).scale ≡ target)
unfolding narrowed i128_bound
narrowed-IsRounded d factor target mode h k l =
    let abs = magnitude d.mantissa in
    let few = few_left abs factor h k in
    let rest = mod-lt abs {m = factor} (omega arith) in
    let (m, e, small) =
      apply_rounding-total (abs / factor) (abs % factor) factor mode (omega arith) (omega arith) in
    let rounded = apply_rounding-IsRounded mode abs factor (omega arith) e in
    let kept : min m i128_max ≡ m = omega arith in
    rw
      (
        e,
        kept,
        negated_small (is_negative d.mantissa) m (ground arith),
        magnitude-signed (is_negative d.mantissa) m,
      )
      (rounded, refl, refl)

-- From an `i128` mantissa to a smaller scale, over 38 digits at most, `round` gives the nearest amount
-- of that scale, or the one nearer to zero, as the mode says; it keeps the sign.
pub round-IsRounded :
    (d : Decimal) (target : ℕ) (mode : Mode)
    → magnitude d.mantissa ≤ 2 ^ 127
    → target < d.scale
    → d.scale ≤ target + 38
    → IsRounded mode
        (magnitude d.mantissa)
        (10 ^ (d.scale - target))
        (magnitude (round d target mode).mantissa)
      × ((round d target mode).mantissa
          ≡ signed (is_negative d.mantissa) (magnitude (round d target mode).mantissa))
      × ((round d target mode).scale ≡ target)
unfolding round
round-IsRounded d target mode h k l =
    let factor = 10 ^ (d.scale - target) in
    rw (ge d.scale target k, pow10-small (d.scale - target) (omega arith))
      (narrowed-IsRounded d factor target mode h (at_least (d.scale - target) (omega arith))
        (at_most (d.scale - target) (omega arith)))
  where
    ge : (s t : ℕ) → t < s → leb s t ≡ false
    ge s t h = ground arith

    at_least : (n : ℕ) → 1 ≤ n → 10 ≤ 10 ^ n
    at_least n h = pow-le-pow_right {n = 10} (omega arith) {i = 1} {j = n} h

    at_most : (n : ℕ) → n ≤ 38 → 10 ^ n < 2 ^ 127
    at_most n h =
        let most = pow-le-pow_right {n = 10} (omega arith) {i = n} {j = 38} h in omega arith
