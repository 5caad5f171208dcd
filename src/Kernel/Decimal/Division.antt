-- ===== src/Kernel/Decimal/Division.antt =====
-- Division of amounts (frust-kernel/kernel/src/decimal.rs, `div_round`), against the exact quotient.
use native.Mathlib.Nat.{one-le-pow, pow-suc}
use frust.Prelude.{
  ℕ, zero, suc, ◌+◌, ◌-◌, ◌*◌, ◌/◌, ◌%◌, ◌^◌, ◌≤◌, ◌<◌, ◌≡◌, refl, sym, ap, ◌∙◌, subst, inl, inr,
  Bool, true, false, not, arith, leb, ◌==◌, if◌then◌else◌, Bool-cases, bool_eq,
}
use frust.Prelude.Result.{ok, bind-ok, ok_injective, guard-ok, test-ok}
use frust.Prelude.Int.{ℤ, pos, negsuc, magnitude, is_negative, signed, magnitude-signed}
use frust.Kernel.Decimal.{
  Mode, overflow, div_by_zero, Decimal, i128_bound, product_is_negative, negate, wrapped, fits,
  checked_mul, pow10, apply_rounding, scaled_fraction, divide, div_round,
}
use frust.Kernel.Decimal.Rounding.{IsRounded, lt_irrefl, apply_rounding-IsRounded, IsRounded-scale}

-- What `checked_mul` let through is the product.
checked_mul-ok :
    (a b : ℤ) {c : ℤ}
    → checked_mul a b ≡ ok c
    → c ≡ signed (product_is_negative a b) (magnitude a * magnitude b)
unfolding checked_mul
checked_mul-ok a b h =
    let m = magnitude a * magnitude b in
    let neg = product_is_negative a b in
    sym (ok_injective (test-ok (fits neg m) overflow (ok (signed neg m)) h).1)

is_negative-signed : (b : Bool) (n : ℕ) → 0 < n → is_negative (signed b n) ≡ b
is_negative-signed true zero h = absurd (lt_irrefl 0 h)
is_negative-signed true (suc n) h = refl
is_negative-signed false zero h = refl
is_negative-signed false (suc n) h = refl

positive_product : (m n : ℕ) → 0 < m → 0 < n → 0 < m * n
positive_product zero n h k = absurd (lt_irrefl 0 h)
positive_product (suc m) zero h k = absurd (lt_irrefl 0 k)
positive_product (suc m) (suc n) h k = omega arith

positive_factor : (x c : ℕ) {y : ℕ} → x * c ≡ y → 0 < y → 0 < x
positive_factor zero c h k = absurd (lt_irrefl 0 (omega arith))
positive_factor (suc x) c h k = omega arith

-- Scaling up by a power of ten keeps the sign.
checked_mul_scale :
    (a : ℤ) (f : ℕ) {c : ℤ}
    → 0 < f
    → checked_mul a (pos f) ≡ ok c
    → (magnitude c ≡ magnitude a * f) × (is_negative c ≡ is_negative a)
checked_mul_scale (pos n) f p h =
    rw (checked_mul-ok (pos n) (pos f) h) (magnitude-signed false (n * f), refl)
checked_mul_scale (negsuc n) f p h = rw (checked_mul-ok (negsuc n) (pos f) h) (
  magnitude-signed true (suc n * f),
  is_negative-signed true (suc n * f) (positive_product (suc n) f (omega arith) p),
)

pow10-ok : (n : ℕ) {f : ℕ} → pow10 n ≡ ok f → f ≡ 10 ^ n
unfolding pow10
pow10-ok n h = ground (arith, h)

pub negated_small :
    (neg : Bool) (m : ℕ)
    → leb i128_bound m ≡ false
    → (if neg then negate (pos m) else pos m) ≡ signed neg m
unfolding negate wrapped i128_bound
negated_small true zero h = refl
negated_small true (suc m) h = ground (arith, h)
negated_small false zero h = refl
negated_small false (suc m) h = refl

divide-ok :
    (num den : ℤ) (scale : ℕ) (mode : Mode) {d : Decimal}
    → 0 < magnitude den
    → divide num den scale mode ≡ ok d
    → IsRounded mode (magnitude num) (magnitude den) (magnitude d.mantissa)
      × (d.mantissa ≡ signed (product_is_negative num den) (magnitude d.mantissa))
      × (d.scale ≡ scale)
unfolding divide
divide-ok num den scale mode {d} p h =
    let neg = product_is_negative num den in
    let (m, e, k) =
      bind-ok
        (apply_rounding (magnitude num / magnitude den) (magnitude num % magnitude den)
          (magnitude den) mode)
        _ h in
    let (small, out) = guard-ok (leb i128_bound m) overflow _ k in
    finish m small (apply_rounding-IsRounded mode (magnitude num) (magnitude den) p e)
      (ok_injective out)
  where
    finish :
        (m : ℕ)
        → leb i128_bound m ≡ false
        → IsRounded mode (magnitude num) (magnitude den) m
        → record {
          mantissa = if product_is_negative num den then negate (pos m) else pos m;
          scale = scale;
        }
          ≡ d
        → IsRounded mode (magnitude num) (magnitude den) (magnitude d.mantissa)
          × (d.mantissa ≡ signed (product_is_negative num den) (magnitude d.mantissa))
          × (d.scale ≡ scale)
    finish m small r e =
        subst
          (λ d.
            IsRounded mode (magnitude num) (magnitude den) (magnitude d.mantissa)
            × (d.mantissa ≡ signed (product_is_negative num den) (magnitude d.mantissa))
            × (d.scale ≡ scale))
          e
          (rw
            (
              negated_small (product_is_negative num den) m small,
              magnitude-signed (product_is_negative num den) m,
            )
            (r, refl, refl))

pow_add : (m n : ℕ) → 10 ^ (m + n) ≡ 10 ^ m * 10 ^ n
pow_add zero n = ap (λ k. 10 ^ k) (zero_plus n) ∙ omega arith
  where
    zero_plus : (n : ℕ) → 0 + n ≡ n
    zero_plus n = omega arith
pow_add (suc m) n =
    ap (λ k. 10 ^ k) (suc_plus m n)
    ∙ (pow-suc 10 (m + n) ∙ (ap (λ x. x * 10) (pow_add m n) ∙ rearranged (pow-suc 10 m)))
  where
    suc_plus : (m n : ℕ) → suc m + n ≡ suc (m + n)
    suc_plus m n = omega arith

    rearranged : {x : ℕ} → x ≡ 10 ^ m * 10 → 10 ^ m * 10 ^ n * 10 ≡ x * 10 ^ n
    rearranged h = rw h (omega arith)

pow_sub : (s t : ℕ) → t ≤ s → 10 ^ (s - t) * 10 ^ t ≡ 10 ^ s
pow_sub s t h = sym (pow_add (s - t) t) ∙ ap (λ k. 10 ^ k) (omega arith)

-- A fraction in lower terms, with the same sign
abbrev HasRatio : (num den : ℤ) (n d : ℕ) (neg : Bool) → Type 0
HasRatio num den n d neg =
    (c : ℕ) × (0 < c)
    × (magnitude num * c ≡ n)
    × (magnitude den * c ≡ d)
    × (product_is_negative num den ≡ neg)

scaled_back : (x s t : ℕ) → t ≤ s → x * 10 ^ (s - t) * 10 ^ t ≡ x * 10 ^ s
scaled_back x s t h = let powers = pow_sub s t h in rw (← powers) (omega arith)

-- One of the two numbers is scaled up.
scale_up-ok :
    (x : ℤ) (n factor : ℕ) {z : ℤ}
    → pow10 n ≡ ok factor
    → checked_mul x (pos factor) ≡ ok z
    → (magnitude z ≡ magnitude x * 10 ^ n) × (is_negative z ≡ is_negative x)
scale_up-ok x n factor {z} e h =
    checked_mul_scale x (10 ^ n) (one-le-pow n 10 (omega arith))
      (subst (λ f. checked_mul x (pos f) ≡ ok z) (pow10-ok n e) h)

abbrev Ratio : Decimal → Decimal → ℕ → ℤ × ℤ → Type 0
Ratio a b scale f =
    HasRatio f.0 f.1 (magnitude a.mantissa * 10 ^ (scale + b.scale))
      (magnitude b.mantissa * 10 ^ a.scale) (product_is_negative a.mantissa b.mantissa)

up-Ratio :
    (a b : Decimal) (scale : ℕ) (num : ℤ)
    → a.scale ≤ scale + b.scale
    → (magnitude num ≡ magnitude a.mantissa * 10 ^ (scale + b.scale - a.scale))
      × (is_negative num ≡ is_negative a.mantissa)
    → Ratio a b scale (num, b.mantissa)
up-Ratio a b scale num h (size, sign) = (
  10 ^ a.scale,
  one-le-pow a.scale 10 (omega arith),
  rw size (scaled_back (magnitude a.mantissa) (scale + b.scale) a.scale h),
  refl,
  ap (λ t. not (bool_eq t (is_negative b.mantissa))) sign,
)

down-Ratio :
    (a b : Decimal) (scale : ℕ) (den : ℤ)
    → scale + b.scale ≤ a.scale
    → (magnitude den ≡ magnitude b.mantissa * 10 ^ (a.scale - (scale + b.scale)))
      × (is_negative den ≡ is_negative b.mantissa)
    → Ratio a b scale (a.mantissa, den)
down-Ratio a b scale den h (size, sign) = (
  10 ^ (scale + b.scale),
  one-le-pow (scale + b.scale) 10 (omega arith),
  refl,
  rw size (scaled_back (magnitude b.mantissa) a.scale (scale + b.scale) h),
  ap (λ t. not (bool_eq (is_negative a.mantissa) t)) sign,
)

scaled_fraction-ok :
    (a b : Decimal) (scale : ℕ) {f : ℤ × ℤ}
    → a.scale < 2 ^ 32
    → scale + b.scale < 2 ^ 32
    → scaled_fraction a b scale ≡ ok f
    → Ratio a b scale f
unfolding scaled_fraction
scaled_fraction-ok a b scale {f} s t h = elim (Bool-cases (leb a.scale (scale + b.scale))) [
  | inl e ↦
      let (factor, u, k) = bind-ok (pow10 ((scale + b.scale - a.scale) % 2 ^ 32)) _ (rw e at h) in
      let (num, v, l) = bind-ok (checked_mul a.mantissa (pos factor)) _ k in
      subst (Ratio a b scale) (ok_injective l) (
        up-Ratio a b scale num (ground (arith, e)) (
          scale_up-ok a.mantissa (scale + b.scale - a.scale) factor
            (subst (λ n. pow10 n ≡ ok factor) (omega arith) u) v))
  | inr e ↦
      let (factor, u, k) = bind-ok (pow10 ((a.scale - (scale + b.scale)) % 2 ^ 32)) _ (rw e at h) in
      let (den, v, l) = bind-ok (checked_mul b.mantissa (pos factor)) _ k in
      subst (Ratio a b scale) (ok_injective l) (
        down-Ratio a b scale den (ground (arith, e)) (
          scale_up-ok b.mantissa (a.scale - (scale + b.scale)) factor
            (subst (λ n. pow10 n ≡ ok factor) (omega arith) u) v))
]

-- `div_round` gives the exact quotient of the two amounts, rounded to the scale that is asked.
pub div_round-refines :
    (a b : Decimal) (scale : ℕ) (mode : Mode) {d : Decimal}
    → a.scale < 2 ^ 32
    → scale + b.scale < 2 ^ 32
    → div_round a b scale mode ≡ ok d
    → IsRounded mode
        (magnitude a.mantissa * 10 ^ (scale + b.scale))
        (magnitude b.mantissa * 10 ^ a.scale)
        (magnitude d.mantissa)
      × (d.mantissa ≡ signed (product_is_negative a.mantissa b.mantissa) (magnitude d.mantissa))
      × (d.scale ≡ scale)
unfolding div_round
div_round-refines a b scale mode {d} s t h =
    let (nonzero, k) = guard-ok (magnitude b.mantissa == 0) div_by_zero _ h in
    let (f, e, l) = bind-ok (scaled_fraction a b scale) _ k in
    let (c, p, n, m, sign) = scaled_fraction-ok a b scale s t e in
    let positive =
      positive_product (magnitude b.mantissa) (10 ^ a.scale) (ground (arith, nonzero))
        (one-le-pow a.scale 10 (omega arith)) in
    let (rounded, signs, scales) =
      divide-ok f.0 f.1 scale mode (positive_factor (magnitude f.1) c m positive) l in
    (
      rw (← n, ← m)
          (IsRounded-scale mode (magnitude f.0) (magnitude f.1) c (magnitude d.mantissa) rounded p),
      subst (λ t. d.mantissa ≡ signed t (magnitude d.mantissa)) sign signs,
      scales,
    )
