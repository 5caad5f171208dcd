-- ===== src/Kernel/Decimal/Rounding.antt =====
-- The rounding contract of money (frust-kernel/kernel/src/decimal.rs, `apply_rounding`, `div_round`
-- and `round`), against the exact fraction.
use native.Mathlib.Nat.{
  div-add-mod', mod-lt, mul-lt-mul_of_pos_right, lt_of_mul-lt-mul_right, mul-le-mul_right,
}
use frust.Prelude.{
  ℕ, ◌+◌, ◌*◌, ◌/◌, ◌%◌, ◌≤◌, ◌<◌, ◌≡◌, sym, subst, ◌⊎◌, inl, inr, arith, leb, leb→le, Bool-cases,
}
use frust.Prelude.Result.{ok}
use frust.Kernel.Decimal.{Mode, half_even, half_up, down, apply_rounding}

-- `m` is the fraction `n / d` rounded. Twice the numbers are compared, since the half may be no number.
unfoldable pub IsRounded : Mode → (n d m : ℕ) → Type 0
IsRounded down n d m = (m * d ≤ n) × (n < (m + 1) * d)
IsRounded half_up n d m = (2 * (m * d) ≤ 2 * n + d) × (2 * n + d < 2 * ((m + 1) * d))
IsRounded half_even n d m =
    (2 * (m * d) ≤ 2 * n + d)
    × (2 * n + d ≤ 2 * ((m + 1) * d))
    × ((2 * (m * d) ≡ 2 * n + d) ⊎ (2 * n + d ≡ 2 * ((m + 1) * d)) → m % 2 ≡ 0)

-- Under half-even the magnitude stays below the half, grows above it, and becomes even at it.
half_even_cases :
    (q r d : ℕ) {m : ℕ}
    → r < d
    → apply_rounding q r d half_even ≡ ok m
    → ((m ≡ q) × (2 * r ≤ d) × (2 * r ≡ d → q % 2 ≡ 0))
      ⊎ ((m ≡ q + 1) × (d ≤ 2 * r) × (2 * r ≡ d → q % 2 ≡ 1))
unfolding apply_rounding
half_even_cases q r d h e = ground (arith, e, h)

pub lt_irrefl : (d : ℕ) → ¬ (d < d)
lt_irrefl d h = omega arith

half_up_cases :
    (q r d : ℕ) {m : ℕ}
    → r < d
    → apply_rounding q r d half_up ≡ ok m
    → ((m ≡ q) × (2 * r < d)) ⊎ ((m ≡ q + 1) × (d ≤ 2 * r))
unfolding apply_rounding
half_up_cases q r d h e = ground (arith, e, h)

-- A quotient `q` with the remainder `r`, rounded
rounding_lem :
    (mode : Mode) (q r d : ℕ) {m : ℕ}
    → r < d
    → apply_rounding q r d mode ≡ ok m
    → IsRounded mode (q * d + r) d m
unfolding apply_rounding IsRounded
rounding_lem down q r d h e = ground (arith, e, h)
rounding_lem half_up q r d {m} h e = elim (half_up_cases q r d h e) [
  | inl (a, b) ↦ subst (IsRounded half_up (q * d + r) d) (sym a) (omega arith, omega arith)
  | inr (a, b) ↦ subst (IsRounded half_up (q * d + r) d) (sym a) (omega arith, omega arith)
]
rounding_lem half_even q r d {m} h e = elim (half_even_cases q r d h e) [
  | inl (a, b, c) ↦ subst (IsRounded half_even (q * d + r) d) (sym a) (
    omega arith,
    omega arith,
    λ k. elim k [ inl u ↦ absurd (lt_irrefl d (omega arith)) | inr u ↦ c (omega arith) ],
  )
  | inr (a, b, c) ↦ subst (IsRounded half_even (q * d + r) d) (sym a) (
    omega arith,
    omega arith,
    λ k. elim k [
      | inl u ↦ (let odd = c (omega arith) in omega arith)
      | inr u ↦ absurd (lt_irrefl d (omega arith))
    ],
  )
]

pub apply_rounding-IsRounded :
    (mode : Mode) (n d : ℕ) {m : ℕ}
    → 0 < d
    → apply_rounding (n / d) (n % d) d mode ≡ ok m
    → IsRounded mode n d m
apply_rounding-IsRounded mode n d {m} h e =
    subst (λ k. IsRounded mode k d m) (div-add-mod' n d)
      (rounding_lem mode (n / d) (n % d) d (mod-lt n h) e)

below : (m k d : ℕ) → m * d < (k + 1) * d → m ≤ k
below m k d h = let apart = lt_of_mul-lt-mul_right d h in omega arith

no_neighbour : (n d k : ℕ) → IsRounded half_even n d (k + 1) → ¬ (IsRounded half_even n d k)
unfolding IsRounded
no_neighbour n d k a b =
    let even_above = a.2 (inl (omega arith)) in let even = b.2 (inr (omega arith)) in omega arith

-- No two numbers are the fraction rounded.
pub IsRounded-unique :
    (mode : Mode) (n d : ℕ) {m k : ℕ} → 0 < d → IsRounded mode n d m → IsRounded mode n d k → m ≡ k
unfolding IsRounded
IsRounded-unique down n d {m} {k} h a b =
    let u = below m k d (omega arith) in let v = below k m d (omega arith) in omega arith
IsRounded-unique half_up n d {m} {k} h a b =
    let u = below m k d (omega arith) in let v = below k m d (omega arith) in omega arith
IsRounded-unique half_even n d {m} {k} h a b =
    let u = below m (k + 1) d (omega arith) in
    let v = below k (m + 1) d (omega arith) in
    elim (compare_cases m k u v) [
      | inl e ↦ e
      | inr (inl e) ↦ absurd (no_neighbour n d k (subst (IsRounded half_even n d) e a) b)
      | inr (inr e) ↦ absurd (no_neighbour n d m (subst (IsRounded half_even n d) e b) a)
    ]
  where
    compare_cases : (m k : ℕ) → m ≤ k + 1 → k ≤ m + 1 → (m ≡ k) ⊎ (m ≡ k + 1) ⊎ (k ≡ m + 1)
    compare_cases m k u v = ground arith

cancel : (x y c : ℕ) → x * c ≤ y * c → 0 < c → x ≤ y
cancel x y c h p = elim (Bool-cases (leb x y)) [
  | inl e ↦ leb→le x y e
  | inr e ↦
      let more = mul-lt-mul_of_pos_right {m = y} {n = x} {k = c} (ground (arith, e)) p in
      omega arith
]

cancel_eq : (x y c : ℕ) → x * c ≡ y * c → 0 < c → x ≡ y
cancel_eq x y c h p =
    let below = cancel x y c (omega arith) p in
    let above = cancel y x c (omega arith) p in omega arith

times : (x y c : ℕ) → x ≤ y → x * c ≤ y * c
times x y c h = mul-le-mul_right c h

-- Rounding does not see a common factor.
pub IsRounded-scale :
    (mode : Mode) (n d c m : ℕ) → IsRounded mode n d m → 0 < c → IsRounded mode (n * c) (d * c) m
unfolding IsRounded
IsRounded-scale down n d c m (a, b) p =
    let u = times (m * d) n c a in
    let v = mul-lt-mul_of_pos_right {m = n} {n = (m + 1) * d} {k = c} b p in
    (omega arith, omega arith)
IsRounded-scale half_up n d c m (a, b) p =
    let u = times (2 * (m * d)) (2 * n + d) c a in
    let v = mul-lt-mul_of_pos_right {m = 2 * n + d} {n = 2 * ((m + 1) * d)} {k = c} b p in
    (omega arith, omega arith)
IsRounded-scale half_even n d c m (a, b, e) p =
    let u = times (2 * (m * d)) (2 * n + d) c a in
    let v = times (2 * n + d) (2 * ((m + 1) * d)) c b in
    (
      omega arith,
      omega arith,
      λ t. e (elim t [
        | inl w ↦ inl (cancel_eq (2 * (m * d)) (2 * n + d) c (omega arith) p)
        | inr w ↦ inr (cancel_eq (2 * n + d) (2 * ((m + 1) * d)) c (omega arith) p)
      ]),
    )
