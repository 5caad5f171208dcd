-- ===== src/Kernel/Decimal/Tens.antt =====
-- Amounts of any scales, carried to one scale (frust-kernel/kernel/src/decimal.rs, `rescaled`, `add`).
use frust.Prelude.{
  ℕ, zero, suc, ◌+◌, ◌-◌, ◌*◌, ◌^◌, ◌≤◌, ◌<◌, max, ◌≡◌, refl, sym, ap, ◌∙◌, subst, inl, inr, false,
  not, arith, leb, Bool-cases, bool_eq,
}
use native.Mathlib.Nat.{zero-add, suc-add, pow-suc}
use frust.Prelude.Int.{signed-magnitude}
use frust.Prelude.Int.{ℤ, pos, negsuc, magnitude, signed, is_negative, ◌+ℤ◌}
use frust.Kernel.Decimal.{Decimal, i128_bound, saturating, saturating_mul, wrapped, rescaled, add}

-- One zero more behind an integer
abbrev pub ten : ℤ → ℤ
ten (pos n) = pos (10 * n)
ten (negsuc n) = negsuc (10 * n + 9)

-- `n` zeros more
unfoldable pub tens : ℕ → ℤ → ℤ
tens zero m = m
tens (suc n) m = ten (tens n m)

ten_sum : (a b : ℤ) → ten (a +ℤ b) ≡ ten a +ℤ ten b
unfolding ◌+ℤ◌
ten_sum a b = ground arith

pub tens_sum : (n : ℕ) (a b : ℤ) → tens n (a +ℤ b) ≡ tens n a +ℤ tens n b
unfolding tens
tens_sum zero a b = refl
tens_sum (suc n) a b = ap ten (tens_sum n a b) ∙ ten_sum (tens n a) (tens n b)

pub tens-tens : (n k : ℕ) (m : ℤ) → tens n (tens k m) ≡ tens (n + k) m
unfolding tens
tens-tens zero k m = ap (λ i. tens i m) (sym (zero-add k))
tens-tens (suc n) k m = ap ten (tens-tens n k m) ∙ ap (λ i. tens i m) (sym (suc-add n k))

ten-magnitude : (m : ℤ) → magnitude (ten m) ≡ 10 * magnitude m
ten-magnitude m = ground arith

ten-sign : (m : ℤ) → is_negative (ten m) ≡ is_negative m
ten-sign m = ground arith

pub tens-sign : (n : ℕ) (m : ℤ) → is_negative (tens n m) ≡ is_negative m
unfolding tens
tens-sign zero m = refl
tens-sign (suc n) m = ten-sign (tens n m) ∙ tens-sign n m

pub tens-magnitude : (n : ℕ) (m : ℤ) → magnitude (tens n m) ≡ magnitude m * 10 ^ n
unfolding tens
tens-magnitude zero m = omega arith
tens-magnitude (suc n) m =
    ten-magnitude (tens n m)
    ∙ (ap (λ k. 10 * k) (tens-magnitude n m)
        ∙ (shuffle (magnitude m) (10 ^ n) ∙ ap (λ p. magnitude m * p) (sym (pow-suc 10 n))))
  where
    shuffle : (a p : ℕ) → 10 * (a * p) ≡ a * (p * 10)
    shuffle a p = grind arith

pub tens-grows : (n : ℕ) (m : ℤ) → magnitude m ≤ magnitude (tens n m)
unfolding tens
tens-grows zero m = omega arith
tens-grows (suc n) m = omega (arith, tens-grows n m, ten-magnitude (tens n m))

pow-grows : (n k : ℕ) → 10 ^ n ≤ 10 ^ (k + n)
pow-grows n zero = omega (arith, ap (λ i. 10 ^ i) (zero-add n))
pow-grows n (suc k) =
    omega (arith, pow-grows n k, ap (λ i. 10 ^ i) (suc-add k n), pow-suc 10 (k + n))

pub saturating_small : (m : ℤ) → magnitude m < 2 ^ 127 → saturating m ≡ m
unfolding saturating i128_bound
saturating_small (pos n) h = ap pos (omega arith)
saturating_small (negsuc n) h = ap negsuc (omega arith)

wrapped_small : (n : ℕ) → n < 2 ^ 127 → wrapped false n ≡ pos n
unfolding wrapped i128_bound
wrapped_small n h = ground arith

product_sign : (m : ℤ) (n : ℕ) → not (bool_eq (is_negative m) false) ≡ is_negative m
product_sign (pos k) n = refl
product_sign (negsuc k) n = refl

saturating_mul-tens :
    (n : ℕ) (m : ℤ) → magnitude (tens n m) < 2 ^ 127 → saturating_mul m (pos (10 ^ n)) ≡ tens n m
saturating_mul-tens n m h =
    let whole : signed (not (bool_eq (is_negative m) false)) (magnitude m * 10 ^ n) ≡ tens n m =
      ap (λ b. signed b (magnitude m * 10 ^ n)) (product_sign m n ∙ sym (tens-sign n m))
      ∙ (ap (signed (is_negative (tens n m))) (sym (tens-magnitude n m))
          ∙ signed-magnitude (tens n m)) in
    ap saturating whole ∙ saturating_small (tens n m) h

-- The mantissa of an amount at the scale `s`
abbrev pub level : ℕ → Decimal → ℤ
level s d = tens (s - d.scale) d.mantissa

rescaled-level :
    (d : Decimal) (s : ℕ)
    → d.scale ≤ s
    → 10 ^ s < 2 ^ 127
    → magnitude (level s d) < 2 ^ 127
    → (rescaled d s).mantissa ≡ level s d
unfolding rescaled
rescaled-level d s h p l = elim (Bool-cases (leb s d.scale)) [
  | inl e ↦
      let same : s - d.scale ≡ 0 = ground arith in
      rw e (unfold tens in ap (λ n. tens n d.mantissa) (sym same))
  | inr e ↦
      let n = s - d.scale in
      let back : d.scale + n ≡ s = omega arith in
      let small : 10 ^ n < 2 ^ 127 = omega (arith, pow-grows n d.scale, ap (λ i. 10 ^ i) back) in
      rw e (
        ap (saturating_mul d.mantissa) (wrapped_small (10 ^ n) small)
        ∙ saturating_mul-tens n d.mantissa l)
]

magnitude-+ℤ : (a b : ℤ) → magnitude (a +ℤ b) ≤ magnitude a + magnitude b
unfolding ◌+ℤ◌
magnitude-+ℤ a b = ground arith

level-level : (d : Decimal) (s t : ℕ) → d.scale ≤ s → s ≤ t → tens (t - s) (level s d) ≡ level t d
level-level d s t h k =
    tens-tens (t - s) (s - d.scale) d.mantissa ∙ ap (λ n. tens n d.mantissa) (omega arith)

level-smaller :
    (d : Decimal) (s t : ℕ) → d.scale ≤ s → s ≤ t → magnitude (level s d) ≤ magnitude (level t d)
level-smaller d s t h k =
    subst (λ m. magnitude (level s d) ≤ magnitude m) (level-level d s t h k)
      (tens-grows (t - s) (level s d))

-- A sum at a scale that is at least those of the two amounts
pub add-level :
    (a b : Decimal) (t : ℕ)
    → a.scale ≤ t
    → b.scale ≤ t
    → 10 ^ t < 2 ^ 127
    → magnitude (level t a) + magnitude (level t b) < 2 ^ 127
    → (level t (add a b) ≡ level t a +ℤ level t b) × ((add a b).scale ≤ t)
unfolding add
add-level a b t h k p l =
    let s = max a.scale b.scale in
    let st : s ≤ t = omega arith in
    let ha : a.scale ≤ s = omega arith in
    let hb : b.scale ≤ s = omega arith in
    let la = level-smaller a s t ha st in
    let lb = level-smaller b s t hb st in
    let ps : 10 ^ s < 2 ^ 127 =
      omega (arith, pow-grows s (t - s), ap (λ i. 10 ^ i) (back s t st)) in
    let sum : saturating ((rescaled a s).mantissa +ℤ (rescaled b s).mantissa)
        ≡ level s a +ℤ level s b =
      ap (λ m. saturating (m +ℤ (rescaled b s).mantissa))
        (rescaled-level a s ha ps (omega (arith, la)))
      ∙ (ap (λ m. saturating (level s a +ℤ m)) (rescaled-level b s hb ps (omega (arith, lb)))
          ∙ saturating_small (level s a +ℤ level s b)
              (omega (arith, la, lb, magnitude-+ℤ (level s a) (level s b)))) in
    (
      ap (tens (t - s)) sum
          ∙ (tens_sum (t - s) (level s a) (level s b)
              ∙ (ap (λ m. m +ℤ tens (t - s) (level s b)) (level-level a s t ha st)
                  ∙ ap (λ m. level t a +ℤ m) (level-level b s t hb st))),
      st,
    )
  where
    back : (s t : ℕ) → s ≤ t → (t - s) + s ≡ t
    back s t h = omega arith
