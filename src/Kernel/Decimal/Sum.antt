-- ===== src/Kernel/Decimal/Sum.antt =====
-- Batches of amounts of any scales (frust-kernel/kernel/src/decimal.rs, `add`).
use frust.Prelude.{ℕ, ◌+◌, ◌^◌, ◌≤◌, ◌<◌, ◌≡◌, ap, ◌∙◌, List, [], ◌∷◌, arith, All}
use frust.Prelude.Int.{ℤ, pos, magnitude, ◌+ℤ◌, +ℤ_assoc}
use frust.Kernel.Decimal.{Decimal, add}
use frust.Kernel.Decimal.Tens.{level, add-level}

-- The amounts, one after the other, into an accumulator
unfoldable pub fold : Decimal → List Decimal → Decimal
unfolding add
fold acc [] = acc
fold acc (d ∷ ds) = fold (add acc d) ds

-- The sum of the mantissas at the scale `s`, and of their magnitudes
unfoldable pub total : ℕ → List Decimal → ℤ
total s [] = pos 0
total s (d ∷ ds) = level s d +ℤ total s ds

abbrev pub magnitudes : ℕ → List Decimal → ℕ
magnitudes s [] = 0
magnitudes s (d ∷ ds) = magnitude (level s d) + magnitudes s ds

magnitude-+ℤ : (a b : ℤ) → magnitude (a +ℤ b) ≤ magnitude a + magnitude b
unfolding ◌+ℤ◌
magnitude-+ℤ a b = ground arith

-- Amounts of any scales are summed without loss: at a scale `s` that none of them exceeds, the sum that
-- `add` folds is the sum of the amounts, if their magnitudes at that scale stay together below
-- 2 ^ 127, as does 10 ^ s.
pub fold_exact :
    (s : ℕ) (acc : Decimal) (ds : List Decimal)
    → 10 ^ s < 2 ^ 127
    → All (λ (d : Decimal). d.scale ≤ s) (acc ∷ ds)
    → magnitudes s (acc ∷ ds) < 2 ^ 127
    → level s (fold acc ds) ≡ total s (acc ∷ ds)
unfolding fold total
fold_exact s acc [] p all h = plus_zero (level s acc)
  where
    plus_zero : (m : ℤ) → m ≡ m +ℤ pos 0
    plus_zero m = unfold ◌+ℤ◌ in ground arith
fold_exact s acc (d ∷ ds) p (ha, (hd, rest)) h =
    let (sum, fits) = add-level acc d s ha hd p (omega arith) in
    let small = magnitude-+ℤ (level s acc) (level s d) in
    fold_exact s (add acc d) ds p (fits, rest) (omega (arith, small, ap magnitude sum))
    ∙ (ap (λ m. m +ℤ total s ds) sum ∙ +ℤ_assoc (level s acc) (level s d) (total s ds))
