-- ===== src/Orm/Field/Compat.antt =====
-- The classifier against what a field lets a row hold (frust-kernel/orm/src/field.rs).
use frust.Prelude.{◌≡◌, ◌⊎◌, inl, inr, subst, sym, ◌∙◌, Bool-cases, Bool, true, false, arith}
use frust.Orm.Field.{
  SurrealType, int, float, decimal, type_eq, type_eq_iff, FieldSnapshot, field_eq, FieldClass, safe,
  warn, is_widening, classify_modify,
}

-- What a row holds at a field: nothing, or a value.
pub data Stored (V : Type 0) : Type 0 where
  absent : Stored V
  holds : V → Stored V

-- What the database documents of its numbers: an integer is taken for a float and for a decimal, and a
-- float for a decimal.
pub record Converts {V : Type 0} (fits : V → SurrealType → Type 0) : Type 0 where
  pub int_float : (v : V) → fits v int → fits v float
  pub int_decimal : (v : V) → fits v int → fits v decimal
  pub float_decimal : (v : V) → fits v float → fits v decimal

-- A field lets a row hold nothing if it is optional, and any value that fits its type.
abbrev pub Fits : {V : Type 0} → (V → SurrealType → Type 0) → FieldSnapshot → Stored V → Type 0
Fits fits f absent = f.optional ≡ true
Fits fits f (holds v) = fits v f.ty

-- What the definition of a field lets a row hold: what fits, and passes its `ASSERT` if it has one.
abbrev pub Accepts :
    {V : Type 0}
    → (V → SurrealType → Type 0)
    → (FieldSnapshot → Stored V → Type 0)
    → FieldSnapshot
    → Stored V
    → Type 0
Accepts fits passes f v = Fits fits f v × (f.has_assert ≡ true → passes f v)

-- The classes that are applied with no approval.
abbrev pub is_auto : FieldClass → Bool
is_auto safe = true
is_auto warn = true
is_auto _ = false

module _ {V : Type 0} (fits : V → SurrealType → Type 0) (converts : Converts fits) where
  widened-fits : (a b : SurrealType) (v : V) → is_widening a b ≡ true → fits v a → fits v b
  unfolding is_widening
  widened-fits int float v h f = converts.int_float v f
  widened-fits int decimal v h f = converts.int_decimal v f
  widened-fits float decimal v h f = converts.float_decimal v f
  widened-fits _ _ v h f = cc

  same-or-wider :
      (o n : FieldSnapshot)
      → is_auto (classify_modify o n).class ≡ true
      → (o.ty ≡ n.ty) ⊎ (is_widening o.ty n.ty ≡ true)
  unfolding classify_modify field_eq
  same-or-wider o n h = elim (Bool-cases (type_eq o.ty n.ty)) [
    | inl e ↦ inl ((type_eq_iff o.ty n.ty).0 e)
    | inr e ↦ inr (ground arith)
  ]

  auto-Fits :
      (o n : FieldSnapshot)
      → is_auto (classify_modify o n).class ≡ true
      → (v : Stored V) → Fits fits o v
      → Fits fits n v
  auto-Fits o n h absent a = unfold classify_modify field_eq in ground arith
  auto-Fits o n h (holds v) a = elim (same-or-wider o n h) [
    | inl e ↦ subst (fits v) e a
    | inr w ↦ widened-fits o.ty n.ty v w a
  ]

  -- A change that is classified as safe or as a warning, to a definition without an `ASSERT`, keeps
  -- every row that the old definition let in: nothing where the field is optional, and any value
  -- that fits the type, of which only the documented conversions between numbers are known.
  pub auto-KeepsRows :
      (passes : FieldSnapshot → Stored V → Type 0) (o n : FieldSnapshot)
      → n.has_assert ≡ false
      → is_auto (classify_modify o n).class ≡ true
      → (v : Stored V) → Accepts fits passes o v
      → Accepts fits passes n v
  auto-KeepsRows passes o n free h v a = (auto-Fits o n h v a.0, λ e. absurd (clash (sym e ∙ free)))
    where
      clash : ¬ (true ≡ false)
      clash c = cc
