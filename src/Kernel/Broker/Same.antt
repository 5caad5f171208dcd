-- ===== src/Kernel/Broker/Same.antt =====
-- When two values are the same (frust-kernel/kernel/src/broker.rs, `same_value`).
use Prim.Native.Nat.compare as Compare
use frust.Prelude.{
  ℕ, zero, suc, max, compare, Ordering, ◌≡◌, refl, ap, ◌∙◌, Bool, true, false, not, ◌&&◌, Option,
  none, some, arith, ==_iff, bool_eq,
}
use frust.Prelude.Text.{Text, text_eq_refl}
use frust.Prelude.Int.{ℤ, pos, negsuc}
use frust.Kernel.Contract.{
  Value, null, bool, int, float, decimal, text, datetime, duration, record_id, list, object, Values,
  nil, cons, Entries, end, entry,
}
use frust.Kernel.Decimal.{Decimal, rescaled, cmp, cmp_ℤ}
use frust.Kernel.Broker.{
  is_nan, float_eq, value_eq, values_eq, entries_eq, as_num, same_num, is_eq, same_value,
}

compare_refl : (n : ℕ) → compare n n ≡ Ordering.eq
compare_refl zero = refl
compare_refl (suc n) = Compare.suc-suc n n ∙ compare_refl n

cmp_ℤ_refl : (a : ℤ) → cmp_ℤ a a ≡ Ordering.eq
cmp_ℤ_refl (pos n) = compare_refl n
cmp_ℤ_refl (negsuc n) = compare_refl n

cmp_refl : (d : Decimal) → cmp d d ≡ Ordering.eq
unfolding cmp
cmp_refl d = cmp_ℤ_refl (rescaled d (max d.scale d.scale)).mantissa

-- No `f64` in the value is not-a-number.
unfoldable mutual
  pub no_nan : Value → Bool
  no_nan (float x) = not (is_nan x)
  no_nan (list vs) = no_nans vs
  no_nan (object es) = no_nan_entries es
  no_nan _ = true

  pub no_nans : Values → Bool
  no_nans nil = true
  no_nans (cons v vs) = no_nan v && no_nans vs

  pub no_nan_entries : Entries → Bool
  no_nan_entries end = true
  no_nan_entries (entry k v es) = no_nan v && no_nan_entries es

bool_eq_refl : (b : Bool) → bool_eq b b ≡ true
bool_eq_refl true = refl
bool_eq_refl false = refl

float_eq_refl : (x : ℕ) → not (is_nan x) ≡ true → float_eq x x ≡ true
unfolding float_eq
float_eq_refl x h = rw (h, (==_iff x x).1 refl) refl

mutual
  unfolding value_eq no_nan

  value_eq_refl : (v : Value) → no_nan v ≡ true → value_eq v v ≡ true
  value_eq_refl null h = refl
  value_eq_refl (bool b) h = bool_eq_refl b
  value_eq_refl (int s n) h = rw (bool_eq_refl s) ((==_iff n n).1 refl)
  value_eq_refl (float x) h = float_eq_refl x h
  value_eq_refl (decimal a) h = text_eq_refl a
  value_eq_refl (text a) h = text_eq_refl a
  value_eq_refl (datetime a) h = text_eq_refl a
  value_eq_refl (duration a) h = text_eq_refl a
  value_eq_refl (record_id a) h = text_eq_refl a
  value_eq_refl (list vs) h = values_eq_refl vs h
  value_eq_refl (object es) h = entries_eq_refl es h

  values_eq_refl : (vs : Values) → no_nans vs ≡ true → values_eq vs vs ≡ true
  values_eq_refl nil h = refl
  values_eq_refl (cons v vs) h =
      rw (value_eq_refl v (ground (arith, h))) (values_eq_refl vs (ground (arith, h)))

  entries_eq_refl : (es : Entries) → no_nan_entries es ≡ true → entries_eq es es ≡ true
  entries_eq_refl end h = refl
  entries_eq_refl (entry k v es) h =
      rw (text_eq_refl k, value_eq_refl v (ground (arith, h)))
        (entries_eq_refl es (ground (arith, h)))

-- A value without not-a-number is the same as itself.
pub same_value_refl :
    (show_float : ℕ → Text) (v : Value) → no_nan v ≡ true → same_value show_float v v ≡ true
unfolding same_value
same_value_refl show_float v h = by_num (as_num show_float v)
  where
    by_num : (n : Option Decimal) → same_num n n (value_eq v v) ≡ true
    by_num none = value_eq_refl v h
    by_num (some d) = ap is_eq (cmp_refl d)
