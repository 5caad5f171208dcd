-- ===== src/Prelude/Text.antt =====
-- Text as the list of its bytes, with the tests and searches of Rust's `str` that the program uses.
use Prim.Native.Nat.{ℕ}
use Prim.Native.Char.{code}
use Prim.Native.String.{String}
use mathlib.Core.Path.{◌≡◌, refl, sym, subst}
use mathlib.Core.Logic.{◌↔◌, inl, inr}
use mathlib.Core.Bool.{Bool, true, false, ◌&&◌, ◌||◌}
use mathlib.Core.List.{List, [], ◌∷◌}
use native.Mathlib.Omega.{arith}
use frust.Prelude.Tests.{◌==◌, ltb, Bool-cases}
use frust.Prelude.Lists.{any, In}

abbrev pub Text : Type 0
Text = List ℕ

abbrev pub codes : String → Text
codes String.[] = []
codes (String.◌∷◌ c s) = code c ∷ codes s

-- `a == b`
unfoldable pub text_eq : Text → Text → Bool
text_eq [] [] = true
text_eq [] (d ∷ t) = false
text_eq (c ∷ s) [] = false
text_eq (c ∷ s) (d ∷ t) = c == d && text_eq s t

pub text_eq_sound : (s t : Text) → text_eq s t ≡ true → s ≡ t
unfolding text_eq
text_eq_sound [] [] h = refl
text_eq_sound [] (d ∷ t) h = cc
text_eq_sound (c ∷ s) [] h = cc
text_eq_sound (c ∷ s) (d ∷ t) h = ground (arith, text_eq_sound s t)

pub text_eq_refl : (s : Text) → text_eq s s ≡ true
unfolding text_eq
text_eq_refl [] = refl
text_eq_refl (c ∷ s) = ground (arith, text_eq_refl s)

pub text_eq_iff : (s t : Text) → (text_eq s t ≡ true) ↔ (s ≡ t)
text_eq_iff s t = (text_eq_sound s t, λ e. subst (λ u. text_eq s u ≡ true) e (text_eq_refl s))

-- `a < b`, the order of the bytes
unfoldable pub text_ltb : Text → Text → Bool
text_ltb s [] = false
text_ltb [] (d ∷ t) = true
text_ltb (c ∷ s) (d ∷ t) = ltb c d || (c == d && text_ltb s t)

pub text_ltb_irrefl : (s : Text) → text_ltb s s ≡ false
unfolding text_ltb
text_ltb_irrefl [] = refl
text_ltb_irrefl (c ∷ s) = ground (arith, text_ltb_irrefl s)

pub text_ltb_trans :
    (r s t : Text) → text_ltb r s ≡ true → text_ltb s t ≡ true → text_ltb r t ≡ true
unfolding text_ltb
text_ltb_trans r [] t h k = cc
text_ltb_trans r (d ∷ s) [] h k = cc
text_ltb_trans [] (d ∷ s) (e ∷ t) h k = refl
text_ltb_trans (c ∷ r) (d ∷ s) (e ∷ t) h k = ground (arith, text_ltb_trans r s t)

-- Two texts that are not equal are ordered one way or the other.
pub text_ltb_total : (s t : Text) → text_eq t s ≡ false → text_ltb s t ≡ false → text_ltb t s ≡ true
unfolding text_eq text_ltb
text_ltb_total [] [] h k = cc
text_ltb_total [] (d ∷ t) h k = cc
text_ltb_total (c ∷ s) [] h k = refl
text_ltb_total (c ∷ s) (d ∷ t) h k = ground (arith, text_ltb_total s t)

-- `list.contains(&a)` on texts
unfoldable pub contains : List Text → Text → Bool
contains xs a = any (λ x. text_eq x a) xs

pub contains-In : (xs : List Text) (a : Text) → contains xs a ≡ true → In a xs
unfolding contains
contains-In [] a h = cc
contains-In (x ∷ xs) a h = elim (Bool-cases (text_eq x a)) [
  | inl e ↦ inl (sym (text_eq_sound x a e))
  | inr n ↦ inr (contains-In xs a (ground arith))
]

pub In-contains : (xs : List Text) (a : Text) → In a xs → contains xs a ≡ true
unfolding contains
In-contains [] a h = absurd h
In-contains (x ∷ xs) a (inl e) = ground (arith, text_eq_iff x a)
In-contains (x ∷ xs) a (inr h) = ground (arith, In-contains xs a h)
