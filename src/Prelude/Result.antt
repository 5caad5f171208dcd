-- ===== src/Prelude/Result.antt =====
-- `Result<A, E>`: a value or a typed error.

use frust.Prelude.{◌≡◌, refl, Bool, true, false, if◌then◌else◌}

pub data Result {ℓ} (Error : Type ℓ) (Value : Type ℓ) : Type ℓ where
  err : Error → Result Error Value
  ok : Value → Result Error Value

-- `?` inside a block of results: the first error ends it.
abbrev pub and_then {ℓ} : {E V W : Type ℓ} → Result E V → (V → Result E W) → Result E W
and_then m next = elim m [ err e ↦ err e | ok v ↦ next v ]

infixl 5 ◌>>=◌
abbrev pub ◌>>=◌ {ℓ} : {E V W : Type ℓ} → Result E V → (V → Result E W) → Result E W
m >>= next = and_then m next

-- What came of a block came of its first step.
pub bind-ok :
    {E V W : Type 0} (m : Result E V) (next : V → Result E W) {w : W}
    → (m >>= next) ≡ ok w
    → (v : V) × (m ≡ ok v) × (next v ≡ ok w)
bind-ok (err e) next h = absurd (ok-err h)
  where
    ok-err : {W : Type 0} {w : W} → ¬ (err e ≡ ok w)
    ok-err k = cc
bind-ok (ok v) next h = (v, refl, h)

pub ok_injective : {E V : Type 0} {v w : V} → ◌≡◌ {A = Result E V} (ok v) (ok w) → v ≡ w
ok_injective h = cc

-- A guard that let the block go on did not hold.
pub guard-ok :
    {E V : Type 0} (b : Bool) (e : E) (r : Result E V) {w : V}
    → (if b then err e else r) ≡ ok w
    → (b ≡ false) × (r ≡ ok w)
guard-ok {E} {V} true e r {w} h = absurd (refused h)
  where
    refused : ¬ (◌≡◌ {A = Result E V} (err e) (ok w))
    refused k = cc
guard-ok false e r h = (refl, h)

-- A test that let the block go on held.
pub test-ok :
    {E V : Type 0} (b : Bool) (e : E) (r : Result E V) {w : V}
    → (if b then r else err e) ≡ ok w
    → (b ≡ true) × (r ≡ ok w)
test-ok true e r h = (refl, h)
test-ok {E} {V} false e r {w} h = absurd (refused h)
  where
    refused : ¬ (◌≡◌ {A = Result E V} (err e) (ok w))
    refused k = cc
