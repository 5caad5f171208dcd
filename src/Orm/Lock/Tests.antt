-- ===== src/Orm/Lock/Tests.antt =====
-- Two runners and a slow one.
use frust.Prelude.{ℕ, ◌≡◌, refl, true, false, some, arith}
use frust.Prelude.Text.{Text, codes, text_eq}
use frust.Orm.Lock.{
  LockRow, lock_acquire, held, World, statement_of, advance, later, start, touched, Reach,
}
use frust.Orm.Lock.Exclusive.{Reach-exclusive}

abbrev slow : Text
slow = codes "slow"

abbrev ann : Text
ann = codes "ann"

abbrev bob : Text
bob = codes "bob"

abbrev a_row : Text → ℕ → LockRow
a_row h t = record { holder = h; at = some t }

-- A fresh lock is refused, a stale one is taken over.
refused : lock_acquire ann 300 (some (a_row slow 0)) ≡ (some (a_row slow 0), false)
unfolding lock_acquire
refused = refl

taken_over : lock_acquire ann 301 (some (a_row slow 0)) ≡ (some (a_row ann 301), true)
unfolding lock_acquire
taken_over = refl

abbrev held_by_ann : World
held_by_ann = advance ann start

abbrev since_ann : Text → ℕ
since_ann = touched (λ h. 0) ann 0

reach_ann : Reach held_by_ann since_ann
reach_ann = Reach.act ann (λ c. cc) Reach.begin

-- The slow runner's lock is stale. Both others see it; ann steals it, and bob deletes the lock of ann.
abbrev race : World
race = advance bob (
    advance bob (
      advance ann (
        advance ann (
          advance bob (advance ann (advance bob (advance ann (later 400 (advance slow start)))))))))

both_hold : (race.phase ann ≡ held) × (race.phase bob ≡ held)
unfolding statement_of text_eq
both_hold = (refl, refl)

Reach-exclusive_example : ann ≡ ann
unfolding statement_of text_eq
Reach-exclusive_example =
    Reach-exclusive held_by_ann since_ann ann ann reach_ann (refl, omega arith) (refl, omega arith)
