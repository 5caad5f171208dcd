-- ===== src/Orm/Lock.antt =====
-- The advisory lock of a migration run, and runners that take its steps one at a time
-- (frust-kernel/orm/src/lib.rs, `lock_acquire` and what it calls). An age is in whole seconds, and the
-- statements themselves succeed.
pub mod Exclusive
mod Tests
use frust.Prelude.{
  ℕ, zero, suc, ◌+◌, ◌-◌, ◌*◌, ◌/◌, ◌%◌, ◌^◌, ◌≤◌, ◌<◌, min, max, compare, Ordering, ◌≡◌, refl, sym,
  ap, ◌∙◌, subst, ◌≢◌, ◌↔◌, ◌⊎◌, inl, inr, Bool, true, false, not, ◌&&◌, ◌||◌, Option, none, some,
  List, [], ◌∷◌, ◌++◌, map, append-nil, append_assoc, arith, ltb, leb, ◌==◌, if◌then◌else◌, ==_iff,
  ltb→lt, leb→le, Bool-cases, Option-cases, bool_eq, length, take, drop, get_elem?, any, filter,
  find, is_empty, length-append, All, All-append, All-map, In, In-append_left, In-append_right,
  In-append,
}
use frust.Prelude.Text.{
  Text, codes, text_eq, text_eq_sound, text_eq_refl, text_eq_iff, text_ltb, text_ltb_irrefl,
  text_ltb_trans, text_ltb_total, contains, contains-In, In-contains,
}

pub record LockRow : Type 0 where
  pub holder : Text
  pub at : Option ℕ

abbrev pub lock_stale_secs : ℕ
lock_stale_secs = 300

-- `lock_try_create`: the table behind it, and whether the record is ours
unfoldable pub lock_try_create : Text → ℕ → Option LockRow → Option LockRow × Bool
lock_try_create h now none = (some (record { holder = h; at = some now }), true)
lock_try_create h now (some row) = (some row, false)

-- `lock_is_stale`: no record, or one without a time, counts as stale.
unfoldable pub lock_is_stale : ℕ → Option LockRow → Bool
lock_is_stale now none = true
lock_is_stale now (some row) = elim row.at [ none ↦ true | some t ↦ ltb lock_stale_secs (now - t) ]

unfoldable pub lock_release : Text → Option LockRow → Option LockRow
lock_release h none = none
lock_release h (some row) = if text_eq row.holder h then none else some row

-- `lock_acquire` by a runner that nobody interrupts
unfoldable pub lock_acquire : Text → ℕ → Option LockRow → Option LockRow × Bool
unfolding lock_try_create lock_is_stale
lock_acquire h now table =
    let (t, got) = lock_try_create h now table in
    if got
    then (t, true)
    else if lock_is_stale now t
    then lock_try_create h now none
    else (t, false)

-- Where a runner stands between its statements
pub data Phase : Type 0 where
  idle checking stealing retrying held finished : Phase

pub record World : Type 0 where
  pub table : Option LockRow
  pub now : ℕ
  pub phase : Text → Phase

abbrev pub set_phase : (Text → Phase) → Text → Phase → Text → Phase
set_phase phase h p k = if text_eq k h then p else phase k

abbrev pub moved : World → Text → Phase → World
moved w h p = record { table = w.table; now = w.now; phase = set_phase w.phase h p }

abbrev pub with_table : World → Option LockRow → Text → Phase → World
with_table w t h p = record { table = t; now = w.now; phase = set_phase w.phase h p }

abbrev pub after_create : Bool → Phase → Phase
after_create true otherwise = held
after_create false otherwise = otherwise

-- The next statement of the runner `h`, that stands in the given phase
unfoldable pub statement_of : Phase → Text → World → World
unfolding lock_try_create lock_is_stale lock_release
statement_of idle h w =
    let (t, got) = lock_try_create h w.now w.table in with_table w t h (after_create got checking)
statement_of checking h w = moved w h (if lock_is_stale w.now w.table then stealing else finished)
statement_of stealing h w = with_table w none h retrying
statement_of retrying h w =
    let (t, got) = lock_try_create h w.now w.table in with_table w t h (after_create got finished)
statement_of held h w = with_table w (lock_release h w.table) h finished
statement_of finished h w = w

abbrev pub advance : Text → World → World
advance h w = statement_of (w.phase h) h w

abbrev pub later : ℕ → World → World
later n w = record { table = w.table; now = w.now + n; phase = w.phase }

abbrev pub start : World
start = record { table = none; now = 0; phase = λ h. idle }

-- What a check of the record decides
abbrev pub after_check : World → Phase
after_check w = if lock_is_stale w.now w.table then stealing else finished

abbrev pub touched : (Text → ℕ) → Text → ℕ → Text → ℕ
touched since h now k = if text_eq k h then now else since k

-- The worlds that the runners' steps lead to, in every order, where a runner that finds the lock
-- stale deletes it before another statement comes between; with the time of the last statement of
-- each runner, which for a runner that is holding the lock is when it took it
pub data Reach : World → (Text → ℕ) → Type 0 where
  begin : Reach start (λ h. 0)
  pass : {w : World} {since : Text → ℕ} (n : ℕ) → Reach w since → Reach (later n w) since
  act :
      {w : World} {since : Text → ℕ} (h : Text)
      → (w.phase h ≢ checking)
      → Reach w since
      → Reach (advance h w) (touched since h w.now)
  check :
      {w : World} {since : Text → ℕ} (h : Text)
      → w.phase h ≡ checking
      → Reach w since
      → Reach (statement_of (after_check w) h (statement_of checking h w)) (touched since h w.now)

pub set_phase-cases :
    (phase : Text → Phase) (h : Text) (p : Phase) (k : Text)
    → ((k ≡ h) × (set_phase phase h p k ≡ p))
      ⊎ ((text_eq k h ≡ false) × (set_phase phase h p k ≡ phase k))
set_phase-cases phase h p k = elim (Bool-cases (text_eq k h)) [
  | inl e ↦ inl (text_eq_sound k h e, rw e refl)
  | inr e ↦ inr (e, rw e refl)
]
