-- ===== src/Orm/Lock/Exclusive.antt =====
-- At most one runner in its term at a time (frust-kernel/orm/src/lib.rs, `lock_acquire` and
-- `lock_release`).
use frust.Prelude.{
  ℕ, ◌+◌, ◌≤◌, ◌≡◌, refl, sym, ap, ◌∙◌, subst, ◌≢◌, inl, inr, Bool, true, false, Option, none, some,
  arith, if◌then◌else◌, Bool-cases,
}
use frust.Prelude.Text.{Text, text_eq, text_eq_sound, text_eq_refl}
use frust.Orm.Lock.{
  LockRow, lock_stale_secs, lock_try_create, lock_is_stale, lock_release, Phase, idle, checking,
  stealing, retrying, held, finished, World, set_phase, moved, with_table, after_create,
  statement_of, after_check, touched, Reach, begin, pass, act, check, set_phase-cases,
}

-- The runner took the lock no longer ago than a lock lives.
abbrev pub InTerm : World → (Text → ℕ) → Text → Type 0
InTerm w since k = (w.phase k ≡ held) × (w.now ≤ since k + lock_stale_secs)

abbrev row_of : Text → ℕ → LockRow
row_of k t = record { holder = k; at = some t }

-- Who is in its term has the record, and nobody stands between a check and a deletion.
pub record IsGuarded (w : World) (since : Text → ℕ) : Type 0 where
  pub owned : (k : Text) → InTerm w since k → w.table ≡ some (row_of k (since k))
  pub unstolen : (k : Text) → w.phase k ≢ stealing

no_row : {r : LockRow} → ¬ (none ≡ some r)
no_row c = cc

some_injective : {r s : LockRow} → some r ≡ some s → r ≡ s
some_injective h = cc

clash : ¬ (true ≡ false)
clash c = cc

touched_self : (since : Text → ℕ) (h : Text) (now : ℕ) → touched since h now h ≡ now
touched_self since h now = rw (text_eq_refl h) refl

touched_other :
    (since : Text → ℕ) (h k : Text) (now : ℕ)
    → text_eq k h ≡ false
    → touched since h now k ≡ since k
touched_other since h k now e = rw e refl

-- A statement of `h` that leaves it in the phase `p` and the table at `t`, where the record of any
-- other runner in its term is left.
module _ (w : World) (since : Text → ℕ) (h : Text) (p : Phase) (t : Option LockRow)
    (records : (k : Text) → InTerm w since k → w.table ≡ some (row_of k (since k)))
    (unstolen_by : (k : Text) → text_eq k h ≡ false → w.phase k ≢ stealing) where
  stated-IsGuarded :
      (p ≢ stealing)
      → (p ≡ held → t ≡ some (row_of h w.now))
      → ((k : Text)
          → text_eq k h ≡ false
          → w.table ≡ some (row_of k (since k))
          → w.now ≤ since k + lock_stale_secs
          → t ≡ some (row_of k (since k)))
      → IsGuarded (with_table w t h p) (touched since h w.now)
  stated-IsGuarded calm own others = record {
    owned = λ k (phase, term). elim (set_phase-cases w.phase h p k) [
      | inl (same, q) ↦
          own (sym q ∙ phase)
          ∙ ap some (
              ap (λ j. row_of j w.now) (sym same)
              ∙ ap (row_of k)
                  (sym (touched_self since h w.now) ∙ ap (touched since h w.now) (sym same)))
      | inr (apart, q) ↦
          let e = touched_other since h k w.now apart in
          let within : w.now ≤ since k + lock_stale_secs =
            subst (λ n. w.now ≤ n + lock_stale_secs) e term in
          others k apart (records k (sym q ∙ phase, within)) within
          ∙ ap (λ n. some (row_of k n)) (sym e)
    ];
    unstolen = λ k s. elim (set_phase-cases w.phase h p k) [
      | inl (same, q) ↦ calm (sym q ∙ s)
      | inr (apart, q) ↦ unstolen_by k apart (sym q ∙ s)
    ];
  }

module _ (w : World) (since : Text → ℕ) (h : Text) (g : IsGuarded w since) where
  create-IsGuarded :
      (otherwise : Phase) (t : Option LockRow)
      → w.table ≡ t
      → (otherwise ≢ stealing)
      → (otherwise ≢ held)
      → let (t', got) = lock_try_create h w.now t in
        IsGuarded (with_table w t' h (after_create got otherwise)) (touched since h w.now)
  unfolding lock_try_create
  create-IsGuarded otherwise none e calm free =
      stated-IsGuarded w since h held (some (row_of h w.now)) g.owned (λ k apart. g.unstolen k)
        (λ c. cc) (λ c. refl) (λ k apart found term. absurd (no_row (sym e ∙ found)))
  create-IsGuarded otherwise (some row) e calm free =
      stated-IsGuarded w since h otherwise (some row) g.owned (λ k apart. g.unstolen k) calm
        (λ c. absurd (free c)) (λ k apart found term. sym e ∙ found)

  release-IsGuarded :
      (t : Option LockRow)
      → w.table ≡ t
      → IsGuarded (with_table w (lock_release h t) h finished) (touched since h w.now)
  unfolding lock_release
  release-IsGuarded t e =
      stated-IsGuarded w since h finished (lock_release h t) g.owned (λ k apart. g.unstolen k)
        (λ c. cc) (λ c. cc)
        (λ k apart found term. ap (lock_release h) (sym e ∙ found) ∙ rw apart refl)

  kept-IsGuarded :
      (p : Phase)
      → (p ≢ stealing)
      → (p ≢ held)
      → IsGuarded (with_table w w.table h p) (touched since h w.now)
  kept-IsGuarded p calm free =
      stated-IsGuarded w since h p w.table g.owned (λ k apart. g.unstolen k) calm
        (λ c. absurd (free c)) (λ k apart found term. found)

  idle-IsGuarded : w.phase h ≡ finished → IsGuarded w (touched since h w.now)
  idle-IsGuarded e = record {
    owned = λ k (phase, term). elim (Bool-cases (text_eq k h)) [
      | inl same ↦ absurd (done (sym e ∙ (ap w.phase (sym (text_eq_sound k h same)) ∙ phase)))
      | inr apart ↦
          let q = touched_other since h k w.now apart in
          g.owned k (phase, subst (λ n. w.now ≤ n + lock_stale_secs) q term)
          ∙ ap (λ n. some (row_of k n)) (sym q)
    ];
    unstolen = g.unstolen;
  }
    where
      done : ¬ (finished ≡ held)
      done c = cc

  -- A record that is deleted as stale is of no runner in its term.
  stale-apart :
      (k : Text)
      → lock_is_stale w.now w.table ≡ true
      → w.table ≡ some (row_of k (since k))
      → w.now ≤ since k + lock_stale_secs
      → ⊥
  stale-apart k stale found term = young (sym (ap (lock_is_stale w.now) found) ∙ stale)
    where
      young : ¬ (lock_is_stale w.now (some (row_of k (since k))) ≡ true)
      young c = unfold lock_is_stale in ground arith

  steal-IsGuarded :
      lock_is_stale w.now w.table ≡ true
      → IsGuarded (statement_of stealing h (moved w h stealing)) (touched since h w.now)
  unfolding statement_of
  steal-IsGuarded stale =
      stated-IsGuarded (moved w h stealing) since h retrying none
        (λ k (phase, term). elim (set_phase-cases w.phase h stealing k) [
          | inl (same, q) ↦ absurd (apart_phases (sym q ∙ phase))
          | inr (apart, q) ↦ g.owned k (sym q ∙ phase, term)
        ])
        (λ k apart s. g.unstolen k (sym (others k apart) ∙ s)) (λ c. cc) (λ c. cc)
        (λ k apart found term. absurd (stale-apart k stale found term))
    where
      apart_phases : ¬ (stealing ≡ held)
      apart_phases c = cc

      others : (k : Text) → text_eq k h ≡ false → set_phase w.phase h stealing k ≡ w.phase k
      others k apart = rw apart refl

  check-IsGuarded :
      (b : Bool)
      → lock_is_stale w.now w.table ≡ b
      → let p : Phase = if b then stealing else finished in
        IsGuarded (statement_of p h (moved w h p)) (touched since h w.now)
  unfolding statement_of
  check-IsGuarded true e = steal-IsGuarded e
  check-IsGuarded false e = kept-IsGuarded finished (λ c. cc) (λ c. cc)

  advance-IsGuarded :
      (p : Phase)
      → w.phase h ≡ p
      → (p ≢ checking)
      → IsGuarded (statement_of p h w) (touched since h w.now)
  unfolding statement_of
  advance-IsGuarded idle e n = create-IsGuarded checking w.table refl (λ c. cc) (λ c. cc)
  advance-IsGuarded checking e n = absurd (n refl)
  advance-IsGuarded stealing e n = absurd (g.unstolen h e)
  advance-IsGuarded retrying e n = create-IsGuarded finished w.table refl (λ c. cc) (λ c. cc)
  advance-IsGuarded held e n = release-IsGuarded w.table refl
  advance-IsGuarded finished e n = idle-IsGuarded e

later-IsGuarded :
    (w : World) (since : Text → ℕ) (n : ℕ)
    → IsGuarded w since
    → IsGuarded (frust.Orm.Lock.later n w) since
later-IsGuarded w since n g = record {
  owned = λ k (phase, term). g.owned k (phase, omega arith);
  unstolen = g.unstolen;
}

Reach-IsGuarded : (w : World) (since : Text → ℕ) → Reach w since → IsGuarded w since
unfolding statement_of
Reach-IsGuarded w since begin = record {
  owned = λ k (phase, term). absurd (not_idle phase);
  unstolen = λ k s. not_stealing s;
}
  where
    not_idle : ¬ (idle ≡ held)
    not_idle c = cc

    not_stealing : ¬ (idle ≡ stealing)
    not_stealing c = cc
Reach-IsGuarded w since (pass {w = v} n r) = later-IsGuarded v since n (Reach-IsGuarded v since r)
Reach-IsGuarded w since (act {w = v} {since = s} h n r) =
    advance-IsGuarded v s h (Reach-IsGuarded v s r) (v.phase h) refl n
Reach-IsGuarded w since (check {w = v} {since = s} h e r) =
    check-IsGuarded v s h (Reach-IsGuarded v s r) (lock_is_stale v.now v.table) refl

-- However the statements of the runners interleave, but that a check that finds the lock stale and the
-- deletion stand together: of the runners that are holding the lock, at most one took it within
-- the 300 seconds that a lock lives.
pub Reach-exclusive :
    (w : World) (since : Text → ℕ) (h k : Text)
    → Reach w since
    → InTerm w since h
    → InTerm w since k
    → h ≡ k
Reach-exclusive w since h k r i j =
    let g = Reach-IsGuarded w since r in
    ap LockRow.holder (some_injective (sym (g.owned h i) ∙ g.owned k j))
