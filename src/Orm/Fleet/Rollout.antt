-- ===== src/Orm/Fleet/Rollout.antt =====
-- The loop of a guarded stage, and one stage after the other (frust-kernel/orm/src/fleet.rs,
-- `migrate_fleet_inner`).
use frust.Prelude.{
  ℕ, ◌≤◌, ◌≡◌, refl, sym, ap, ◌∙◌, subst, ◌⊎◌, inl, inr, Bool, true, false, List, [], ◌∷◌, ◌++◌,
  arith, Bool-cases, length, take, is_empty, All, In,
}
use frust.Prelude.Text.{Text, contains, contains-In, In-contains}
use frust.Prelude.Result.{Result, ok, err, ◌>>=◌}
use frust.Orm.Fleet.{
  FleetStage, canary, rollout, FleetRolloutPlan, fnv1a, sort_texts, has_twins, undone_of, has_id,
  make_plan, plan_sorted, plan_rollout, TenantResult, FleetReport, empty_fleet_report,
  is_promotable, Checkpoints, visit, fan_out, record_evidence, run_stage,
}
use frust.Orm.Fleet.Plan.{plan_sorted-Passed}

module _ (migrate : Text → TenantResult) (writes : Text → Bool) (halt : Bool)
    (done : List Text) where
  not_empty : (x : Text) (xs : List Text) → is_empty (xs ++ x ∷ []) ≡ false
  not_empty x [] = refl
  not_empty x (y ∷ ys) = refl

  -- A round that leaves the report promotable found it so, and leaves its tenant done if the done set
  -- of the start is among the checkpoints.
  visit-promotable :
      (t : Text) (cp : Checkpoints) (r : FleetReport)
      → is_promotable (visit migrate writes halt done t cp r).1 ≡ true
      → (is_promotable r ≡ true)
        × ((contains done t ≡ true) ⊎ In t (visit migrate writes halt done t cp r).0.done)
  unfolding visit
  visit-promotable t cp r h = ground (arith, not_empty t r.failed, not_empty t r.checkpoint_failed)

  visit-done :
      (t : Text) (cp : Checkpoints) (r : FleetReport) (u : Text)
      → In u cp.done
      → In u (visit migrate writes halt done t cp r).0.done
  unfolding visit
  visit-done t cp r u h = ground arith

  fan_out-start :
      (ts : List Text) (cp : Checkpoints) (r : FleetReport)
      → is_promotable (fan_out migrate writes halt done ts cp r).1 ≡ true
      → is_promotable r ≡ true
  unfolding fan_out
  fan_out-start [] cp r h = h
  fan_out-start (t ∷ ts) cp r h =
      let now = visit migrate writes halt done t cp r in
      ground (arith, visit-promotable t cp r, fan_out-start ts now.0 now.1)

  fan_out-done :
      (ts : List Text) (cp : Checkpoints) (r : FleetReport) (u : Text)
      → In u cp.done
      → In u (fan_out migrate writes halt done ts cp r).0.done
  unfolding fan_out
  fan_out-done [] cp r u h = h
  fan_out-done (t ∷ ts) cp r u h =
      let now = visit migrate writes halt done t cp r in
      ground (arith, visit-done t cp r u, fan_out-done ts now.0 now.1 u)

  fan_out-next :
      (t : Text) (ts : List Text) (cp : Checkpoints) (r : FleetReport)
      → let now = visit migrate writes halt done t cp r in
        now.1.halted ≡ false
        → fan_out migrate writes halt done ts now.0 now.1
          ≡ fan_out migrate writes halt done (t ∷ ts) cp r
  unfolding fan_out
  fan_out-next t ts cp r h = ground arith

  fan_out-going :
      (t : Text) (ts : List Text) (cp : Checkpoints) (r : FleetReport)
      → is_promotable (fan_out migrate writes halt done (t ∷ ts) cp r).1 ≡ true
      → (visit migrate writes halt done t cp r).1.halted ≡ false
  unfolding fan_out
  fan_out-going t ts cp r h = ground arith

  -- After a promotable pass every target is done.
  pub fan_out-All_done :
      (ts : List Text) (cp : Checkpoints) (r : FleetReport)
      → ((u : Text) → In u done → In u cp.done)
      → is_promotable (fan_out migrate writes halt done ts cp r).1 ≡ true
      → All (λ t. In t (fan_out migrate writes halt done ts cp r).0.done) ts
  fan_out-All_done [] cp r k h = tt
  fan_out-All_done (t ∷ ts) cp r k h =
      let now = visit migrate writes halt done t cp r in
      let next = fan_out-next t ts cp r (fan_out-going t ts cp r h) in
      let h' : is_promotable (fan_out migrate writes halt done ts now.0 now.1).1 ≡ true =
        ap (λ (z : Checkpoints × FleetReport). is_promotable z.1) next ∙ h in
      subst (λ (z : Checkpoints × FleetReport). All (λ u. In u z.0.done) (t ∷ ts)) next
        (
          elim (visit-promotable t cp r (fan_out-start ts now.0 now.1 h')).1 [
            | inl c ↦
                fan_out-done ts now.0 now.1 t (visit-done t cp r t (k t (contains-In done t c)))
            | inr i ↦ fan_out-done ts now.0 now.1 t i
          ],
          fan_out-All_done ts now.0 now.1 (λ u i. visit-done t cp r u (k u i)) h',
        )

done-not_undone :
    (done ts : List Text) → All (λ t. In t done) ts → is_empty (undone_of done ts) ≡ true
done-not_undone done [] h = refl
done-not_undone done (t ∷ ts) h =
    ground (arith, In-contains done t h.0, done-not_undone done ts h.1)

-- The checks of a rollout, from those of the canary pass and what it left.
rollout-admitted :
    (n : ℕ) (sorted done : List Text) (evidence : List ℕ)
    → has_twins sorted ≡ false
    → n ≤ length sorted
    → has_id evidence (fnv1a (take n sorted)) ≡ true
    → All (λ t. In t done) (take n sorted)
    → plan_sorted rollout n sorted done evidence ≡ ok (make_plan rollout n sorted done)
unfolding plan_sorted
rollout-admitted n sorted done evidence a b c d =
    ground (arith, done-not_undone done (take n sorted) d)

ok-injective : {E A : Type 0} {a b : A} → ◌≡◌ {A = Result E A} (ok a) (ok b) → a ≡ b
ok-injective h = cc

-- What an `ok` behind a last pure step says.
ok_behind :
    {E V W : Type 0} (step : V → W) {w : W} (first : Result E V)
    → first >>= (λ v. ok (step v)) ≡ ok w
    → (v : V) × (first ≡ ok v) × (step v ≡ w)
ok_behind step (err e) h = cc
ok_behind step (ok v) h = (v, refl, ok-injective h)

module _ (migrate : Text → TenantResult) (writes : Text → Bool) (halt dry : Bool) where
  run_stage-ok :
      (stage : FleetStage) (n : ℕ) (active : List Text) (cp : Checkpoints)
      {out : Checkpoints × FleetReport}
      → run_stage migrate writes true halt dry true stage n active cp ≡ ok out
      → (p : FleetRolloutPlan) × (plan_rollout stage n active cp.done cp.evidence ≡ ok p)
        × (record_evidence true p
              (fan_out migrate writes halt cp.done p.targets cp empty_fleet_report)
            ≡ out)
  unfolding run_stage
  run_stage-ok stage n active cp {out} h = elim (Bool-cases dry) [
    | inl d ↦ absurd (ground arith)
    | inr d ↦
        ok_behind
          (λ p.
            record_evidence true p
              (fan_out migrate writes halt cp.done p.targets cp empty_fleet_report))
          {w = out} (plan_rollout stage n active cp.done cp.evidence) (rw d at h)
  ]

  evidence_recorded :
      (p : FleetRolloutPlan) (z : Checkpoints × FleetReport) (cp' : Checkpoints) (r : FleetReport)
      → p.stage ≡ canary
      → record_evidence true p z ≡ (cp', r)
      → is_promotable r ≡ true
      → (cp'.done ≡ z.0.done)
        × (has_id cp'.evidence p.cohort_id ≡ true)
        × (is_promotable z.1 ≡ true)
  unfolding record_evidence
  evidence_recorded p (cpz, rz) cp' r s h k = ground arith

  -- Where schemas are deployed for each tenant, a canary stage that ends promotable, with its evidence saved, opens the rollout of the same
  -- tenants: the plan of the next stage is not refused, and its targets are the whole sorted fleet.
  pub run_stage-opens_rollout :
      (n : ℕ) (active : List Text) (cp cp' : Checkpoints) (r : FleetReport)
      → run_stage migrate writes true halt dry true canary n active cp ≡ ok (cp', r)
      → is_promotable r ≡ true
      → plan_rollout rollout n active cp'.done cp'.evidence
        ≡ ok (make_plan rollout n (sort_texts active) cp'.done)
  unfolding plan_rollout
  run_stage-opens_rollout n active cp cp' r h k =
      let (p, planned, recorded) = run_stage-ok canary n active cp h in
      let passed = plan_sorted-Passed canary n (sort_texts active) cp.done cp.evidence p planned in
      let z = fan_out migrate writes halt cp.done p.targets cp empty_fleet_report in
      let ev =
        evidence_recorded p z cp' r (ap (λ (q : FleetRolloutPlan). q.stage) (sym passed.0)) recorded
          k in
      let all =
        fan_out-All_done migrate writes halt cp.done p.targets cp empty_fleet_report (λ u i. i)
          ev.2 in
      rollout-admitted n (sort_texts active) cp'.done cp'.evidence passed.1 passed.2
        (subst (λ (q : FleetRolloutPlan). has_id cp'.evidence q.cohort_id ≡ true) (sym passed.0)
          ev.1)
        (subst (λ d. All (λ t. In t d) (take n (sort_texts active))) (sym ev.0)
          (subst (λ (q : FleetRolloutPlan). All (λ t. In t z.0.done) q.targets) (sym passed.0) all))
