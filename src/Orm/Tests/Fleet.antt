-- ===== src/Orm/Tests/Fleet.antt =====
-- Tests of the guarded rollout (frust-kernel/orm/src/fleet.rs).
use mathlib.Core.List.{Permᴰ}
use frust.Prelude.{◌≡◌, refl, Bool, true, false, [], ◌∷◌}
use frust.Prelude.Text.{Text, codes, text_eq, text_ltb, contains}
use frust.Prelude.Result.{ok}
use frust.Orm.Fleet.{
  FleetStage, canary, rollout, FleetRolloutPlan, fnv1a, sort_texts, has_id, make_plan, plan_sorted,
  plan_rollout, TenantResult, migrated_ok, FleetReport, empty_fleet_report, is_promotable,
  Checkpoints, fan_out, run_stage,
}
use frust.Orm.Fleet.Rollout.{run_stage-opens_rollout}

abbrev a : Text
a = codes "a"

abbrev b : Text
b = codes "b"

-- Every tenant is migrated, and every write succeeds.
abbrev migrates : Text → TenantResult
migrates t = migrated_ok

abbrev stores : Text → Bool
stores t = true

abbrev no_checkpoints : Checkpoints
no_checkpoints = record { done = []; evidence = [] }

abbrev canary_checkpoints : Checkpoints
canary_checkpoints = record { done = a ∷ []; evidence = fnv1a (a ∷ []) ∷ [] }

abbrev canary_report : FleetReport
canary_report = record {
  migrated = a ∷ [];
  already_done = [];
  failed = [];
  checkpoint_failed = [];
  halted = false;
}

canary-run :
    run_stage migrates stores true true false true canary 1 (b ∷ a ∷ []) no_checkpoints
    ≡ ok (canary_checkpoints, canary_report)
unfolding run_stage plan_rollout plan_sorted frust.Orm.Fleet.has_twins sort_texts text_ltb text_eq
    fan_out frust.Orm.Fleet.visit contains
canary-run = refl

run_stage-opens_rollout_example :
    plan_rollout rollout 1 (b ∷ a ∷ []) (a ∷ []) (fnv1a (a ∷ []) ∷ [])
    ≡ ok (make_plan rollout 1 (sort_texts (b ∷ a ∷ [])) (a ∷ []))
run_stage-opens_rollout_example =
    run_stage-opens_rollout migrates stores true false 1 (b ∷ a ∷ []) no_checkpoints
      canary_checkpoints canary_report canary-run refl

abbrev rollout_plan : FleetRolloutPlan
rollout_plan = make_plan rollout 1 (a ∷ b ∷ []) (a ∷ [])

rollout-planned :
    plan_rollout rollout 1 (b ∷ a ∷ []) (a ∷ []) (fnv1a (a ∷ []) ∷ []) ≡ ok rollout_plan
unfolding plan_rollout plan_sorted frust.Orm.Fleet.has_twins sort_texts text_ltb text_eq fnv1a
    contains
rollout-planned = refl

abbrev canary_plan : FleetRolloutPlan
canary_plan = make_plan canary 1 (a ∷ b ∷ []) []

canary-planned : plan_rollout canary 1 (b ∷ a ∷ []) [] [] ≡ ok canary_plan
unfolding plan_rollout plan_sorted frust.Orm.Fleet.has_twins sort_texts text_ltb text_eq
canary-planned = refl

abbrev swapped : Permᴰ (a ∷ b ∷ []) (b ∷ a ∷ [])
swapped = Permᴰ.swap refl refl

-- The loop from no checkpoints.
abbrev both : Checkpoints × FleetReport
both = fan_out migrates stores true [] (a ∷ b ∷ []) no_checkpoints empty_fleet_report

both-promotable : is_promotable both.1 ≡ true
unfolding fan_out frust.Orm.Fleet.visit contains
both-promotable = refl
