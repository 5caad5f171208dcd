-- ===== src/Orm/Fleet.antt =====
-- The guarded rollout over a fleet of tenants (frust-kernel/orm/src/fleet.rs). The migration of one
-- tenant and the writes of checkpoints are parameters, which answer for each tenant whether they
-- succeed. A cohort's id is the hash itself, not its text of hexadecimal digits.
pub mod Plan
pub mod Rollout
use frust.Prelude.{
  ℕ, zero, suc, ◌+◌, ◌-◌, ◌*◌, ◌/◌, ◌%◌, ◌^◌, ◌≤◌, ◌<◌, min, max, compare, Ordering, ◌≡◌, refl, sym,
  ap, ◌∙◌, subst, ◌≢◌, ◌↔◌, ◌⊎◌, inl, inr, Bool, true, false, not, ◌&&◌, ◌||◌, Option, none, some,
  List, [], ◌∷◌, ◌++◌, map, append-nil, append_assoc, arith, ltb, leb, ◌==◌, if◌then◌else◌, ==_iff,
  ltb→lt, leb→le, Bool-cases, Option-cases, bool_eq, length, take, drop, get_elem?, any, filter,
  find, is_empty, length-append, All, All-append, All-map, In, In-append_left, In-append_right,
  In-append,
}
use frust.Prelude.Text.{
  Text, codes, text_eq, text_eq_sound, text_eq_refl, text_eq_iff, text_ltb, text_ltb_irrefl,
  text_ltb_trans, text_ltb_total, contains, contains-In, In-contains,
}
use frust.Prelude.Result.{Result, ok, err, ◌>>=◌}
use Prim.Native.Nat.{bit_xor}

pub data FleetStage : Type 0 where
  canary rollout : FleetStage

pub data Refusal : Type 0 where
  dry_run_evidence duplicate_tenant canary_too_large evidence_absent : Refusal
  checkpoint_incomplete : List Text → Refusal

pub record FleetRolloutPlan : Type 0 where
  pub stage : FleetStage
  pub canary_size : ℕ
  pub cohort_id : ℕ
  pub active : List Text
  pub targets : List Text
  pub completed : List Text
  pub pending : List Text

-- `hash ^= b; hash = hash.wrapping_mul(0x100000001b3)` on `u64`
unfoldable pub fnv_round : ℕ → ℕ → ℕ
fnv_round hash b = bit_xor hash b * 0x100000001b3 % 2 ^ 64

unfoldable pub fnv_bytes : ℕ → Text → ℕ
unfolding fnv_round
fnv_bytes hash [] = hash
fnv_bytes hash (b ∷ bs) = fnv_bytes (fnv_round hash b) bs

unfoldable pub fnv_parts : ℕ → List Text → ℕ
unfolding fnv_bytes
fnv_parts hash [] = hash
fnv_parts hash (p ∷ ps) = fnv_parts (fnv_round (fnv_bytes hash p) 0xff) ps

-- `fnv1a_hex`, before it is printed
unfoldable pub fnv1a : List Text → ℕ
unfolding fnv_parts
fnv1a parts = fnv_parts 0xcbf29ce484222325 parts

-- `active.sort()`
unfoldable pub insert_text : Text → List Text → List Text
insert_text t [] = t ∷ []
insert_text t (u ∷ us) =
    let rest = insert_text t us in if text_ltb u t then u ∷ rest else t ∷ u ∷ us

unfoldable pub sort_texts : List Text → List Text
unfolding insert_text
sort_texts [] = []
sort_texts (t ∷ ts) = insert_text t (sort_texts ts)

-- `windows(2).any(|pair| pair[0] == pair[1])`
unfoldable pub has_twins : List Text → Bool
has_twins [] = false
has_twins (t ∷ []) = false
has_twins (t ∷ u ∷ us) = text_eq t u || has_twins (u ∷ us)

abbrev pub done_of : List Text → List Text → List Text
done_of done ts = filter (λ t. contains done t) ts

abbrev pub undone_of : List Text → List Text → List Text
undone_of done ts = filter (λ t. not (contains done t)) ts

abbrev pub has_id : List ℕ → ℕ → Bool
has_id ids n = any (λ i. i == n) ids

abbrev pub targets_of : FleetStage → ℕ → List Text → List Text
targets_of canary n active = take n active
targets_of rollout n active = active

-- The plan itself, behind the checks.
abbrev pub make_plan : FleetStage → ℕ → List Text → List Text → FleetRolloutPlan
make_plan stage n active done = record {
  stage = stage;
  canary_size = n;
  cohort_id = fnv1a (take n active);
  active = active;
  targets = targets_of stage n active;
  completed = done_of done (targets_of stage n active);
  pending = undone_of done (targets_of stage n active);
}

abbrev pub is_rollout : FleetStage → Bool
is_rollout rollout = true
is_rollout canary = false

-- The checks on the sorted tenants; `n` is not zero.
unfoldable pub plan_sorted :
    FleetStage → ℕ → List Text → List Text → List ℕ → Result Refusal FleetRolloutPlan
plan_sorted stage n active done evidence =
    if has_twins active
    then err duplicate_tenant
    else if ltb (length active) n
    then err canary_too_large
    else if is_rollout stage && not (has_id evidence (fnv1a (take n active)))
    then err evidence_absent
    else if is_rollout stage && not (is_empty (undone_of done (take n active)))
    then err (checkpoint_incomplete (undone_of done (take n active)))
    else ok (make_plan stage n active done)

unfoldable pub plan_rollout :
    FleetStage → ℕ → List Text → List Text → List ℕ → Result Refusal FleetRolloutPlan
plan_rollout stage n active done evidence = plan_sorted stage n (sort_texts active) done evidence

-- What became of the migration of a tenant: done, an error in its report, or an error of the call.
pub data TenantResult : Type 0 where
  migrated_ok reported_errors call_failed : TenantResult

pub record FleetReport : Type 0 where
  pub migrated : List Text
  pub already_done : List Text
  pub failed : List Text
  pub checkpoint_failed : List Text
  pub halted : Bool

abbrev pub empty_fleet_report : FleetReport
empty_fleet_report = record {
  migrated = [];
  already_done = [];
  failed = [];
  checkpoint_failed = [];
  halted = false;
}

-- `FleetReport::is_promotable`
abbrev pub is_promotable : FleetReport → Bool
is_promotable r = is_empty r.failed && (is_empty r.checkpoint_failed && not r.halted)

-- The checkpoints that stand in the platform database for this run: the tenants that are done, and
-- the cohorts with canary evidence.
pub record Checkpoints : Type 0 where
  pub done : List Text
  pub evidence : List ℕ

module _ (migrate : Text → TenantResult) (writes : Text → Bool) (halt_on_failure : Bool) where
  -- A round of the loop over the targets, against the done set of the start.
  unfoldable pub visit : List Text → Text → Checkpoints → FleetReport → Checkpoints × FleetReport
  visit done t cp r =
      let failing : FleetReport = record r {
        failed = r.failed ++ t ∷ [];
        halted = halt_on_failure;
      } in
      if contains done t
      then (cp, record r { already_done = r.already_done ++ t ∷ [] })
      else elim (migrate t) [
        | migrated_ok ↦
            if writes t
            then (record cp { done = t ∷ cp.done }, record r { migrated = r.migrated ++ t ∷ [] })
            else (
              cp,
              record r {
                migrated = r.migrated ++ t ∷ [];
                checkpoint_failed = r.checkpoint_failed ++ t ∷ [];
              },
            )
        | reported_errors ↦ (cp, failing)
        | call_failed ↦ (cp, failing)
      ]

  -- The loop, which a failure with `halt_on_failure` breaks.
  unfoldable pub fan_out :
      List Text → List Text → Checkpoints → FleetReport → Checkpoints × FleetReport
  fan_out done [] cp r = (cp, r)
  fan_out done (t ∷ ts) cp r =
      let now = visit done t cp r in
      let rest = fan_out done ts now.0 now.1 in if now.1.halted then now else rest

-- What records the canary cohort at the end of a canary stage; `saves` says whether that write succeeds.
unfoldable pub record_evidence :
    (saves : Bool) → FleetRolloutPlan → Checkpoints × FleetReport → Checkpoints × FleetReport
record_evidence saves p (cp, r) =
    if not (is_rollout p.stage) && is_promotable r
    then (if saves then (record cp { evidence = p.cohort_id ∷ cp.evidence }, r) else (
      cp,
      record r { checkpoint_failed = r.checkpoint_failed ++ codes "canary-stage" ∷ [] },
    ))
    else (cp, r)

-- `migrate_fleet_inner` for a guarded stage, from the checkpoints that stand; it does nothing where
-- schemas are not deployed for each tenant.
module _ (migrate : Text → TenantResult) (writes : Text → Bool)
    (saves halt_on_failure dry_run per_tenant : Bool) where
  unfoldable pub run_stage :
      FleetStage → ℕ → List Text → Checkpoints → Result Refusal (Checkpoints × FleetReport)
  unfolding record_evidence
  run_stage stage n active cp =
      if dry_run
      then err dry_run_evidence
      else if not per_tenant
      then ok (cp, empty_fleet_report)
      else do
        p ← plan_rollout stage n active cp.done cp.evidence
        ok (
            record_evidence saves p
              (fan_out migrate writes halt_on_failure cp.done p.targets cp empty_fleet_report))
