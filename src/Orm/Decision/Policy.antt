-- ===== src/Orm/Decision/Policy.antt =====
-- The tables of the two policies (frust-kernel/orm/src/decision.rs, lib.rs).
use frust.Prelude.{
  ◌<◌, ◌≡◌, ap, ◌∙◌, ◌≢◌, Bool, true, false, not, ◌&&◌, ◌||◌, List, [], ◌∷◌, ◌++◌, arith, ltb, any,
  is_empty, All,
}
use frust.Orm.Field.{safe}
use frust.Orm.Classify.{ClassSummary, empty_summary, worst, FieldChangeReport, non_drop_summary}
use frust.Orm.Decision.{
  Environment, is_strict, is_allow, is_refuse, notes_of, notes, DecisionNote, decide, converge,
  refuse, BootAction, boot_action, add_summary, sum_reports, apply_decision,
}

-- Some change is of a class that needs approval.
abbrev pub has_risk : ClassSummary → Bool
has_risk s = ltb 0 s.blocked_count || ltb 0 s.backfill_count

-- The apply policy refuses exactly the risky changes of a strict environment that no operator has
-- acknowledged.
pub decide-refuse_iff :
    (env : Environment) (s : ClassSummary) (ack : Bool)
    → is_refuse (decide env s ack) ≡ (is_strict env && (not ack && has_risk s))
unfolding decide worst
decide-refuse_iff env s ack = ground arith

-- A refusal or a warning says why: it has a note, and no note is of a safe change or of none.
pub decide-notes :
    (env : Environment) (s : ClassSummary) (ack : Bool)
    → is_allow (decide env s ack) ≡ false
    → (is_empty (notes_of (decide env s ack)) ≡ false)
      × All
          (λ (n : DecisionNote). (n.severity ≢ safe) × (0 < n.changes))
          (notes_of (decide env s ack))
unfolding decide worst notes
decide-notes env s ack h = ground arith

-- Some change is no drop.
abbrev pub has_change : ClassSummary → Bool
has_change s = ltb 0 s.safe_count || (ltb 0 s.warn_count || has_risk s)

abbrev pub is_converge : BootAction → Bool
is_converge converge = true
is_converge _ = false

abbrev pub is_boot_refuse : BootAction → Bool
is_boot_refuse refuse = true
is_boot_refuse _ = false

-- Boot applies changes on its own exactly if there are some, the environment is not strict, nothing is
-- dropped and no change needs approval. It refuses exactly if there is a change or a drop, and the
-- environment is strict, something is dropped or a change needs approval. What it does not refuse, the
-- apply policy allows with no acknowledgement.
pub boot_action_iff :
    (env : Environment) (s : ClassSummary) (drops : Bool)
    → (is_converge (boot_action env s drops)
        ≡ (has_change s && (not (is_strict env) && (not drops && not (has_risk s)))))
      × (is_boot_refuse (boot_action env s drops)
          ≡ ((has_change s || drops) && (is_strict env || (drops || has_risk s))))
      × (is_boot_refuse (boot_action env s drops) ≡ false → is_refuse (decide env s false) ≡ false)
unfolding boot_action decide worst
boot_action_iff env s drops = (ground arith, ground arith, λ h. ground arith)

sum_reports-risk :
    (rs : List FieldChangeReport) (s : ClassSummary)
    → has_risk (sum_reports rs s) ≡ (has_risk s || any (λ r. has_risk (non_drop_summary r)) rs)
unfolding sum_reports
sum_reports-risk [] s = ground arith
sum_reports-risk (r ∷ rs) s =
    ground (arith, sum_reports-risk rs (add_summary s (non_drop_summary r)))

any-refuse :
    (rs : List FieldChangeReport) (env : Environment) (ack : Bool)
    → (is_strict env && (not ack && any (λ r. has_risk (non_drop_summary r)) rs))
      ≡ any (λ r. is_refuse (decide env (non_drop_summary r) ack)) rs
any-refuse [] env ack = ground arith
any-refuse (r ∷ rs) env ack =
    ground (arith, any-refuse rs env ack, decide-refuse_iff env (non_drop_summary r) ack)

-- Adding up the tallies of many reports hides nothing: the decision on the whole is a refusal exactly
-- if the decision on one of the reports is.
pub apply_decision-refuse_iff :
    (planned applied : List FieldChangeReport) (env : Environment) (ack : Bool)
    → is_refuse (apply_decision planned applied env ack)
      ≡ any (λ r. is_refuse (decide env (non_drop_summary r) ack)) (planned ++ applied)
unfolding apply_decision
apply_decision-refuse_iff planned applied env ack =
    decide-refuse_iff env (sum_reports (planned ++ applied) empty_summary) ack
    ∙ ap (λ b. is_strict env && (not ack && b))
        (sum_reports-risk (planned ++ applied) empty_summary)
    ∙ any-refuse (planned ++ applied) env ack
