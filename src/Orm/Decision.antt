-- ===== src/Orm/Decision.antt =====
-- The policy of a deployment environment over classified changes (frust-kernel/orm/src/decision.rs),
-- and the gates of the engine and of the boot check over whole reports (frust-kernel/orm/src/lib.rs).
-- A note keeps the number that its message prints.
pub mod Policy
pub mod Sound
use frust.Prelude.{
  ℕ, zero, suc, ◌+◌, ◌-◌, ◌*◌, ◌/◌, ◌%◌, ◌^◌, ◌≤◌, ◌<◌, min, max, compare, Ordering, ◌≡◌, refl, sym,
  ap, ◌∙◌, subst, ◌≢◌, ◌↔◌, ◌⊎◌, inl, inr, Bool, true, false, not, ◌&&◌, ◌||◌, Option, none, some,
  List, [], ◌∷◌, ◌++◌, map, append-nil, append_assoc, arith, ltb, leb, ◌==◌, if◌then◌else◌, ==_iff,
  ltb→lt, leb→le, Bool-cases, Option-cases, bool_eq, length, take, drop, get_elem?, any, filter,
  find, is_empty, length-append, All, All-append, All-map, In, In-append_left, In-append_right,
  In-append,
}
use frust.Prelude.Text.{
  Text, codes, text_eq, text_eq_sound, text_eq_refl, text_eq_iff, text_ltb, text_ltb_irrefl,
  text_ltb_trans, text_ltb_total, contains, contains-In, In-contains,
}
use frust.Orm.Field.{FieldClass, safe, warn, needs_backfill, blocked}
use frust.Orm.Classify.{ClassSummary, empty_summary, worst, FieldChangeReport, non_drop_summary}

pub data Environment : Type 0 where
  dev test prod : Environment

abbrev pub is_strict : Environment → Bool
is_strict prod = true
is_strict _ = false

-- `Environment::default()`
abbrev pub default_environment : Environment
default_environment = prod

pub record DecisionNote : Type 0 where
  pub severity : FieldClass
  pub changes : ℕ

pub data BootDecision : Type 0 where
  allow : BootDecision
  warn_with refuse_with : List DecisionNote → BootDecision

abbrev pub is_allow : BootDecision → Bool
is_allow allow = true
is_allow _ = false

abbrev pub is_refuse : BootDecision → Bool
is_refuse (refuse_with ns) = true
is_refuse _ = false

-- `BootDecision::notes`
abbrev pub notes_of : BootDecision → List DecisionNote
notes_of allow = []
notes_of (warn_with ns) = ns
notes_of (refuse_with ns) = ns

abbrev note_if : FieldClass → ℕ → List DecisionNote
note_if class n = if ltb 0 n then record { severity = class; changes = n } ∷ [] else []

unfoldable pub notes : ClassSummary → List DecisionNote
notes s =
    note_if blocked s.blocked_count
    ++ (note_if needs_backfill s.backfill_count ++ note_if warn s.warn_count)

unfoldable pub decide : Environment → ClassSummary → Bool → BootDecision
decide env s acknowledge = elim (worst s) [
  | none ↦ allow
  | some safe ↦ allow
  | some warn ↦ warn_with (notes s)
  | some needs_backfill ↦
      if is_strict env && not acknowledge then refuse_with (notes s) else warn_with (notes s)
  | some blocked ↦
      if is_strict env && not acknowledge then refuse_with (notes s) else warn_with (notes s)
]

pub data BootAction : Type 0 where
  proceed converge refuse : BootAction

-- `worst().is_none()`
abbrev is_none : Option FieldClass → Bool
is_none none = true
is_none (some c) = false

unfoldable pub boot_action : Environment → ClassSummary → Bool → BootAction
boot_action env non_drop has_drops =
    if is_none (worst non_drop) && not has_drops
    then proceed
    else if is_strict env
    then refuse
    else if has_drops
    then refuse
    else elim (worst non_drop) [
      | none ↦ proceed
      | some safe ↦ converge
      | some warn ↦ converge
      | some needs_backfill ↦ refuse
      | some blocked ↦ refuse
    ]

-- `classification_refusal`: whether it returns a message.
unfoldable pub classification_refusal :
    Environment → Bool → FieldChangeReport → Option (List DecisionNote)
classification_refusal env acknowledge report =
    elim (decide env (non_drop_summary report) acknowledge) [
      | refuse_with ns ↦ some ns
      | allow ↦ none
      | warn_with ns ↦ none
    ]

-- The sums of the loops over reports.
abbrev pub add_summary : ClassSummary → ClassSummary → ClassSummary
add_summary s t = record {
  safe_count = s.safe_count + t.safe_count;
  warn_count = s.warn_count + t.warn_count;
  backfill_count = s.backfill_count + t.backfill_count;
  blocked_count = s.blocked_count + t.blocked_count;
}

unfoldable pub sum_reports : List FieldChangeReport → ClassSummary → ClassSummary
sum_reports [] s = s
sum_reports (r ∷ rs) s = sum_reports rs (add_summary s (non_drop_summary r))

-- `apply_decision_for_report`, over the classifications of what is planned and applied.
unfoldable pub apply_decision :
    List FieldChangeReport → List FieldChangeReport → Environment → Bool → BootDecision
unfolding sum_reports
apply_decision planned applied env acknowledge =
    decide env (sum_reports (planned ++ applied) empty_summary) acknowledge

-- What `boot_action_for_report` reads of a planned migration.
pub record Planned : Type 0 where
  pub classifications : FieldChangeReport
  pub destructive : List Text

abbrev pub has_drops : List Planned → Bool
has_drops ps = any (λ p. not (is_empty p.destructive)) ps

unfoldable pub boot_action_for_report : List Planned → Environment → BootAction
unfolding sum_reports
boot_action_for_report planned env =
    boot_action env (sum_reports (map (λ (p : Planned). p.classifications) planned) empty_summary)
      (has_drops planned)
