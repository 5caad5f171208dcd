-- ===== src/Orm/Tests/Change.antt =====
-- Tests of the classifier and of the policies (frust-kernel/orm/src/field.rs, classify.rs,
-- decision.rs).
use frust.Prelude.{
  ℕ, zero, suc, ◌+◌, ◌-◌, ◌*◌, ◌/◌, ◌%◌, ◌^◌, ◌≤◌, ◌<◌, min, max, compare, Ordering, ◌≡◌, refl, sym,
  ap, ◌∙◌, subst, ◌≢◌, ◌↔◌, ◌⊎◌, inl, inr, Bool, true, false, not, ◌&&◌, ◌||◌, Option, none, some,
  List, [], ◌∷◌, ◌++◌, map, append-nil, append_assoc, arith, ltb, leb, ◌==◌, if◌then◌else◌, ==_iff,
  ltb→lt, leb→le, Bool-cases, Option-cases, bool_eq, length, take, drop, get_elem?, any, filter,
  find, is_empty, length-append, All, All-append, All-map, In, In-append_left, In-append_right,
  In-append,
}
use frust.Prelude.Text.{Text, codes, text_ltb}
use frust.OrdMap.{get, insert}
use frust.Orm.Schema.{SchemaSnapshot, SchemaObject, field}
use frust.Orm.Ddl.{from_sql}
use frust.Orm.Field.{
  SurrealType, int, float, string, array, record_of, render, is_opaque, FieldSnapshot, FieldClass,
  safe, warn, needs_backfill, blocked, classify_modify,
}
use frust.Orm.Field.Read.{parse_inner, parse}
use frust.Orm.Field.RoundTrip.{parse_inner-render}
use frust.Prelude.Search.{true_not_false}
use frust.Orm.Field.{decimal}
use frust.Orm.Field.Compat.{Stored, Converts, holds, Accepts, is_auto, auto-KeepsRows}
use frust.Orm.Classify.{
  ClassSummary, empty_summary, worst, FieldChangeReport, empty_report, non_drop_summary, push,
  classify_diff,
}
use frust.Orm.Classify.Report.{Reports, classify_diff-Reports}
use frust.Orm.Decision.{
  dev, prod, is_strict, is_refuse, decide, converge, refuse, boot_action, classification_refusal,
  apply_decision,
}
use frust.Orm.Decision.Policy.{
  boot_action_iff, is_converge, is_boot_refuse, has_change, has_risk, apply_decision-refuse_iff,
}
use frust.Orm.Decision.Sound.{gate-KeepsRows}
use frust.Orm.Tests.{old_sql, new_sql, age}

abbrev old : SchemaSnapshot
old = from_sql (codes "doc") old_sql

abbrev new : SchemaSnapshot
new = from_sql (codes "doc") new_sql

abbrev old_age : SchemaObject
old_age = record {
  kind = field;
  name = codes "age";
  define_sql = codes "DEFINE FIELD OVERWRITE age ON TABLE doc TYPE int";
}

abbrev new_age : SchemaObject
new_age = record {
  kind = field;
  name = codes "age";
  define_sql = codes "DEFINE FIELD OVERWRITE age ON TABLE doc TYPE float";
}

abbrev age_field : SurrealType → FieldSnapshot
age_field ty = record {
  name = codes "age";
  table_name = codes "doc";
  ty = ty;
  optional = false;
  readonly = false;
  has_value_or_default = false;
  has_assert = false;
}

old-age : get age old.objects ≡ some old_age
unfolding get from_sql frust.Orm.Ddl.collect frust.Orm.Ddl.split_statements frust.Prelude.Chars.trim
    frust.Orm.Ddl.parse_define frust.Orm.Ddl.parse_tokens frust.Prelude.Chars.split_whitespace
    insert frust.Orm.Schema.key text_ltb
old-age = refl

new-age : get age new.objects ≡ some new_age
unfolding get from_sql frust.Orm.Ddl.collect frust.Orm.Ddl.split_statements frust.Prelude.Chars.trim
    frust.Orm.Ddl.parse_define frust.Orm.Ddl.parse_tokens frust.Prelude.Chars.split_whitespace
    insert frust.Orm.Schema.key text_ltb
new-age = refl

-- The two texts differ.
redefined : old_age.define_sql ≢ new_age.define_sql
redefined h = differ (ap (λ (s : Text). length s) h)
  where
    differ : {n : ℕ} → ¬ (n ≡ suc (suc n))
    differ h = omega (arith, h)

old-parse : parse old_age.define_sql ≡ some (age_field int)
unfolding parse frust.Prelude.Chars.join
old-parse = refl

new-parse : parse new_age.define_sql ≡ some (age_field float)
unfolding parse frust.Prelude.Chars.join
new-parse = refl

gate-open : classification_refusal prod false (classify_diff old new) ≡ none
unfolding classification_refusal decide worst non_drop_summary classify_diff
    frust.Orm.Classify.classify_old from_sql frust.Orm.Ddl.collect frust.Orm.Ddl.split_statements
    frust.Prelude.Chars.trim frust.Orm.Ddl.parse_define frust.Orm.Ddl.parse_tokens
    frust.Prelude.Chars.split_whitespace insert frust.Orm.Schema.key text_ltb
    frust.Orm.Classify.drop_one get frust.Orm.Classify.classify_added
    frust.Orm.Classify.classify_altered frust.Orm.Classify.classify_new
    frust.Orm.Classify.classify_one frust.Orm.Classify.on_new_table push parse
    frust.Orm.Field.classify_field_change classify_modify is_opaque frust.Orm.Field.is_widening
    frust.Orm.Field.type_eq frust.Orm.Field.field_eq frust.Orm.Classify.tally_non_drops
    frust.Prelude.Chars.join
gate-open = refl

widened : is_auto (classify_modify (age_field int) (age_field float)).class ≡ true
unfolding classify_modify is_opaque frust.Orm.Field.type_eq frust.Orm.Field.is_widening
widened = refl

-- Values are told by their types alone, a decimal takes any of them, and every `ASSERT` fails.
abbrev HasType : SurrealType → SurrealType → Type 0
HasType v t = (v ≡ t) ⊎ ((v ≡ int) × (t ≡ float)) ⊎ (t ≡ decimal)

abbrev NoAssert : FieldSnapshot → Stored SurrealType → Type 0
NoAssert f v = ⊥

HasType-Converts : Converts HasType
HasType-Converts = record {
  int_float = λ v f. elim f [
    | inl e ↦ inr (inl (e, refl))
    | inr (inl p) ↦ inr (inl (p.0, refl))
    | inr (inr e) ↦ absurd (int_decimal e)
  ];
  int_decimal = λ v f. inr (inr refl);
  float_decimal = λ v f. inr (inr refl);
}
  where
    int_decimal : ¬ (int ≡ decimal)
    int_decimal c = cc

gate-KeepsRows_example : Accepts HasType NoAssert (age_field float) (holds int)
gate-KeepsRows_example =
    gate-KeepsRows HasType NoAssert prod old new age old_age new_age (age_field int)
      (age_field float) HasType-Converts refl gate-open old-age new-age refl redefined old-parse
      new-parse refl (holds int) (inl refl, λ e. absurd (true_not_false (sym e)))

classify_diff-Reports_example :
    Reports
      (codes "age")
      (classify_modify (age_field int) (age_field float))
      (classify_diff old new)
classify_diff-Reports_example =
    classify_diff-Reports old new age old_age new_age (age_field int) (age_field float) old-age
      new-age refl redefined old-parse new-parse

auto-KeepsRows_example : Accepts HasType NoAssert (age_field float) (holds int)
auto-KeepsRows_example =
    auto-KeepsRows HasType HasType-Converts NoAssert (age_field int) (age_field float) refl widened
      (holds int) (inl refl, λ e. absurd (true_not_false (sym e)))

abbrev docs : SurrealType
docs = array (record_of (codes "doc"))

parse_inner-render_example : parse_inner (render docs) ≡ docs
parse_inner-render_example = parse_inner-render docs tt

-- A change of each severity.
abbrev mixed : ClassSummary
mixed = record { safe_count = 2; warn_count = 1; backfill_count = 1; blocked_count = 0 }

abbrev mild : ClassSummary
mild = record { safe_count = 2; warn_count = 1; backfill_count = 0; blocked_count = 0 }

mild-boot : boot_action dev mild false ≡ converge
unfolding boot_action worst
mild-boot = refl

converge-is_no-refusal : converge ≢ refuse
converge-is_no-refusal h = cc

mild-no_refusal : boot_action dev mild false ≢ refuse
mild-no_refusal h = converge-is_no-refusal (sym mild-boot ∙ h)

boot_action_iff_example :
    (is_converge (boot_action dev mild false)
      ≡ (has_change mild && (not (is_strict dev) && (not false && not (has_risk mild)))))
    × (is_boot_refuse (boot_action dev mild false)
        ≡ ((has_change mild || false) && (is_strict dev || (false || has_risk mild))))
    × (is_boot_refuse (boot_action dev mild false) ≡ false
        → is_refuse (decide dev mild false) ≡ false)
boot_action_iff_example = boot_action_iff dev mild false

apply_decision-refuse_iff_example :
    is_refuse (apply_decision (classify_diff old new ∷ []) (empty_report ∷ []) prod false)
    ≡ any
        (λ r. is_refuse (decide prod (non_drop_summary r) false))
        ((classify_diff old new ∷ []) ++ (empty_report ∷ []))
apply_decision-refuse_iff_example =
    apply_decision-refuse_iff (classify_diff old new ∷ []) (empty_report ∷ []) prod false
