-- ===== src/Orm/Classify.antt =====
-- The classification of a diff, field by field, with a tally of severities
-- (frust-kernel/orm/src/classify.rs). `reason` texts are left out.
pub mod Tally
pub mod Report
use frust.Prelude.{
  ℕ, zero, suc, ◌+◌, ◌-◌, ◌*◌, ◌/◌, ◌%◌, ◌^◌, ◌≤◌, ◌<◌, min, max, compare, Ordering, ◌≡◌, refl, sym,
  ap, ◌∙◌, subst, ◌≢◌, ◌↔◌, ◌⊎◌, inl, inr, Bool, true, false, not, ◌&&◌, ◌||◌, Option, none, some,
  List, [], ◌∷◌, ◌++◌, map, append-nil, append_assoc, arith, ltb, leb, ◌==◌, if◌then◌else◌, ==_iff,
  ltb→lt, leb→le, Bool-cases, Option-cases, bool_eq, length, take, drop, get_elem?, any, filter,
  find, is_empty, length-append, All, All-append, All-map, In, In-append_left, In-append_right,
  In-append,
}
use frust.Prelude.Text.{
  Text, codes, text_eq, text_eq_sound, text_eq_refl, text_eq_iff, text_ltb, text_ltb_irrefl,
  text_ltb_trans, text_ltb_total, contains, contains-In, In-contains,
}
use frust.OrdMap.{OrdMap, get}
use frust.Orm.Schema.{ObjectKind, table, field, kind_eq, SchemaObject, Objects, SchemaSnapshot}
use frust.Orm.Field.{
  SurrealType, render, FieldSnapshot, FieldClass, safe, warn, needs_backfill, blocked, FieldChange,
  conservative, dropped, FieldChangeClassification, classify_field_change,
}
use frust.Orm.Field.Read.{parse}

pub record FieldChangeEntry : Type 0 where
  pub field_name : Text
  pub change : FieldChange
  pub class : FieldClass
  pub from_type : Option Text
  pub to_type : Option Text

-- `ClassSummary`: how many changes there are of each severity.
pub record ClassSummary : Type 0 where
  pub safe_count : ℕ
  pub warn_count : ℕ
  pub backfill_count : ℕ
  pub blocked_count : ℕ

abbrev pub empty_summary : ClassSummary
empty_summary = record { safe_count = 0; warn_count = 0; backfill_count = 0; blocked_count = 0 }

unfoldable pub total : ClassSummary → ℕ
total s = s.safe_count + s.warn_count + s.backfill_count + s.blocked_count

-- `ClassSummary::worst`
unfoldable pub worst : ClassSummary → Option FieldClass
worst s =
    if ltb 0 s.blocked_count
    then some blocked
    else if ltb 0 s.backfill_count
    then some needs_backfill
    else if ltb 0 s.warn_count
    then some warn
    else if ltb 0 s.safe_count
    then some safe
    else none

abbrev pub tally : ClassSummary → FieldClass → ClassSummary
tally s safe = record s { safe_count = s.safe_count + 1 }
tally s warn = record s { warn_count = s.warn_count + 1 }
tally s needs_backfill = record s { backfill_count = s.backfill_count + 1 }
tally s blocked = record s { blocked_count = s.blocked_count + 1 }

pub record FieldChangeReport : Type 0 where
  pub entries : List FieldChangeEntry
  pub summary : ClassSummary

abbrev pub empty_report : FieldChangeReport
empty_report = record { entries = []; summary = empty_summary }

-- `e.change == FieldChange::Dropped`
abbrev pub is_drop : FieldChange → Bool
is_drop dropped = true
is_drop _ = false

unfoldable pub tally_non_drops : List FieldChangeEntry → ClassSummary → ClassSummary
tally_non_drops [] s = s
tally_non_drops (e ∷ es) s = tally_non_drops es (if is_drop e.change then s else tally s e.class)

-- `FieldChangeReport::non_drop_summary`
unfoldable pub non_drop_summary : FieldChangeReport → ClassSummary
unfolding tally_non_drops
non_drop_summary r = tally_non_drops r.entries empty_summary

unfoldable pub render_field_type : FieldSnapshot → Text
unfolding render
render_field_type fs =
    if fs.optional then codes "option<" ++ (render fs.ty ++ codes ">") else render fs.ty

abbrev option_map : {A B : Type 0} → (A → B) → Option A → Option B
option_map f none = none
option_map f (some a) = some (f a)

-- `FieldChangeReport::push`
unfoldable pub push :
    Text
    → FieldChangeClassification
    → Option FieldSnapshot
    → Option FieldSnapshot
    → FieldChangeReport
    → FieldChangeReport
push name c from to r = record {
  entries =
      r.entries
      ++ record {
        field_name = name;
        change = c.change;
        class = c.class;
        from_type = option_map render_field_type from;
        to_type = option_map render_field_type to;
      }
        ∷ [];
  summary = tally r.summary c.class;
}

abbrev unknown_type : Bool → Option Text
unknown_type true = some (codes "?")
unknown_type false = none

-- `FieldChangeReport::push_conservative`
unfoldable pub push_conservative : Text → Bool → Bool → FieldChangeReport → FieldChangeReport
push_conservative name had_from had_to r = record {
  entries =
      r.entries
      ++ record {
        field_name = name;
        change = conservative;
        class = blocked;
        from_type = unknown_type had_from;
        to_type = unknown_type had_to;
      }
        ∷ [];
  summary = tally r.summary blocked;
}

abbrev pub is_backfill : FieldClass → Bool
is_backfill needs_backfill = true
is_backfill _ = false

-- A required field that is added to a new table has no rows to fill.
unfoldable pub on_new_table : Bool → FieldChangeClassification → FieldChangeClassification
on_new_table table_is_new c =
    if table_is_new && is_backfill c.class then record c { class = safe } else c

-- A field that the old snapshot does not have.
unfoldable pub classify_added : Bool → SchemaObject → FieldChangeReport → FieldChangeReport
classify_added table_is_new o r = elim (parse o.define_sql) [
  | some n ↦
      push o.name (on_new_table table_is_new (classify_field_change none (some n))) none (some n) r
  | none ↦ push_conservative o.name false true r
]

-- A field whose text changed.
unfoldable pub classify_altered :
    SchemaObject → SchemaObject → FieldChangeReport → FieldChangeReport
classify_altered prev o r = elim (parse prev.define_sql) [
  | none ↦ push_conservative o.name true true r
  | some before ↦ elim (parse o.define_sql) [
    | none ↦ push_conservative o.name true true r
    | some after ↦
        push o.name (classify_field_change (some before) (some after)) (some before) (some after) r
  ]
]

unfoldable pub classify_dropped : SchemaObject → FieldChangeReport → FieldChangeReport
classify_dropped o r = elim (parse o.define_sql) [
  | some before ↦ push o.name (classify_field_change (some before) none) (some before) none r
  | none ↦ push_conservative o.name true false r
]

-- One round of the loop over the new objects.
unfoldable pub classify_one :
    Bool → Objects → Text → SchemaObject → FieldChangeReport → FieldChangeReport
classify_one table_is_new old k o r = if not (kind_eq o.kind field) then r else elim (get k old) [
  | none ↦ classify_added table_is_new o r
  | some prev ↦ if not (text_eq prev.define_sql o.define_sql) then classify_altered prev o r else r
]

unfoldable pub classify_new : Bool → Objects → Objects → FieldChangeReport → FieldChangeReport
classify_new table_is_new old [] r = r
classify_new table_is_new old ((k, o) ∷ rest) r =
    classify_new table_is_new old rest (classify_one table_is_new old k o r)

-- One round of the loop over the old objects.
unfoldable pub drop_one : Objects → Text → SchemaObject → FieldChangeReport → FieldChangeReport
drop_one new k o r =
    if not (kind_eq o.kind field)
    then r
    else elim (get k new) [ none ↦ classify_dropped o r | some present ↦ r ]

unfoldable pub classify_old : Objects → Objects → FieldChangeReport → FieldChangeReport
classify_old new [] r = r
classify_old new ((k, o) ∷ rest) r = classify_old new rest (drop_one new k o r)

abbrev pub has_table : Objects → Bool
has_table m = any (λ (e : Text × SchemaObject). kind_eq e.1.kind table) m

unfoldable pub classify_diff : SchemaSnapshot → SchemaSnapshot → FieldChangeReport
classify_diff old new =
    classify_old new.objects old.objects
      (classify_new (not (has_table old.objects)) old.objects new.objects empty_report)
