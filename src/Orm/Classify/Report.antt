-- ===== src/Orm/Classify/Report.antt =====
-- The fields of a diff in its report (frust-kernel/orm/src/classify.rs).
use frust.Prelude.{
  ◌≡◌, refl, sym, subst, ◌≢◌, inl, inr, Bool, false, Option, some, [], ◌∷◌, arith, In,
  In-append_left, In-append_right,
}
use frust.Prelude.Text.{Text, text_eq, text_eq_iff}
use frust.OrdMap.{get, get-In}
use frust.Orm.Schema.{field, SchemaObject, Objects, SchemaSnapshot}
use frust.Orm.Field.{
  FieldChangeClassification, FieldSnapshot, classify_field_change, classify_modify,
}
use frust.Orm.Field.Read.{parse}
use frust.Orm.Classify.{
  FieldChangeEntry, FieldChangeReport, empty_report, push, push_conservative, classify_altered,
  classify_one, classify_new, classify_diff,
}
use frust.Orm.Classify.Tally.{classify_new-keeps, classify_old-keeps}

-- A verdict that stands in the report.
abbrev pub Reports : Text → FieldChangeClassification → FieldChangeReport → Type 0
Reports name c r =
    (e : FieldChangeEntry) × In e r.entries
    × (e.field_name ≡ name)
    × (e.change ≡ c.change)
    × (e.class ≡ c.class)

module _ (n : Text) (v : FieldChangeClassification) where
  push-Reports :
      (name : Text) (c : FieldChangeClassification) (from to : Option FieldSnapshot)
      (r : FieldChangeReport)
      → Reports n v r
      → Reports n v (push name c from to r)
  unfolding push
  push-Reports name c from to r h = (h.0, In-append_left h.0 r.entries _ h.1, h.2, h.3, h.4)

  push_conservative-Reports :
      (name : Text) (f t : Bool) (r : FieldChangeReport)
      → Reports n v r
      → Reports n v (push_conservative name f t r)
  unfolding push_conservative
  push_conservative-Reports name f t r h = (h.0, In-append_left h.0 r.entries _ h.1, h.2, h.3, h.4)

Reports-push :
    (name : Text) (c : FieldChangeClassification) (from to : Option FieldSnapshot)
    (r : FieldChangeReport)
    → Reports name c (push name c from to r)
unfolding push
Reports-push name c from to r = (_, In-append_right _ r.entries _ (inl refl), refl, refl, refl)

classify_one-altered :
    (b : Bool) (old : Objects) (k : Text) (prev o : SchemaObject) (before after : FieldSnapshot)
    (r : FieldChangeReport)
    → o.kind ≡ field
    → get k old ≡ some prev
    → text_eq prev.define_sql o.define_sql ≡ false
    → parse prev.define_sql ≡ some before
    → parse o.define_sql ≡ some after
    → classify_one b old k o r
      ≡ push o.name (classify_modify before after) (some before) (some after) r
unfolding classify_one classify_altered classify_field_change
classify_one-altered b old k prev o before after r f g d p q = ground arith

Reports-classify_new :
    (b : Bool) (old new : Objects) (k : Text) (prev o : SchemaObject) (before after : FieldSnapshot)
    (r : FieldChangeReport)
    → In (k, o) new
    → o.kind ≡ field
    → get k old ≡ some prev
    → text_eq prev.define_sql o.define_sql ≡ false
    → parse prev.define_sql ≡ some before
    → parse o.define_sql ≡ some after
    → Reports o.name (classify_modify before after) (classify_new b old new r)
unfolding classify_new
Reports-classify_new b old [] k prev o before after r i f g d p q = absurd i
Reports-classify_new b old ((j, c) ∷ new) k prev o before after r (inl same) f g d p q =
    let v = classify_modify before after in
    classify_new-keeps (Reports o.name v) (push-Reports o.name v)
      (push_conservative-Reports o.name v) b old new _
      (subst (λ (e : Text × SchemaObject). Reports o.name v (classify_one b old e.0 e.1 r)) same
        (subst (Reports o.name v)
          (sym (classify_one-altered b old k prev o before after r f g d p q))
          (Reports-push o.name v _ _ r)))
Reports-classify_new b old ((j, c) ∷ new) k prev o before after r (inr later) f g d p q =
    Reports-classify_new b old new k prev o before after _ later f g d p q

-- A field that the two snapshots define in different words, both of which can be read, stands in the
-- report under its name, with the verdict of `classify_modify` on the two definitions.
pub classify_diff-Reports :
    (old new : SchemaSnapshot) (k : Text) (prev o : SchemaObject) (before after : FieldSnapshot)
    → get k old.objects ≡ some prev
    → get k new.objects ≡ some o
    → o.kind ≡ field
    → prev.define_sql ≢ o.define_sql
    → parse prev.define_sql ≡ some before
    → parse o.define_sql ≡ some after
    → Reports o.name (classify_modify before after) (classify_diff old new)
unfolding classify_diff
classify_diff-Reports old new k prev o before after g h f d p q =
    let v = classify_modify before after in
    classify_old-keeps (Reports o.name v) (push-Reports o.name v)
      (push_conservative-Reports o.name v) new.objects old.objects _
      (Reports-classify_new _ old.objects new.objects k prev o before after empty_report
        (get-In k new.objects h) f g (ground (arith, text_eq_iff prev.define_sql o.define_sql)) p q)
