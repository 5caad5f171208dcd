-- ===== src/Orm/Decision/Sound.antt =====
-- The classification gate and the rows of a table (frust-kernel/orm/src/lib.rs,
-- `classification_refusal`).
use frust.Prelude.{
  ◌≡◌, ap, ◌∙◌, ◌≢◌, inl, inr, Bool, true, false, not, ◌&&◌, ◌||◌, none, some, List, [], ◌∷◌, arith,
  if◌then◌else◌, any, In,
}
use frust.Prelude.Text.{Text}
use frust.OrdMap.{get}
use frust.Orm.Schema.{field, SchemaObject, SchemaSnapshot}
use frust.Orm.Field.{SurrealType, FieldSnapshot, classify_modify}
use frust.Orm.Field.Read.{parse}
use frust.Orm.Field.Compat.{Stored, Converts, Accepts, is_auto, auto-KeepsRows}
use frust.Orm.Classify.{
  FieldChangeEntry, ClassSummary, empty_summary, FieldChangeReport, is_drop, tally, tally_non_drops,
  non_drop_summary, classify_diff,
}
use frust.Orm.Classify.Report.{classify_diff-Reports}
use frust.Orm.Decision.{Environment, is_strict, classification_refusal}
use frust.Orm.Decision.Policy.{has_risk, decide-refuse_iff}

-- The entries that the gate looks at.
abbrev needs_approval : FieldChangeEntry → Bool
needs_approval e = not (is_drop e.change) && not (is_auto e.class)

tally-risk :
    (s : ClassSummary) (e : FieldChangeEntry) (b : Bool)
    → (has_risk (if is_drop e.change then s else tally s e.class) || b)
      ≡ (has_risk s || (needs_approval e || b))
tally-risk s e b = ground arith

tally_non_drops-risk :
    (es : List FieldChangeEntry) (s : ClassSummary)
    → has_risk (tally_non_drops es s) ≡ (has_risk s || any needs_approval es)
unfolding tally_non_drops
tally_non_drops-risk [] s = ground arith
tally_non_drops-risk (e ∷ es) s =
    tally_non_drops-risk es (if is_drop e.change then s else tally s e.class)
    ∙ tally-risk s e (any needs_approval es)

any-In :
    {A : Type 0} (p : A → Bool) (x : A) (xs : List A) → In x xs → any p xs ≡ false → p x ≡ false
any-In p x [] i h = absurd i
any-In p x (y ∷ ys) (inl e) h = ground (arith, ap p e)
any-In p x (y ∷ ys) (inr i) h = any-In p x ys i (ground arith)

modify-not_drop : (o n : FieldSnapshot) → is_drop (classify_modify o n).change ≡ false
unfolding classify_modify
modify-not_drop o n = ground arith

gate-risk :
    (env : Environment) (r : FieldChangeReport)
    → is_strict env ≡ true
    → classification_refusal env false r ≡ none
    → has_risk (non_drop_summary r) ≡ false
unfolding classification_refusal
gate-risk env r s h = ground (arith, decide-refuse_iff env (non_drop_summary r) false)

-- In a strict environment with no acknowledgement, whatever the gate lets through keeps the rows of
-- each field that it redefines without an `ASSERT`: where both definitions can be read, every row that
-- the old one let in is let in by the new one, for any values that keep the documented conversions
-- between numbers.
pub gate-KeepsRows :
    {V : Type 0} (fits : V → SurrealType → Type 0) (passes : FieldSnapshot → Stored V → Type 0)
    (env : Environment) (old new : SchemaSnapshot) (k : Text) (prev o : SchemaObject)
    (before after : FieldSnapshot)
    → Converts fits
    → is_strict env ≡ true
    → classification_refusal env false (classify_diff old new) ≡ none
    → get k old.objects ≡ some prev
    → get k new.objects ≡ some o
    → o.kind ≡ field
    → prev.define_sql ≢ o.define_sql
    → parse prev.define_sql ≡ some before
    → parse o.define_sql ≡ some after
    → after.has_assert ≡ false
    → (v : Stored V) → Accepts fits passes before v
    → Accepts fits passes after v
gate-KeepsRows fits passes env old new k prev o before after converts s gate g h f d p q free =
    let r = classify_diff old new in
    let (e, i, n, c, l) = classify_diff-Reports old new k prev o before after g h f d p q in
    let calm : any needs_approval r.entries ≡ false =
      unfold non_drop_summary in
      ground (arith, gate-risk env r s gate, tally_non_drops-risk r.entries empty_summary) in
    auto-KeepsRows fits converts passes before after free
      (ground (arith, any-In needs_approval e r.entries i calm, modify-not_drop before after))
