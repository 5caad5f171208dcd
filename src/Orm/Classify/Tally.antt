-- ===== src/Orm/Classify/Tally.antt =====
-- The tally of a report (frust-kernel/orm/src/classify.rs).
use frust.Prelude.{
  ℕ, ◌≤◌, ◌<◌, ◌≡◌, refl, ap, inl, inr, Bool, Option, some, List, [], ◌∷◌, ◌++◌, arith, Bool-cases,
  Option-cases,
}
use frust.Prelude.Text.{Text, text_eq}
use frust.OrdMap.{get}
use frust.Orm.Field.Read.{parse}
use frust.Orm.Schema.{field, kind_eq, SchemaObject, Objects, SchemaSnapshot}
use frust.Orm.Field.{
  FieldClass, safe, warn, needs_backfill, blocked, FieldChangeClassification, FieldSnapshot,
}
use frust.Orm.Classify.{
  FieldChangeEntry, ClassSummary, empty_summary, worst, tally, FieldChangeReport, empty_report,
  push, push_conservative, classify_added, classify_altered, classify_dropped, classify_one,
  classify_new, drop_one, classify_old, classify_diff,
}

-- The tally of the entries, from a tally that is there already.
abbrev pub tally_all : List FieldChangeEntry → ClassSummary → ClassSummary
tally_all [] s = s
tally_all (e ∷ es) s = tally_all es (tally s e.class)

tally_all-append :
    (es fs : List FieldChangeEntry) (s : ClassSummary)
    → tally_all (es ++ fs) s ≡ tally_all fs (tally_all es s)
tally_all-append [] fs s = refl
tally_all-append (e ∷ es) fs s = tally_all-append es fs (tally s e.class)

abbrev pub IsTallied : FieldChangeReport → Type 0
IsTallied r = r.summary ≡ tally_all r.entries empty_summary

push-IsTallied :
    (name : Text) (c : FieldChangeClassification) (from to : Option FieldSnapshot)
    (r : FieldChangeReport)
    → IsTallied r
    → IsTallied (push name c from to r)
unfolding push
push-IsTallied name c from to r h = rw tally_all-append (ap (λ s. tally s c.class) h)

push_conservative-IsTallied :
    (name : Text) (f t : Bool) (r : FieldChangeReport)
    → IsTallied r
    → IsTallied (push_conservative name f t r)
unfolding push_conservative
push_conservative-IsTallied name f t r h = rw tally_all-append (ap (λ s. tally s blocked) h)

-- The three ways to classify an object keep what `push` keeps.
module _ (P : FieldChangeReport → Type 0)
    (pushed : (name : Text) (c : FieldChangeClassification) (from to : Option FieldSnapshot)
        (r : FieldChangeReport)
      → P r
      → P (push name c from to r))
    (unread : (name : Text) (f t : Bool) (r : FieldChangeReport)
      → P r
      → P (push_conservative name f t r)) where
  classify_added-keeps :
      (b : Bool) (o : SchemaObject) (r : FieldChangeReport) → P r → P (classify_added b o r)
  unfolding classify_added
  classify_added-keeps b o r h = elim (Option-cases (parse o.define_sql)) [
    | inl a ↦ rw (a, classify_added) (unread _ _ _ r h)
    | inr (n, a) ↦ rw (a, classify_added) (pushed _ _ _ _ r h)
  ]

  classify_altered-keeps :
      (prev o : SchemaObject) (r : FieldChangeReport) → P r → P (classify_altered prev o r)
  unfolding classify_altered
  classify_altered-keeps prev o r h = elim (Option-cases (parse prev.define_sql)) [
    | inl a ↦ rw (a, classify_altered) (unread _ _ _ r h)
    | inr (m, a) ↦
        rw (a, classify_altered)
          (elim (Option-cases (parse o.define_sql)) [
            | inl b ↦ rw b (unread _ _ _ r h)
            | inr (n, b) ↦ rw b (pushed _ _ _ _ r h)
          ])
  ]

  classify_dropped-keeps :
      (o : SchemaObject) (r : FieldChangeReport) → P r → P (classify_dropped o r)
  unfolding classify_dropped
  classify_dropped-keeps o r h = elim (Option-cases (parse o.define_sql)) [
    | inl a ↦ rw (a, classify_dropped) (unread _ _ _ r h)
    | inr (n, a) ↦ rw (a, classify_dropped) (pushed _ _ _ _ r h)
  ]

  pub classify_one-keeps :
      (table_is_new : Bool) (old : Objects) (k : Text) (o : SchemaObject) (r : FieldChangeReport)
      → P r
      → P (classify_one table_is_new old k o r)
  unfolding classify_one
  classify_one-keeps b old k o r h = elim (Bool-cases (kind_eq o.kind field)) [
    | inl f ↦ rw f (elim (Option-cases (get k old)) [
      | inl a ↦ rw a (classify_added-keeps b o r h)
      | inr (prev, a) ↦ rw a (elim (Bool-cases (text_eq prev.define_sql o.define_sql)) [
        | inl e ↦ rw e h
        | inr e ↦ rw e (classify_altered-keeps prev o r h)
      ])
    ])
    | inr f ↦ rw f h
  ]

  pub classify_new-keeps :
      (table_is_new : Bool) (old new : Objects) (r : FieldChangeReport)
      → P r
      → P (classify_new table_is_new old new r)
  unfolding classify_new
  classify_new-keeps b old [] r h = h
  classify_new-keeps b old ((k, o) ∷ new) r h =
      classify_new-keeps b old new _ (classify_one-keeps b old k o r h)

  drop_one-keeps :
      (new : Objects) (k : Text) (o : SchemaObject) (r : FieldChangeReport)
      → P r
      → P (drop_one new k o r)
  unfolding drop_one
  drop_one-keeps new k o r h = elim (Bool-cases (kind_eq o.kind field)) [
    | inl f ↦ rw f (elim (Option-cases (get k new)) [
      | inl a ↦ rw a (classify_dropped-keeps o r h)
      | inr (p, a) ↦ rw a h
    ])
    | inr f ↦ rw f h
  ]

  pub classify_old-keeps :
      (new old : Objects) (r : FieldChangeReport) → P r → P (classify_old new old r)
  unfolding classify_old
  classify_old-keeps new [] r h = h
  classify_old-keeps new ((k, o) ∷ old) r h =
      classify_old-keeps new old _ (drop_one-keeps new k o r h)

-- The summary of a classified diff counts exactly the entries of the report.
pub classify_diff-IsTallied : (old new : SchemaSnapshot) → IsTallied (classify_diff old new)
unfolding classify_diff
classify_diff-IsTallied old new =
    classify_old-keeps IsTallied push-IsTallied push_conservative-IsTallied new.objects old.objects
      _
      (classify_new-keeps IsTallied push-IsTallied push_conservative-IsTallied _ old.objects
        new.objects empty_report refl)

-- Severities in their order.
abbrev pub severity : FieldClass → ℕ
severity safe = 0
severity warn = 1
severity needs_backfill = 2
severity blocked = 3

-- The class is counted in the summary.
abbrev pub counted : ClassSummary → FieldClass → ℕ
counted s safe = s.safe_count
counted s warn = s.warn_count
counted s needs_backfill = s.backfill_count
counted s blocked = s.blocked_count

counted-tally : (s : ClassSummary) (c : FieldClass) → 0 < counted (tally s c) c
counted-tally s safe = omega arith
counted-tally s warn = omega arith
counted-tally s needs_backfill = omega arith
counted-tally s blocked = omega arith

counted-tally_mono : (s : ClassSummary) (c d : FieldClass) → counted s d ≤ counted (tally s c) d
counted-tally_mono s safe d = ground arith
counted-tally_mono s warn d = ground arith
counted-tally_mono s needs_backfill d = ground arith
counted-tally_mono s blocked d = ground arith

-- `worst` is counted, and no class that is counted is above it.
pub worst-counted :
    (s : ClassSummary) (c d : FieldClass)
    → worst s ≡ some c
    → 0 < counted s d
    → (0 < counted s c) × (severity d ≤ severity c)
unfolding worst
worst-counted s c d h p = ground arith
