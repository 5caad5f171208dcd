-- ===== src/Orm/Schema/Loops.antt =====
-- Where the loops of `diff` put an object (frust-kernel/orm/src/schema.rs).
use frust.Prelude.{
  ◌≡◌, refl, sym, ◌∙◌, subst, inl, inr, false, none, some, List, [], ◌∷◌, arith, Bool-cases,
  Option-cases, All, All-map, In,
}
use frust.Prelude.Text.{Text, text_eq, text_eq_sound, text_eq_iff}
use frust.OrdMap.{IsSorted, Above, get, get-Above}
use frust.Orm.Schema.{table, SchemaObject, key, Objects, creates_of, alters_of, drops_of, Keyed}
use frust.Orm.Schema.Apply.{dropped_key, OnlyAt, NotAt, Spares}

-- Where the loops of `diff` put an object, by what its key finds on the two sides.
module _ (old : Objects) (k : Text) where
  pub creates-NotAt :
      (new : Objects) → Keyed new → get k new ≡ none → All (NotAt k) (creates_of old new)
  unfolding creates_of get
  creates-NotAt [] w h = tt
  creates-NotAt ((j, o) ∷ new) w h = ground (arith, creates-NotAt new, text_eq_iff j k)

  pub alters-NotAt :
      (new : Objects) → Keyed new → get k new ≡ none → All (NotAt k) (alters_of old new)
  unfolding alters_of get
  alters-NotAt [] w h = tt
  alters-NotAt ((j, o) ∷ new) w h = ground (arith, alters-NotAt new, text_eq_iff j k)

  NotAt→OnlyAt :
      (o : SchemaObject) (os : List SchemaObject) → All (NotAt k) os → All (OnlyAt k o) os
  NotAt→OnlyAt o os = All-map (λ p no at. absurd (no at)) os

  pub creates-OnlyAt :
      (new : Objects) {o : SchemaObject}
      → IsSorted new
      → Keyed new
      → get k new ≡ some o
      → All (OnlyAt k o) (creates_of old new)
  unfolding creates_of get
  creates-OnlyAt [] s w h = tt
  creates-OnlyAt ((j, p) ∷ new) {o} s w h = elim (Bool-cases (text_eq j k)) [
    | inl e ↦
        let absent : get k new ≡ none =
          get-Above k new (subst (λ t. Above t new) (text_eq_sound j k e) s.0) in
        let others = NotAt→OnlyAt o (creates_of old new) (creates-NotAt new w.1 absent) in
        ground arith
    | inr e ↦ ground (arith, creates-OnlyAt new {o = o} s.1 w.1, text_eq_iff j k)
  ]

  pub alters-OnlyAt :
      (new : Objects) {o : SchemaObject}
      → IsSorted new
      → Keyed new
      → get k new ≡ some o
      → All (OnlyAt k o) (alters_of old new)
  unfolding alters_of get
  alters-OnlyAt [] s w h = tt
  alters-OnlyAt ((j, p) ∷ new) {o} s w h = elim (Bool-cases (text_eq j k)) [
    | inl e ↦
        let absent : get k new ≡ none =
          get-Above k new (subst (λ t. Above t new) (text_eq_sound j k e) s.0) in
        let others = NotAt→OnlyAt o (alters_of old new) (alters-NotAt new w.1 absent) in
        ground arith
    | inr e ↦ ground (arith, alters-OnlyAt new {o = o} s.1 w.1, text_eq_iff j k)
  ]

  pub In-creates :
      (new : Objects) {o : SchemaObject}
      → get k new ≡ some o
      → get k old ≡ none
      → In o (creates_of old new)
  unfolding creates_of get
  In-creates [] h g = cc
  In-creates ((j, p) ∷ new) {o} h g = ground (arith, In-creates new {o = o}, text_eq_iff j k)

  pub In-alters :
      (new : Objects) {o prev : SchemaObject}
      → get k new ≡ some o
      → get k old ≡ some prev
      → text_eq prev.define_sql o.define_sql ≡ false
      → In o (alters_of old new)
  unfolding alters_of get
  In-alters [] h g d = cc
  In-alters ((j, p) ∷ new) {o} {prev} h g d =
      ground (arith, In-alters new {o = o} {prev = prev}, text_eq_iff j k)

-- Two objects of one key are both no tables, or both are.
pub dropped_key-key :
    (o : SchemaObject) → dropped_key (record { kind = o.kind; name = o.name }) ≡ key o
unfolding key
dropped_key-key o = refl

module _ (new : Objects) (k : Text) where
  -- What is still there is not dropped.
  pub drops-Spares_present :
      (old : Objects) {o : SchemaObject}
      → Keyed old
      → get k new ≡ some o
      → All (Spares k) (drops_of new old)
  unfolding drops_of
  drops-Spares_present [] w h = tt
  drops-Spares_present ((j, p) ∷ old) {o} w h = elim (Option-cases (get j new)) [
    | inl a ↦
        rw (a, All)
          (
            (λ at. absurd (cc (sym at ∙ dropped_key-key p ∙ w.0, a, h))),
            drops-Spares_present old w.1 h,
          )
    | inr (q, a) ↦ rw (a, All) (drops-Spares_present old w.1 h)
  ]

  -- Only tables are left at the key of a table.
  pub drops-Spares_table :
      (old : Objects)
      → Keyed old
      → ((o : SchemaObject) → key o ≡ k → o.kind ≡ table)
      → All (Spares k) (drops_of new old)
  unfolding drops_of
  drops-Spares_table [] w h = tt
  drops-Spares_table ((j, p) ∷ old) w h = elim (Option-cases (get j new)) [
    | inl a ↦ rw (a, All) ((λ at. h p (sym (dropped_key-key p) ∙ at)), drops-Spares_table old w.1 h)
    | inr (q, a) ↦ rw (a, All) (drops-Spares_table old w.1 h)
  ]

  pub In-drops :
      (old : Objects) {o : SchemaObject}
      → get k old ≡ some o
      → get k new ≡ none
      → In (record { kind = o.kind; name = o.name }) (drops_of new old)
  unfolding drops_of get
  In-drops [] h g = cc
  In-drops ((j, p) ∷ old) {o} h g = ground (arith, In-drops old {o = o}, text_eq_iff j k)
