-- ===== src/Orm/Ddl/Run.antt =====
-- What the statements of a diff leave of the live objects when the database runs them
-- (frust-kernel/orm/src/schema.rs, `SchemaDiff::statements`, and lib.rs, `apply_resource`). The
-- database is a parameter, with what its manual says of the two statements that are used.
use frust.Prelude.{
  ◌≡◌, refl, sym, ap, ◌∙◌, ◌≢◌, inl, inr, Option, none, some, List, [], ◌∷◌, ◌++◌, map,
  if◌then◌else◌, Bool-cases, Option-cases, All, All-append,
}
use frust.Prelude.Text.{Text, codes, text_eq}
use frust.OrdMap.{get, get-insert, get-remove, insert, remove}
use frust.Orm.Schema.{
  ObjectKind, table, field, index, event, SchemaObject, key, Objects, SchemaSnapshot, DroppedObject,
  SchemaDiff, creates_of, alters_of, drop_statement, drop_statements, statements, applied, diff,
  IsWellFormed,
}
use frust.Orm.Schema.Apply.{
  define_all, dropped_key, remove_one, remove_all, apply_diff, All-sort_by_rank,
}
use frust.Orm.Schema.Reach.{wanted, apply_diff-diff}
use frust.Orm.Ddl.{parse_define}

-- The statements of a transaction, one after the other, on the live objects of a table
unfoldable pub run_statements :
    (Text → Text → Objects → Objects) → Text → List Text → Objects → Objects
run_statements exec on [] m = m
run_statements exec on (s ∷ ss) m = run_statements exec on ss (exec on s m)

-- The statement overwrites what stands there, and names the table.
abbrev pub IsOverwrite : Text → SchemaObject → Type 0
IsOverwrite on o = elim o.kind [
  | table ↦ (rest : Text) × (o.define_sql ≡ codes "DEFINE TABLE OVERWRITE " ++ (o.name ++ rest))
  | field ↦
      (rest : Text) × (o.define_sql
        ≡ codes "DEFINE FIELD OVERWRITE " ++ (o.name ++ (codes " ON TABLE " ++ (on ++ rest))))
  | index ↦
      (rest : Text) × (o.define_sql
        ≡ codes "DEFINE INDEX OVERWRITE " ++ (o.name ++ (codes " ON TABLE " ++ (on ++ rest))))
  | event ↦
      (rest : Text) × (o.define_sql
        ≡ codes "DEFINE EVENT OVERWRITE " ++ (o.name ++ (codes " ON TABLE " ++ (on ++ rest))))
]

abbrev pub Declares : Text → SchemaObject → Type 0
Declares on o = (parse_define o.define_sql ≡ some o) × IsOverwrite on o

-- Every object of the map is declared by an overwriting statement of its own.
abbrev pub Declared : Text → Objects → Type 0
Declared on [] = Unit
Declared on ((k, o) ∷ m) = Declares on o × Declared on m

-- `REMOVE … IF EXISTS <name> ON TABLE <table>`
abbrev pub remove_text : Text → DroppedObject → Text
remove_text on d = elim d.kind [
  | table ↦ []
  | field ↦ codes "REMOVE FIELD IF EXISTS " ++ (d.name ++ (codes " ON TABLE " ++ on))
  | index ↦ codes "REMOVE INDEX IF EXISTS " ++ (d.name ++ (codes " ON TABLE " ++ on))
  | event ↦ codes "REMOVE EVENT IF EXISTS " ++ (d.name ++ (codes " ON TABLE " ++ on))
]

-- What the database documents: an overwriting `DEFINE` puts its object in place, a `REMOVE` takes the
-- named one away, and both leave the rest alone.
pub record RunsDdl (exec : Text → Text → Objects → Objects) : Type 0 where
  pub defines :
      (on k : Text) (o : SchemaObject) (m : Objects)
      → Declares on o
      → get k (exec on o.define_sql m) ≡ (if text_eq (key o) k then some o else get k m)
  pub removes :
      (on k : Text) (d : DroppedObject) (m : Objects)
      → d.kind ≢ table
      → get k (exec on (remove_text on d) m) ≡ (if text_eq (dropped_key d) k then none else get k m)

-- Two maps that find the same at every key
abbrev pub Same : Objects → Objects → Type 0
Same m n = (k : Text) → get k m ≡ get k n

run_statements-append :
    (exec : Text → Text → Objects → Objects) (on : Text) (ss ts : List Text) (m : Objects)
    → run_statements exec on (ss ++ ts) m ≡ run_statements exec on ts (run_statements exec on ss m)
unfolding run_statements
run_statements-append exec on [] ts m = refl
run_statements-append exec on (s ∷ ss) ts m = run_statements-append exec on ss ts (exec on s m)

module _ (exec : Text → Text → Objects → Objects) (runs : RunsDdl exec) (on : Text) where
  removed-Same :
      (d : DroppedObject) (m n : Objects)
      → d.kind ≢ table
      → Same m n
      → Same (exec on (remove_text on d) m) (remove (dropped_key d) n)
  removed-Same d m n other same k =
      runs.removes on k d m other
      ∙ (ap (λ (o : Option SchemaObject). if text_eq (dropped_key d) k then none else o) (same k)
          ∙ sym (get-remove (dropped_key d) k n))

  drop_statement-Same :
      (kind : ObjectKind) (name : Text) (m n : Objects)
      → Same m n
      → let d : DroppedObject = record { kind = kind; name = name } in
        Same (run_statements exec on (drop_statement on d) m) (remove_one d n)
  unfolding run_statements drop_statement
  drop_statement-Same table name m n same = same
  drop_statement-Same field name m n same =
      removed-Same (record { kind = field; name = name }) m n (λ c. cc) same
  drop_statement-Same index name m n same =
      removed-Same (record { kind = index; name = name }) m n (λ c. cc) same
  drop_statement-Same event name m n same =
      removed-Same (record { kind = event; name = name }) m n (λ c. cc) same

  drop_statements-Same :
      (ds : List DroppedObject) (m n : Objects)
      → Same m n
      → Same (run_statements exec on (drop_statements on ds) m) (remove_all ds n)
  unfolding drop_statements remove_all
  drop_statements-Same [] m n same k = unfold run_statements in same k
  drop_statements-Same (d ∷ ds) m n same k =
      ap (get k) (run_statements-append exec on (drop_statement on d) (drop_statements on ds) m)
      ∙ drop_statements-Same ds _ (remove_one d n) (drop_statement-Same d.kind d.name m n same) k

  define_all-Same :
      (os : List SchemaObject) (m n : Objects)
      → All (Declares on) os
      → Same m n
      → Same
          (run_statements exec on (map (λ (o : SchemaObject). o.define_sql) os) m)
          (define_all os n)
  unfolding run_statements define_all
  define_all-Same [] m n all same = same
  define_all-Same (o ∷ os) m n all same = define_all-Same os _ (insert (key o) o n) all.1 (λ k.
      runs.defines on k o m all.0
      ∙ (ap (λ (p : Option SchemaObject). if text_eq (key o) k then some o else p) (same k)
          ∙ sym (get-insert (key o) k o n)))

  statements-Same :
      (d : SchemaDiff) (live : Objects)
      → All (Declares on) (applied d)
      → Same (run_statements exec on (statements d on) live) (apply_diff d live)
  unfolding statements apply_diff
  statements-Same d live all k =
      ap (get k) (
        run_statements-append exec on (map (λ (o : SchemaObject). o.define_sql) (applied d))
          (drop_statements on d.drops) live)
      ∙ drop_statements-Same d.drops _ (define_all (applied d) live)
          (define_all-Same (applied d) live live all (λ j. refl)) k

creates-Declared :
    (on : Text) (old new : Objects) → Declared on new → All (Declares on) (creates_of old new)
unfolding creates_of
creates-Declared on old [] h = tt
creates-Declared on old ((k, o) ∷ new) h = elim (Option-cases (get k old)) [
  | inl e ↦ rw (e, All) (h.0, creates-Declared on old new h.1)
  | inr (p, e) ↦ rw (e, All) (creates-Declared on old new h.1)
]

alters-Declared :
    (on : Text) (old new : Objects) → Declared on new → All (Declares on) (alters_of old new)
unfolding alters_of
alters-Declared on old [] h = tt
alters-Declared on old ((k, o) ∷ new) h = elim (Option-cases (get k old)) [
  | inl e ↦ rw (e, All) (alters-Declared on old new h.1)
  | inr (p, e) ↦ elim (Bool-cases (text_eq p.define_sql o.define_sql)) [
    | inl q ↦ rw (e, q, All) (alters-Declared on old new h.1)
    | inr q ↦ rw (e, q, All) (h.0, alters-Declared on old new h.1)
  ]
]

module _ (exec : Text → Text → Objects → Objects) (runs : RunsDdl exec) (on : Text)
    (old new : SchemaSnapshot) (wo : IsWellFormed old) (wn : IsWellFormed new)
    (declared : Declared on new.objects) where
  diff-Same :
      (live : Objects)
      → Same
          (run_statements exec on (statements (diff old new) on) live)
          (apply_diff (diff old new) live)
  unfolding diff
  diff-Same live = statements-Same exec runs on (diff old new) live (
      All-sort_by_rank (Declares on)
        (creates_of old.objects new.objects ++ alters_of old.objects new.objects)
        (All-append (Declares on) (creates_of old.objects new.objects) _
          (creates-Declared on old.objects new.objects declared)
          (alters-Declared on old.objects new.objects declared)))

  pub statements-diff :
      (k : Text) (live : Objects)
      → get k live ≡ get k old.objects
      → get k (run_statements exec on (statements (diff old new) on) live)
        ≡ wanted (get k old.objects) (get k new.objects)
  statements-diff k live same = diff-Same live k ∙ apply_diff-diff old new wo wn k live same
