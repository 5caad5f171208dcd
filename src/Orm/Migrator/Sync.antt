-- ===== src/Orm/Migrator/Sync.antt =====
-- The live schema behind a run, against the DDL of the resources (frust-kernel/orm/src/lib.rs, `run`).
use frust.Prelude.{
  ℕ, ◌≡◌, refl, ap, ◌∙◌, ◌≢◌, ◌⊎◌, inl, inr, Bool, true, false, Option, none, some, List, [], ◌∷◌,
  arith, All,
}
use frust.Prelude.Text.{Text, text_eq_refl}
use frust.OrdMap.{get, get-insert}
use frust.Orm.Schema.{
  Objects, SchemaObject, SchemaSnapshot, is_empty_diff, diff, statements, IsWellFormed,
}
use frust.Orm.Ddl.Run.{run_statements, RunsDdl, Declared, statements-diff}
use frust.Orm.Schema.Reach.{wanted}
use frust.Orm.Schema.Loss.{is_empty_diff-get}
use frust.Orm.Ddl.{from_sql}
use frust.Orm.Migrator.{
  Direction, MigrationRecord, Database, MigrationOptions, live_at, Outcome, fail, apply_resource,
  advance, History, ResourceSpec, full_name, recorded,
}

wanted_self : (o : Option SchemaObject) → o ≡ wanted o o
wanted_self none = refl
wanted_self (some o) = refl

-- The resource ended with an error.
abbrev pub is_fail : Outcome → Bool
is_fail (fail f) = true
is_fail _ = false

module _ (exec : Text → Text → Objects → Objects) (commits : Database → MigrationRecord → Bool)
    (opts : MigrationOptions) (dir : Direction) (name on : Text) (version : ℕ)
    (old new : SchemaSnapshot) (db : Database) where
  advance-live :
      opts.dry_run ≡ false
      → is_fail (advance exec commits opts dir name on version old new db).1 ≡ false
      → ((is_empty_diff (diff old new) ≡ true)
          × (live_at on (advance exec commits opts dir name on version old new db).0
              ≡ live_at on db))
        ⊎ (live_at on (advance exec commits opts dir name on version old new db).0
            ≡ run_statements exec on (statements (diff old new) on) (live_at on db))
  unfolding advance apply_resource
  advance-live d f = ground (
    arith,
    get-insert on on (run_statements exec on (statements (diff old new) on) (live_at on db))
        db.live,
    text_eq_refl on,
  )

  -- A round with no error leaves the table at the new snapshot.
  pub advance-reaches :
      RunsDdl exec
      → (k : Text) → IsWellFormed old
      → IsWellFormed new
      → Declared on new.objects
      → opts.dry_run ≡ false
      → is_fail (advance exec commits opts dir name on version old new db).1 ≡ false
      → get k (live_at on db) ≡ get k old.objects
      → get k (live_at on (advance exec commits opts dir name on version old new db).0)
        ≡ wanted (get k old.objects) (get k new.objects)
  advance-reaches runs k wo wn dec d f same = elim (advance-live d f) [
    | inl (e, l) ↦
        ap (get k) l
        ∙ same
        ∙ wanted_self (get k old.objects)
        ∙ ap (wanted (get k old.objects)) (is_empty_diff-get old new wo wn e k)
    | inr l ↦ ap (get k) l ∙ statements-diff exec runs on old new wo wn dec k (live_at on db) same
  ]

-- No two resources of the list have one table.
abbrev pub DistinctTables : List ResourceSpec → Type 0
DistinctTables [] = Unit
DistinctTables (reg ∷ regs) =
    All (λ (s : ResourceSpec). s.name ≢ reg.name) regs × DistinctTables regs

module _ (exec : Text → Text → Objects → Objects) (commits : Database → MigrationRecord → Bool)
    (opts : MigrationOptions) (history : History) where
  -- The live table of a resource is at the recorded snapshot, as far as the key `k` shows.
  abbrev AtRecorded : Database → Text → ResourceSpec → Type 0
  AtRecorded db k reg =
      get k (live_at reg.name db) ≡ get k (recorded (full_name reg) history).1.objects

  -- … and at what its DDL declares.
  abbrev AtDeclared : Database → Text → ResourceSpec → Type 0
  AtDeclared db k reg =
      get k (live_at reg.name db)
      ≡ wanted (get k (recorded (full_name reg) history).1.objects)
          (get k (from_sql reg.name reg.schema).objects)
