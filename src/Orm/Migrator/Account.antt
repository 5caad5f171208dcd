-- ===== src/Orm/Migrator/Account.antt =====
-- The report of a run, and dry runs (frust-kernel/orm/src/lib.rs, `run`).
use frust.Prelude.{
  ◌+◌, ◌≡◌, refl, ◌∙◌, Bool, true, false, List, [], ◌∷◌, arith, length, length-append,
}
use frust.Prelude.Text.{Text}
use frust.Orm.Schema.{Objects}
use frust.Orm.Migrator.{
  MigrationRecord, Database, MigrationOptions, MigrationReport, Outcome, skip, plan, fail, apply,
  is_apply, advance, History, ResourceSpec, full_name, record_outcome, migrate_one, run_ordered,
}
use frust.Orm.Migrator.Gate.{advance_unchanged}

-- What was considered was skipped, planned, applied or refused.
abbrev pub IsBalanced : MigrationReport → Type 0
IsBalanced r = r.considered ≡ r.skipped + length r.planned + length r.applied + length r.errors

record_outcome-IsBalanced :
    (name : Text) (out : Outcome) (r : MigrationReport)
    → IsBalanced r
    → IsBalanced (record_outcome name out r)
      × ((record_outcome name out r).considered ≡ r.considered + 1)
unfolding record_outcome
record_outcome-IsBalanced name skip r h = (omega arith, refl)
record_outcome-IsBalanced name (plan p) r h =
    (omega (arith, length-append r.planned (p ∷ [])), refl)
record_outcome-IsBalanced name (fail f) r h =
    (omega (arith, length-append r.errors (record { name = name; failure = f } ∷ [])), refl)
record_outcome-IsBalanced name (apply a) r h =
    (omega (arith, length-append r.applied (a ∷ [])), refl)

module _ (exec : Text → Text → Objects → Objects) (commits : Database → MigrationRecord → Bool)
    (opts : MigrationOptions) (history : History) where
  -- A run considers each of its resources once, and each ends as skipped, planned, applied or an
  -- error.
  pub run_ordered-IsBalanced :
      (regs : List ResourceSpec) (db : Database) (r : MigrationReport)
      → IsBalanced r
      → let (db', r') = run_ordered exec commits opts history regs db r in
        IsBalanced r' × (r'.considered ≡ r.considered + length regs)
  unfolding run_ordered
  run_ordered-IsBalanced [] db r h = (h, omega arith)
  run_ordered-IsBalanced (reg ∷ regs) db r h =
      let one = migrate_one exec commits opts history reg db in
      let step = record_outcome-IsBalanced (full_name reg) one.1 r h in
      let rest =
        run_ordered-IsBalanced regs one.0 (record_outcome (full_name reg) one.1 r) step.0 in
      (rest.0, omega (arith, rest.1, step.1))

  dry-is_apply :
      (reg : ResourceSpec) (db : Database)
      → opts.dry_run ≡ true
      → is_apply (migrate_one exec commits opts history reg db).1 ≡ false
  unfolding migrate_one advance
  dry-is_apply reg db h = ground arith

  dry_unchanged :
      (reg : ResourceSpec) (db : Database)
      → is_apply (migrate_one exec commits opts history reg db).1 ≡ false
      → (migrate_one exec commits opts history reg db).0 ≡ db
  unfolding migrate_one
  dry_unchanged reg db h = advance_unchanged exec commits opts _ _ _ _ _ _ db h

  not_applied :
      (name : Text) (out : Outcome) (r : MigrationReport)
      → is_apply out ≡ false
      → (record_outcome name out r).applied ≡ r.applied
  unfolding record_outcome
  not_applied name out r h = ground arith

  -- A dry run leaves the database as it was, and reports nothing as applied.
  pub run_ordered-dry :
      (regs : List ResourceSpec) (db : Database) (r : MigrationReport)
      → opts.dry_run ≡ true
      → let (db', r') = run_ordered exec commits opts history regs db r in
        (db' ≡ db) × (r'.applied ≡ r.applied)
  unfolding run_ordered
  run_ordered-dry [] db r h = (refl, refl)
  run_ordered-dry (reg ∷ regs) db r h =
      let one = migrate_one exec commits opts history reg db in
      let rest = run_ordered-dry regs one.0 (record_outcome (full_name reg) one.1 r) h in
      (
        rest.0 ∙ dry_unchanged reg db (dry-is_apply reg db h),
        rest.1 ∙ not_applied (full_name reg) one.1 r (dry-is_apply reg db h),
      )
