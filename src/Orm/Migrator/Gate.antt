-- ===== src/Orm/Migrator/Gate.antt =====
-- The gates of one round of a run (frust-kernel/orm/src/lib.rs, `run`, `run_revert` and
-- `apply_resource`).
use frust.Prelude.{ℕ, ◌≡◌, refl, Bool, true, false, List, [], ◌∷◌, arith, is_empty}
use frust.Prelude.Text.{Text}
use frust.Orm.Schema.{Objects, SchemaSnapshot}
use frust.Orm.Migrator.{
  Direction, MigrationRecord, Database, MigrationOptions, is_apply, apply_resource, advance,
}

empty_list : {A : Type 0} (xs : List A) → is_empty xs ≡ true → xs ≡ []
empty_list [] h = refl
empty_list (x ∷ xs) h = cc

module _ (exec : Text → Text → Objects → Objects) (commits : Database → MigrationRecord → Bool)
    (opts : MigrationOptions) (dir : Direction) (name on : Text) (version : ℕ)
    (old new : SchemaSnapshot) (db : Database) where
  -- A round that applies nothing leaves the database as it was.
  pub advance_unchanged :
      is_apply (advance exec commits opts dir name on version old new db).1 ≡ false
      → (advance exec commits opts dir name on version old new db).0 ≡ db
  unfolding advance apply_resource
  advance_unchanged h = ground arith
