-- ===== src/Orm/Tests/Run.antt =====
-- Tests of one migration run (frust-kernel/orm/src/lib.rs): a resource on its first run, in a database
-- that commits every transaction.
use frust.Prelude.{
  ℕ, zero, suc, ◌+◌, ◌-◌, ◌*◌, ◌/◌, ◌%◌, ◌^◌, ◌≤◌, ◌<◌, min, max, compare, Ordering, sym, ap, ◌∙◌,
  subst, ◌≢◌, ◌↔◌, ◌⊎◌, inr, Bool, true, false, not, ◌&&◌, ◌||◌, Option, none, List, [], ◌∷◌, ◌++◌,
  map, append-nil, append_assoc, arith, ltb, leb, ◌==◌, if◌then◌else◌, ==_iff, ltb→lt, leb→le,
  Bool-cases, Option-cases, bool_eq, length, take, drop, get_elem?, any, filter, find,
  length-append, All, All-append, All-map, In, In-append_left, In-append_right, In-append,
}
use frust.Prelude.Text.{Text, codes}
use frust.OrdMap.{OrdMap}
use frust.Orm.Schema.{SchemaSnapshot, empty_snapshot}
use frust.Orm.Ddl.{from_sql}
use frust.Orm.Decision.{dev}
use frust.Orm.Migrator.{
  Direction, up, MigrationRecord, Database, MigrationOptions, AppliedMigration, applied_from_diff,
  MigrationReport, History, Outcome, apply, is_apply, commit, ResourceSpec, full_name, recorded,
}
use frust.Orm.Tests.Live.{ddl}
use frust.Orm.Migrator.Revert.{revert_one}
use frust.Orm.Tests.{old_sql}

abbrev commits : Database → MigrationRecord → Bool
commits db row = true

abbrev options : Bool → MigrationOptions
options dry = record {
  dry_run = dry;
  allow_destructive = false;
  environment = dev;
  acknowledge = false;
}

abbrev database : Database
database = record { rows = []; live = [] }

abbrev history : History
history = []

abbrev doc : ResourceSpec
doc = record { app = codes "crm"; name = codes "doc"; schema = old_sql; deps = [] }

abbrev table_sql : Text
table_sql = codes "DEFINE TABLE OVERWRITE doc"

abbrev first : ResourceSpec
first = record { app = codes "crm"; name = codes "doc"; schema = table_sql; deps = [] }

abbrev declared : SchemaSnapshot
declared = from_sql (codes "doc") table_sql

-- The table was declared on the second step, and is live.
abbrev live_database : Database
live_database = record { rows = []; live = (codes "doc", declared.objects) ∷ [] }

abbrev reverted : Database × Outcome
reverted =
    revert_one ddl commits (options false) none (full_name first)
      ((2, declared) ∷ (1, empty_snapshot) ∷ []) live_database
