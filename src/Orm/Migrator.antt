-- ===== src/Orm/Migrator.antt =====
-- One migration run over a scope: history, gates, transactions and the report
-- (frust-kernel/orm/src/lib.rs). What the database does with one statement on
-- a table, and whether a transaction commits, are parameters; a committed one runs its statements and
-- appends its history row, an aborted one does nothing. A row's JSON text is the snapshot that it decodes to, or nothing if it is corrupt.
-- Messages of errors are left out for what they print.
pub mod Gate
pub mod Account
pub mod Sync
pub mod Revert
use frust.Prelude.{
  ℕ, zero, suc, ◌+◌, ◌-◌, ◌*◌, ◌/◌, ◌%◌, ◌^◌, ◌≤◌, ◌<◌, min, max, compare, Ordering, ◌≡◌, refl, sym,
  ap, ◌∙◌, subst, ◌≢◌, ◌↔◌, ◌⊎◌, inl, inr, Bool, true, false, not, ◌&&◌, ◌||◌, Option, none, some,
  List, [], ◌∷◌, ◌++◌, map, append-nil, append_assoc, arith, ltb, leb, ◌==◌, if◌then◌else◌, ==_iff,
  ltb→lt, leb→le, Bool-cases, Option-cases, bool_eq, length, take, drop, get_elem?, any, filter,
  find, is_empty, length-append, All, All-append, All-map, In, In-append_left, In-append_right,
  In-append,
}
use frust.Prelude.Text.{
  Text, codes, text_eq, text_eq_sound, text_eq_refl, text_eq_iff, text_ltb, text_ltb_irrefl,
  text_ltb_trans, text_ltb_total, contains, contains-In, In-contains,
}
use frust.Prelude.Result.{Result, ok, err, ◌>>=◌}
use frust.OrdMap.{OrdMap, get, insert}
use frust.Orm.Schema.{
  SchemaSnapshot, empty_snapshot, SchemaDiff, Objects, is_empty_diff, diff, destructive, warnings,
  statements,
}
use frust.Orm.Ddl.Run.{run_statements}
use frust.Orm.Ddl.{from_sql}
use frust.Orm.Classify.{FieldChangeReport, classify_diff}
use frust.Orm.Decision.{Environment, DecisionNote, classification_refusal}

pub data Direction : Type 0 where
  up down : Direction

-- A row of the history table.
pub record MigrationRecord : Type 0 where
  pub name : Text
  pub version : ℕ
  pub snapshot : Option SchemaSnapshot
  pub direction : Direction

-- The history table of the scope, oldest row first, and its live schema by table.
pub record Database : Type 0 where
  pub rows : List MigrationRecord
  pub live : OrdMap Objects

pub record MigrationOptions : Type 0 where
  pub dry_run : Bool
  pub allow_destructive : Bool
  pub environment : Environment
  pub acknowledge : Bool

pub record AppliedMigration : Type 0 where
  pub name : Text
  pub version : ℕ
  pub creates : ℕ
  pub alters : ℕ
  pub drops : ℕ
  pub statements : List Text
  pub classifications : FieldChangeReport

pub record PlannedMigration : Type 0 where
  pub name : Text
  pub next_version : ℕ
  pub statements : List Text
  pub destructive : List Text
  pub warnings : List Text
  pub classifications : FieldChangeReport

pub data Failure : Type 0 where
  destructive_change : List Text → Failure
  policy_refuses : List DecisionNote → Failure
  transaction_failed : Failure

pub record MigrationError : Type 0 where
  pub name : Text
  pub failure : Failure

pub record MigrationReport : Type 0 where
  pub considered : ℕ
  pub skipped : ℕ
  pub applied : List AppliedMigration
  pub planned : List PlannedMigration
  pub errors : List MigrationError

abbrev pub empty_report : MigrationReport
empty_report = record { considered = 0; skipped = 0; applied = []; planned = []; errors = [] }

-- `MigrationReport::is_ok`
abbrev pub is_ok : MigrationReport → Bool
is_ok r = is_empty r.errors

-- `AppliedMigration::from_diff`
unfoldable pub applied_from_diff :
    Text → ℕ → SchemaDiff → SchemaSnapshot → SchemaSnapshot → List Text → AppliedMigration
applied_from_diff name version d old new stmts = record {
  name = name;
  version = version;
  creates = length d.creates;
  alters = length d.alters;
  drops = length d.drops;
  statements = stmts;
  classifications = classify_diff old new;
}

-- `PlannedMigration::from_diff`
unfoldable pub planned_from_diff :
    Text → ℕ → SchemaDiff → SchemaSnapshot → SchemaSnapshot → Text → PlannedMigration
planned_from_diff name version d old new on = record {
  name = name;
  next_version = version;
  statements = statements d on;
  destructive = destructive d;
  warnings = warnings d;
  classifications = classify_diff old new;
}

abbrev pub live_at : Text → Database → Objects
live_at on db = elim (get on db.live) [ none ↦ [] | some m ↦ m ]

-- `ORDER BY version DESC`
unfoldable pub insert_newest : MigrationRecord → List MigrationRecord → List MigrationRecord
insert_newest r [] = r ∷ []
insert_newest r (s ∷ rows) =
    let rest = insert_newest r rows in if leb s.version r.version then r ∷ s ∷ rows else s ∷ rest

unfoldable pub history_rows : List MigrationRecord → List MigrationRecord
unfolding insert_newest
history_rows [] = []
history_rows (r ∷ rows) = insert_newest r (history_rows rows)

abbrev pub History : Type 0
History = OrdMap (ℕ × SchemaSnapshot)

-- The loop of `load_history`; the error names the row that is corrupt.
unfoldable pub load_rows : List MigrationRecord → History → Result Text History
load_rows [] m = ok m
load_rows (r ∷ rows) m = elim (get r.name m) [
  | some seen ↦ load_rows rows m
  | none ↦ elim r.snapshot [
    | none ↦ err r.name
    | some s ↦ load_rows rows (insert r.name (r.version, s) m)
  ]
]

unfoldable pub load_history : Database → Result Text History
unfolding load_rows history_rows
load_history db = load_rows (history_rows db.rows) []

-- `run` and `run_revert` end each round alike; this is what the round does with a resource.
pub data Outcome : Type 0 where
  skip : Outcome
  plan : PlannedMigration → Outcome
  fail : Failure → Outcome
  apply : AppliedMigration → Outcome

abbrev pub is_apply : Outcome → Bool
is_apply (apply a) = true
is_apply _ = false

-- What a committed transaction of `apply_resource` leaves: the statements were run in their order,
-- and the history has one row more.
abbrev pub commit :
    (Text → Text → Objects → Objects) → Text → MigrationRecord → List Text → Database → Database
commit exec on row stmts db = record db {
  rows = db.rows ++ row ∷ [];
  live = insert on (run_statements exec on stmts (live_at on db)) db.live;
}

module _ (exec : Text → Text → Objects → Objects) (commits : Database → MigrationRecord → Bool)
    (opts : MigrationOptions) where
  unfoldable pub apply_resource :
      Text → Text → SchemaSnapshot → ℕ → List Text → Direction → Database → Option Database
  apply_resource on name new version stmts dir db =
      let row : MigrationRecord = record {
        name = name;
        version = version;
        snapshot = some new;
        direction = dir;
      } in
      if commits db row then some (commit exec on row stmts db) else none

  -- From the diff of the snapshots on: nothing to do, a plan, the two gates, the transaction.
  unfoldable pub advance :
      Direction → Text → Text → ℕ → SchemaSnapshot → SchemaSnapshot → Database → Database × Outcome
  unfolding apply_resource
  advance dir name on version old new db =
      let d = diff old new in
      let next = version + 1 in
      if is_empty_diff d
      then (db, skip)
      else if opts.dry_run
      then (db, plan (planned_from_diff name next d old new on))
      else if not (is_empty (destructive d)) && not opts.allow_destructive
      then (db, fail (destructive_change (destructive d)))
      else elim (classification_refusal opts.environment opts.acknowledge (classify_diff old new)) [
        | some ns ↦ (db, fail (policy_refuses ns))
        | none ↦ elim (apply_resource on name new next (statements d on) dir db) [
          | none ↦ (db, fail transaction_failed)
          | some db' ↦ (db', apply (applied_from_diff name next d old new (statements d on)))
        ]
      ]

unfoldable pub record_outcome : Text → Outcome → MigrationReport → MigrationReport
record_outcome name skip r = record r { considered = r.considered + 1; skipped = r.skipped + 1 }
record_outcome name (plan p) r = record r {
  considered = r.considered + 1;
  planned = r.planned ++ p ∷ [];
}
record_outcome name (fail f) r = record r {
  considered = r.considered + 1;
  errors = r.errors ++ record { name = name; failure = f } ∷ [];
}
record_outcome name (apply a) r = record r {
  considered = r.considered + 1;
  applied = r.applied ++ a ∷ [];
}

pub record ResourceSpec : Type 0 where
  pub app : Text
  pub name : Text
  pub schema : Text
  pub deps : List Text

-- `format!("{}__{}", reg.app, reg.name)`
abbrev pub full_name : ResourceSpec → Text
full_name reg = reg.app ++ (codes "__" ++ reg.name)

-- The recorded version and snapshot of a resource; version 0 and nothing before its first run.
abbrev pub recorded : Text → History → ℕ × SchemaSnapshot
recorded name history = elim (get name history) [ none ↦ (0, empty_snapshot) | some s ↦ s ]

module _ (exec : Text → Text → Objects → Objects) (commits : Database → MigrationRecord → Bool)
    (opts : MigrationOptions) where
  -- One round of the loop of `run`.
  unfoldable pub migrate_one : History → ResourceSpec → Database → Database × Outcome
  migrate_one history reg db =
      let (version, old) = recorded (full_name reg) history in
      advance exec commits opts up (full_name reg) reg.name version old
        (from_sql reg.name reg.schema) db

  -- The loop of `run` over the ordered resources. The history is that of the start.
  unfoldable pub run_ordered :
      History → List ResourceSpec → Database → MigrationReport → Database × MigrationReport
  run_ordered history [] db r = (db, r)
  run_ordered history (reg ∷ regs) db r =
      let (db', out) = migrate_one history reg db in
      run_ordered history regs db' (record_outcome (full_name reg) out r)

  unfoldable pub run :
      List ResourceSpec → Database → MigrationReport → Result Text (Database × MigrationReport)
  run ordered db r = do history ← load_history db; ok (run_ordered history ordered db r)
