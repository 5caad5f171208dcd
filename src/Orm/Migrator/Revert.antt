-- ===== src/Orm/Migrator/Revert.antt =====
-- The revert of a scope to recorded snapshots (frust-kernel/orm/src/lib.rs, `run_revert` and
-- `load_full_history`).
use frust.Prelude.{ℕ, Bool, Option, none, some, List, [], ◌∷◌, ◌++◌, ltb, ◌==◌, if◌then◌else◌, find}
use frust.Prelude.Text.{Text}
use frust.Prelude.Result.{Result, ok, err, ◌>>=◌}
use frust.OrdMap.{OrdMap, get, insert}
use frust.Orm.Schema.{Objects, SchemaSnapshot}
use frust.Orm.Migrator.{
  down, MigrationRecord, Database, MigrationOptions, MigrationReport, history_rows, Outcome, skip,
  advance, record_outcome,
}

-- `load_full_history`: every recorded step of a name, newest first.
unfoldable pub load_full_rows :
    List MigrationRecord
    → OrdMap (List (ℕ × SchemaSnapshot))
    → Result Text (OrdMap (List (ℕ × SchemaSnapshot)))
load_full_rows [] m = ok m
load_full_rows (r ∷ rows) m = elim r.snapshot [
  | none ↦ err r.name
  | some s ↦
      let seen : List (ℕ × SchemaSnapshot) = elim (get r.name m) [ none ↦ [] | some l ↦ l ] in
      load_full_rows rows (insert r.name (seen ++ (r.version, s) ∷ []) m)
]

-- The snapshot to revert to, from the steps of a resource, newest first.
unfoldable pub revert_target : Option ℕ → List (ℕ × SchemaSnapshot) → Option SchemaSnapshot
revert_target to [] = none
revert_target none (current ∷ []) = none
revert_target none (current ∷ (v, s) ∷ older) = some s
revert_target (some v) ((cur, s) ∷ older) =
    if ltb v cur
    then elim (find (λ (e : ℕ × SchemaSnapshot). e.0 == v) ((cur, s) ∷ older)) [
      | none ↦ none
      | some e ↦ some e.1
    ]
    else none

module _ (exec : Text → Text → Objects → Objects) (commits : Database → MigrationRecord → Bool)
    (opts : MigrationOptions) (to_version : Option ℕ) where
  -- One round of the loop of `run_revert`.
  unfoldable pub revert_one : Text → List (ℕ × SchemaSnapshot) → Database → Database × Outcome
  unfolding revert_target
  revert_one name [] db = (db, skip)
  revert_one name ((cur, snap) ∷ older) db = elim (revert_target to_version ((cur, snap) ∷ older)) [
    | none ↦ (db, skip)
    | some target ↦ advance exec commits opts down name snap.table_name cur snap target db
  ]

  unfoldable pub revert_names :
      OrdMap (List (ℕ × SchemaSnapshot)) → Database → MigrationReport → Database × MigrationReport
  revert_names [] db r = (db, r)
  revert_names ((name, steps) ∷ rest) db r =
      let (db', out) = revert_one name steps db in revert_names rest db' (record_outcome name out r)

  unfoldable pub run_revert : Database → MigrationReport → Result Text (Database × MigrationReport)
  run_revert db r = do
    history ← load_full_rows (history_rows db.rows) []
    ok (revert_names history db r)
