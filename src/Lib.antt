-- ===== src/Lib.antt =====
-- Verification of frust: the migration engine (frust-kernel/orm), and the broker with its query
-- texts, the decimals, the workflow engine, the hook chain and the job queue of the kernel
-- (frust-kernel/kernel).
--
-- The migration engine reads the DDL of a resource into a snapshot, diffs it against the snapshot
-- that the history records, classifies each change of a field, asks the policy of the environment,
-- and applies the statements in one transaction with a new history row. A fleet rollout runs that
-- for one tenant after the other, behind a canary stage. The workflow engine judges a transition
-- before the kernel writes it, and lists the buttons that a user sees. Workers claim
-- jobs under leases that expire, in an order that is fair to tenants, and an update by a worker is
-- fenced by its lease. A hook that writes carries the chain of the hooks above it. The broker reads
-- and writes documents under the session of its caller: it asks the hooks, keeps what was changed,
-- renders one statement through the query texts and takes an answer without a row as a refusal. A
-- workflow transition is a read, a judgement and such a write. The router leads a bearer token to the
-- context of the tenant whose name it bears.
--
-- Which file models what:
--   OrdMap: `BTreeMap<String, _>`, a list of entries with rising keys.
--   Orm/Schema: frust-kernel/orm/src/schema.rs, `diff`, `destructive`, `warnings`, `statements`.
--     Orm/Schema/Apply keeps a live schema as one object at a key; it is a specification, not code of
--     the repository, and Orm/Ddl/Run holds the statements as they are sent against it.
--   Orm/Ddl: the same file, `split_statements`, `parse_define`, `SchemaSnapshot::from_sql`.
--     Orm/Ddl/Split has a grammar of statements, and Orm/Ddl/Block of the blocks that are read.
--   Orm/Field: frust-kernel/orm/src/field.rs; the parser is Orm/Field/Read. Orm/Field/Compat says which
--     values a field definition accepts.
--   Orm/Classify: frust-kernel/orm/src/classify.rs.
--   Orm/Decision: frust-kernel/orm/src/decision.rs, and `classification_refusal`,
--     `apply_decision_for_report` and `boot_action_for_report` of frust-kernel/orm/src/lib.rs.
--   Orm/Migrator: `run`, `run_revert`, `apply_resource`, `load_history`, `load_full_history` of
--     frust-kernel/orm/src/lib.rs (the revert is Orm/Migrator/Revert). A round of either loop is
--     `advance`, which the two share.
--   Orm/Fleet: frust-kernel/orm/src/fleet.rs, `plan_rollout` and the guarded stage of
--     `migrate_fleet_inner`.
--   Orm/Lock: `lock_acquire` and what it calls, of frust-kernel/orm/src/lib.rs; its runners are steps of
--     a world with one record, a clock and a phase for each runner.
--   Orm/Drift: `detect_scope_drift` of frust-kernel/orm/src/drift.rs.
--   Kernel/Contract: the values, paths and filters of frust-kernel/kernel/src/contract.rs.
--   Kernel/Surql: frust-kernel/kernel/src/surql.rs. Kernel/Surql/Lex is a lexer of string literals, which
--     the query texts are held against; it is a specification, not code of the repository.
--   Kernel/Decimal: frust-kernel/kernel/src/decimal.rs. Kernel/Decimal/Rounding says what a rounded
--     fraction is.
--   Kernel/Broker: frust-kernel/kernel/src/broker.rs, the values of a document and what is stored of it.
--     Kernel/Broker/Write is `db_write_inner`, Kernel/Broker/Read `db_read_inner` and
--     `db_aggregate_inner`, Kernel/Broker/Transition `db_transition`.
--   Kernel/Cache: `load_doctype` of broker.rs and the generation of frust-kernel/kernel/src/tenant_gen.rs;
--     its requests are steps of a world, as those of Orm/Lock are.
--   Kernel/Router: frust-kernel/kernel/src/router.rs.
--   Kernel/Workflow: frust-kernel/kernel/src/workflow.rs.
--   Kernel/Hooks: `HookClass` of frust-kernel/kernel/src/contract.rs and `HookChain` of broker.rs there.
--   Kernel/Fairness: `fair_round` of frust-kernel/kernel/src/fairness.rs; its loop runs on fuel, one more
--     than the jobs, since each pass but the last takes a job.
--   Kernel/Job: frust-kernel/kernel/src/worker.rs, the claim of a job, its fenced updates and the reaper.
--     Kernel/Job/World has the executions as steps of a row, a clock and the leases that were given. A
--     token is used once, as next_claim_token makes it of the time, the process and a counter.
--   Prelude: texts as lists of bytes, the string operations of Rust that the sources use, results.
--
-- Texts are lists of character codes. The numbers are natural numbers; the hash of a cohort wraps
-- at 64 bits. `parse_inner` runs on fuel, one more than the length of the text, since each level of a
-- type takes characters away.
-- What the database does with one DDL statement is a parameter, with what its manual says of an
-- overwriting `DEFINE` and of `REMOVE … IF EXISTS` as hypotheses (Orm/Ddl/Run). Whether a transaction
-- commits, whether the migration of a tenant succeeds and whether a checkpoint
-- is written are parameters: functions that a theorem takes for all values. So are the database under
-- the caller's session, with its store, the hook dispatcher, and the text of an `f64`. An `i128`
-- is a sign and a magnitude, and what the code leaves unchecked wraps around at 128 bits.
--
-- Not modelled: the queries of the migration engine and the connection, the texts of messages and
-- reasons, the order of resources by their links, artifacts, deletion and notifications of the broker,
-- and the rest of the kernel.
pub mod Prelude
pub mod OrdMap
pub mod Orm
pub mod Kernel
