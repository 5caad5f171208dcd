-- ===== src/Orm.antt =====
-- The migration engine (frust-kernel/orm/src).
pub mod Schema
pub mod Ddl
pub mod Field
pub mod Classify
pub mod Decision
pub mod Migrator
pub mod Fleet
pub mod Lock
pub mod Drift
mod Tests
