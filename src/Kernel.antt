-- ===== src/Kernel.antt =====
-- The kernel (frust-kernel/kernel/src).
pub mod Contract
pub mod Decimal
pub mod Broker
pub mod Surql
pub mod Workflow
pub mod Hooks
pub mod Fairness
pub mod Job
pub mod Cache
pub mod Router
