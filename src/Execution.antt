-- ===== src/Execution.antt =====
-- backend/app/execution: the queue of isolated container tasks.
pub mod Result
pub mod Exec
pub mod Contracts
pub mod Policy
pub mod Store
pub mod Repository
pub mod Service
pub mod Docker
pub mod Worker
mod Samples
mod Tests
