-- ===== src/Agents.antt =====
-- backend/app/agents: the queue of agent runs.
pub mod Store
pub mod Records
pub mod RunStore
pub mod Json
pub mod Batches
pub mod Window
pub mod History
mod Tests
