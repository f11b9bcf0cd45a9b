-- ===== src/Workflow.antt =====
-- The package go/internal/workflow: runs, tasks, their commands and the command store.
pub mod Types
pub mod Actors
pub mod Task
pub mod Plan
pub mod Run
pub mod Store
mod Tests
