-- ===== src/Workflow/Store.antt =====
-- The command store: go/internal/workflow/store.go.
pub mod Rows
pub mod Tables
pub mod Commands
pub mod Records
pub mod Dependents
pub mod Gates
pub mod Execute
pub mod Sound
pub mod Within
pub mod Steps
pub mod Decisions
pub mod Kept
pub mod Replay
