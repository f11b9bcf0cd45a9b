-- ===== src/Workflow/Task.antt =====
-- Tasks: go/internal/workflow/task.go.
pub mod States
pub mod Model
pub mod Command
pub mod Checks
pub mod Apply
pub mod Inversion
pub mod Lifecycle
pub mod Effect
pub mod Evidence
pub mod Fencing
pub mod Trace
pub mod Approval
pub mod Attempts
