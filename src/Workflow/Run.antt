-- ===== src/Workflow/Run.antt =====
-- Runs: go/internal/workflow/run.go and run_completion.go.
pub mod States
pub mod Model
pub mod Command
pub mod Intake
pub mod Completion
pub mod Apply
pub mod Decide
pub mod Inversion
pub mod Lifecycle
pub mod Evidence
pub mod History
pub mod Approvals
pub mod Merge
