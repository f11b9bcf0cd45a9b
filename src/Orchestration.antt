-- ===== src/Orchestration.antt =====
-- The reconciler that drives the stages of a run: go/internal/orchestration/reconciler.go.
pub mod Backoff
pub mod Failure
pub mod Once
pub mod Released
mod Tests
