-- ===== src/Workflow/Plan.antt =====
-- Task graph planning: `NewPlannedTasks` of go/internal/workflow/task.go.
pub mod Graph
pub mod Counting
pub mod Kahn
pub mod Build
pub mod Accepted
