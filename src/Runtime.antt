-- ===== src/Runtime.antt =====
-- The runtime ledger: go/internal/runtime.
pub mod Jobs
pub mod Queue
pub mod Follows
pub mod Calls
pub mod History
pub mod Fencing
pub mod Claims
pub mod Idempotency
pub mod Replies
mod Tests
