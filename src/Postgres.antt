-- ===== src/Postgres.antt =====
-- The retry of database transactions: go/internal/postgres/retry.go.
pub mod Retry
pub mod Retried
mod Tests
