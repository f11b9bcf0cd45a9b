-- ===== src/Workflow/Tests.antt =====
-- Concrete tasks, plans and runs: the theorems at inputs that meet their hypotheses, and tests.
mod Samples
mod Tasks
mod Plans
mod Life
mod Runs
mod Stores
