-- ===== src/Journal.antt =====
-- The coordinator's command journal: src/internal/state/commands.go, with lifecycle_reconcile.go,
-- named_agent.go and the coordinator's half of lifecycle.go.
pub mod Outcomes
pub mod Records
pub mod Fence
pub mod Store
pub mod Evolution
pub mod Keys
pub mod Steps
pub mod Growth
pub mod Admission
pub mod Sweeping
pub mod Methods
pub mod Dispatch
pub mod Recovery
pub mod Retry
