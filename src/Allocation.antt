-- ===== src/Allocation.antt =====
-- internal/cli/allocation.go: which ready task a worker gets, and why it gets none.
pub mod Rank
pub mod Compact
pub mod Diagnose
pub mod Acquire
pub mod Order
pub mod Replay
pub mod Counts
pub mod Grant
pub mod Steady
