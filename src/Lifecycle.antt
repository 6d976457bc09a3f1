-- ===== src/Lifecycle.antt =====
-- internal/cli/coordination_ops.go, lease.go and handoff.go: the state transitions.
pub mod Guards
pub mod Leases
pub mod Decompose
pub mod Create
pub mod Update
pub mod Prune
pub mod Invariant
pub mod Exclusion
pub mod Acyclic
pub mod Children
pub mod Creation
pub mod Pruning
pub mod Edges
pub mod Lengths
pub mod Editing
pub mod Updating
pub mod Pruned
