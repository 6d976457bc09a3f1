-- ===== src/Dag.antt =====
-- dag/dag.go: task references, the dependency graph, cycle detection and readiness.
pub mod Uri
pub mod Search
pub mod Build
pub mod Ready
