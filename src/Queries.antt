-- ===== src/Queries.antt =====
-- internal/cli/cmd_whatif.go, cmd_dependents.go and cmd_lineage.go: questions about the graph.
pub mod Simulate
pub mod Blocking
pub mod Prediction
pub mod Lineage
pub mod Children
pub mod Descendants
