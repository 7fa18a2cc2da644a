-- ===== src/Coverage.antt =====
-- coverage/coverage.go, the analysis of edge coverage, reachability and termination.
pub mod Defs
pub mod Graph
pub mod Reports
