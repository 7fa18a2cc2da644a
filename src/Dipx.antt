-- ===== src/Dipx.antt =====
-- dipx/: bundles of workflows.
pub mod Errors
pub mod Paths
pub mod Refs
pub mod Shape
pub mod Structure
