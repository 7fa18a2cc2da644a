-- ===== src/Simulate.antt =====
-- The reference executor: simulate/simulate.go, defaults.go, events.go, interactive.go, parallel.go.
pub mod State
pub mod Visit
pub mod Resolve
pub mod Run
pub mod Paths
pub mod Frame
pub mod Rule
pub mod Keeps
pub mod Trace
pub mod Chosen
pub mod Reachable
pub mod Fuel
