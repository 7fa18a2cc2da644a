-- ===== src/Condition.antt =====
-- Edge conditions: simulate/condition.go and the evaluation in simulate/defaults.go.
pub mod Token
pub mod Parse
pub mod Grammar
pub mod Complete
pub mod Eval
pub mod Ensure
pub mod Kept
pub mod Twice
