-- ===== src/Validate.antt =====
-- The structure checks of validator/validate.go, DIP001 to DIP009.
pub mod Distance
pub mod Edit
pub mod Edits
pub mod Defs
pub mod Graph
pub mod Duplicates
pub mod Pairs
pub mod Cycles
pub mod Whole
