-- ===== src/Checks.antt =====
-- Tests of the definitions on concrete inputs, and each theorem at an input that meets its hypotheses.
mod Samples
mod Graphs
mod Conditions
mod Validations
mod Runs
mod Flattens
mod Suites
mod Paths
mod Manifests
mod Formats
mod Bundles
mod Texts
mod Diffs
mod Edges
