-- ===== src/Lib.antt =====
-- A verification library for the core of dippin: the workflow graph, its analyses and its simulator, and the
-- texts and bundles that workflows are read from.
--
-- A workflow (ir/) is a list of nodes and a list of edges. Parallel nodes imply edges to their targets
-- and fan-in nodes edges from their sources; ir/lookup.go adds these to the explicit edges. The
-- validator (validator/) and the coverage report (coverage/) search the graph, the simulator
-- (simulate/) parses the conditions on edges and walks the graph, emitting events (event/). The test
-- runner (testrunner/) runs scenarios and compares the reports with expectations; flattening (flatten/)
-- replaces references to other workflows by their nodes. A text becomes tokens and edges (parser/), which the
-- formatter (formatter/) writes; two workflows are compared (diff/). A bundle (dipx/) packs workflows with a manifest.
--
-- Files and the code they model:
--   Base, Base/*: Go strings as lists of bytes, sets and maps with string keys as lists, tests. TrimSpace knows
--     the white space of Unicode, ToLower the letters of ASCII alone: labels of edges and conditions are compared
--     with their case folded in ASCII.
--   Ir: the records of ir/ir.go, ir/edge.go, ir/source.go and ir/spec.go.
--   Ir/Lookup: ir/lookup.go, function by function: edges_from is EdgesFrom, edges_to is EdgesTo.
--   Ir/Arc: the graph that a workflow stands for, independent of these queries.
--   Search: the breadth-first search of coverage/coverage.go and validator/validate.go; Search/Colors is
--     the colouring of a depth-first search.
--   Coverage/Defs: the adjacency maps and the two graph reports of coverage/coverage.go.
--   Condition/Token, Condition/Parse, Condition/Ensure: simulate/condition.go; Condition/Grammar is
--     the grammar of conditions as derivations.
--   Condition/Eval: the evaluation of conditions in simulate/defaults.go.
--   Simulate/State, Visit, Resolve, Run: simulate/simulate.go with defaults.go, events.go,
--     interactive.go and parallel.go; the simulator that the code mutates is the record Sim, passed
--     from step to step, and an error is a value of Outcome.
--   Simulate/Paths: simulate/path_enumerator.go; Simulate/Paths/Trails describes the paths that are to be
--     found without the search. The printed form of a run ID is an argument.
--   Validate/Defs, Validate/Cycles, Validate/Distance: the checks of validator/validate.go, its cycle
--     search, and levenshtein, of which Validate/Edits has the edits that it counts; Validate/Whole is
--     Validate itself, all checks together.
--   Flatten: flatten/flatten.go; the resolver that loads a referenced workflow is an argument.
--   Testrunner: testrunner/runner.go, types.go and coverage.go. The cases of a suite share a workflow into
--     which each run writes its parsed conditions: after_run is what a run leaves.
--   Dipx/Structure: the structure pass of dipx/manifest.go over the tokens of a bundle's manifest, which
--     the JSON decoder yields; Dipx/Structure/Document has the documents that the tokens stand for.
--   Dipx/Paths: Canonicalize and resolveLexically of dipx/resolve.go, with path.Clean, path.Join, path.Dir and
--     utf8.ValidString, which they call; Dipx/Paths/Component describes what a component may be, and
--     Dipx/Paths/Walk the walks along components. NFC form and strings.ToLower rest on Unicode tables and are arguments.
--   Dipx/Shape, Dipx/Refs: verifyManifestShape of dipx/manifest.go, walkRefs of dipx/helpers.go, and the cycle
--     search of dipx/resolve.go; the workflows that Go keeps in a map are a list in the order of its range.
--   Diff: diff/diff.go without its costs; Go's maps are lists in the order of insertion.
--   Parser/Lexer: the lexer of parser/lexer.go, and Parser/Lexer/Line its part for one line; unicode.IsLetter and
--     unicode.IsDigit are those of ASCII there.
--   Parser/Edges: parser/parse_edges.go, with expect, consumeUntilNewline and parseInt; the lexer is the list of
--     the tokens that are left.
--   Formatter/Values: quoteValue of formatter/format.go.
--   Formatter: the conditions of formatter/format.go; Formatter/Regroup describes chains of one
--     connective.
--   Checks/*: tests, and each result at a concrete input.
-- The other files hold proofs and are named for what they prove.
--
-- Bounds and fuel: the loops of the simulator run on the fuel that is left of maxSteps (500) and one
-- more; each round counts a step, so the code's own test ends them first. The search has the number of
-- entries of the adjacency map and two more; a round takes one node off the queue, which each entry
-- joins once at most. The depth-first search has the size of the map and one more, a bound on its depth,
-- since each call paints a node that was white. The search for all paths has two levels more than its
-- maxDepth (200), which ends it first. Flattening counts the levels that are left of MaxDepth, as the
-- code does, and so does the search for cycles of references (64). The tokenizer has the length of its
-- text, the lexer the number of its lines and, along a line, that of its bytes, the loops of the parser
-- that of their tokens; every round uses one up.
-- Integers of the representation are integers without bounds, which atoi cuts to 64 bits, and of which itoa of
-- diff/diff.go prints those above the least of 64 bits; counters are natural numbers.
--
-- Outside the code: the console of an interactive run is an argument, a function from the number of
-- events so far to the lines that its scanner yields. The scenario, a Go map, is a list in the order
-- in which Go ranges over it, and the run IDs, taken from a counter, are given with the options or cases.
--
-- Not modelled: time stamps; the prompts that are written to the console; the float field
-- CompactionThreshold and the float Percent of an edge coverage; the texts of diagnostics; the
-- extraction of tool outputs from shell commands, which rests on a shell parser; the rest of the
-- formatter; the parser of nodes and of the workflow's fields; and the migration, export, the rest of
-- the bundles, language server, cost and command line, which are other parts of the program.
pub mod Base
pub mod Ir
pub mod Search
pub mod Coverage
pub mod Condition
pub mod Simulate
pub mod Validate
pub mod Flatten
pub mod Testrunner
pub mod Dipx
pub mod Diff
pub mod Parser
pub mod Formatter
pub mod Checks
