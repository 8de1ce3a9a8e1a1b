-- ===== src/Parser.antt =====
-- core/src/parser.ts: the incremental parser of the protocol that the server speaks.
-- The state of the parser, its events and its errors stand in Defs, the split of an argument line
-- in Args, the arms of the loop's `switch` in Step, and `parse` in Loop.
pub mod Defs
pub mod Args
pub mod Step
pub mod Loop
pub mod Wire
pub mod Simulation
pub mod Rounds
pub mod Jumps
pub mod Refinement
pub mod Running
pub mod Settling
pub mod Chunks
pub mod Ops
