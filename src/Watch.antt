-- ===== src/Watch.antt =====
-- internal/watch/manager.go: the background review watches of one server process.
pub mod State
pub mod Persist
pub mod Start
pub mod Reads
pub mod Listing
pub mod Cancel
pub mod Outcome
pub mod Poll
pub mod Life
pub mod Worker
pub mod Backed
