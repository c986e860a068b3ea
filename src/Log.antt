-- ===== src/Log.antt =====
-- The replicated log of one node, src/raft/log.rs.
pub mod Entry
pub mod Table
pub mod Ops
pub mod Rows
pub mod Splice
pub mod Runs
pub mod Invariant
pub mod Keeps
pub mod Compact
pub mod Scan
pub mod Tail
pub mod Recovery
pub mod Reach
pub mod Crash
pub mod Synced
pub mod Restart
pub mod Lead
pub mod Keys
pub mod Votes
