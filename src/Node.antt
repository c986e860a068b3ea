-- ===== src/Node.antt =====
-- A node of the cluster, src/raft/node.rs.
pub mod Types
pub mod Common
pub mod Campaign
pub mod Follower
pub mod Receive
pub mod Votes
pub mod Logs
pub mod Steps
pub mod Progress
pub mod Commit
pub mod Majority
pub mod Replicate
pub mod Appends
pub mod Reads
pub mod ReadQuorum
pub mod Change
pub mod Apply
pub mod Lead
pub mod LeaderStep
pub mod Elect
pub mod Drive
pub mod LeadLogs
pub mod SnapshotGrows
pub mod LeadGrows
pub mod StepDown
pub mod LeadRequests
pub mod LeadSteps
pub mod Elections
pub mod Wins
pub mod Elected
pub mod LeaderSafe
pub mod Safety
pub mod Restarts
