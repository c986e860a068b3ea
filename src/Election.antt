-- ===== src/Election.antt =====
-- Elections across the nodes of a cluster: who votes for whom in src/raft/node.rs.
pub mod Ballots
pub mod Followers
pub mod Grants
pub mod Leaders
pub mod Applied
pub mod Proposals
pub mod Asked
pub mod Responses
pub mod Candidates
pub mod Backing
pub mod Steps
pub mod Leading
pub mod Turning
pub mod World
pub mod Starts
pub mod Invariant
pub mod Moves
pub mod Safety
