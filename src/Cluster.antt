-- ===== src/Cluster.antt =====
-- A cluster within one process, src/cluster/mod.rs.
pub mod Transport
pub mod Cuts
pub mod Traffic
pub mod Delivery
pub mod Stock
pub mod Once
pub mod Client
pub mod Requests
pub mod Served
pub mod Threads
pub mod Group
pub mod Links
pub mod Linked
pub mod Loops
pub mod Callers
