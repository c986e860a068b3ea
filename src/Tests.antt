-- ===== src/Tests.antt =====
-- The theorems at concrete logs, configurations and nodes.
mod Data
mod Members
mod Logs
mod Nodes
mod Leaders
mod Waiting
mod Elections
mod Votes
mod Cluster
mod Machines
mod Storage
