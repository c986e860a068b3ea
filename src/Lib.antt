-- ===== src/Lib.antt =====
-- raft_rust: the consensus library of this repository and what makes it safe.
--
-- The parts, and how they meet. A node (src/raft/node.rs) is a follower, a candidate or a leader. It
-- is driven by messages (src/raft/message.rs) and by ticks, keeps its log (src/raft/log.rs) in a
-- key-value engine (src/storage), follows the configuration of the cluster
-- (src/raft/membership.rs), and hands committed entries to a state machine (src/raft/state.rs).
--
-- - Base: the shared names, list functions on the native numbers, and `Outcome`, which is a result,
--   an error, or a panic. Every failed `assert!`, `panic!`, `expect` and overflow is `panic`.
-- - NodeSet: `BTreeSet<NodeID>` as an ascending list; Membership: src/raft/membership.rs, with the
--   overlap of quorums in Membership/Quorum.
-- - Log/Entry, Log/Table, Log/Ops, Log/Splice: `struct Log` of src/raft/log.rs, one function for
--   each of its methods. The invariant is in Log/Invariant, what each method keeps of it in
--   Log/Keeps, Log/Splice/Laws and Log/Compact, the restart in Log/Recovery, the term and the vote
--   in Log/Votes, and any sequence of operations in Log/Reach; what a crash leaves in Log/Crash,
--   Log/Synced and Log/Restart. Log/Keys has `Key` and its bytes.
-- - Message and StateMachine: the data of the messages, and the trait `State` as an interface that
--   the node takes as a parameter.
-- - Node/Types, Node/Common: the types of src/raft/node.rs and the generic `impl RawNode<R>`;
--   Node/Campaign: how a candidate campaigns and ticks; Node/Follower and Node/Receive:
--   `impl RawNode<Follower>`. What a follower's steps do to its log is in Node/Logs, Node/Votes and
--   Node/Steps.
-- - Node/Progress, Node/Replicate, Node/Commit, Node/Reads: what a leader knows of its peers, what it
--   sends to them, which index it commits and which reads it answers, of `impl RawNode<Leader>`;
--   Node/Majority, Node/Appends and Node/ReadQuorum have the theorems.
-- - Node/Elect: how a candidate wins or gives up; Node/Lead, Node/LeaderStep, Node/Change and
--   Node/Apply: the rest of `impl RawNode<Leader>`, from its messages and ticks to changes of the
--   membership, the application of entries and snapshots; Node/Drive: `impl Node`. Log/Lead has what
--   a leader does to its log; Node/LeadLogs, Node/SnapshotGrows, Node/LeadGrows, Node/LeadRequests,
--   Node/LeadSteps and Node/StepDown follow its functions,
--   Node/Elections and Node/Wins the candidate's, Node/Elected what a victory rests on, and
--   Node/LeaderSafe and Node/Safety put the three roles together, and Node/Restarts has the restarts.
-- - KeyMap: `BTreeMap` and `HashMap`; Codec: the serializer, a parameter. Kv and Session:
--   src/raft/kv.rs and src/raft/session.rs, each an instance of StateMachine, the second around
--   any other one, with their theorems in Kv/Laws, Session/Noted, Session/Once and
--   Session/Snapshots.
-- - Bitcask: src/storage/bitcask.rs, whose file is its bytes: the entries as they are written and
--   read, whole and torn (Bitcask/Entries), what opening makes of a file (Bitcask/Scan,
--   Bitcask/Open), the engine as a map (Bitcask/Reads, Bitcask/Laws), and compaction
--   (Bitcask/Compaction). Wire: the frames of src/net/codec.rs on a stream of bytes.
-- - Election: any number of nodes together. Election/World is their world, in which nodes tick,
--   take messages, send and restart in any order, and nothing is promised of the delivery of a
--   message; the configuration in force stays one and the same, and a start gives a leader only
--   where that node is a quorum of it alone. Election/Starts has what a start does. Election/Ballots to
--   Election/Turning say what each step does to the votes that a node has given and counts,
--   Election/Invariant and Election/Moves put them together, and Election/Safety has the theorem.
-- - Cluster: src/cluster/mod.rs. Cluster/Transport is `Transport`, with its calls in any order in
--   Cluster/Traffic and what they do in Cluster/Cuts, Cluster/Delivery, Cluster/Stock and
--   Cluster/Once; Cluster/Client is `Client`, with Cluster/Requests and Cluster/Served on it;
--   Cluster/Threads is `run_node`, with Cluster/Loops and Cluster/Callers; Cluster/Group is `Cluster`,
--   with Cluster/Links and Cluster/Linked.
-- - Tests: the theorems at concrete logs, configurations and nodes.
--
-- How state corresponds. A method on `&mut self` takes the state and returns the new one. The
-- engine is an ideal map with one typed table for each kind of key: `table` is what was written, and
-- `durable` a copy of it as of the last `flush`. A start reads `table`
-- after the end of a process, and `durable` after a crash of the machine, which loses all that was
-- not flushed; crashes that lose only a part of it are not modelled. `tx` is the list of the envelopes sent so far, and
-- `draws` are the random numbers to come. `step`, which calls itself once after it has taken up a newer
-- term, is written out.
--
-- Bounds. `u64` is a natural number whose additions are checked against 2 ^ 64, and `u8` ticks are
-- checked against 255, as in a build that checks overflow. The loops are
-- recursions on lists, and the deletions of a range recur on its length. Only the scan of a bitcask
-- file runs on fuel, one more than the length of the file, of which an entry takes at least 8 bytes.
--
-- Rates. `f64` and what the transport does with it stand in `Rates`, and what comes of a call of a
-- node's channel, which may be anything, in `Calls`. A thread of a cluster is a function of the
-- events that its `select!` finds, with the random numbers that the transport draws; what a node has
-- sent and its thread has not taken yet is its `tx` behind the first `taken` envelopes. A mailbox is a
-- list, and the client's channels are the set of their nodes.
--
-- The node calls `session::encode_session` and `Engine::status` through `Services`. A call of a state
-- machine that fails keeps what it changed, so it returns the machine beside its result.
--
-- Not modelled: errors of the disk, the byte encoding of the log's values, which with that of its
-- keys stands between the engine of Log/Table and Bitcask, the serializer, locks on files, logging,
-- sockets, how the threads of a cluster take turns, the time that a call waits, configuration files,
-- and the programs.
pub mod Base
pub mod NodeSet
pub mod KeyMap
pub mod Membership
pub mod Log
pub mod Message
pub mod Codec
pub mod StateMachine
pub mod Kv
pub mod Bitcask
pub mod Wire
pub mod Session
pub mod Node
pub mod Election
pub mod Cluster
pub mod Tests
