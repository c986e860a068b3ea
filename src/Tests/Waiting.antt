-- ===== src/Tests/Waiting.antt =====
-- The theorem on reads, at a leader with two reads that wait.
use raft_rust.Base.{ℕ, ◌≡◌, refl, [], ◌∷◌, u64_add, u64_limit}
use raft_rust.NodeSet
use raft_rust.Membership.{has_quorum, is_majority, quorum_size}
use raft_rust.Log.Table
use raft_rust.Log.Ops.{set_term_vote, append_entry, commit}
use raft_rust.Node.Types.{RawNode, Leader, Read}
use raft_rust.Node.Common.{send}
use raft_rust.Node.Reads.{
  maybe_read, read_waiting, serve, read_reply, quorum_read_seq, reads_quorum, last_confirmed,
  confirmed_from, matched_seq, sequences,
}
use raft_rust.Tests.Data.{one_committed, or_else}
use raft_rust.Tests.Nodes.{counter}
use raft_rust.Tests.Leaders.{lead}

abbrev waiting_read : ℕ → Read
waiting_read seq = record { seq = seq; from = 1; id = seq; command = seq ∷ [] }

-- Node 2 has confirmed the first read, and no other node the second.
abbrev asked : RawNode ℕ Leader
asked = record (lead one_committed) {
  role = record ((lead one_committed).role) {
    read_seq = 2;
    reads = waiting_read 1 ∷ waiting_read 2 ∷ [];
    progress =
        (2, record { match_index = 2; next_index = 3; read_seq = 1 })
        ∷ (3, record { match_index = 1; next_index = 2; read_seq = 0 })
        ∷ [];
  };
}

abbrev read_once : RawNode ℕ Leader
unfolding maybe_read
read_once = or_else asked (maybe_read counter asked)

-- One of the two is answered.
read_once-reads : read_once.role.reads ≡ waiting_read 2 ∷ []
unfolding maybe_read read_waiting serve read_reply quorum_read_seq reads_quorum last_confirmed
    confirmed_from matched_seq sequences has_quorum is_majority quorum_size NodeSet.count_common
    NodeSet.contains NodeSet.insert NodeSet.extend send append_entry u64_add u64_limit commit
    set_term_vote Table.lookup Table.flush_if Table.write
read_once-reads = refl
