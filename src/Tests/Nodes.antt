-- ===== src/Tests/Nodes.antt =====
-- The theorems on the node, at a follower of three nodes with a state machine that counts.
use raft_rust.Base.{ℕ, ◌≡◌, refl, ok, none, true, false, [], ◌∷◌, u64_add, u64_limit}
use raft_rust.NodeSet
use raft_rust.Membership.{all_voters, simple}
use raft_rust.Message.{Envelope, Message}
use raft_rust.Log.Table
use raft_rust.Log.Ops.{Log, set_term_vote, append_entry, commit, scan, has}
use raft_rust.Log.Splice.{
  splice, write_remaining, last_of, is_contiguous, terms_ascend, check_base, skip_existing,
}
use raft_rust.StateMachine.{StateMachine}
use raft_rust.Node.Types.{RawNode, Follower, Options}
use raft_rust.Node.Common.{send, adopt_memberships}
use raft_rust.Node.Follower.{new_follower, from_leader, on_campaign, into_follower, abort_forwarded}
use raft_rust.Node.Receive.{
  follower_step, dispatch, on_append, note_leader, is_prevote, check_first,
}
use raft_rust.Tests.Data.{entry, in_term_two, or_else, one_committed}

abbrev pub counter : StateMachine
counter = record {
  Machine = ℕ;
  get_applied_index = λ n. n;
  apply = λ n e. (e.index, ok []);
  read = λ n command. ok command;
  snapshot = λ n. ok (n ∷ []);
  restore = λ n bytes index. (index, ok tt);
}

abbrev pub options : Options
options = record {
  heartbeat_interval = 4;
  election_timeout_start = 10;
  election_timeout_end = 20;
  max_append_entries = 100;
  pre_vote = true;
  check_quorum = true;
  snapshot_threshold = 0;
}

abbrev node : Log → RawNode ℕ Follower
node log = record {
  id = 1;
  membership = record {
    active = simple (record { voters = 1 ∷ 2 ∷ 3 ∷ [] });
    change_pending = false;
  };
  log = log;
  state = 0;
  tx = [];
  opts = options;
  draws = [];
  role = new_follower none 12;
}

abbrev from_three : Envelope
from_three = record {
  from = 3;
  term = 2;
  to = 1;
  message = Message.append 1 1 (entry 2 2 ∷ entry 3 2 ∷ []);
}

abbrev appended_node : RawNode ℕ Follower
unfolding follower_step
appended_node = or_else (node in_term_two) (follower_step counter (node in_term_two) from_three)

appended_node-follower_step : follower_step counter (node in_term_two) from_three ≡ ok appended_node
unfolding set_term_vote append_entry u64_add u64_limit commit splice write_remaining last_of
    is_contiguous terms_ascend check_base skip_existing scan Table.lookup Table.flush_if Table.write
    Table.write_all Table.delete_range Table.delete Table.range follower_step dispatch is_prevote
    note_leader check_first from_leader into_follower abort_forwarded on_append has NodeSet.contains
    all_voters adopt_memberships send
appended_node-follower_step = refl

abbrev voted_node : RawNode ℕ Follower
unfolding on_campaign
voted_node = or_else (node one_committed) (on_campaign (node one_committed) 3 1 2 1)
