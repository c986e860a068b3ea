-- ===== src/Tests/Elections.antt =====
-- The theorems on elections and on whole runs, at a candidate of three nodes and at a node alone.
use raft_rust.Base.{
  err, panic, ℕ, ◌≡◌, refl, ok, some, true, false, [], ◌∷◌, u64_add, u64_limit, Outcome,
}
use raft_rust.Membership.{simple, all_voters, has_quorum}
use raft_rust.Message.{Envelope, Message}
use raft_rust.Log.Ops.{
  Log, set_term_vote, append_entry, commit, get, has, scan, new, same_vote, scan_apply,
}
use raft_rust.Log.Reach.{IsSound, here, next, voted, Reach-IsSound, fresh-IsSound, fresh}
use raft_rust.Log.Votes.{KeepsVote}
use raft_rust.Node.Types.{RawNode, Candidate, Leader, Node, candidate, follower, leader, election}
use raft_rust.Node.Common.{
  send, send_all, broadcast, is_known_sender, peers, cluster_size, into_role,
}
use raft_rust.Node.Campaign.{new_candidate, quorum_reached}
use raft_rust.Node.Progress.{new_leader, progress_of}
use raft_rust.Node.Replicate.{propose, heartbeat, maybe_send_append}
use raft_rust.Node.Apply.{maybe_commit_and_apply}
use raft_rust.Node.Elect.{
  candidate_step, candidate_by, candidate_ordinary, candidate_dispatch, on_vote, count_vote,
  lead_if, into_leader, take_lead, is_election,
}
use raft_rust.Node.Elected.{WonFrom, candidate_step-Victory}
use raft_rust.Log.Ops as Ops
use raft_rust.Log.Table as Table
use raft_rust.Membership as Membership
use raft_rust.Node.Apply as Apply
use raft_rust.Node.Campaign as Campaign
use raft_rust.Node.Commit as Commit
use raft_rust.Node.Common as Common
use raft_rust.Node.Drive as Drive
use raft_rust.Node.Elect as Elect
use raft_rust.Node.Follower as Follower
use raft_rust.Node.LeaderStep as LeaderStep
use raft_rust.Node.Progress as Progress
use raft_rust.Node.Reads as Reads
use raft_rust.Node.Receive as Receive
use raft_rust.Node.Replicate as Replicate
use raft_rust.NodeSet as NodeSet
use raft_rust.Tests.Leaders.{lead}
use raft_rust.Node.LeaderStep.{Services, leader_step}
use raft_rust.Node.LeaderSafe.{leader_step-Extends}
use raft_rust.Node.Safety.{begins, receives, Run-KeepsVote}
use raft_rust.Node.Restarts as Restarts
use raft_rust.Node.Restarts.{NodeLife, starts, node_restart}
use raft_rust.Log.Crash as Crash
use raft_rust.Log.Restart.{Recovers}
use raft_rust.Node.Drive.{start, step}
use raft_rust.Log.Lead.{Extends}
use raft_rust.Message.{Request}
use raft_rust.Tests.Data.{or_else}
use raft_rust.Tests.Nodes.{counter, options}

abbrev in_own_term : Log
in_own_term = or_else fresh (set_term_vote fresh 1 (some 1))

-- Node 1 stands in term 1 and has its own vote.
abbrev standing : RawNode ℕ Candidate
standing = record {
  id = 1;
  membership = record {
    active = simple (record { voters = 1 ∷ 2 ∷ 3 ∷ [] });
    change_pending = false;
  };
  log = in_own_term;
  state = 0;
  tx = [];
  opts = options;
  draws = [];
  role = record (new_candidate 12 election) { votes = 1 ∷ [] };
}

abbrev vote_of_two : Envelope
vote_of_two = record { from = 2; term = 1; to = 1; message = Message.campaign_response true }

abbrev pub leader_of : RawNode ℕ Leader → Outcome (Node ℕ) → RawNode ℕ Leader
leader_of d (ok (leader l)) = l
leader_of d (ok (candidate c)) = d
leader_of d (ok (follower f)) = d
leader_of d (err e) = d
leader_of d panic = d

abbrev elected : RawNode ℕ Leader
unfolding candidate_step
elected = leader_of (lead fresh) (candidate_step counter standing vote_of_two)

abbrev pub services : Services
services = record {
  encode_session = λ client seq command. client ∷ seq ∷ command;
  storage_status = λ engine. record { keys = 0; size = 0; disk_size = 0; live_disk_size = 0 };
}

abbrev write_request : Envelope
write_request = record {
  from = 1;
  term = 1;
  to = 1;
  message = Message.client_request 7 (Request.write (5 ∷ []));
}

abbrev written : RawNode ℕ Leader
unfolding candidate_step leader_step
written = leader_of (lead fresh) (leader_step counter services elected write_request)

-- The vote of node 2 makes node 1 the leader, which then takes a write.
elected_run :
    (candidate_step counter standing vote_of_two ≡ ok (leader elected))
    × (leader_step counter services elected write_request ≡ ok (leader written))
    × (step counter services (candidate standing) vote_of_two ≡ ok (leader elected))
    × (step counter services (leader elected) write_request ≡ ok (leader written))
unfolding Apply.maybe_commit_and_apply Campaign.quorum_reached Commit.advance_commit
    Common.broadcast Common.cluster_size Common.is_known_sender Common.peers Common.send Drive.step
    Elect.candidate_step Elect.is_election LeaderStep.leader_step Membership.all_voters
    Membership.has_quorum Membership.is_majority Membership.peers_of NodeSet.count_common
    NodeSet.remove NodeSet.union Ops.append_entry Ops.scan_apply Ops.set_term_vote
    Progress.new_leader Replicate.heartbeat Replicate.propose Table.flush_if Table.lookup
    Table.range Table.write_all u64_add u64_limit
elected_run = (refl, refl, refl, refl)

candidate_step-Victory_example : WonFrom counter standing vote_of_two vote_of_two.message elected
candidate_step-Victory_example = candidate_step-Victory counter standing vote_of_two elected_run.0

in_own_term-IsSound : IsSound in_own_term
unfolding set_term_vote Table.flush_if Table.write
in_own_term-IsSound = Reach-IsSound fresh-IsSound (next here (voted 1 (some 1) refl))

elected-IsSound : IsSound elected.log
elected-IsSound =
    (Run-KeepsVote counter services (receives vote_of_two begins tt elected_run.2)
      in_own_term-IsSound).0

leader_step-Extends_example : Extends elected.log written.log
leader_step-Extends_example =
    leader_step-Extends counter services elected written write_request tt elected-IsSound
      elected_run.1

Run-KeepsVote_example : IsSound written.log × KeepsVote in_own_term written.log
Run-KeepsVote_example =
    Run-KeepsVote counter services
      (receives write_request (receives vote_of_two begins tt elected_run.2) tt elected_run.3)
      in_own_term-IsSound

-- A node with no peers.
abbrev alone : RawNode ℕ Leader
unfolding start
alone = leader_of (lead fresh) (start counter services 1 [] fresh 0 options [])

abbrev served : RawNode ℕ Leader
unfolding start step
served = leader_of (lead fresh) (step counter services (leader alone) write_request)

alone_run :
    (start counter services 1 [] fresh 0 options [] ≡ ok (leader alone))
    × (step counter services (leader alone) write_request ≡ ok (leader served))
unfolding Apply.maybe_commit_and_apply Campaign.pre_campaign Commit.advance_commit Common.broadcast
    Common.cluster_size Common.is_known_sender Common.peers Common.random_election_timeout
    Common.restore_membership_from_log Common.send Drive.start Drive.step Elect.into_leader
    Elect.is_election Follower.abort_forwarded Follower.discard LeaderStep.leader_step
    Membership.all_voters Membership.bootstrap Membership.has_quorum Membership.is_majority
    Membership.peers_of NodeSet.count_common NodeSet.remove NodeSet.union Ops.append_entry
    Ops.commit Ops.latest_membership Ops.scan_apply Ops.set_term_vote Progress.new_leader
    Reads.maybe_read Receive.into_candidate Receive.new Replicate.heartbeat Replicate.propose
    Table.flush_if Table.lookup Table.range Table.write_all u64_add u64_limit
alone_run = (refl, refl)

node_restart_example : Recovers served.log
node_restart_example = node_restart counter services (
    Restarts.receives write_request (starts 1 [] fresh 0 options [] Crash.begins alone_run.0) tt
      alone_run.1)
