-- ===== src/Node/Campaign.antt =====
-- Elections, from the side of the node that stands: `impl RawNode<Candidate>` of raft/node.rs
-- under src/, but for the steps that make it a follower or the leader.
use raft_rust.Base.{
  ℕ, Bool, some, [], Outcome, ok, ◌>>=◌, u64_add, ltb, leb, ◌==◌, if◌then◌else◌, not, ◌||◌, ◌&&◌,
}
use raft_rust.NodeSet
use raft_rust.NodeSet.{NodeSet}
use raft_rust.Membership.{has_quorum}
use raft_rust.Message.{Message}
use raft_rust.Log.Ops.{Log, set_term_vote}
use raft_rust.Node.Types.{RawNode, Candidate, ElectionPhase, pre_vote, election}
use raft_rust.Node.Common.{
  random_election_timeout, cluster_size, broadcast, peers, send_all, tick_up,
}

-- `Candidate::new`
abbrev pub new_candidate : ℕ → ElectionPhase → Candidate
new_candidate timeout phase = record {
  votes = [];
  election_duration = 0;
  election_timeout = timeout;
  phase = phase;
}

-- Whether a log that ends at the first position is at least as recent as one that ends at the
-- second: `!(log_term > last_term || log_term == last_term && log_index > last_index)`.
unfoldable pub is_recent : ℕ → ℕ → Log → Bool
is_recent last_index last_term log =
    not
      (ltb last_term log.last_term || (log.last_term == last_term && ltb last_index log.last_index))

module _ {S : Type 0} where
  unfoldable pub quorum_reached : RawNode S Candidate → NodeSet → Bool
  quorum_reached n votes = has_quorum n.membership.active votes

  unfoldable pub campaign : RawNode S Candidate → Outcome (RawNode S Candidate)
  campaign n = do
    term ← u64_add n.log.term 1
    (timeout, n') ← random_election_timeout n
    let role = record (new_candidate timeout election) { votes = NodeSet.insert n.id [] }
    log ← set_term_vote n.log term (some n.id)
    ok (
        broadcast (record n' { role = role; log = log })
          (Message.campaign log.last_index log.last_term))

  -- The votes of the candidate before anyone has answered are its own.
  unfoldable pub pre_campaign : RawNode S Candidate → Outcome (RawNode S Candidate)
  unfolding campaign
  pre_campaign n = do
    (timeout, n') ← random_election_timeout n
    let role = record (new_candidate timeout pre_vote) { votes = NodeSet.insert n.id [] }
    let stands = record n' { role = role }
    if cluster_size n == 1 then campaign stands else (do
      intended ← u64_add n.log.term 1
      let asked =
          send_all (peers n) intended (Message.pre_campaign n.log.last_index n.log.last_term) stands
      if quorum_reached asked role.votes then campaign asked else ok asked)

  -- `RawNode<Candidate>::tick`
  unfoldable pub candidate_tick : RawNode S Candidate → Outcome (RawNode S Candidate)
  unfolding campaign pre_campaign
  candidate_tick n = do
    duration ← tick_up n.role.election_duration
    let waited = record n { role = record (n.role) { election_duration = duration } }
    if leb n.role.election_timeout duration
        then (if n.opts.pre_vote then pre_campaign waited else campaign waited)
        else ok waited
