-- ===== src/Node/Elect.antt =====
-- How a candidate wins or gives up: the rest of `impl RawNode<Candidate>` of src/raft/node.rs.
use raft_rust.Base.{
  ℕ, Bool, true, false, not, ◌&&◌, Option, none, some, Outcome, ok, panic, ◌>>=◌, ◌>>◌, assert, ltb,
  ◌==◌, if◌then◌else◌,
}
use raft_rust.NodeSet
use raft_rust.Membership.{all_voters}
use raft_rust.Message.{Envelope, Message}
use raft_rust.Log.Ops.{set_term_vote, same_vote}
use raft_rust.StateMachine.{StateMachine}
use raft_rust.Node.Types.{
  RawNode, Candidate, Follower, Leader, ElectionPhase, pre_vote, election, Node, candidate,
  follower, leader,
}
use raft_rust.Node.Common.{send, peers, into_role, random_election_timeout}
use raft_rust.Node.Campaign.{is_recent, quorum_reached, campaign}
use raft_rust.Node.Follower.{new_follower, abort_message}
use raft_rust.Node.Receive.{follower_step}
use raft_rust.Node.Progress.{new_leader}
use raft_rust.Node.Replicate.{propose, heartbeat}
use raft_rust.Node.Apply.{maybe_commit_and_apply}

unfoldable pub is_election : ElectionPhase → Bool
is_election pre_vote = false
is_election election = true

module _ {S : Type 0} where
  -- `RawNode<Candidate>::into_follower`
  unfoldable pub give_up : RawNode S Candidate → ℕ → Option ℕ → Outcome (RawNode S Follower)
  give_up n term (some from) = do
    (timeout, n') ← random_election_timeout n
    assert (term == n.log.term)
    ok (into_role n' (new_follower (some from) timeout))
  give_up n term none = do
    (timeout, n') ← random_election_timeout n
    assert (not (term == n.log.term))
    log ← set_term_vote n.log term none
    ok (into_role (record n' { log = log }) (new_follower none timeout))

  -- `self.role.votes.insert(msg.from)`, for a voter
  unfoldable pub count_vote : RawNode S Candidate → ℕ → RawNode S Candidate
  count_vote n from =
      if NodeSet.contains (all_voters n.membership.active) from
      then record n { role = record (n.role) { votes = NodeSet.insert from n.role.votes } }
      else n

module _ (sm : StateMachine) where
  open sm use {Machine}

  -- What a new leader does at once: an empty entry of its term, and a heartbeat.
  unfoldable pub take_lead : RawNode Machine Candidate → Outcome (RawNode Machine Leader)
  take_lead n = do
    role ← new_leader (peers n) n.log.last_index
    (proposed, _) ← propose sm (into_role n role) none
    (applied, _) ← maybe_commit_and_apply sm proposed
    heartbeat applied

  unfoldable pub into_leader : RawNode Machine Candidate → Outcome (RawNode Machine Leader)
  unfolding take_lead
  into_leader n = do
    assert (not (n.log.term == 0))
    assert (same_vote n.log.vote (some n.id))
    assert (is_election n.role.phase)
    take_lead n

  -- A candidate that a quorum has voted for becomes the leader.
  unfoldable pub lead_if : Bool → RawNode Machine Candidate → Outcome (Node Machine)
  unfolding into_leader
  lead_if true n = do l ← into_leader n; ok (leader l)
  lead_if false n = ok (candidate n)

  -- `Message::PreCampaignResponse { vote }`
  unfoldable pub on_prevote : RawNode Machine Candidate → ℕ → Bool → Outcome (Node Machine)
  unfolding lead_if count_vote
  on_prevote n from vote =
      if not (is_election n.role.phase) && vote
      then (let counted = count_vote n from in
          if quorum_reached counted counted.role.votes
          then (do
            stands ← campaign counted
            lead_if (quorum_reached stands stands.role.votes && is_election stands.role.phase)
                stands)
          else ok (candidate counted))
      else ok (candidate n)

  -- `Message::CampaignResponse { vote: true }`
  unfoldable pub on_vote : RawNode Machine Candidate → ℕ → Outcome (Node Machine)
  unfolding lead_if count_vote
  on_vote n from =
      if is_election n.role.phase
      then lead_if (quorum_reached (count_vote n from) (count_vote n from).role.votes)
          (count_vote n from)
      else ok (candidate n)

  -- The `match` of `step`, on a message of the current term.
  unfoldable pub candidate_dispatch :
      RawNode Machine Candidate → Envelope → Message → Outcome (Node Machine)
  unfolding on_vote give_up
  candidate_dispatch n msg (Message.campaign_response true) = on_vote n msg.from
  candidate_dispatch n msg (Message.campaign_response false) = ok (candidate n)
  candidate_dispatch n msg (Message.campaign last_index last_term) =
      ok (candidate (send n msg.from (Message.campaign_response false)))
  candidate_dispatch n msg (Message.client_request id request) =
      ok (candidate (send n msg.from (abort_message id)))
  candidate_dispatch n msg (Message.install_snapshot_response index) = ok (candidate n)
  candidate_dispatch n msg (Message.heartbeat last_index commit_index read_seq) = do
    f ← give_up n msg.term (some msg.from)
    f' ← follower_step sm f msg
    ok (follower f')
  candidate_dispatch n msg (Message.append base_index base_term entries) = do
    f ← give_up n msg.term (some msg.from)
    f' ← follower_step sm f msg
    ok (follower f')
  candidate_dispatch n msg (Message.read seq) = do
    f ← give_up n msg.term (some msg.from)
    f' ← follower_step sm f msg
    ok (follower f')
  candidate_dispatch n msg (Message.install_snapshot index term bytes membership) = do
    f ← give_up n msg.term (some msg.from)
    f' ← follower_step sm f msg
    ok (follower f')
  candidate_dispatch n msg (Message.heartbeat_response match_index read_seq) = panic
  candidate_dispatch n msg (Message.append_response match_index reject_index) = panic
  candidate_dispatch n msg (Message.read_response seq) = panic
  candidate_dispatch n msg (Message.client_response id reply) = panic
  candidate_dispatch n msg (Message.pre_campaign last_index last_term) = panic
  candidate_dispatch n msg (Message.pre_campaign_response vote) = panic

  -- From the comparison of the terms on.
  unfoldable pub candidate_ordinary : RawNode Machine Candidate → Envelope → Outcome (Node Machine)
  unfolding candidate_dispatch
  candidate_ordinary n msg =
      if ltb msg.term n.log.term
      then ok (candidate n)
      else if ltb n.log.term msg.term
      then (do f ← give_up n msg.term none; f' ← follower_step sm f msg; ok (follower f'))
      else candidate_dispatch n msg msg.message

  unfoldable pub candidate_by :
      RawNode Machine Candidate → Envelope → Message → Outcome (Node Machine)
  unfolding candidate_ordinary on_prevote
  candidate_by n msg (Message.pre_campaign last_index last_term) = ok (
      candidate (
        send n msg.from (
          Message.pre_campaign_response
            (is_recent last_index last_term n.log && ltb n.log.term msg.term))))
  candidate_by n msg (Message.pre_campaign_response vote) = on_prevote n msg.from vote
  candidate_by n msg _ = candidate_ordinary n msg

  unfoldable pub candidate_step : RawNode Machine Candidate → Envelope → Outcome (Node Machine)
  unfolding candidate_by
  candidate_step n msg = candidate_by n msg msg.message
