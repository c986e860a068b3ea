-- ===== src/Node/Follower.antt =====
-- The follower: `impl RawNode<Follower>` of raft/node.rs under src/.
use raft_rust.Base.{
  ℕ, true, false, not, ◌&&◌, Option, none, some, List, [], ◌∷◌, abort, Outcome, ok, err, panic,
  ◌>>=◌, ◌>>◌, assert, ltb, ◌==◌, if◌then◌else◌,
}
use raft_rust.NodeSet
use raft_rust.NodeSet.{NodeSet}
use raft_rust.Membership.{all_voters}
use raft_rust.Message.{Envelope, Message, Reply, failed}
use raft_rust.Log.Ops.{set_term_vote, same_vote}
use raft_rust.Node.Types.{RawNode, Follower}
use raft_rust.Node.Common.{random_election_timeout, send}
use raft_rust.Node.Campaign.{is_recent}

-- `Follower::new`
abbrev pub new_follower : Option ℕ → ℕ → Follower
new_follower leader timeout = record {
  leader = leader;
  leader_seen = 0;
  election_timeout = timeout;
  forwarded = [];
}

-- What the caller sees of a call whose value it drops: `_ = f()`.
unfoldable pub discard {ℓ} : {A : Type ℓ} → Outcome A → Outcome (Unit {0})
discard (ok a) = ok tt
discard (err e) = ok tt
discard panic = panic

unfoldable pub abort_message : ℕ → Message
abort_message id = Message.client_response id (failed abort)

module _ {S : Type 0} where
  unfoldable pub abort_all : List ℕ → RawNode S Follower → RawNode S Follower
  unfolding abort_message
  abort_all [] n = n
  abort_all (id ∷ ids) n = abort_all ids (send n n.id (abort_message id))

  -- The forwarded requests are aborted in the order of their ids.
  unfoldable pub abort_forwarded : RawNode S Follower → RawNode S Follower
  unfolding abort_all
  abort_forwarded n =
      abort_all n.role.forwarded (record n { role = record (n.role) { forwarded = [] } })

  -- `RawNode<Follower>::into_follower`
  unfoldable pub into_follower : RawNode S Follower → ℕ → Option ℕ → Outcome (RawNode S Follower)
  into_follower n term (some leader) = do
    assert (not (term == 0))
    let aborted = abort_forwarded n
    assert (NodeSet.contains (all_voters n.membership.active) leader)
    assert (same_vote n.role.leader none)
    assert (term == n.log.term)
    ok (record aborted { role = new_follower (some leader) n.role.election_timeout })
  into_follower n term none = do
    assert (not (term == 0))
    let aborted = abort_forwarded n
    assert (not (term == n.log.term))
    log ← set_term_vote n.log term none
    (timeout, drawn) ← random_election_timeout (record aborted { log = log })
    ok (record drawn { role = new_follower none timeout })

  -- Who may speak as the leader: the leader that is known, or, where none is, the sender, who
  -- becomes it. A message of another is ignored.
  unfoldable pub from_leader :
      RawNode S Follower
      → ℕ
      → ℕ
      → (RawNode S Follower → Outcome (RawNode S Follower))
      → Outcome (RawNode S Follower)
  unfolding into_follower
  from_leader n from term handle = elim n.role.leader [
    | some leader ↦ if from == leader then handle n else ok n
    | none ↦ do n' ← into_follower n term (some from); handle n'
  ]

  -- `Message::Campaign`
  unfoldable pub on_campaign : RawNode S Follower → ℕ → ℕ → ℕ → ℕ → Outcome (RawNode S Follower)
  on_campaign n from term last_index last_term =
      if not (same_vote n.log.vote none) && not (same_vote n.log.vote (some from))
      then ok (send n from (Message.campaign_response false))
      else if is_recent last_index last_term n.log
      then (do
        log ← set_term_vote n.log term (some from)
        ok (send (record n { log = log }) from (Message.campaign_response true)))
      else ok (send n from (Message.campaign_response false))

  -- `Message::ClientRequest`
  unfoldable pub on_client_request : RawNode S Follower → ℕ → ℕ → Message → RawNode S Follower
  unfolding abort_message
  on_client_request n from id message =
      if from == n.id
      then elim n.role.leader [
        | some leader ↦
            send
              (record n {
                role = record (n.role) { forwarded = NodeSet.insert id n.role.forwarded };
              })
              leader message
        | none ↦ send n from (abort_message id)
      ]
      else send n from (abort_message id)

  -- `Message::ClientResponse`
  unfoldable pub on_client_response : RawNode S Follower → ℕ → ℕ → Reply → RawNode S Follower
  on_client_response n from id response =
      if same_vote (some from) n.role.leader && NodeSet.contains n.role.forwarded id
      then send
          (record n { role = record (n.role) { forwarded = NodeSet.remove id n.role.forwarded } })
          n.id (Message.client_response id response)
      else n

  -- `step_prevote`
  unfoldable pub step_prevote : RawNode S Follower → Envelope → RawNode S Follower
  step_prevote n msg = elim msg.message [
    | Message.pre_campaign last_index last_term ↦
        if not (same_vote n.role.leader none) && ltb n.role.leader_seen n.role.election_timeout
        then send n msg.from (Message.pre_campaign_response false)
        else send n msg.from (
            Message.pre_campaign_response
              (is_recent last_index last_term n.log && ltb n.log.term msg.term))
    | _ ↦ n
  ]
