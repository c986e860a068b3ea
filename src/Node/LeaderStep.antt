-- ===== src/Node/LeaderStep.antt =====
-- The leader's messages: `RawNode<Leader>::step` of src/raft/node.rs.
use raft_rust.Base.{
  ℕ, Bool, true, false, ◌&&◌, Option, none, some, [], ◌∷◌, ◌++◌, Outcome, ok, panic, ◌>>=◌, ◌>>◌,
  assert, u64_add, ltb, leb, ◌==◌, if◌then◌else◌,
}
use raft_rust.Membership.{all_voters}
use raft_rust.Message.{Envelope, Message, Request, Response, Status, StorageStatus, done, failed}
use raft_rust.Log.Entry.{Bytes}
use raft_rust.Log.Table.{Engine}
use raft_rust.StateMachine.{StateMachine}
use raft_rust.Node.Types.{RawNode, Leader, Write, Read, Progress, Node, follower, leader}
use raft_rust.Node.Common.{send, broadcast, cluster_size}
use raft_rust.Node.Receive.{follower_step}
use raft_rust.Node.Progress.{progress_of, advance, advance_read, regress_next}
use raft_rust.Node.Replicate.{maybe_send_append, propose}
use raft_rust.Node.Reads.{maybe_read}
use raft_rust.Node.Change.{Proposal, accepted, refused, propose_membership_change}
use raft_rust.Node.Apply.{insert_key, maybe_commit_and_apply}
use raft_rust.Node.Lead.{note_peer_response, on_progress, match_indices, step_down}

-- What the leader calls outside its log and its machine: `session::encode_session`, and
-- `Engine::status` of the engine that it keeps its log in.
pub record Services : Type 0 where
  pub encode_session : ℕ → ℕ → Bytes → Bytes
  pub storage_status : Engine → StorageStatus

module _ (sm : StateMachine) (services : Services) where
  open sm use {Machine, get_applied_index}

  abbrev Stepped : Type 0
  Stepped = Outcome (RawNode Machine Leader × Bool)

  abbrev stay : RawNode Machine Leader → Stepped
  stay n = ok (n, false)

  -- `if moved { step_down |= self.maybe_commit_and_apply()?.1 }`
  unfoldable pub commit_if : Bool → RawNode Machine Leader → Stepped
  commit_if true n = maybe_commit_and_apply sm n
  commit_if false n = ok (n, false)

  -- The messages of peers, for a peer that the leader tracks.
  unfoldable pub on_heartbeat_response : RawNode Machine Leader → ℕ → ℕ → ℕ → Stepped
  unfolding commit_if on_progress
  on_heartbeat_response n from match_index read_seq = do
    assert (leb match_index n.log.last_index)
    assert (leb read_seq n.role.read_seq)
    (n1, confirmed) ← on_progress n from (λ p. ok (advance_read p read_seq))
    n2 ← (if confirmed then maybe_read sm n1 else ok n1)
    n3 ←
        (if match_index == 0
          then (do
            (regressed, _) ← on_progress n2 from (λ p. regress_next p n.log.last_index)
            maybe_send_append sm regressed from true)
          else ok n2)
    (n4, moved) ← on_progress n3 from (λ p. advance p match_index)
    commit_if moved n4

  unfoldable pub on_append_accepted : RawNode Machine Leader → ℕ → ℕ → Stepped
  unfolding commit_if on_progress
  on_append_accepted n from match_index = do
    assert (leb match_index n.log.last_index)
    (n1, moved) ← on_progress n from (λ p. advance p match_index)
    (n2, down) ← commit_if moved n1
    n3 ← maybe_send_append sm n2 from false
    ok (n3, down)

  unfoldable pub on_read_response : RawNode Machine Leader → ℕ → ℕ → Stepped
  unfolding on_progress
  on_read_response n from seq = do
    (n1, confirmed) ← on_progress n from (λ p. ok (advance_read p seq))
    n2 ← (if confirmed then maybe_read sm n1 else ok n1)
    ok (n2, false)

  unfoldable pub on_append_rejected : RawNode Machine Leader → ℕ → ℕ → Progress → Stepped
  unfolding on_progress
  on_append_rejected n from reject_index p = do
    assert (leb reject_index n.log.last_index)
    if leb reject_index p.match_index then ok (n, false) else (do
      (n1, moved) ← on_progress n from (λ q. regress_next q reject_index)
      n2 ← (if moved then maybe_send_append sm n1 from true else ok n1)
      ok (n2, false))

  unfoldable pub on_snapshot_installed : RawNode Machine Leader → ℕ → ℕ → Stepped
  unfolding commit_if on_progress
  on_snapshot_installed n from index = do
    (n1, moved) ← on_progress n from (λ p. advance p index)
    (n2, down) ← commit_if moved n1
    n3 ← maybe_send_append sm n2 from false
    ok (n3, down)

  -- A message of a peer that the leader does not track changes nothing; of one that it does, it is
  -- noted that the peer is there.
  unfoldable pub from_peer :
      RawNode Machine Leader → ℕ → (RawNode Machine Leader → Progress → Stepped) → Stepped
  unfolding note_peer_response
  from_peer n from handle = elim (progress_of from n.role.progress) [
    | none ↦ ok (n, false)
    | some p ↦ handle (note_peer_response n from) p
  ]

  unfoldable pub status : RawNode Machine Leader → Status
  unfolding match_indices
  status n = record {
    leader = n.id;
    term = n.log.term;
    match_index = insert_key n.id n.log.last_index (match_indices n.role.progress);
    commit_index = n.log.commit_index;
    applied_index = get_applied_index n.state;
    storage = services.storage_status n.log.engine;
    voters = all_voters n.membership.active;
  }

  -- `Request::Write` and, with its command wrapped, `Request::WriteSession`
  unfoldable pub on_write : RawNode Machine Leader → ℕ → ℕ → Bytes → Stepped
  unfolding insert_key commit_if
  on_write n from id command = do
    (n1, index) ← propose sm n (some command)
    let write : Write = record { from = from; id = id }
    let n2 = record n1 {
      role = record (n1.role) { writes = insert_key index write n1.role.writes };
    }
    commit_if (cluster_size n2 == 1) n2

  unfoldable pub on_read : RawNode Machine Leader → ℕ → ℕ → Bytes → Stepped
  on_read n from id command = do
    seq ← u64_add n.role.read_seq 1
    let read : Read = record { seq = seq; from = from; id = id; command = command }
    let n1 = record n {
      role = record (n.role) { read_seq = seq; reads = n.role.reads ++ read ∷ [] };
    }
    let n2 = broadcast n1 (Message.read seq)
    n3 ← (if cluster_size n2 == 1 then maybe_read sm n2 else ok n2)
    ok (n3, false)

  unfoldable pub on_proposal : RawNode Machine Leader → ℕ → ℕ → Proposal → Stepped
  unfolding insert_key commit_if
  on_proposal n from id (refused e) =
      ok (send n from (Message.client_response id (failed e)), false)
  on_proposal n from id (accepted index) =
      let write : Write = record { from = from; id = id } in
      let n1 = record n {
        role = record (n.role) {
          membership_writes = insert_key index write n.role.membership_writes;
        };
      } in
      commit_if (cluster_size n1 == 1) n1

  unfoldable pub on_request : RawNode Machine Leader → ℕ → ℕ → Request → Stepped
  unfolding on_write on_read on_proposal status
  on_request n from id (Request.write command) = on_write n from id command
  on_request n from id (Request.write_session client seq command) =
      on_write n from id (services.encode_session client seq command)
  on_request n from id (Request.read command) = on_read n from id command
  on_request n from id Request.status =
      ok (send n from (Message.client_response id (done (Response.status (status n)))), false)
  on_request n from id (Request.change_membership voters) = do
    (n1, proposal) ← propose_membership_change sm n voters
    on_proposal n1 from id proposal

  -- The `match` of `step`, on a message of the current term; the second result is `step_down`.
  unfoldable pub leader_dispatch : RawNode Machine Leader → Envelope → Message → Stepped
  unfolding on_request from_peer on_heartbeat_response on_append_accepted on_append_rejected
      on_read_response on_snapshot_installed
  leader_dispatch n msg (Message.heartbeat_response match_index read_seq) =
      from_peer n msg.from (λ n' p. on_heartbeat_response n' msg.from match_index read_seq)
  leader_dispatch n msg (Message.append_response match_index reject_index) =
      if reject_index == 0 && ltb 0 match_index
      then from_peer n msg.from (λ n' p. on_append_accepted n' msg.from match_index)
      else if match_index == 0 && ltb 0 reject_index
      then from_peer n msg.from (λ n' p. on_append_rejected n' msg.from reject_index p)
      else panic
  leader_dispatch n msg (Message.read_response seq) =
      from_peer n msg.from (λ n' p. on_read_response n' msg.from seq)
  leader_dispatch n msg (Message.client_request id request) = on_request n msg.from id request
  leader_dispatch n msg (Message.campaign last_index last_term) =
      ok (send n msg.from (Message.campaign_response false), false)
  leader_dispatch n msg (Message.campaign_response vote) = ok (n, false)
  leader_dispatch n msg (Message.heartbeat last_index commit_index read_seq) = ok (n, false)
  leader_dispatch n msg (Message.append base_index base_term entries) = ok (n, false)
  leader_dispatch n msg (Message.read seq) = ok (n, false)
  leader_dispatch n msg (Message.install_snapshot index term bytes membership) = ok (n, false)
  leader_dispatch n msg (Message.install_snapshot_response index) =
      from_peer n msg.from (λ n' p. on_snapshot_installed n' msg.from index)
  leader_dispatch n msg (Message.client_response id reply) = panic
  leader_dispatch n msg (Message.pre_campaign last_index last_term) = panic
  leader_dispatch n msg (Message.pre_campaign_response vote) = panic

  unfoldable pub leader_prevote :
      RawNode Machine Leader → ℕ → Message → Option (RawNode Machine Leader)
  leader_prevote n from (Message.pre_campaign last_index last_term) =
      some (send n from (Message.pre_campaign_response false))
  leader_prevote n from (Message.pre_campaign_response vote) = some n
  leader_prevote n from _ = none

  unfoldable pub leader_step : RawNode Machine Leader → Envelope → Outcome (Node Machine)
  unfolding leader_prevote leader_dispatch
  leader_step n msg = elim (leader_prevote n msg.from msg.message) [
    | some n' ↦ ok (leader n')
    | none ↦
        if ltb msg.term n.log.term
        then ok (leader n)
        else if ltb n.log.term msg.term
        then (do
          down ← step_down n msg.term
          stepped ← follower_step sm down msg
          ok (follower stepped))
        else (do
          (n', down) ← leader_dispatch n msg msg.message
          if down then (do f ← step_down n' n'.log.term; ok (follower f)) else ok (leader n'))
  ]
