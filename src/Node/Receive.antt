-- ===== src/Node/Receive.antt =====
-- How a follower takes the messages of a leader, applies what is committed, and steps: the rest of
-- `impl RawNode<Follower>` of raft/node.rs under src/.
use raft_rust.Base.{
  ℕ, ◌+◌, ◌-◌, min, Bool, true, false, not, ◌&&◌, ◌||◌, none, some, List, [], ◌∷◌, invalid_input,
  Outcome, ok, err, panic, ◌>>=◌, ◌>>◌, assert, ltb, leb, ◌==◌, if◌then◌else◌,
}
use raft_rust.NodeSet
use raft_rust.NodeSet.{NodeSet}
use raft_rust.Membership.{
  MembershipState, MembershipEntry, apply_entry, on_commit, bootstrap, is_joint,
}
use raft_rust.Message.{Envelope, Message}
use raft_rust.Log.Entry.{Entry, Bytes}
use raft_rust.Log.Ops.{
  Log, has, commit, scan_apply, get_snapshot_meta, set_snapshot_data, reset_with_snapshot,
  same_vote,
}
use raft_rust.Log.Splice.{splice}
use raft_rust.StateMachine.{StateMachine}
use raft_rust.Node.Types.{
  RawNode, Options, Follower, Candidate, pre_vote, election, Node, follower, candidate,
}
use raft_rust.Node.Common.{
  into_role, random_election_timeout, send, adopt_memberships, restore_membership_from_log, tick_up,
}
use raft_rust.Node.Campaign.{new_candidate, campaign, pre_campaign}
use raft_rust.Node.Follower.{
  new_follower, discard, abort_forwarded, into_follower, from_leader, on_campaign,
  on_client_request, on_client_response, step_prevote,
}

-- `entries.last().map(|e| e.index).unwrap_or(base_index)`
pub last_index_of : ℕ → List Entry → ℕ
last_index_of base [] = base
last_index_of base (e ∷ entries) = last_index_of e.index entries

-- `if let Some(first) = entries.first() { assert_eq!(base_index, first.index - 1) }`
unfoldable pub check_first : ℕ → List Entry → Outcome (Unit {0})
check_first base [] = ok tt
check_first base (e ∷ entries) = assert (ltb 0 e.index && base == e.index - 1)

module _ (sm : StateMachine) where
  open sm use {Machine, get_applied_index, apply, snapshot, restore}

  -- The state machine's errors are dropped.
  unfoldable pub apply_entries :
      List Entry → RawNode Machine Follower → Outcome (RawNode Machine Follower)
  apply_entries [] n = ok n
  apply_entries (e ∷ entries) n =
      let s : MembershipState = elim e.membership [
        | none ↦ n.membership
        | some m ↦ on_commit n.membership m
      ] in
      let result = apply n.state e in
      let rest = apply_entries entries (record n { membership = s; state = result.0 }) in
      discard result.1 >> rest

  unfoldable pub maybe_apply : RawNode Machine Follower → Outcome (RawNode Machine Follower)
  unfolding apply_entries
  maybe_apply n = apply_entries (scan_apply n.log (get_applied_index n.state)) n

  -- `RawNode<Follower>::new`
  unfoldable pub new :
      ℕ → List ℕ → Log → Machine → Options → List ℕ → Outcome (RawNode Machine Follower)
  unfolding maybe_apply
  new id peers log state opts draws = if NodeSet.contains peers id then err invalid_input else (do
    let n : RawNode Machine Follower = record {
      id = id;
      membership = bootstrap id peers;
      log = log;
      state = state;
      tx = [];
      opts = opts;
      draws = draws;
      role = new_follower none 0;
    }
    (timeout, n') ← random_election_timeout n
    maybe_apply (
        restore_membership_from_log
          (record n' { role = record (n'.role) { election_timeout = timeout } })))

  unfoldable pub into_candidate :
      RawNode Machine Follower → Bool → Outcome (RawNode Machine Candidate)
  unfolding maybe_apply
  into_candidate n use_prevote = do
    applied ← maybe_apply (abort_forwarded n)
    (timeout, n') ← random_election_timeout applied
    if use_prevote && n.opts.pre_vote
        then pre_campaign (into_role n' (new_candidate timeout pre_vote))
        else campaign (into_role n' (new_candidate timeout election))

  -- `Message::Heartbeat`, behind the check of its sender
  unfoldable pub on_heartbeat :
      ℕ → ℕ → ℕ → ℕ → ℕ → RawNode Machine Follower → Outcome (RawNode Machine Follower)
  unfolding maybe_apply
  on_heartbeat from term last_index commit_index read_seq n = do
    let match_index = if has n.log last_index term then last_index else 0
    let answered = send n from (Message.heartbeat_response match_index read_seq)
    if not (match_index == 0) && ltb n.log.commit_index commit_index
        then (do (log, _) ← commit n.log commit_index; maybe_apply (record answered { log = log }))
        else ok answered

  -- `Message::Append`, behind the check of its sender
  unfoldable pub on_append :
      ℕ → ℕ → ℕ → List Entry → RawNode Machine Follower → Outcome (RawNode Machine Follower)
  unfolding last_index_of
  on_append from base_index base_term entries n =
      if base_index == 0 || has n.log base_index base_term
      then (do
        (log, _) ← splice n.log entries
        ok (
            send (adopt_memberships entries (record n { log = log })) from
              (Message.append_response (last_index_of base_index entries) 0)))
      else ok (send n from (Message.append_response 0 (min base_index (n.log.last_index + 1))))

  -- `Message::InstallSnapshot`, behind the check of its sender
  unfoldable pub on_install_snapshot :
      ℕ
      → ℕ
      → ℕ
      → Bytes
      → MembershipEntry
      → RawNode Machine Follower
      → Outcome (RawNode Machine Follower)
  on_install_snapshot from index term bytes membership n =
      let answer = Message.install_snapshot_response index in
      if leb (get_snapshot_meta n.log).0 index && leb (get_applied_index n.state) index
      then (do
        let restored = restore n.state bytes index
        restored.1
        log ← reset_with_snapshot (set_snapshot_data n.log bytes) index term
        let s = apply_entry n.membership membership
        ok (
            send
              (record n {
                log = log;
                state = restored.0;
                membership = record s { change_pending = is_joint membership && s.change_pending };
              })
              from answer))
      else ok (send n from answer)

  -- The `match` of `step`, on a message of the current term.
  unfoldable pub dispatch :
      RawNode Machine Follower → Envelope → Message → Outcome (RawNode Machine Follower)
  unfolding check_first
  dispatch n msg (Message.heartbeat last_index commit_index read_seq) =
      assert (leb commit_index last_index)
      >> from_leader n msg.from msg.term
          (on_heartbeat msg.from msg.term last_index commit_index read_seq)
  dispatch n msg (Message.append base_index base_term entries) =
      check_first base_index entries
      >> from_leader n msg.from msg.term (on_append msg.from base_index base_term entries)
  dispatch n msg (Message.read seq) =
      from_leader n msg.from msg.term (λ n'. ok (send n' msg.from (Message.read_response seq)))
  dispatch n msg (Message.campaign last_index last_term) =
      on_campaign n msg.from msg.term last_index last_term
  dispatch n msg (Message.client_request id request) =
      ok (on_client_request n msg.from id (Message.client_request id request))
  dispatch n msg (Message.client_response id response) =
      ok (on_client_response n msg.from id response)
  dispatch n msg (Message.campaign_response vote) = ok n
  dispatch n msg (Message.install_snapshot index term bytes membership) =
      from_leader n msg.from msg.term (on_install_snapshot msg.from index term bytes membership)
  dispatch n msg (Message.install_snapshot_response index) = ok n
  dispatch n msg _ = panic

  unfoldable pub is_prevote : Message → Bool
  is_prevote (Message.pre_campaign last_index last_term) = true
  is_prevote (Message.pre_campaign_response vote) = true
  is_prevote _ = false

  -- A message of the known leader resets the count of ticks since it was heard.
  unfoldable pub note_leader : RawNode Machine Follower → ℕ → RawNode Machine Follower
  note_leader n from =
      if same_vote (some from) n.role.leader
      then record n { role = record (n.role) { leader_seen = 0 } }
      else n

  -- The call of `step` on itself for a newer term is written out: after `into_follower` the terms
  -- are equal, so the call goes straight to the `match`.
  unfoldable pub follower_step :
      RawNode Machine Follower → Envelope → Outcome (RawNode Machine Follower)
  unfolding is_prevote
  follower_step n msg =
      if is_prevote msg.message
      then ok (step_prevote n msg)
      else if ltb msg.term n.log.term
      then ok n
      else if ltb n.log.term msg.term
      then (do
        n' ← into_follower n msg.term none
        dispatch (note_leader n' msg.from) msg msg.message)
      else dispatch (note_leader n msg.from) msg msg.message

  unfoldable pub follower_tick : RawNode Machine Follower → Outcome (Node Machine)
  unfolding into_candidate
  follower_tick n = do
    seen ← tick_up n.role.leader_seen
    let waited = record n { role = record (n.role) { leader_seen = seen } }
    if leb n.role.election_timeout seen
        then (do c ← into_candidate waited true; ok (candidate c))
        else ok (follower waited)
