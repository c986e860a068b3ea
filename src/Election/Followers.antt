-- ===== src/Election/Followers.antt =====
-- The functions of a follower that send no vote, `impl RawNode<Follower>` of src/raft/node.rs.
use raft_rust.Base.{
  ℕ, Bool, ◌≡◌, refl, sym, ap, List, [], ◌∷◌, false, not, ◌&&◌, Option, none, some, ok, arith, ◌∙◌,
  inl, inr, Bool-cases, ◌==◌, ltb, leb, if◌then◌else◌, ◌||◌, Outcome, min, ◌+◌, >>=-eq-ok,
  assert-eq-ok, ◌>>=◌, Option-cases,
}
use raft_rust.NodeSet.{contains}
use raft_rust.Node.Campaign.{is_recent}
use raft_rust.Membership.{MembershipEntry, is_joint, apply_entry}
use raft_rust.Message.{Envelope, Message, Reply}
use raft_rust.Log.Entry.{Entry, Bytes}
use raft_rust.Log.Ops.{
  set_term_vote, same_vote, commit, reset_with_snapshot, set_snapshot_data, has, get_snapshot_meta,
}
use raft_rust.Log.Splice.{splice}
use raft_rust.StateMachine.{StateMachine}
use raft_rust.Node.Types.{RawNode, Follower}
use raft_rust.Node.Common.{send, random_election_timeout, adopt_memberships}
use raft_rust.Node.Follower.{
  abort_message, abort_all, abort_forwarded, into_follower, from_leader, on_client_request,
  on_client_response, step_prevote, discard,
}
use raft_rust.Node.Receive.{
  apply_entries, maybe_apply, on_heartbeat, on_append, on_install_snapshot, note_leader,
  last_index_of,
}
use raft_rust.Election.Ballots.{
  grants, ballots, ballots-send, ballots-timeout, ballots-adopt_memberships,
}

module _ {S : Type 0} where
  ballots-abort_all :
      (ids : List ℕ) (n : RawNode S Follower) → ballots (abort_all ids n) ≡ ballots n
  unfolding abort_all abort_message grants
  ballots-abort_all [] n = refl
  ballots-abort_all (id ∷ ids) n =
      ballots-abort_all ids (send n n.id (abort_message id))
      ∙ ballots-send n n.id (abort_message id) refl

  pub ballots-abort_forwarded : (n : RawNode S Follower) → ballots (abort_forwarded n) ≡ ballots n
  unfolding abort_forwarded ballots
  ballots-abort_forwarded n = ballots-abort_all n.role.forwarded _

  pub ballots-into_follower :
      (n : RawNode S Follower) (term : ℕ) (leader : Option ℕ) {n' : RawNode S Follower}
      → into_follower n term leader ≡ ok n'
      → ballots n' ≡ ballots n
  unfolding into_follower
  ballots-into_follower n term (some leader) {n'} h =
      let same : ballots n' ≡ ballots (abort_forwarded n) = unfold ballots in ground arith in
      same ∙ ballots-abort_forwarded n
  ballots-into_follower n term none {n'} h =
      let (nonzero, h1) = assert-eq-ok (not (term == 0)) _ h in
      let (newer, h2) = assert-eq-ok (not (term == n.log.term)) _ h1 in
      let (log, set, h3) = >>=-eq-ok (set_term_vote n.log term none) _ h2 in
      let (drawn, got, h4) =
        >>=-eq-ok (random_election_timeout (record (abort_forwarded n) { log = log })) _ h3 in
      let last : ballots n' ≡ ballots drawn.1 = unfold ballots in ground arith in
      let first : ballots (record (abort_forwarded n) { log = log }) ≡ ballots (abort_forwarded n) =
        unfold ballots in refl in
      last
      ∙ ballots-timeout (record (abort_forwarded n) { log = log }) got
      ∙ first
      ∙ ballots-abort_forwarded n

  pub ballots-from_leader :
      (n : RawNode S Follower) (from term : ℕ)
      (handle : RawNode S Follower → Outcome (RawNode S Follower)) {n' : RawNode S Follower}
      → ((m m' : RawNode S Follower) → handle m ≡ ok m' → ballots m' ≡ ballots m)
      → from_leader n from term handle ≡ ok n'
      → ballots n' ≡ ballots n
  ballots-from_leader n from term handle {n'} each h = elim (Option-cases n.role.leader) [
    | inl unknown ↦
        let called : (into_follower n term (some from) >>= handle) ≡ ok n' =
          unfold from_leader in ground arith in
        let (m, followed, handled) = >>=-eq-ok (into_follower n term (some from)) handle called in
        each m n' handled ∙ ballots-into_follower n term (some from) followed
    | inr (leader, known) ↦ elim (Bool-cases (from == leader)) [
      | inl it ↦ each n n' (unfold from_leader in ground arith)
      | inr other ↦
          let same : n ≡ n' = unfold from_leader in ground arith in
          ap (λ (m : RawNode S Follower). ballots m) (sym same)
    ]
  ]

  pub ballots-on_client_request :
      (n : RawNode S Follower) (from id : ℕ) (message : Message)
      → grants message ≡ false
      → ballots (on_client_request n from id message) ≡ ballots n
  unfolding on_client_request abort_message grants ballots
  ballots-on_client_request n from id message h = elim (Bool-cases (from == n.id)) [
    | inr other ↦ rw (on_client_request, other) (ballots-send n from (abort_message id) refl)
    | inl own ↦ elim (Option-cases n.role.leader) [
      | inl unknown ↦
          rw (on_client_request, own, unknown) (ballots-send n from (abort_message id) refl)
      | inr (leader, known) ↦ rw (on_client_request, own, known) (ballots-send _ leader message h)
    ]
  ]

  pub ballots-on_client_response :
      (n : RawNode S Follower) (from id : ℕ) (reply : Reply)
      → ballots (on_client_response n from id reply) ≡ ballots n
  unfolding on_client_response ballots grants
  ballots-on_client_response n from id reply =
      elim (Bool-cases (same_vote (some from) n.role.leader && contains n.role.forwarded id)) [
        | inr other ↦ rw (on_client_response, other) refl
        | inl own ↦
            rw (on_client_response, own)
              (ballots-send _ n.id (Message.client_response id reply) refl)
      ]

  pub ballots-step_prevote :
      (n : RawNode S Follower) (msg : Envelope) → ballots (step_prevote n msg) ≡ ballots n
  ballots-step_prevote n msg = go msg.message refl
    where
      go : (m : Message) → msg.message ≡ m → ballots (step_prevote n msg) ≡ ballots n
      go (Message.pre_campaign last_index last_term) e =
          let answered : (vote : Bool)
              → ballots (send n msg.from (Message.pre_campaign_response vote)) ≡ ballots n =
            λ vote.
              ballots-send n msg.from (Message.pre_campaign_response vote)
                (unfold grants in refl) in
          elim (Bool-cases (
            not (same_vote n.role.leader none) && ltb n.role.leader_seen n.role.election_timeout)) [
              | inl held ↦ unfold step_prevote in ground (arith, answered false)
              | inr free ↦
                  unfold step_prevote in
                  ground (
                    arith,
                    answered (is_recent last_index last_term n.log && ltb n.log.term msg.term),
                  )
            ]
      go _ e = unfold step_prevote in ground arith

module _ (sm : StateMachine) where
  open sm use {Machine}

  ballots-apply_entries :
      (entries : List Entry) (n : RawNode Machine Follower) {n' : RawNode Machine Follower}
      → apply_entries sm entries n ≡ ok n'
      → ballots n' ≡ ballots n
  unfolding apply_entries ballots
  ballots-apply_entries [] n h = ground arith
  ballots-apply_entries (e ∷ entries) n h =
      let (u, dropped, rest) = >>=-eq-ok (discard (sm.apply n.state e).1) _ h in
      ballots-apply_entries entries _ rest

  pub ballots-maybe_apply :
      (n : RawNode Machine Follower) {n' : RawNode Machine Follower}
      → maybe_apply sm n ≡ ok n'
      → ballots n' ≡ ballots n
  unfolding maybe_apply
  ballots-maybe_apply n h = ballots-apply_entries _ n h

  pub ballots-note_leader :
      (n : RawNode Machine Follower) (from : ℕ) → ballots (note_leader sm n from) ≡ ballots n
  unfolding note_leader ballots
  ballots-note_leader n from = ground arith

  pub ballots-on_heartbeat :
      (from term last_index commit_index read_seq : ℕ) (n n' : RawNode Machine Follower)
      → on_heartbeat sm from term last_index commit_index read_seq n ≡ ok n'
      → ballots n' ≡ ballots n
  unfolding on_heartbeat
  ballots-on_heartbeat from term last_index commit_index read_seq n n' h =
      let match_index = if has n.log last_index term then last_index else 0 in
      let answered = send n from (Message.heartbeat_response match_index read_seq) in
      let first : ballots answered ≡ ballots n =
        ballots-send n from (Message.heartbeat_response match_index read_seq)
          (unfold grants in refl) in
      elim (Bool-cases (not (match_index == 0) && ltb n.log.commit_index commit_index)) [
        | inr stay ↦ let same : answered ≡ n' = ground arith in ground (arith, first)
        | inl go ↦
            let called : (commit n.log commit_index >>= λ p.
            maybe_apply sm (record answered { log = p.0 }))
                ≡ ok n' =
              ground arith in
            let (p, committed, applied) = >>=-eq-ok (commit n.log commit_index) _ called in
            let kept : ballots (record answered { log = p.0 }) ≡ ballots answered =
              unfold ballots in refl in
            ballots-maybe_apply (record answered { log = p.0 }) applied ∙ kept ∙ first
      ]

  pub ballots-on_append :
      (from base_index base_term : ℕ) (entries : List Entry) (n n' : RawNode Machine Follower)
      → on_append sm from base_index base_term entries n ≡ ok n'
      → ballots n' ≡ ballots n
  unfolding on_append
  ballots-on_append from base_index base_term entries n n' h =
      elim (Bool-cases (base_index == 0 || has n.log base_index base_term)) [
        | inr refused ↦
            let m = Message.append_response 0 (min base_index (n.log.last_index + 1)) in
            let same : send n from m ≡ n' = ground arith in
            ap (λ (x : RawNode Machine Follower). ballots x) (sym same)
            ∙ ballots-send n from m (unfold grants in refl)
        | inl matches ↦
            let (p, spliced, sent) = >>=-eq-ok (splice n.log entries) _ (rw matches at h) in
            let m = Message.append_response (last_index_of base_index entries) 0 in
            let taken = adopt_memberships entries (record n { log = p.0 }) in
            let same : send taken from m ≡ n' = ground arith in
            let kept : ballots (record n { log = p.0 }) ≡ ballots n = unfold ballots in refl in
            ap (λ (x : RawNode Machine Follower). ballots x) (sym same)
            ∙ ballots-send taken from m (unfold grants in refl)
            ∙ ballots-adopt_memberships entries (record n { log = p.0 })
            ∙ kept
      ]

  pub ballots-on_install_snapshot :
      (from index term : ℕ) (bytes : Bytes) (membership : MembershipEntry)
      (n n' : RawNode Machine Follower)
      → on_install_snapshot sm from index term bytes membership n ≡ ok n'
      → ballots n' ≡ ballots n
  unfolding on_install_snapshot grants ballots
  ballots-on_install_snapshot from index term bytes membership n n' h =
      let answer = Message.install_snapshot_response index in
      elim (Bool-cases
        (leb (get_snapshot_meta n.log).0 index && leb (sm.get_applied_index n.state) index)) [
          | inr old ↦
              let same : send n from answer ≡ n' = ground arith in
              ap (λ (x : RawNode Machine Follower). ballots x) (sym same)
              ∙ ballots-send n from answer refl
          | inl newer ↦
              let (u, restored, h1) =
                >>=-eq-ok (sm.restore n.state bytes index).1 _ (rw newer at h) in
              let (log, reset, sent) =
                >>=-eq-ok (reset_with_snapshot (set_snapshot_data n.log bytes) index term) _ h1 in
              let s = apply_entry n.membership membership in
              let taken : RawNode Machine Follower = record n {
                log = log;
                state = (sm.restore n.state bytes index).0;
                membership = record s { change_pending = is_joint membership && s.change_pending };
              } in
              let same : send taken from answer ≡ n' = ground arith in
              ap (λ (x : RawNode Machine Follower). ballots x) (sym same)
              ∙ ballots-send taken from answer refl
        ]
