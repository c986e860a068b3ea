-- ===== src/Election/Grants.antt =====
-- The one answer that is a vote: the campaign message in `RawNode<Follower>::step` of
-- src/raft/node.rs.
use raft_rust.Base.{
  ℕ, ◌≡◌, refl, sym, ap, none, ok, arith, ◌∙◌, inl, inr, subst, Bool-cases, ltb, leb, >>=-eq-ok,
  assert-eq-ok, ◌>>=◌,
}
use raft_rust.Message.{Envelope, Message}
use raft_rust.StateMachine.{StateMachine}
use raft_rust.Node.Types.{RawNode, Follower}
use raft_rust.Node.Common.{send}
use raft_rust.Node.Follower.{
  into_follower, on_campaign, on_client_request, on_client_response, step_prevote,
}
use raft_rust.Node.Receive.{
  on_heartbeat, on_append, on_install_snapshot, note_leader, dispatch, check_first, is_prevote,
  follower_step,
}
use raft_rust.Node.Votes.{on_campaign_lem}
use raft_rust.Election.Ballots.{
  grants, granted-snoc, granted-snoc_vote, ballots, ballots-send, Adds,
}
use raft_rust.Election.Followers.{
  ballots-into_follower, ballots-from_leader, ballots-on_client_request, ballots-on_client_response,
  ballots-step_prevote, ballots-note_leader, ballots-on_heartbeat, ballots-on_append,
  ballots-on_install_snapshot,
}

module _ {S : Type 0} where
  on_campaign-Adds :
      (n : RawNode S Follower) (from term last_index last_term : ℕ) {n' : RawNode S Follower}
      → on_campaign n from term last_index last_term ≡ ok n'
      → Adds (ballots n) (ballots n') n'.log
  unfolding ballots
  on_campaign-Adds n from term last_index last_term {n'} h =
      let (vote, sent, given, withheld, keeps) =
        on_campaign_lem n from term last_index last_term h in
      let same_id : n'.id ≡ n.id = unfold on_campaign send in ground arith in
      let e : Envelope = record {
        from = n.id;
        term = n'.log.term;
        to = from;
        message = Message.campaign_response vote;
      } in
      elim (Bool-cases vote) [
        | inl yes_vote ↦ inr (
          e,
          ground (arith, granted-snoc_vote n.tx e (unfold grants in yes_vote)),
          refl,
          refl,
          (given yes_vote).0,
        )
        | inr no_vote ↦ inl (ground (arith, granted-snoc n.tx e (unfold grants in no_vote)))
      ]

module _ (sm : StateMachine) where
  open sm use {Machine}

  dispatch-Adds :
      (n : RawNode Machine Follower) (msg : Envelope) (m : Message) {n' : RawNode Machine Follower}
      → dispatch sm n msg m ≡ ok n'
      → Adds (ballots n) (ballots n') n'.log
  unfolding dispatch
  dispatch-Adds n msg (Message.heartbeat last_index commit_index read_seq) h =
      let (u, h1) = assert-eq-ok (leb commit_index last_index) _ h in
      inl (
        ballots-from_leader n msg.from msg.term
          (on_heartbeat sm msg.from msg.term last_index commit_index read_seq)
          (λ x x' g.
            ballots-on_heartbeat sm msg.from msg.term last_index commit_index read_seq x x' g)
          h1)
  dispatch-Adds n msg (Message.append base_index base_term entries) h =
      let (u, a, h1) = >>=-eq-ok (check_first base_index entries) _ h in
      inl (
        ballots-from_leader n msg.from msg.term (on_append sm msg.from base_index base_term entries)
          (λ x x' g. ballots-on_append sm msg.from base_index base_term entries x x' g) h1)
  dispatch-Adds n msg (Message.read seq) h = inl (
      ballots-from_leader n msg.from msg.term
        (λ x. ok (send x msg.from (Message.read_response seq)))
        (λ x x' g.
          let same : send x msg.from (Message.read_response seq) ≡ x' = ground arith in
          ap (λ (y : RawNode Machine Follower). ballots y) (sym same)
          ∙ ballots-send x msg.from (Message.read_response seq) (unfold grants in refl))
        h)
  dispatch-Adds n msg (Message.campaign last_index last_term) h =
      on_campaign-Adds n msg.from msg.term last_index last_term h
  dispatch-Adds n msg (Message.client_request id request) {n'} h =
      let same : on_client_request n msg.from id (Message.client_request id request) ≡ n' =
        ground arith in
      inl (
        ap (λ (y : RawNode Machine Follower). ballots y) (sym same)
        ∙ ballots-on_client_request n msg.from id (Message.client_request id request)
            (unfold grants in refl))
  dispatch-Adds n msg (Message.client_response id response) {n'} h =
      let same : on_client_response n msg.from id response ≡ n' = ground arith in
      inl (
        ap (λ (y : RawNode Machine Follower). ballots y) (sym same)
        ∙ ballots-on_client_response n msg.from id response)
  dispatch-Adds n msg (Message.campaign_response vote) h = inl (ground arith)
  dispatch-Adds n msg (Message.install_snapshot index term bytes membership) h = inl (
      ballots-from_leader n msg.from msg.term
        (on_install_snapshot sm msg.from index term bytes membership)
        (λ x x' g. ballots-on_install_snapshot sm msg.from index term bytes membership x x' g) h)
  dispatch-Adds n msg (Message.install_snapshot_response index) h = inl (ground arith)
  dispatch-Adds n msg (Message.heartbeat_response match_index read_seq) h = absurd (ground arith)
  dispatch-Adds n msg (Message.append_response match_index reject_index) h = absurd (ground arith)
  dispatch-Adds n msg (Message.read_response seq) h = absurd (ground arith)
  dispatch-Adds n msg (Message.pre_campaign last_index last_term) h = absurd (ground arith)
  dispatch-Adds n msg (Message.pre_campaign_response vote) h = absurd (ground arith)

  pub follower_step-Adds :
      (n : RawNode Machine Follower) (msg : Envelope) {n' : RawNode Machine Follower}
      → follower_step sm n msg ≡ ok n'
      → Adds (ballots n) (ballots n') n'.log
  unfolding follower_step
  follower_step-Adds n msg {n'} h = elim (Bool-cases (is_prevote sm msg.message)) [
    | inl asked ↦
        let same : step_prevote n msg ≡ n' = ground arith in
        inl
          (ap (λ (y : RawNode Machine Follower). ballots y) (sym same) ∙ ballots-step_prevote n msg)
    | inr other ↦ elim (Bool-cases (ltb msg.term n.log.term)) [
      | inl stale ↦
          let same : n ≡ n' = ground arith in
          inl (ap (λ (y : RawNode Machine Follower). ballots y) (sym same))
      | inr fresh ↦ elim (Bool-cases (ltb n.log.term msg.term)) [
        | inl newer ↦
            let called : (into_follower n msg.term none >>= λ x.
            dispatch sm (note_leader sm x msg.from) msg msg.message)
                ≡ ok n' =
              ground arith in
            let (x, a, stepped) = >>=-eq-ok (into_follower n msg.term none) _ called in
            subst (λ b. Adds b (ballots n') n'.log)
              (ballots-note_leader sm x msg.from ∙ ballots-into_follower n msg.term none a)
              (dispatch-Adds (note_leader sm x msg.from) msg msg.message stepped)
        | inr same ↦
            let called : dispatch sm (note_leader sm n msg.from) msg msg.message ≡ ok n' =
              ground arith in
            subst (λ b. Adds b (ballots n') n'.log) (ballots-note_leader sm n msg.from)
              (dispatch-Adds (note_leader sm n msg.from) msg msg.message called)
      ]
    ]
  ]
