-- ===== src/Node/Wins.antt =====
-- A candidate's step and its log: `RawNode<Candidate>::step` of src/raft/node.rs.
use raft_rust.Base.{
  ℕ, ◌≡◌, ◌∙◌, inl, inr, Bool, true, false, ◌&&◌, not, Option, none, some, ok, ◌>>=◌, >>=-eq-ok,
  ltb, arith, Bool-cases,
}
use raft_rust.Message.{Envelope, Message}
use raft_rust.StateMachine.{StateMachine}
use raft_rust.Node.Types.{RawNode, Candidate, Node, follower}
use raft_rust.Node.Common.{send}
use raft_rust.Node.Campaign.{quorum_reached, campaign}
use raft_rust.Node.Receive.{follower_step}
use raft_rust.Node.Steps.{IsSane, follower_step-Reach}
use raft_rust.Node.Elect.{
  is_election, give_up, count_vote, into_leader, lead_if, on_prevote, on_vote, candidate_dispatch,
  candidate_ordinary, candidate_by, candidate_step,
}
use raft_rust.Node.Drive.{log_of}
use raft_rust.Node.Elections.{
  Advances, Advances-trans, Advances-of_eq, Grows-Advances, campaign-Advances, give_up-Advances,
  into_leader-Grows,
}

module _ {S : Type 0} where
  log-count_vote : (n : RawNode S Candidate) (from : ℕ) → (count_vote n from).log ≡ n.log
  unfolding count_vote
  log-count_vote n from = ground arith

module _ (sm : StateMachine) where
  open sm use {Machine}

  lead_if-Advances :
      (won : Bool) (n : RawNode Machine Candidate) {r : Node Machine}
      → lead_if sm won n ≡ ok r
      → Advances n.log (log_of r)
  unfolding lead_if
  lead_if-Advances true n {r} h =
      let (l, a, same) = >>=-eq-ok (into_leader sm n) _ h in
      let last : log_of r ≡ l.log = ground arith in
      Advances-trans (Grows-Advances (into_leader-Grows sm n a)) (Advances-of_eq last)
  lead_if-Advances false n {r} h = let last : log_of r ≡ n.log = ground arith in Advances-of_eq last

  on_vote-Advances :
      (n : RawNode Machine Candidate) (from : ℕ) {r : Node Machine}
      → on_vote sm n from ≡ ok r
      → Advances n.log (log_of r)
  unfolding on_vote
  on_vote-Advances n from {r} h = elim (Bool-cases (is_election n.role.phase)) [
    | inr early ↦ let last : log_of r ≡ n.log = ground arith in Advances-of_eq last
    | inl late ↦
        let counted = count_vote n from in
        let called : lead_if sm (quorum_reached counted counted.role.votes) counted ≡ ok r =
          ground arith in
        Advances-trans (Advances-of_eq (log-count_vote n from))
          (lead_if-Advances (quorum_reached counted counted.role.votes) counted called)
  ]

  on_prevote-Advances :
      (n : RawNode Machine Candidate) (from : ℕ) (vote : Bool) {r : Node Machine}
      → on_prevote sm n from vote ≡ ok r
      → Advances n.log (log_of r)
  unfolding on_prevote
  on_prevote-Advances n from vote {r} h =
      elim (Bool-cases (not (is_election n.role.phase) && vote)) [
        | inr refused ↦ let last : log_of r ≡ n.log = ground arith in Advances-of_eq last
        | inl given ↦
            let counted = count_vote n from in
            elim (Bool-cases (quorum_reached counted counted.role.votes)) [
              | inr waits ↦
                  let last : log_of r ≡ counted.log = ground arith in
                  Advances-of_eq (last ∙ log-count_vote n from)
              | inl enough ↦
                  let called : (campaign counted >>= λ stands.
                  lead_if sm
                    (quorum_reached stands stands.role.votes && is_election stands.role.phase)
                    stands)
                      ≡ ok r =
                    ground arith in
                  let (stands, a, led) = >>=-eq-ok (campaign counted) _ called in
                  Advances-trans (Advances-of_eq (log-count_vote n from)) (
                    Advances-trans (campaign-Advances counted a) (
                      lead_if-Advances
                        (quorum_reached stands stands.role.votes && is_election stands.role.phase)
                        stands led))
            ]
      ]

  -- Giving up and taking the message as a follower.
  then_follow-Advances :
      (n : RawNode Machine Candidate) (term : ℕ) (from : Option ℕ) (msg : Envelope)
      {r : Node Machine}
      → IsSane msg.term msg.message
      → (do f ← give_up n term from; f' ← follower_step sm f msg; ok (follower f')) ≡ ok r
      → Advances n.log (log_of r)
  then_follow-Advances n term from msg {r} sane h =
      let (f, a, h1) = >>=-eq-ok (give_up n term from) _ h in
      let (f', b, same) = >>=-eq-ok (follower_step sm f msg) _ h1 in
      let last : log_of r ≡ f'.log = ground arith in
      Advances-trans (give_up-Advances n term from a)
        (Advances-trans (λ s. follower_step-Reach sm f msg sane b) (Advances-of_eq last))

  candidate_dispatch-Advances :
      (n : RawNode Machine Candidate) (msg : Envelope) (m : Message) {r : Node Machine}
      → IsSane msg.term msg.message
      → candidate_dispatch sm n msg m ≡ ok r
      → Advances n.log (log_of r)
  unfolding candidate_dispatch
  candidate_dispatch-Advances n msg (Message.campaign_response true) sane h =
      on_vote-Advances n msg.from h
  candidate_dispatch-Advances n msg (Message.campaign_response false) {r} sane h =
      let last : log_of r ≡ n.log = ground arith in Advances-of_eq last
  candidate_dispatch-Advances n msg (Message.campaign last_index last_term) {r} sane h =
      let last : log_of r ≡ n.log = unfold send in ground arith in Advances-of_eq last
  candidate_dispatch-Advances n msg (Message.client_request id request) {r} sane h =
      let last : log_of r ≡ n.log = unfold send in ground arith in Advances-of_eq last
  candidate_dispatch-Advances n msg (Message.install_snapshot_response index) {r} sane h =
      let last : log_of r ≡ n.log = ground arith in Advances-of_eq last
  candidate_dispatch-Advances n msg (Message.heartbeat last_index commit_index read_seq) sane h =
      then_follow-Advances n msg.term (some msg.from) msg sane h
  candidate_dispatch-Advances n msg (Message.append base_index base_term entries) sane h =
      then_follow-Advances n msg.term (some msg.from) msg sane h
  candidate_dispatch-Advances n msg (Message.read seq) sane h =
      then_follow-Advances n msg.term (some msg.from) msg sane h
  candidate_dispatch-Advances n msg (Message.install_snapshot index term bytes membership) sane h =
      then_follow-Advances n msg.term (some msg.from) msg sane h
  candidate_dispatch-Advances n msg (Message.heartbeat_response match_index read_seq) sane h =
      absurd (ground arith)
  candidate_dispatch-Advances n msg (Message.append_response match_index reject_index) sane h =
      absurd (ground arith)
  candidate_dispatch-Advances n msg (Message.read_response seq) sane h = absurd (ground arith)
  candidate_dispatch-Advances n msg (Message.client_response id reply) sane h =
      absurd (ground arith)
  candidate_dispatch-Advances n msg (Message.pre_campaign last_index last_term) sane h =
      absurd (ground arith)
  candidate_dispatch-Advances n msg (Message.pre_campaign_response vote) sane h =
      absurd (ground arith)

  candidate_ordinary-Advances :
      (n : RawNode Machine Candidate) (msg : Envelope) {r : Node Machine}
      → IsSane msg.term msg.message
      → candidate_ordinary sm n msg ≡ ok r
      → Advances n.log (log_of r)
  unfolding candidate_ordinary
  candidate_ordinary-Advances n msg {r} sane h = elim (Bool-cases (ltb msg.term n.log.term)) [
    | inl stale ↦ let last : log_of r ≡ n.log = ground arith in Advances-of_eq last
    | inr fresh ↦ elim (Bool-cases (ltb n.log.term msg.term)) [
      | inl newer ↦
          let called : (give_up n msg.term none >>= λ f.
          follower_step sm f msg >>= λ f'. ok (follower f'))
              ≡ ok r =
            ground arith in
          then_follow-Advances n msg.term none msg sane called
      | inr same ↦
          let called : candidate_dispatch sm n msg msg.message ≡ ok r = ground arith in
          candidate_dispatch-Advances n msg msg.message sane called
    ]
  ]

  candidate_by-Advances :
      (n : RawNode Machine Candidate) (msg : Envelope) (m : Message) {r : Node Machine}
      → IsSane msg.term msg.message
      → candidate_by sm n msg m ≡ ok r
      → Advances n.log (log_of r)
  unfolding candidate_by
  candidate_by-Advances n msg (Message.pre_campaign last_index last_term) {r} sane h =
      let last : log_of r ≡ n.log = unfold send in ground arith in Advances-of_eq last
  candidate_by-Advances n msg (Message.pre_campaign_response vote) sane h =
      on_prevote-Advances n msg.from vote h
  candidate_by-Advances n msg (Message.campaign_response vote) sane h =
      candidate_ordinary-Advances n msg sane h
  candidate_by-Advances n msg (Message.campaign last_index last_term) sane h =
      candidate_ordinary-Advances n msg sane h
  candidate_by-Advances n msg (Message.client_request id request) sane h =
      candidate_ordinary-Advances n msg sane h
  candidate_by-Advances n msg (Message.install_snapshot_response index) sane h =
      candidate_ordinary-Advances n msg sane h
  candidate_by-Advances n msg (Message.heartbeat last_index commit_index read_seq) sane h =
      candidate_ordinary-Advances n msg sane h
  candidate_by-Advances n msg (Message.append base_index base_term entries) sane h =
      candidate_ordinary-Advances n msg sane h
  candidate_by-Advances n msg (Message.read seq) sane h = candidate_ordinary-Advances n msg sane h
  candidate_by-Advances n msg (Message.install_snapshot index term bytes membership) sane h =
      candidate_ordinary-Advances n msg sane h
  candidate_by-Advances n msg (Message.heartbeat_response match_index read_seq) sane h =
      candidate_ordinary-Advances n msg sane h
  candidate_by-Advances n msg (Message.append_response match_index reject_index) sane h =
      candidate_ordinary-Advances n msg sane h
  candidate_by-Advances n msg (Message.read_response seq) sane h =
      candidate_ordinary-Advances n msg sane h
  candidate_by-Advances n msg (Message.client_response id reply) sane h =
      candidate_ordinary-Advances n msg sane h

  pub candidate_step-Advances :
      (n : RawNode Machine Candidate) (msg : Envelope) {r : Node Machine}
      → IsSane msg.term msg.message
      → candidate_step sm n msg ≡ ok r
      → Advances n.log (log_of r)
  unfolding candidate_step
  candidate_step-Advances n msg sane h = candidate_by-Advances n msg msg.message sane h
