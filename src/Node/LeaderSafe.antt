-- ===== src/Node/LeaderSafe.antt =====
-- A leader's step and its log: `RawNode<Leader>::step` of src/raft/node.rs.
use raft_rust.Base.{
  ℕ, ◌≡◌, refl, sym, ap, ◌∙◌, inl, inr, some, ok, ◌>>=◌, >>=-eq-ok, ltb, if◌then◌else◌, arith,
  Bool-cases, Option-cases,
}
use raft_rust.Message.{Envelope, Message}
use raft_rust.Log.Reach.{Reach-trans, Reach-of_eq, IsSound}
use raft_rust.Log.Lead.{LeadReach-Extends, Extends, Grows, Grows-trans, Grows-of_eq}
use raft_rust.StateMachine.{StateMachine}
use raft_rust.Node.Types.{RawNode, Leader, Node, follower, leader}
use raft_rust.Node.Common.{send}
use raft_rust.Node.Receive.{follower_step}
use raft_rust.Node.Lead.{step_down}
use raft_rust.Node.LeaderStep.{Services, leader_prevote, leader_dispatch, leader_step}
use raft_rust.Node.Steps.{IsSane, follower_step-Reach}
use raft_rust.Node.Drive.{log_of}
use raft_rust.Node.StepDown.{step_down-Reach}
use raft_rust.Node.LeadSteps.{leader_dispatch-Grows}
use raft_rust.Node.Elections.{Advances, Advances-trans, Advances-of_eq, Grows-Advances}

module _ (sm : StateMachine) (services : Services) where
  open sm use {Machine}

  -- A message that only the pre-vote rounds send leaves a leader's log alone.
  log-leader_prevote :
      (n : RawNode Machine Leader) (from : ℕ) (m : Message) {n' : RawNode Machine Leader}
      → leader_prevote sm services n from m ≡ some n'
      → n'.log ≡ n.log
  unfolding leader_prevote
  log-leader_prevote n from (Message.pre_campaign last_index last_term) h =
      unfold send in ground arith
  log-leader_prevote n from (Message.pre_campaign_response vote) h = ground arith
  log-leader_prevote n from (Message.campaign_response vote) h = absurd (ground arith)
  log-leader_prevote n from (Message.campaign last_index last_term) h = absurd (ground arith)
  log-leader_prevote n from (Message.client_request id request) h = absurd (ground arith)
  log-leader_prevote n from (Message.install_snapshot_response index) h = absurd (ground arith)
  log-leader_prevote n from (Message.heartbeat last_index commit_index read_seq) h =
      absurd (ground arith)
  log-leader_prevote n from (Message.append base_index base_term entries) h = absurd (ground arith)
  log-leader_prevote n from (Message.read seq) h = absurd (ground arith)
  log-leader_prevote n from (Message.install_snapshot index term bytes membership) h =
      absurd (ground arith)
  log-leader_prevote n from (Message.heartbeat_response match_index read_seq) h =
      absurd (ground arith)
  log-leader_prevote n from (Message.append_response match_index reject_index) h =
      absurd (ground arith)
  log-leader_prevote n from (Message.read_response seq) h = absurd (ground arith)
  log-leader_prevote n from (Message.client_response id reply) h = absurd (ground arith)

  -- A leader's message of its own term: it only extends the log, unless the leader then steps down.
  own_term :
      (n : RawNode Machine Leader) (msg : Envelope) {r : Node Machine}
      → (do
        (n', down) ← leader_dispatch sm services n msg msg.message
        if down then (do f ← step_down n' n'.log.term; ok (follower f)) else ok (leader n'))
        ≡ ok r
      → Advances n.log (log_of r)
        × ((l : RawNode Machine Leader) → r ≡ leader l → Grows n.log l.log)
  own_term n msg {r} h =
      let (p, a, h1) = >>=-eq-ok (leader_dispatch sm services n msg msg.message) _ h in
      let grown = leader_dispatch-Grows sm services n msg msg.message a in
      elim (Bool-cases p.1) [
        | inl down ↦
            let called : (step_down p.0 p.0.log.term >>= λ f. ok (follower f)) ≡ ok r =
              ground arith in
            let (f, b, same) = >>=-eq-ok (step_down p.0 p.0.log.term) _ called in
            let last : log_of r ≡ f.log = ground arith in
            (
              Advances-trans (Grows-Advances grown)
                  (Advances-trans (λ s. step_down-Reach p.0 p.0.log.term b) (Advances-of_eq last)),
              λ l e. absurd (ground arith),
            )
        | inr stays ↦
            let last : log_of r ≡ p.0.log = ground arith in
            (
              Advances-trans (Grows-Advances grown) (Advances-of_eq last),
              λ l e.
                  let mine : l.log ≡ p.0.log = ground arith in Grows-trans grown (Grows-of_eq mine),
            )
      ]

  pub leader_step-both :
      (n : RawNode Machine Leader) (msg : Envelope) {r : Node Machine}
      → IsSane msg.term msg.message
      → leader_step sm services n msg ≡ ok r
      → Advances n.log (log_of r)
        × ((l : RawNode Machine Leader) → r ≡ leader l → Grows n.log l.log)
  unfolding leader_step
  leader_step-both n msg {r} sane h =
      elim (Option-cases (leader_prevote sm services n msg.from msg.message)) [
        | inr (n', pre) ↦
            let same : r ≡ leader n' = ground arith in
            let kept = log-leader_prevote n msg.from msg.message pre in
            let last : log_of r ≡ n.log = ap log_of same ∙ kept in
            (Advances-of_eq last, λ l e. Grows-of_eq (sym (ap log_of e) ∙ last))
        | inl ordinary ↦ elim (Bool-cases (ltb msg.term n.log.term)) [
          | inl stale ↦
              let same : r ≡ leader n = ground arith in
              let last : log_of r ≡ n.log = ap log_of same in
              (Advances-of_eq last, λ l e. Grows-of_eq (sym (ap log_of e) ∙ last))
          | inr fresh ↦ elim (Bool-cases (ltb n.log.term msg.term)) [
            | inl newer ↦
                let called : (step_down n msg.term >>= λ down.
                follower_step sm down msg >>= λ stepped. ok (follower stepped))
                    ≡ ok r =
                  ground arith in
                let (down, a, h1) = >>=-eq-ok (step_down n msg.term) _ called in
                let (stepped, b, same) = >>=-eq-ok (follower_step sm down msg) _ h1 in
                let last : log_of r ≡ stepped.log = ground arith in
                (
                  λ s.
                      Reach-trans (step_down-Reach n msg.term a)
                        (Reach-trans (follower_step-Reach sm down msg sane b) (Reach-of_eq last)),
                  λ l e. absurd (ground arith),
                )
            | inr equal ↦
                let called : (leader_dispatch sm services n msg msg.message >>= λ p.
                if p.1
                then (step_down p.0 p.0.log.term >>= λ f. ok (follower f))
                else ok (leader p.0))
                    ≡ ok r =
                  ground arith in
                own_term n msg called
          ]
        ]
      ]

  -- A message, whose snapshot, if any, covers an entry and is not of a later term than the message,
  -- that leaves a leader with a sound log a leader only extends the log: no entry changes, none is
  -- lost but by a cut at the front, the end, the start and the commit index never move back, and
  -- the term and the vote stay.
  pub leader_step-Extends :
      (n l : RawNode Machine Leader) (msg : Envelope)
      → IsSane msg.term msg.message
      → IsSound n.log
      → leader_step sm services n msg ≡ ok (leader l)
      → Extends n.log l.log
  leader_step-Extends n l msg sane s h =
      LeadReach-Extends s ((leader_step-both n msg sane h).1 l refl s)
