-- ===== src/Election/Leading.antt =====
-- The votes under a leader's messages: `RawNode<Leader>::step` of src/raft/node.rs.
use raft_rust.Base.{
  ℕ, ◌≡◌, refl, sym, ap, ◌∙◌, subst, inl, inr, ◌⊎◌, false, some, ok, ◌>>=◌, >>=-eq-ok, ltb,
  if◌then◌else◌, arith, Bool-cases, Option-cases,
}
use raft_rust.Membership.{MembershipEntry}
use raft_rust.Message.{Envelope, Message}
use raft_rust.Log.Reach.{IsSound}
use raft_rust.StateMachine.{StateMachine}
use raft_rust.Node.Types.{RawNode, Follower, Leader, Node, follower, leader}
use raft_rust.Node.Common.{send}
use raft_rust.Node.Receive.{follower_step}
use raft_rust.Node.Lead.{step_down}
use raft_rust.Node.LeaderStep.{Services, leader_prevote, leader_dispatch, leader_step}
use raft_rust.Node.Drive.{log_of}
use raft_rust.Node.Steps.{IsSane}
use raft_rust.Node.LeaderSafe.{leader_step-Extends}
use raft_rust.Election.Ballots.{grants, ballots, ballots-send, Adds, Adds-id}
use raft_rust.Election.Grants.{follower_step-Adds}
use raft_rust.Election.Leaders.{ballots-step_down}
use raft_rust.Election.Responses.{ballots-dispatch}
use raft_rust.Election.Backing.{ballots_of, IsBacked, Good}

module _ (m : MembershipEntry) (Voted : ℕ → ℕ → ℕ → Type 0) (sm : StateMachine)
    (services : Services) where
  open sm use {Machine}

  own_term_ballots :
      (n : RawNode Machine Leader) (msg : Envelope) {r : Node Machine}
      → (do
        (n', down) ← leader_dispatch sm services n msg msg.message
        if down then (do f ← step_down n' n'.log.term; ok (follower f)) else ok (leader n'))
        ≡ ok r
      → ballots_of r ≡ ballots n
  own_term_ballots n msg {r} h =
      let (p, a, h1) = >>=-eq-ok (leader_dispatch sm services n msg msg.message) _ h in
      let sent = ballots-dispatch sm services n msg msg.message a in
      elim (Bool-cases p.1) [
        | inl down ↦
            let called : (step_down p.0 p.0.log.term >>= λ f. ok (follower f)) ≡ ok r =
              ground arith in
            let (f, b, same) = >>=-eq-ok (step_down p.0 p.0.log.term) _ called in
            let is : follower f ≡ r = ground arith in
            ap ballots_of (sym is) ∙ ballots-step_down p.0 p.0.log.term b ∙ sent
        | inr stays ↦ let is : leader p.0 ≡ r = ground arith in ap ballots_of (sym is) ∙ sent
      ]

  ballots-leader_prevote :
      (n : RawNode Machine Leader) (from : ℕ) (x : Message) {n' : RawNode Machine Leader}
      → leader_prevote sm services n from x ≡ some n'
      → ballots n' ≡ ballots n
  unfolding leader_prevote grants
  ballots-leader_prevote n from (Message.pre_campaign last_index last_term) {n'} h =
      let same : send n from (Message.pre_campaign_response false) ≡ n' = ground arith in
      ap (λ (y : RawNode Machine Leader). ballots y) (sym same)
      ∙ ballots-send n from (Message.pre_campaign_response false) refl
  ballots-leader_prevote n from (Message.pre_campaign_response vote) h = ground arith
  ballots-leader_prevote n from (Message.campaign_response vote) h = absurd (ground arith)
  ballots-leader_prevote n from (Message.campaign last_index last_term) h = absurd (ground arith)
  ballots-leader_prevote n from (Message.client_request id request) h = absurd (ground arith)
  ballots-leader_prevote n from (Message.install_snapshot_response index) h = absurd (ground arith)
  ballots-leader_prevote n from (Message.heartbeat last_index commit_index read_seq) h =
      absurd (ground arith)
  ballots-leader_prevote n from (Message.append base_index base_term entries) h =
      absurd (ground arith)
  ballots-leader_prevote n from (Message.read seq) h = absurd (ground arith)
  ballots-leader_prevote n from (Message.install_snapshot index term bytes membership) h =
      absurd (ground arith)
  ballots-leader_prevote n from (Message.heartbeat_response match_index read_seq) h =
      absurd (ground arith)
  ballots-leader_prevote n from (Message.append_response match_index reject_index) h =
      absurd (ground arith)
  ballots-leader_prevote n from (Message.read_response seq) h = absurd (ground arith)
  ballots-leader_prevote n from (Message.client_response id reply) h = absurd (ground arith)

  leader_step-Adds :
      (n : RawNode Machine Leader) (msg : Envelope) {r : Node Machine}
      → leader_step sm services n msg ≡ ok r
      → Adds (ballots n) (ballots_of r) (log_of r)
  unfolding leader_step
  leader_step-Adds n msg {r} h =
      elim (Option-cases (leader_prevote sm services n msg.from msg.message)) [
        | inr (n', pre) ↦
            let is : leader n' ≡ r = ground arith in
            inl (ap ballots_of (sym is) ∙ ballots-leader_prevote n msg.from msg.message pre)
        | inl ordinary ↦ elim (Bool-cases (ltb msg.term n.log.term)) [
          | inl stale ↦ let is : leader n ≡ r = ground arith in inl (ap ballots_of (sym is))
          | inr fresh ↦ elim (Bool-cases (ltb n.log.term msg.term)) [
            | inl newer ↦
                let called : (step_down n msg.term >>= λ down.
                follower_step sm down msg >>= λ stepped. ok (follower stepped))
                    ≡ ok r =
                  ground arith in
                let (down, a, h1) = >>=-eq-ok (step_down n msg.term) _ called in
                let (stepped, b, same) = >>=-eq-ok (follower_step sm down msg) _ h1 in
                let is : follower stepped ≡ r = ground arith in
                subst (λ x. Adds x (ballots_of r) (log_of r)) (ballots-step_down n msg.term a)
                  (subst (λ (x : Node Machine). Adds (ballots down) (ballots_of x) (log_of x)) is
                    (follower_step-Adds sm down msg b))
            | inr equal ↦
                let called : (leader_dispatch sm services n msg msg.message >>= λ p.
                if p.1
                then (step_down p.0 p.0.log.term >>= λ f. ok (follower f))
                else ok (leader p.0))
                    ≡ ok r =
                  ground arith in
                inl (own_term_ballots n msg called)
          ]
        ]
      ]

  -- A leader goes on with the votes it had.
  pub leads-IsBacked :
      (n l : RawNode Machine Leader)
      → IsBacked m Voted (leader n)
      → l.id ≡ n.id
      → l.log.term ≡ n.log.term
      → IsBacked m Voted (leader l)
  leads-IsBacked n l (votes, quorum, backs) same_id same_term = (
    votes,
    quorum,
    λ v has.
        subst (λ x. Voted v x l.id) (sym same_term)
          (subst (λ x. Voted v n.log.term x) (sym same_id) (backs v has)),
  )

  -- No step of a leader makes it a candidate.
  leader_step_role :
      (n : RawNode Machine Leader) (msg : Envelope) {r : Node Machine}
      → leader_step sm services n msg ≡ ok r
      → ((l : RawNode Machine Leader) × (leader l ≡ r))
        ⊎ ((f : RawNode Machine Follower) × (follower f ≡ r))
  unfolding leader_step
  leader_step_role n msg {r} h =
      elim (Option-cases (leader_prevote sm services n msg.from msg.message)) [
        | inr (n', pre) ↦ inl (n', ground arith)
        | inl ordinary ↦ elim (Bool-cases (ltb msg.term n.log.term)) [
          | inl stale ↦ inl (n, ground arith)
          | inr fresh ↦ elim (Bool-cases (ltb n.log.term msg.term)) [
            | inl newer ↦
                let called : (step_down n msg.term >>= λ down.
                follower_step sm down msg >>= λ stepped. ok (follower stepped))
                    ≡ ok r =
                  ground arith in
                let (down, a, h1) = >>=-eq-ok (step_down n msg.term) _ called in
                let (stepped, b, same) = >>=-eq-ok (follower_step sm down msg) _ h1 in
                inr (stepped, ground arith)
            | inr equal ↦
                let called : (leader_dispatch sm services n msg msg.message >>= λ p.
                if p.1
                then (step_down p.0 p.0.log.term >>= λ f. ok (follower f))
                else ok (leader p.0))
                    ≡ ok r =
                  ground arith in
                let (p, a, h1) =
                  >>=-eq-ok (leader_dispatch sm services n msg msg.message) _ called in
                elim (Bool-cases p.1) [
                  | inr stays ↦ inl (p.0, ground arith)
                  | inl down ↦
                      let fell : (step_down p.0 p.0.log.term >>= λ f. ok (follower f)) ≡ ok r =
                        ground arith in
                      let (f, b, same) = >>=-eq-ok (step_down p.0 p.0.log.term) _ fell in
                      inr (f, ground arith)
                ]
          ]
        ]
      ]

  pub leader_step-Good :
      (n : RawNode Machine Leader) (msg : Envelope) {r : Node Machine}
      → IsSound n.log
      → IsSane msg.term msg.message
      → IsBacked m Voted (leader n)
      → leader_step sm services n msg ≡ ok r
      → Good m Voted (ballots n) r
  leader_step-Good n msg {r} s sane old h =
      let adds = leader_step-Adds n msg h in
      elim (leader_step_role n msg h) [
        | inr (f, is) ↦ (subst (IsBacked m Voted) is tt, adds)
        | inl (l, is) ↦
            let led : leader_step sm services n msg ≡ ok (leader l) = h ∙ ap (λ x. ok x) (sym is) in
            let kept = leader_step-Extends sm services n l msg sane s led in
            let of_l : Adds (ballots n) (ballots l) l.log =
              subst (λ (x : Node Machine). Adds (ballots n) (ballots_of x) (log_of x)) (sym is)
                adds in
            let same_id : l.id ≡ n.id = unfold ballots in Adds-id l.log of_l in
            (subst (IsBacked m Voted) is (leads-IsBacked n l old same_id kept.same_term), adds)
      ]
