-- ===== src/Election/Turning.antt =====
-- The votes under any message and any tick of a node: `Node::step` and `Node::tick` of
-- src/raft/node.rs.
use raft_rust.Base.{
  ℕ, ◌≡◌, refl, sym, ap, ◌∙◌, subst, inl, inr, true, ◌&&◌, not, Outcome, List, ok, ◌>>=◌, >>=-eq-ok,
  assert-eq-ok, leb, ltb, ◌==◌, if◌then◌else◌, arith, Bool-cases,
}
use raft_rust.Membership.{MembershipEntry}
use raft_rust.Message.{Envelope}
use raft_rust.Log.Ops.{Log}
use raft_rust.Log.Reach.{IsSound}
use raft_rust.StateMachine.{StateMachine}
use raft_rust.Node.Types.{RawNode, Follower, Leader, Node, candidate, follower, leader}
use raft_rust.Node.Common.{tick_up, cluster_size}
use raft_rust.Node.Receive.{follower_step, follower_tick, into_candidate}
use raft_rust.Node.Replicate.{heartbeat}
use raft_rust.Node.Lead.{step_down, age, has_contact, leader_tick}
use raft_rust.Node.LeaderStep.{Services}
use raft_rust.Node.Drive.{log_of, node_id, knows, step_role, step, tick}
use raft_rust.Node.Steps.{IsSane}
use raft_rust.Node.LeadLogs.{log-heartbeat}
use raft_rust.Election.Ballots.{grants, ballots}
use raft_rust.Election.Grants.{follower_step-Adds}
use raft_rust.Election.Leaders.{ballots-heartbeat, ballots-step_down}
use raft_rust.Election.Candidates.{into_candidate-Stood}
use raft_rust.Election.Backing.{ballots_of, active_of, IsBacked, Good, OwnVote, Stood-Backs}
use raft_rust.Election.Steps.{candidate_step-Good, candidate_tick-Good}
use raft_rust.Election.Leading.{leads-IsBacked, leader_step-Good}

module _ (m : MembershipEntry) (Voted : ℕ → ℕ → ℕ → Type 0) (sm : StateMachine)
    (services : Services) where
  open sm use {Machine}

  leader_tick-Good :
      (n : RawNode Machine Leader) {r : Node Machine}
      → IsBacked m Voted (leader n)
      → leader_tick n ≡ ok r
      → Good m Voted (ballots n) r
  unfolding leader_tick
  leader_tick-Good n {r} old h =
      let aged = record n { role = record (n.role) { peer_seen = age n.role.peer_seen } } in
      let (since, a, h1) = >>=-eq-ok (tick_up n.role.since_heartbeat) _ h in
      let ticked = record aged { role = record (aged.role) { since_heartbeat = since } } in
      let first : ballots ticked ≡ ballots n = unfold ballots in refl in
      let beat : Outcome (RawNode Machine Leader) =
        if leb n.opts.heartbeat_interval since then heartbeat ticked else ok ticked in
      let (beaten, b, h2) = >>=-eq-ok beat _ h1 in
      let kept : (beaten.log ≡ n.log) × (ballots beaten ≡ ballots ticked) =
        elim (Bool-cases (leb n.opts.heartbeat_interval since)) [
          | inl due ↦
              let sent : heartbeat ticked ≡ ok beaten = ground arith in
              (log-heartbeat ticked sent, ballots-heartbeat ticked sent)
          | inr early ↦
              let same : ticked ≡ beaten = ground arith in
              (ground arith, ap (λ (y : RawNode Machine Leader). ballots y) (sym same))
        ] in
      let sent : ballots beaten ≡ ballots n = kept.1 ∙ first in
      elim (Bool-cases
        (n.opts.check_quorum && ltb 1 (cluster_size beaten) && not (has_contact beaten))) [
          | inl lost ↦
              let called : (step_down beaten beaten.log.term >>= λ f. ok (follower f)) ≡ ok r =
                ground arith in
              let (f, c, done) = >>=-eq-ok (step_down beaten beaten.log.term) _ called in
              let is : follower f ≡ r = ground arith in
              subst (Good m Voted (ballots n)) is
                (tt, inl (ballots-step_down beaten beaten.log.term c ∙ sent))
          | inr held ↦
              let is : leader beaten ≡ r = ground arith in
              let same_id : beaten.id ≡ n.id =
                unfold ballots in ap (λ (b : ℕ × List Envelope). b.0) sent in
              subst (Good m Voted (ballots n)) is (
                leads-IsBacked m Voted sm services n beaten old same_id
                    (ap (λ (l : Log). l.term) kept.0),
                inl sent,
              )
        ]

  follower_tick-Good :
      (n : RawNode Machine Follower) {r : Node Machine}
      → OwnVote m Voted n.id (log_of r)
      → follower_tick sm n ≡ ok r
      → Good m Voted (ballots n) r
  unfolding follower_tick
  follower_tick-Good n {r} own h =
      let (seen, a, h1) = >>=-eq-ok (tick_up n.role.leader_seen) _ h in
      let waited = record n { role = record (n.role) { leader_seen = seen } } in
      let first : ballots waited ≡ ballots n = unfold ballots in refl in
      elim (Bool-cases (leb n.role.election_timeout seen)) [
        | inl due ↦
            let called : (into_candidate sm waited true >>= λ c. ok (candidate c)) ≡ ok r =
              ground arith in
            let (c, b, same) = >>=-eq-ok (into_candidate sm waited true) _ called in
            let is : candidate c ≡ r = ground arith in
            let stood = into_candidate-Stood sm waited true b in
            let sent : ballots c ≡ ballots n = stood.same ∙ first in
            let same_id : c.id ≡ n.id =
              unfold ballots in ap (λ (b : ℕ × List Envelope). b.0) sent in
            let mine : OwnVote m Voted c.id c.log =
              subst (λ x. OwnVote m Voted x c.log) (sym same_id)
                (subst (λ (x : Node Machine). OwnVote m Voted n.id (log_of x)) (sym is) own) in
            subst (Good m Voted (ballots n)) is (Stood-Backs m Voted c stood mine, inl sent)
        | inr early ↦
            let is : follower waited ≡ r = ground arith in
            subst (Good m Voted (ballots n)) is (tt, inl first)
      ]

  pub tick-Good :
      (n : Node Machine) {r : Node Machine}
      → IsBacked m Voted n
      → OwnVote m Voted (node_id n) (log_of r)
      → tick sm services n ≡ ok r
      → Good m Voted (ballots_of n) r
  unfolding tick
  tick-Good (candidate n) old own h = candidate_tick-Good m Voted sm n old own h
  tick-Good (follower n) old own h = follower_tick-Good n own h
  tick-Good (leader n) old own h = leader_tick-Good n old h

  step_role-Good :
      (n : Node Machine) (msg : Envelope) {r : Node Machine}
      → active_of n ≡ m
      → IsSound (log_of n)
      → IsSane msg.term msg.message
      → IsBacked m Voted n
      → OwnVote m Voted (node_id n) (log_of r)
      → (grants msg.message ≡ true → Voted msg.from msg.term (node_id n))
      → step_role sm services n msg ≡ ok r
      → Good m Voted (ballots_of n) r
  unfolding step_role
  step_role-Good (candidate n) msg active s sane old own heard h =
      candidate_step-Good m Voted sm n msg active s old own heard h
  step_role-Good (follower n) msg {r} active s sane old own heard h =
      let (f, a, same) = >>=-eq-ok (follower_step sm n msg) _ h in
      let is : follower f ≡ r = ground arith in
      subst (Good m Voted (ballots n)) is (tt, follower_step-Adds sm n msg a)
  step_role-Good (leader n) msg active s sane old own heard h =
      leader_step-Good m Voted sm services n msg s sane old h

  pub step-Good :
      (n : Node Machine) (msg : Envelope) {r : Node Machine}
      → active_of n ≡ m
      → IsSound (log_of n)
      → IsSane msg.term msg.message
      → IsBacked m Voted n
      → OwnVote m Voted (node_id n) (log_of r)
      → (grants msg.message ≡ true → Voted msg.from msg.term msg.to)
      → step sm services n msg ≡ ok r
      → Good m Voted (ballots_of n) r
  unfolding step
  step-Good n msg {r} active s sane old own heard h =
      let (mine, h1) = assert-eq-ok (msg.to == node_id n) _ h in
      let same : msg.to ≡ node_id n = ground arith in
      elim (Bool-cases (knows n msg.from)) [
        | inl known ↦
            let called : step_role sm services n msg ≡ ok r = ground arith in
            step_role-Good n msg active s sane old own
              (λ g. subst (λ x. Voted msg.from msg.term x) same (heard g)) called
        | inr stranger ↦
            let is : n ≡ r = ground arith in subst (Good m Voted (ballots_of n)) is (old, inl refl)
      ]
