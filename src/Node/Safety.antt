-- ===== src/Node/Safety.antt =====
-- What any message or tick does to a node's log: `Node::step` and `Node::tick` of src/raft/node.rs.
use raft_rust.Base.{
  ℕ, ◌≡◌, refl, ◌∙◌, inl, inr, true, false, ◌&&◌, not, none, List, [], Outcome, ok, ◌>>=◌,
  >>=-eq-ok, assert-eq-ok, ltb, leb, ◌==◌, if◌then◌else◌, arith, Bool-cases, Option-cases,
}
use raft_rust.Message.{Envelope}
use raft_rust.Log.Ops.{Log}
use raft_rust.Log.Reach.{Reach-trans, Reach-of_eq, IsSound, Reach-IsSound, Reach-KeepsVote}
use raft_rust.Log.Votes.{KeepsVote}
use raft_rust.StateMachine.{StateMachine}
use raft_rust.Node.Types.{RawNode, Follower, Leader, Node, Options, candidate, follower, leader}
use raft_rust.Node.Common.{tick_up, cluster_size}
use raft_rust.Node.Campaign.{candidate_tick}
use raft_rust.Node.Receive.{follower_step, follower_tick, into_candidate, maybe_apply}
use raft_rust.Node.Replicate.{heartbeat}
use raft_rust.Node.Lead.{step_down, age, has_contact, leader_tick}
use raft_rust.Node.LeaderStep.{Services}
use raft_rust.Node.Steps.{IsSane, follower_step-Reach}
use raft_rust.Node.Elect.{into_leader}
use raft_rust.Node.Drive.{log_of, node_id, start, knows, step_role, step, tick}
use raft_rust.Node.LeadLogs.{log-heartbeat, log-timeout}
use raft_rust.Node.Logs.{log-maybe_apply}
use raft_rust.Node.Follower.{new_follower}
use raft_rust.Membership.{bootstrap}
use raft_rust.Node.StepDown.{step_down-Reach}
use raft_rust.Node.Elections.{
  into_leader-Grows, Advances, Advances-trans, Advances-of_eq, Grows-Advances,
  into_candidate-Advances, candidate_tick-Advances,
}
use raft_rust.Node.Wins.{candidate_step-Advances}
use raft_rust.Node.LeaderSafe.{leader_step-both}
use raft_rust.Node.Receive as Receive
use raft_rust.Log.Ops.{latest_membership}
use raft_rust.Node.Common.{restore_membership_from_log, random_election_timeout}

module _ (sm : StateMachine) (services : Services) where
  open sm use {Machine}

  leader_tick-Advances :
      (n : RawNode Machine Leader) {r : Node Machine}
      → leader_tick n ≡ ok r
      → Advances n.log (log_of r)
  unfolding leader_tick
  leader_tick-Advances n {r} h =
      let aged = record n { role = record (n.role) { peer_seen = age n.role.peer_seen } } in
      let (since, a, h1) = >>=-eq-ok (tick_up n.role.since_heartbeat) _ h in
      let ticked = record aged { role = record (aged.role) { since_heartbeat = since } } in
      let beat : Outcome (RawNode Machine Leader) =
        if leb n.opts.heartbeat_interval since then heartbeat ticked else ok ticked in
      let (beaten, b, h2) = >>=-eq-ok beat _ h1 in
      let same : beaten.log ≡ n.log = elim (Bool-cases (leb n.opts.heartbeat_interval since)) [
        | inl due ↦
            let sent : heartbeat ticked ≡ ok beaten = ground arith in log-heartbeat ticked sent
        | inr early ↦ ground arith
      ] in
      elim (Bool-cases
        (n.opts.check_quorum && ltb 1 (cluster_size beaten) && not (has_contact beaten))) [
          | inl lost ↦
              let called : (step_down beaten beaten.log.term >>= λ f. ok (follower f)) ≡ ok r =
                ground arith in
              let (f, c, done) = >>=-eq-ok (step_down beaten beaten.log.term) _ called in
              let last : log_of r ≡ f.log = ground arith in
              Advances-trans (Advances-of_eq same)
                (λ s. Reach-trans (step_down-Reach beaten beaten.log.term c) (Reach-of_eq last))
          | inr held ↦
              let last : log_of r ≡ beaten.log = ground arith in Advances-of_eq (last ∙ same)
        ]

  follower_tick-Advances :
      (n : RawNode Machine Follower) {r : Node Machine}
      → follower_tick sm n ≡ ok r
      → Advances n.log (log_of r)
  unfolding follower_tick
  follower_tick-Advances n {r} h =
      let (seen, a, h1) = >>=-eq-ok (tick_up n.role.leader_seen) _ h in
      let waited = record n { role = record (n.role) { leader_seen = seen } } in
      elim (Bool-cases (leb n.role.election_timeout seen)) [
        | inl due ↦
            let called : (into_candidate sm waited true >>= λ c. ok (candidate c)) ≡ ok r =
              ground arith in
            let (c, b, same) = >>=-eq-ok (into_candidate sm waited true) _ called in
            let last : log_of r ≡ c.log = ground arith in
            Advances-trans (into_candidate-Advances sm waited true b) (Advances-of_eq last)
        | inr early ↦ let last : log_of r ≡ n.log = ground arith in Advances-of_eq last
      ]

  pub tick-Advances :
      (n : Node Machine) {r : Node Machine}
      → tick sm services n ≡ ok r
      → Advances (log_of n) (log_of r)
  unfolding tick
  tick-Advances (candidate n) {r} h =
      let (c, a, same) = >>=-eq-ok (candidate_tick n) _ h in
      let last : log_of r ≡ c.log = ground arith in
      Advances-trans (candidate_tick-Advances n a) (Advances-of_eq last)
  tick-Advances (follower n) h = follower_tick-Advances n h
  tick-Advances (leader n) h = leader_tick-Advances n h

  step_role-Advances :
      (n : Node Machine) (msg : Envelope) {r : Node Machine}
      → IsSane msg.term msg.message
      → step_role sm services n msg ≡ ok r
      → Advances (log_of n) (log_of r)
  unfolding step_role
  step_role-Advances (candidate n) msg sane h = candidate_step-Advances sm n msg sane h
  step_role-Advances (follower n) msg {r} sane h =
      let (f, a, same) = >>=-eq-ok (follower_step sm n msg) _ h in
      let last : log_of r ≡ f.log = ground arith in
      λ s. Reach-trans (follower_step-Reach sm n msg sane a) (Reach-of_eq last)
  step_role-Advances (leader n) msg sane h = (leader_step-both sm services n msg sane h).0

  pub step-Advances :
      (n : Node Machine) (msg : Envelope) {r : Node Machine}
      → IsSane msg.term msg.message
      → step sm services n msg ≡ ok r
      → Advances (log_of n) (log_of r)
  unfolding step
  step-Advances n msg {r} sane h =
      let (mine, h1) = assert-eq-ok (msg.to == node_id n) _ h in
      elim (Bool-cases (knows n msg.from)) [
        | inl known ↦
            let called : step_role sm services n msg ≡ ok r = ground arith in
            step_role-Advances n msg sane called
        | inr stranger ↦ let last : log_of r ≡ log_of n = ground arith in Advances-of_eq last
      ]

  -- The messages and ticks that a node goes through, in any order.
  pub data Run (n : Node Machine) : Node Machine → Type 0 where
    begins : Run n n
    receives :
        {a b : Node Machine} (msg : Envelope)
        → Run n a
        → IsSane msg.term msg.message
        → step sm services a msg ≡ ok b
        → Run n b
    ticks : {a b : Node Machine} → Run n a → tick sm services a ≡ ok b → Run n b

  pub Run-Advances : {n m : Node Machine} → Run n m → Advances (log_of n) (log_of m)
  Run-Advances begins = Advances-of_eq refl
  Run-Advances (receives msg r sane h) =
      Advances-trans (Run-Advances r) (step-Advances _ msg sane h)
  Run-Advances (ticks r h) = Advances-trans (Run-Advances r) (tick-Advances _ h)

  -- Whatever messages and ticks a node goes through, and whatever roles it takes on the way, where
  -- each message's snapshot, if any, covers an entry and is not of a later term than the message, a
  -- sound log stays sound, its term never falls, and a vote in a term is never changed in that term.
  pub Run-KeepsVote :
      {n m : Node Machine}
      → Run n m
      → IsSound (log_of n)
      → IsSound (log_of m) × KeepsVote (log_of n) (log_of m)
  Run-KeepsVote r s =
      let reached = Run-Advances r s in (Reach-IsSound s reached, Reach-KeepsVote s reached)

  log-restore : (n : RawNode Machine Follower) → (restore_membership_from_log n).log ≡ n.log
  unfolding restore_membership_from_log
  log-restore n = elim (Option-cases (latest_membership n.log)) [
    | inl none_yet ↦ ground arith
    | inr (last, found) ↦ ground arith
  ]

  pub new-log :
      (id : ℕ) (peers : List ℕ) (log : Log) (state : Machine) (opts : Options) (draws : List ℕ)
      {n : RawNode Machine Follower}
      → Receive.new sm id peers log state opts draws ≡ ok n
      → n.log ≡ log
  unfolding Receive.new
  new-log id peers log state opts draws {n} h =
      let fresh_node : RawNode Machine Follower = record {
        id = id;
        membership = bootstrap id peers;
        log = log;
        state = state;
        tx = [];
        opts = opts;
        draws = draws;
        role = new_follower none 0;
      } in
      let called : (random_election_timeout fresh_node >>= λ p. maybe_apply sm (
            restore_membership_from_log
              (record (p.1) { role = record (p.1.role) { election_timeout = p.0 } })))
          ≡ ok n =
        ground arith in
      let (drawn, a, h1) = >>=-eq-ok (random_election_timeout fresh_node) _ called in
      let timed = record (drawn.1) {
        role = record (drawn.1.role) { election_timeout = drawn.0 };
      } in
      log-maybe_apply sm (restore_membership_from_log timed) h1
      ∙ log-restore timed
      ∙ log-timeout fresh_node a

  pub start-Advances :
      (id : ℕ) (peers : List ℕ) (log : Log) (state : Machine) (opts : Options) (draws : List ℕ)
      {n : Node Machine}
      → start sm services id peers log state opts draws ≡ ok n
      → Advances log (log_of n)
  unfolding start
  start-Advances id peers log state opts draws {n} h =
      let (f, a, h1) = >>=-eq-ok (Receive.new sm id peers log state opts draws) _ h in
      let first = new-log id peers log state opts draws a in
      elim (Bool-cases (cluster_size f == 1)) [
        | inr many ↦ let last : log_of n ≡ f.log = ground arith in Advances-of_eq (last ∙ first)
        | inl alone ↦
            let called : (into_candidate sm f false >>= λ c.
            into_leader sm c >>= λ l. ok (leader l))
                ≡ ok n =
              ground arith in
            let (c, b, h2) = >>=-eq-ok (into_candidate sm f false) _ called in
            let (l, d, same) = >>=-eq-ok (into_leader sm c) _ h2 in
            let last : log_of n ≡ l.log = ground arith in
            Advances-trans (Advances-of_eq first) (
              Advances-trans (into_candidate-Advances sm f false b)
                (Advances-trans (Grows-Advances (into_leader-Grows sm c d)) (Advances-of_eq last)))
      ]
