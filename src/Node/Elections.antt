-- ===== src/Node/Elections.antt =====
-- What an election does to the log: `impl RawNode<Candidate>` of src/raft/node.rs.
use raft_rust.Base.{
  ℕ, ◌≡◌, sym, ap, ◌∙◌, inl, inr, Bool, ◌&&◌, not, Option, none, some, [], ok, ◌>>=◌, >>=-eq-ok,
  assert-eq-ok, leb, ◌==◌, if◌then◌else◌, arith, Bool-cases, u64_add,
}
use raft_rust.NodeSet
use raft_rust.Message.{Message}
use raft_rust.Log.Ops.{Log, set_term_vote, same_vote}
use raft_rust.Log.Reach.{Reach, here, next, Reach-trans, Reach-of_eq, voted, IsSound, Reach-IsSound}
use raft_rust.Log.Lead.{LeadReach-Reach, Grows, Grows-of_eq, Grows-trans}
use raft_rust.StateMachine.{StateMachine}
use raft_rust.Node.Types.{RawNode, Candidate, Follower, Leader, election, pre_vote}
use raft_rust.Node.Common.{
  peers, send_all, cluster_size, random_election_timeout, tick_up, into_role,
}
use raft_rust.Node.Campaign.{new_candidate, quorum_reached, campaign, pre_campaign, candidate_tick}
use raft_rust.Node.Follower.{abort_forwarded}
use raft_rust.Node.Receive.{maybe_apply, into_candidate}
use raft_rust.Node.Progress.{new_leader}
use raft_rust.Node.Replicate.{propose}
use raft_rust.Node.Apply.{maybe_commit_and_apply}
use raft_rust.Node.Logs.{log-abort_forwarded, log-maybe_apply}
use raft_rust.Node.LeadLogs.{log-send_all, log-broadcast, log-timeout, log-heartbeat}
use raft_rust.Node.LeadGrows.{propose-Grows, maybe_commit_and_apply-Grows}
use raft_rust.Node.Elect.{is_election, give_up, take_lead, into_leader}

-- A sound log goes through operations of the log.
abbrev pub Advances : Log → Log → Type 0
Advances log log' = IsSound log → Reach log log'

pub Advances-trans : {a b c : Log} → Advances a b → Advances b c → Advances a c
Advances-trans p q s = Reach-trans (p s) (q (Reach-IsSound s (p s)))

pub Advances-of_eq : {log log' : Log} → log' ≡ log → Advances log log'
Advances-of_eq e s = Reach-of_eq e

pub Grows-Advances : {log log' : Log} → Grows log log' → Advances log log'
Grows-Advances g s = LeadReach-Reach (g s)

module _ {S : Type 0} where
  pub campaign-Advances :
      (n : RawNode S Candidate) {n' : RawNode S Candidate}
      → campaign n ≡ ok n'
      → Advances n.log n'.log
  unfolding campaign
  campaign-Advances n {n'} h s =
      let (term, a, h1) = >>=-eq-ok (u64_add n.log.term 1) _ h in
      let (drawn, b, h2) = >>=-eq-ok (random_election_timeout n) _ h1 in
      let (log, set, same) = >>=-eq-ok (set_term_vote n.log term (some n.id)) _ h2 in
      let role = record (new_candidate drawn.0 election) { votes = NodeSet.insert n.id [] } in
      let asked = record (drawn.1) { role = role; log = log } in
      let last : n'.log ≡ log =
        ground (arith, log-broadcast asked (Message.campaign log.last_index log.last_term)) in
      next here (voted term (some n.id) (set ∙ ap (λ (l : Log). ok l) (sym last)))

  pub pre_campaign-Advances :
      (n : RawNode S Candidate) {n' : RawNode S Candidate}
      → pre_campaign n ≡ ok n'
      → Advances n.log n'.log
  unfolding pre_campaign
  pre_campaign-Advances n {n'} h =
      let (drawn, a, h1) = >>=-eq-ok (random_election_timeout n) _ h in
      let role = record (new_candidate drawn.0 pre_vote) { votes = NodeSet.insert n.id [] } in
      let stands = record (drawn.1) { role = role } in
      let first : stands.log ≡ n.log = log-timeout n a in
      elim (Bool-cases (cluster_size n == 1)) [
        | inl alone ↦
            let stood : campaign stands ≡ ok n' = ground arith in
            Advances-trans (Advances-of_eq first) (campaign-Advances stands stood)
        | inr others ↦
            let asking : (u64_add n.log.term 1 >>= λ term.
            let asked =
              send_all (peers n) term (Message.pre_campaign n.log.last_index n.log.last_term)
                stands in
            if quorum_reached asked role.votes then campaign asked else ok asked)
                ≡ ok n' =
              ground arith in
            let (term, b, h2) = >>=-eq-ok (u64_add n.log.term 1) _ asking in
            let asked =
              send_all (peers n) term (Message.pre_campaign n.log.last_index n.log.last_term)
                stands in
            let second : asked.log ≡ n.log =
              log-send_all (peers n) term (Message.pre_campaign n.log.last_index n.log.last_term)
                stands
              ∙ first in
            elim (Bool-cases (quorum_reached asked role.votes)) [
              | inl enough ↦
                  let stood : campaign asked ≡ ok n' = ground arith in
                  Advances-trans (Advances-of_eq second) (campaign-Advances asked stood)
              | inr waits ↦ Advances-of_eq (ground (arith, second))
            ]
      ]

  pub candidate_tick-Advances :
      (n : RawNode S Candidate) {n' : RawNode S Candidate}
      → candidate_tick n ≡ ok n'
      → Advances n.log n'.log
  unfolding candidate_tick
  candidate_tick-Advances n {n'} h =
      let (duration, a, h1) = >>=-eq-ok (tick_up n.role.election_duration) _ h in
      let waited = record n { role = record (n.role) { election_duration = duration } } in
      elim (Bool-cases (leb n.role.election_timeout duration)) [
        | inr early ↦ Advances-of_eq (ground arith)
        | inl due ↦ elim (Bool-cases n.opts.pre_vote) [
          | inl pre ↦
              let called : pre_campaign waited ≡ ok n' = ground arith in
              pre_campaign-Advances waited called
          | inr direct ↦
              let called : campaign waited ≡ ok n' = ground arith in campaign-Advances waited called
        ]
      ]

  pub give_up-Advances :
      (n : RawNode S Candidate) (term : ℕ) (from : Option ℕ) {f : RawNode S Follower}
      → give_up n term from ≡ ok f
      → Advances n.log f.log
  unfolding give_up
  give_up-Advances n term (some from) {f} h s =
      let (drawn, a, h1) = >>=-eq-ok (random_election_timeout n) _ h in
      (let last : f.log ≡ n.log = ground (arith, log-timeout n a) in Advances-of_eq last s)
  give_up-Advances n term none {f} h s =
      let (drawn, a, h1) = >>=-eq-ok (random_election_timeout n) _ h in
      let (newer, h2) = assert-eq-ok (not (term == n.log.term)) _ h1 in
      let (log, set, same) = >>=-eq-ok (set_term_vote n.log term none) _ h2 in
      let last : f.log ≡ log = ground arith in
      next here (voted term none (set ∙ ap (λ (l : Log). ok l) (sym last)))

module _ (sm : StateMachine) where
  open sm use {Machine}

  take_lead-Grows :
      (n : RawNode Machine Candidate) {l : RawNode Machine Leader}
      → take_lead sm n ≡ ok l
      → Grows n.log l.log
  unfolding take_lead
  take_lead-Grows n {l} h =
      let (role, a, h1) = >>=-eq-ok (new_leader (peers n) n.log.last_index) _ h in
      let (q, b, h2) = >>=-eq-ok (propose sm (into_role n role) none) _ h1 in
      let (r, c, h3) = >>=-eq-ok (maybe_commit_and_apply sm q.0) _ h2 in
      Grows-trans (propose-Grows sm (into_role n role) none b)
        (Grows-trans (maybe_commit_and_apply-Grows sm q.0 c) (Grows-of_eq (log-heartbeat r.0 h3)))

  pub into_leader-Grows :
      (n : RawNode Machine Candidate) {l : RawNode Machine Leader}
      → into_leader sm n ≡ ok l
      → Grows n.log l.log
  unfolding into_leader
  into_leader-Grows n h =
      let (a, h1) = assert-eq-ok (not (n.log.term == 0)) _ h in
      let (b, h2) = assert-eq-ok (same_vote n.log.vote (some n.id)) _ h1 in
      let (c, h3) = assert-eq-ok (is_election n.role.phase) _ h2 in take_lead-Grows n h3

  pub into_candidate-Advances :
      (n : RawNode Machine Follower) (use_prevote : Bool) {c : RawNode Machine Candidate}
      → into_candidate sm n use_prevote ≡ ok c
      → Advances n.log c.log
  unfolding into_candidate
  into_candidate-Advances n use_prevote {c} h =
      let (applied, a, h1) = >>=-eq-ok (maybe_apply sm (abort_forwarded n)) _ h in
      let (drawn, b, h2) = >>=-eq-ok (random_election_timeout applied) _ h1 in
      let same : drawn.1.log ≡ n.log =
        log-timeout applied b ∙ log-maybe_apply sm (abort_forwarded n) a ∙ log-abort_forwarded n in
      Advances-trans (Advances-of_eq same) (elim (Bool-cases (use_prevote && n.opts.pre_vote)) [
        | inl pre ↦
            let stands = into_role drawn.1 (new_candidate drawn.0 pre_vote) in
            let called : pre_campaign stands ≡ ok c = ground arith in
            pre_campaign-Advances stands called
        | inr direct ↦
            let stands = into_role drawn.1 (new_candidate drawn.0 election) in
            let called : campaign stands ≡ ok c = ground arith in campaign-Advances stands called
      ])
