-- ===== src/Node/StepDown.antt =====
-- What stepping down does to the log: `RawNode<Leader>::into_follower` of src/raft/node.rs.
use raft_rust.Base.{
  ℕ, ◌≡◌, sym, ap, ◌∙◌, inl, inr, none, List, map, ok, >>=-eq-ok, ltb, if◌then◌else◌, arith,
  Bool-cases,
}
use raft_rust.Log.Ops.{Log, set_term_vote}
use raft_rust.Log.Reach.{Reach, here, next, Reach-of_eq, voted}
use raft_rust.Node.Types.{RawNode, Leader, Follower, Write, Read}
use raft_rust.Node.Common.{random_election_timeout}
use raft_rust.Node.Lead.{sort_by_id, abort_writes, step_down}
use raft_rust.Node.LeadLogs.{log-timeout, log-abort_writes}

module _ {S : Type 0} where
  -- Stepping down takes up the term where it is newer, and leaves the log alone otherwise.
  pub step_down-Reach :
      (n : RawNode S Leader) (term : ℕ) {f : RawNode S Follower}
      → step_down n term ≡ ok f
      → Reach n.log f.log
  unfolding step_down
  step_down-Reach n term {f} h =
      let (log, taken, h1) =
        >>=-eq-ok (if ltb n.log.term term then set_term_vote n.log term none else ok n.log) _ h in
      let n1 = record n { log = log } in
      let writes = sort_by_id (map (λ (w : ℕ × Write). w.1) n.role.writes) in
      let changes = sort_by_id (map (λ (w : ℕ × Write). w.1) n.role.membership_writes) in
      let waiting : List Write =
        map (λ (r : Read). record { from = r.from; id = r.id }) n.role.reads in
      let n2 = abort_writes writes n1 in
      let n3 = abort_writes changes n2 in
      let n4 = abort_writes (sort_by_id waiting) n3 in
      let (drawn, got, same) = >>=-eq-ok (random_election_timeout n4) _ h1 in
      let log_same : f.log ≡ log = ground (
        arith,
        log-timeout n4 got,
        log-abort_writes (sort_by_id waiting) n3,
        log-abort_writes changes n2,
        log-abort_writes writes n1,
      ) in
      elim (Bool-cases (ltb n.log.term term)) [
        | inr old ↦ Reach-of_eq (log_same ∙ ground arith)
        | inl newer ↦
            let set : set_term_vote n.log term none ≡ ok f.log =
              (ground arith) ∙ ap (λ (l : Log). ok l) (sym log_same) in
            next here (voted term none set)
      ]
