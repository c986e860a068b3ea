-- ===== src/Node/LeadRequests.antt =====
-- What the requests of clients do to a leader's log (src/raft/node.rs).
use raft_rust.Base.{
  ℕ, ◌≡◌, ◌∙◌, Bool, true, false, some, [], ◌∷◌, ◌++◌, ok, >>=-eq-ok, ◌==◌, if◌then◌else◌, arith,
  u64_add,
}
use raft_rust.Message.{Message, Request}
use raft_rust.Log.Entry.{Bytes}
use raft_rust.Log.Lead.{Grows, Grows-of_eq, Grows-trans}
use raft_rust.StateMachine.{StateMachine}
use raft_rust.Node.Types.{RawNode, Leader, Read}
use raft_rust.Node.Common.{send, broadcast, cluster_size}
use raft_rust.Node.Replicate.{propose}
use raft_rust.Node.Reads.{maybe_read}
use raft_rust.Node.Change.{Proposal, accepted, refused, propose_membership_change}
use raft_rust.Node.LeaderStep.{Services, commit_if, on_write, on_read, on_proposal, on_request}
use raft_rust.Node.LeadLogs.{log-broadcast, log-maybe_read}
use raft_rust.Node.LeadGrows.{
  propose-Grows, propose_membership_change-Grows, maybe_commit_and_apply-Grows,
}

module _ (sm : StateMachine) (services : Services) where
  open sm use {Machine}

  pub commit_if-Grows :
      (moved : Bool) (n : RawNode Machine Leader) {p : RawNode Machine Leader × Bool}
      → commit_if sm services moved n ≡ ok p
      → Grows n.log p.0.log
  unfolding commit_if
  commit_if-Grows true n h = maybe_commit_and_apply-Grows sm n h
  commit_if-Grows false n h = Grows-of_eq (ground arith)

  on_write-Grows :
      (n : RawNode Machine Leader) (from id : ℕ) (command : Bytes)
      {p : RawNode Machine Leader × Bool}
      → on_write sm services n from id command ≡ ok p
      → Grows n.log p.0.log
  unfolding on_write
  on_write-Grows n from id command {p} h =
      let (q, a, h1) = >>=-eq-ok (propose sm n (some command)) _ h in
      Grows-trans (propose-Grows sm n (some command) a) (commit_if-Grows _ _ h1)

  on_read-Grows :
      (n : RawNode Machine Leader) (from id : ℕ) (command : Bytes)
      {p : RawNode Machine Leader × Bool}
      → on_read sm services n from id command ≡ ok p
      → Grows n.log p.0.log
  unfolding on_read
  on_read-Grows n from id command {p} h =
      let (seq, a, h1) = >>=-eq-ok (u64_add n.role.read_seq 1) _ h in
      let read : Read = record { seq = seq; from = from; id = id; command = command } in
      let n1 = record n {
        role = record (n.role) { read_seq = seq; reads = n.role.reads ++ read ∷ [] };
      } in
      let n2 = broadcast n1 (Message.read seq) in
      let (n3, b, same) =
        >>=-eq-ok (if cluster_size n2 == 1 then maybe_read sm n2 else ok n2) _ h1 in
      let first : n2.log ≡ n.log = log-broadcast n1 (Message.read seq) in
      let second : n3.log ≡ n2.log = ground (arith, log-maybe_read sm n2 {n' = n3}) in
      let last : p.0.log ≡ n3.log = ground arith in Grows-of_eq (last ∙ second ∙ first)

  on_proposal-Grows :
      (n : RawNode Machine Leader) (from id : ℕ) (r : Proposal) {p : RawNode Machine Leader × Bool}
      → on_proposal sm services n from id r ≡ ok p
      → Grows n.log p.0.log
  unfolding on_proposal
  on_proposal-Grows n from id (refused e) h = Grows-of_eq (unfold send in ground arith)
  on_proposal-Grows n from id (accepted index) h = commit_if-Grows _ _ h

  pub on_request-Grows :
      (n : RawNode Machine Leader) (from id : ℕ) (request : Request)
      {p : RawNode Machine Leader × Bool}
      → on_request sm services n from id request ≡ ok p
      → Grows n.log p.0.log
  unfolding on_request
  on_request-Grows n from id (Request.write command) h = on_write-Grows n from id command h
  on_request-Grows n from id (Request.write_session client seq command) h =
      on_write-Grows n from id _ h
  on_request-Grows n from id (Request.read command) h = on_read-Grows n from id command h
  on_request-Grows n from id Request.status h = Grows-of_eq (unfold send in ground arith)
  on_request-Grows n from id (Request.change_membership voters) h =
      let (q, a, h1) = >>=-eq-ok (propose_membership_change sm n voters) _ h in
      Grows-trans (propose_membership_change-Grows sm n voters a)
        (on_proposal-Grows q.0 from id q.1 h1)
