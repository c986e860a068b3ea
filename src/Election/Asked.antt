-- ===== src/Election/Asked.antt =====
-- The clients' requests to a leader in src/raft/node.rs, none of which has it send a vote.
use raft_rust.Base.{
  ℕ, ◌≡◌, refl, sym, ap, ◌∙◌, Bool, true, false, some, [], ◌∷◌, ◌++◌, ok, >>=-eq-ok, ◌==◌,
  if◌then◌else◌, arith, u64_add,
}
use raft_rust.Message.{Message, Request, Response, done, failed}
use raft_rust.Log.Entry.{Bytes}
use raft_rust.StateMachine.{StateMachine}
use raft_rust.Node.Types.{RawNode, Leader, Read}
use raft_rust.Node.Common.{send, broadcast, cluster_size}
use raft_rust.Node.Replicate.{propose}
use raft_rust.Node.Reads.{maybe_read}
use raft_rust.Node.Change.{Proposal, accepted, refused, propose_membership_change}
use raft_rust.Node.LeaderStep.{
  Services, commit_if, on_write, on_read, on_proposal, on_request, status,
}
use raft_rust.Election.Ballots.{grants, ballots, ballots-send, ballots-broadcast}
use raft_rust.Election.Leaders.{ballots-maybe_read}
use raft_rust.Election.Proposals.{
  ballots-propose, ballots-propose_membership_change, ballots-maybe_commit_and_apply,
}

module _ (sm : StateMachine) (services : Services) where
  open sm use {Machine}

  pub ballots-commit_if :
      (moved : Bool) (n : RawNode Machine Leader) {p : RawNode Machine Leader × Bool}
      → commit_if sm services moved n ≡ ok p
      → ballots p.0 ≡ ballots n
  unfolding commit_if
  ballots-commit_if true n h = ballots-maybe_commit_and_apply sm n h
  ballots-commit_if false n h = ground arith

  ballots-on_write :
      (n : RawNode Machine Leader) (from id : ℕ) (command : Bytes)
      {p : RawNode Machine Leader × Bool}
      → on_write sm services n from id command ≡ ok p
      → ballots p.0 ≡ ballots n
  unfolding on_write ballots
  ballots-on_write n from id command {p} h =
      let (q, a, h1) = >>=-eq-ok (propose sm n (some command)) _ h in
      ballots-commit_if _ _ h1 ∙ ballots-propose sm n (some command) a

  ballots-on_read :
      (n : RawNode Machine Leader) (from id : ℕ) (command : Bytes)
      {p : RawNode Machine Leader × Bool}
      → on_read sm services n from id command ≡ ok p
      → ballots p.0 ≡ ballots n
  unfolding on_read
  ballots-on_read n from id command {p} h =
      let (seq, a, h1) = >>=-eq-ok (u64_add n.role.read_seq 1) _ h in
      let read : Read = record { seq = seq; from = from; id = id; command = command } in
      let n1 = record n {
        role = record (n.role) { read_seq = seq; reads = n.role.reads ++ read ∷ [] };
      } in
      let n2 = broadcast n1 (Message.read seq) in
      let (n3, b, same) =
        >>=-eq-ok (if cluster_size n2 == 1 then maybe_read sm n2 else ok n2) _ h1 in
      let kept : ballots n1 ≡ ballots n = unfold ballots in refl in
      let first : ballots n2 ≡ ballots n1 =
        ballots-broadcast n1 (Message.read seq) (unfold grants in refl) in
      let second : ballots n3 ≡ ballots n2 = ground (arith, ballots-maybe_read sm n2 {n' = n3}) in
      let last : ballots p.0 ≡ ballots n3 = ground arith in last ∙ second ∙ first ∙ kept

  ballots-on_proposal :
      (n : RawNode Machine Leader) (from id : ℕ) (r : Proposal) {p : RawNode Machine Leader × Bool}
      → on_proposal sm services n from id r ≡ ok p
      → ballots p.0 ≡ ballots n
  unfolding on_proposal ballots grants
  ballots-on_proposal n from id (refused e) {p} h =
      let m = Message.client_response id (failed e) in
      let same : send n from m ≡ p.0 = ground arith in
      ap (λ (y : RawNode Machine Leader). ballots y) (sym same) ∙ ballots-send n from m refl
  ballots-on_proposal n from id (accepted index) h = ballots-commit_if _ _ h

  pub ballots-on_request :
      (n : RawNode Machine Leader) (from id : ℕ) (request : Request)
      {p : RawNode Machine Leader × Bool}
      → on_request sm services n from id request ≡ ok p
      → ballots p.0 ≡ ballots n
  unfolding on_request grants
  ballots-on_request n from id (Request.write command) h = ballots-on_write n from id command h
  ballots-on_request n from id (Request.write_session client seq command) h =
      ballots-on_write n from id _ h
  ballots-on_request n from id (Request.read command) h = ballots-on_read n from id command h
  ballots-on_request n from id Request.status {p} h =
      let m = Message.client_response id (done (Response.status (status sm services n))) in
      let same : send n from m ≡ p.0 = ground arith in
      ap (λ (y : RawNode Machine Leader). ballots y) (sym same) ∙ ballots-send n from m refl
  ballots-on_request n from id (Request.change_membership voters) h =
      let (q, a, h1) = >>=-eq-ok (propose_membership_change sm n voters) _ h in
      ballots-on_proposal q.0 from id q.1 h1 ∙ ballots-propose_membership_change sm n voters a
