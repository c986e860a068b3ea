-- ===== src/Election/Applied.antt =====
-- The application of entries by a leader in src/raft/node.rs, which sends no vote.
use raft_rust.Base.{
  ◌≡◌, refl, sym, ap, ◌∙◌, inl, inr, Option, none, some, List, [], ◌∷◌, ok, >>=-eq-ok, arith,
  Option-cases,
}
use raft_rust.Membership.{MembershipEntry, on_commit}
use raft_rust.Message.{Message, Reply, Response, done}
use raft_rust.Log.Entry.{Entry}
use raft_rust.StateMachine.{StateMachine}
use raft_rust.Node.Types.{RawNode, Leader, Write}
use raft_rust.Node.Common.{send}
use raft_rust.Node.Follower.{discard}
use raft_rust.Node.Progress.{progress_of}
use raft_rust.Node.Apply.{
  answer, apply_command, apply_change, apply_one, apply_committed, write_reply, remove_key,
}
use raft_rust.Election.Ballots.{grants, ballots, ballots-send}

module _ (sm : StateMachine) where
  open sm use {Machine}

  ballots-apply_command :
      (n : RawNode Machine Leader) (e : Entry) (waiting : Option Write)
      {n' : RawNode Machine Leader}
      → apply_command sm n e waiting ≡ ok n'
      → ballots n' ≡ ballots n
  unfolding apply_command ballots grants
  ballots-apply_command n e none h =
      let (u, a, same) = >>=-eq-ok (discard (sm.apply n.state e).1) _ h in ground arith
  ballots-apply_command n e (some w) {n'} h =
      let (reply, a, sent) = >>=-eq-ok (write_reply (sm.apply n.state e).1) _ h in
      let m = Message.client_response w.id reply in
      let applied = record n { state = (sm.apply n.state e).0 } in
      let same : send applied w.from m ≡ n' = ground arith in
      ap (λ (y : RawNode Machine Leader). ballots y) (sym same) ∙ ballots-send applied w.from m refl

  ballots-answer :
      (n : RawNode Machine Leader) (waiting : Option Write) (reply : Reply)
      → ballots (answer n waiting reply) ≡ ballots n
  unfolding answer grants
  ballots-answer n none reply = refl
  ballots-answer n (some w) reply = ballots-send n w.from (Message.client_response w.id reply) refl

  ballots-apply_change :
      (n : RawNode Machine Leader) (e : Entry) (m : MembershipEntry) (waiting : Option Write)
      {n' : RawNode Machine Leader}
      → apply_change sm n e m waiting ≡ ok n'
      → ballots n' ≡ ballots n
  unfolding apply_change ballots
  ballots-apply_change n e m waiting {n'} h =
      let bare : Entry = record {
        index = e.index;
        term = e.term;
        command = none;
        membership = none;
      } in
      let (u, a, sent) = >>=-eq-ok (discard (sm.apply n.state bare).1) _ h in
      let reply = done (Response.change_membership e.index) in
      let applied = record n {
        membership = on_commit n.membership m;
        state = (sm.apply n.state bare).0;
      } in
      let same : answer applied waiting reply ≡ n' = ground arith in
      ap (λ (y : RawNode Machine Leader). ballots y) (sym same)
      ∙ ballots-answer applied waiting reply

  ballots-apply_one :
      (n : RawNode Machine Leader) (e : Entry) {n' : RawNode Machine Leader}
      → apply_one sm n e ≡ ok n'
      → ballots n' ≡ ballots n
  unfolding apply_one ballots
  ballots-apply_one n e {n'} h =
      let taken = record n {
        role = record (n.role) {
          writes = remove_key e.index n.role.writes;
          membership_writes = remove_key e.index n.role.membership_writes;
        };
      } in
      elim (Option-cases e.membership) [
        | inl command ↦
            ballots-apply_command taken e (progress_of e.index n.role.writes)
              (rw (apply_one, command) at h)
        | inr (m, changes) ↦
            ballots-apply_change taken e m (progress_of e.index n.role.membership_writes)
              (rw (apply_one, changes) at h)
      ]

  pub ballots-apply_committed :
      (entries : List Entry) (n : RawNode Machine Leader) {n' : RawNode Machine Leader}
      → apply_committed sm entries n ≡ ok n'
      → ballots n' ≡ ballots n
  unfolding apply_committed
  ballots-apply_committed [] n h = ground arith
  ballots-apply_committed (e ∷ entries) n h =
      let (m, applied, rest) = >>=-eq-ok (apply_one sm n e) _ h in
      ballots-apply_committed entries m rest ∙ ballots-apply_one n e applied
