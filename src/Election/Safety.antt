-- ===== src/Election/Safety.antt =====
-- One leader in a term: `Node::step` and `Node::tick` of src/raft/node.rs, on all the nodes of a
-- cluster.
use raft_rust.Base.{ℕ, ◌≡◌, refl, sym, ap, ◌∙◌, subst, inl, some, [], arith}
use raft_rust.Membership.{MembershipEntry}
use raft_rust.Membership.Quorum.{quorums_share}
use raft_rust.Log.Reach.{IsSound}
use raft_rust.Log.Crash.{IsDurable}
use raft_rust.StateMachine.{StateMachine}
use raft_rust.Node.Types.{RawNode, Follower, Leader, follower, leader}
use raft_rust.Node.LeaderStep.{Services}
use raft_rust.Node.Drive.{log_of, node_id}
use raft_rust.Election.Ballots.{granted}
use raft_rust.Election.Backing.{IsBacked}
use raft_rust.Election.World.{World, tx_of, History, begins, moves}
use raft_rust.Election.Invariant.{Votes, AllGiven, Has, Inv}
use raft_rust.Election.Moves.{Move-Inv}

-- Nobody has asked for a vote yet: every node is a follower that has sent nothing.
pub record IsQuiet {S : Type 0} (w : World S) : Type 0 where
  pub follows : ℕ → RawNode S Follower
  pub roles : (i : ℕ) → w.node i ≡ follower (follows i)
  pub ids : (i : ℕ) → (follows i).id ≡ i
  pub unsent : (i : ℕ) → (follows i).tx ≡ []
  pub sound : (i : ℕ) → IsSound (follows i).log
  pub durable : (i : ℕ) → IsDurable (follows i).log
  pub no_wire : w.wire ≡ []

IsQuiet-Inv : {S : Type 0} (m : MembershipEntry) {w : World S} → IsQuiet w → Inv m (Has w) w
IsQuiet-Inv m {w} q = record {
  ids = λ i. ap node_id (q.roles i) ∙ q.ids i;
  sound = λ i. subst (λ n. IsSound (log_of n)) (sym (q.roles i)) (q.sound i);
  durable = λ i. subst (λ n. IsDurable (log_of n)) (sym (q.roles i)) (q.durable i);
  backed = λ i. subst (IsBacked m (Has w)) (sym (q.roles i)) tt;
  sent = λ i.
      subst (λ n. AllGiven (Has w) (granted (tx_of n))) (sym (q.roles i))
        (subst (λ l. AllGiven (Has w) (granted l)) (sym (q.unsent i)) (unfold granted in tt));
  wired = subst (λ l. AllGiven (Has w) (granted l)) (sym q.no_wire) (unfold granted in tt);
  current = λ i x vote. (refl, vote);
  once = λ v t a b x y. let both : some a ≡ some b = sym x.1 ∙ y.1 in ground arith;
  latest = λ v t a x. (omega (arith, x.0), λ e. x.1);
}

module _ (sm : StateMachine) (services : Services) where
  open sm use {Machine}

  History-Inv :
      (m : MembershipEntry) (Voted : Votes) {w w' : World Machine}
      → Inv m Voted w
      → History sm services m w w'
      → (After : Votes) × Inv m After w' × ((v t c : ℕ) → Voted v t c → After v t c)
  History-Inv m Voted inv begins = (Voted, inv, λ v t c x. x)
  History-Inv m Voted inv (moves past agrees move) =
      let (After, now, more) = History-Inv m Voted inv past in
      (_, Move-Inv sm services m After agrees now move, λ v t c x. inl (more v t c x))

  -- From nodes that are followers and have sent nothing, with sound logs whose disks open to sound
  -- logs of the same term and vote, through any ticks, any deliveries of messages, late, lost, out
  -- of order or repeated, and any restarts, on all that was written or, after a crash, on what was
  -- flushed, where all nodes have one and the same configuration in force, simple or joint, a
  -- restart gives a leader only if that node is a quorum of the configuration alone, votes are only
  -- delivered if they were sent, and every snapshot that is delivered covers an entry and is not of a
  -- later term than its message: two leaders of the same term, at whatever times they lead, are
  -- one node.
  pub one_leader :
      (m : MembershipEntry) {w w' w'' : World Machine} {i j : ℕ} {l l' : RawNode Machine Leader}
      → IsQuiet w
      → History sm services m w w'
      → History sm services m w' w''
      → w'.node i ≡ leader l
      → w''.node j ≡ leader l'
      → l.log.term ≡ l'.log.term
      → i ≡ j
  one_leader m {w} {w'} {w''} {i} {j} {l} {l'} quiet past between first second same_term =
      let (Voted, inv, x) = History-Inv m (Has w) (IsQuiet-Inv m quiet) past in
      let (After, inv', more) = History-Inv m Voted inv between in
      let (votes, quorum, backs) = subst (IsBacked m Voted) first (inv.backed i) in
      let (votes', quorum', backs') = subst (IsBacked m After) second (inv'.backed j) in
      let (v, member, in_votes, in_votes') = quorums_share m votes votes' quorum quorum' in
      let id : l.id ≡ i = ap node_id (sym first) ∙ inv.ids i in
      let id' : l'.id ≡ j = ap node_id (sym second) ∙ inv'.ids j in
      let given : After v l'.log.term l.id =
        subst (λ t. After v t l.id) same_term (more v l.log.term l.id (backs v in_votes)) in
      sym id ∙ inv'.once v l'.log.term l.id l'.id given (backs' v in_votes') ∙ id'
