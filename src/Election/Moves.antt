-- ===== src/Election/Moves.antt =====
-- One leader in a term: `Node::step` and `Node::tick` of src/raft/node.rs, on all the nodes of a
-- cluster.
use raft_rust.Base.{
  ℕ, ◌≡◌, refl, sym, ap, ◌∙◌, subst, inl, inr, Bool, true, false, List, [], ◌∷◌, ◌++◌, ◌==◌,
  if◌then◌else◌, arith,
}
use raft_rust.Membership.{MembershipEntry}
use raft_rust.Message.{Envelope}
use raft_rust.Log.Reach.{IsSound, Reach-IsSound, Reach-KeepsVote}
use raft_rust.Log.Crash.{IsDurable, Reach-IsDurable, Reopens-IsKept}
use raft_rust.Log.Votes.{KeepsVote, KeepsVote-refl, KeepsVote-trans}
use raft_rust.StateMachine.{StateMachine}
use raft_rust.Node.Types.{Node, candidate, follower, leader}
use raft_rust.Node.LeaderStep.{Services}
use raft_rust.Node.Drive.{log_of, node_id}
use raft_rust.Node.Safety.{step-Advances, tick-Advances, start-Advances}
use raft_rust.Election.Ballots.{granted, granted-append, ballots, Adds, Adds-id}
use raft_rust.Election.Backing.{ballots_of, IsBacked, Good, OwnVote}
use raft_rust.Election.Turning.{tick-Good, step-Good}
use raft_rust.Election.Starts.{start-Good}
use raft_rust.Election.World.{
  World, tx_of, put, put-all, Move, ticks, receives, transmits, restarts, Agrees,
}
use raft_rust.Election.Invariant.{
  Votes, AllGiven, AllGiven-append, AllGiven-mono, AllGiven-at, Also, Inv, Inv-next,
}

ballots_of_lem : {S : Type 0} (n : Node S) → ballots_of n ≡ (node_id n, granted (tx_of n))
unfolding ballots
ballots_of_lem (candidate n) = refl
ballots_of_lem (follower n) = refl
ballots_of_lem (leader n) = refl

put-at : {S : Type 0} (w : World S) (i : ℕ) (r : Node S) → (put w i r).node i ≡ r
put-at w i r = go (i == i) refl
  where
    go : (b : Bool) → (i == i) ≡ b → (if b then r else w.node i) ≡ r
    go true e = refl
    go false e = absurd (ground arith)

IsBacked-mono :
    {S : Type 0} (m : MembershipEntry) (Before After : Votes)
    → ((v t c : ℕ) → Before v t c → After v t c)
    → (n : Node S) → IsBacked m Before n
    → IsBacked m After n
IsBacked-mono m Before After f (candidate c) h = λ late v has. f v c.log.term c.id (h late v has)
IsBacked-mono m Before After f (follower n) h = tt
IsBacked-mono m Before After f (leader l) (votes, quorum, backs) =
    (votes, quorum, λ v has. f v l.log.term l.id (backs v has))

module _ {S : Type 0} (m : MembershipEntry) (Voted : Votes) (w : World S)
    (inv : Inv m Voted w) where
  put-own : (i : ℕ) (r : Node S) → OwnVote m (Also Voted (put w i r)) i (log_of r)
  put-own i r x vote =
      let at = put-at w i r in
      inr (ap (λ (n : Node S). (log_of n).term) at, ap (λ (n : Node S). (log_of n).vote) at ∙ vote)

  put-Inv :
      (i : ℕ) (r : Node S)
      → node_id r ≡ i
      → IsSound (log_of r)
      → IsDurable (log_of r)
      → KeepsVote (log_of (w.node i)) (log_of r)
      → IsBacked m (Also Voted (put w i r)) r
      → AllGiven (Also Voted (put w i r)) (granted (tx_of r))
      → Inv m (Also Voted (put w i r)) (put w i r)
  put-Inv i r same_id sound durable keeps backed sent =
      let After = Also Voted (put w i r) in
      Inv-next m Voted w (put w i r) inv
        (put-all w i r (λ j n. KeepsVote (log_of (w.node j)) (log_of n)) keeps
          (λ j. KeepsVote-refl (log_of (w.node j))))
        (put-all w i r (λ j n. node_id n ≡ j) same_id inv.ids)
        (put-all w i r (λ j n. IsSound (log_of n)) sound inv.sound)
        (put-all w i r (λ j n. IsDurable (log_of n)) durable inv.durable)
        (put-all w i r (λ j n. IsBacked m After n) backed
          (λ j. IsBacked-mono m Voted After (λ v t c x. inl x) (w.node j) (inv.backed j)))
        (put-all w i r (λ j n. AllGiven After (granted (tx_of n))) sent
          (λ j.
            AllGiven-mono Voted After (λ v t c x. inl x) (granted (tx_of (w.node j))) (inv.sent j)))
        (AllGiven-mono Voted After (λ v t c x. inl x) (granted w.wire) inv.wired)

  good-sent :
      (i : ℕ) (r : Node S)
      → Adds (ballots_of (w.node i)) (ballots_of r) (log_of r)
      → (node_id r ≡ i) × AllGiven (Also Voted (put w i r)) (granted (tx_of r))
  good-sent i r adds =
      let After = Also Voted (put w i r) in
      let first : ℕ × List Envelope → ℕ = λ b. b.0 in
      let second : ℕ × List Envelope → List Envelope = λ b. b.1 in
      let was = ballots_of_lem (w.node i) in
      let is = ballots_of_lem r in
      let was_id : (ballots_of (w.node i)).0 ≡ i = ap first was ∙ inv.ids i in
      let same_id : node_id r ≡ i = sym (ap first is) ∙ Adds-id (log_of r) adds ∙ was_id in
      let old : AllGiven After (ballots_of (w.node i)).1 =
        subst (AllGiven After) (sym (ap second was)) (
          AllGiven-mono Voted After (λ v t c x. inl x) (granted (tx_of (w.node i))) (inv.sent i)) in
      (
        same_id,
        elim adds [
          | inl same ↦ subst (AllGiven After) (sym (ap second same) ∙ ap second is) old
          | inr (e, grown, from, at, vote) ↦
              let mine : After e.from e.term e.to =
                subst (λ v. After v e.term e.to) (sym (from ∙ was_id))
                  (subst (λ t. After i t e.to) (sym at) (put-own i r e.to vote)) in
              subst (AllGiven After) (sym (ap second grown) ∙ ap second is)
                (AllGiven-append After (ballots_of (w.node i)).1 (e ∷ []) old (mine, tt))
        ],
      )

  -- A node that has done a step.
  Good-Inv :
      (i : ℕ) (r : Node S)
      → IsSound (log_of r)
      → IsDurable (log_of r)
      → KeepsVote (log_of (w.node i)) (log_of r)
      → Good m (Also Voted (put w i r)) (ballots_of (w.node i)) r
      → Inv m (Also Voted (put w i r)) (put w i r)
  Good-Inv i r sound durable keeps (backed, adds) =
      let (same_id, sent) = good-sent i r adds in
      put-Inv i r same_id sound durable keeps backed sent

  own_of : (i : ℕ) (r : Node S) → OwnVote m (Also Voted (put w i r)) (node_id (w.node i)) (log_of r)
  own_of i r =
      subst (λ x. OwnVote m (Also Voted (put w i r)) x (log_of r)) (sym (inv.ids i)) (put-own i r)

module _ (sm : StateMachine) (services : Services) where
  open sm use {Machine}

  -- Every move keeps the invariant, with the votes that the logs then have among the votes.
  pub Move-Inv :
      (m : MembershipEntry) (Voted : Votes) {w w' : World Machine}
      → Agrees sm services m w
      → Inv m Voted w
      → Move sm services m w w'
      → Inv m (Also Voted w') w'
  Move-Inv m Voted {w} agrees inv (ticks i {r} h) =
      let reached = tick-Advances sm services (w.node i) h (inv.sound i) in
      Good-Inv m Voted w inv i r (Reach-IsSound (inv.sound i) reached)
        (Reach-IsDurable (inv.sound i) (inv.durable i) reached)
        (Reach-KeepsVote (inv.sound i) reached)
        (tick-Good m (Also Voted (put w i r)) sm services (w.node i)
          (IsBacked-mono m Voted (Also Voted (put w i r)) (λ v t c x. inl x) (w.node i)
            (inv.backed i))
          (own_of m Voted w inv i r) h)
  Move-Inv m Voted {w} agrees inv (receives i msg {r} on_wire sane h) =
      let reached = step-Advances sm services (w.node i) msg sane h (inv.sound i) in
      Good-Inv m Voted w inv i r (Reach-IsSound (inv.sound i) reached)
        (Reach-IsDurable (inv.sound i) (inv.durable i) reached)
        (Reach-KeepsVote (inv.sound i) reached)
        (step-Good m (Also Voted (put w i r)) sm services (w.node i) msg (agrees i) (inv.sound i)
          sane
          (IsBacked-mono m Voted (Also Voted (put w i r)) (λ v t c x. inl x) (w.node i)
            (inv.backed i))
          (own_of m Voted w inv i r)
          (λ g. inl (AllGiven-at Voted msg w.wire inv.wired (on_wire g) g)) h)
  Move-Inv m Voted {w} agrees inv (transmits i) =
      let w' : World Machine = record w { wire = tx_of (w.node i) ++ w.wire } in
      let After = Also Voted w' in
      let more : (l : List Envelope) → AllGiven Voted l → AllGiven After l =
        AllGiven-mono Voted After (λ v t c x. inl x) in
      Inv-next m Voted w w' inv (λ j. KeepsVote-refl (log_of (w.node j))) inv.ids inv.sound
        inv.durable (λ j. IsBacked-mono m Voted After (λ v t c x. inl x) (w.node j) (inv.backed j))
        (λ j. more (granted (tx_of (w.node j))) (inv.sent j))
        (subst (AllGiven After) (sym (granted-append (tx_of (w.node i)) w.wire)) (
          AllGiven-append After (granted (tx_of (w.node i))) (granted w.wire)
            (more (granted (tx_of (w.node i))) (inv.sent i)) (more (granted w.wire) inv.wired)))
  Move-Inv m Voted {w} agrees inv (restarts i peers log state opts draws {r} opened begun alone) =
      let After = Also Voted (put w i r) in
      let again = Reopens-IsKept (inv.sound i) (inv.durable i) opened in
      let started = start-Advances sm services i peers log state opts draws begun again.sound in
      let (backed, sent) =
        start-Good m After sm services i peers log state opts draws again.sound alone
          (put-own m Voted w inv i r) begun in
      let known = sym (ballots_of_lem r) ∙ sent in
      put-Inv m Voted w inv i r (ap (λ (b : ℕ × List Envelope). b.0) known)
        (Reach-IsSound again.sound started) (Reach-IsDurable again.sound again.durable started)
        (KeepsVote-trans again.votes (Reach-KeepsVote again.sound started)) backed
        (subst (AllGiven After) (sym (ap (λ (b : ℕ × List Envelope). b.1) known)) tt)
