-- ===== src/Election/Starts.antt =====
-- What a node has that has just started: `Node::new` of src/raft/node.rs.
use raft_rust.Base.{
  ℕ, ◌≡◌, refl, sym, ap, ◌∙◌, subst, inl, inr, true, false, none, List, [], some, not, assert-eq-ok,
  ok, ◌>>=◌, >>=-eq-ok, ◌==◌, arith, Bool-cases, Option-cases,
}
use raft_rust.Membership.{MembershipEntry, bootstrap, has_quorum}
use raft_rust.Message.{Envelope}
use raft_rust.Log.Ops.{Log, latest_membership}
use raft_rust.Log.Reach.{IsSound, Reach-IsSound}
use raft_rust.StateMachine.{StateMachine}
use raft_rust.Node.Types.{Node, RawNode, Follower, Options, follower, leader}
use raft_rust.Node.Common.{random_election_timeout, restore_membership_from_log, cluster_size}
use raft_rust.Node.Follower.{new_follower}
use raft_rust.Node.Receive.{maybe_apply, into_candidate}
use raft_rust.Node.Receive as Receive
use raft_rust.Node.Elect.{into_leader, lead_if, is_election}
use raft_rust.Node.LeaderStep.{Services}
use raft_rust.Node.Drive.{log_of, start}
use raft_rust.Node.Safety.{new-log}
use raft_rust.Election.Ballots.{granted, ballots, ballots-timeout}
use raft_rust.Election.Followers.{ballots-maybe_apply}
use raft_rust.Election.Backing.{ballots_of, IsBacked, OwnVote, Stood-Backs, lead_if-Good}
use raft_rust.NodeSet
use raft_rust.Node.Types.{Leader, Candidate}
use raft_rust.Node.Elections.{into_leader-Grows, into_candidate-Advances}
use raft_rust.Log.Lead.{LeadReach-Extends}
use raft_rust.Log.Ops.{same_vote}
use raft_rust.Election.Candidates.{into_candidate-Stood, ballots-into_leader}

ballots-restore :
    {S : Type 0} (n : RawNode S Follower) → ballots (restore_membership_from_log n) ≡ ballots n
unfolding restore_membership_from_log ballots
ballots-restore n = elim (Option-cases (latest_membership n.log)) [
  | inl none_yet ↦ ground arith
  | inr (last, found) ↦ ground arith
]

module _ (sm : StateMachine) where
  open sm use {Machine}

  -- A node that has just started has sent nothing.
  ballots-new :
      (id : ℕ) (peers : List ℕ) (log : Log) (state : Machine) (opts : Options) (draws : List ℕ)
      {n : RawNode Machine Follower}
      → Receive.new sm id peers log state opts draws ≡ ok n
      → ballots n ≡ (id, [])
  unfolding Receive.new
  ballots-new id peers log state opts draws {n} h =
      let fresh_node : RawNode Machine Follower = record {
        id = id;
        membership = bootstrap id peers;
        log = log;
        state = state;
        tx = [];
        opts = opts;
        draws = draws;
        role = new_follower none 0;
      } in
      let called : (random_election_timeout fresh_node >>= λ p. maybe_apply sm (
            restore_membership_from_log
              (record (p.1) { role = record (p.1.role) { election_timeout = p.0 } })))
          ≡ ok n =
        ground arith in
      let (drawn, a, h1) = >>=-eq-ok (random_election_timeout fresh_node) _ called in
      let timed = record (drawn.1) {
        role = record (drawn.1.role) { election_timeout = drawn.0 };
      } in
      let begun : ballots fresh_node ≡ (id, []) = unfold ballots granted in refl in
      let kept : ballots timed ≡ ballots drawn.1 = unfold ballots in refl in
      ballots-maybe_apply sm (restore_membership_from_log timed) h1
      ∙ ballots-restore timed
      ∙ kept
      ∙ ballots-timeout fresh_node a
      ∙ begun

module _ (m : MembershipEntry) (Voted : ℕ → ℕ → ℕ → Type 0) (sm : StateMachine)
    (services : Services) where
  open sm use {Machine}

  -- A node that leads at once, where it alone is a quorum.
  alone-Good :
      (id : ℕ) (g : RawNode Machine Follower) (c : RawNode Machine Candidate)
      (l : RawNode Machine Leader)
      → IsSound g.log
      → ballots g ≡ (id, [])
      → has_quorum m (NodeSet.insert id []) ≡ true
      → OwnVote m Voted id l.log
      → into_candidate sm g false ≡ ok c
      → into_leader sm c ≡ ok l
      → IsBacked m Voted (leader l) × (ballots l ≡ (id, []))
  unfolding into_leader lead_if
  alone-Good id g c l s unsent enough own stands leads =
      let stood = into_candidate-Stood sm g false stands in
      let sent : ballots c ≡ (id, []) = stood.same ∙ unsent in
      let same_id : c.id ≡ id = unfold ballots in ap (λ (b : ℕ × List Envelope). b.0) sent in
      let sound = Reach-IsSound s (into_candidate-Advances sm g false stands s) in
      let kept = LeadReach-Extends sound (into_leader-Grows sm c leads sound) in
      let mine : OwnVote m Voted c.id c.log = λ x vote.
        subst (λ i. Voted i c.log.term x) (sym same_id)
          (subst (λ t. Voted id t x) kept.same_term (own x (kept.same_vote ∙ vote))) in
      let (term_set, h1) = assert-eq-ok (not (c.log.term == 0)) _ leads in
      let (for_itself, h2) = assert-eq-ok (same_vote c.log.vote (some c.id)) _ h1 in
      let (late, h3) = assert-eq-ok (is_election c.role.phase) _ h2 in
      let quorum : has_quorum m c.role.votes ≡ true = elim stood.alone [
        | inl early ↦ absurd (ground arith)
        | inr (votes, vote) ↦
            ap (has_quorum m) (votes ∙ ap (λ i. NodeSet.insert i []) same_id) ∙ enough
      ] in
      let led : lead_if sm true c ≡ ok (leader l) = ap (λ o. o >>= λ x. ok (leader x)) leads in
      (
        (lead_if-Good m Voted sm true c sound (λ yes. (quorum, late))
            (Stood-Backs m Voted c stood mine) led).0,
        ballots-into_leader sm c leads ∙ sent,
      )

  -- A node that starts has sent no vote, and leads only if it may.
  pub start-Good :
      (id : ℕ) (peers : List ℕ) (log : Log) (state : Machine) (opts : Options) (draws : List ℕ)
      {r : Node Machine}
      → IsSound log
      → ((l : RawNode Machine Leader) → r ≡ leader l → has_quorum m (NodeSet.insert id []) ≡ true)
      → OwnVote m Voted id (log_of r)
      → start sm services id peers log state opts draws ≡ ok r
      → IsBacked m Voted r × (ballots_of r ≡ (id, []))
  unfolding start
  start-Good id peers log state opts draws {r} s alone own h =
      let (g, a, h1) = >>=-eq-ok (Receive.new sm id peers log state opts draws) _ h in
      let unsent = ballots-new sm id peers log state opts draws a in
      let found : Node Machine → Type 0 = λ x. IsBacked m Voted x × (ballots_of x ≡ (id, [])) in
      elim (Bool-cases (cluster_size g == 1)) [
        | inr many ↦ let is : follower g ≡ r = ground arith in subst found is (tt, unsent)
        | inl one ↦
            let called : (into_candidate sm g false >>= λ c.
            into_leader sm c >>= λ l. ok (leader l))
                ≡ ok r =
              ground arith in
            let (c, b, h2) = >>=-eq-ok (into_candidate sm g false) _ called in
            let (l, d, same) = >>=-eq-ok (into_leader sm c) _ h2 in
            let is : leader l ≡ r = ground arith in
            let kept = new-log sm services id peers log state opts draws a in
            subst found is (
              alone-Good id g c l (subst IsSound (sym kept) s) unsent (alone l (sym is))
                (subst (λ x. OwnVote m Voted id (log_of x)) (sym is) own) b d)
      ]
