-- ===== src/Election/Backing.antt =====
-- Which votes a candidate and a leader rest on, `RawNode<Candidate>::step` and `Node::tick` of
-- src/raft/node.rs.
use raft_rust.Base.{
  ℕ, ◌≡◌, refl, sym, ap, ◌∙◌, subst, inl, inr, Bool, true, false, ◌&&◌, ◌||◌, not, some, [], List,
  ok, ◌>>=◌, >>=-eq-ok, ◌==◌, arith, Bool-cases,
}
use raft_rust.NodeSet.{NodeSet, contains}
use raft_rust.NodeSet.Order.{contains-insert}
use raft_rust.Membership.{MembershipState, MembershipEntry, has_quorum, all_voters}
use raft_rust.Message.{Envelope}
use raft_rust.Log.Ops.{Log}
use raft_rust.Log.Reach.{IsSound, Reach-IsSound}
use raft_rust.Log.Lead.{start, Extends, LeadReach-Extends}
use raft_rust.StateMachine.{StateMachine}
use raft_rust.Node.Types.{RawNode, Candidate, Node, candidate, follower, leader}
use raft_rust.Node.Campaign.{quorum_reached, campaign}
use raft_rust.Node.Elect.{is_election, count_vote, into_leader, lead_if, on_prevote, on_vote}
use raft_rust.Node.Drive.{log_of}
use raft_rust.Node.Elections.{into_leader-Grows, campaign-Advances}
use raft_rust.Election.Ballots.{ballots, Adds}
use raft_rust.Election.Candidates.{Stood, campaign-Stood, ballots-into_leader}

module _ {S : Type 0} where
  abbrev pub ballots_of : Node S → ℕ × List Envelope
  ballots_of (candidate n) = ballots n
  ballots_of (follower n) = ballots n
  ballots_of (leader n) = ballots n

  abbrev pub active_of : Node S → MembershipEntry
  active_of (candidate n) = n.membership.active
  active_of (follower n) = n.membership.active
  active_of (leader n) = n.membership.active

module _ (m : MembershipEntry) (Voted : ℕ → ℕ → ℕ → Type 0) where
  -- All of `votes` were for `id` in `term`.
  abbrev pub Backs : NodeSet → ℕ → ℕ → Type 0
  Backs votes id term = (v : ℕ) → contains votes v ≡ true → Voted v term id

  -- Past the pre-vote a candidate has counted votes that were given to it in its term, and a leader
  -- had those of a quorum.
  abbrev pub IsBacked : {S : Type 0} → Node S → Type 0
  IsBacked (candidate c) = is_election c.role.phase ≡ true → Backs c.role.votes c.id c.log.term
  IsBacked (follower f) = Unit {0}
  IsBacked (leader l) =
      (votes : NodeSet) × (has_quorum m votes ≡ true) × Backs votes l.id l.log.term

  -- What a step must show of its result.
  abbrev pub Good : {S : Type 0} → ℕ × List Envelope → Node S → Type 0
  Good before r = IsBacked r × Adds before (ballots_of r) (log_of r)

  -- The node's own vote, as its log has it, was given.
  abbrev pub OwnVote : ℕ → Log → Type 0
  OwnVote id log = (x : ℕ) → log.vote ≡ some x → Voted id log.term x

  pub Stood-Backs :
      {S : Type 0} {sent : ℕ × List Envelope} (c : RawNode S Candidate)
      → Stood sent c
      → OwnVote c.id c.log
      → is_election c.role.phase ≡ true
      → Backs c.role.votes c.id c.log.term
  Stood-Backs c stood own late v has = elim stood.alone [
    | inl early ↦ absurd (ground arith)
    | inr (votes, vote) ↦
        let mine : v ≡ c.id = unfold contains in ground (arith, contains-insert c.id v []) in
        subst (λ x. Voted x c.log.term c.id) (sym mine) (own c.id vote)
  ]

  -- A vote that is counted.
  count-Backs :
      {S : Type 0} (n : RawNode S Candidate) (from : ℕ)
      → Backs n.role.votes n.id n.log.term
      → Voted from n.log.term n.id
      → Backs (count_vote n from).role.votes n.id n.log.term
  count-Backs n from old new v has =
      elim (Bool-cases (contains (all_voters n.membership.active) from)) [
        | inr stranger ↦ old v (unfold count_vote in ground arith)
        | inl voter ↦
            let known : (from == v || contains n.role.votes v) ≡ true =
              unfold count_vote in ground (arith, contains-insert from v n.role.votes) in
            elim (Bool-cases (from == v)) [
              | inl it ↦
                  let same : from ≡ v = ground arith in
                  subst (λ x. Voted x n.log.term n.id) same new
              | inr other ↦ old v (ground arith)
            ]
      ]

  counted :
      {S : Type 0} (n : RawNode S Candidate) (from : ℕ)
      → ((count_vote n from).log ≡ n.log)
        × ((count_vote n from).id ≡ n.id)
        × (ballots (count_vote n from) ≡ ballots n)
        × ((count_vote n from).membership.active ≡ n.membership.active)
        × ((count_vote n from).role.phase ≡ n.role.phase)
  unfolding count_vote ballots
  counted n from = ground arith

  module _ (sm : StateMachine) where
    open sm use {Machine}

    lead_if_lem :
        (won : Bool) (c : RawNode Machine Candidate) {r : Node Machine}
        → IsSound c.log
        → lead_if sm won c ≡ ok r
        → Extends c.log (log_of r) × (ballots_of r ≡ ballots c)
    unfolding lead_if
    lead_if_lem true c {r} s h =
        let (l, a, same) = >>=-eq-ok (into_leader sm c) _ h in
        let is : leader l ≡ r = ground arith in
        (
          subst (λ x. Extends c.log (log_of x)) is
              (LeadReach-Extends s (into_leader-Grows sm c a s)),
          ap ballots_of (sym is) ∙ ballots-into_leader sm c a,
        )
    lead_if_lem false c {r} s h =
        let is : candidate c ≡ r = ground arith in
        (
          subst (λ x. Extends c.log (log_of x)) is (LeadReach-Extends s start),
          ap ballots_of (sym is),
        )

    -- A candidate with votes of its own, that leads if they are a quorum.
    pub lead_if-Good :
        (won : Bool) (c : RawNode Machine Candidate) {r : Node Machine}
        → IsSound c.log
        → (won ≡ true → (has_quorum m c.role.votes ≡ true) × (is_election c.role.phase ≡ true))
        → (is_election c.role.phase ≡ true → Backs c.role.votes c.id c.log.term)
        → lead_if sm won c ≡ ok r
        → Good (ballots c) r
    unfolding lead_if
    lead_if-Good true c {r} s enough backs h =
        let (l, a, same) = >>=-eq-ok (into_leader sm c) _ h in
        let is : leader l ≡ r = ground arith in
        let kept = LeadReach-Extends s (into_leader-Grows sm c a s) in
        let sent = ballots-into_leader sm c a in
        let same_id : l.id ≡ c.id = unfold ballots in ap (λ (b : ℕ × List Envelope). b.0) sent in
        let (quorum, late) = enough refl in
        let back : Backs c.role.votes l.id l.log.term = λ v has.
          subst (λ x. Voted v l.log.term x) (sym same_id)
            (subst (λ x. Voted v x c.id) (sym kept.same_term) (backs late v has)) in
        subst (Good (ballots c)) is ((c.role.votes, quorum, back), inl sent)
    lead_if-Good false c {r} s enough backs h =
        let is : candidate c ≡ r = ground arith in subst (Good (ballots c)) is (backs, inl refl)

    pub on_vote-Good :
        (n : RawNode Machine Candidate) (from : ℕ) {r : Node Machine}
        → n.membership.active ≡ m
        → IsSound n.log
        → IsBacked (candidate n)
        → Voted from n.log.term n.id
        → on_vote sm n from ≡ ok r
        → Good (ballots n) r
    unfolding on_vote
    on_vote-Good n from {r} active s old new h = elim (Bool-cases (is_election n.role.phase)) [
      | inr early ↦
          let is : candidate n ≡ r = ground arith in subst (Good (ballots n)) is (old, inl refl)
      | inl late ↦
          let c = count_vote n from in
          let called : lead_if sm (quorum_reached c c.role.votes) c ≡ ok r = ground arith in
          let (log, id, sent, voters, phase) = counted n from in
          let back : Backs c.role.votes c.id c.log.term =
            subst (λ x. Backs c.role.votes x c.log.term) (sym id)
              (subst (λ (x : Log). Backs c.role.votes n.id x.term) (sym log)
                (count-Backs n from (old late) new)) in
          subst (λ b. Good b r) sent
            (lead_if-Good (quorum_reached c c.role.votes) c (subst IsSound (sym log) s)
              (λ won. (
                subst (λ e. has_quorum e c.role.votes ≡ true) (voters ∙ active)
                    (unfold quorum_reached in won),
                ground (arith, phase),
              ))
              (λ still. back) called)
    ]

    -- A candidate that stands once the rounds of its pre-vote are won.
    campaigned-Good :
        (c : RawNode Machine Candidate) {r : Node Machine}
        → c.membership.active ≡ m
        → IsSound c.log
        → OwnVote c.id (log_of r)
        → (campaign c >>= λ stands.
            lead_if sm
              (quorum_reached stands stands.role.votes && is_election stands.role.phase)
              stands)
          ≡ ok r
        → Good (ballots c) r
    campaigned-Good c {r} active s own h =
        let (stands, a, led) = >>=-eq-ok (campaign c) _ h in
        let (stood, member) = campaign-Stood c a in
        let sound = Reach-IsSound s (campaign-Advances c a s) in
        let won = quorum_reached stands stands.role.votes && is_election stands.role.phase in
        let kept = (lead_if_lem won stands sound led).0 in
        let same : stands.id ≡ c.id =
          unfold ballots in ap (λ (b : ℕ × List Envelope). b.0) stood.same in
        let stands_own : OwnVote stands.id stands.log = λ x vote.
          subst (λ v. Voted v stands.log.term x) (sym same)
            (subst (λ t. Voted c.id t x) kept.same_term (own x (kept.same_vote ∙ vote))) in
        subst (λ b. Good b r) stood.same
          (lead_if-Good won stands sound
            (λ enough. (
              subst (λ e. has_quorum e stands.role.votes ≡ true)
                  (ap (λ (x : MembershipState). x.active) member ∙ active)
                  (unfold quorum_reached in ground arith),
              ground arith,
            ))
            (Stood-Backs stands stood stands_own) led)

    pub on_prevote-Good :
        (n : RawNode Machine Candidate) (from : ℕ) (vote : Bool) {r : Node Machine}
        → n.membership.active ≡ m
        → IsSound n.log
        → IsBacked (candidate n)
        → OwnVote n.id (log_of r)
        → on_prevote sm n from vote ≡ ok r
        → Good (ballots n) r
    unfolding on_prevote
    on_prevote-Good n from vote {r} active s old own h =
        elim (Bool-cases (not (is_election n.role.phase) && vote)) [
          | inr refused ↦
              let is : candidate n ≡ r = ground arith in subst (Good (ballots n)) is (old, inl refl)
          | inl given ↦
              let c = count_vote n from in
              let (log, id, sent, voters, phase) = counted n from in
              elim (Bool-cases (quorum_reached c c.role.votes)) [
                | inr waits ↦
                    let is : candidate c ≡ r = ground arith in
                    subst (λ b. Good b r) sent
                      (subst (Good (ballots c)) is
                        (λ late. absurd (ground (arith, phase)), inl refl))
                | inl enough ↦
                    let called : (campaign c >>= λ stands.
                    lead_if sm
                      (quorum_reached stands stands.role.votes && is_election stands.role.phase)
                      stands)
                        ≡ ok r =
                      ground arith in
                    subst (λ b. Good b r) sent
                      (campaigned-Good c (voters ∙ active) (subst IsSound (sym log) s)
                        (subst (λ x. OwnVote x (log_of r)) (sym id) own) called)
              ]
        ]
