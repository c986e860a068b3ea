-- ===== src/Node/Elected.antt =====
-- What a candidate's victory rests on: `RawNode<Candidate>::into_leader` of src/raft/node.rs and its callers.
use raft_rust.Base.{
  ℕ, ◌≡◌, refl, ◌≢◌, sym, subst, ◌⊎◌, inl, inr, Bool, true, false, ◌&&◌, not, Option, none, some,
  ok, ◌>>=◌, >>=-eq-ok, assert-eq-ok, ltb, ◌==◌, arith, Bool-cases,
}
use raft_rust.Message.{Envelope, Message}
use raft_rust.Log.Ops.{same_vote}
use raft_rust.StateMachine.{StateMachine}
use raft_rust.Node.Types.{RawNode, Candidate, Leader, follower, leader}
use raft_rust.Node.Campaign.{quorum_reached, campaign}
use raft_rust.Node.Receive.{follower_step}
use raft_rust.Node.Elect.{
  is_election, give_up, count_vote, take_lead, into_leader, lead_if, on_prevote, on_vote,
  candidate_dispatch, candidate_ordinary, candidate_by, candidate_step,
}

module _ (sm : StateMachine) where
  open sm use {Machine}

  -- The candidate `c` won, and became the leader `l`.
  pub record Victory (c : RawNode Machine Candidate) (l : RawNode Machine Leader) : Type 0 where
    pub by_quorum : quorum_reached c c.role.votes ≡ true
    pub in_election : is_election c.role.phase ≡ true
    pub for_itself : same_vote c.log.vote (some c.id) ≡ true
    pub term_set : (c.log.term == 0) ≡ false
    pub leads : take_lead sm c ≡ ok l

  -- The candidate that a granted vote makes of `n`: with the vote counted, where it is of the same term
  -- and election; or, where with it counted a quorum has granted the pre-vote, standing in the next
  -- term.
  abbrev pub StandsAs :
      RawNode Machine Candidate → Envelope → Message → RawNode Machine Candidate → Type 0
  StandsAs n msg m c =
      ((m ≡ Message.campaign_response true)
        × (msg.term ≡ n.log.term)
        × (is_election n.role.phase ≡ true)
        × (c ≡ count_vote n msg.from))
      ⊎ ((m ≡ Message.pre_campaign_response true)
          × (is_election n.role.phase ≡ false)
          × (quorum_reached (count_vote n msg.from) (count_vote n msg.from).role.votes ≡ true)
          × (campaign (count_vote n msg.from) ≡ ok c))

  abbrev pub WonFrom :
      RawNode Machine Candidate → Envelope → Message → RawNode Machine Leader → Type 0
  WonFrom n msg m l = (c : RawNode Machine Candidate) × StandsAs n msg m c × Victory c l

  lead_if-Victory :
      (won : Bool) (c : RawNode Machine Candidate) {l : RawNode Machine Leader}
      → lead_if sm won c ≡ ok (leader l)
      → (won ≡ true) × (into_leader sm c ≡ ok l)
  unfolding lead_if
  lead_if-Victory true c h =
      let (l', a, same) = >>=-eq-ok (into_leader sm c) _ h in (refl, ground arith)
  lead_if-Victory false c h = absurd (ground arith)

  into_leader-Victory :
      (c : RawNode Machine Candidate) {l : RawNode Machine Leader}
      → quorum_reached c c.role.votes ≡ true
      → into_leader sm c ≡ ok l
      → Victory c l
  unfolding into_leader
  into_leader-Victory c enough h =
      let (term_set, h1) = assert-eq-ok (not (c.log.term == 0)) _ h in
      let (own, h2) = assert-eq-ok (same_vote c.log.vote (some c.id)) _ h1 in
      let (late, h3) = assert-eq-ok (is_election c.role.phase) _ h2 in
      record {
        by_quorum = enough;
        in_election = late;
        for_itself = own;
        term_set = ground arith;
        leads = h3;
      }

  on_vote-Victory :
      (n : RawNode Machine Candidate) (msg : Envelope) {l : RawNode Machine Leader}
      → msg.term ≡ n.log.term
      → on_vote sm n msg.from ≡ ok (leader l)
      → WonFrom n msg (Message.campaign_response true) l
  unfolding on_vote
  on_vote-Victory n msg {l} same h = elim (Bool-cases (is_election n.role.phase)) [
    | inr early ↦ absurd (ground arith)
    | inl late ↦
        let c = count_vote n msg.from in
        let called : lead_if sm (quorum_reached c c.role.votes) c ≡ ok (leader l) = ground arith in
        let (enough, became) = lead_if-Victory (quorum_reached c c.role.votes) c called in
        (c, inl (refl, same, late, refl), into_leader-Victory c enough became)
  ]

  on_prevote-Victory :
      (n : RawNode Machine Candidate) (msg : Envelope) (vote : Bool) {l : RawNode Machine Leader}
      → on_prevote sm n msg.from vote ≡ ok (leader l)
      → WonFrom n msg (Message.pre_campaign_response vote) l
  unfolding on_prevote
  on_prevote-Victory n msg false h = absurd (ground arith)
  on_prevote-Victory n msg true {l} h = elim (Bool-cases (is_election n.role.phase)) [
    | inl late ↦ absurd (ground arith)
    | inr early ↦
        let counted = count_vote n msg.from in
        elim (Bool-cases (quorum_reached counted counted.role.votes)) [
          | inr waits ↦ absurd (ground arith)
          | inl enough ↦
              let called : (campaign counted >>= λ stands.
              lead_if sm (quorum_reached stands stands.role.votes && is_election stands.role.phase)
                stands)
                  ≡ ok (leader l) =
                ground arith in
              let (c, a, led) = >>=-eq-ok (campaign counted) _ called in
              let (won, became) =
                lead_if-Victory (quorum_reached c c.role.votes && is_election c.role.phase) c led in
              (c, inr (refl, early, enough, a), into_leader-Victory c (ground arith) became)
        ]
  ]

  then_follow-stays :
      (n : RawNode Machine Candidate) (term : ℕ) (from : Option ℕ) (msg : Envelope)
      {l : RawNode Machine Leader}
      → (do f ← give_up n term from; f' ← follower_step sm f msg; ok (follower f')) ≢ ok (leader l)
  then_follow-stays n term from msg {l} h =
      let (f, a, h1) = >>=-eq-ok (give_up n term from) _ h in
      let (f', b, same) = >>=-eq-ok (follower_step sm f msg) _ h1 in
      let wrong : follower f' ≡ leader l = ground arith in ground arith

  candidate_dispatch-Victory :
      (n : RawNode Machine Candidate) (msg : Envelope) (m : Message) {l : RawNode Machine Leader}
      → msg.term ≡ n.log.term
      → candidate_dispatch sm n msg m ≡ ok (leader l)
      → WonFrom n msg m l
  unfolding candidate_dispatch
  candidate_dispatch-Victory n msg (Message.campaign_response true) same h =
      on_vote-Victory n msg same h
  candidate_dispatch-Victory n msg (Message.heartbeat last_index commit_index read_seq) same h =
      absurd (then_follow-stays n msg.term (some msg.from) msg h)
  candidate_dispatch-Victory n msg (Message.append base_index base_term entries) same h =
      absurd (then_follow-stays n msg.term (some msg.from) msg h)
  candidate_dispatch-Victory n msg (Message.read seq) same h =
      absurd (then_follow-stays n msg.term (some msg.from) msg h)
  candidate_dispatch-Victory n msg (Message.install_snapshot index term bytes membership) same h =
      absurd (then_follow-stays n msg.term (some msg.from) msg h)
  candidate_dispatch-Victory n msg (Message.campaign_response false) same h = absurd (ground arith)
  candidate_dispatch-Victory n msg (Message.campaign last_index last_term) same h =
      absurd (ground arith)
  candidate_dispatch-Victory n msg (Message.client_request id request) same h =
      absurd (ground arith)
  candidate_dispatch-Victory n msg (Message.install_snapshot_response index) same h =
      absurd (ground arith)
  candidate_dispatch-Victory n msg (Message.heartbeat_response match_index read_seq) same h =
      absurd (ground arith)
  candidate_dispatch-Victory n msg (Message.append_response match_index reject_index) same h =
      absurd (ground arith)
  candidate_dispatch-Victory n msg (Message.read_response seq) same h = absurd (ground arith)
  candidate_dispatch-Victory n msg (Message.client_response id reply) same h = absurd (ground arith)
  candidate_dispatch-Victory n msg (Message.pre_campaign last_index last_term) same h =
      absurd (ground arith)
  candidate_dispatch-Victory n msg (Message.pre_campaign_response vote) same h =
      absurd (ground arith)

  candidate_ordinary-Victory :
      (n : RawNode Machine Candidate) (msg : Envelope) {l : RawNode Machine Leader}
      → candidate_ordinary sm n msg ≡ ok (leader l)
      → WonFrom n msg msg.message l
  unfolding candidate_ordinary
  candidate_ordinary-Victory n msg {l} h = elim (Bool-cases (ltb msg.term n.log.term)) [
    | inl stale ↦ absurd (ground arith)
    | inr fresh ↦ elim (Bool-cases (ltb n.log.term msg.term)) [
      | inl newer ↦
          let called : (give_up n msg.term none >>= λ f.
          follower_step sm f msg >>= λ f'. ok (follower f'))
              ≡ ok (leader l) =
            ground arith in
          absurd (then_follow-stays n msg.term none msg called)
      | inr same ↦
          let called : candidate_dispatch sm n msg msg.message ≡ ok (leader l) = ground arith in
          candidate_dispatch-Victory n msg msg.message (ground arith) called
    ]
  ]

  by_message :
      (n : RawNode Machine Candidate) (msg : Envelope) (m : Message) {l : RawNode Machine Leader}
      → msg.message ≡ m
      → candidate_by sm n msg m ≡ ok (leader l)
      → WonFrom n msg msg.message l
  unfolding candidate_by
  by_message n msg (Message.pre_campaign last_index last_term) is h = absurd (ground arith)
  by_message n msg (Message.pre_campaign_response vote) {l} is h =
      subst (λ m. WonFrom n msg m l) (sym is) (on_prevote-Victory n msg vote h)
  by_message n msg (Message.campaign_response vote) is h = candidate_ordinary-Victory n msg h
  by_message n msg (Message.campaign last_index last_term) is h = candidate_ordinary-Victory n msg h
  by_message n msg (Message.client_request id request) is h = candidate_ordinary-Victory n msg h
  by_message n msg (Message.install_snapshot_response index) is h =
      candidate_ordinary-Victory n msg h
  by_message n msg (Message.heartbeat last_index commit_index read_seq) is h =
      candidate_ordinary-Victory n msg h
  by_message n msg (Message.append base_index base_term entries) is h =
      candidate_ordinary-Victory n msg h
  by_message n msg (Message.read seq) is h = candidate_ordinary-Victory n msg h
  by_message n msg (Message.install_snapshot index term bytes membership) is h =
      candidate_ordinary-Victory n msg h
  by_message n msg (Message.heartbeat_response match_index read_seq) is h =
      candidate_ordinary-Victory n msg h
  by_message n msg (Message.append_response match_index reject_index) is h =
      candidate_ordinary-Victory n msg h
  by_message n msg (Message.read_response seq) is h = candidate_ordinary-Victory n msg h
  by_message n msg (Message.client_response id reply) is h = candidate_ordinary-Victory n msg h

  -- A candidate that a message makes a leader was sent a granted vote: either one of its own term in
  -- its election, and it is the candidate with that vote counted, or a pre-vote, and with that counted
  -- a quorum had granted the pre-vote and it stands in the next term. As that candidate it has the
  -- votes of a quorum, is in the election, has voted for itself in a term of at least 1, and
  -- takes the lead from that state.
  pub candidate_step-Victory :
      (n : RawNode Machine Candidate) (msg : Envelope) {l : RawNode Machine Leader}
      → candidate_step sm n msg ≡ ok (leader l)
      → WonFrom n msg msg.message l
  unfolding candidate_step
  candidate_step-Victory n msg h = by_message n msg msg.message refl h
