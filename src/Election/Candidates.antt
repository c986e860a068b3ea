-- ===== src/Election/Candidates.antt =====
-- What a candidate's own operations do to its votes: `campaign`, `pre_campaign`, `into_candidate`
-- and `into_leader` of src/raft/node.rs.
use raft_rust.Base.{
  ℕ, ◌≡◌, refl, sym, ap, ◌∙◌, inl, inr, ◌⊎◌, Bool, false, ◌&&◌, not, Option, none, some, [], ◌∷◌,
  List, ok, ◌>>=◌, >>=-eq-ok, assert-eq-ok, leb, ◌==◌, if◌then◌else◌, arith, Bool-cases, u64_add,
}
use raft_rust.NodeSet
use raft_rust.NodeSet.{NodeSet}
use raft_rust.Message.{Envelope, Message}
use raft_rust.Log.Ops.{set_term_vote, same_vote}
use raft_rust.Log.Votes.{set_term_vote_lem}
use raft_rust.StateMachine.{StateMachine}
use raft_rust.Node.Types.{RawNode, Candidate, Follower, Leader, election, pre_vote}
use raft_rust.Node.Common.{
  send_all, send_via, broadcast, peers, cluster_size, random_election_timeout, tick_up, into_role,
}
use raft_rust.Node.Follower.{abort_forwarded}
use raft_rust.Node.Campaign.{new_candidate, quorum_reached, campaign, pre_campaign, candidate_tick}
use raft_rust.Node.Receive.{maybe_apply, into_candidate}
use raft_rust.Node.Progress.{new_leader}
use raft_rust.Node.Replicate.{propose}
use raft_rust.Node.Apply.{maybe_commit_and_apply}
use raft_rust.Node.Elect.{is_election, give_up, take_lead, into_leader}
use raft_rust.Election.Ballots.{grants, ballots, ballots-send_all, ballots-timeout}
use raft_rust.Election.Followers.{ballots-abort_forwarded, ballots-maybe_apply}
use raft_rust.Election.Leaders.{ballots-heartbeat}
use raft_rust.Election.Proposals.{ballots-propose, ballots-maybe_commit_and_apply}

module _ {S R : Type 0} where
  send_all-record :
      (ids : NodeSet) (term : ℕ) (m : Message) (n : RawNode S R)
      → send_all ids term m n ≡ record n { tx = (send_all ids term m n).tx }
  unfolding send_all send_via
  send_all-record [] term m n = refl
  send_all-record (id ∷ ids) term m n =
      let e : Envelope = record { from = n.id; term = term; to = id; message = m } in
      send_all-record ids term m (send_via n e)

-- A candidate that stands with its own vote only, or is not past the pre-vote, and that has sent
-- the votes `sent`.
pub record Stood {S : Type 0} (sent : ℕ × List Envelope) (c : RawNode S Candidate) : Type 0 where
  pub same : ballots c ≡ sent
  pub alone :
      (is_election c.role.phase ≡ false)
      ⊎ ((c.role.votes ≡ NodeSet.insert c.id []) × (c.log.vote ≡ some c.id))

module _ {S : Type 0} where
  pub campaign-Stood :
      (n : RawNode S Candidate) {c : RawNode S Candidate}
      → campaign n ≡ ok c
      → Stood (ballots n) c × (c.membership ≡ n.membership)
  unfolding campaign broadcast
  campaign-Stood n {c} h =
      let (term, a, h1) = >>=-eq-ok (u64_add n.log.term 1) _ h in
      let (drawn, b, h2) = >>=-eq-ok (random_election_timeout n) _ h1 in
      let (log, set, same) = >>=-eq-ok (set_term_vote n.log term (some n.id)) _ h2 in
      let role = record (new_candidate drawn.0 election) { votes = NodeSet.insert n.id [] } in
      let stands = record (drawn.1) { role = role; log = log } in
      let asks = Message.campaign log.last_index log.last_term in
      let kept : ballots stands ≡ ballots drawn.1 = unfold ballots in refl in
      let sent = send_all (peers stands) log.term asks stands in
      let shape : sent ≡ record stands { tx = sent.tx } =
        send_all-record (peers stands) log.term asks stands in
      let made : sent ≡ c = ground arith in
      let all : c ≡ record stands { tx = sent.tx } = sym made ∙ shape in
      let drew : (drawn.1.id ≡ n.id) × (drawn.1.membership ≡ n.membership) =
        unfold random_election_timeout in ground arith in
      let voted : log.vote ≡ some n.id = (set_term_vote_lem n.log term (some n.id) set).2 in
      (
        record {
          same =
              ap (λ (y : RawNode S Candidate). ballots y) (sym made)
              ∙ ballots-send_all (peers stands) log.term asks stands (unfold grants in refl)
              ∙ kept
              ∙ ballots-timeout n b;
          alone = inr (ground arith, ground arith);
        },
        ground arith,
      )

  -- The rounds of a pre-vote, once their questions are sent.
  asked-Stood :
      (n : RawNode S Candidate) (ids votes : NodeSet) (term : ℕ) (asks : Message)
      {c : RawNode S Candidate}
      → grants asks ≡ false
      → is_election n.role.phase ≡ false
      → (let asked = send_all ids term asks n in
          if quorum_reached asked votes then campaign asked else ok asked)
        ≡ ok c
      → Stood (ballots n) c
  asked-Stood n ids votes term asks {c} quiet early h =
      let asked = send_all ids term asks n in
      let first : ballots asked ≡ ballots n = ballots-send_all ids term asks n quiet in
      elim (Bool-cases (quorum_reached asked votes)) [
        | inl enough ↦
            let called : campaign asked ≡ ok c = ground arith in
            let stood = (campaign-Stood asked called).0 in
            record { same = stood.same ∙ first; alone = stood.alone }
        | inr waits ↦
            let made : asked ≡ c = ground arith in
            let shape = send_all-record ids term asks n in
            record {
              same = ap (λ (y : RawNode S Candidate). ballots y) (sym made) ∙ first;
              alone = inl (ground (arith, shape));
            }
      ]

  pub pre_campaign-Stood :
      (n : RawNode S Candidate) {c : RawNode S Candidate}
      → pre_campaign n ≡ ok c
      → Stood (ballots n) c
  unfolding pre_campaign
  pre_campaign-Stood n {c} h =
      let (drawn, a, h1) = >>=-eq-ok (random_election_timeout n) _ h in
      let role = record (new_candidate drawn.0 pre_vote) { votes = NodeSet.insert n.id [] } in
      let stands = record (drawn.1) { role = role } in
      let kept : ballots stands ≡ ballots drawn.1 = unfold ballots in refl in
      let first : ballots stands ≡ ballots n = kept ∙ ballots-timeout n a in
      let asks = Message.pre_campaign n.log.last_index n.log.last_term in
      elim (Bool-cases (cluster_size n == 1)) [
        | inl alone ↦
            let called : campaign stands ≡ ok c = ground arith in
            let stood = (campaign-Stood stands called).0 in
            record { same = stood.same ∙ first; alone = stood.alone }
        | inr others ↦
            let asking : (u64_add n.log.term 1 >>= λ term.
            let asked = send_all (peers n) term asks stands in
            if quorum_reached asked role.votes then campaign asked else ok asked)
                ≡ ok c =
              ground arith in
            let (term, b, called) = >>=-eq-ok (u64_add n.log.term 1) _ asking in
            let stood =
              asked-Stood stands (peers n) role.votes term asks (unfold grants in refl)
                (unfold is_election in refl) called in
            record { same = stood.same ∙ first; alone = stood.alone }
      ]

  -- A tick either waits, or stands anew.
  pub candidate_tick-Stood :
      (n : RawNode S Candidate) {c : RawNode S Candidate}
      → candidate_tick n ≡ ok c
      → Stood (ballots n) c
        ⊎ ((ballots c ≡ ballots n)
            × (c.log ≡ n.log)
            × (c.role.phase ≡ n.role.phase)
            × (c.role.votes ≡ n.role.votes))
  unfolding candidate_tick
  candidate_tick-Stood n {c} h =
      let (duration, a, h1) = >>=-eq-ok (tick_up n.role.election_duration) _ h in
      let waited = record n { role = record (n.role) { election_duration = duration } } in
      let first : ballots waited ≡ ballots n = unfold ballots in refl in
      elim (Bool-cases (leb n.role.election_timeout duration)) [
        | inr early ↦
            let same : waited ≡ c = ground arith in
            inr (
              ap (λ (y : RawNode S Candidate). ballots y) (sym same) ∙ first,
              ground arith,
              ground arith,
              ground arith,
            )
        | inl due ↦ elim (Bool-cases n.opts.pre_vote) [
          | inl pre ↦
              let called : pre_campaign waited ≡ ok c = ground arith in
              let stood = pre_campaign-Stood waited called in
              inl (record { same = stood.same ∙ first; alone = stood.alone })
          | inr direct ↦
              let called : campaign waited ≡ ok c = ground arith in
              let stood = (campaign-Stood waited called).0 in
              inl (record { same = stood.same ∙ first; alone = stood.alone })
        ]
      ]

  pub ballots-give_up :
      (n : RawNode S Candidate) (term : ℕ) (from : Option ℕ) {f : RawNode S Follower}
      → give_up n term from ≡ ok f
      → ballots f ≡ ballots n
  unfolding give_up ballots
  ballots-give_up n term (some from) {f} h =
      let (drawn, a, h1) = >>=-eq-ok (random_election_timeout n) _ h in
      ground (arith, ballots-timeout n a)
  ballots-give_up n term none {f} h =
      let (drawn, a, h1) = >>=-eq-ok (random_election_timeout n) _ h in
      let (newer, h2) = assert-eq-ok (not (term == n.log.term)) _ h1 in
      let (log, set, same) = >>=-eq-ok (set_term_vote n.log term none) _ h2 in
      ground (arith, ballots-timeout n a)

module _ (sm : StateMachine) where
  open sm use {Machine}

  pub into_candidate-Stood :
      (n : RawNode Machine Follower) (use_prevote : Bool) {c : RawNode Machine Candidate}
      → into_candidate sm n use_prevote ≡ ok c
      → Stood (ballots n) c
  unfolding into_candidate
  into_candidate-Stood n use_prevote {c} h =
      let (applied, a, h1) = >>=-eq-ok (maybe_apply sm (abort_forwarded n)) _ h in
      let (drawn, b, h2) = >>=-eq-ok (random_election_timeout applied) _ h1 in
      let same : ballots drawn.1 ≡ ballots n =
        ballots-timeout applied b
        ∙ ballots-maybe_apply sm (abort_forwarded n) a
        ∙ ballots-abort_forwarded n in
      elim (Bool-cases (use_prevote && n.opts.pre_vote)) [
        | inl pre ↦
            let stands = into_role drawn.1 (new_candidate drawn.0 pre_vote) in
            let kept : ballots stands ≡ ballots drawn.1 = unfold ballots in refl in
            let called : pre_campaign stands ≡ ok c = ground arith in
            let stood = pre_campaign-Stood stands called in
            record { same = stood.same ∙ kept ∙ same; alone = stood.alone }
        | inr direct ↦
            let stands = into_role drawn.1 (new_candidate drawn.0 election) in
            let kept : ballots stands ≡ ballots drawn.1 = unfold ballots in refl in
            let called : campaign stands ≡ ok c = ground arith in
            let stood = (campaign-Stood stands called).0 in
            record { same = stood.same ∙ kept ∙ same; alone = stood.alone }
      ]

  ballots-take_lead :
      (n : RawNode Machine Candidate) {l : RawNode Machine Leader}
      → take_lead sm n ≡ ok l
      → ballots l ≡ ballots n
  unfolding take_lead
  ballots-take_lead n {l} h =
      let (role, a, h1) = >>=-eq-ok (new_leader (peers n) n.log.last_index) _ h in
      let (q, b, h2) = >>=-eq-ok (propose sm (into_role n role) none) _ h1 in
      let (r, c, h3) = >>=-eq-ok (maybe_commit_and_apply sm q.0) _ h2 in
      ballots-heartbeat r.0 h3
      ∙ ballots-maybe_commit_and_apply sm q.0 c
      ∙ ballots-propose sm (into_role n role) none b
      ∙ (unfold ballots in refl)

  pub ballots-into_leader :
      (n : RawNode Machine Candidate) {l : RawNode Machine Leader}
      → into_leader sm n ≡ ok l
      → ballots l ≡ ballots n
  unfolding into_leader
  ballots-into_leader n h =
      let (a, h1) = assert-eq-ok (not (n.log.term == 0)) _ h in
      let (b, h2) = assert-eq-ok (same_vote n.log.vote (some n.id)) _ h1 in
      let (c, h3) = assert-eq-ok (is_election n.role.phase) _ h2 in ballots-take_lead n h3
