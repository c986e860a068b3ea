-- ===== src/Election/Steps.antt =====
-- The votes under a candidate's messages and ticks: `RawNode<Candidate>::step` and `tick` of
-- src/raft/node.rs.
use raft_rust.Base.{
  ℕ, ◌≡◌, refl, sym, ap, subst, inl, inr, true, false, ◌&&◌, Option, none, some, List, ok, ◌>>=◌,
  >>=-eq-ok, ltb, arith, Bool-cases,
}
use raft_rust.Membership.{MembershipEntry}
use raft_rust.Message.{Envelope, Message}
use raft_rust.Log.Ops.{Log}
use raft_rust.Log.Reach.{IsSound}
use raft_rust.StateMachine.{StateMachine}
use raft_rust.Node.Types.{RawNode, Candidate, Node, candidate, follower}
use raft_rust.Node.Common.{send}
use raft_rust.Node.Follower.{abort_message}
use raft_rust.Node.Campaign.{is_recent, candidate_tick}
use raft_rust.Node.Receive.{follower_step}
use raft_rust.Node.Elect.{
  give_up, candidate_dispatch, candidate_ordinary, candidate_by, candidate_step,
}
use raft_rust.Node.Drive.{log_of}
use raft_rust.Election.Ballots.{grants, ballots, ballots-send}
use raft_rust.Election.Grants.{follower_step-Adds}
use raft_rust.Election.Candidates.{ballots-give_up, candidate_tick-Stood}
use raft_rust.Election.Backing.{IsBacked, Good, OwnVote, Stood-Backs, on_vote-Good, on_prevote-Good}

module _ (m : MembershipEntry) (Voted : ℕ → ℕ → ℕ → Type 0) (sm : StateMachine) where
  open sm use {Machine}

  then_follow-Good :
      (n : RawNode Machine Candidate) (term : ℕ) (from : Option ℕ) (msg : Envelope)
      {r : Node Machine}
      → (do f ← give_up n term from; f' ← follower_step sm f msg; ok (follower f')) ≡ ok r
      → Good m Voted (ballots n) r
  then_follow-Good n term from msg {r} h =
      let (f, a, h1) = >>=-eq-ok (give_up n term from) _ h in
      let (f', b, same) = >>=-eq-ok (follower_step sm f msg) _ h1 in
      let is : follower f' ≡ r = ground arith in
      subst (λ x. Good m Voted x r) (ballots-give_up n term from a)
        (subst (Good m Voted (ballots f)) is (tt, follower_step-Adds sm f msg b))

  stays-Good :
      (n : RawNode Machine Candidate) {r : Node Machine}
      → IsBacked m Voted (candidate n)
      → candidate n ≡ r
      → Good m Voted (ballots n) r
  stays-Good n old is = subst (Good m Voted (ballots n)) is (old, inl refl)

  answers-Good :
      (n : RawNode Machine Candidate) (to : ℕ) (message : Message) {r : Node Machine}
      → grants message ≡ false
      → IsBacked m Voted (candidate n)
      → candidate (send n to message) ≡ r
      → Good m Voted (ballots n) r
  answers-Good n to message quiet old is =
      subst (Good m Voted (ballots n)) is
        (unfold send in old, inl (ballots-send n to message quiet))

  candidate_dispatch-Good :
      (n : RawNode Machine Candidate) (msg : Envelope) (x : Message) {r : Node Machine}
      → n.membership.active ≡ m
      → IsSound n.log
      → IsBacked m Voted (candidate n)
      → (grants x ≡ true → Voted msg.from n.log.term n.id)
      → candidate_dispatch sm n msg x ≡ ok r
      → Good m Voted (ballots n) r
  unfolding candidate_dispatch grants
  candidate_dispatch-Good n msg (Message.campaign_response true) active s old heard h =
      on_vote-Good m Voted sm n msg.from active s old (heard refl) h
  candidate_dispatch-Good n msg (Message.campaign_response false) active s old heard h =
      stays-Good n old (ground arith)
  candidate_dispatch-Good n msg (Message.campaign last_index last_term) active s old heard h =
      answers-Good n msg.from (Message.campaign_response false) refl old (ground arith)
  candidate_dispatch-Good n msg (Message.client_request id request) active s old heard h =
      answers-Good n msg.from (abort_message id) (unfold abort_message in refl) old (ground arith)
  candidate_dispatch-Good n msg (Message.install_snapshot_response index) active s old heard h =
      stays-Good n old (ground arith)
  candidate_dispatch-Good n msg (Message.heartbeat last_index commit_index read_seq) active s old
        heard h =
      then_follow-Good n msg.term (some msg.from) msg h
  candidate_dispatch-Good n msg (Message.append base_index base_term entries) active s old heard h =
      then_follow-Good n msg.term (some msg.from) msg h
  candidate_dispatch-Good n msg (Message.read seq) active s old heard h =
      then_follow-Good n msg.term (some msg.from) msg h
  candidate_dispatch-Good n msg (Message.install_snapshot index term bytes membership) active s old
        heard h =
      then_follow-Good n msg.term (some msg.from) msg h
  candidate_dispatch-Good n msg (Message.heartbeat_response match_index read_seq) active s old heard
        h =
      absurd (ground arith)
  candidate_dispatch-Good n msg (Message.append_response match_index reject_index) active s old
        heard h =
      absurd (ground arith)
  candidate_dispatch-Good n msg (Message.read_response seq) active s old heard h =
      absurd (ground arith)
  candidate_dispatch-Good n msg (Message.client_response id reply) active s old heard h =
      absurd (ground arith)
  candidate_dispatch-Good n msg (Message.pre_campaign last_index last_term) active s old heard h =
      absurd (ground arith)
  candidate_dispatch-Good n msg (Message.pre_campaign_response vote) active s old heard h =
      absurd (ground arith)

  candidate_ordinary-Good :
      (n : RawNode Machine Candidate) (msg : Envelope) {r : Node Machine}
      → n.membership.active ≡ m
      → IsSound n.log
      → IsBacked m Voted (candidate n)
      → (grants msg.message ≡ true → Voted msg.from msg.term n.id)
      → candidate_ordinary sm n msg ≡ ok r
      → Good m Voted (ballots n) r
  unfolding candidate_ordinary
  candidate_ordinary-Good n msg {r} active s old heard h =
      elim (Bool-cases (ltb msg.term n.log.term)) [
        | inl stale ↦ stays-Good n old (ground arith)
        | inr fresh ↦ elim (Bool-cases (ltb n.log.term msg.term)) [
          | inl newer ↦
              let called : (give_up n msg.term none >>= λ f.
              follower_step sm f msg >>= λ f'. ok (follower f'))
                  ≡ ok r =
                ground arith in
              then_follow-Good n msg.term none msg called
          | inr equal ↦
              let called : candidate_dispatch sm n msg msg.message ≡ ok r = ground arith in
              let same : msg.term ≡ n.log.term = ground arith in
              candidate_dispatch-Good n msg msg.message active s old
                (λ g. subst (λ t. Voted msg.from t n.id) same (heard g)) called
        ]
      ]

  candidate_by-Good :
      (n : RawNode Machine Candidate) (msg : Envelope) (x : Message) {r : Node Machine}
      → n.membership.active ≡ m
      → IsSound n.log
      → IsBacked m Voted (candidate n)
      → OwnVote m Voted n.id (log_of r)
      → (grants msg.message ≡ true → Voted msg.from msg.term n.id)
      → candidate_by sm n msg x ≡ ok r
      → Good m Voted (ballots n) r
  unfolding candidate_by
  candidate_by-Good n msg (Message.pre_campaign last_index last_term) active s old own heard h =
      answers-Good n msg.from
        (Message.pre_campaign_response
          (is_recent last_index last_term n.log && ltb n.log.term msg.term))
        (unfold grants in refl) old (ground arith)
  candidate_by-Good n msg (Message.pre_campaign_response vote) active s old own heard h =
      on_prevote-Good m Voted sm n msg.from vote active s old own h
  candidate_by-Good n msg (Message.campaign_response vote) active s old own heard h =
      candidate_ordinary-Good n msg active s old heard h
  candidate_by-Good n msg (Message.campaign last_index last_term) active s old own heard h =
      candidate_ordinary-Good n msg active s old heard h
  candidate_by-Good n msg (Message.client_request id request) active s old own heard h =
      candidate_ordinary-Good n msg active s old heard h
  candidate_by-Good n msg (Message.install_snapshot_response index) active s old own heard h =
      candidate_ordinary-Good n msg active s old heard h
  candidate_by-Good n msg (Message.heartbeat last_index commit_index read_seq) active s old own
        heard h =
      candidate_ordinary-Good n msg active s old heard h
  candidate_by-Good n msg (Message.append base_index base_term entries) active s old own heard h =
      candidate_ordinary-Good n msg active s old heard h
  candidate_by-Good n msg (Message.read seq) active s old own heard h =
      candidate_ordinary-Good n msg active s old heard h
  candidate_by-Good n msg (Message.install_snapshot index term bytes membership) active s old own
        heard h =
      candidate_ordinary-Good n msg active s old heard h
  candidate_by-Good n msg (Message.heartbeat_response match_index read_seq) active s old own heard
        h =
      candidate_ordinary-Good n msg active s old heard h
  candidate_by-Good n msg (Message.append_response match_index reject_index) active s old own heard
        h =
      candidate_ordinary-Good n msg active s old heard h
  candidate_by-Good n msg (Message.read_response seq) active s old own heard h =
      candidate_ordinary-Good n msg active s old heard h
  candidate_by-Good n msg (Message.client_response id reply) active s old own heard h =
      candidate_ordinary-Good n msg active s old heard h

  pub candidate_step-Good :
      (n : RawNode Machine Candidate) (msg : Envelope) {r : Node Machine}
      → n.membership.active ≡ m
      → IsSound n.log
      → IsBacked m Voted (candidate n)
      → OwnVote m Voted n.id (log_of r)
      → (grants msg.message ≡ true → Voted msg.from msg.term n.id)
      → candidate_step sm n msg ≡ ok r
      → Good m Voted (ballots n) r
  unfolding candidate_step
  candidate_step-Good n msg active s old own heard h =
      candidate_by-Good n msg msg.message active s old own heard h

  kept-Backs :
      (n c : RawNode Machine Candidate)
      → IsBacked m Voted (candidate n)
      → c.id ≡ n.id
      → c.log ≡ n.log
      → c.role.phase ≡ n.role.phase
      → c.role.votes ≡ n.role.votes
      → IsBacked m Voted (candidate c)
  kept-Backs n c old same_id log phase votes late v has =
      let given = old (ground arith) v (ground arith) in
      subst (λ x. Voted v x c.id) (ap (λ (l : Log). l.term) (sym log))
        (subst (λ x. Voted v n.log.term x) (sym same_id) given)

  pub candidate_tick-Good :
      (n : RawNode Machine Candidate) {r : Node Machine}
      → IsBacked m Voted (candidate n)
      → OwnVote m Voted n.id (log_of r)
      → (candidate_tick n >>= λ c. ok (candidate c)) ≡ ok r
      → Good m Voted (ballots n) r
  candidate_tick-Good n {r} old own h =
      let (c, a, same) = >>=-eq-ok (candidate_tick n) _ h in
      let is : candidate c ≡ r = ground arith in
      subst (Good m Voted (ballots n)) is (elim (candidate_tick-Stood n a) [
        | inl stood ↦
            let same_id : c.id ≡ n.id =
              unfold ballots in ap (λ (b : ℕ × List Envelope). b.0) stood.same in
            let mine : OwnVote m Voted c.id c.log =
              subst (λ x. OwnVote m Voted x c.log) (sym same_id)
                (subst (λ x. OwnVote m Voted n.id (log_of x)) (sym is) own) in
            (Stood-Backs m Voted c stood mine, inl stood.same)
        | inr (sent, log, phase, votes) ↦
            let same_id : c.id ≡ n.id =
              unfold ballots in ap (λ (b : ℕ × List Envelope). b.0) sent in
            (kept-Backs n c old same_id log phase votes, inl sent)
      ])
