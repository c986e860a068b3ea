-- ===== src/Node/Votes.antt =====
-- How a follower votes: once in a term, for a log that is recent, and on disk before it answers.
use raft_rust.Base.{
  ℕ, ◌≡◌, ◌≢◌, sym, ap, [], ◌∷◌, ◌++◌, Bool, true, false, not, ◌&&◌, Option, none, some, ok, arith,
  ◌∙◌, ◌⊎◌, inl, inr, subst, Bool-cases, >>=-eq-ok, ◌>>=◌,
}
use raft_rust.Message.{Message}
use raft_rust.Log.Ops.{Log, set_term_vote, same_vote}
use raft_rust.Log.Votes.{KeepsVote, KeepsVote-refl, set_term_vote_lem}
use raft_rust.Node.Types.{RawNode, Follower}
use raft_rust.Node.Common.{send}
use raft_rust.Node.Campaign.{is_recent}
use raft_rust.Node.Follower.{on_campaign}

-- Another candidate has the vote.
taken :
    (vote : Option ℕ) (from : ℕ)
    → (not (same_vote vote none) && not (same_vote vote (some from))) ≡ true
    → (vote ≢ none) × (vote ≢ some from)
unfolding same_vote
taken none from h = absurd (ground arith)
taken (some v) from h = (λ e. cc, λ e. ground arith)

module _ {S : Type 0} where
  pub on_campaign_lem :
      (n : RawNode S Follower) (from term last_index last_term : ℕ) {n' : RawNode S Follower}
      → on_campaign n from term last_index last_term ≡ ok n'
      → (vote : Bool) × (n'.tx
          ≡ n.tx
            ++ record {
              from = n.id;
              term = n'.log.term;
              to = from;
              message = Message.campaign_response vote;
            }
              ∷ [])
        × (vote ≡ true
            → (n'.log.vote ≡ some from)
              × (n'.log.term ≡ term)
              × (is_recent last_index last_term n.log ≡ true))
        × (vote ≡ false
            → (n'.log ≡ n.log)
              × (((n.log.vote ≢ none) × (n.log.vote ≢ some from))
                  ⊎ (is_recent last_index last_term n.log ≡ false)))
        × KeepsVote n.log n'.log
  on_campaign_lem n from term last_index last_term {n'} h =
      let other = not (same_vote n.log.vote none) && not (same_vote n.log.vote (some from)) in
      elim (Bool-cases other) [
        | inl blocked ↦
            let same : n'.log ≡ n.log = unfold on_campaign send in ground arith in
            (
              false,
              unfold on_campaign send in ground arith,
              λ e. absurd (ground arith),
              λ e. (same, inl (taken n.log.vote from blocked)),
              subst (KeepsVote n.log) (sym same) (KeepsVote-refl n.log),
            )
        | inr free ↦ elim (Bool-cases (is_recent last_index last_term n.log)) [
          | inr behind ↦
              let same : n'.log ≡ n.log = unfold on_campaign send in ground arith in
              (
                false,
                unfold on_campaign send in ground arith,
                λ e. absurd (ground arith),
                λ e. (same, inr behind),
                subst (KeepsVote n.log) (sym same) (KeepsVote-refl n.log),
              )
          | inl recent ↦
              let granted : (set_term_vote n.log term (some from) >>= λ log.
              ok (send (record n { log = log }) from (Message.campaign_response true)))
                  ≡ ok n' =
                unfold on_campaign in ground arith in
              let (log, set, sent) = >>=-eq-ok (set_term_vote n.log term (some from)) _ granted in
              let (keeps, at, voted, stored) = set_term_vote_lem n.log term (some from) set in
              let same : log ≡ n'.log = unfold send in ground arith in
              (
                true,
                unfold send in ground arith,
                λ e. (
                  ap (λ (l : Log). l.vote) (sym same) ∙ voted,
                  ap (λ (l : Log). l.term) (sym same) ∙ at,
                  recent,
                ),
                λ e. absurd (ground arith),
                subst (KeepsVote n.log) same keeps,
              )
        ]
      ]

  -- A campaign changes the log by a vote at most.
  pub on_campaign_log :
      (n : RawNode S Follower) (from term last_index last_term : ℕ) {n' : RawNode S Follower}
      → on_campaign n from term last_index last_term ≡ ok n'
      → (n'.log ≡ n.log) ⊎ (set_term_vote n.log term (some from) ≡ ok n'.log)
  unfolding on_campaign
  on_campaign_log n from term last_index last_term {n'} h =
      elim (Bool-cases
        (not (same_vote n.log.vote none) && not (same_vote n.log.vote (some from)))) [
          | inl blocked ↦ inl (unfold send in ground arith)
          | inr free ↦ elim (Bool-cases (is_recent last_index last_term n.log)) [
            | inr behind ↦ inl (unfold send in ground arith)
            | inl recent ↦
                let granted : (set_term_vote n.log term (some from) >>= λ log.
                ok (send (record n { log = log }) from (Message.campaign_response true)))
                    ≡ ok n' =
                  ground arith in
                let (log, set, sent) = >>=-eq-ok (set_term_vote n.log term (some from)) _ granted in
                let same : log ≡ n'.log = unfold send in ground arith in inr (ground arith)
          ]
        ]
