-- ===== src/Election/Invariant.antt =====
-- What holds of the nodes of src/raft/node.rs together while they vote.
use raft_rust.Base.{
  ℕ, ◌≤◌, ◌≡◌, refl, sym, ap, ◌∙◌, subst, inl, inr, ◌⊎◌, Bool, true, false, some, List, [], ◌∷◌,
  ◌++◌, if◌then◌else◌, arith,
}
use mathlib.Core.List.{Memᴰ}
use raft_rust.Membership.{MembershipEntry}
use raft_rust.Message.{Envelope}
use raft_rust.Log.Ops.{Log}
use raft_rust.Log.Reach.{IsSound}
use raft_rust.Log.Crash.{IsDurable}
use raft_rust.Log.Votes.{KeepsVote}
use raft_rust.Node.Drive.{log_of, node_id}
use raft_rust.Election.Ballots.{grants, granted}
use raft_rust.Election.Backing.{IsBacked, OwnVote}
use raft_rust.Election.World.{World, tx_of}

-- Who voted for whom, in which term.
abbrev pub Votes : Type 1
Votes = ℕ → ℕ → ℕ → Type 0

-- All these envelopes are votes that were given.
abbrev pub AllGiven : Votes → List Envelope → Type 0
AllGiven Voted [] = Unit {0}
AllGiven Voted (e ∷ l) = Voted e.from e.term e.to × AllGiven Voted l

pub AllGiven-append :
    (Voted : Votes) (a b : List Envelope)
    → AllGiven Voted a
    → AllGiven Voted b
    → AllGiven Voted (a ++ b)
AllGiven-append Voted [] b x y = y
AllGiven-append Voted (e ∷ a) b (first, x) y = (first, AllGiven-append Voted a b x y)

pub AllGiven-mono :
    (Before After : Votes)
    → ((v t c : ℕ) → Before v t c → After v t c)
    → (l : List Envelope) → AllGiven Before l
    → AllGiven After l
AllGiven-mono Before After f [] h = tt
AllGiven-mono Before After f (e ∷ l) (first, h) =
    (f e.from e.term e.to first, AllGiven-mono Before After f l h)

-- The first of the envelopes, if it is a vote, and the others.
granted-split :
    (Voted : Votes) (x : Envelope) (l : List Envelope)
    → AllGiven Voted (granted (x ∷ l))
    → (grants x.message ≡ true → Voted x.from x.term x.to) × AllGiven Voted (granted l)
unfolding granted
granted-split Voted x l h = go (grants x.message) refl h
  where
    go :
        (b : Bool)
        → grants x.message ≡ b
        → AllGiven Voted (if b then x ∷ granted l else granted l)
        → (grants x.message ≡ true → Voted x.from x.term x.to) × AllGiven Voted (granted l)
    go true e (first, rest) = (λ g. first, rest)
    go false e rest = (λ g. absurd (ground arith), rest)

pub AllGiven-at :
    (Voted : Votes) (e : Envelope) (l : List Envelope)
    → AllGiven Voted (granted l)
    → Memᴰ e l
    → grants e.message ≡ true
    → Voted e.from e.term e.to
AllGiven-at Voted e [] h in_l g = elim in_l [ ]
AllGiven-at Voted e (x ∷ l) h (Memᴰ.head same) g =
    let first = (granted-split Voted x l h).0 in
    subst (λ (y : Envelope). Voted y.from y.term y.to) (sym same)
      (first (ap (λ (y : Envelope). grants y.message) (sym same) ∙ g))
AllGiven-at Voted e (x ∷ l) h (Memᴰ.tail in_l) g =
    AllGiven-at Voted e l (granted-split Voted x l h).1 in_l g

-- A vote as the logs have it.
abbrev pub Has : {S : Type 0} → World S → Votes
Has w v t c = ((log_of (w.node v)).term ≡ t) × ((log_of (w.node v)).vote ≡ some c)

-- The votes so far, and those of a world.
abbrev pub Also : {S : Type 0} → Votes → World S → Votes
Also Voted w v t c = Voted v t c ⊎ Has w v t c

pub record Inv {S : Type 0} (m : MembershipEntry) (Voted : Votes) (w : World S) : Type 0 where
  pub ids : (i : ℕ) → node_id (w.node i) ≡ i
  pub sound : (i : ℕ) → IsSound (log_of (w.node i))
  pub durable : (i : ℕ) → IsDurable (log_of (w.node i))
  pub backed : (i : ℕ) → IsBacked m Voted (w.node i)
  pub sent : (i : ℕ) → AllGiven Voted (granted (tx_of (w.node i)))
  pub wired : AllGiven Voted (granted w.wire)
  pub current : (i : ℕ) → OwnVote m Voted i (log_of (w.node i))
  pub once : (v t a b : ℕ) → Voted v t a → Voted v t b → a ≡ b
  pub latest :
      (v t a : ℕ)
      → Voted v t a
      → (t ≤ (log_of (w.node v)).term)
        × (t ≡ (log_of (w.node v)).term → (log_of (w.node v)).vote ≡ some a)

-- A vote of before, and the vote that the log now has in that term, are the same.
same_choice :
    (log log' : Log) (t a b : ℕ)
    → KeepsVote log log'
    → t ≤ log.term
    → (t ≡ log.term → log.vote ≡ some a)
    → log'.term ≡ t
    → log'.vote ≡ some b
    → a ≡ b
same_choice log log' t a b keeps le vote at now =
    let eq : t ≡ log.term = omega (arith, keeps.term_le) in
    let had : log.vote ≡ some a = vote eq in
    let held : log'.vote ≡ log.vote = keeps.vote_stays (at ∙ eq) (λ no. ground arith) in
    ground arith

-- The invariant goes on, with the new votes, where every log keeps its votes and what was sent and
-- what is counted are votes.
pub Inv-next :
    {S : Type 0} (m : MembershipEntry) (Voted : Votes) (w w' : World S)
    → Inv m Voted w
    → ((i : ℕ) → KeepsVote (log_of (w.node i)) (log_of (w'.node i)))
    → ((i : ℕ) → node_id (w'.node i) ≡ i)
    → ((i : ℕ) → IsSound (log_of (w'.node i)))
    → ((i : ℕ) → IsDurable (log_of (w'.node i)))
    → ((i : ℕ) → IsBacked m (Also Voted w') (w'.node i))
    → ((i : ℕ) → AllGiven (Also Voted w') (granted (tx_of (w'.node i))))
    → AllGiven (Also Voted w') (granted w'.wire)
    → Inv m (Also Voted w') w'
Inv-next m Voted w w' inv keeps ids sound durable backed sent wired = record {
  ids = ids;
  sound = sound;
  durable = durable;
  backed = backed;
  sent = sent;
  wired = wired;
  current = λ i x vote. inr (refl, vote);
  once = λ v t a b x y. elim x [
    | inl old_a ↦ elim y [
      | inl old_b ↦ inv.once v t a b old_a old_b
      | inr (at, now) ↦
          let (le, vote) = inv.latest v t a old_a in
          same_choice (log_of (w.node v)) (log_of (w'.node v)) t a b (keeps v) le vote at now
    ]
    | inr (at, now) ↦ elim y [
      | inl old_b ↦
          let (le, vote) = inv.latest v t b old_b in
          sym (same_choice (log_of (w.node v)) (log_of (w'.node v)) t b a (keeps v) le vote at now)
      | inr (at', now') ↦ let both : some a ≡ some b = sym now ∙ now' in ground arith
    ]
  ];
  latest = λ v t a x. elim x [
    | inr (at, now) ↦ (omega (arith, at), λ e. now)
    | inl old ↦
        let (le, vote) = inv.latest v t a old in
        let kept = keeps v in
        (
          omega (arith, kept.term_le),
          λ e.
              let eq : t ≡ (log_of (w.node v)).term = omega (arith, kept.term_le) in
              let had : (log_of (w.node v)).vote ≡ some a = vote eq in
              kept.vote_stays (sym e ∙ eq) (λ no. cc) ∙ had,
        )
  ];
}
