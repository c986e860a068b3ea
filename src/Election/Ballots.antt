-- ===== src/Election/Ballots.antt =====
-- The votes among the envelopes that a node has sent, and the sends of raft/node.rs under src/ that
-- are none.
use raft_rust.Base.{
  ℕ, ◌≡◌, refl, ap, ◌∙◌, Bool, true, false, List, [], ◌∷◌, ◌++◌, ok, arith, if◌then◌else◌, Option,
  some, none, ◌⊎◌, inl, inr,
}
use raft_rust.NodeSet.{NodeSet}
use raft_rust.Membership.{MembershipEntry}
use raft_rust.Message.{Envelope, Message}
use raft_rust.Log.Entry.{Entry}
use raft_rust.Log.Ops.{Log}
use raft_rust.Node.Types.{RawNode}
use raft_rust.Node.Common.{
  send, send_via, send_all, broadcast, peers, random_election_timeout, adopt, adopt_memberships,
}

-- The message gives its receiver the sender's vote.
unfoldable pub grants : Message → Bool
grants (Message.campaign_response vote) = vote
grants _ = false

unfoldable pub granted : List Envelope → List Envelope
unfolding grants
granted [] = []
granted (e ∷ l) = let rest = granted l in if grants e.message then e ∷ rest else rest

pub granted-snoc :
    (l : List Envelope) (e : Envelope)
    → grants e.message ≡ false
    → granted (l ++ e ∷ []) ≡ granted l
unfolding granted
granted-snoc [] e h = ground arith
granted-snoc (x ∷ l) e h = ground (arith, granted-snoc l e h)

module _ {S R : Type 0} where
  -- Who the node is, and the votes that it has sent.
  unfoldable pub ballots : RawNode S R → ℕ × List Envelope
  ballots n = (n.id, granted n.tx)

  pub ballots-send_via :
      (n : RawNode S R) (e : Envelope)
      → grants e.message ≡ false
      → ballots (send_via n e) ≡ ballots n
  unfolding ballots send_via
  ballots-send_via n e h = ap (λ l. (n.id, l)) (granted-snoc n.tx e h)

  pub ballots-send :
      (n : RawNode S R) (to : ℕ) (m : Message)
      → grants m ≡ false
      → ballots (send n to m) ≡ ballots n
  unfolding send
  ballots-send n to m h =
      ballots-send_via n (record { from = n.id; term = n.log.term; to = to; message = m }) h

  pub ballots-send_all :
      (ids : NodeSet) (term : ℕ) (m : Message) (n : RawNode S R)
      → grants m ≡ false
      → ballots (send_all ids term m n) ≡ ballots n
  unfolding send_all
  ballots-send_all [] term m n h = refl
  ballots-send_all (id ∷ ids) term m n h =
      let e : Envelope = record { from = n.id; term = term; to = id; message = m } in
      ballots-send_all ids term m (send_via n e) h ∙ ballots-send_via n e h

  pub ballots-broadcast :
      (n : RawNode S R) (m : Message) → grants m ≡ false → ballots (broadcast n m) ≡ ballots n
  unfolding broadcast
  ballots-broadcast n m h = ballots-send_all (peers n) n.log.term m n h

  pub ballots-timeout :
      (n : RawNode S R) {p : ℕ × RawNode S R}
      → random_election_timeout n ≡ ok p
      → ballots p.1 ≡ ballots n
  unfolding random_election_timeout ballots
  ballots-timeout n h = ground arith

  ballots-adopt : (n : RawNode S R) (m : Option MembershipEntry) → ballots (adopt n m) ≡ ballots n
  unfolding adopt ballots
  ballots-adopt n none = refl
  ballots-adopt n (some m) = refl

  pub ballots-adopt_memberships :
      (entries : List Entry) (n : RawNode S R) → ballots (adopt_memberships entries n) ≡ ballots n
  unfolding adopt_memberships
  ballots-adopt_memberships [] n = refl
  ballots-adopt_memberships (e ∷ entries) n =
      ballots-adopt_memberships entries (adopt n e.membership) ∙ ballots-adopt n e.membership

pub granted-snoc_vote :
    (l : List Envelope) (e : Envelope)
    → grants e.message ≡ true
    → granted (l ++ e ∷ []) ≡ granted l ++ e ∷ []
unfolding granted
granted-snoc_vote [] e h = ground arith
granted-snoc_vote (x ∷ l) e h = ground (arith, granted-snoc_vote l e h)

-- What a step adds to the votes that were sent: nothing, or one that the log has as its own.
abbrev pub Adds : ℕ × List Envelope → ℕ × List Envelope → Log → Type 0
Adds before after log =
    (after ≡ before)
    ⊎ ((e : Envelope) × (after ≡ (before.0, before.1 ++ e ∷ []))
        × (e.from ≡ before.0)
        × (e.term ≡ log.term)
        × (log.vote ≡ some e.to))

pub Adds-id :
    {before after : ℕ × List Envelope} (log : Log) → Adds before after log → after.0 ≡ before.0
Adds-id log (inl same) = ap (λ b. b.0) same
Adds-id log (inr (e, new, from, at, vote)) = ap (λ b. b.0) new

pub granted-append : (a b : List Envelope) → granted (a ++ b) ≡ granted a ++ granted b
unfolding granted
granted-append [] b = refl
granted-append (e ∷ a) b = ground (arith, granted-append a b)
