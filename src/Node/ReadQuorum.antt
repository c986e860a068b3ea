-- ===== src/Node/ReadQuorum.antt =====
-- A read is answered only after a quorum has confirmed it: `maybe_read` of src/raft/node.rs.
use raft_rust.Base.{
  ℕ, zero, suc, ◌≤◌, ◌<◌, ◌≡◌, refl, ap, sym, ◌∙◌, ◌⊎◌, inl, inr, true, ◌||◌, some, List, [], ◌∷◌,
  ◌++◌, map, ok, ◌>>=◌, >>=-eq-ok, ltb, arith, Bool-cases, Option-cases, get_elem?, append_nil,
  append_assoc,
}
use raft_rust.NodeSet
use raft_rust.Message.{Message, Envelope, Reply}
use raft_rust.StateMachine.{StateMachine}
use raft_rust.Node.Types.{RawNode, Leader, Read}
use raft_rust.Node.Common.{send}
use raft_rust.Node.Reads.{
  matched_seq, reads_quorum, last_confirmed, quorum_read_seq, read_reply, serve, read_waiting,
  maybe_read,
}

module _ {S : Type 0} where
  last_confirmed_lem :
      (n : RawNode S Leader) (candidates : List ℕ) (seq : ℕ)
      → last_confirmed n candidates ≡ some seq
      → reads_quorum n seq ≡ true
  unfolding last_confirmed
  last_confirmed_lem n [] seq h = absurd (ground arith)
  last_confirmed_lem n (s ∷ candidates) seq h = elim (Option-cases (last_confirmed n candidates)) [
    | inr (later, found) ↦
        let same : later ≡ seq = ground arith in
        last_confirmed_lem n candidates seq (found ∙ ap some same)
    | inl nothing ↦ elim (Bool-cases (reads_quorum n s)) [
      | inl good ↦ let same : s ≡ seq = ground arith in ap (reads_quorum n) (sym same) ∙ good
      | inr bad ↦ absurd (ground arith)
    ]
  ]

  quorum_read_seq_lem :
      (n : RawNode S Leader) → (quorum_read_seq n ≡ 0) ⊎ (reads_quorum n (quorum_read_seq n) ≡ true)
  quorum_read_seq_lem n =
      let candidates = NodeSet.extend [] (map (λ p. p.1) (matched_seq n)) in
      elim (Option-cases (last_confirmed n candidates)) [
        | inl nothing ↦ inl (unfold quorum_read_seq in rw nothing refl)
        | inr (seq, found) ↦
            let same : quorum_read_seq n ≡ seq = unfold quorum_read_seq in rw found refl in
            inr (ap (reads_quorum n) same ∙ last_confirmed_lem n candidates seq found)
      ]

-- What is sent for reads, in their order: each goes back to the node that it came from, under its own
-- id, with what the machine reads for it, or the error of that.
abbrev pub IsReplies :
    (sm : StateMachine) → RawNode (sm.Machine) Leader → List Read → List Envelope → Type 0
IsReplies sm n [] sent = sent ≡ []
IsReplies sm n (r ∷ reads) sent =
    (reply : Reply) × (rest : List Envelope) × (read_reply (sm.read n.state r.command) ≡ ok reply)
    × (sent
        ≡ record {
          from = n.id;
          term = n.log.term;
          to = r.from;
          message = Message.client_response r.id reply;
        }
          ∷ rest)
    × IsReplies sm n reads rest

-- The first of the waiting reads are answered and taken from the queue, each with one message; the
-- others wait on.
pub record Answered (sm : StateMachine) (seq : ℕ) (reads : List Read)
    (n n' : RawNode (sm.Machine) Leader) : Type 0 where
  pub answered : List Read
  pub waiting : List Read
  pub split : reads ≡ answered ++ waiting
  pub left : n'.role.reads ≡ waiting
  pub reached : (k : ℕ) (r : Read) → get_elem? answered k ≡ some r → r.seq ≤ seq
  pub front : (r : Read) (rest : List Read) → waiting ≡ r ∷ rest → seq < r.seq
  pub replies : List Envelope
  pub sent : n'.tx ≡ n.tx ++ replies
  pub are_replies : IsReplies sm n answered replies
  pub same_state : n'.state ≡ n.state
  pub same_log : n'.log ≡ n.log

reached_too :
    (seq : ℕ) (r : Read) (reads : List Read)
    → r.seq ≤ seq
    → ((k : ℕ) (x : Read) → get_elem? reads k ≡ some x → x.seq ≤ seq)
    → (k : ℕ) (x : Read) → get_elem? (r ∷ reads) k ≡ some x
    → x.seq ≤ seq
reached_too seq r reads le all zero x at = ground arith
reached_too seq r reads le all (suc k) x at = all k x at

-- The replies do not depend on what was sent before.
IsReplies-send :
    (sm : StateMachine) (n : RawNode (sm.Machine) Leader) (to : ℕ) (message : Message)
    (reads : List Read) (sent : List Envelope)
    → IsReplies sm (send n to message) reads sent
    → IsReplies sm n reads sent
unfolding send
IsReplies-send sm n to message [] sent h = h
IsReplies-send sm n to message (r ∷ reads) sent (reply, rest, answer, is, more) =
    (reply, rest, answer, is, IsReplies-send sm n to message reads rest more)

-- One read that is answered, before others.
Answered-first :
    (sm : StateMachine) (seq : ℕ) (r : Read) (reads : List Read) (reply : Reply)
    (n n' : RawNode (sm.Machine) Leader)
    → r.seq ≤ seq
    → read_reply (sm.read n.state r.command) ≡ ok reply
    → Answered sm seq reads (send n r.from (Message.client_response r.id reply)) n'
    → Answered sm seq (r ∷ reads) n n'
unfolding send
Answered-first sm seq r reads reply n n' le replied a = record {
  answered = r ∷ a.answered;
  waiting = a.waiting;
  split = ap (◌∷◌ r) a.split;
  left = a.left;
  reached = reached_too seq r a.answered le a.reached;
  front = a.front;
  replies =
      record {
        from = n.id;
        term = n.log.term;
        to = r.from;
        message = Message.client_response r.id reply;
      }
      ∷ a.replies;
  sent =
      a.sent
      ∙ (append_assoc n.tx
          (record {
            from = n.id;
            term = n.log.term;
            to = r.from;
            message = Message.client_response r.id reply;
          }
            ∷ [])
          a.replies);
  are_replies = (
    reply,
    a.replies,
    replied,
    refl,
    IsReplies-send sm n r.from (Message.client_response r.id reply) a.answered a.replies
        a.are_replies,
  );
  same_state = a.same_state ∙ refl;
  same_log = a.same_log ∙ refl;
}

module _ (sm : StateMachine) where
  open sm use {Machine}

  serve_lem :
      (seq : ℕ) (reads : List Read) (n n' : RawNode Machine Leader)
      → serve sm seq reads n ≡ ok n'
      → Answered sm seq reads n n'
  unfolding serve
  serve_lem seq [] n n' h = record {
    answered = [];
    waiting = [];
    split = refl;
    left = ground arith;
    reached = λ k r at. absurd (ground arith);
    front = λ r rest at. absurd (ground arith);
    replies = [];
    sent = ground (arith, append_nil n.tx);
    are_replies = refl;
    same_state = ground arith;
    same_log = ground arith;
  }
  serve_lem seq (r ∷ reads) n n' h = elim (Bool-cases (ltb seq r.seq)) [
    | inl later ↦ record {
      answered = [];
      waiting = r ∷ reads;
      split = refl;
      left = ground arith;
      reached = λ k x at. absurd (ground arith);
      front = λ x rest at. ground arith;
      replies = [];
      sent = ground (arith, append_nil n.tx);
      are_replies = refl;
      same_state = ground arith;
      same_log = ground arith;
    }
    | inr now ↦
        let called : (read_reply (sm.read n.state r.command) >>= λ reply.
        serve sm seq reads (send n r.from (Message.client_response r.id reply)))
            ≡ ok n' =
          ground arith in
        let (reply, replied, rest) = >>=-eq-ok (read_reply (sm.read n.state r.command)) _ called in
        Answered-first sm seq r reads reply n n' (ground arith) replied
          (serve_lem seq reads (send n r.from (Message.client_response r.id reply)) n' rest)
  ]

  read_waiting_lem :
      (n : RawNode Machine Leader) (reads : List Read) (n' : RawNode Machine Leader)
      → read_waiting sm n reads ≡ ok n'
      → (n' ≡ n)
        ⊎ ((n.log.term ≤ n.log.commit_term)
            × (n.log.commit_index ≤ sm.get_applied_index n.state)
            × Answered sm (quorum_read_seq n) reads n n')
  unfolding read_waiting
  read_waiting_lem n [] n' h = inl (ground arith)
  read_waiting_lem n (r ∷ reads) n' h =
      elim (Bool-cases (
        ltb n.log.commit_term n.log.term
        || ltb (sm.get_applied_index n.state) n.log.commit_index)) [
          | inl early ↦ inl (ground arith)
          | inr ready ↦ inr (
            ground arith,
            ground arith,
            serve_lem (quorum_read_seq n) (r ∷ reads) n n' (ground arith),
          )
        ]

  pub maybe_read_lem :
      (n n' : RawNode Machine Leader)
      → maybe_read sm n ≡ ok n'
      → ((n' ≡ n)
          ⊎ ((n.log.term ≤ n.log.commit_term)
              × (n.log.commit_index ≤ sm.get_applied_index n.state)
              × Answered sm (quorum_read_seq n) n.role.reads n n'))
        × ((quorum_read_seq n ≡ 0) ⊎ (reads_quorum n (quorum_read_seq n) ≡ true))
  unfolding maybe_read
  maybe_read_lem n n' h = (read_waiting_lem n n.role.reads n' h, quorum_read_seq_lem n)
