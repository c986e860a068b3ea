-- ===== src/Node/Reads.antt =====
-- When a leader answers reads: `maybe_read` of src/raft/node.rs.
use raft_rust.Base.{
  ℕ, Bool, true, false, ◌||◌, Option, none, some, List, [], ◌∷◌, map, Outcome, ok, err, panic,
  ◌>>=◌, ltb, leb, if◌then◌else◌,
}
use raft_rust.NodeSet
use raft_rust.NodeSet.{NodeSet}
use raft_rust.Membership.{has_quorum}
use raft_rust.Message.{Message, Reply, Response, done, failed}
use raft_rust.Log.Entry.{Bytes}
use raft_rust.Log.Ops.{unwrap_or}
use raft_rust.StateMachine.{StateMachine}
use raft_rust.Node.Types.{RawNode, Progress, Leader, Read}
use raft_rust.Node.Common.{send}

-- `matched_seq`
unfoldable pub sequences : List (ℕ × Progress) → List (ℕ × ℕ)
sequences [] = []
sequences ((peer, p) ∷ progress) = (peer, p.read_seq) ∷ sequences progress

-- The nodes that have confirmed a sequence number from `seq` on.
unfoldable pub confirmed_from : ℕ → List (ℕ × ℕ) → NodeSet
confirmed_from seq [] = []
confirmed_from seq ((node, s) ∷ l) =
    let rest = confirmed_from seq l in if leb seq s then NodeSet.insert node rest else rest

module _ {S : Type 0} where
  unfoldable pub matched_seq : RawNode S Leader → List (ℕ × ℕ)
  unfolding sequences
  matched_seq n = (n.id, n.role.read_seq) ∷ sequences n.role.progress

  unfoldable pub reads_quorum : RawNode S Leader → ℕ → Bool
  unfolding confirmed_from matched_seq
  reads_quorum n seq = has_quorum n.membership.active (confirmed_from seq (matched_seq n))

  -- The last candidate, in ascending order, that a quorum has confirmed.
  unfoldable pub last_confirmed : RawNode S Leader → List ℕ → Option ℕ
  unfolding reads_quorum
  last_confirmed n [] = none
  last_confirmed n (seq ∷ candidates) = elim (last_confirmed n candidates) [
    | some later ↦ some later
    | none ↦ if reads_quorum n seq then some seq else none
  ]

  unfoldable pub quorum_read_seq : RawNode S Leader → ℕ
  unfolding last_confirmed
  quorum_read_seq n =
      unwrap_or 0 (last_confirmed n (NodeSet.extend [] (map (λ p. p.1) (matched_seq n))))

-- `self.state.read(read.command).map(Response::Read)`
unfoldable pub read_reply : Outcome Bytes → Outcome Reply
read_reply (ok bytes) = ok (done (Response.read bytes))
read_reply (err e) = ok (failed e)
read_reply panic = panic

module _ (sm : StateMachine) where
  open sm use {Machine, get_applied_index, read}

  -- The loop over the front of the queue.
  unfoldable pub serve : ℕ → List Read → RawNode Machine Leader → Outcome (RawNode Machine Leader)
  unfolding read_reply
  serve seq [] n = ok (record n { role = record (n.role) { reads = [] } })
  serve seq (r ∷ reads) n = elim (ltb seq r.seq) [
    | true ↦ ok (record n { role = record (n.role) { reads = r ∷ reads } })
    | false ↦ do
      reply ← read_reply (read n.state r.command)
      serve seq reads (send n r.from (Message.client_response r.id reply))
  ]

  -- `maybe_read` on the reads that wait.
  unfoldable pub read_waiting :
      RawNode Machine Leader → List Read → Outcome (RawNode Machine Leader)
  unfolding quorum_read_seq serve
  read_waiting n [] = ok n
  read_waiting n (r ∷ reads) =
      if ltb n.log.commit_term n.log.term || ltb (get_applied_index n.state) n.log.commit_index
      then ok n
      else serve (quorum_read_seq n) (r ∷ reads) n

  unfoldable pub maybe_read : RawNode Machine Leader → Outcome (RawNode Machine Leader)
  unfolding read_waiting
  maybe_read n = read_waiting n n.role.reads
