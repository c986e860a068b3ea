-- ===== src/Node/Lead.antt =====
-- How a leader steps down, and its ticks: `RawNode<Leader>::into_follower` and `tick` of
-- src/raft/node.rs.
use raft_rust.Base.{
  ℕ, ◌+◌, min, Bool, not, ◌&&◌, none, some, List, [], ◌∷◌, map, Outcome, ok, panic, ◌>>=◌, ltb, leb,
  if◌then◌else◌,
}
use raft_rust.NodeSet
use raft_rust.NodeSet.{NodeSet}
use raft_rust.Membership.{has_quorum}
use raft_rust.Log.Ops.{set_term_vote}
use raft_rust.Node.Types.{RawNode, Leader, Follower, Write, Read, Progress, Node, follower, leader}
use raft_rust.Node.Common.{
  send, cluster_size, random_election_timeout, election_timeout_max, into_role, tick_up,
}
use raft_rust.Node.Follower.{new_follower, abort_message}
use raft_rust.Node.Progress.{progress_of, set_progress}
use raft_rust.Node.Replicate.{set_peer, heartbeat}

-- `sorted_by_key(|w| w.id)`
unfoldable pub insert_by_id : Write → List Write → List Write
insert_by_id w [] = w ∷ []
insert_by_id w (x ∷ l) =
    let rest = insert_by_id w l in if leb w.id x.id then w ∷ x ∷ l else x ∷ rest

unfoldable pub sort_by_id : List Write → List Write
unfolding insert_by_id
sort_by_id [] = []
sort_by_id (w ∷ l) = insert_by_id w (sort_by_id l)

-- The match indices with the leader's own last index among them.
unfoldable pub match_indices : List (ℕ × Progress) → List (ℕ × ℕ)
match_indices [] = []
match_indices ((id, p) ∷ progress) = (id, p.match_index) ∷ match_indices progress

unfoldable pub age : List (ℕ × ℕ) → List (ℕ × ℕ)
age [] = []
age ((peer, seen) ∷ l) = (peer, min (seen + 1) 255) ∷ age l

-- The peers heard within the window, and the leader.
unfoldable pub heard : ℕ → ℕ → List (ℕ × ℕ) → NodeSet
heard id window [] = NodeSet.insert id []
heard id window ((peer, seen) ∷ l) =
    let rest = heard id window l in if ltb seen window then NodeSet.insert peer rest else rest

module _ {S : Type 0} where
  unfoldable pub abort_writes : List Write → RawNode S Leader → RawNode S Leader
  unfolding abort_message
  abort_writes [] n = n
  abort_writes (w ∷ l) n = abort_writes l (send n w.from (abort_message w.id))

  -- `RawNode<Leader>::into_follower`; the new term is on disk before the clients are told.
  unfoldable pub step_down : RawNode S Leader → ℕ → Outcome (RawNode S Follower)
  unfolding abort_writes sort_by_id
  step_down n term = do
    log ← (if ltb n.log.term term then set_term_vote n.log term none else ok n.log)
    let n1 = record n { log = log }
    let n2 = abort_writes (sort_by_id (map (λ w. w.1) n.role.writes)) n1
    let n3 = abort_writes (sort_by_id (map (λ w. w.1) n.role.membership_writes)) n2
    let waiting : List Write = map (λ (r : Read). record { from = r.from; id = r.id }) n.role.reads
    let n4 = abort_writes (sort_by_id waiting) n3
    (timeout, n5) ← random_election_timeout n4
    ok (into_role n5 (new_follower none timeout))

  -- `note_peer_response`
  unfoldable pub note_peer_response : RawNode S Leader → ℕ → RawNode S Leader
  unfolding set_progress
  note_peer_response n from = record n {
    role = record (n.role) { peer_seen = set_progress from 0 n.role.peer_seen };
  }

  -- A call on `self.progress(peer)`, which panics for a node that is not known.
  unfoldable pub on_progress :
      RawNode S Leader
      → ℕ
      → (Progress → Outcome (Progress × Bool))
      → Outcome (RawNode S Leader × Bool)
  unfolding progress_of set_peer
  on_progress n peer change = elim (progress_of peer n.role.progress) [
    | none ↦ panic
    | some p ↦ do (q, moved) ← change p; ok (set_peer n peer q, moved)
  ]

  unfoldable pub has_contact : RawNode S Leader → Bool
  unfolding heard
  has_contact n =
      has_quorum n.membership.active (heard n.id (election_timeout_max n) n.role.peer_seen)

  unfoldable pub leader_tick : RawNode S Leader → Outcome (Node S)
  unfolding age has_contact step_down
  leader_tick n = do
    let aged = record n { role = record (n.role) { peer_seen = age n.role.peer_seen } }
    since ← tick_up n.role.since_heartbeat
    let ticked = record aged { role = record (aged.role) { since_heartbeat = since } }
    beaten ← (if leb n.opts.heartbeat_interval since then heartbeat ticked else ok ticked)
    if n.opts.check_quorum && ltb 1 (cluster_size beaten) && not (has_contact beaten)
        then (do f ← step_down beaten beaten.log.term; ok (follower f))
        else ok (leader beaten)
