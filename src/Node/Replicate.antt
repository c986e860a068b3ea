-- ===== src/Node/Replicate.antt =====
-- How a leader sends its log: `maybe_send_append`, `heartbeat`, `propose` and
-- `sync_progress_with_membership` of src/raft/node.rs.
use raft_rust.Base.{
  ℕ, ◌+◌, ◌-◌, Bool, false, not, ◌&&◌, Option, none, some, List, [], ◌∷◌, Outcome, ok, panic, ◌>>=◌,
  ◌>>◌, assert, u64_add, ltb, leb, ◌==◌, if◌then◌else◌, take,
}
use raft_rust.NodeSet.{NodeSet}
use raft_rust.Message.{Message}
use raft_rust.Log.Entry.{Entry, Bytes}
use raft_rust.Log.Ops.{Log, get, get_snapshot_meta, scan, included, unbounded, append_entry}
use raft_rust.StateMachine.{StateMachine}
use raft_rust.Node.Types.{RawNode, Progress, Leader}
use raft_rust.Node.Common.{send, broadcast, peers}
use raft_rust.Node.Progress.{progress_of, set_progress, or_insert, retain}

-- `map(|e| (e.index, e.term)).expect("missing base entry")`
unfoldable pub position_of : Option Entry → Outcome (ℕ × ℕ)
position_of none = panic
position_of (some e) = ok (e.index, e.term)

unfoldable pub base_of : Log → ℕ → Outcome (ℕ × ℕ)
unfolding position_of
base_of log next = if next == 1 then ok (0, 0) else position_of (get log (next - 1))

-- `if let Some(last) = entries.last() { progress.next_index = last.index + 1 }`
unfoldable pub move_next : Progress → List Entry → Outcome Progress
move_next p [] = ok p
move_next p (e ∷ []) = do next ← u64_add e.index 1; ok (record p { next_index = next })
move_next p (e ∷ f ∷ entries) = move_next p (f ∷ entries)

module _ {S : Type 0} where
  unfoldable pub set_peer : RawNode S Leader → ℕ → Progress → RawNode S Leader
  unfolding set_progress
  set_peer n peer p = record n {
    role = record (n.role) { progress = set_progress peer p n.role.progress };
  }

  -- From the test of `match_index == last_index` on.
  unfoldable pub send_entries : RawNode S Leader → ℕ → Progress → Bool → Outcome (RawNode S Leader)
  unfolding base_of move_next set_peer
  send_entries n peer p probe =
      let probing = probe && ltb (p.match_index + 1) p.next_index in
      if p.match_index == n.log.last_index
      then ok n
      else if ltb n.log.last_index p.next_index && not probing
      then ok n
      else (do
        base ← base_of n.log p.next_index
        let entries : List Entry =
            if probing
            then []
            else take n.opts.max_append_entries (scan n.log (included p.next_index) unbounded)
        q ← move_next p entries
        ok (send (set_peer n peer q) peer (Message.append base.0 base.1 entries)))

  unfoldable pub heartbeat : RawNode S Leader → Outcome (RawNode S Leader)
  heartbeat n = do
    assert (n.log.last_term == n.log.term)
    ok (
        broadcast (record n { role = record (n.role) { since_heartbeat = 0 } })
          (Message.heartbeat n.log.last_index n.log.commit_index n.role.read_seq))

  unfoldable pub sync_progress_with_membership : RawNode S Leader → Outcome (RawNode S Leader)
  unfolding or_insert retain
  sync_progress_with_membership n = do
    next ← u64_add n.log.last_index 1
    let known = peers n
    let fresh : Progress = record { match_index = 0; next_index = next; read_seq = 0 }
    ok (record n {
      role = record (n.role) {
        progress = retain known (or_insert known fresh n.role.progress);
        peer_seen = retain known (or_insert known 0 n.role.peer_seen);
      };
    })

module _ (sm : StateMachine) where
  open sm use {Machine, snapshot}

  unfoldable pub send_snapshot : RawNode Machine Leader → ℕ → Outcome (RawNode Machine Leader)
  send_snapshot n peer = do
    bytes ← snapshot n.state
    let base = get_snapshot_meta n.log
    ok (send n peer (Message.install_snapshot base.0 base.1 bytes n.membership.active))

  unfoldable pub maybe_send_append :
      RawNode Machine Leader → ℕ → Bool → Outcome (RawNode Machine Leader)
  unfolding send_entries send_snapshot
  maybe_send_append n peer probe = elim (progress_of peer n.role.progress) [
    | none ↦ ok n
    | some p ↦ do
      assert (not (p.next_index == 0))
      assert (ltb p.match_index p.next_index)
      assert (leb p.match_index n.log.last_index)
      end ← u64_add n.log.last_index 1
      assert (leb p.next_index end)
      if ltb p.next_index n.log.first_index
          then send_snapshot n peer
          else send_entries n peer p probe
  ]

  -- `for peer in peers { if index == self.progress(peer).next_index { ... } }`
  unfoldable pub send_new : ℕ → NodeSet → RawNode Machine Leader → Outcome (RawNode Machine Leader)
  unfolding maybe_send_append
  send_new index [] n = ok n
  send_new index (peer ∷ ids) n = elim (progress_of peer n.role.progress) [
    | none ↦ panic
    | some p ↦ do
      n' ← (if index == p.next_index then maybe_send_append n peer false else ok n)
      send_new index ids n'
  ]

  unfoldable pub propose :
      RawNode Machine Leader → Option Bytes → Outcome (RawNode Machine Leader × ℕ)
  unfolding send_new
  propose n command = do
    (log, index) ← append_entry n.log command none
    n' ← send_new index (peers n) (record n { log = log })
    ok (n', index)
