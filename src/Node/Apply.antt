-- ===== src/Node/Apply.antt =====
-- How a leader commits, applies and answers: `maybe_commit_and_apply` and `maybe_snapshot` of
-- src/raft/node.rs.
use raft_rust.Base.{
  ℕ, ◌-◌, Bool, false, not, ◌&&◌, ◌||◌, Option, none, some, List, [], ◌∷◌, Outcome, ok, err, panic,
  ◌>>=◌, ◌>>◌, ltb, leb, ◌==◌, if◌then◌else◌,
}
use raft_rust.NodeSet
use raft_rust.Membership.{MembershipEntry, on_commit, all_voters, is_joint}
use raft_rust.Message.{Message, Reply, Response, done, failed}
use raft_rust.Log.Entry.{Entry, Bytes}
use raft_rust.Log.Ops.{get, get_snapshot_meta, set_snapshot_data, compact_to, scan_apply}
use raft_rust.StateMachine.{StateMachine}
use raft_rust.Node.Types.{RawNode, Leader, Write}
use raft_rust.Node.Common.{send}
use raft_rust.Node.Follower.{discard}
use raft_rust.Node.Progress.{progress_of}
use raft_rust.Node.Replicate.{sync_progress_with_membership}
use raft_rust.Node.Commit.{advance_commit}
use raft_rust.Node.Reads.{maybe_read}
use raft_rust.Node.Change.{maybe_propose_simple_after_joint}

-- `HashMap::remove`, and `insert` over what the key had
unfoldable pub remove_key {ℓ} : {A : Type ℓ} → ℕ → List (ℕ × A) → List (ℕ × A)
remove_key k [] = []
remove_key k ((j, a) ∷ l) = let rest = remove_key k l in if k == j then rest else (j, a) ∷ rest

unfoldable pub insert_key {ℓ} : {A : Type ℓ} → ℕ → A → List (ℕ × A) → List (ℕ × A)
unfolding remove_key
insert_key k a l = (k, a) ∷ remove_key k l

-- `result.map(Response::Write)`
unfoldable pub write_reply : Outcome Bytes → Outcome Reply
write_reply (ok bytes) = ok (done (Response.write bytes))
write_reply (err e) = ok (failed e)
write_reply panic = panic

module _ {S : Type 0} where
  -- The client's answer, where one waits for it.
  unfoldable pub answer : RawNode S Leader → Option Write → Reply → RawNode S Leader
  answer n none reply = n
  answer n (some w) reply = send n w.from (Message.client_response w.id reply)

module _ (sm : StateMachine) where
  open sm use {Machine, get_applied_index, apply, snapshot}

  -- An entry without a change of the configuration, its answer among the effects.
  unfoldable pub apply_command :
      RawNode Machine Leader → Entry → Option Write → Outcome (RawNode Machine Leader)
  unfolding write_reply
  apply_command n e none = do
    discard (apply n.state e).1
    ok (record n { state = (apply n.state e).0 })
  apply_command n e (some w) = do
    reply ← write_reply (apply n.state e).1
    ok (send (record n { state = (apply n.state e).0 }) w.from (Message.client_response w.id reply))

  -- An entry that changes the configuration: the machine sees an empty one in its place.
  unfoldable pub apply_change :
      RawNode Machine Leader
      → Entry
      → MembershipEntry
      → Option Write
      → Outcome (RawNode Machine Leader)
  unfolding answer
  apply_change n e m waiting =
      let bare : Entry = record {
        index = e.index;
        term = e.term;
        command = none;
        membership = none;
      } in
      let applied = apply n.state bare in
      do
        discard applied.1
        ok (
            answer (record n { membership = on_commit n.membership m; state = applied.0 }) waiting
              (done (Response.change_membership e.index)))

  -- The body of the loop; the entry's index is taken out of both maps.
  unfoldable pub apply_one : RawNode Machine Leader → Entry → Outcome (RawNode Machine Leader)
  unfolding apply_command apply_change
  apply_one n e =
      let write = progress_of e.index n.role.writes in
      let mwrite = progress_of e.index n.role.membership_writes in
      let taken = record n {
        role = record (n.role) {
          writes = remove_key e.index n.role.writes;
          membership_writes = remove_key e.index n.role.membership_writes;
        };
      } in
      elim e.membership [
        | none ↦ apply_command taken e write
        | some m ↦ apply_change taken e m mwrite
      ]

  unfoldable pub apply_committed :
      List Entry → RawNode Machine Leader → Outcome (RawNode Machine Leader)
  unfolding apply_one
  apply_committed [] n = ok n
  apply_committed (e ∷ entries) n = do n' ← apply_one n e; apply_committed entries n'

  -- `committed_membership`
  unfoldable pub changes_of : List Entry → List MembershipEntry
  changes_of [] = []
  changes_of (e ∷ entries) =
      let rest = changes_of entries in elim e.membership [ none ↦ rest | some m ↦ m ∷ rest ]

  -- The leader is no voter of a simple configuration that is in force.
  unfoldable pub is_removed : RawNode Machine Leader → Bool
  is_removed n =
      not (is_joint n.membership.active)
      && not (NodeSet.contains (all_voters n.membership.active) n.id)

  -- The loop over the committed changes, with `step_down`.
  unfoldable pub follow_up :
      List MembershipEntry → Bool → RawNode Machine Leader → Outcome (RawNode Machine Leader × Bool)
  unfolding is_removed
  follow_up [] down n = ok (n, down)
  follow_up (m ∷ changes) down n = do
    proposed ← maybe_propose_simple_after_joint sm n m
    synced ← sync_progress_with_membership proposed
    follow_up changes (down || is_removed synced) synced

  -- From `self.state.snapshot()` on.
  unfoldable pub take_snapshot : RawNode Machine Leader → ℕ → ℕ → Outcome (RawNode Machine Leader)
  take_snapshot n applied term = do
    bytes ← snapshot n.state
    log ← compact_to (set_snapshot_data n.log bytes) applied term
    ok (record n { log = log })

  unfoldable pub maybe_snapshot : RawNode Machine Leader → Outcome (RawNode Machine Leader)
  unfolding take_snapshot
  maybe_snapshot n =
      let applied = get_applied_index n.state in
      let base = (get_snapshot_meta n.log).0 in
      if n.opts.snapshot_threshold == 0
        || leb applied base
        || ltb (applied - base) n.opts.snapshot_threshold
        || ltb applied n.log.commit_index
      then ok n
      else elim (get n.log applied) [
        | some e ↦ take_snapshot n applied e.term
        | none ↦ if applied == base then ok n else take_snapshot n applied n.log.commit_term
      ]

  -- What follows a commit; the second result is `step_down`.
  unfoldable pub after_commit : ℕ → RawNode Machine Leader → Outcome (RawNode Machine Leader × Bool)
  unfolding apply_committed changes_of follow_up maybe_snapshot
  after_commit old_term n =
      let entries = scan_apply n.log (get_applied_index n.state) in
      do
        applied ← apply_committed entries n
        (followed, down) ← follow_up (changes_of entries) false applied
        answered ← (if old_term == followed.log.term then ok followed else maybe_read sm followed)
        kept ← (if down then ok answered else maybe_snapshot answered)
        ok (kept, down)

  unfoldable pub maybe_commit_and_apply :
      RawNode Machine Leader → Outcome (RawNode Machine Leader × Bool)
  unfolding after_commit
  maybe_commit_and_apply n = do
    (n', moved) ← advance_commit n
    if moved then after_commit n.log.commit_term n' else ok (n, false)
