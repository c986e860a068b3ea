-- ===== src/Node/SnapshotGrows.antt =====
-- What a snapshot does to a leader's log: `maybe_snapshot` of src/raft/node.rs.
use raft_rust.Base.{
  ℕ, ◌-◌, ◌≤◌, ◌<◌, ◌≡◌, refl, subst, inl, inr, Bool, true, false, ◌||◌, some, ok, >>=-eq-ok, ltb,
  leb, ◌==◌, if◌then◌else◌, arith, Bool-cases, Option-cases,
}
use raft_rust.Log.Entry.{Entry}
use raft_rust.Log.Ops.{Log, rows, get, get_snapshot_meta, compact_to, set_snapshot_data}
use raft_rust.Log.Runs.{lookup_in_run}
use raft_rust.Log.Reach.{IsSound}
use raft_rust.Log.Lead.{start, more, compacts, stores, Grows, Grows-of_eq}
use raft_rust.StateMachine.{StateMachine}
use raft_rust.Node.Types.{RawNode, Leader}
use raft_rust.Node.Apply.{take_snapshot, maybe_snapshot}

module _ (sm : StateMachine) where
  open sm use {Machine}

  take_snapshot-Grows :
      (n : RawNode Machine Leader) (index : ℕ) (e : Entry) {n' : RawNode Machine Leader}
      → get n.log index ≡ some e
      → take_snapshot sm n index e.term ≡ ok n'
      → Grows n.log n'.log
  unfolding take_snapshot
  take_snapshot-Grows n index e {n'} found h =
      let (bytes, taken, h1) = >>=-eq-ok (sm.snapshot n.state) _ h in
      let (log, cut, same) =
        >>=-eq-ok (compact_to (set_snapshot_data n.log bytes) index e.term) _ h1 in
      let at : log ≡ n'.log = ground arith in
      subst (Grows n.log) at
        (λ s. more (more start (stores bytes refl)) (compacts index e found cut))

  compact_to-le :
      (log : Log) (index term : ℕ) {log' : Log}
      → compact_to log index term ≡ ok log'
      → index ≤ log.commit_index
  unfolding compact_to
  compact_to-le log index term h = ground arith

  -- All that is committed is applied here, so the entry is in the log.
  committed_there :
      (n : RawNode Machine Leader) (index : ℕ) {n' : RawNode Machine Leader}
      → IsSound n.log
      → (get_snapshot_meta n.log).0 < index
      → n.log.commit_index ≤ index
      → take_snapshot sm n index n.log.commit_term ≡ ok n'
      → (e : Entry) × (get n.log index ≡ some e)
  unfolding take_snapshot get_snapshot_meta
  committed_there n index {n'} s base_lt le h =
      let (bytes, taken, h1) = >>=-eq-ok (sm.snapshot n.state) _ h in
      let (log, cut, same) =
        >>=-eq-ok (compact_to (set_snapshot_data n.log bytes) index n.log.commit_term) _ h1 in
      let within : index ≤ n.log.commit_index =
        compact_to-le (set_snapshot_data n.log bytes) index n.log.commit_term cut in
      let first : n.log.first_index ≤ index = ground (arith, s.formed.first_pos) in
      lookup_in_run n.log.first_index index (rows n.log) s.formed.run first
        (omega (arith, s.formed.ends, s.formed.committed))

  pub maybe_snapshot-Grows :
      (n : RawNode Machine Leader) {n' : RawNode Machine Leader}
      → maybe_snapshot sm n ≡ ok n'
      → Grows n.log n'.log
  unfolding maybe_snapshot
  maybe_snapshot-Grows n {n'} h s =
      let applied = sm.get_applied_index n.state in
      let base = (get_snapshot_meta n.log).0 in
      let skipped =
        n.opts.snapshot_threshold == 0
        || leb applied base
        || ltb (applied - base) n.opts.snapshot_threshold
        || ltb applied n.log.commit_index in
      elim (Bool-cases skipped) [
        | inl skip ↦ Grows-of_eq {log = n.log} {log' = n'.log} (ground arith) s
        | inr due ↦ elim (Option-cases (get n.log applied)) [
          | inr (e, found) ↦
              let called : take_snapshot sm n applied e.term ≡ ok n' = ground arith in
              take_snapshot-Grows n applied e found called s
          | inl missing ↦
              let called : take_snapshot sm n applied n.log.commit_term ≡ ok n' = ground arith in
              let (e, found) = committed_there n applied s (ground arith) (ground arith) called in
              absurd (ground arith)
        ]
      ]

  pub snapshot_if :
      (down : Bool) (n n' : RawNode Machine Leader)
      → (if down then ok n else maybe_snapshot sm n) ≡ ok n'
      → Grows n.log n'.log
  snapshot_if true n n' h = Grows-of_eq (ground arith)
  snapshot_if false n n' h = maybe_snapshot-Grows n h
