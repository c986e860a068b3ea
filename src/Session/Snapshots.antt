-- ===== src/Session/Snapshots.antt =====
-- A snapshot of sessions, and its restoration (src/raft/session.rs).
use raft_rust.Base.{ℕ, ◌≡◌, refl, ap, List, [], ◌∷◌, ok, arith}
use raft_rust.KeyMap
use raft_rust.KeyMap.{IsAscending, insert-IsAscending, get-collect}
use raft_rust.KeyMap.Order.{number_keys}
use raft_rust.Codec.{RoundTrips}
use raft_rust.Log.Entry.{Bytes}
use raft_rust.StateMachine.{StateMachine}
use raft_rust.Session.{
  SessionCodecs, SessionState, flatten, unflatten, snapshot, restore_parts, restore,
}

module _ (codecs : SessionCodecs) (inner : StateMachine) where
  open codecs use {snapshots}

  unflatten-flatten :
      (sessions : List (ℕ × (ℕ × Bytes)))
      → unflatten codecs inner (flatten codecs inner sessions) ≡ sessions
  unfolding flatten unflatten
  unflatten-flatten [] = refl
  unflatten-flatten ((id, (seq, reply)) ∷ sessions) =
      ap (λ l. (id, (seq, reply)) ∷ l) (unflatten-flatten sessions)

  -- A snapshot of a machine that keeps one reply for each client, and that decodes to what was
  -- encoded, restores any machine: where the inner machine takes its part of it,
  -- the outcome is success, the inner machine is what it made of that part, and every client has
  -- the reply that it had when the snapshot was taken.
  pub restore-snapshot_lem :
      (s other : SessionState codecs inner) (index client : ℕ) {bytes inner_snap : Bytes}
      → IsAscending s.sessions
      → inner.snapshot s.inner_state ≡ ok inner_snap
      → RoundTrips snapshots (inner_snap, flatten codecs inner s.sessions)
      → (inner.restore other.inner_state inner_snap index).1 ≡ ok tt
      → snapshot codecs inner s ≡ ok bytes
      → ((restore codecs inner other bytes index).1 ≡ ok tt)
        × ((restore codecs inner other bytes index).0.inner_state
            ≡ (inner.restore other.inner_state inner_snap index).0)
        × (KeyMap.get client (restore codecs inner other bytes index).0.sessions
            ≡ KeyMap.get client s.sessions)
  unfolding snapshot restore restore_parts
  restore-snapshot_lem s other index client {bytes} {inner_snap} sorted taken back accepted
        written =
      let same : bytes ≡ snapshots.encode (inner_snap, flatten codecs inner s.sessions) =
        ground arith in
      let called : restore codecs inner other bytes index
          ≡ restore_parts codecs inner other inner_snap (flatten codecs inner s.sessions) index =
        rw (same, restore, back) refl in
      let kept = unflatten-flatten s.sessions in
      rw (called, restore_parts, accepted, kept) (refl, refl, get-collect client s.sessions sorted)
