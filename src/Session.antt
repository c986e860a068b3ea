-- ===== src/Session.antt =====
-- Sessions: src/raft/session.rs. A `Uuid` is a number; `HashMap` is the map of KeyMap.
pub mod Noted
pub mod Once
pub mod Snapshots
use raft_rust.Base.{
  ℕ, ◌≡◌, Bool, not, ◌||◌, Option, none, some, List, [], ◌∷◌, ◌++◌, length, take, drop, Outcome, ok,
  err, panic, ◌>>=◌, invalid_data, ltb, ◌==◌, if◌then◌else◌,
}
use raft_rust.KeyMap
use raft_rust.KeyMap.Order.{number_keys, bytes_equal}
use raft_rust.Codec.{Codec}
use raft_rust.Log.Entry.{Entry, Bytes}
use raft_rust.StateMachine.{StateMachine}

pub record SessionCommand : Type 0 where
  pub client_id : ℕ
  pub seq : ℕ
  pub payload : Bytes

-- The two types that this part serializes.
pub record SessionCodecs : Type 0 where
  pub commands : Codec SessionCommand
  pub snapshots : Codec (Bytes × List (ℕ × ℕ × Bytes))

-- `b"SESS"`
abbrev pub magic : Bytes
magic = 83 ∷ 69 ∷ 83 ∷ 83 ∷ []

module _ (codecs : SessionCodecs) where
  open codecs use {commands, snapshots}

  unfoldable pub encode_session : ℕ → ℕ → Bytes → Bytes
  encode_session client_id seq payload =
      magic ++ commands.encode (record { client_id = client_id; seq = seq; payload = payload })

  unfoldable pub decode_session : Bytes → Option SessionCommand
  decode_session bytes =
      if ltb (length bytes) 4 || not (bytes_equal (take 4 bytes) magic)
      then none
      else commands.decode (drop 4 bytes)

  module _ (inner : StateMachine) where
    open inner use {Machine}

    pub record SessionState : Type 0 where
      pub inner_state : Machine
      pub sessions : List (ℕ × (ℕ × Bytes))

    unfoldable pub new : Machine → SessionState
    new machine = record { inner_state = machine; sessions = [] }

    -- `self.inner.apply(entry)`
    unfoldable pub apply_inner : SessionState → Entry → SessionState × Outcome Bytes
    apply_inner s entry =
        let applied = inner.apply s.inner_state entry in
        (record s { inner_state = applied.0 }, applied.1)

    -- `Entry { index, term, command: None, membership: None }`
    abbrev pub noop : Entry → Entry
    noop entry = record {
      index = entry.index;
      term = entry.term;
      command = none;
      membership = none;
    }

    -- A command that was applied before: the machine only moves on, and `reply` is the answer.
    unfoldable pub skip : SessionState → Entry → Bytes → SessionState × Outcome Bytes
    unfolding apply_inner
    skip s entry reply =
        let applied = apply_inner s (noop entry) in (applied.0, applied.1 >>= λ ignored. ok reply)

    -- `self.sessions.insert(sess.client_id, (sess.seq, resp.clone()))`
    unfoldable pub keep_reply :
        SessionCommand → SessionState × Outcome Bytes → SessionState × Outcome Bytes
    keep_reply sess (s, ok reply) = (
      record s { sessions = KeyMap.insert sess.client_id (sess.seq, reply) s.sessions },
      ok reply,
    )
    keep_reply sess (s, err e) = (s, err e)
    keep_reply sess (s, panic) = (s, panic)

    -- A command with a sequence number that is new.
    unfoldable pub execute : SessionState → Entry → SessionCommand → SessionState × Outcome Bytes
    unfolding apply_inner keep_reply
    execute s entry sess = keep_reply sess (
        apply_inner s (record {
          index = entry.index;
          term = entry.term;
          command = some sess.payload;
          membership = none;
        }))

    unfoldable pub apply_session :
        SessionState → Entry → SessionCommand → SessionState × Outcome Bytes
    unfolding execute skip
    apply_session s entry sess = elim (KeyMap.get sess.client_id s.sessions) [
      | none ↦ execute s entry sess
      | some (last, cached) ↦
          if sess.seq == last
          then skip s entry cached
          else if ltb sess.seq last
          then skip s entry []
          else execute s entry sess
    ]

    unfoldable pub apply : SessionState → Entry → SessionState × Outcome Bytes
    unfolding apply_session decode_session
    apply s entry = elim entry.command [
      | none ↦ apply_inner s entry
      | some bytes ↦ elim (decode_session bytes) [
        | none ↦ apply_inner s entry
        | some sess ↦ apply_session s entry sess
      ]
    ]

    -- `(*id, *seq, resp.clone())` of every session, and back
    unfoldable pub flatten : List (ℕ × (ℕ × Bytes)) → List (ℕ × ℕ × Bytes)
    flatten [] = []
    flatten ((id, (seq, reply)) ∷ sessions) = (id, seq, reply) ∷ flatten sessions

    unfoldable pub unflatten : List (ℕ × ℕ × Bytes) → List (ℕ × (ℕ × Bytes))
    unflatten [] = []
    unflatten ((id, seq, reply) ∷ sessions) = (id, (seq, reply)) ∷ unflatten sessions

    unfoldable pub snapshot : SessionState → Outcome Bytes
    unfolding flatten
    snapshot s = do
      inner_snap ← inner.snapshot s.inner_state
      ok (snapshots.encode (inner_snap, flatten s.sessions))

    -- The sessions are replaced only where the inner machine was restored.
    unfoldable pub restore_parts :
        SessionState → Bytes → List (ℕ × ℕ × Bytes) → ℕ → SessionState × Outcome (Unit {0})
    unfolding unflatten
    restore_parts s inner_snap sessions index =
        let restored = inner.restore s.inner_state inner_snap index in
        elim restored.1 [
          | ok done ↦ (
            record { inner_state = restored.0; sessions = KeyMap.collect [] (unflatten sessions) },
            ok tt,
          )
          | err e ↦ (record s { inner_state = restored.0 }, err e)
          | panic ↦ (record s { inner_state = restored.0 }, panic)
        ]

    unfoldable pub restore : SessionState → Bytes → ℕ → SessionState × Outcome (Unit {0})
    unfolding restore_parts
    restore s bytes index = elim (snapshots.decode bytes) [
      | none ↦ (s, err invalid_data)
      | some (inner_snap, sessions) ↦ restore_parts s inner_snap sessions index
    ]

    -- `impl State for SessionState`
    abbrev pub session_machine : StateMachine
    session_machine = record {
      Machine = SessionState;
      get_applied_index = λ s. inner.get_applied_index s.inner_state;
      apply = apply;
      read = λ s command. inner.read s.inner_state command;
      snapshot = snapshot;
      restore = restore;
    }
