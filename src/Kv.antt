-- ===== src/Kv.antt =====
-- The key-value machine: src/raft/kv.rs. A `String` is its bytes.
pub mod Laws
use raft_rust.Base.{ℕ, max, Option, none, some, List, [], Outcome, ok, err, panic, invalid_data}
use raft_rust.KeyMap
use raft_rust.KeyMap.Order.{bytes_keys}
use raft_rust.Codec.{Codec}
use raft_rust.Log.Entry.{Entry, Bytes}
use raft_rust.StateMachine.{StateMachine}

pub data Command : Type 0 where
  get : Bytes → Command
  put : Bytes → Bytes → Command
  scan : Command

pub data Response : Type 0 where
  get : Option Bytes → Response
  put : ℕ → Response
  scan : List (Bytes × Bytes) → Response

pub record Kv : Type 0 where
  pub applied_index : ℕ
  pub data_of : List (Bytes × Bytes)

-- `encode` and `decode` at the types that the machine uses them at.
pub record KvCodecs : Type 0 where
  pub commands : Codec Command
  pub responses : Codec Response
  pub snapshots : Codec (ℕ × List (Bytes × Bytes))

unfoldable pub new : Kv
new = record { applied_index = 0; data_of = [] }

module _ (codecs : KvCodecs) where
  open codecs use {commands, responses, snapshots}

  unfoldable pub apply_command : Kv → ℕ → Command → Kv × Outcome Bytes
  apply_command kv index (Command.put key value) = (
    record { applied_index = index; data_of = KeyMap.insert key value kv.data_of },
    ok (responses.encode (Response.put index)),
  )
  apply_command kv index (Command.get key) = (kv, panic)
  apply_command kv index Command.scan = (kv, panic)

  unfoldable pub apply : Kv → Entry → Kv × Outcome Bytes
  unfolding apply_command
  apply kv entry = elim entry.command [
    | none ↦ (record kv { applied_index = entry.index }, ok [])
    | some bytes ↦ elim (commands.decode bytes) [
      | none ↦ (kv, err invalid_data)
      | some command ↦ apply_command kv entry.index command
    ]
  ]

  unfoldable pub answer : Kv → Command → Outcome Bytes
  answer kv (Command.get key) = ok (responses.encode (Response.get (KeyMap.get key kv.data_of)))
  answer kv Command.scan = ok (responses.encode (Response.scan kv.data_of))
  answer kv (Command.put key value) = panic

  unfoldable pub read : Kv → Bytes → Outcome Bytes
  unfolding answer
  read kv bytes = elim (commands.decode bytes) [
    | none ↦ err invalid_data
    | some command ↦ answer kv command
  ]

  unfoldable pub snapshot : Kv → Outcome Bytes
  snapshot kv = ok (snapshots.encode (kv.applied_index, kv.data_of))

  unfoldable pub restore : Kv → Bytes → ℕ → Kv × Outcome (Unit {0})
  restore kv bytes index = elim (snapshots.decode bytes) [
    | none ↦ (kv, err invalid_data)
    | some (applied, data_of) ↦
        (record { applied_index = max index applied; data_of = data_of }, ok tt)
  ]

  -- `impl State for Kv`
  abbrev pub kv_machine : StateMachine
  kv_machine = record {
    Machine = Kv;
    get_applied_index = λ kv. kv.applied_index;
    apply = apply;
    read = read;
    snapshot = snapshot;
    restore = restore;
  }
