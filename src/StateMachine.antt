-- ===== src/StateMachine.antt =====
-- The interface of the replicated state machine: the trait `State` of src/raft/state.rs. A call
-- that changes the machine returns it beside its result, since a change stays when it fails.
use raft_rust.Base.{ℕ, Outcome}
use raft_rust.Log.Entry.{Entry, Bytes}

pub record StateMachine : Type 1 where
  pub Machine : Type 0
  pub get_applied_index : Machine → ℕ
  pub apply : Machine → Entry → Machine × Outcome Bytes
  pub read : Machine → Bytes → Outcome Bytes
  pub snapshot : Machine → Outcome Bytes
  pub restore : Machine → Bytes → ℕ → Machine × Outcome (Unit {0})
