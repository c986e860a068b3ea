-- ===== src/Node/Restarts.antt =====
-- The log of a node through its restarts: `Node::new`, `Node::step` and `Node::tick` of src/raft/node.rs.
use raft_rust.Base.{ℕ, ◌≡◌, false, List, ok}
use raft_rust.Message.{Envelope}
use raft_rust.Log.Ops.{Log}
use raft_rust.Log.Reach.{Reach, IsSound, Reach-IsSound, fresh, fresh-IsSound}
use raft_rust.Log.Crash.{
  IsDurable, Reach-IsDurable, Reopens, Reopens-IsKept, Life, Life-IsKept, fresh-IsDurable,
}
use raft_rust.Log.Synced.{IsSynced, Reach-IsSynced}
use raft_rust.Log.Restart.{Recovers, sound-Recovers, Reopens-IsSynced, Life-IsSynced}
use raft_rust.StateMachine.{StateMachine}
use raft_rust.Node.Types.{Node, Options}
use raft_rust.Node.LeaderStep.{Services}
use raft_rust.Node.Steps.{IsSane}
use raft_rust.Node.Drive.{log_of, start, step, tick}
use raft_rust.Node.Safety.{step-Advances, tick-Advances, start-Advances}

-- What a log keeps all the time.
record IsSafe (log : Log) : Type 0 where
  sound : IsSound log
  durable : IsDurable log
  synced : IsSynced log

Reach-IsSafe : {log log' : Log} → IsSafe log → Reach log log' → IsSafe log'
Reach-IsSafe s r = record {
  sound = Reach-IsSound s.sound r;
  durable = Reach-IsDurable s.sound s.durable r;
  synced = Reach-IsSynced s.sound s.synced r;
}

Life-IsSafe : {log : Log} → Life false fresh log → IsSafe log
Life-IsSafe l =
    let k = Life-IsKept fresh-IsSound fresh-IsDurable l in
    record { sound = k.sound; durable = k.durable; synced = Life-IsSynced l }

Reopens-IsSafe : {log log' : Log} → IsSafe log → Reopens log log' → IsSafe log'
Reopens-IsSafe s again =
    let k = Reopens-IsKept s.sound s.durable again in
    record {
      sound = k.sound;
      durable = k.durable;
      synced = Reopens-IsSynced s.sound s.synced again;
    }

module _ (sm : StateMachine) (services : Services) where
  open sm use {Machine}

  -- A node that starts on a log, goes through messages and ticks, and starts again, as any role and
  -- with any peers and options, on what its log leaves behind.
  pub data NodeLife : Node Machine → Type 0 where
    starts :
        (id : ℕ) (peers : List ℕ) (log : Log) (state : Machine) (opts : Options) (draws : List ℕ)
        {n : Node Machine}
        → Life false fresh log
        → start sm services id peers log state opts draws ≡ ok n
        → NodeLife n
    receives :
        {n m : Node Machine} (msg : Envelope)
        → NodeLife n
        → IsSane msg.term msg.message
        → step sm services n msg ≡ ok m
        → NodeLife m
    ticks : {n m : Node Machine} → NodeLife n → tick sm services n ≡ ok m → NodeLife m
    starts_again :
        {n : Node Machine} (id : ℕ) (peers : List ℕ) (log : Log) (state : Machine) (opts : Options)
        (draws : List ℕ) {m : Node Machine}
        → NodeLife n
        → Reopens (log_of n) log
        → start sm services id peers log state opts draws ≡ ok m
        → NodeLife m

  NodeLife-IsSafe : {n : Node Machine} → NodeLife n → IsSafe (log_of n)
  NodeLife-IsSafe (starts id peers log state opts draws made begun) =
      let s = Life-IsSafe made in
      Reach-IsSafe s (start-Advances sm services id peers log state opts draws begun s.sound)
  NodeLife-IsSafe (receives {n} msg l sane h) =
      let s = NodeLife-IsSafe l in Reach-IsSafe s (step-Advances sm services n msg sane h s.sound)
  NodeLife-IsSafe (ticks {n} l h) =
      let s = NodeLife-IsSafe l in Reach-IsSafe s (tick-Advances sm services n h s.sound)
  NodeLife-IsSafe (starts_again id peers log state opts draws l again begun) =
      let s = Reopens-IsSafe (NodeLife-IsSafe l) again in
      Reach-IsSafe s (start-Advances sm services id peers log state opts draws begun s.sound)

  -- A node that starts on a log that operations have made from an empty engine, without
  -- `enable_fsync`, and goes through any messages, ticks, restarts and crashes, where each message's
  -- snapshot, if any, covers an entry and is not of a later term than the message: its log is well
  -- formed; a start on all that was written gives the log back unchanged but for `fsync`, which is
  -- on; and a start on what was flushed gives a well-formed log with the same entries, term, vote,
  -- start and end, and the same commit index or an earlier one.
  pub node_restart : {n : Node Machine} → NodeLife n → Recovers (log_of n)
  node_restart {n} l = let s = NodeLife-IsSafe l in sound-Recovers (log_of n) s.sound s.synced
