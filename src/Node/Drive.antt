-- ===== src/Node/Drive.antt =====
-- The node as its driver sees it: `impl Node` of src/raft/node.rs.
use raft_rust.Base.{ℕ, Bool, List, Outcome, ok, ◌>>=◌, ◌>>◌, assert, ◌==◌, if◌then◌else◌, false}
use raft_rust.NodeSet.{NodeSet}
use raft_rust.Membership.{all_voters}
use raft_rust.Message.{Envelope}
use raft_rust.Log.Ops.{Log}
use raft_rust.StateMachine.{StateMachine}
use raft_rust.Node.Types.{Node, Options, candidate, follower, leader}
use raft_rust.Node.Common.{is_known_sender, cluster_size}
use raft_rust.Node.Campaign.{candidate_tick}
use raft_rust.Node.Receive as Receive
use raft_rust.Node.Receive.{follower_step, follower_tick, into_candidate}
use raft_rust.Node.Elect.{candidate_step, into_leader}
use raft_rust.Node.Lead.{leader_tick}
use raft_rust.Node.LeaderStep.{Services, leader_step}

module _ {S : Type 0} where
  abbrev pub node_id : Node S → ℕ
  node_id (candidate n) = n.id
  node_id (follower n) = n.id
  node_id (leader n) = n.id

  abbrev pub log_of : Node S → Log
  log_of (candidate n) = n.log
  log_of (follower n) = n.log
  log_of (leader n) = n.log

  abbrev pub term : Node S → ℕ
  term n = (log_of n).term

  abbrev pub voters : Node S → NodeSet
  voters (candidate n) = all_voters n.membership.active
  voters (follower n) = all_voters n.membership.active
  voters (leader n) = all_voters n.membership.active

  unfoldable pub knows : Node S → ℕ → Bool
  knows (candidate n) from = is_known_sender n from
  knows (follower n) from = is_known_sender n from
  knows (leader n) from = is_known_sender n from

module _ (sm : StateMachine) (services : Services) where
  open sm use {Machine}

  -- A node alone in its cluster leads from the start.
  unfoldable pub start : ℕ → List ℕ → Log → Machine → Options → List ℕ → Outcome (Node Machine)
  start id peers log state opts draws = do
    n ← Receive.new sm id peers log state opts draws
    if cluster_size n == 1
        then (do c ← into_candidate sm n false; l ← into_leader sm c; ok (leader l))
        else ok (follower n)

  unfoldable pub step_role : Node Machine → Envelope → Outcome (Node Machine)
  step_role (candidate n) msg = candidate_step sm n msg
  step_role (follower n) msg = do n' ← follower_step sm n msg; ok (follower n')
  step_role (leader n) msg = leader_step sm services n msg

  unfoldable pub step : Node Machine → Envelope → Outcome (Node Machine)
  unfolding step_role knows
  step n msg = do assert (msg.to == node_id n); if knows n msg.from then step_role n msg else ok n

  unfoldable pub tick : Node Machine → Outcome (Node Machine)
  tick (candidate n) = do n' ← candidate_tick n; ok (candidate n')
  tick (follower n) = follower_tick sm n
  tick (leader n) = leader_tick n
