-- ===== src/Cluster/Group.antt =====
-- The cluster itself: `Cluster`, `spawn_node` and `test_options` of cluster/mod.rs under src/.
use raft_rust.Base.{
  ℕ, Bool, true, false, none, some, List, [], ◌∷◌, Outcome, ok, ◌>>=◌, if◌then◌else◌,
}
use raft_rust.KeyMap
use raft_rust.KeyMap.Order.{number_keys}
use raft_rust.NodeSet
use raft_rust.NodeSet.{NodeSet}
use raft_rust.Log.Ops as Log
use raft_rust.Log.Table.{empty}
use raft_rust.StateMachine.{StateMachine}
use raft_rust.Node.Types.{Options}
use raft_rust.Node.LeaderStep.{Services}
use raft_rust.Node.Drive as Drive
use raft_rust.Cluster.Transport as Transport
use raft_rust.Cluster.Transport.{Rates, Transport}
use raft_rust.Cluster.Client as Client
use raft_rust.Cluster.Client.{Client, register_node, unregister_node}
use raft_rust.Cluster.Threads.{Loop}

unfoldable pub test_options : Options
test_options = record {
  heartbeat_interval = 2;
  election_timeout_start = 5;
  election_timeout_end = 10;
  max_append_entries = 100;
  pre_vote = true;
  check_quorum = true;
  snapshot_threshold = 0;
}

-- `node_ids.first().copied().unwrap_or(1)`
unfoldable pub first_or_one : List ℕ → ℕ
first_or_one [] = 1
first_or_one (id ∷ ids) = id

module _ (sm : StateMachine) (services : Services) (rates : Rates) where
  open sm use {Machine}
  open rates use {Rate}

  -- A node's control stands for its thread here.
  pub record Cluster : Type 0 where
    pub opts : Options
    pub transport : Transport rates
    pub nodes : List (ℕ × Loop Machine)
    pub members : NodeSet
    pub client : Client

  -- A node on an empty log, with a new machine and its mailbox registered; `draws` are the random
  -- numbers that it will be given.
  unfoldable pub spawn_node :
      ℕ
      → NodeSet
      → Options
      → Transport rates
      → Machine
      → List ℕ
      → Outcome (Loop Machine × Transport rates)
  spawn_node id members opts transport machine draws = do
    log ← Log.new empty
    node ← Drive.start sm services id (NodeSet.remove id members) log machine opts draws
    ok (
      record { node = node; taken = 0; response_txs = []; answers = [] },
      Transport.register rates transport id,
    )

  -- `for &id in node_ids { ... }`
  unfoldable pub spawn_all :
      List ℕ
      → NodeSet
      → Options
      → Machine
      → List ℕ
      → Transport rates
      → NodeSet
      → List (ℕ × Loop Machine)
      → Outcome (Transport rates × NodeSet × List (ℕ × Loop Machine))
  unfolding spawn_node
  spawn_all [] members opts machine draws t txs nodes = ok (t, txs, nodes)
  spawn_all (id ∷ ids) members opts machine draws t txs nodes = do
    (control, t') ← spawn_node id members opts t machine draws
    spawn_all ids members opts machine draws t' (NodeSet.insert id txs)
        (KeyMap.insert id control nodes)

  unfoldable pub spawn_with_options : List ℕ → Options → Machine → List ℕ → Outcome Cluster
  unfolding spawn_all first_or_one
  spawn_with_options node_ids opts machine draws =
      let members = NodeSet.extend [] node_ids in
      do
        (t, txs, nodes) ← spawn_all node_ids members opts machine draws (Transport.new rates) [] []
        ok (record {
          opts = opts;
          transport = t;
          nodes = nodes;
          members = members;
          client = Client.new txs (first_or_one node_ids);
        })

  unfoldable pub spawn : List ℕ → Machine → List ℕ → Outcome Cluster
  unfolding spawn_with_options test_options
  spawn node_ids machine draws = spawn_with_options node_ids test_options machine draws

  unfoldable pub is_running : Cluster → ℕ → Bool
  is_running c id = elim (KeyMap.get id c.nodes) [ none ↦ false | some control ↦ true ]

  unfoldable pub stop : Cluster → ℕ → Cluster
  stop c id = elim (KeyMap.get id c.nodes) [
    | none ↦ c
    | some control ↦ record c {
      nodes = KeyMap.remove id c.nodes;
      client = unregister_node c.client id;
      transport = Transport.set_online rates c.transport id false;
    }
  ]

  unfoldable pub start : Cluster → ℕ → Machine → List ℕ → Outcome Cluster
  unfolding is_running spawn_node
  start c id machine draws = if is_running c id then ok c else (do
    let members = NodeSet.insert id c.members
    (control, t) ← spawn_node id members c.opts c.transport machine draws
    ok (record c {
      members = members;
      transport = t;
      client = register_node c.client id;
      nodes = KeyMap.insert id control c.nodes;
    }))

  unfoldable pub set_members : Cluster → NodeSet → Cluster
  set_members c members = record c { members = members }

  unfoldable pub partition : Cluster → ℕ → ℕ → Cluster
  partition c a b = record c { transport = Transport.partition rates c.transport a b }

  unfoldable pub partition_groups : Cluster → List ℕ → List ℕ → Cluster
  partition_groups c left right = record c {
    transport = Transport.partition_groups rates c.transport left right;
  }

  unfoldable pub heal_all : Cluster → Cluster
  heal_all c = record c { transport = Transport.heal_all rates c.transport }

  unfoldable pub set_drop_rate : Cluster → Rate → Cluster
  set_drop_rate c rate = record c { transport = Transport.set_drop_rate rates c.transport rate }

  unfoldable pub set_reorder : Cluster → Bool → Cluster
  set_reorder c on = record c { transport = Transport.set_reorder rates c.transport on }
