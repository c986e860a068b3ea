-- ===== src/Tests/Cluster.antt =====
-- The theorems on a cluster in one process, at two and three nodes.
use raft_rust.Base.{
  ℕ, ◌+◌, ◌≤◌, ◌≡◌, refl, inl, inr, ok, err, panic, true, List, [], ◌∷◌, ◌==◌, ltb, if◌then◌else◌,
  Outcome, arith, Bool-cases, u64_add, u64_limit,
}
use raft_rust.NodeSet as NodeSet
use raft_rust.NodeSet.{contains}
use raft_rust.KeyMap as KeyMap
use raft_rust.Message.{Envelope, Message, Request, Response, done, failed}
use raft_rust.Node.Types.{follower}
use raft_rust.Node.Drive as Drive
use raft_rust.Node.Common as Common
use raft_rust.Node.Receive as Receive
use raft_rust.Node.Follower as Follower
use raft_rust.Node.Campaign as Campaign
use raft_rust.Log.Ops as Ops
use raft_rust.Membership as Membership
use raft_rust.Cluster.Transport as Transport
use raft_rust.Cluster.Transport.{Rates, Transport}
use raft_rust.Cluster.Traffic.{
  Act, registers, delivers, takes, reorders, drops, partitions, acts, all_received, sent_to,
  none_joins,
}
use raft_rust.Cluster.Delivery.{tally}
use raft_rust.Cluster.Cuts.{split_apart}
use raft_rust.Cluster.Once.{at_most_once}
use raft_rust.Cluster.Client as Client
use raft_rust.Cluster.Client.{Client, Calls, Heard, closed, replied, Answer, success}
use raft_rust.Cluster.Requests.{request-IsHonest, IsHonest}
use raft_rust.Cluster.Served.{request_succeeds, OnlyAborts}
use raft_rust.Cluster.Threads.{
  Loop, Event, ticked, from_node, requested, Next, goes_on, breaks, run_node,
}
use raft_rust.Cluster.Loops.{run_node-Drives, Drives, place}
use raft_rust.Cluster.Callers.{run_node-account, account, asked}
use raft_rust.Cluster.Group as Group
use raft_rust.Cluster.Group.{Cluster}
use raft_rust.Cluster.Linked.{Change, starts, stops, changes, spawned-Linked}
use raft_rust.Tests.Nodes.{counter, options}
use raft_rust.Tests.Elections.{services}
use raft_rust.Tests.Votes.{idle}

abbrev percents : Rates
percents = record {
  Rate = ℕ;
  nought = 0;
  one = 100;
  less = ltb;
  clamp = λ rate low high. if ltb rate low then low else if ltb high rate then high else rate;
}

abbrev vote_request : Envelope
vote_request = record { from = 1; term = 1; to = 2; message = Message.campaign 0 0 }

abbrev exchange : List (Act percents)
exchange =
    registers 1
    ∷ registers 2
    ∷ reorders true
    ∷ delivers 50 vote_request
    ∷ delivers 50 vote_request
    ∷ takes 2
    ∷ []

at_most_once_example :
    tally (λ e. e.to == 2) (all_received percents 2 exchange (Transport.new percents))
    ≤ tally (λ e. e.to == 2) (sent_to percents 2 exchange)
at_most_once_example = at_most_once percents (λ e. e.to == 2) 2 exchange

abbrev two_nodes : Transport percents
two_nodes = acts percents (registers 1 ∷ registers 2 ∷ []) (Transport.new percents)

abbrev faults : List (Act percents)
faults = drops 30 ∷ partitions 1 2 ∷ []

split_apart_example :
    Transport.deliver percents
      (acts percents faults (Transport.partition_groups percents two_nodes (1 ∷ []) (2 ∷ [])))
      90
      vote_request
    ≡ acts percents faults (Transport.partition_groups percents two_nodes (1 ∷ []) (2 ∷ []))
split_apart_example =
    split_apart percents two_nodes (1 ∷ []) (2 ∷ []) faults 90 vote_request
      (unfold contains in refl) (unfold none_joins in refl)

-- Node 1 does not answer, and node 2 does.
abbrev half_up : Calls
half_up = record {
  World = ℕ;
  ask = λ w id r. (if id == 1 then closed else replied (done (Response.write [])), w + 1);
  sleep = λ w. w;
}

abbrev client : Client
client = Client.new (1 ∷ 2 ∷ []) 1

half_up-OnlyAborts : OnlyAborts half_up Request.status
half_up-OnlyAborts v j e came = elim (Bool-cases (j == 1)) [
  | inl down ↦ let wrong : closed ≡ replied (failed e) = rw down at came in absurd (ground arith)
  | inr up ↦
      let wrong : replied (done (Response.write [])) ≡ replied (failed e) = rw up at came in
      absurd (ground arith)
]

request_succeeds_example :
    (response : Response) × ((Client.request half_up client Request.status 0).0 ≡ success response)
    × (contains client.request_txs (Client.request half_up client Request.status 0).1.preferred
        ≡ true)
request_succeeds_example =
    request_succeeds half_up client 2 Request.status 0 {n = 39} (unfold Client.new in refl)
      (unfold contains Client.new in refl) (λ v. (Response.write [], refl)) half_up-OnlyAborts

request-IsHonest_example :
    IsHonest half_up client Request.status
      (Client.request half_up client Request.status 0).0
      (Client.request half_up client Request.status 0).1
request-IsHonest_example = request-IsHonest half_up client Request.status 0

-- The thread of a follower without a leader, which a caller asks for its status.
abbrev thread : Loop ℕ
thread = record { node = follower (idle 1); taken = 0; response_txs = []; answers = [] }

abbrev asked_once : List (ℕ × Event)
asked_once = (0, requested 7 Request.status 4) ∷ (0, from_node) ∷ []

abbrev loop_after : Outcome (Next ℕ × Transport percents) → Loop ℕ × Transport percents
loop_after (ok (goes_on l, t)) = (l, t)
loop_after (ok (breaks, t)) = (thread, t)
loop_after (err e) = (thread, two_nodes)
loop_after panic = (thread, two_nodes)

abbrev answered_thread : Loop ℕ × Transport percents
unfolding run_node
answered_thread = loop_after (run_node counter services percents asked_once thread two_nodes)

answered_run :
    run_node counter services percents asked_once thread two_nodes
    ≡ ok (goes_on answered_thread.0, answered_thread.1)
unfolding run_node Drive.step Common.is_known_sender Receive.follower_step Receive.dispatch
answered_run = refl

abbrev stands_and_asks : List (ℕ × Event)
stands_and_asks = (0, ticked) ∷ (0, from_node) ∷ (0, from_node) ∷ []

abbrev standing_thread : Loop ℕ × Transport percents
unfolding run_node
standing_thread = loop_after (run_node counter services percents stands_and_asks thread two_nodes)

standing_run :
    run_node counter services percents stands_and_asks thread two_nodes
    ≡ ok (goes_on standing_thread.0, standing_thread.1)
unfolding run_node Drive.tick Receive.follower_tick Common.tick_up Ops.scan_apply
    Follower.abort_forwarded Common.random_election_timeout Campaign.campaign u64_add u64_limit
    Ops.set_term_vote
standing_run = refl

run_node-Drives_example :
    Drives counter services percents stands_and_asks
      (place counter services percents thread two_nodes)
      (place counter services percents standing_thread.0 standing_thread.1)
run_node-Drives_example =
    run_node-Drives counter services percents stands_and_asks thread standing_thread.0 two_nodes
      standing_thread.1 standing_run

run_node-account_example :
    account (λ c. c == 4) answered_thread.0
    ≤ account (λ c. c == 4) thread + asked (λ c. c == 4) counter services percents asked_once
run_node-account_example =
    run_node-account (λ c. c == 4) counter services percents asked_once thread answered_thread.0
      two_nodes answered_thread.1 answered_run

abbrev some_cluster : Cluster counter services percents
some_cluster = record {
  opts = options;
  transport = two_nodes;
  nodes = [];
  members = [];
  client = client;
}

abbrev cluster_of : Outcome (Cluster counter services percents) → Cluster counter services percents
cluster_of (ok c) = c
cluster_of (err e) = some_cluster
cluster_of panic = some_cluster

abbrev pair : Cluster counter services percents
unfolding Group.spawn_with_options
pair = cluster_of (Group.spawn_with_options counter services percents (1 ∷ 2 ∷ []) options 0 [])

pair-spawned :
    Group.spawn_with_options counter services percents (1 ∷ 2 ∷ []) options 0 [] ≡ ok pair
unfolding Group.spawn_with_options Ops.new Drive.start Receive.new contains NodeSet.remove
    NodeSet.extend Common.random_election_timeout Ops.scan_apply Common.restore_membership_from_log
    Ops.latest_membership Common.cluster_size Membership.all_voters Membership.bootstrap
pair-spawned = refl

abbrev stop_and_start : List (Change counter services percents)
stop_and_start = stops 2 ∷ starts 3 0 [] ∷ []

abbrev other_pair : Cluster counter services percents
unfolding changes
other_pair = cluster_of (changes counter services percents stop_and_start pair)

other_pair-changes : changes counter services percents stop_and_start pair ≡ ok other_pair
unfolding pair changes Group.start KeyMap.get Group.stop Ops.new Drive.start Receive.new contains
    NodeSet.remove NodeSet.extend Common.random_election_timeout Ops.scan_apply
    Common.restore_membership_from_log Ops.latest_membership Common.cluster_size
    Membership.all_voters Membership.bootstrap KeyMap.insert KeyMap.remove
other_pair-changes = refl

spawned-Linked_example :
    (contains other_pair.client.request_txs 3
      ≡ Group.is_running counter services percents other_pair 3)
    × (Group.is_running counter services percents other_pair 3 ≡ true
        → Transport.is_online percents other_pair.transport 3 ≡ true)
spawned-Linked_example =
    spawned-Linked counter services percents (1 ∷ 2 ∷ []) options 0 [] stop_and_start pair-spawned
      other_pair-changes 3
