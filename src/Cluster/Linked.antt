-- ===== src/Cluster/Linked.antt =====
-- Which nodes the client and the transport know, by the calls of `Cluster` of cluster/mod.rs under src/.
use raft_rust.Base.{
  ℕ, ◌≡◌, refl, sym, ap, ◌∙◌, subst, inl, inr, Bool, true, false, none, some, List, [], ◌∷◌,
  Outcome, ok, ◌>>=◌, >>=-eq-ok, arith, Bool-cases, Option-cases,
}
use raft_rust.KeyMap
use raft_rust.KeyMap.{get-insert_same, get-insert_other, get-remove_same, get-remove_other}
use raft_rust.KeyMap.Order.{number_keys}
use raft_rust.NodeSet
use raft_rust.NodeSet.{NodeSet, contains}
use raft_rust.StateMachine.{StateMachine}
use raft_rust.Node.Types.{Options}
use raft_rust.Node.Drive as Drive
use raft_rust.Log.Ops as Log
use raft_rust.Log.Table.{empty}
use raft_rust.Node.LeaderStep.{Services}
use raft_rust.Cluster.Transport as Transport
use raft_rust.Cluster.Transport.{Rates, Transport, is_online}
use raft_rust.Cluster.Client as Client
use raft_rust.Cluster.Client.{register_node, unregister_node}
use raft_rust.Cluster.Threads.{Loop}
use raft_rust.Cluster.Group as Group
use raft_rust.Cluster.Group.{
  Cluster, spawn_node, spawn_all, spawn_with_options, first_or_one, is_running, stop, start,
  set_members,
}
use raft_rust.Cluster.Links.{found, IsLinked, added_IsLinked, removed_IsLinked}

module _ (sm : StateMachine) (services : Services) (rates : Rates) where
  open sm use {Machine}
  open rates use {Rate}

  spawn_node-transport :
      (id : ℕ) (members : NodeSet) (opts : Options) (t : Transport rates) (machine : Machine)
      (draws : List ℕ) {p : Loop Machine × Transport rates}
      → spawn_node sm services rates id members opts t machine draws ≡ ok p
      → p.1 ≡ Transport.register rates t id
  unfolding spawn_node
  spawn_node-transport id members opts t machine draws h =
      let (log, a, h1) = >>=-eq-ok (Log.new empty) _ h in
      let (node, b, h2) =
        >>=-eq-ok (Drive.start sm services id (NodeSet.remove id members) log machine opts draws) _
          h1 in
      ground arith

  spawn_all-IsLinked :
      (ids : List ℕ) (members : NodeSet) (opts : Options) (machine : Machine) (draws : List ℕ)
      (t : Transport rates) (txs : NodeSet) (nodes : List (ℕ × Loop Machine))
      {p : Transport rates × NodeSet × List (ℕ × Loop Machine)}
      → IsLinked sm services rates nodes txs t
      → spawn_all sm services rates ids members opts machine draws t txs nodes ≡ ok p
      → IsLinked sm services rates p.2 p.1 p.0
  unfolding spawn_all
  spawn_all-IsLinked [] members opts machine draws t txs nodes {p} linked h =
      let is : (t, txs, nodes) ≡ p = ground arith in
      subst
        (λ (q : Transport rates × NodeSet × List (ℕ × Loop Machine)).
          IsLinked sm services rates q.2 q.1 q.0)
        is linked
  spawn_all-IsLinked (id ∷ ids) members opts machine draws t txs nodes linked h =
      let (q, a, rest) =
        >>=-eq-ok (spawn_node sm services rates id members opts t machine draws) _ h in
      let grown = added_IsLinked sm services rates id q.0 nodes txs t linked in
      spawn_all-IsLinked ids members opts machine draws q.1 (NodeSet.insert id txs)
        (KeyMap.insert id q.0 nodes)
        (subst (IsLinked sm services rates (KeyMap.insert id q.0 nodes) (NodeSet.insert id txs))
          (sym (spawn_node-transport id members opts t machine draws a)) grown)
        rest

  -- What the callers do to a running cluster
  pub data Change : Type 0 where
    starts : (id : ℕ) (machine : Machine) (draws : List ℕ) → Change
    stops : (id : ℕ) → Change
    renames : (members : NodeSet) → Change
    partitions : (a b : ℕ) → Change
    splits : (left right : List ℕ) → Change
    heals_all : Change
    drops : (rate : Rate) → Change
    reorders : (on : Bool) → Change

  unfoldable pub changes :
      List Change → Cluster sm services rates → Outcome (Cluster sm services rates)
  changes [] c = ok c
  changes (starts id machine draws ∷ l) c = do
    c' ← start sm services rates c id machine draws
    changes l c'
  changes (stops id ∷ l) c = changes l (stop sm services rates c id)
  changes (renames members ∷ l) c = changes l (set_members sm services rates c members)
  changes (partitions a b ∷ l) c = changes l (Group.partition sm services rates c a b)
  changes (splits left right ∷ l) c =
      changes l (Group.partition_groups sm services rates c left right)
  changes (heals_all ∷ l) c = changes l (Group.heal_all sm services rates c)
  changes (drops rate ∷ l) c = changes l (Group.set_drop_rate sm services rates c rate)
  changes (reorders on ∷ l) c = changes l (Group.set_reorder sm services rates c on)

  abbrev pub Linked : Cluster sm services rates → Type 0
  Linked c = IsLinked sm services rates c.nodes c.client.request_txs c.transport

  -- Only who is on line matters.
  same_online_Linked :
      (c : Cluster sm services rates) (t : Transport rates)
      → t.online ≡ c.transport.online
      → Linked c
      → Linked (record c { transport = t })
  unfolding is_online
  same_online_Linked c t same linked = record {
    registered = linked.registered;
    reached = λ j run.
        ap (λ online. elim (KeyMap.get j online) [ none ↦ false | some b ↦ b ]) same
        ∙ linked.reached j run;
  }

  online-set_reorder :
      (t : Transport rates) (on : Bool) → (Transport.set_reorder rates t on).online ≡ t.online
  unfolding Transport.set_reorder Transport.release
  online-set_reorder t true = refl
  online-set_reorder t false = refl

  start-Linked :
      (c : Cluster sm services rates) (id : ℕ) (machine : Machine) (draws : List ℕ)
      {c' : Cluster sm services rates}
      → Linked c
      → start sm services rates c id machine draws ≡ ok c'
      → Linked c'
  unfolding start register_node
  start-Linked c id machine draws {c'} linked h =
      elim (Bool-cases (is_running sm services rates c id)) [
        | inl running ↦ let is : c ≡ c' = ground arith in subst Linked is linked
        | inr down ↦
            let (q, a, same) =
              >>=-eq-ok
                (spawn_node sm services rates id (NodeSet.insert id c.members) c.opts c.transport
                  machine draws)
                _ (rw down at h) in
            let is : record c {
              members = NodeSet.insert id c.members;
              transport = q.1;
              client = register_node c.client id;
              nodes = KeyMap.insert id q.0 c.nodes;
            }
                ≡ c' =
              ground arith in
            subst Linked is (
              subst
                (IsLinked sm services rates (KeyMap.insert id q.0 c.nodes)
                  (NodeSet.insert id c.client.request_txs))
                (sym (
                  spawn_node-transport id (NodeSet.insert id c.members) c.opts c.transport machine
                    draws a))
                (added_IsLinked sm services rates id q.0 c.nodes c.client.request_txs c.transport
                  linked))
      ]

  stop-Linked :
      (c : Cluster sm services rates) (id : ℕ) → Linked c → Linked (stop sm services rates c id)
  unfolding stop unregister_node
  stop-Linked c id linked = elim (Option-cases (KeyMap.get id c.nodes)) [
    | inl unknown ↦ rw (stop, unknown) linked
    | inr (control, known) ↦
        rw (stop, known)
          (removed_IsLinked sm services rates id c.nodes c.client.request_txs c.transport linked)
  ]

  changes-Linked :
      (l : List Change) (c : Cluster sm services rates) {c' : Cluster sm services rates}
      → Linked c
      → changes l c ≡ ok c'
      → Linked c'
  unfolding changes
  changes-Linked [] c {c'} linked h = let is : c ≡ c' = ground arith in subst Linked is linked
  changes-Linked (starts id machine draws ∷ l) c linked h =
      let (c', a, rest) = >>=-eq-ok (start sm services rates c id machine draws) _ h in
      changes-Linked l c' (start-Linked c id machine draws linked a) rest
  changes-Linked (stops id ∷ l) c linked h =
      changes-Linked l (stop sm services rates c id) (stop-Linked c id linked) h
  changes-Linked (renames members ∷ l) c linked h =
      changes-Linked l (set_members sm services rates c members) (unfold set_members in linked) h
  changes-Linked (partitions a b ∷ l) c linked h =
      changes-Linked l (Group.partition sm services rates c a b)
        (unfold Group.partition in
          same_online_Linked c (Transport.partition rates c.transport a b)
            (unfold Transport.partition in refl) linked)
        h
  changes-Linked (splits left right ∷ l) c linked h =
      changes-Linked l (Group.partition_groups sm services rates c left right)
        (unfold Group.partition_groups in
          same_online_Linked c (Transport.partition_groups rates c.transport left right)
            (unfold Transport.partition_groups in refl) linked)
        h
  changes-Linked (heals_all ∷ l) c linked h =
      changes-Linked l (Group.heal_all sm services rates c)
        (unfold Group.heal_all in
          same_online_Linked c (Transport.heal_all rates c.transport)
            (unfold Transport.heal_all Transport.release in refl) linked)
        h
  changes-Linked (drops rate ∷ l) c linked h =
      changes-Linked l (Group.set_drop_rate sm services rates c rate)
        (unfold Group.set_drop_rate in
          same_online_Linked c (Transport.set_drop_rate rates c.transport rate)
            (unfold Transport.set_drop_rate in refl) linked)
        h
  changes-Linked (reorders on ∷ l) c linked h =
      changes-Linked l (Group.set_reorder sm services rates c on)
        (unfold Group.set_reorder in
          same_online_Linked c (Transport.set_reorder rates c.transport on)
            (online-set_reorder c.transport on) linked)
        h

  running_lem :
      (c : Cluster sm services rates) (j : ℕ)
      → is_running sm services rates c j ≡ found (KeyMap.get j c.nodes)
  unfolding is_running
  running_lem c j = elim (Option-cases (KeyMap.get j c.nodes)) [
    | inl missing ↦ rw (is_running, missing) refl
    | inr (control, there) ↦ rw (is_running, there) refl
  ]

  -- From the spawn of a cluster on, through any calls of it, starts, stops, faults and changes of the
  -- list of members, as far as these go and not the threads, which may end and take a node off
  -- line, the client has a channel to exactly the nodes that run, and each of those is on line.
  pub spawned-Linked :
      (ids : List ℕ) (opts : Options) (machine : Machine) (draws : List ℕ) (l : List Change)
      {c c' : Cluster sm services rates}
      → spawn_with_options sm services rates ids opts machine draws ≡ ok c
      → changes l c ≡ ok c'
      → (j : ℕ)
      → (contains c'.client.request_txs j ≡ is_running sm services rates c' j)
        × (is_running sm services rates c' j ≡ true → is_online rates c'.transport j ≡ true)
  unfolding spawn_with_options
  spawned-Linked ids opts machine draws l {c} {c'} h changed j =
      let members = NodeSet.extend [] ids in
      let (p, a, same) =
        >>=-eq-ok
          (spawn_all sm services rates ids members opts machine draws (Transport.new rates) [] []) _
          h in
      let none_yet : IsLinked sm services rates [] [] (Transport.new rates) = record {
        registered = λ x. unfold contains KeyMap.get in refl;
        reached = λ x run. absurd (unfold KeyMap.get in ground arith);
      } in
      let all =
        spawn_all-IsLinked ids members opts machine draws (Transport.new rates) [] [] none_yet a in
      let is : record {
        opts = opts;
        transport = p.0;
        nodes = p.2;
        members = members;
        client = Client.new p.1 (first_or_one ids);
      }
          ≡ c =
        ground arith in
      let begun : Linked c = subst Linked is (unfold Client.new in all) in
      let now = changes-Linked l c begun changed in
      let run = running_lem c' j in
      (now.registered j ∙ sym run, λ runs. now.reached j (sym run ∙ runs))
