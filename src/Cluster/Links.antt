-- ===== src/Cluster/Links.antt =====
-- A channel to each node that runs, and those on line: `Cluster` of cluster/mod.rs under src/.
use raft_rust.Base.{
  ℕ, ◌≡◌, refl, sym, ap, ◌∙◌, subst, inl, inr, Bool, true, false, ◌||◌, Option, none, some, List,
  ◌==◌, if◌then◌else◌, arith, Bool-cases,
}
use raft_rust.KeyMap
use raft_rust.KeyMap.{get-insert_same, get-insert_other, get-remove_same, get-remove_other}
use raft_rust.KeyMap.Order.{number_keys}
use raft_rust.NodeSet
use raft_rust.NodeSet.{NodeSet, contains}
use raft_rust.NodeSet.Order.{contains-insert, contains-remove}
use raft_rust.StateMachine.{StateMachine}
use raft_rust.Node.LeaderStep.{Services}
use raft_rust.Cluster.Transport as Transport
use raft_rust.Cluster.Transport.{Rates, Transport, is_online}
use raft_rust.Cluster.Threads.{Loop}

abbrev pub found : {A : Type 0} → Option A → Bool
found none = false
found (some a) = true

found-insert :
    {A : Type 0} (j id : ℕ) (a : A) (m : List (ℕ × A))
    → found (KeyMap.get j (KeyMap.insert id a m)) ≡ ((id == j) || found (KeyMap.get j m))
found-insert j id a m = elim (Bool-cases (j == id)) [
  | inl same ↦
      let met : id ≡ j = ground arith in
      let here : (id == j) ≡ true = ground arith in
      let known = ap found (get-insert_same id a m) in
      rw here (subst (λ x. found (KeyMap.get x (KeyMap.insert id a m)) ≡ true) met known)
  | inr other ↦
      let apart : (id == j) ≡ false = ground arith in
      rw apart (ap found (get-insert_other j id a m other))
]

found-remove :
    {A : Type 0} (j id : ℕ) (m : List (ℕ × A))
    → found (KeyMap.get j (KeyMap.remove id m))
      ≡ (if id == j then false else found (KeyMap.get j m))
found-remove j id m = elim (Bool-cases (j == id)) [
  | inl same ↦
      let met : id ≡ j = ground arith in
      let here : (id == j) ≡ true = ground arith in
      rw here (
        subst (λ x. found (KeyMap.get x (KeyMap.remove id m)) ≡ false) met
          (ap found (get-remove_same id m)))
  | inr other ↦
      let apart : (id == j) ≡ false = ground arith in
      rw apart (ap found (get-remove_other j id m other))
]

module _ (sm : StateMachine) (services : Services) (rates : Rates) where
  open sm use {Machine}

  -- The client has a channel to exactly the nodes that run, and those are on line.
  pub record IsLinked (nodes : List (ℕ × Loop Machine)) (txs : NodeSet) (t : Transport rates)
      : Type 0 where
    pub registered : (j : ℕ) → contains txs j ≡ found (KeyMap.get j nodes)
    pub reached : (j : ℕ) → found (KeyMap.get j nodes) ≡ true → is_online rates t j ≡ true

  online-insert_same :
      (t : Transport rates) (id : ℕ) (b : Bool)
      → is_online rates (record t { online = KeyMap.insert id b t.online }) id ≡ b
  unfolding is_online
  online-insert_same t id b = rw (is_online, get-insert_same id b t.online) refl

  online-insert_other :
      (t : Transport rates) (j id : ℕ) (b : Bool)
      → (j == id) ≡ false
      → is_online rates (record t { online = KeyMap.insert id b t.online }) j ≡ is_online rates t j
  unfolding is_online
  online-insert_other t j id b other = rw (is_online, get-insert_other j id b t.online other) refl

  pub added_IsLinked :
      (id : ℕ) (control : Loop Machine) (nodes : List (ℕ × Loop Machine)) (txs : NodeSet)
      (t : Transport rates)
      → IsLinked nodes txs t
      → IsLinked
          (KeyMap.insert id control nodes)
          (NodeSet.insert id txs)
          (Transport.register rates t id)
  unfolding Transport.register KeyMap.insert is_online
  added_IsLinked id control nodes txs t linked = record {
    registered = λ j.
        ground
          (arith, contains-insert id j txs, found-insert j id control nodes, linked.registered j);
    reached = λ j run. elim (Bool-cases (j == id)) [
      | inl same ↦
          let met : id ≡ j = ground arith in
          subst
            (λ x. is_online rates (record t { online = KeyMap.insert id true t.online }) x ≡ true)
            met (online-insert_same t id true)
      | inr other ↦
          let apart : (id == j) ≡ false = ground arith in
          let before : found (KeyMap.get j nodes) ≡ true =
            ground (arith, found-insert j id control nodes) in
          online-insert_other t j id true other ∙ linked.reached j before
    ];
  }

  pub removed_IsLinked :
      (id : ℕ) (nodes : List (ℕ × Loop Machine)) (txs : NodeSet) (t : Transport rates)
      → IsLinked nodes txs t
      → IsLinked
          (KeyMap.remove id nodes)
          (NodeSet.remove id txs)
          (Transport.set_online rates t id false)
  unfolding Transport.set_online KeyMap.remove is_online
  removed_IsLinked id nodes txs t linked = record {
    registered = λ j.
        contains-remove id j txs
        ∙ ap (λ b. if id == j then false else b) (linked.registered j)
        ∙ sym (found-remove j id nodes);
    reached = λ j run. elim (Bool-cases (j == id)) [
      | inl same ↦
          let here : (id == j) ≡ true = ground arith in
          let gone : found (KeyMap.get j (KeyMap.remove id nodes)) ≡ false =
            found-remove j id nodes ∙ rw here refl in
          absurd (ground arith)
      | inr other ↦
          let apart : (id == j) ≡ false = ground arith in
          let before : found (KeyMap.get j nodes) ≡ true =
            ground (arith, found-remove j id nodes) in
          online-insert_other t j id false other ∙ linked.reached j before
    ];
  }
