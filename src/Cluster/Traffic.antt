-- ===== src/Cluster/Traffic.antt =====
-- The transport in use: calls of `Transport` of cluster/mod.rs under src/, in any order, and nodes
-- that take their messages.
use raft_rust.Base.{
  ℕ, Bool, true, false, ◌&&◌, ◌||◌, not, none, some, List, [], ◌∷◌, ◌++◌, ◌==◌, if◌then◌else◌,
}
use raft_rust.KeyMap
use raft_rust.KeyMap.Order.{number_keys}
use raft_rust.Message.{Envelope}
use raft_rust.Cluster.Transport.{
  Rates, Mailboxes, Transport, register, set_online, deliver, partition, partition_one_way,
  partition_groups, heal_pair, heal_all, set_drop_rate, set_reorder,
}

unfoldable pub inbox : Mailboxes → ℕ → List Envelope
inbox boxes id = elim (KeyMap.get id boxes) [ none ↦ [] | some queue ↦ queue ]

abbrev pub first_of : List Envelope → List Envelope
first_of [] = []
first_of (e ∷ queue) = e ∷ []

module _ (rates : Rates) where
  open rates use {Rate}

  -- A call of the transport, or the node `id` taking the first message of its mailbox.
  pub data Act : Type 0 where
    registers : (id : ℕ) → Act
    turns : (id : ℕ) (online : Bool) → Act
    delivers : (draw : Rate) (msg : Envelope) → Act
    partitions : (a b : ℕ) → Act
    cuts_off : (from to : ℕ) → Act
    splits : (left right : List ℕ) → Act
    heals : (a b : ℕ) → Act
    heals_all : Act
    drops : (rate : Rate) → Act
    reorders : (on : Bool) → Act
    takes : (id : ℕ) → Act

  unfoldable pub take_first : Transport rates → ℕ → Transport rates
  take_first t id = elim (inbox t.mailboxes id) [
    | [] ↦ t
    | e ∷ queue ↦ record t { mailboxes = KeyMap.insert id queue t.mailboxes }
  ]

  unfoldable pub act : Act → Transport rates → Transport rates
  unfolding take_first
  act (registers id) t = register rates t id
  act (turns id online) t = set_online rates t id online
  act (delivers draw msg) t = deliver rates t draw msg
  act (partitions a b) t = partition rates t a b
  act (cuts_off from to) t = partition_one_way rates t from to
  act (splits left right) t = partition_groups rates t left right
  act (heals a b) t = heal_pair rates t a b
  act heals_all t = heal_all rates t
  act (drops rate) t = set_drop_rate rates t rate
  act (reorders on) t = set_reorder rates t on
  act (takes id) t = take_first t id

  unfoldable pub acts : List Act → Transport rates → Transport rates
  unfolding act
  acts [] t = t
  acts (a ∷ l) t = acts l (act a t)

  -- What a node that takes a message receives.
  unfoldable pub received : ℕ → Act → Transport rates → List Envelope
  received id (takes other) t = if other == id then first_of (inbox t.mailboxes id) else []
  received id _ t = []

  unfoldable pub all_received : ℕ → List Act → Transport rates → List Envelope
  unfolding received act
  all_received id [] t = []
  all_received id (a ∷ l) t = received id a t ++ all_received id l (act a t)

  -- What was given to the transport for a node.
  unfoldable pub sent_to : ℕ → List Act → List Envelope
  sent_to id [] = []
  sent_to id (delivers draw msg ∷ l) =
      let rest = sent_to id l in if msg.to == id then msg ∷ rest else rest
  sent_to id (_ ∷ l) = sent_to id l

  -- The calls that may join `from` and `to` again.
  unfoldable pub may_join : ℕ → ℕ → Act → Bool
  may_join from to (heals a b) = a == from && b == to || a == to && b == from
  may_join from to heals_all = true
  may_join from to _ = false

  unfoldable pub none_joins : ℕ → ℕ → List Act → Bool
  unfolding may_join
  none_joins from to [] = true
  none_joins from to (a ∷ l) = not (may_join from to a) && none_joins from to l
