-- ===== src/Cluster/Threads.antt =====
-- The thread of a node: `run_node` of cluster/mod.rs under src/.
use raft_rust.Base.{
  ℕ, ◌+◌, false, none, some, List, [], ◌∷◌, ◌++◌, drop, ◌>>=◌, Outcome, ok, err, panic, ◌==◌,
  if◌then◌else◌,
}
use raft_rust.KeyMap
use raft_rust.KeyMap.Order.{number_keys}
use raft_rust.Message.{Envelope, Message, Request, Reply}
use raft_rust.StateMachine.{StateMachine}
use raft_rust.Node.Types.{Node}
use raft_rust.Node.LeaderStep.{Services}
use raft_rust.Node.Drive.{node_id, step, tick}
use raft_rust.Node.Drive as Drive
use raft_rust.Election.World.{tx_of}
use raft_rust.Cluster.Transport.{Rates, Transport, deliver, set_online}

-- What the loop keeps. `taken` is how many of the envelopes that the node has sent were taken out of
-- `node_rx`, and `answers` what was sent to the callers, each of which is a number.
pub record Loop (S : Type 0) : Type 0 where
  pub node : Node S
  pub taken : ℕ
  pub response_txs : List (ℕ × ℕ)
  pub answers : List (ℕ × Reply)

-- What `select!` finds: the end of one of its channels or the message to stop, a tick, a message of a peer, a message of the node, or a request with its
-- new id and its caller.
pub data Event : Type 0 where
  stopped : Event
  ticked : Event
  from_peer : Envelope → Event
  from_node : Event
  requested : (id : ℕ) (request : Request) (caller : ℕ) → Event

-- Goes on, or leaves the loop.
pub data Next (S : Type 0) : Type 0 where
  goes_on : Loop S → Next S
  breaks : Next S

module _ {S : Type 0} where
  -- `if let Message::ClientResponse { id, response } = msg.message { ... }`
  unfoldable pub hand_back : Loop S → Message → Loop S
  hand_back l (Message.client_response id reply) = elim (KeyMap.get id l.response_txs) [
    | none ↦ l
    | some caller ↦ record l {
      response_txs = KeyMap.remove id l.response_txs;
      answers = l.answers ++ (caller, reply) ∷ [];
    }
  ]
  hand_back l _ = l

module _ (sm : StateMachine) (services : Services) (rates : Rates) where
  open sm use {Machine}
  open rates use {Rate}

  -- `node = match call { Ok(n) => n, Err(_) => break }`
  unfoldable pub took : Loop Machine → Outcome (Node Machine) → Outcome (Next Machine)
  took l (ok n) = ok (goes_on (record l { node = n }))
  took l (err e) = ok breaks
  took l panic = panic

  -- The request as the node's message to itself
  abbrev pub as_message : Node Machine → ℕ → Request → Envelope
  as_message n id request = record {
    from = node_id n;
    to = node_id n;
    term = Drive.term n;
    message = Message.client_request id request;
  }

  -- What the node has sent that is still in `node_rx`
  abbrev pub outgoing : Loop Machine → List Envelope
  outgoing l = drop l.taken (tx_of l.node)

  -- The first message of `node_rx`; `draw` is the transport's random number.
  unfoldable pub sends :
      Loop Machine → Transport rates → Rate → List Envelope → Loop Machine × Transport rates
  unfolding hand_back
  sends l t draw [] = (l, t)
  sends l t draw (msg ∷ rest) =
      let next = record l { taken = l.taken + 1 } in
      if msg.to == node_id l.node
      then (hand_back next msg.message, t)
      else (next, deliver rates t draw msg)

  -- One turn of the loop. A turn that leaves it takes the node off line.
  unfoldable pub turn :
      Rate → Event → Loop Machine → Transport rates → Outcome (Next Machine × Transport rates)
  unfolding took sends
  turn draw stopped l t = ok (breaks, t)
  turn draw ticked l t = do n ← took l (tick sm services l.node); ok (n, t)
  turn draw (from_peer msg) l t = do n ← took l (step sm services l.node msg); ok (n, t)
  turn draw from_node l t = let sent = sends l t draw (outgoing l) in ok (goes_on sent.0, sent.1)
  turn draw (requested id request caller) l t = do
    n ←
        took (record l { response_txs = KeyMap.insert id caller l.response_txs })
          (step sm services l.node (as_message l.node id request))
    ok (n, t)

  -- `run_node` on the events that its `select!` finds, up to one that ends it.
  unfoldable pub run_node :
      List (Rate × Event)
      → Loop Machine
      → Transport rates
      → Outcome (Next Machine × Transport rates)
  unfolding turn
  run_node [] l t = ok (goes_on l, t)
  run_node ((draw, event) ∷ events) l t = do
    (next, t') ← turn draw event l t
    elim next [
      | goes_on l' ↦ run_node events l' t'
      | breaks ↦ ok (breaks, set_online rates t' (node_id l.node) false)
    ]
