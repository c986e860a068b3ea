-- ===== src/Cluster/Client.antt =====
-- The client of a cluster: `Client` and `wait_for_leader` of cluster/mod.rs under src/.
use raft_rust.Base.{
  ℕ, zero, suc, Option, none, some, List, [], ◌∷◌, if◌then◌else◌, Error, abort, invalid_data,
  invalid_input, io,
}
use raft_rust.NodeSet
use raft_rust.NodeSet.{NodeSet, contains}
use raft_rust.Message.{Request, Response, Status, Reply, done, failed}
use raft_rust.Log.Entry.{Bytes}
use raft_rust.Kv as Kv
use raft_rust.Kv.{Command, KvCodecs}

-- What comes of one call on a node's channels: the request cannot be sent, nothing comes back in
-- time, or a reply.
pub data Heard : Type 0 where
  closed : Heard
  timed_out : Heard
  replied : Reply → Heard

-- `Result<T>` of a call of the client.
pub data Answer (A : Type 0) : Type 0 where
  success : A → Answer A
  failure : Error → Answer A

-- The sender of a node's channel stands in `Calls`, so the map is the set of its keys.
pub record Client : Type 0 where
  pub request_txs : NodeSet
  pub preferred : ℕ
  pub attempts : ℕ

-- `Client::new`
unfoldable pub new : NodeSet → ℕ → Client
new txs preferred = record { request_txs = txs; preferred = preferred; attempts = 40 }

unfoldable pub register_node : Client → ℕ → Client
register_node c id = record c { request_txs = NodeSet.insert id c.request_txs }

unfoldable pub unregister_node : Client → ℕ → Client
unregister_node c id = record c { request_txs = NodeSet.remove id c.request_txs }

unfoldable pub preferred_hint : Client → ℕ → Client
preferred_hint c id = record c { preferred = id }

-- The nodes in ascending order, the preferred one first if it is there.
unfoldable pub order_of : NodeSet → ℕ → List ℕ
order_of txs preferred =
    if contains txs preferred then preferred ∷ NodeSet.remove preferred txs else txs

-- The rest of the program, in any state of it: what comes of a call of a node, and a sleep.
pub record Calls : Type 1 where
  pub World : Type 0
  pub ask : World → ℕ → Request → Heard × World
  pub sleep : World → World

-- What the loop goes on with after a call: it returns, or goes on with a last error.
pub data Turn : Type 0 where
  returns : Answer Response → Turn
  goes_on : Error → Turn

-- The `match` on what comes back; a closed channel leaves the last error.
unfoldable pub turn_of : Error → Heard → Turn
turn_of last closed = goes_on last
turn_of last timed_out = goes_on io
turn_of last (replied (done response)) = returns (success response)
turn_of last (replied (failed abort)) = goes_on abort
turn_of last (replied (failed invalid_data)) = returns (failure invalid_data)
turn_of last (replied (failed invalid_input)) = returns (failure invalid_input)
turn_of last (replied (failed io)) = returns (failure io)

-- `self.preferred = node_id` on a success
unfoldable pub settle : Client → ℕ → Answer Response → Client
settle c id (success response) = record c { preferred = id }
settle c id (failure e) = c

module _ (calls : Calls) where
  open calls use {World, ask, sleep}

  -- How the loop over the nodes ends: with an answer of a node, or with the last error.
  pub data Round : Type 0 where
    returned : ℕ → Answer Response → World → Round
    exhausted : Error → World → Round

  -- `for &node_id in &order { ... }`
  unfoldable pub round : List ℕ → Request → Error → World → Round
  unfolding turn_of
  round [] request last w = exhausted last w
  round (id ∷ order) request last w =
      let heard = ask w id request in
      elim (turn_of last heard.0) [
        | returns answer ↦ returned id answer heard.1
        | goes_on e ↦ round order request e heard.1
      ]

  -- `for _ in 0..self.attempts { ... }`
  unfoldable pub rounds : ℕ → List ℕ → Request → Error → World → Round
  unfolding round
  rounds zero order request last w = exhausted last w
  rounds (suc n) order request last w = elim (round order request last w) [
    | returned id answer w' ↦ returned id answer w'
    | exhausted e w' ↦ rounds n order request e (sleep w')
  ]

  -- `Client::request`
  unfoldable pub request : Client → Request → World → Answer Response × Client × World
  unfolding rounds order_of settle
  request c r w = elim (rounds c.attempts (order_of c.request_txs c.preferred) r abort w) [
    | returned id answer w' ↦ (answer, settle c id answer, w')
    | exhausted e w' ↦ (failure e, c, w')
  ]

  -- The loop of `request_on`, where a closed channel ends it.
  unfoldable pub tries : ℕ → ℕ → Request → Error → World → Answer Response × World
  unfolding turn_of
  tries zero id r last w = (failure last, w)
  tries (suc n) id r last w =
      let heard = ask w id r in
      elim heard.0 [
        | closed ↦ (failure io, heard.1)
        | timed_out ↦ tries n id r io (sleep heard.1)
        | replied reply ↦ elim (turn_of last (replied reply)) [
          | returns answer ↦ (answer, heard.1)
          | goes_on e ↦ tries n id r e (sleep heard.1)
        ]
      ]

  -- `Client::request_on`
  unfoldable pub request_on : Client → ℕ → Request → World → Answer Response × Client × World
  unfolding tries settle
  request_on c id r w =
      if contains c.request_txs id
      then (let result = tries c.attempts id r abort w in
          (result.0, settle c id result.0, result.1))
      else (failure io, c, w)

  -- What the callers make of the response.
  unfoldable pub then_read :
      {A : Type 0}
      → (Response → Answer A)
      → Answer Response × Client × World
      → Answer A × Client × World
  then_read f (success response, c, w) = (f response, c, w)
  then_read f (failure e, c, w) = (failure e, c, w)

  -- The `Status` of a response
  abbrev pub status_of : Response → Answer Status
  status_of (Response.status s) = success s
  status_of _ = failure invalid_data

  abbrev pub index_of : Response → Answer ℕ
  index_of (Response.change_membership index) = success index
  index_of _ = failure invalid_data

  unfoldable pub status : Client → World → Answer Status × Client × World
  unfolding request then_read
  status c w = then_read status_of (request c Request.status w)

  unfoldable pub status_on : Client → ℕ → World → Answer Status × Client × World
  unfolding request_on then_read
  status_on c id w = then_read status_of (request_on c id Request.status w)

  unfoldable pub change_membership : Client → NodeSet → World → Answer ℕ × Client × World
  unfolding request then_read
  change_membership c voters w = then_read index_of (request c (Request.change_membership voters) w)

  -- The loop of `wait_for_leader`
  unfoldable pub wait_rounds : ℕ → Client → World → Answer Status × Client × World
  unfolding status
  wait_rounds zero c w = (failure abort, c, w)
  wait_rounds (suc n) c w =
      let asked = status c w in
      elim asked.0 [
        | success s ↦ asked
        | failure e ↦ elim e [
          | abort ↦ wait_rounds n asked.1 (sleep asked.2)
          | invalid_data ↦ asked
          | invalid_input ↦ asked
          | io ↦ asked
        ]
      ]

  unfoldable pub wait_for_leader : Client → World → Answer Status × Client × World
  unfolding wait_rounds
  wait_for_leader c w = wait_rounds 100 c w

  module _ (codecs : KvCodecs) where
    open codecs use {commands, responses}

    abbrev pub put_index : Response → Answer ℕ
    put_index (Response.write bytes) = elim (responses.decode bytes) [
      | none ↦ failure invalid_data
      | some (Kv.Response.put index) ↦ success index
      | some _ ↦ failure invalid_data
    ]
    put_index _ = failure invalid_data

    abbrev pub got_value : Response → Answer (Option Bytes)
    got_value (Response.read bytes) = elim (responses.decode bytes) [
      | none ↦ failure invalid_data
      | some (Kv.Response.get value) ↦ success value
      | some _ ↦ failure invalid_data
    ]
    got_value _ = failure invalid_data

    abbrev pub scanned : Response → Answer (List (Bytes × Bytes))
    scanned (Response.read bytes) = elim (responses.decode bytes) [
      | none ↦ failure invalid_data
      | some (Kv.Response.scan entries) ↦ success entries
      | some _ ↦ failure invalid_data
    ]
    scanned _ = failure invalid_data

    unfoldable pub put : Client → Bytes → Bytes → World → Answer ℕ × Client × World
    unfolding request then_read
    put c key value w =
        then_read put_index (request c (Request.write (commands.encode (Command.put key value))) w)

    unfoldable pub put_on : Client → ℕ → Bytes → Bytes → World → Answer ℕ × Client × World
    unfolding request_on then_read
    put_on c id key value w =
        then_read put_index
          (request_on c id (Request.write (commands.encode (Command.put key value))) w)

    unfoldable pub get : Client → Bytes → World → Answer (Option Bytes) × Client × World
    unfolding request then_read
    get c key w =
        then_read got_value (request c (Request.read (commands.encode (Command.get key))) w)

    unfoldable pub scan : Client → World → Answer (List (Bytes × Bytes)) × Client × World
    unfolding request then_read
    scan c w = then_read scanned (request c (Request.read (commands.encode Command.scan)) w)
