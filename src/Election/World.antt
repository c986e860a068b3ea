-- ===== src/Election/World.antt =====
-- The nodes of a cluster together: each is a `Node` of src/raft/node.rs, and what they send is
-- carried as src/cluster/mod.rs and src/net/transport.rs carry it, with no promise of order or
-- delivery.
use raft_rust.Base.{
  ℕ, ◌≡◌, refl, subst, Bool, true, false, List, [], ◌++◌, ok, ◌==◌, if◌then◌else◌, arith,
}
use mathlib.Core.List.{Memᴰ}
use raft_rust.NodeSet
use raft_rust.Membership.{MembershipEntry, has_quorum}
use raft_rust.Message.{Envelope}
use raft_rust.Log.Ops.{Log}
use raft_rust.Log.Crash.{Reopens}
use raft_rust.StateMachine.{StateMachine}
use raft_rust.Node.Types.{Node, RawNode, Leader, Options, candidate, follower, leader}
use raft_rust.Node.LeaderStep.{Services}
use raft_rust.Node.Drive.{log_of, start, step, tick}
use raft_rust.Node.Steps.{IsSane}
use raft_rust.Election.Ballots.{grants}
use raft_rust.Election.Backing.{active_of}

module _ {S : Type 0} where
  abbrev pub tx_of : Node S → List Envelope
  tx_of (candidate n) = n.tx
  tx_of (follower n) = n.tx
  tx_of (leader n) = n.tx

-- Every number has its node; `wire` has what was handed to the network.
pub record World (S : Type 0) : Type 0 where
  pub node : ℕ → Node S
  pub wire : List Envelope

abbrev pub put : {S : Type 0} → World S → ℕ → Node S → World S
put w i r = record w { node = λ j. if j == i then r else w.node j }

pub put-all :
    {S : Type 0} (w : World S) (i : ℕ) (r : Node S) (P : ℕ → Node S → Type 0)
    → P i r
    → ((j : ℕ) → P j (w.node j))
    → (j : ℕ) → P j ((put w i r).node j)
put-all w i r P changed rest j = go (j == i) refl
  where
    go : (b : Bool) → (j == i) ≡ b → P j (if b then r else w.node j)
    go true e = let same : i ≡ j = ground arith in subst (λ x. P x r) same changed
    go false e = rest j

module _ (sm : StateMachine) (services : Services) where
  open sm use {Machine}

  -- A node's tick; a message that reaches it, which is on the wire if it is a vote; the network
  -- taking what a node has sent; and a node that starts again on what its log leaves behind. A start
  -- gives a leader where the configuration has one voter, whoever that is; it is a move only where
  -- the node that starts is a quorum of `m` alone.
  pub data Move (m : MembershipEntry) (w : World Machine) : World Machine → Type 0 where
    ticks : (i : ℕ) {r : Node Machine} → tick sm services (w.node i) ≡ ok r → Move m w (put w i r)
    receives :
        (i : ℕ) (msg : Envelope) {r : Node Machine}
        → (grants msg.message ≡ true → Memᴰ msg w.wire)
        → IsSane msg.term msg.message
        → step sm services (w.node i) msg ≡ ok r
        → Move m w (put w i r)
    transmits : (i : ℕ) → Move m w (record w { wire = tx_of (w.node i) ++ w.wire })
    restarts :
        (i : ℕ) (peers : List ℕ) (log : Log) (state : Machine) (opts : Options) (draws : List ℕ)
        {r : Node Machine}
        → Reopens (log_of (w.node i)) log
        → start sm services i peers log state opts draws ≡ ok r
        → ((l : RawNode Machine Leader) → r ≡ leader l → has_quorum m (NodeSet.insert i []) ≡ true)
        → Move m w (put w i r)

  -- The configuration that every node has in force.
  abbrev pub Agrees : MembershipEntry → World Machine → Type 0
  Agrees m w = (i : ℕ) → active_of (w.node i) ≡ m

  -- The moves between two worlds, all under the configuration `m`.
  pub data History (m : MembershipEntry) (w : World Machine) : World Machine → Type 0 where
    begins : History m w w
    moves : {a b : World Machine} → History m w a → Agrees m a → Move m a b → History m w b
