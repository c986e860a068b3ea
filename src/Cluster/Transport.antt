-- ===== src/Cluster/Transport.antt =====
-- The transport with its faults: `Transport` of cluster/mod.rs under src/.
use raft_rust.Base.{
  ℕ, Bool, true, false, ◌&&◌, ◌||◌, not, none, some, List, [], ◌∷◌, ◌++◌, ◌==◌, if◌then◌else◌,
}
use raft_rust.KeyMap
use raft_rust.KeyMap.Order.{number_keys}
use raft_rust.Message.{Envelope}

-- The rates `f64`, with what the transport does to them.
pub record Rates : Type 1 where
  pub Rate : Type 0
  pub nought : Rate
  pub one : Rate
  pub less : Rate → Rate → Bool
  pub clamp : Rate → Rate → Rate → Rate

-- `HashSet<(NodeID, NodeID)>`
unfoldable pub is_cut : List (ℕ × ℕ) → ℕ → ℕ → Bool
is_cut [] from to = false
is_cut ((a, b) ∷ cuts) from to = (a == from && b == to) || is_cut cuts from to

unfoldable pub cut : ℕ → ℕ → List (ℕ × ℕ) → List (ℕ × ℕ)
unfolding is_cut
cut a b cuts = if is_cut cuts a b then cuts else (a, b) ∷ cuts

unfoldable pub mend : ℕ → ℕ → List (ℕ × ℕ) → List (ℕ × ℕ)
mend a b [] = []
mend a b ((x, y) ∷ cuts) =
    let rest = mend a b cuts in if x == a && y == b then rest else (x, y) ∷ rest

-- `for &b in right { ... }` and, around it, `for &a in left { ... }`
unfoldable pub cut_one : ℕ → List ℕ → List (ℕ × ℕ) → List (ℕ × ℕ)
unfolding cut
cut_one a [] cuts = cuts
cut_one a (b ∷ right) cuts = cut_one a right (cut b a (cut a b cuts))

unfoldable pub cut_groups : List ℕ → List ℕ → List (ℕ × ℕ) → List (ℕ × ℕ)
unfolding cut_one
cut_groups [] right cuts = cuts
cut_groups (a ∷ left) right cuts = cut_groups left right (cut_one a right cuts)

-- A mailbox is what its channel holds; the channel has no bound. A send to a channel whose receiver
-- is gone is lost, as is what stays in a mailbox that nobody reads.
abbrev pub Mailboxes : Type 0
Mailboxes = List (ℕ × List Envelope)

-- `if let Some(tx) = mailboxes.get(&to) { let _ = tx.try_send(msg); }`
unfoldable pub post : ℕ → Envelope → Mailboxes → Mailboxes
post to msg boxes = elim (KeyMap.get to boxes) [
  | none ↦ boxes
  | some queue ↦ KeyMap.insert to (queue ++ msg ∷ []) boxes
]

-- `for (to, msg) in held { ... }`
unfoldable pub post_all : List (ℕ × Envelope) → Mailboxes → Mailboxes
unfolding post
post_all [] boxes = boxes
post_all ((to, msg) ∷ held) boxes = post_all held (post to msg boxes)

module _ (rates : Rates) where
  open rates use {Rate, nought, one, less, clamp}

  -- `TransportInner`
  pub record Transport : Type 0 where
    pub partitions : List (ℕ × ℕ)
    pub drop_rate : Rate
    pub reorder : Bool
    pub held : List (ℕ × Envelope)
    pub online : List (ℕ × Bool)
    pub mailboxes : Mailboxes

  -- `Transport::default()`
  unfoldable pub new : Transport
  new = record {
    partitions = [];
    drop_rate = nought;
    reorder = false;
    held = [];
    online = [];
    mailboxes = [];
  }

  -- The new channel is empty.
  unfoldable pub register : Transport → ℕ → Transport
  register t id = record t {
    mailboxes = KeyMap.insert id [] t.mailboxes;
    online = KeyMap.insert id true t.online;
  }

  unfoldable pub set_online : Transport → ℕ → Bool → Transport
  set_online t id online = record t {
    online = KeyMap.insert id online t.online;
    held = if online then t.held else KeyMap.remove id t.held;
  }

  unfoldable pub is_online : Transport → ℕ → Bool
  is_online t id = elim (KeyMap.get id t.online) [ none ↦ false | some online ↦ online ]

  -- From the test of `g.reorder` on.
  unfoldable pub pass : Transport → Envelope → Transport
  unfolding post
  pass t msg =
      if t.reorder
      then elim (KeyMap.get msg.to t.held) [
        | some prev ↦ record t {
          held = KeyMap.remove msg.to t.held;
          mailboxes = post msg.to prev (post msg.to msg t.mailboxes);
        }
        | none ↦ record t { held = KeyMap.insert msg.to msg t.held }
      ]
      else record t { mailboxes = post msg.to msg t.mailboxes }

  -- `draw` is the random number.
  unfoldable pub deliver : Transport → Rate → Envelope → Transport
  unfolding is_online pass is_cut
  deliver t draw msg =
      if not (is_online t msg.from)
      then t
      else if not (is_online t msg.to)
      then t
      else if is_cut t.partitions msg.from msg.to
      then t
      else if less nought t.drop_rate && less draw t.drop_rate
      then t
      else pass t msg

  unfoldable pub partition : Transport → ℕ → ℕ → Transport
  unfolding cut
  partition t a b = record t { partitions = cut b a (cut a b t.partitions) }

  unfoldable pub partition_one_way : Transport → ℕ → ℕ → Transport
  unfolding cut
  partition_one_way t from to = record t { partitions = cut from to t.partitions }

  unfoldable pub partition_groups : Transport → List ℕ → List ℕ → Transport
  unfolding cut_groups
  partition_groups t left right = record t { partitions = cut_groups left right t.partitions }

  unfoldable pub heal_pair : Transport → ℕ → ℕ → Transport
  unfolding mend
  heal_pair t a b = record t { partitions = mend b a (mend a b t.partitions) }

  -- `std::mem::take(&mut g.held)`, and what is done with it. No two of these messages go to one
  -- mailbox, so the order of the map does not matter.
  unfoldable pub release : Transport → Transport
  unfolding post_all
  release t = record t { held = []; mailboxes = post_all t.held t.mailboxes }

  unfoldable pub heal_all : Transport → Transport
  unfolding release
  heal_all t = release (record t { partitions = [] })

  unfoldable pub set_drop_rate : Transport → Rate → Transport
  set_drop_rate t rate = record t { drop_rate = clamp rate nought one }

  unfoldable pub set_reorder : Transport → Bool → Transport
  unfolding release
  set_reorder t on =
      let switched = record t { reorder = on } in if on then switched else release switched
