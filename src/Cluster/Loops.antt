-- ===== src/Cluster/Loops.antt =====
-- What the thread of a node does to the node and to its callers: `run_node` of cluster/mod.rs under
-- src/.
use raft_rust.Base.{
  ℕ, ◌+◌, ◌≡◌, refl, sym, ap, ◌∙◌, subst, inl, inr, true, false, drop, List, [], ◌∷◌, Outcome, ok,
  err, panic, >>=-eq-ok, ◌==◌, arith, Bool-cases, Option-cases,
}
use raft_rust.KeyMap
use raft_rust.KeyMap.Order.{number_keys}
use raft_rust.Message.{Envelope, Message, Request}
use raft_rust.StateMachine.{StateMachine}
use raft_rust.Node.Types.{Node}
use raft_rust.Node.LeaderStep.{Services}
use raft_rust.Election.World.{tx_of}
use raft_rust.Node.Drive.{node_id, term, step, tick}
use raft_rust.Cluster.Transport.{Rates, Transport, deliver, set_online}
use raft_rust.Cluster.Threads.{
  Loop, Event, stopped, ticked, from_peer, from_node, requested, Next, goes_on, breaks, hand_back,
  took, as_message, outgoing, sends, turn, run_node,
}

module _ (sm : StateMachine) (services : Services) (rates : Rates) where
  open sm use {Machine}
  open rates use {Rate}

  -- The node, how many of the envelopes that it has sent were taken, and the transport.
  abbrev pub Place : Type 0
  Place = Node Machine × ℕ × Transport rates

  abbrev pub place : Loop Machine → Transport rates → Place
  place l t = (l.node, l.taken, t)

  -- What the events of the loop are to the node and the transport: the node's ticks, the messages of
  -- its peers, and the requests as messages from itself to itself in its term; and the next of the
  -- envelopes that it has sent, which is given to the transport if it is for another node.
  pub data Drives : List (Rate × Event) → Place → Place → Type 0 where
    ends : {x : Place} → Drives [] x x
    ticks :
        {draw : Rate} {events : List (Rate × Event)} {n m : Node Machine} {j : ℕ}
        {t : Transport rates} {z : Place}
        → tick sm services n ≡ ok m
        → Drives events (m, j, t) z
        → Drives ((draw, ticked) ∷ events) (n, j, t) z
    receives :
        {draw : Rate} {events : List (Rate × Event)} {n m : Node Machine} {j : ℕ}
        {t : Transport rates} {z : Place} (msg : Envelope)
        → step sm services n msg ≡ ok m
        → Drives events (m, j, t) z
        → Drives ((draw, from_peer msg) ∷ events) (n, j, t) z
    asks :
        {draw : Rate} {events : List (Rate × Event)} {n m : Node Machine} {j : ℕ}
        {t : Transport rates} {z : Place} (id : ℕ) (request : Request) (caller : ℕ)
        → step sm services n (record {
          from = node_id n;
          to = node_id n;
          term = term n;
          message = Message.client_request id request;
        })
          ≡ ok m
        → Drives events (m, j, t) z
        → Drives ((draw, requested id request caller) ∷ events) (n, j, t) z
    sends_on :
        {draw : Rate} {events : List (Rate × Event)} {n : Node Machine} {j : ℕ}
        {t : Transport rates} {z : Place} (msg : Envelope) (rest : List Envelope)
        → drop j (tx_of n) ≡ msg ∷ rest
        → (msg.to == node_id n) ≡ false
        → Drives events (n, j + 1, deliver rates t draw msg) z
        → Drives ((draw, from_node) ∷ events) (n, j, t) z
    keeps :
        {draw : Rate} {events : List (Rate × Event)} {n : Node Machine} {j : ℕ}
        {t : Transport rates} {z : Place} (msg : Envelope) (rest : List Envelope)
        → drop j (tx_of n) ≡ msg ∷ rest
        → (msg.to == node_id n) ≡ true
        → Drives events (n, j + 1, t) z
        → Drives ((draw, from_node) ∷ events) (n, j, t) z
    waits :
        {draw : Rate} {events : List (Rate × Event)} {n : Node Machine} {j : ℕ}
        {t : Transport rates} {z : Place}
        → drop j (tx_of n) ≡ []
        → Drives events (n, j, t) z
        → Drives ((draw, from_node) ∷ events) (n, j, t) z

  took-taken :
      (l l' : Loop Machine) (call : Outcome (Node Machine))
      → took sm services rates l call ≡ ok (goes_on l')
      → l'.taken ≡ l.taken
  unfolding took
  took-taken l l' (ok n) h =
      let e : record l { node = n } ≡ l' = ground arith in
      ap (λ (x : Loop Machine). x.taken) (sym e)
  took-taken l l' (err e) h = absurd (ground arith)
  took-taken l l' panic h = absurd (ground arith)

  pub took-eq :
      (l l' : Loop Machine) (call : Outcome (Node Machine))
      → took sm services rates l call ≡ ok (goes_on l')
      → (call ≡ ok l'.node) × (l'.response_txs ≡ l.response_txs) × (l'.answers ≡ l.answers)
  unfolding took
  took-eq l l' (ok n) h =
      let e : record l { node = n } ≡ l' = ground arith in
      (
        ap (λ (x : Loop Machine). ok x.node) e,
        ap (λ (x : Loop Machine). x.response_txs) (sym e),
        ap (λ (x : Loop Machine). x.answers) (sym e),
      )
  took-eq l l' (err e) h = absurd (ground arith)
  took-eq l l' panic h = absurd (ground arith)

  place-hand_back :
      (l : Loop Machine) (t : Transport rates) (m : Message) → place (hand_back l m) t ≡ place l t
  place-hand_back l t (Message.client_response id reply) =
      elim (Option-cases (KeyMap.get id l.response_txs)) [
        | inl unknown ↦ unfold hand_back in rw (hand_back, unknown) refl
        | inr (caller, known) ↦ unfold hand_back in rw (hand_back, known) refl
      ]
  place-hand_back l t (Message.pre_campaign a b) = unfold hand_back in refl
  place-hand_back l t (Message.pre_campaign_response a) = unfold hand_back in refl
  place-hand_back l t (Message.campaign a b) = unfold hand_back in refl
  place-hand_back l t (Message.campaign_response a) = unfold hand_back in refl
  place-hand_back l t (Message.heartbeat a b c) = unfold hand_back in refl
  place-hand_back l t (Message.heartbeat_response a b) = unfold hand_back in refl
  place-hand_back l t (Message.append a b c) = unfold hand_back in refl
  place-hand_back l t (Message.append_response a b) = unfold hand_back in refl
  place-hand_back l t (Message.read a) = unfold hand_back in refl
  place-hand_back l t (Message.read_response a) = unfold hand_back in refl
  place-hand_back l t (Message.client_request a b) = unfold hand_back in refl
  place-hand_back l t (Message.install_snapshot a b c d) = unfold hand_back in refl
  place-hand_back l t (Message.install_snapshot_response a) = unfold hand_back in refl

  -- What a message that the node has sent comes to.
  place-sends_other :
      (l : Loop Machine) (t : Transport rates) (draw : Rate) (msg : Envelope) (rest : List Envelope)
      → (msg.to == node_id l.node) ≡ false
      → (let sent = sends sm services rates l t draw (msg ∷ rest) in place sent.0 sent.1)
        ≡ (l.node, l.taken + 1, deliver rates t draw msg)
  unfolding sends
  place-sends_other l t draw msg rest other = rw (sends, other) refl

  place-sends_own :
      (l : Loop Machine) (t : Transport rates) (draw : Rate) (msg : Envelope) (rest : List Envelope)
      → (msg.to == node_id l.node) ≡ true
      → (let sent = sends sm services rates l t draw (msg ∷ rest) in place sent.0 sent.1)
        ≡ (l.node, l.taken + 1, t)
  unfolding sends
  place-sends_own l t draw msg rest own =
      rw (sends, own) (place-hand_back (record l { taken = l.taken + 1 }) t msg.message)

  sends-Drives :
      (draw : Rate) (events : List (Rate × Event)) (l : Loop Machine) (t : Transport rates)
      {z : Place} (out : List Envelope)
      → outgoing sm services rates l ≡ out
      → (let sent = sends sm services rates l t draw out in Drives events (place sent.0 sent.1) z)
      → Drives ((draw, from_node) ∷ events) (place l t) z
  unfolding sends
  sends-Drives draw events l t [] none_left rest = waits none_left rest
  sends-Drives draw events l t {z} (msg ∷ out) next rest =
      elim (Bool-cases (msg.to == node_id l.node)) [
        | inl own ↦
            keeps msg out next own
              (subst (λ x. Drives events x z) (place-sends_own l t draw msg out own) rest)
        | inr other ↦
            sends_on msg out next other
              (subst (λ x. Drives events x z) (place-sends_other l t draw msg out other) rest)
      ]

  -- A turn that calls the node leaves what was taken, and the transport.
  called_place :
      (l k l' : Loop Machine) (t t' : Transport rates) (call : Outcome (Node Machine))
      → k.taken ≡ l.taken
      → took sm services rates k call ≡ ok (goes_on l')
      → t ≡ t'
      → place l' t' ≡ (l'.node, l.taken, t)
  called_place l k l' t t' call before h same =
      ap (λ u. (l'.node, l'.taken, u)) (sym same)
      ∙ ap (λ j. (l'.node, j, t)) (took-taken k l' call h ∙ before)

  -- One turn, before others.
  turn-Drives :
      (draw : Rate) (event : Event) (events : List (Rate × Event)) (l l' : Loop Machine)
      (t t' : Transport rates) {z : Place}
      → turn sm services rates draw event l t ≡ ok (goes_on l', t')
      → Drives events (place l' t') z
      → Drives ((draw, event) ∷ events) (place l t) z
  unfolding turn
  turn-Drives draw stopped events l l' t t' h rest = absurd (ground arith)
  turn-Drives draw ticked events l l' t t' {z} h rest =
      let call = tick sm services l.node in
      let (next, a, same) = >>=-eq-ok (took sm services rates l call) _ h in
      let is : next ≡ goes_on l' = ground arith in
      let done = a ∙ ap (λ x. ok x) is in
      ticks (took-eq l l' call done).0 (
        subst (λ x. Drives events x z) (called_place l l l' t t' call refl done (ground arith))
          rest)
  turn-Drives draw (from_peer msg) events l l' t t' {z} h rest =
      let call = step sm services l.node msg in
      let (next, a, same) = >>=-eq-ok (took sm services rates l call) _ h in
      let is : next ≡ goes_on l' = ground arith in
      let done = a ∙ ap (λ x. ok x) is in
      receives msg (took-eq l l' call done).0 (
        subst (λ x. Drives events x z) (called_place l l l' t t' call refl done (ground arith))
          rest)
  turn-Drives draw from_node events l l' t t' {z} h rest =
      let out = outgoing sm services rates l in
      let sent = sends sm services rates l t draw out in
      let is : sent.0 ≡ l' = ground arith in
      let to : sent.1 ≡ t' = ground arith in
      let at : place l' t' ≡ place sent.0 sent.1 =
        ap (λ x. place x t') (sym is) ∙ ap (λ u. place sent.0 u) (sym to) in
      sends-Drives draw events l t out refl (subst (λ x. Drives events x z) at rest)
  turn-Drives draw (requested id request caller) events l l' t t' {z} h rest =
      let kept = record l { response_txs = KeyMap.insert id caller l.response_txs } in
      let call = step sm services l.node (as_message sm services rates l.node id request) in
      let (next, a, same) = >>=-eq-ok (took sm services rates kept call) _ h in
      let is : next ≡ goes_on l' = ground arith in
      let done = a ∙ ap (λ x. ok x) is in
      asks id request caller (took-eq kept l' call done).0 (
        subst (λ x. Drives events x z) (called_place l kept l' t t' call refl done (ground arith))
          rest)

  -- A loop that goes on after its first event went on at that event.
  pub first-goes_on :
      (draw : Rate) (event : Event) (events : List (Rate × Event)) (k l' : Loop Machine)
      (u t' : Transport rates)
      → run_node sm services rates ((draw, event) ∷ events) k u ≡ ok (goes_on l', t')
      → (k' : Loop Machine) × (u' : Transport rates) × (turn sm services rates draw event k u
          ≡ ok (goes_on k', u'))
        × (run_node sm services rates events k' u' ≡ ok (goes_on l', t'))
  unfolding run_node
  first-goes_on draw event events k l' u t' h =
      let (p, a, rest) = >>=-eq-ok (turn sm services rates draw event k u) _ h in go p.0 p.1 a rest
    where
      go :
          (next : Next Machine) (u' : Transport rates)
          → turn sm services rates draw event k u ≡ ok (next, u')
          → elim next [
            | goes_on k' ↦ run_node sm services rates events k' u'
            | breaks ↦ ok (breaks, set_online rates u' (node_id k.node) false)
          ]
            ≡ ok (goes_on l', t')
          → (k' : Loop Machine) × (u' : Transport rates) × (turn sm services rates draw event k u
              ≡ ok (goes_on k', u'))
            × (run_node sm services rates events k' u' ≡ ok (goes_on l', t'))
      go (goes_on k') u' a rest = (k', u', a, rest)
      go breaks u' a rest = absurd (ground arith)

  -- As long as the loop of a node's thread goes on, the node has gone through exactly what came to
  -- it: each tick, each message of a peer, and each request as a message to itself, once and in
  -- their order; and of what the node sends, the loop has taken the envelopes one by one in their
  -- order, given each of them that is for another node to the transport, once, and done nothing else
  -- to the transport.
  pub run_node-Drives :
      (events : List (Rate × Event)) (l l' : Loop Machine) (t t' : Transport rates)
      → run_node sm services rates events l t ≡ ok (goes_on l', t')
      → Drives events (place l t) (place l' t')
  run_node-Drives [] l l' t t' h =
      let is : l ≡ l' = unfold run_node in ground arith in
      let to : t ≡ t' = unfold run_node in ground arith in
      subst (λ (x : Place). Drives [] (place l t) x)
        (ap (λ x. place x t) is ∙ ap (λ u. place l' u) to) ends
  run_node-Drives ((draw, event) ∷ events) l l' t t' h =
      let (k, u, turned, rest) = first-goes_on draw event events l l' t t' h in
      turn-Drives draw event events l k t u turned (run_node-Drives events k l' u t' rest)
