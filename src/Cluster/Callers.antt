-- ===== src/Cluster/Callers.antt =====
-- Who hears from the thread of a node: `run_node` of cluster/mod.rs under src/.
use raft_rust.Base.{
  ℕ, ◌+◌, ◌≤◌, ◌≡◌, ap, ◌∙◌, inl, inr, Bool, some, List, [], ◌∷◌, ◌++◌, ok, >>=-eq-ok, ◌==◌,
  if◌then◌else◌, arith, Bool-cases, Option-cases, ltb,
}
use raft_rust.KeyMap
use raft_rust.KeyMap.Order.{number_keys}
use raft_rust.Message.{Envelope, Message, Reply}
use raft_rust.StateMachine.{StateMachine}
use raft_rust.Node.LeaderStep.{Services}
use raft_rust.Node.Drive.{node_id, step, tick}
use raft_rust.Cluster.Transport.{Rates, Transport}
use raft_rust.Cluster.Threads.{
  Loop, Event, stopped, ticked, from_peer, from_node, requested, goes_on, hand_back, took,
  as_message, outgoing, sends, turn, run_node,
}
use raft_rust.Cluster.Loops.{took-eq, first-goes_on}

module _ (P : ℕ → Bool) where
  abbrev pub point : ℕ → ℕ
  point caller = if P caller then 1 else 0

  -- How many of the callers that wait, and of those that were answered, pass the test.
  abbrev pub waiting : List (ℕ × ℕ) → ℕ
  waiting [] = 0
  waiting ((id, caller) ∷ txs) = point caller + waiting txs

  abbrev pub answered : List (ℕ × Reply) → ℕ
  answered [] = 0
  answered ((caller, reply) ∷ answers) = point caller + answered answers

  answered-snoc :
      (answers : List (ℕ × Reply)) (caller : ℕ) (reply : Reply)
      → answered (answers ++ (caller, reply) ∷ []) ≡ answered answers + point caller
  answered-snoc [] caller reply = omega arith
  answered-snoc ((c, r) ∷ answers) caller reply = omega (arith, answered-snoc answers caller reply)

  waiting-insert :
      (id caller : ℕ) (txs : List (ℕ × ℕ))
      → waiting (KeyMap.insert id caller txs) ≤ waiting txs + point caller
  unfolding KeyMap.insert
  waiting-insert id caller [] = omega arith
  waiting-insert id caller ((k, c) ∷ txs) = elim (Bool-cases (id == k)) [
    | inl same ↦ rw same (omega arith)
    | inr other ↦ elim (Bool-cases (ltb id k)) [
      | inl first ↦ rw (other, first) (omega arith)
      | inr later ↦ rw (other, later) (omega (arith, waiting-insert id caller txs))
    ]
  ]

  waiting-remove_le : (id : ℕ) (txs : List (ℕ × ℕ)) → waiting (KeyMap.remove id txs) ≤ waiting txs
  unfolding KeyMap.remove
  waiting-remove_le id [] = omega arith
  waiting-remove_le id ((k, c) ∷ txs) = elim (Bool-cases (id == k)) [
    | inl same ↦ rw same (omega (arith, waiting-remove_le id txs))
    | inr other ↦ rw other (omega (arith, waiting-remove_le id txs))
  ]

  waiting-remove :
      (id : ℕ) (txs : List (ℕ × ℕ)) {caller : ℕ}
      → KeyMap.get id txs ≡ some caller
      → waiting (KeyMap.remove id txs) + point caller ≤ waiting txs
  unfolding KeyMap.remove KeyMap.get
  waiting-remove id [] found = absurd (ground arith)
  waiting-remove id ((k, c) ∷ txs) {caller} found = elim (Bool-cases (id == k)) [
    | inl same ↦
        let is : c ≡ caller = ground arith in
        let value = ap point is in rw same (omega (arith, value, waiting-remove_le id txs))
    | inr other ↦
        let later : KeyMap.get id txs ≡ some caller = ground arith in
        rw other (omega (arith, waiting-remove id txs later))
  ]

  -- The callers that a loop still owes an answer or has given one.
  abbrev pub account : {S : Type 0} → Loop S → ℕ
  account l = answered l.answers + waiting l.response_txs

  account-hand_back : {S : Type 0} (l : Loop S) (m : Message) → account (hand_back l m) ≤ account l
  account-hand_back l (Message.client_response id reply) =
      elim (Option-cases (KeyMap.get id l.response_txs)) [
        | inl unknown ↦ unfold hand_back in rw (hand_back, unknown) (omega arith)
        | inr (caller, known) ↦
            unfold hand_back in
            rw (hand_back, known)
              (omega (
                arith,
                waiting-remove id l.response_txs known,
                answered-snoc l.answers caller reply,
              ))
      ]
  account-hand_back l (Message.pre_campaign a b) = unfold hand_back in omega arith
  account-hand_back l (Message.pre_campaign_response a) = unfold hand_back in omega arith
  account-hand_back l (Message.campaign a b) = unfold hand_back in omega arith
  account-hand_back l (Message.campaign_response a) = unfold hand_back in omega arith
  account-hand_back l (Message.heartbeat a b c) = unfold hand_back in omega arith
  account-hand_back l (Message.heartbeat_response a b) = unfold hand_back in omega arith
  account-hand_back l (Message.append a b c) = unfold hand_back in omega arith
  account-hand_back l (Message.append_response a b) = unfold hand_back in omega arith
  account-hand_back l (Message.read a) = unfold hand_back in omega arith
  account-hand_back l (Message.read_response a) = unfold hand_back in omega arith
  account-hand_back l (Message.client_request a b) = unfold hand_back in omega arith
  account-hand_back l (Message.install_snapshot a b c d) = unfold hand_back in omega arith
  account-hand_back l (Message.install_snapshot_response a) = unfold hand_back in omega arith

  module _ (sm : StateMachine) (services : Services) (rates : Rates) where
    open sm use {Machine}
    open rates use {Rate}

    -- The callers of the requests among the events
    abbrev pub asked : List (Rate × Event) → ℕ
    asked [] = 0
    asked ((draw, requested id request caller) ∷ events) = point caller + asked events
    asked ((draw, _) ∷ events) = asked events

    account-sends :
        (l : Loop Machine) (t : Transport rates) (draw : Rate) (out : List Envelope)
        → account (sends sm services rates l t draw out).0 ≤ account l
    unfolding sends
    account-sends l t draw [] = omega arith
    account-sends l t draw (msg ∷ rest) = elim (Bool-cases (msg.to == node_id l.node)) [
      | inl own ↦ rw (sends, own) (account-hand_back (record l { taken = l.taken + 1 }) msg.message)
      | inr other ↦ rw (sends, other) (omega arith)
    ]

    turn-account :
        (draw : Rate) (event : Event) (l l' : Loop Machine) (t t' : Transport rates)
        → turn sm services rates draw event l t ≡ ok (goes_on l', t')
        → account l' ≤ account l + asked ((draw, event) ∷ [])
    unfolding turn
    turn-account draw stopped l l' t t' h = absurd (ground arith)
    turn-account draw ticked l l' t t' h =
        let (next, a, same) = >>=-eq-ok (took sm services rates l (tick sm services l.node)) _ h in
        let is : next ≡ goes_on l' = ground arith in
        let (n, txs, answers) =
          took-eq sm services rates l l' (tick sm services l.node) (a ∙ ap (λ x. ok x) is) in
        let one = ap waiting txs in let two = ap answered answers in omega (arith, one, two)
    turn-account draw (from_peer msg) l l' t t' h =
        let (next, a, same) =
          >>=-eq-ok (took sm services rates l (step sm services l.node msg)) _ h in
        let is : next ≡ goes_on l' = ground arith in
        let (n, txs, answers) =
          took-eq sm services rates l l' (step sm services l.node msg) (a ∙ ap (λ x. ok x) is) in
        let one = ap waiting txs in let two = ap answered answers in omega (arith, one, two)
    turn-account draw from_node l l' t t' h =
        let out = outgoing sm services rates l in
        let is : (sends sm services rates l t draw out).0 ≡ l' = ground arith in
        let value = ap (λ (x : Loop Machine). account x) is in
        omega (arith, value, account-sends l t draw out)
    turn-account draw (requested id request caller) l l' t t' h =
        let kept = record l { response_txs = KeyMap.insert id caller l.response_txs } in
        let msg = as_message sm services rates l.node id request in
        let (next, a, same) =
          >>=-eq-ok (took sm services rates kept (step sm services l.node msg)) _ h in
        let is : next ≡ goes_on l' = ground arith in
        let (n, txs, answers) =
          took-eq sm services rates kept l' (step sm services l.node msg) (a ∙ ap (λ x. ok x) is) in
        let one = ap waiting txs in
        let two = ap answered answers in
        omega (arith, one, two, waiting-insert id caller l.response_txs)

    asked-cons :
        (draw : Rate) (event : Event) (events : List (Rate × Event))
        → asked ((draw, event) ∷ events) ≡ asked ((draw, event) ∷ []) + asked events
    asked-cons draw stopped events = omega arith
    asked-cons draw ticked events = omega arith
    asked-cons draw (from_peer msg) events = omega arith
    asked-cons draw from_node events = omega arith
    asked-cons draw (requested id request caller) events = omega arith

    -- Of the callers that pass any test, such as being a given one, a loop that goes on has
    -- answered, and still owes an answer, together no more than it had answered and owed before and were among
    -- the requests that it met since: no request is answered twice, and nobody is answered who did not ask.
    pub run_node-account :
        (events : List (Rate × Event)) (l l' : Loop Machine) (t t' : Transport rates)
        → run_node sm services rates events l t ≡ ok (goes_on l', t')
        → account l' ≤ account l + asked events
    run_node-account [] l l' t t' h =
        let is : l ≡ l' = unfold run_node in ground arith in
        let value = ap (λ (x : Loop Machine). account x) is in omega (arith, value)
    run_node-account ((draw, event) ∷ events) l l' t t' h =
        let (k, u, turned, rest) = first-goes_on sm services rates draw event events l l' t t' h in
        omega (
          arith,
          turn-account draw event l k t u turned,
          run_node-account events k l' u t' rest,
          asked-cons draw event events,
        )
