-- ===== src/Cluster/Requests.antt =====
-- What the client makes of the nodes' answers: `Client::request` of cluster/mod.rs under src/.
use raft_rust.Base.{
  ℕ, zero, suc, ◌≡◌, refl, sym, ◌∙◌, subst, inl, inr, ◌⊎◌, true, List, [], ◌∷◌, ◌==◌, arith,
  Bool-cases, Error, abort, invalid_data, invalid_input, io,
}
use raft_rust.NodeSet.{NodeSet, contains}
use raft_rust.NodeSet.Order.{contains-remove}
use raft_rust.Message.{Request, Response, done, failed}
use raft_rust.Cluster.Client.{
  Heard, closed, timed_out, replied, Answer, success, failure, Client, order_of, Calls, returns,
  goes_on, turn_of, settle, Round, returned, exhausted, round, rounds, request,
}

-- The answer is what was heard.
abbrev pub Came : Answer Response → Heard → Type 0
Came (success response) heard = heard ≡ replied (done response)
Came (failure e) heard = heard ≡ replied (failed e)

-- How a call can leave the loop.
pub turn_of_lem :
    (last : Error) (heard : Heard)
    → ((answer : Answer Response) × (turn_of last heard ≡ returns answer) × Came answer heard)
      ⊎ ((e : Error) × (turn_of last heard ≡ goes_on e) × ((e ≡ last) ⊎ ((e ≡ abort) ⊎ (e ≡ io))))
unfolding turn_of
turn_of_lem last closed = inr (last, refl, inl refl)
turn_of_lem last timed_out = inr (io, refl, inr (inr refl))
turn_of_lem last (replied (done response)) = inl (success response, refl, refl)
turn_of_lem last (replied (failed abort)) = inr (abort, refl, inr (inl refl))
turn_of_lem last (replied (failed invalid_data)) = inl (failure invalid_data, refl, refl)
turn_of_lem last (replied (failed invalid_input)) = inl (failure invalid_input, refl, refl)
turn_of_lem last (replied (failed io)) = inl (failure io, refl, refl)

module _ (calls : Calls) where
  open calls use {World, ask, sleep}

  -- An answer that a node of `order` gave, or one of the errors that the loop goes on with.
  abbrev IsFair : List ℕ → Request → Error → Round calls → Type 0
  IsFair order r last (returned id answer w') =
      (contains order id ≡ true) × ((v : World) × Came answer (ask v id r).0)
  IsFair order r last (exhausted e w') = (e ≡ last) ⊎ ((e ≡ abort) ⊎ (e ≡ io))

  IsFair-same :
      (order : List ℕ) (r : Request) (last e : Error)
      → ((e ≡ last) ⊎ ((e ≡ abort) ⊎ (e ≡ io)))
      → (end : Round calls) → IsFair order r e end
      → IsFair order r last end
  IsFair-same order r last e which (returned j answer w') fair = fair
  IsFair-same order r last e which (exhausted f w') (inl same) = elim which [
    | inl kept ↦ inl (same ∙ kept)
    | inr known ↦ inr (subst (λ x. (x ≡ abort) ⊎ (x ≡ io)) (sym same) known)
  ]
  IsFair-same order r last e which (exhausted f w') (inr known) = inr known

  IsFair-later :
      (id : ℕ) (order : List ℕ) (r : Request) (last e : Error)
      → ((e ≡ last) ⊎ ((e ≡ abort) ⊎ (e ≡ io)))
      → (end : Round calls) → IsFair order r e end
      → IsFair (id ∷ order) r last end
  unfolding contains
  IsFair-later id order r last e which (returned j answer w') (there, came) = (ground arith, came)
  IsFair-later id order r last e which (exhausted f w') fair =
      IsFair-same order r last e which (exhausted f w') fair

  -- What the loop over the nodes does at the first of them.
  pub first-returns :
      (id : ℕ) (order : List ℕ) (r : Request) (last : Error) (w : World) {answer : Answer Response}
      → turn_of last (ask w id r).0 ≡ returns answer
      → round calls (id ∷ order) r last w ≡ returned id answer (ask w id r).1
  unfolding round
  first-returns id order r last w e = rw (round, e) refl

  pub first-goes_on :
      (id : ℕ) (order : List ℕ) (r : Request) (last : Error) (w : World) {e : Error}
      → turn_of last (ask w id r).0 ≡ goes_on e
      → round calls (id ∷ order) r last w ≡ round calls order r e (ask w id r).1
  unfolding round
  first-goes_on id order r last w e = rw (round, e) refl

  round-IsFair :
      (order : List ℕ) (r : Request) (last : Error) (w : World)
      → IsFair order r last (round calls order r last w)
  round-IsFair [] r last w = unfold round in inl refl
  round-IsFair (id ∷ order) r last w =
      let heard = ask w id r in
      elim (turn_of_lem last heard.0) [
        | inl (answer, turn, came) ↦
            subst (IsFair (id ∷ order) r last) (sym (first-returns id order r last w turn))
              (unfold contains in ground arith, (w, came))
        | inr (e, turn, which) ↦
            subst (IsFair (id ∷ order) r last) (sym (first-goes_on id order r last w turn)) (
              IsFair-later id order r last e which (round calls order r e heard.1)
                (round-IsFair order r e heard.1))
      ]

  more-IsFair :
      (n : ℕ) (order : List ℕ) (r : Request) (last : Error) (end : Round calls)
      → ((e : Error) (w : World) → IsFair order r e (rounds calls n order r e w))
      → IsFair order r last end
      → IsFair order r last (elim end [
        | returned id answer w' ↦ returned id answer w'
        | exhausted e w' ↦ rounds calls n order r e (sleep w')
      ])
  more-IsFair n order r last (returned id answer w') rest fair = fair
  more-IsFair n order r last (exhausted e w') rest fair =
      IsFair-same order r last e fair (rounds calls n order r e (sleep w')) (rest e (sleep w'))

  rounds-IsFair :
      (n : ℕ) (order : List ℕ) (r : Request) (last : Error) (w : World)
      → IsFair order r last (rounds calls n order r last w)
  unfolding rounds
  rounds-IsFair zero order r last w = inl refl
  rounds-IsFair (suc n) order r last w =
      more-IsFair n order r last (round calls order r last w) (λ e w'. rounds-IsFair n order r e w')
        (round-IsFair order r last w)

  pub contains-order_of :
      (txs : NodeSet) (preferred id : ℕ) → contains (order_of txs preferred) id ≡ contains txs id
  unfolding order_of contains
  contains-order_of txs preferred id = elim (Bool-cases (contains txs preferred)) [
    | inr absent ↦ rw absent refl
    | inl there ↦ elim (Bool-cases (preferred == id)) [
      | inl same ↦
          let met : preferred ≡ id = ground arith in
          let known : contains txs id ≡ true = subst (λ x. contains txs x ≡ true) met there in
          ground (arith, contains-remove preferred id txs)
      | inr other ↦ ground (arith, contains-remove preferred id txs)
    ]
  ]

  -- What `request` may give: a response that a registered node gave, which is preferred from then
  -- on; an error that a registered node gave; or, once the tries are used up, an abort or `io`.
  abbrev pub IsHonest : Client → Request → Answer Response → Client → Type 0
  IsHonest c r (success response) c' =
      (contains c.request_txs c'.preferred ≡ true)
      × ((v : World) × ((ask v c'.preferred r).0 ≡ replied (done response)))
  IsHonest c r (failure e) c' =
      (c' ≡ c)
      × (((id : ℕ) × (contains c.request_txs id ≡ true)
            × ((v : World) × ((ask v id r).0 ≡ replied (failed e))))
          ⊎ ((e ≡ abort) ⊎ (e ≡ io)))

  ended-IsHonest :
      (c : Client) (r : Request) (id : ℕ) (answer : Answer Response) (v : World)
      → contains c.request_txs id ≡ true
      → Came answer (ask v id r).0
      → IsHonest c r answer (settle c id answer)
  unfolding settle
  ended-IsHonest c r id (success response) v there came = (there, (v, came))
  ended-IsHonest c r id (failure e) v there came = (refl, inl (id, there, (v, came)))

  -- Whatever the nodes do, a request ends. A response was given by a registered node, which is
  -- preferred from then on; with an error the client is as before, and the error was given by a registered
  -- node or is `Abort` or `IO`.
  pub request-IsHonest :
      (c : Client) (r : Request) (w : World)
      → IsHonest c r (request calls c r w).0 (request calls c r w).1
  unfolding request
  request-IsHonest c r w =
      go (rounds calls c.attempts (order_of c.request_txs c.preferred) r abort w)
        (rounds-IsFair c.attempts (order_of c.request_txs c.preferred) r abort w)
    where
      go :
          (end : Round calls)
          → IsFair (order_of c.request_txs c.preferred) r abort end
          → let result : Answer Response × Client × World = elim end [
            | returned id answer w' ↦ (answer, settle c id answer, w')
            | exhausted e w' ↦ (failure e, c, w')
          ] in
            IsHonest c r result.0 result.1
      go (returned id answer w') (there, (v, came)) =
          ended-IsHonest c r id answer v
            (sym (contains-order_of c.request_txs c.preferred id) ∙ there) came
      go (exhausted e w') fair = (refl, inr (elim fair [ inl same ↦ inl same | inr known ↦ known ]))
