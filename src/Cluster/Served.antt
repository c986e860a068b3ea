-- ===== src/Cluster/Served.antt =====
-- When a request of the client is served: `Client::request` of cluster/mod.rs under src/.
use raft_rust.Base.{
  ℕ, suc, ◌≡◌, ◌≢◌, refl, sym, ap, ◌∙◌, subst, inl, inr, true, List, [], ◌∷◌, ◌==◌, arith,
  Bool-cases, Error, abort,
}
use raft_rust.NodeSet.{contains}
use raft_rust.Message.{Request, Response, done, failed}
use raft_rust.Cluster.Client.{
  replied, Answer, success, failure, Client, order_of, Calls, returns, goes_on, turn_of, settle,
  returned, round, rounds, request,
}
use raft_rust.Cluster.Requests.{
  Came, turn_of_lem, first-returns, first-goes_on, contains-order_of, IsHonest, request-IsHonest,
}

module _ (calls : Calls) where
  open calls use {World, ask, sleep}

  -- The nodes never refuse the request but with `Abort`.
  abbrev pub OnlyAborts : Request → Type 0
  OnlyAborts r = (v : World) (j : ℕ) (e : Error) → (ask v j r).0 ≡ replied (failed e) → e ≡ abort

  -- The node answers the request whenever it is asked.
  abbrev pub Serves : ℕ → Request → Type 0
  Serves id r = (v : World) → (response : Response) × ((ask v id r).0 ≡ replied (done response))

  -- The first node that is asked, where it ends the loop.
  decided :
      (j : ℕ) (order : List ℕ) (r : Request) (last : Error) (w : World) (answer : Answer Response)
      → OnlyAborts r
      → turn_of last (ask w j r).0 ≡ returns answer
      → Came answer (ask w j r).0
      → (response : Response) × (answer ≡ success response)
  decided j order r last w (success response) aborts turn came = (response, refl)
  decided j order r last w (failure e) aborts turn came =
      let is : e ≡ abort = aborts w j e came in
      let heard : (ask w j r).0 ≡ replied (failed abort) = came ∙ ap (λ x. replied (failed x)) is in
      let wrong : goes_on abort ≡ returns (failure e) =
        unfold turn_of in sym (ap (turn_of last) heard) ∙ turn in
      absurd (ground arith)

  served :
      (id : ℕ) (r : Request) (last : Error) (w : World) (e : Error)
      → Serves id r
      → turn_of last (ask w id r).0 ≢ goes_on e
  served id r last w e serves turn =
      let (response, heard) = serves w in
      let wrong : returns (success response) ≡ goes_on e =
        unfold turn_of in sym (ap (turn_of last) heard) ∙ turn in
      ground arith

  pub round_succeeds :
      (order : List ℕ) (id : ℕ) (r : Request) (last : Error) (w : World)
      → contains order id ≡ true
      → Serves id r
      → OnlyAborts r
      → (j : ℕ) × (response : Response) × (w' : World) × (round calls order r last w
          ≡ returned j (success response) w')
  round_succeeds [] id r last w there serves aborts = absurd (unfold contains in ground arith)
  round_succeeds (j ∷ order) id r last w there serves aborts =
      elim (turn_of_lem last (ask w j r).0) [
        | inl (answer, turn, came) ↦
            let (response, is) = decided j order r last w answer aborts turn came in
            (
              j,
              response,
              (ask w j r).1,
              first-returns calls j order r last w (turn ∙ ap (λ a. returns a) is),
            )
        | inr (e, turn, which) ↦ elim (Bool-cases (j == id)) [
          | inl same ↦
              let met : id ≡ j = ground arith in
              absurd (served j r last w e (subst (λ x. Serves x r) met serves) turn)
          | inr other ↦
              let later : contains order id ≡ true = unfold contains in ground arith in
              let (k, response, w', done_so) =
                round_succeeds order id r e (ask w j r).1 later serves aborts in
              (k, response, w', first-goes_on calls j order r last w turn ∙ done_so)
        ]
      ]

  first_round :
      (n : ℕ) (order : List ℕ) (r : Request) (w : World) {j : ℕ} {answer : Answer Response}
      {w' : World}
      → round calls order r abort w ≡ returned j answer w'
      → rounds calls (suc n) order r abort w ≡ returned j answer w'
  unfolding rounds
  first_round n order r w e = rw (rounds, e) refl

  -- A request that one registered node answers with a response whenever it is asked, and that no node
  -- ever refuses but with `Abort`, ends with a response if there is a try at all, whatever the other
  -- nodes do, and the node that gave it is a registered one.
  pub request_succeeds :
      (c : Client) (id : ℕ) (r : Request) (w : World) {n : ℕ}
      → c.attempts ≡ suc n
      → contains c.request_txs id ≡ true
      → Serves id r
      → OnlyAborts r
      → (response : Response) × ((request calls c r w).0 ≡ success response)
        × (contains c.request_txs (request calls c r w).1.preferred ≡ true)
  request_succeeds c id r w {n} some_try there serves aborts =
      let order = order_of c.request_txs c.preferred in
      let (j, response, w', came) =
        round_succeeds order id r abort w
          (contains-order_of calls c.request_txs c.preferred id ∙ there) serves aborts in
      let ends : rounds calls c.attempts order r abort w ≡ returned j (success response) w' =
        ap (λ k. rounds calls k order r abort w) some_try ∙ first_round n order r w came in
      let result : request calls c r w ≡ (success response, settle c j (success response), w') =
        unfold request in rw (request, ends) refl in
      let gave : (request calls c r w).0 ≡ success response = ap (λ x. x.0) result in
      let honest = request-IsHonest calls c r w in
      (response, gave, (subst (λ a. IsHonest calls c r a (request calls c r w).1) gave honest).0)
