-- ===== src/Cluster/Delivery.antt =====
-- How often a message arrives: `Transport` of cluster/mod.rs under src/.
use raft_rust.Base.{
  ℕ, ◌+◌, ◌≤◌, ◌≡◌, refl, sym, ap, ◌∙◌, subst, inl, inr, ◌⊎◌, Bool, true, false, Option, none, some,
  List, [], ◌∷◌, ◌++◌, ◌==◌, if◌then◌else◌, arith, Bool-cases, Option-cases,
}
use raft_rust.KeyMap
use raft_rust.KeyMap.{
  get-insert_same, get-insert_other, get-remove_same, get-remove_other, IsAbove, IsAscending,
  get-IsAbove, insert-IsAscending, remove-IsAscending,
}
use raft_rust.KeyMap.Order.{number_keys}
use raft_rust.Message.{Envelope}
use raft_rust.Cluster.Transport.{Mailboxes, post, post_all}
use raft_rust.Cluster.Traffic.{inbox}

inbox-none : (boxes : Mailboxes) (id : ℕ) → KeyMap.get id boxes ≡ none → inbox boxes id ≡ []
unfolding inbox
inbox-none boxes id e = rw (inbox, e) refl

inbox-some :
    (boxes : Mailboxes) (id : ℕ) {queue : List Envelope}
    → KeyMap.get id boxes ≡ some queue
    → inbox boxes id ≡ queue
unfolding inbox
inbox-some boxes id e = rw (inbox, e) refl

pub inbox-insert_same :
    (id : ℕ) (queue : List Envelope) (boxes : Mailboxes)
    → inbox (KeyMap.insert id queue boxes) id ≡ queue
inbox-insert_same id queue boxes =
    inbox-some (KeyMap.insert id queue boxes) id (get-insert_same id queue boxes)

pub inbox-insert_other :
    (id to : ℕ) (queue : List Envelope) (boxes : Mailboxes)
    → (id == to) ≡ false
    → inbox (KeyMap.insert to queue boxes) id ≡ inbox boxes id
unfolding inbox
inbox-insert_other id to queue boxes other =
    rw (inbox, get-insert_other id to queue boxes other) refl

-- What a send does to the mailbox it is for, and to another.
pub inbox-post_same :
    (id : ℕ) (msg : Envelope) (boxes : Mailboxes)
    → ((KeyMap.get id boxes ≡ none) × (inbox (post id msg boxes) id ≡ []))
      ⊎ (inbox (post id msg boxes) id ≡ inbox boxes id ++ msg ∷ [])
inbox-post_same id msg boxes = elim (Option-cases (KeyMap.get id boxes)) [
  | inl missing ↦
      let same : post id msg boxes ≡ boxes = unfold post in rw (post, missing) refl in
      inl (missing, ap (λ b. inbox b id) same ∙ inbox-none boxes id missing)
  | inr (queue, found) ↦
      let same : post id msg boxes ≡ KeyMap.insert id (queue ++ msg ∷ []) boxes =
        unfold post in rw (post, found) refl in
      inr (
        ap (λ b. inbox b id) same
        ∙ inbox-insert_same id (queue ++ msg ∷ []) boxes
        ∙ ap (λ l. l ++ msg ∷ []) (sym (inbox-some boxes id found)))
]

pub inbox-post_other :
    (id to : ℕ) (msg : Envelope) (boxes : Mailboxes)
    → (id == to) ≡ false
    → inbox (post to msg boxes) id ≡ inbox boxes id
inbox-post_other id to msg boxes other = elim (Option-cases (KeyMap.get to boxes)) [
  | inl missing ↦
      let same : post to msg boxes ≡ boxes = unfold post in rw (post, missing) refl in
      ap (λ b. inbox b id) same
  | inr (queue, found) ↦
      let same : post to msg boxes ≡ KeyMap.insert to (queue ++ msg ∷ []) boxes =
        unfold post in rw (post, found) refl in
      ap (λ b. inbox b id) same ∙ inbox-insert_other id to (queue ++ msg ∷ []) boxes other
]

module _ (P : Envelope → Bool) where
  abbrev pub point : Envelope → ℕ
  point e = if P e then 1 else 0

  -- How many of the messages pass the test.
  abbrev pub tally : List Envelope → ℕ
  tally [] = 0
  tally (e ∷ l) = point e + tally l

  pub tally-append : (a b : List Envelope) → tally (a ++ b) ≡ tally a + tally b
  tally-append [] b = omega arith
  tally-append (e ∷ a) b = omega (arith, tally-append a b)

  abbrev pub waiting : Option Envelope → ℕ
  waiting none = 0
  waiting (some e) = point e

  -- What `msg` adds for the node `id`.
  abbrev pub added : ℕ → ℕ → Envelope → ℕ
  added id to msg = if to == id then point msg else 0

  tally-post_same :
      (id : ℕ) (msg : Envelope) (boxes : Mailboxes)
      → tally (inbox (post id msg boxes) id) ≤ tally (inbox boxes id) + point msg
  tally-post_same id msg boxes = elim (inbox-post_same id msg boxes) [
    | inl (missing, e) ↦ let zero_left = ap tally e in omega (arith, zero_left)
    | inr e ↦
        let grown = ap tally e ∙ tally-append (inbox boxes id) (msg ∷ []) in omega (arith, grown)
  ]

  pub tally-post :
      (id to : ℕ) (msg : Envelope) (boxes : Mailboxes)
      → tally (inbox (post to msg boxes) id) ≤ tally (inbox boxes id) + added id to msg
  tally-post id to msg boxes = elim (Bool-cases (id == to)) [
    | inl same ↦
        let met : id ≡ to = ground arith in
        let here : (to == id) ≡ true = ground arith in
        let value : added id to msg ≡ point msg = rw here refl in
        let bound : tally (inbox (post to msg boxes) id) ≤ tally (inbox boxes id) + point msg =
          subst (λ x. tally (inbox (post x msg boxes) id) ≤ tally (inbox boxes id) + point msg) met
            (tally-post_same id msg boxes) in
        omega (arith, value, bound)
    | inr other ↦
        let apart : (to == id) ≡ false = ground arith in
        let value : added id to msg ≡ 0 = rw apart refl in
        let same = ap tally (inbox-post_other id to msg boxes other) in omega (arith, value, same)
  ]

  pub tally-post_all :
      (id : ℕ) (held : List (ℕ × Envelope)) (boxes : Mailboxes)
      → IsAscending held
      → tally (inbox (post_all held boxes) id)
        ≤ tally (inbox boxes id) + waiting (KeyMap.get id held)
  unfolding post_all KeyMap.get
  tally-post_all id [] boxes sorted = omega arith
  tally-post_all id ((to, msg) ∷ held) boxes (above, sorted) =
      let later = tally-post_all id held (post to msg boxes) sorted in
      let now = tally-post id to msg boxes in
      elim (Bool-cases (id == to)) [
        | inl same ↦
            let met : to ≡ id = ground arith in
            let here : (to == id) ≡ true = ground arith in
            let value : added id to msg ≡ point msg = rw here refl in
            let gone : KeyMap.get id held ≡ none =
              subst (λ x. KeyMap.get x held ≡ none) met (get-IsAbove to held above) in
            let zero_left = ap waiting gone in rw same (omega (arith, later, now, value, zero_left))
        | inr other ↦
            let apart : (to == id) ≡ false = ground arith in
            let value : added id to msg ≡ 0 = rw apart refl in
            rw other (omega (arith, later, now, value))
      ]
