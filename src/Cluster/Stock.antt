-- ===== src/Cluster/Stock.antt =====
-- What lies in the mailbox of a node and what is held back for it, under one call of the transport:
-- `Transport` of cluster/mod.rs under src/.
use raft_rust.Base.{
  ℕ, ◌+◌, ◌≤◌, ◌≡◌, refl, sym, ap, subst, inl, inr, ◌⊎◌, Bool, true, false, ◌&&◌, List, [], ◌∷◌,
  ◌==◌, arith, Bool-cases, Option-cases,
}
use raft_rust.KeyMap
use raft_rust.KeyMap.{
  get-insert_same, get-insert_other, get-remove_same, get-remove_other, IsAscending,
  insert-IsAscending, remove-IsAscending,
}
use raft_rust.KeyMap.Order.{number_keys}
use raft_rust.Message.{Envelope}
use raft_rust.Cluster.Transport.{
  Rates, post, Transport, register, set_online, is_online, pass, deliver, release, is_cut,
}
use raft_rust.Cluster.Traffic.{inbox, Act, take_first, received}
use raft_rust.Cluster.Delivery.{
  inbox-insert_same, inbox-insert_other, point, tally, waiting, added, tally-post, tally-post_all,
}

module _ (rates : Rates) (P : Envelope → Bool) where
  open rates use {Rate}

  -- What lies in the mailbox of a node and what is held back for it.
  abbrev pub stock : ℕ → Transport rates → ℕ
  stock id t = tally P (inbox t.mailboxes id) + waiting P (KeyMap.get id t.held)

  stock-pass :
      (id : ℕ) (t : Transport rates) (msg : Envelope)
      → stock id (pass rates t msg) ≤ stock id t + added P id msg.to msg
  unfolding pass
  stock-pass id t msg = elim (Bool-cases t.reorder) [
    | inr direct ↦ rw direct (omega (arith, tally-post P id msg.to msg t.mailboxes))
    | inl on ↦ elim (Option-cases (KeyMap.get msg.to t.held)) [
      | inl none_held ↦ elim (Bool-cases (id == msg.to)) [
        | inl same ↦
            let met : id ≡ msg.to = ground arith in
            let here : (msg.to == id) ≡ true = ground arith in
            let value : added P id msg.to msg ≡ point P msg = rw here refl in
            let now = ap (waiting P) (get-insert_same msg.to msg t.held) in
            let then_now : waiting P (KeyMap.get id (KeyMap.insert msg.to msg t.held))
                ≡ point P msg =
              subst (λ x. waiting P (KeyMap.get x (KeyMap.insert msg.to msg t.held)) ≡ point P msg)
                (sym met) now in
            rw (on, none_held) (omega (arith, then_now, value))
        | inr other ↦
            let now = ap (waiting P) (get-insert_other id msg.to msg t.held other) in
            rw (on, none_held) (omega (arith, now))
      ]
      | inr (prev, held) ↦
          let one = tally-post P id msg.to msg t.mailboxes in
          let two = tally-post P id msg.to prev (post msg.to msg t.mailboxes) in
          elim (Bool-cases (id == msg.to)) [
            | inl same ↦
                let met : id ≡ msg.to = ground arith in
                let here : (msg.to == id) ≡ true = ground arith in
                let value : added P id msg.to prev ≡ point P prev = rw here refl in
                let was : waiting P (KeyMap.get id t.held) ≡ point P prev =
                  subst (λ x. waiting P (KeyMap.get x t.held) ≡ point P prev) (sym met)
                    (ap (waiting P) held) in
                let gone : waiting P (KeyMap.get id (KeyMap.remove msg.to t.held)) ≡ 0 =
                  subst (λ x. waiting P (KeyMap.get x (KeyMap.remove msg.to t.held)) ≡ 0) (sym met)
                    (ap (waiting P) (get-remove_same msg.to t.held)) in
                rw (on, held) (omega (arith, one, two, value, was, gone))
            | inr other ↦
                let apart : (msg.to == id) ≡ false = ground arith in
                let value : added P id msg.to prev ≡ 0 = rw apart refl in
                let kept = ap (waiting P) (get-remove_other id msg.to t.held other) in
                rw (on, held) (omega (arith, one, two, value, kept))
          ]
    ]
  ]

  -- A message that the transport does not pass on changes nothing.
  pub deliver-cases :
      (t : Transport rates) (draw : Rate) (msg : Envelope)
      → (deliver rates t draw msg ≡ t) ⊎ (deliver rates t draw msg ≡ pass rates t msg)
  unfolding deliver
  deliver-cases t draw msg = elim (Bool-cases (is_online rates t msg.from)) [
    | inr off ↦ inl (rw off refl)
    | inl on_from ↦ elim (Bool-cases (is_online rates t msg.to)) [
      | inr off ↦ inl (rw (on_from, off) refl)
      | inl on_to ↦ elim (Bool-cases (is_cut t.partitions msg.from msg.to)) [
        | inl apart ↦ inl (rw (on_from, on_to, apart) refl)
        | inr joined ↦
            elim (Bool-cases (rates.less rates.nought t.drop_rate && rates.less draw t.drop_rate)) [
              | inl lost ↦ inl (rw (on_from, on_to, joined, lost) refl)
              | inr kept ↦ inr (rw (on_from, on_to, joined, kept) refl)
            ]
      ]
    ]
  ]

  pub stock-deliver :
      (id : ℕ) (t : Transport rates) (draw : Rate) (msg : Envelope)
      → stock id (deliver rates t draw msg) ≤ stock id t + added P id msg.to msg
  stock-deliver id t draw msg = elim (deliver-cases t draw msg) [
    | inl same ↦ let e = ap (stock id) same in omega (arith, e)
    | inr passed ↦ let e = ap (stock id) passed in omega (arith, e, stock-pass id t msg)
  ]

  pub stock-register :
      (id other : ℕ) (t : Transport rates) → stock id (register rates t other) ≤ stock id t
  unfolding register
  stock-register id other t = elim (Bool-cases (id == other)) [
    | inl same ↦
        let met : other ≡ id = ground arith in
        let empty : tally P (inbox (KeyMap.insert other [] t.mailboxes) id) ≡ 0 =
          subst (λ x. tally P (inbox (KeyMap.insert other [] t.mailboxes) x) ≡ 0) met
            (ap (tally P) (inbox-insert_same other [] t.mailboxes)) in
        omega (arith, empty)
    | inr apart ↦
        let kept = ap (tally P) (inbox-insert_other id other [] t.mailboxes apart) in
        omega (arith, kept)
  ]

  pub stock-set_online :
      (id other : ℕ) (online : Bool) (t : Transport rates)
      → stock id (set_online rates t other online) ≤ stock id t
  unfolding set_online
  stock-set_online id other true t = omega arith
  stock-set_online id other false t = elim (Bool-cases (id == other)) [
    | inl same ↦
        let met : other ≡ id = ground arith in
        let gone : waiting P (KeyMap.get id (KeyMap.remove other t.held)) ≡ 0 =
          subst (λ x. waiting P (KeyMap.get x (KeyMap.remove other t.held)) ≡ 0) met
            (ap (waiting P) (get-remove_same other t.held)) in
        omega (arith, gone)
    | inr apart ↦
        let kept = ap (waiting P) (get-remove_other id other t.held apart) in omega (arith, kept)
  ]

  pub stock-release :
      (id : ℕ) (t : Transport rates) → IsAscending t.held → stock id (release rates t) ≤ stock id t
  unfolding release KeyMap.get
  stock-release id t sorted = omega (arith, tally-post_all P id t.held t.mailboxes sorted)

  pub stock-take_first :
      (id other : ℕ) (t : Transport rates)
      → tally P (received rates id (Act.takes other) t) + stock id (take_first rates t other)
        ≤ stock id t
  stock-take_first id other t = go (inbox t.mailboxes other) refl
    where
      go :
          (l : List Envelope)
          → inbox t.mailboxes other ≡ l
          → tally P (received rates id (Act.takes other) t) + stock id (take_first rates t other)
            ≤ stock id t
      go [] e =
          let same : take_first rates t other ≡ t = unfold take_first in rw (take_first, e) refl in
          let nothing : received rates id (Act.takes other) t ≡ [] =
            elim (Bool-cases (other == id)) [
              | inl here ↦
                  let met : other ≡ id = ground arith in
                  let none_there = subst (λ y. inbox t.mailboxes y ≡ []) met e in
                  unfold received in rw (received, here, none_there) refl
              | inr apart ↦ unfold received in rw (received, apart) refl
            ] in
          let one = ap (stock id) same in let two = ap (tally P) nothing in omega (arith, one, two)
      go (x ∷ l) e =
          let same : take_first rates t other
              ≡ record t { mailboxes = KeyMap.insert other l t.mailboxes } =
            unfold take_first in rw (take_first, e) refl in
          let one = ap (stock id) same in
          elim (Bool-cases (other == id)) [
            | inl here ↦
                let met : other ≡ id = ground arith in
                let there = subst (λ y. inbox t.mailboxes y ≡ x ∷ l) met e in
                let got : received rates id (Act.takes other) t ≡ x ∷ [] =
                  unfold received in rw (received, here, there) refl in
                let two = ap (tally P) got in
                let left : tally P (inbox (KeyMap.insert other l t.mailboxes) id) ≡ tally P l =
                  subst (λ y. tally P (inbox (KeyMap.insert other l t.mailboxes) y) ≡ tally P l) met
                    (ap (tally P) (inbox-insert_same other l t.mailboxes)) in
                let was : tally P (inbox t.mailboxes id) ≡ tally P (x ∷ l) =
                  subst (λ y. tally P (inbox t.mailboxes y) ≡ tally P (x ∷ l)) met
                    (ap (tally P) e) in
                omega (arith, one, two, left, was)
            | inr apart ↦
                let other_way : (id == other) ≡ false = ground arith in
                let nothing : received rates id (Act.takes other) t ≡ [] =
                  unfold received in rw (received, apart) refl in
                let two = ap (tally P) nothing in
                let kept = ap (tally P) (inbox-insert_other id other l t.mailboxes other_way) in
                omega (arith, one, two, kept)
          ]
