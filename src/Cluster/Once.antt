-- ===== src/Cluster/Once.antt =====
-- A message arrives at most once: any calls of `Transport` of cluster/mod.rs under src/.
use raft_rust.Base.{
  ℕ, ◌+◌, ◌≤◌, ◌≡◌, refl, sym, subst, inl, inr, Bool, true, false, List, [], ◌∷◌, ◌==◌,
  if◌then◌else◌, arith, Bool-cases, Option-cases,
}
use raft_rust.KeyMap
use raft_rust.KeyMap.{
  get-insert_same, get-insert_other, get-remove_same, get-remove_other, IsAscending,
  insert-IsAscending, remove-IsAscending,
}
use raft_rust.KeyMap.Order.{number_keys}
use raft_rust.Message.{Envelope}
use raft_rust.Cluster.Transport.{
  Rates, Transport, new, register, set_online, pass, partition, partition_one_way, partition_groups,
  heal_pair, release, heal_all, set_drop_rate, set_reorder,
}
use raft_rust.Cluster.Traffic.{inbox, Act, take_first, act, acts, received, all_received, sent_to}
use raft_rust.Cluster.Delivery.{tally, tally-append, added}
use raft_rust.Cluster.Stock.{
  stock, deliver-cases, stock-deliver, stock-register, stock-set_online, stock-release,
  stock-take_first,
}

module _ (rates : Rates) (P : Envelope → Bool) where
  open rates use {Rate}

  stock-act :
      (id : ℕ) (a : Act rates) (t : Transport rates)
      → IsAscending t.held
      → tally P (received rates id a t) + stock rates P id (act rates a t)
        ≤ stock rates P id t + tally P (sent_to rates id (a ∷ []))
  unfolding act received sent_to
  stock-act id (Act.registers other) t sorted = omega (arith, stock-register rates P id other t)
  stock-act id (Act.turns other online) t sorted =
      omega (arith, stock-set_online rates P id other online t)
  stock-act id (Act.delivers draw msg) t sorted =
      let value : tally P (if msg.to == id then msg ∷ [] else []) ≡ added P id msg.to msg =
        ground arith in
      omega (arith, value, stock-deliver rates P id t draw msg)
  stock-act id (Act.partitions a b) t sorted = unfold partition in omega arith
  stock-act id (Act.cuts_off a b) t sorted = unfold partition_one_way in omega arith
  stock-act id (Act.splits left right) t sorted = unfold partition_groups in omega arith
  stock-act id (Act.heals a b) t sorted = unfold heal_pair in omega arith
  stock-act id Act.heals_all t sorted =
      let whole = record t { partitions = [] } in
      unfold heal_all in omega (arith, stock-release rates P id whole sorted)
  stock-act id (Act.drops rate) t sorted = unfold set_drop_rate in omega arith
  stock-act id (Act.reorders true) t sorted = unfold set_reorder in omega arith
  stock-act id (Act.reorders false) t sorted =
      let direct = record t { reorder = false } in
      unfold set_reorder in omega (arith, stock-release rates P id direct sorted)
  stock-act id (Act.takes other) t sorted = omega (arith, stock-take_first rates P id other t)

  tally-sent_to :
      (id : ℕ) (a : Act rates) (l : List (Act rates))
      → tally P (sent_to rates id (a ∷ l))
        ≡ tally P (sent_to rates id (a ∷ [])) + tally P (sent_to rates id l)
  unfolding sent_to
  tally-sent_to id (Act.delivers draw msg) l = elim (Bool-cases (msg.to == id)) [
    | inl here ↦ rw here (omega arith)
    | inr apart ↦ rw apart (omega arith)
  ]
  tally-sent_to id (Act.registers other) l = omega arith
  tally-sent_to id (Act.turns other online) l = omega arith
  tally-sent_to id (Act.partitions a b) l = omega arith
  tally-sent_to id (Act.cuts_off a b) l = omega arith
  tally-sent_to id (Act.splits left right) l = omega arith
  tally-sent_to id (Act.heals a b) l = omega arith
  tally-sent_to id Act.heals_all l = omega arith
  tally-sent_to id (Act.drops rate) l = omega arith
  tally-sent_to id (Act.reorders on) l = omega arith
  tally-sent_to id (Act.takes other) l = omega arith

  pass-IsAscending :
      (t : Transport rates) (msg : Envelope)
      → IsAscending t.held
      → IsAscending (pass rates t msg).held
  unfolding pass
  pass-IsAscending t msg sorted = elim (Bool-cases t.reorder) [
    | inr direct ↦ rw direct sorted
    | inl on ↦ elim (Option-cases (KeyMap.get msg.to t.held)) [
      | inl none_held ↦ rw (on, none_held) (insert-IsAscending msg.to msg t.held sorted)
      | inr (prev, held) ↦ rw (on, held) (remove-IsAscending msg.to t.held sorted)
    ]
  ]

  held-take_first : (t : Transport rates) (id : ℕ) → (take_first rates t id).held ≡ t.held
  held-take_first t id = go (inbox t.mailboxes id) refl
    where
      go : (l : List Envelope) → inbox t.mailboxes id ≡ l → (take_first rates t id).held ≡ t.held
      go [] e = unfold take_first in rw (take_first, e) refl
      go (x ∷ l) e = unfold take_first in rw (take_first, e) refl

  act-IsAscending :
      (a : Act rates) (t : Transport rates) → IsAscending t.held → IsAscending (act rates a t).held
  unfolding act
  act-IsAscending (Act.registers other) t sorted = unfold register in sorted
  act-IsAscending (Act.turns other true) t sorted = unfold set_online in sorted
  act-IsAscending (Act.turns other false) t sorted =
      unfold set_online in remove-IsAscending other t.held sorted
  act-IsAscending (Act.delivers draw msg) t sorted = elim (deliver-cases rates P t draw msg) [
    | inl same ↦ subst (λ (x : Transport rates). IsAscending x.held) (sym same) sorted
    | inr passed ↦
        subst (λ (x : Transport rates). IsAscending x.held) (sym passed)
          (pass-IsAscending t msg sorted)
  ]
  act-IsAscending (Act.partitions a b) t sorted = unfold partition in sorted
  act-IsAscending (Act.cuts_off a b) t sorted = unfold partition_one_way in sorted
  act-IsAscending (Act.splits left right) t sorted = unfold partition_groups in sorted
  act-IsAscending (Act.heals a b) t sorted = unfold heal_pair in sorted
  act-IsAscending Act.heals_all t sorted = unfold heal_all release in tt
  act-IsAscending (Act.drops rate) t sorted = unfold set_drop_rate in sorted
  act-IsAscending (Act.reorders true) t sorted = unfold set_reorder in sorted
  act-IsAscending (Act.reorders false) t sorted = unfold set_reorder release in tt
  act-IsAscending (Act.takes other) t sorted =
      subst IsAscending (sym (held-take_first t other)) sorted

  stock-acts :
      (id : ℕ) (l : List (Act rates)) (t : Transport rates)
      → IsAscending t.held
      → tally P (all_received rates id l t) + stock rates P id (acts rates l t)
        ≤ stock rates P id t + tally P (sent_to rates id l)
  unfolding acts all_received
  stock-acts id [] t sorted = unfold sent_to in omega arith
  stock-acts id (a ∷ l) t sorted =
      let rest = stock-acts id l (act rates a t) (act-IsAscending a t sorted) in
      let first = stock-act id a t sorted in
      let joined =
        tally-append P (received rates id a t) (all_received rates id l (act rates a t)) in
      let sums = tally-sent_to id a l in omega (arith, rest, first, joined, sums)

  -- Of the messages that pass any test, such as being a given one or having a wrong receiver, a
  -- node takes out of its mailboxes, from the transport's start on and under any calls in any order,
  -- partitions, losses, reordering, restarts and all, no more than were given to the transport for
  -- that node: none is made up, doubled or given to another node.
  pub at_most_once :
      (id : ℕ) (l : List (Act rates))
      → tally P (all_received rates id l (new rates)) ≤ tally P (sent_to rates id l)
  at_most_once id l =
      let empty : stock rates P id (new rates) ≡ 0 = unfold new inbox KeyMap.get in refl in
      omega (arith, empty, stock-acts id l (new rates) (unfold new in tt))
