-- ===== src/Cluster/Cuts.antt =====
-- Which nodes are cut from each other: `Transport` of cluster/mod.rs under src/.
use raft_rust.Base.{
  ℕ, ◌≡◌, refl, sym, subst, inl, inr, true, false, ◌&&◌, ◌||◌, not, List, [], ◌∷◌, ◌==◌, arith,
  Bool-cases, Option-cases,
}
use raft_rust.KeyMap
use raft_rust.KeyMap.{get-insert_same, get-insert_other, get-remove_same, get-remove_other}
use raft_rust.KeyMap.Order.{number_keys}
use raft_rust.Message.{Envelope}
use raft_rust.NodeSet.{contains}
use raft_rust.Cluster.Traffic.{Act, act, acts, take_first, inbox, may_join, none_joins}
use raft_rust.Cluster.Transport.{
  Rates, is_cut, cut, mend, cut_one, cut_groups, Transport, register, set_online, pass, deliver,
  partition, partition_one_way, partition_groups, heal_pair, release, set_drop_rate, set_reorder,
}

-- Which pairs are cut.
is_cut-cut :
    (a b x y : ℕ) (cuts : List (ℕ × ℕ))
    → is_cut (cut a b cuts) x y ≡ ((a == x && b == y) || is_cut cuts x y)
unfolding cut is_cut
is_cut-cut a b x y cuts = elim (Bool-cases (is_cut cuts a b)) [
  | inr fresh ↦ ground arith
  | inl there ↦ elim (Bool-cases (a == x && b == y)) [
    | inr other ↦ ground arith
    | inl same ↦
        let one : a ≡ x = ground arith in
        let two : b ≡ y = ground arith in
        let known : is_cut cuts x y ≡ true =
          subst (λ v. is_cut cuts x v ≡ true) two (subst (λ u. is_cut cuts u b ≡ true) one there) in
        ground arith
  ]
]

is_cut-mend :
    (a b x y : ℕ) (cuts : List (ℕ × ℕ))
    → is_cut (mend a b cuts) x y ≡ (not (a == x && b == y) && is_cut cuts x y)
unfolding mend is_cut
is_cut-mend a b x y [] = ground arith
is_cut-mend a b x y ((u, v) ∷ cuts) = ground (arith, is_cut-mend a b x y cuts)

is_cut-cut_one :
    (a x y : ℕ) (right : List ℕ) (cuts : List (ℕ × ℕ))
    → is_cut (cut_one a right cuts) x y
      ≡ ((a == x && contains right y) || (a == y && contains right x) || is_cut cuts x y)
unfolding cut_one contains
is_cut-cut_one a x y [] cuts = ground arith
is_cut-cut_one a x y (b ∷ right) cuts = ground (
  arith,
  is_cut-cut_one a x y right (cut b a (cut a b cuts)),
  is_cut-cut b a x y (cut a b cuts),
  is_cut-cut a b x y cuts,
)

-- Two groups are cut from each other in both directions, and nothing else changes.
pub is_cut-cut_groups :
    (left right : List ℕ) (x y : ℕ) (cuts : List (ℕ × ℕ))
    → is_cut (cut_groups left right cuts) x y ≡ (
        (contains left x && contains right y)
        || (contains left y && contains right x)
        || is_cut cuts x y)
unfolding cut_groups contains
is_cut-cut_groups [] right x y cuts = ground arith
is_cut-cut_groups (a ∷ left) right x y cuts = ground (
  arith,
  is_cut-cut_groups left right x y (cut_one a right cuts),
  is_cut-cut_one a x y right cuts,
)

module _ (rates : Rates) where
  open rates use {Rate}

  partitions-deliver :
      (t : Transport rates) (draw : Rate) (msg : Envelope)
      → (deliver rates t draw msg).partitions ≡ t.partitions
  unfolding deliver pass
  partitions-deliver t draw msg = elim (Option-cases (KeyMap.get msg.to t.held)) [
    | inl none_held ↦ ground arith
    | inr (prev, waits) ↦ ground arith
  ]

  partitions-take_first :
      (t : Transport rates) (id : ℕ) → (take_first rates t id).partitions ≡ t.partitions
  unfolding take_first
  partitions-take_first t id = go (inbox t.mailboxes id) refl
    where
      go :
          (l : List Envelope)
          → inbox t.mailboxes id ≡ l
          → (take_first rates t id).partitions ≡ t.partitions
      go [] e = rw (take_first, e) refl
      go (x ∷ l) e = rw (take_first, e) refl

  act-is_cut :
      (from to : ℕ) (a : Act rates) (t : Transport rates)
      → may_join rates from to a ≡ false
      → is_cut t.partitions from to ≡ true
      → is_cut (act rates a t).partitions from to ≡ true
  unfolding act may_join
  act-is_cut from to (Act.registers id) t apart h = unfold register in h
  act-is_cut from to (Act.turns id online) t apart h = unfold set_online in h
  act-is_cut from to (Act.delivers draw msg) t apart h =
      subst (λ c. is_cut c from to ≡ true) (sym (partitions-deliver t draw msg)) h
  act-is_cut from to (Act.partitions a b) t apart h =
      unfold partition in
      ground
        (arith, is_cut-cut b a from to (cut a b t.partitions), is_cut-cut a b from to t.partitions)
  act-is_cut from to (Act.cuts_off a b) t apart h =
      unfold partition_one_way in ground (arith, is_cut-cut a b from to t.partitions)
  act-is_cut from to (Act.splits left right) t apart h =
      unfold partition_groups in ground (arith, is_cut-cut_groups left right from to t.partitions)
  act-is_cut from to (Act.heals a b) t apart h =
      unfold heal_pair in
      ground (
        arith,
        is_cut-mend b a from to (mend a b t.partitions),
        is_cut-mend a b from to t.partitions,
      )
  act-is_cut from to Act.heals_all t apart h = absurd (ground arith)
  act-is_cut from to (Act.drops rate) t apart h = unfold set_drop_rate in h
  act-is_cut from to (Act.reorders on) t apart h = unfold set_reorder release in ground arith
  act-is_cut from to (Act.takes id) t apart h =
      subst (λ c. is_cut c from to ≡ true) (sym (partitions-take_first t id)) h

  acts-is_cut :
      (from to : ℕ) (l : List (Act rates)) (t : Transport rates)
      → none_joins rates from to l ≡ true
      → is_cut t.partitions from to ≡ true
      → is_cut (acts rates l t).partitions from to ≡ true
  unfolding acts none_joins
  acts-is_cut from to [] t apart h = h
  acts-is_cut from to (a ∷ l) t apart h =
      acts-is_cut from to l (act rates a t) (ground arith) (act-is_cut from to a t (ground arith) h)

  -- Two groups that are split stay apart, in both directions, whatever is then done with the
  -- transport, as long as no call of `heal_pair` names the two nodes and `heal_all` is not called:
  -- a message between them leaves the transport as it was.
  pub split_apart :
      (t : Transport rates) (left right : List ℕ) (l : List (Act rates)) (draw : Rate)
      (msg : Envelope)
      → (contains left msg.from && contains right msg.to
          || contains left msg.to && contains right msg.from)
        ≡ true
      → none_joins rates msg.from msg.to l ≡ true
      → deliver rates (acts rates l (partition_groups rates t left right)) draw msg
        ≡ acts rates l (partition_groups rates t left right)
  unfolding deliver
  split_apart t left right l draw msg across apart =
      let split = partition_groups rates t left right in
      let cut_now : is_cut split.partitions msg.from msg.to ≡ true =
        unfold partition_groups in
        ground (arith, is_cut-cut_groups left right msg.from msg.to t.partitions) in
      let still = acts-is_cut msg.from msg.to l split apart cut_now in ground arith
