-- ===== src/Membership/Quorum.antt =====
-- Why majorities make a configuration safe: two of them always share a voter.
use raft_rust.Base.{ℕ, ◌≡◌, true, arith}
use raft_rust.NodeSet
use raft_rust.NodeSet.{NodeSet}
use raft_rust.NodeSet.Order.{contains-union}
use raft_rust.NodeSet.Count.{count_overlap, count_mono}
use raft_rust.Membership.{
  Membership, MembershipEntry, simple, joint, contains, is_majority, has_quorum, all_voters,
}

-- `id` is a voter of `m` and belongs to both sets.
abbrev pub Shares : Membership → NodeSet → NodeSet → ℕ → Type 0
Shares m a b id =
    (contains m id ≡ true) × (NodeSet.contains a id ≡ true) × (NodeSet.contains b id ≡ true)

-- Two sets that each hold a majority of one configuration share one of its voters.
pub majorities_share :
    (m : Membership) (a b : NodeSet)
    → is_majority m a ≡ true
    → is_majority m b ≡ true
    → (id : ℕ) × Shares m a b id
unfolding is_majority contains NodeSet.count_common
majorities_share m a b ha hb =
    let (id, member, in_a, in_b) =
      count_overlap (NodeSet.contains a) (NodeSet.contains b) m.voters (ground arith) in
    (id, (member, in_a, in_b))

-- A joint configuration's quorum shares a voter with every majority of the old configuration, and
-- one with every majority of the new one: a decision under the joint configuration cannot be made
-- beside one under either.
pub joint_quorum-Shares :
    (old new : Membership) (a b : NodeSet)
    → has_quorum (joint old new) a ≡ true
    → (is_majority old b ≡ true → (id : ℕ) × Shares old a b id)
      × (is_majority new b ≡ true → (id : ℕ) × Shares new a b id)
unfolding has_quorum
joint_quorum-Shares old new a b h = (
  λ hb. majorities_share old a b (ground arith) hb,
  λ hb. majorities_share new a b (ground arith) hb,
)

-- More responses never lose a quorum.
is_majority_mono :
    (m : Membership) (a b : NodeSet)
    → ((id : ℕ) → NodeSet.contains a id ≡ true → NodeSet.contains b id ≡ true)
    → is_majority m a ≡ true
    → is_majority m b ≡ true
unfolding is_majority NodeSet.count_common
is_majority_mono m a b sub h =
    ground (arith, count_mono (NodeSet.contains a) (NodeSet.contains b) m.voters sub)

-- More responses never lose a quorum, simple or joint.
has_quorum_mono :
    (e : MembershipEntry) (a b : NodeSet)
    → ((id : ℕ) → NodeSet.contains a id ≡ true → NodeSet.contains b id ≡ true)
    → has_quorum e a ≡ true
    → has_quorum e b ≡ true
unfolding has_quorum
has_quorum_mono (simple m) a b sub h = is_majority_mono m a b sub h
has_quorum_mono (joint old new) a b sub h =
    ground (arith, is_majority_mono old a b sub, is_majority_mono new a b sub)

-- Two quorums of one configuration, simple or joint, share a voter of it.
pub quorums_share :
    (e : MembershipEntry) (a b : NodeSet)
    → has_quorum e a ≡ true
    → has_quorum e b ≡ true
    → (id : ℕ) × (NodeSet.contains (all_voters e) id ≡ true)
      × (NodeSet.contains a id ≡ true)
      × (NodeSet.contains b id ≡ true)
unfolding has_quorum all_voters contains
quorums_share (simple m) a b ha hb =
    let (id, (member, in_a, in_b)) = majorities_share m a b ha hb in (id, member, in_a, in_b)
quorums_share (joint old new) a b ha hb =
    let (id, (member, in_a, in_b)) = majorities_share old a b (ground arith) (ground arith) in
    (id, ground (arith, contains-union id old.voters new.voters), in_a, in_b)
