-- ===== src/Tests/Members.antt =====
-- The theorems on configurations, at configurations of three to five nodes.
use raft_rust.Base.{ℕ, ◌≡◌, refl, true, [], ◌∷◌}
use raft_rust.NodeSet
use raft_rust.NodeSet.{NodeSet}
use raft_rust.Membership.{
  Membership, MembershipEntry, joint, from_iter, has_quorum, is_majority, all_voters, quorum_size,
}
use raft_rust.Membership.Quorum.{Shares, joint_quorum-Shares, quorums_share}

abbrev three : Membership
unfolding from_iter NodeSet.extend
three = from_iter (3 ∷ 1 ∷ 2 ∷ [])

abbrev five : Membership
unfolding from_iter NodeSet.extend
five = from_iter (1 ∷ 2 ∷ 3 ∷ 4 ∷ 5 ∷ [])

abbrev change : MembershipEntry
change = joint three five

change_quorum : has_quorum change (1 ∷ 2 ∷ 4 ∷ []) ≡ true
unfolding from_iter NodeSet.extend has_quorum is_majority quorum_size NodeSet.count_common
    NodeSet.contains
change_quorum = refl

other_quorum : has_quorum change (2 ∷ 3 ∷ 5 ∷ []) ≡ true
unfolding from_iter NodeSet.extend has_quorum is_majority quorum_size NodeSet.count_common
    NodeSet.contains
other_quorum = refl

quorums_share_example :
    (id : ℕ) × (NodeSet.contains (all_voters change) id ≡ true)
    × (NodeSet.contains (1 ∷ 2 ∷ 4 ∷ []) id ≡ true)
    × (NodeSet.contains (2 ∷ 3 ∷ 5 ∷ []) id ≡ true)
quorums_share_example =
    quorums_share change (1 ∷ 2 ∷ 4 ∷ []) (2 ∷ 3 ∷ 5 ∷ []) change_quorum other_quorum

joint_quorum-Shares_example :
    (is_majority three (2 ∷ 3 ∷ []) ≡ true
      → (id : ℕ) × Shares three (1 ∷ 2 ∷ 4 ∷ []) (2 ∷ 3 ∷ []) id)
    × (is_majority five (2 ∷ 3 ∷ []) ≡ true
        → (id : ℕ) × Shares five (1 ∷ 2 ∷ 4 ∷ []) (2 ∷ 3 ∷ []) id)
joint_quorum-Shares_example =
    joint_quorum-Shares three five (1 ∷ 2 ∷ 4 ∷ []) (2 ∷ 3 ∷ []) change_quorum
