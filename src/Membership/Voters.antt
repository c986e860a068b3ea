-- ===== src/Membership/Voters.antt =====
-- Which nodes a configuration names.
use raft_rust.Base.{ℕ, ◌≡◌, refl, false, ◌||◌, List, [], arith, ◌==◌, if◌then◌else◌}
use raft_rust.NodeSet
use raft_rust.NodeSet.Order.{
  IsAscending, contains-union, contains-remove, contains-insert, contains-extend,
  extend-IsAscending, insert-IsAscending,
}
use raft_rust.Membership.{
  Membership, MembershipEntry, MembershipState, simple, joint, contains, all_voters, bootstrap,
  peers_of,
}

-- A well-formed configuration keeps its voters as a set does: in order and without repetition.
abbrev pub IsConfiguration : MembershipEntry → Type 0
IsConfiguration (simple m) = IsAscending m.voters
IsConfiguration (joint old new) = IsAscending old.voters × IsAscending new.voters

-- A node is a voter of a joint configuration exactly when it is one of the old or the new one.
pub contains-all_voters_joint :
    (old new : Membership) (id : ℕ)
    → NodeSet.contains (all_voters (joint old new)) id ≡ (contains old id || contains new id)
unfolding all_voters contains
contains-all_voters_joint old new id = contains-union id old.voters new.voters

pub all_voters-IsAscending : (e : MembershipEntry) → IsConfiguration e → IsAscending (all_voters e)
unfolding all_voters NodeSet.union
all_voters-IsAscending (simple m) h = h
all_voters-IsAscending (joint old new) h = extend-IsAscending old.voters new.voters h.0

-- The peers of a node are the voters of the configuration in force, without the node itself.
contains-peers_of :
    (s : MembershipState) (id other : ℕ)
    → NodeSet.contains (peers_of s id) other
      ≡ (if id == other then false else NodeSet.contains (all_voters s.active) other)
unfolding peers_of
contains-peers_of s id other = contains-remove id other (all_voters s.active)

contains-nil : (id : ℕ) → NodeSet.contains [] id ≡ false
unfolding NodeSet.contains
contains-nil id = refl

-- A node starts with itself and its configured peers as the voters, each once, and with no change
-- of the configuration under way.
bootstrap_voters :
    (id : ℕ) (peers : List ℕ)
    → IsConfiguration (bootstrap id peers).active
      × ((other : ℕ)
          → NodeSet.contains (all_voters (bootstrap id peers).active) other
            ≡ ((id == other) || NodeSet.contains peers other))
      × ((bootstrap id peers).change_pending ≡ false)
unfolding bootstrap all_voters
bootstrap_voters id peers = (
  extend-IsAscending _ peers (insert-IsAscending id [] tt),
  λ other. ground (
    arith,
    contains-extend other (NodeSet.insert id []) peers,
    contains-insert id other [],
    contains-nil other,
  ),
  refl,
)
