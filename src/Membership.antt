-- ===== src/Membership.antt =====
-- src/raft/membership.rs: the voting configurations, joint consensus among them, and the
-- configuration that a node acts by.
pub mod Voters
pub mod Quorum
pub mod Change
use raft_rust.Base.{ℕ, ◌+◌, ◌/◌, Bool, true, false, ◌&&◌, List, [], ◌∷◌, length, leb}
use raft_rust.NodeSet
use raft_rust.NodeSet.{NodeSet}

pub record Membership : Type 0 where
  pub voters : NodeSet

unfoldable pub from_iter : List ℕ → Membership
from_iter l = record { voters = NodeSet.extend [] l }

unfoldable pub contains : Membership → ℕ → Bool
contains m id = NodeSet.contains m.voters id

abbrev pub len : Membership → ℕ
len m = length m.voters

unfoldable pub is_empty : Membership → Bool
is_empty m = elim m.voters [ [] ↦ true | x ∷ s ↦ false ]

-- A strict majority.
unfoldable pub quorum_size : Membership → ℕ
quorum_size m = len m / 2 + 1

-- `Membership::has_quorum`
unfoldable pub is_majority : Membership → NodeSet → Bool
unfolding quorum_size
is_majority m matched = leb (quorum_size m) (NodeSet.count_common m.voters matched)

pub data MembershipEntry : Type 0 where
  joint : Membership → Membership → MembershipEntry
  simple : Membership → MembershipEntry

unfoldable pub all_voters : MembershipEntry → NodeSet
all_voters (simple m) = m.voters
all_voters (joint old new) = NodeSet.union old.voters new.voters

unfoldable pub target : MembershipEntry → Membership
target (simple m) = m
target (joint old new) = new

unfoldable pub is_joint : MembershipEntry → Bool
is_joint (simple m) = false
is_joint (joint old new) = true

unfoldable pub has_quorum : MembershipEntry → NodeSet → Bool
has_quorum (simple m) matched = is_majority m matched
has_quorum (joint old new) matched = is_majority old matched && is_majority new matched

-- The configuration in force, and whether a change of it is under way.
pub record MembershipState : Type 0 where
  pub active : MembershipEntry
  pub change_pending : Bool

unfoldable pub bootstrap : ℕ → List ℕ → MembershipState
bootstrap id peers = record {
  active = simple (record { voters = NodeSet.extend (NodeSet.insert id []) peers });
  change_pending = false;
}

unfoldable pub peers_of : MembershipState → ℕ → NodeSet
peers_of s id = NodeSet.remove id (all_voters s.active)

unfoldable pub apply_entry : MembershipState → MembershipEntry → MembershipState
apply_entry s entry = record { active = entry; change_pending = true }

unfoldable pub on_commit : MembershipState → MembershipEntry → MembershipState
on_commit s (joint old new) = record s { change_pending = true }
on_commit s (simple m) = record s { change_pending = false }
