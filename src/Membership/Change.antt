-- ===== src/Membership/Change.antt =====
-- The course of a change of the configuration.
use raft_rust.Base.{◌≡◌, true, arith}
use raft_rust.Membership.{MembershipEntry, MembershipState, is_joint, apply_entry, on_commit}

-- An appended entry is in force at once and marks a change as under way; the change ends exactly
-- when the entry that is committed is not a joint one, and a commit leaves the configuration alone.
pub change_course :
    (s : MembershipState) (appended committed : MembershipEntry)
    → ((apply_entry s appended).active ≡ appended)
      × ((apply_entry s appended).change_pending ≡ true)
      × ((on_commit s committed).active ≡ s.active)
      × ((on_commit s committed).change_pending ≡ is_joint committed)
unfolding apply_entry on_commit is_joint
change_course s appended committed = ground arith
