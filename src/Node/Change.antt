-- ===== src/Node/Change.antt =====
-- How a leader changes the configuration: `propose_membership_change` and
-- `maybe_propose_simple_after_joint` of src/raft/node.rs.
use raft_rust.Base.{
  ℕ, Bool, true, false, none, some, List, [], ◌∷◌, invalid_input, Error, Outcome, ok, err, panic,
  ◌>>=◌, ◌==◌, if◌then◌else◌, is_yes, ℕ_discrete,
}
use raft_rust.NodeSet.{NodeSet}
use raft_rust.Membership.{Membership, MembershipEntry, simple, joint, apply_entry, from_iter}
use raft_rust.Log.Ops.{append_membership}
use raft_rust.StateMachine.{StateMachine}
use raft_rust.Node.Types.{RawNode, Leader}
use raft_rust.Node.Common.{peers}
use raft_rust.Node.Progress.{progress_of}
use raft_rust.Node.Replicate.{maybe_send_append, send_new, sync_progress_with_membership}

pub voters-discrete : Discrete (List ℕ)
unfolding ℕ_discrete
voters-discrete = hlevel ℕ_discrete

-- `old == new`
unfoldable pub same_membership : Membership → Membership → Bool
unfolding voters-discrete
same_membership a b = is_yes (voters-discrete a.voters b.voters)

-- `Result<Index>` of a call that has changed the node whether or not it failed.
pub data Proposal : Type 0 where
  accepted : ℕ → Proposal
  refused : Error → Proposal

-- What is left of a configuration change in the old configuration: the voters to come, or why not.
pub data Plan : Type 0 where
  change : MembershipEntry → Plan
  no_change : Plan

unfoldable pub plan : Bool → MembershipEntry → NodeSet → Plan
unfolding same_membership
plan true active voters = no_change
plan false (joint old new) voters = no_change
plan false (simple old) [] = no_change
plan false (simple old) (v ∷ voters) =
    let new = from_iter (v ∷ voters) in
    if same_membership old new then no_change else change (joint old new)

module _ (sm : StateMachine) where
  open sm use {Machine}

  -- The loop over the peers, where the caller sees the node as it is when a call fails.
  -- `maybe_send_append` has changed nothing where it fails.
  unfoldable pub send_each :
      ℕ → NodeSet → RawNode Machine Leader → Outcome (RawNode Machine Leader × Proposal)
  unfolding maybe_send_append
  send_each index [] n = ok (n, accepted index)
  send_each index (peer ∷ ids) n = elim (progress_of peer n.role.progress) [
    | none ↦ panic
    | some p ↦ elim (if index == p.next_index then maybe_send_append sm n peer false else ok n) [
      | ok n' ↦ send_each index ids n'
      | err e ↦ ok (n, refused e)
      | panic ↦ panic
    ]
  ]

  -- `append_membership`, and what both callers do with it before the peers are told.
  unfoldable pub append_change :
      RawNode Machine Leader → MembershipEntry → Outcome (RawNode Machine Leader × ℕ)
  append_change n m = do
    (log, index) ← append_membership n.log m
    synced ←
        sync_progress_with_membership
          (record n { log = log; membership = apply_entry n.membership m })
    ok (synced, index)

  unfoldable pub propose_membership_change :
      RawNode Machine Leader → NodeSet → Outcome (RawNode Machine Leader × Proposal)
  unfolding plan send_each append_change
  propose_membership_change n voters =
      elim (plan n.membership.change_pending n.membership.active voters) [
        | no_change ↦ ok (n, refused invalid_input)
        | change m ↦ do (synced, index) ← append_change n m; send_each index (peers synced) synced
      ]

  unfoldable pub maybe_propose_simple_after_joint :
      RawNode Machine Leader → MembershipEntry → Outcome (RawNode Machine Leader)
  unfolding append_change
  maybe_propose_simple_after_joint n (simple m) = ok n
  maybe_propose_simple_after_joint n (joint old new) = do
    (synced, index) ← append_change n (simple new)
    send_new sm index (peers synced) synced
