-- ===== src/Election/Proposals.antt =====
-- The proposals and commits of a leader in src/raft/node.rs, none of which sends a vote.
use raft_rust.Base.{
  ℕ, ◌≡◌, ◌∙◌, inl, inr, Bool, false, ◌||◌, Option, none, List, [], ◌∷◌, ok, panic, ◌>>=◌,
  >>=-eq-ok, Outcome-cases, invalid_input, leb, ◌==◌, if◌then◌else◌, arith, Bool-cases,
  Option-cases, u64_add,
}
use raft_rust.NodeSet.{NodeSet}
use raft_rust.Membership.{MembershipEntry, simple, joint, apply_entry}
use raft_rust.Log.Entry.{Bytes}
use raft_rust.Log.Ops.{
  get, append_entry, append_membership, scan_apply, set_snapshot_data, compact_to,
}
use raft_rust.StateMachine.{StateMachine}
use raft_rust.Node.Types.{RawNode, Leader}
use raft_rust.Node.Common.{peers}
use raft_rust.Node.Progress.{progress_of}
use raft_rust.Node.Commit.{commit_candidate, check_term, advance_commit}
use raft_rust.Node.Replicate.{maybe_send_append, send_new, sync_progress_with_membership, propose}
use raft_rust.Node.Reads.{maybe_read}
use raft_rust.Node.Change.{
  Plan, plan, change, no_change, Proposal, refused, send_each, append_change,
  propose_membership_change, maybe_propose_simple_after_joint,
}
use raft_rust.Node.Apply.{
  apply_committed, changes_of, is_removed, follow_up, take_snapshot, maybe_snapshot, after_commit,
  maybe_commit_and_apply,
}
use raft_rust.Election.Ballots.{ballots}
use raft_rust.Election.Leaders.{
  ballots-sync, ballots-maybe_send_append, ballots-send_new, ballots-maybe_read,
}
use raft_rust.Election.Applied.{ballots-apply_committed}

ballots-advance_commit :
    {S : Type 0} (n : RawNode S Leader) {p : RawNode S Leader × Bool}
    → advance_commit n ≡ ok p
    → ballots p.0 ≡ ballots n
unfolding advance_commit ballots
ballots-advance_commit n {p} h =
    let index = commit_candidate n in
    let (bound, added, h1) = >>=-eq-ok (u64_add n.log.commit_index 1) _ h in
    elim (Bool-cases (leb index n.log.commit_index)) [
      | inl nothing ↦ ground arith
      | inr some_index ↦
          let called : (check_term n.log index (get n.log index) >>= λ q.
          ok (record n { log = q.0 }, q.1))
              ≡ ok p =
            ground arith in
          let (q, checked, same) = >>=-eq-ok (check_term n.log index (get n.log index)) _ called in
          ground arith
    ]

module _ (sm : StateMachine) where
  open sm use {Machine}

  pub ballots-propose :
      (n : RawNode Machine Leader) (command : Option Bytes) {p : RawNode Machine Leader × ℕ}
      → propose sm n command ≡ ok p
      → ballots p.0 ≡ ballots n
  unfolding propose ballots
  ballots-propose n command {p} h =
      let (q, added, h1) = >>=-eq-ok (append_entry n.log command none) _ h in
      let (m, told, same) = >>=-eq-ok (send_new sm q.1 (peers n) (record n { log = q.0 })) _ h1 in
      ground (arith, ballots-send_new sm q.1 (peers n) (record n { log = q.0 }) told)

  ballots-append_change :
      (n : RawNode Machine Leader) (m : MembershipEntry) {p : RawNode Machine Leader × ℕ}
      → append_change sm n m ≡ ok p
      → ballots p.0 ≡ ballots n
  unfolding append_change ballots
  ballots-append_change n m {p} h =
      let (q, added, h1) = >>=-eq-ok (append_membership n.log m) _ h in
      let changed = record n { log = q.0; membership = apply_entry n.membership m } in
      let (synced, kept, same) = >>=-eq-ok (sync_progress_with_membership changed) _ h1 in
      ground (arith, ballots-sync changed kept)

  ballots-send_each :
      (index : ℕ) (ids : NodeSet) (n : RawNode Machine Leader)
      {p : RawNode Machine Leader × Proposal}
      → send_each sm index ids n ≡ ok p
      → ballots p.0 ≡ ballots n
  unfolding send_each
  ballots-send_each index [] n h = ground arith
  ballots-send_each index (peer ∷ ids) n {p} h =
      elim (Option-cases (progress_of peer n.role.progress)) [
        | inl unknown ↦ absurd (ground arith)
        | inr (q, known) ↦
            elim (Outcome-cases
              (if index == q.next_index then maybe_send_append sm n peer false else ok n)) [
                | inl (m, sent) ↦
                    ballots-send_each index ids m (rw (send_each, known, sent) at h)
                    ∙ ground (arith, ballots-maybe_send_append sm n peer false {n' = m})
                | inr (inl (e, failing)) ↦
                    let same : ok (n, refused e) ≡ ok p = rw (send_each, known, failing) at h in
                    ground arith
                | inr (inr panicked) ↦
                    let same : panic ≡ ok p = rw (send_each, known, panicked) at h in
                    absurd (ground arith)
              ]
      ]

  pub ballots-propose_membership_change :
      (n : RawNode Machine Leader) (voters : NodeSet) {p : RawNode Machine Leader × Proposal}
      → propose_membership_change sm n voters ≡ ok p
      → ballots p.0 ≡ ballots n
  ballots-propose_membership_change n voters {p} h =
      go (plan n.membership.change_pending n.membership.active voters)
        (unfold propose_membership_change in h)
    where
      go :
          (r : Plan)
          → elim r [
            | no_change ↦ ok (n, refused invalid_input)
            | change m ↦ append_change sm n m >>= λ q. send_each sm q.1 (peers q.0) q.0
          ]
            ≡ ok p
          → ballots p.0 ≡ ballots n
      go no_change e = ground arith
      go (change m) e =
          let (q, appended, told) = >>=-eq-ok (append_change sm n m) _ e in
          ballots-send_each q.1 (peers q.0) q.0 told ∙ ballots-append_change n m appended

  ballots-simple_after_joint :
      (n : RawNode Machine Leader) (m : MembershipEntry) {n' : RawNode Machine Leader}
      → maybe_propose_simple_after_joint sm n m ≡ ok n'
      → ballots n' ≡ ballots n
  unfolding maybe_propose_simple_after_joint
  ballots-simple_after_joint n (simple m) h = ground arith
  ballots-simple_after_joint n (joint old new) h =
      let (q, appended, told) = >>=-eq-ok (append_change sm n (simple new)) _ h in
      ballots-send_new sm q.1 (peers q.0) q.0 told ∙ ballots-append_change n (simple new) appended

  ballots-follow_up :
      (changes : List MembershipEntry) (down : Bool) (n : RawNode Machine Leader)
      {p : RawNode Machine Leader × Bool}
      → follow_up sm changes down n ≡ ok p
      → ballots p.0 ≡ ballots n
  unfolding follow_up
  ballots-follow_up [] down n h = ground arith
  ballots-follow_up (m ∷ changes) down n {p} h =
      let (proposed, called, h1) = >>=-eq-ok (maybe_propose_simple_after_joint sm n m) _ h in
      let (synced, kept, h2) = >>=-eq-ok (sync_progress_with_membership proposed) _ h1 in
      ballots-follow_up changes (down || is_removed sm synced) synced h2
      ∙ ballots-sync proposed kept
      ∙ ballots-simple_after_joint n m called

  ballots-take_snapshot :
      (n : RawNode Machine Leader) (applied term : ℕ) {n' : RawNode Machine Leader}
      → take_snapshot sm n applied term ≡ ok n'
      → ballots n' ≡ ballots n
  unfolding take_snapshot ballots
  ballots-take_snapshot n applied term h =
      let (bytes, a, h1) = >>=-eq-ok (sm.snapshot n.state) _ h in
      let (log, b, same) =
        >>=-eq-ok (compact_to (set_snapshot_data n.log bytes) applied term) _ h1 in
      ground arith

  ballots-maybe_snapshot :
      (n : RawNode Machine Leader) {n' : RawNode Machine Leader}
      → maybe_snapshot sm n ≡ ok n'
      → ballots n' ≡ ballots n
  unfolding maybe_snapshot
  ballots-maybe_snapshot n {n'} h =
      let applied = sm.get_applied_index n.state in
      elim (Option-cases (get n.log applied)) [
        | inl missing ↦ ground (arith, ballots-take_snapshot n applied n.log.commit_term {n' = n'})
        | inr (e, found) ↦ ground (arith, ballots-take_snapshot n applied e.term {n' = n'})
      ]

  ballots-after_commit :
      (old_term : ℕ) (n : RawNode Machine Leader) {p : RawNode Machine Leader × Bool}
      → after_commit sm old_term n ≡ ok p
      → ballots p.0 ≡ ballots n
  unfolding after_commit
  ballots-after_commit old_term n {p} h =
      let entries = scan_apply n.log (sm.get_applied_index n.state) in
      let (applied, a, h1) = >>=-eq-ok (apply_committed sm entries n) _ h in
      let (f, b, h2) = >>=-eq-ok (follow_up sm (changes_of sm entries) false applied) _ h1 in
      let (answered, c, h3) =
        >>=-eq-ok (if old_term == f.0.log.term then ok f.0 else maybe_read sm f.0) _ h2 in
      let (kept, d, same) =
        >>=-eq-ok (if f.1 then ok answered else maybe_snapshot sm answered) _ h3 in
      let read : ballots answered ≡ ballots f.0 =
        ground (arith, ballots-maybe_read sm f.0 {n' = answered}) in
      let last : ballots p.0 ≡ ballots answered =
        ground (arith, ballots-maybe_snapshot answered {n' = kept}) in
      last
      ∙ read
      ∙ ballots-follow_up (changes_of sm entries) false applied b
      ∙ ballots-apply_committed sm entries n a

  pub ballots-maybe_commit_and_apply :
      (n : RawNode Machine Leader) {p : RawNode Machine Leader × Bool}
      → maybe_commit_and_apply sm n ≡ ok p
      → ballots p.0 ≡ ballots n
  unfolding maybe_commit_and_apply
  ballots-maybe_commit_and_apply n {p} h =
      let (q, a, h1) = >>=-eq-ok (advance_commit n) _ h in
      elim (Bool-cases q.1) [
        | inl moved ↦
            let called : after_commit sm n.log.commit_term q.0 ≡ ok p = ground arith in
            ballots-after_commit n.log.commit_term q.0 called ∙ ballots-advance_commit n a
        | inr stays ↦ ground arith
      ]
