-- ===== src/Node/LeadGrows.antt =====
-- A leader's own operations and its log: `propose`, `propose_membership_change` and
-- `maybe_commit_and_apply` of src/raft/node.rs.
use raft_rust.Base.{
  ℕ, ◌≡◌, sym, subst, ◌∙◌, ◌⊎◌, inl, inr, Bool, true, false, ◌||◌, Option, none, some, List, [],
  ◌∷◌, ok, panic, ◌>>=◌, >>=-eq-ok, Outcome-cases, invalid_input, leb, ◌==◌, if◌then◌else◌, arith,
  Bool-cases, Option-cases, u64_add,
}
use raft_rust.NodeSet.{NodeSet}
use raft_rust.Membership.{MembershipEntry, simple, joint, apply_entry}
use raft_rust.Log.Entry.{Entry, Bytes}
use raft_rust.Log.Ops.{Log, get, append_entry, commit, scan_apply}
use raft_rust.Log.Lead.{start, more, adds, commits, Grows, Grows-of_eq, Grows-trans}
use raft_rust.StateMachine.{StateMachine}
use raft_rust.Node.Types.{RawNode, Leader}
use raft_rust.Node.Common.{peers}
use raft_rust.Node.Progress.{progress_of}
use raft_rust.Node.Commit.{commit_candidate, check_term, advance_commit}
use raft_rust.Node.Replicate.{maybe_send_append, send_new, sync_progress_with_membership, propose}
use raft_rust.Node.Reads.{maybe_read}
use raft_rust.Node.Change.{
  Plan, plan, change, no_change, Proposal, refused, send_each, append_change,
  propose_membership_change, maybe_propose_simple_after_joint,
}
use raft_rust.Node.Apply.{
  apply_committed, changes_of, is_removed, follow_up, maybe_snapshot, after_commit,
  maybe_commit_and_apply,
}
use raft_rust.Node.LeadLogs.{
  log-sync, log-maybe_send_append, log-send_new, log-maybe_read, log-apply_committed,
}
use raft_rust.Node.SnapshotGrows.{snapshot_if}

check_term_log :
    (log : Log) (index : ℕ) (found : Option Entry) {p : Log × Bool}
    → check_term log index found ≡ ok p
    → (p.0 ≡ log) ⊎ ((k : ℕ) × (commit log index ≡ ok (p.0, k)))
unfolding check_term
check_term_log log index none h = absurd (ground arith)
check_term_log log index (some e) {p} h = elim (Bool-cases (e.term == log.term)) [
  | inr other ↦ inl (ground arith)
  | inl current ↦
      let called : (commit log index >>= λ q. ok (q.0, true)) ≡ ok p = ground arith in
      let (q, done, same) = >>=-eq-ok (commit log index) _ called in inr (q.1, ground arith)
]

advance_commit-Grows :
    {S : Type 0} (n : RawNode S Leader) {p : RawNode S Leader × Bool}
    → advance_commit n ≡ ok p
    → Grows n.log p.0.log
unfolding advance_commit
advance_commit-Grows n {p} h =
    let index = commit_candidate n in
    let (bound, added, h1) = >>=-eq-ok (u64_add n.log.commit_index 1) _ h in
    elim (Bool-cases (leb index n.log.commit_index)) [
      | inl nothing ↦ Grows-of_eq (ground arith)
      | inr some_index ↦
          let called : (check_term n.log index (get n.log index) >>= λ q.
          ok (record n { log = q.0 }, q.1))
              ≡ ok p =
            ground arith in
          let (q, checked, same) = >>=-eq-ok (check_term n.log index (get n.log index)) _ called in
          let log : q.0 ≡ p.0.log = ground arith in
          elim (check_term_log n.log index (get n.log index) checked) [
            | inl kept ↦ Grows-of_eq (sym log ∙ kept)
            | inr done ↦ subst (Grows n.log) log (λ s. more start (commits index done.0 done.1))
          ]
    ]

module _ (sm : StateMachine) where
  open sm use {Machine}

  pub propose-Grows :
      (n : RawNode Machine Leader) (command : Option Bytes) {p : RawNode Machine Leader × ℕ}
      → propose sm n command ≡ ok p
      → Grows n.log p.0.log
  unfolding propose
  propose-Grows n command {p} h =
      let (q, added, h1) = >>=-eq-ok (append_entry n.log command none) _ h in
      let (m, told, same) = >>=-eq-ok (send_new sm q.1 (peers n) (record n { log = q.0 })) _ h1 in
      let log : q.0 ≡ p.0.log =
        ground (arith, log-send_new sm q.1 (peers n) (record n { log = q.0 }) told) in
      subst (Grows n.log) log (λ s. more start (adds command none q.1 added))

  append_change-Grows :
      (n : RawNode Machine Leader) (m : MembershipEntry) {p : RawNode Machine Leader × ℕ}
      → append_change sm n m ≡ ok p
      → Grows n.log p.0.log
  unfolding append_change
  append_change-Grows n m {p} h =
      let (q, added, h1) = >>=-eq-ok (append_entry n.log none (some m)) _ h in
      let (synced, done, same) =
        >>=-eq-ok
          (sync_progress_with_membership
            (record n { log = q.0; membership = apply_entry n.membership m }))
          _ h1 in
      let log : q.0 ≡ p.0.log =
        ground (
          arith,
          log-sync (record n { log = q.0; membership = apply_entry n.membership m }) done,
        ) in
      subst (Grows n.log) log (λ s. more start (adds none (some m) q.1 added))

  log-send_each :
      (index : ℕ) (ids : NodeSet) (n : RawNode Machine Leader)
      {p : RawNode Machine Leader × Proposal}
      → send_each sm index ids n ≡ ok p
      → p.0.log ≡ n.log
  unfolding send_each
  log-send_each index [] n h = ground arith
  log-send_each index (peer ∷ ids) n {p} h =
      elim (Option-cases (progress_of peer n.role.progress)) [
        | inl unknown ↦ absurd (ground arith)
        | inr (q, known) ↦
            elim (Outcome-cases
              (if index == q.next_index then maybe_send_append sm n peer false else ok n)) [
                | inl (m, sent) ↦
                    log-send_each index ids m (rw (send_each, known, sent) at h)
                    ∙ ground (arith, log-maybe_send_append sm n peer false {n' = m})
                | inr (inl (e, failed)) ↦
                    let same : ok (n, refused e) ≡ ok p = rw (send_each, known, failed) at h in
                    ground arith
                | inr (inr panicked) ↦
                    let same : panic ≡ ok p = rw (send_each, known, panicked) at h in
                    absurd (ground arith)
              ]
      ]

  pub propose_membership_change-Grows :
      (n : RawNode Machine Leader) (voters : NodeSet) {p : RawNode Machine Leader × Proposal}
      → propose_membership_change sm n voters ≡ ok p
      → Grows n.log p.0.log
  propose_membership_change-Grows n voters {p} h =
      go (plan n.membership.change_pending n.membership.active voters)
        (unfold propose_membership_change in h)
    where
      go :
          (r : Plan)
          → elim r [
            | no_change ↦ ok (n, refused invalid_input)
            | change m ↦ append_change sm n m >>= λ q. send_each sm q.1 (peers q.0) q.0
          ]
            ≡ ok p
          → Grows n.log p.0.log
      go no_change e = Grows-of_eq (ground arith)
      go (change m) e =
          let (q, appended, told) = >>=-eq-ok (append_change sm n m) _ e in
          subst (Grows n.log) (sym (log-send_each q.1 (peers q.0) q.0 told))
            (append_change-Grows n m appended)

  simple_after_joint-Grows :
      (n : RawNode Machine Leader) (m : MembershipEntry) {n' : RawNode Machine Leader}
      → maybe_propose_simple_after_joint sm n m ≡ ok n'
      → Grows n.log n'.log
  unfolding maybe_propose_simple_after_joint
  simple_after_joint-Grows n (simple m) h = Grows-of_eq (ground arith)
  simple_after_joint-Grows n (joint old new) h =
      let (q, appended, told) = >>=-eq-ok (append_change sm n (simple new)) _ h in
      subst (Grows n.log) (sym (log-send_new sm q.1 (peers q.0) q.0 told))
        (append_change-Grows n (simple new) appended)

  follow_up-Grows :
      (changes : List MembershipEntry) (down : Bool) (n : RawNode Machine Leader)
      {p : RawNode Machine Leader × Bool}
      → follow_up sm changes down n ≡ ok p
      → Grows n.log p.0.log
  unfolding follow_up
  follow_up-Grows [] down n h = Grows-of_eq (ground arith)
  follow_up-Grows (m ∷ changes) down n {p} h =
      let (proposed, called, h1) = >>=-eq-ok (maybe_propose_simple_after_joint sm n m) _ h in
      let (synced, done, h2) = >>=-eq-ok (sync_progress_with_membership proposed) _ h1 in
      Grows-trans (simple_after_joint-Grows n m called) (
        subst (λ (l : Log). Grows l p.0.log) (log-sync proposed done)
          (follow_up-Grows changes (down || is_removed sm synced) synced h2))

  after_commit-Grows :
      (old_term : ℕ) (n : RawNode Machine Leader) {p : RawNode Machine Leader × Bool}
      → after_commit sm old_term n ≡ ok p
      → Grows n.log p.0.log
  unfolding after_commit
  after_commit-Grows old_term n {p} h =
      let entries = scan_apply n.log (sm.get_applied_index n.state) in
      let (applied, a, h1) = >>=-eq-ok (apply_committed sm entries n) _ h in
      let (f, b, h2) = >>=-eq-ok (follow_up sm (changes_of sm entries) false applied) _ h1 in
      let (answered, c, h3) =
        >>=-eq-ok (if old_term == f.0.log.term then ok f.0 else maybe_read sm f.0) _ h2 in
      let (kept, d, same) =
        >>=-eq-ok (if f.1 then ok answered else maybe_snapshot sm answered) _ h3 in
      let read : answered.log ≡ f.0.log = ground (arith, log-maybe_read sm f.0 {n' = answered}) in
      let last : kept.log ≡ p.0.log = ground arith in
      subst (Grows n.log) last (
        Grows-trans
          (subst (λ (l : Log). Grows l f.0.log) (log-apply_committed sm entries n a)
            (follow_up-Grows (changes_of sm entries) false applied b))
          (subst (λ (l : Log). Grows l kept.log) read (snapshot_if sm f.1 answered kept d)))

  pub maybe_commit_and_apply-Grows :
      (n : RawNode Machine Leader) {p : RawNode Machine Leader × Bool}
      → maybe_commit_and_apply sm n ≡ ok p
      → Grows n.log p.0.log
  unfolding maybe_commit_and_apply
  maybe_commit_and_apply-Grows n {p} h =
      let (q, a, h1) = >>=-eq-ok (advance_commit n) _ h in
      elim (Bool-cases q.1) [
        | inl moved ↦
            let called : after_commit sm n.log.commit_term q.0 ≡ ok p = ground arith in
            Grows-trans (advance_commit-Grows n a) (after_commit-Grows n.log.commit_term q.0 called)
        | inr stays ↦ Grows-of_eq (ground arith)
      ]
