-- ===== src/Node/LeadLogs.antt =====
-- What the operations of a leader leave alone in its log.
use raft_rust.Base.{
  ℕ, ◌≡◌, refl, ap, ◌∙◌, inl, inr, Bool, false, List, [], ◌∷◌, Outcome, ok, >>=-eq-ok, ◌==◌,
  if◌then◌else◌, arith, Option-cases, u64_add,
}
use raft_rust.NodeSet.{NodeSet}
use raft_rust.Message.{Message}
use raft_rust.Log.Entry.{Entry}
use raft_rust.StateMachine.{StateMachine}
use raft_rust.Node.Types.{RawNode, Leader, Progress, Write}
use raft_rust.Node.Common.{send, send_all, broadcast, peers, random_election_timeout}
use raft_rust.Node.Follower.{discard}
use raft_rust.Node.Progress.{progress_of}
use raft_rust.Node.Replicate.{
  set_peer, send_entries, send_snapshot, maybe_send_append, send_new, heartbeat,
  sync_progress_with_membership,
}
use raft_rust.Node.Apply.{answer, apply_command, apply_change, apply_one, apply_committed}
use raft_rust.Node.Reads.{maybe_read}
use raft_rust.Node.ReadQuorum.{maybe_read_lem}
use raft_rust.Node.Lead.{on_progress, abort_writes}

module _ {S R : Type 0} where
  pub log-send_all :
      (ids : NodeSet) (term : ℕ) (message : Message) (n : RawNode S R)
      → (send_all ids term message n).log ≡ n.log
  unfolding send_all
  log-send_all [] term message n = refl
  log-send_all (id ∷ ids) term message n = log-send_all ids term message _

  pub log-broadcast : (n : RawNode S R) (message : Message) → (broadcast n message).log ≡ n.log
  unfolding broadcast
  log-broadcast n message = log-send_all (peers n) n.log.term message n

  pub log-timeout :
      (n : RawNode S R) {p : ℕ × RawNode S R} → random_election_timeout n ≡ ok p → p.1.log ≡ n.log
  unfolding random_election_timeout
  log-timeout n h = ground arith

module _ {S : Type 0} where
  pub log-send_entries :
      (n : RawNode S Leader) (peer : ℕ) (p : Progress) (probe : Bool) {n' : RawNode S Leader}
      → send_entries n peer p probe ≡ ok n'
      → n'.log ≡ n.log
  unfolding send_entries send
  log-send_entries n peer p probe h = ground arith

  pub log-heartbeat :
      (n : RawNode S Leader) {n' : RawNode S Leader} → heartbeat n ≡ ok n' → n'.log ≡ n.log
  unfolding heartbeat
  log-heartbeat n h = ground (
    arith,
    log-broadcast (record n { role = record (n.role) { since_heartbeat = 0 } })
        (Message.heartbeat n.log.last_index n.log.commit_index n.role.read_seq),
  )

  pub log-sync :
      (n : RawNode S Leader) {n' : RawNode S Leader}
      → sync_progress_with_membership n ≡ ok n'
      → n'.log ≡ n.log
  unfolding sync_progress_with_membership u64_add
  log-sync n h = ground arith

  pub log-on_progress :
      (n : RawNode S Leader) (peer : ℕ) (change : Progress → Outcome (Progress × Bool))
      {p : RawNode S Leader × Bool}
      → on_progress n peer change ≡ ok p
      → p.0.log ≡ n.log
  unfolding on_progress set_peer
  log-on_progress n peer change {p} h = elim (Option-cases (progress_of peer n.role.progress)) [
    | inl unknown ↦ absurd (ground arith)
    | inr (q, known) ↦
        let (r, changed, set) = >>=-eq-ok (change q) _ (rw (on_progress, known) at h) in
        ground arith
  ]

  pub log-abort_writes : (l : List Write) (n : RawNode S Leader) → (abort_writes l n).log ≡ n.log
  unfolding abort_writes send
  log-abort_writes [] n = refl
  log-abort_writes (w ∷ l) n = log-abort_writes l _

module _ (sm : StateMachine) where
  open sm use {Machine}

  log-send_snapshot :
      (n : RawNode Machine Leader) (peer : ℕ) {n' : RawNode Machine Leader}
      → send_snapshot sm n peer ≡ ok n'
      → n'.log ≡ n.log
  unfolding send_snapshot send
  log-send_snapshot n peer h = ground arith

  pub log-maybe_send_append :
      (n : RawNode Machine Leader) (peer : ℕ) (probe : Bool) {n' : RawNode Machine Leader}
      → maybe_send_append sm n peer probe ≡ ok n'
      → n'.log ≡ n.log
  unfolding maybe_send_append u64_add
  log-maybe_send_append n peer probe {n'} h =
      elim (Option-cases (progress_of peer n.role.progress)) [
        | inl unknown ↦ ground arith
        | inr (p, known) ↦
            ground
              (arith, log-send_entries n peer p probe {n' = n'}, log-send_snapshot n peer {n' = n'})
      ]

  pub log-send_new :
      (index : ℕ) (ids : NodeSet) (n : RawNode Machine Leader) {n' : RawNode Machine Leader}
      → send_new sm index ids n ≡ ok n'
      → n'.log ≡ n.log
  unfolding send_new
  log-send_new index [] n h = ground arith
  log-send_new index (peer ∷ ids) n {n'} h =
      elim (Option-cases (progress_of peer n.role.progress)) [
        | inl unknown ↦ absurd (ground arith)
        | inr (p, known) ↦
            let (m, told, rest) =
              >>=-eq-ok (if index == p.next_index then maybe_send_append sm n peer false else ok n)
                _ (rw (send_new, known) at h) in
            log-send_new index ids m rest
            ∙ (ground (arith, log-maybe_send_append n peer false {n' = m}))
      ]

  pub log-maybe_read :
      (n : RawNode Machine Leader) {n' : RawNode Machine Leader}
      → maybe_read sm n ≡ ok n'
      → n'.log ≡ n.log
  log-maybe_read n {n'} h = elim ((maybe_read_lem sm n n' h).0) [
    | inl same ↦ ap (λ (m : RawNode Machine Leader). m.log) same
    | inr answered ↦ answered.2.same_log
  ]

  pub log-apply_one :
      (n : RawNode Machine Leader) (e : Entry) {n' : RawNode Machine Leader}
      → apply_one sm n e ≡ ok n'
      → n'.log ≡ n.log
  unfolding apply_one apply_command apply_change answer discard send
  log-apply_one n e h = ground arith

  pub log-apply_committed :
      (entries : List Entry) (n : RawNode Machine Leader) {n' : RawNode Machine Leader}
      → apply_committed sm entries n ≡ ok n'
      → n'.log ≡ n.log
  unfolding apply_committed
  log-apply_committed [] n h = ground arith
  log-apply_committed (e ∷ entries) n h =
      let (m, applied, rest) = >>=-eq-ok (apply_one sm n e) _ h in
      log-apply_committed entries m rest ∙ log-apply_one n e applied
