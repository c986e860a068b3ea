-- ===== src/Node/LeadSteps.antt =====
-- A leader's messages and its log: `RawNode<Leader>::step` of src/raft/node.rs.
use raft_rust.Base.{
  ℕ, ◌≡◌, ◌∙◌, inl, inr, Bool, true, false, ◌&&◌, Outcome, ok, ◌>>=◌, >>=-eq-ok, assert-eq-ok, ltb,
  leb, ◌==◌, if◌then◌else◌, arith, Bool-cases, Option-cases,
}
use raft_rust.Message.{Envelope, Message}
use raft_rust.Log.Lead.{Grows, Grows-of_eq, Grows-trans}
use raft_rust.StateMachine.{StateMachine}
use raft_rust.Node.Types.{RawNode, Leader, Progress}
use raft_rust.Node.Common.{send}
use raft_rust.Node.Progress.{progress_of, advance, advance_read, regress_next}
use raft_rust.Node.Replicate.{maybe_send_append}
use raft_rust.Node.Reads.{maybe_read}
use raft_rust.Node.Lead.{note_peer_response, on_progress}
use raft_rust.Node.LeaderStep.{
  Services, commit_if, on_heartbeat_response, on_append_accepted, on_append_rejected,
  on_read_response, on_snapshot_installed, from_peer, leader_dispatch,
}
use raft_rust.Node.LeadLogs.{log-on_progress, log-maybe_send_append, log-maybe_read}
use raft_rust.Node.LeadRequests.{commit_if-Grows, on_request-Grows}

module _ (sm : StateMachine) (services : Services) where
  open sm use {Machine}

  -- `regress_next` and a probe change no log.
  probed :
      (n : RawNode Machine Leader) (from match_index last : ℕ) (n' : RawNode Machine Leader)
      → (if match_index == 0
          then (on_progress n from (λ x. regress_next x last) >>= λ r.
              maybe_send_append sm r.0 from true)
          else ok n)
        ≡ ok n'
      → n'.log ≡ n.log
  probed n from match_index last n' h = elim (Bool-cases (match_index == 0)) [
    | inr matched ↦ ground arith
    | inl zero_match ↦
        let (r, a, sent) =
          >>=-eq-ok (on_progress n from (λ x. regress_next x last)) _ (rw zero_match at h) in
        log-maybe_send_append sm r.0 from true sent
        ∙ log-on_progress n from (λ x. regress_next x last) a
  ]

  -- What a confirmed index leads to.
  then_commit :
      (n : RawNode Machine Leader) (from index : ℕ) {p : RawNode Machine Leader × Bool}
      → (do
        q ← on_progress n from (λ x. advance x index)
        r ← commit_if sm services q.1 q.0
        m ← maybe_send_append sm r.0 from false
        ok (m, r.1))
        ≡ ok p
      → Grows n.log p.0.log
  then_commit n from index {p} h =
      let (q, a, h1) = >>=-eq-ok (on_progress n from (λ x. advance x index)) _ h in
      let (r, b, h2) = >>=-eq-ok (commit_if sm services q.1 q.0) _ h1 in
      let (m, c, same) = >>=-eq-ok (maybe_send_append sm r.0 from false) _ h2 in
      let last : p.0.log ≡ r.0.log = ground (arith, log-maybe_send_append sm r.0 from false c) in
      Grows-trans (Grows-of_eq (log-on_progress n from (λ x. advance x index) a))
        (Grows-trans (commit_if-Grows sm services q.1 q.0 b) (Grows-of_eq last))

  on_heartbeat_response-Grows :
      (n : RawNode Machine Leader) (from match_index read_seq : ℕ)
      {p : RawNode Machine Leader × Bool}
      → on_heartbeat_response sm services n from match_index read_seq ≡ ok p
      → Grows n.log p.0.log
  unfolding on_heartbeat_response
  on_heartbeat_response-Grows n from match_index read_seq {p} h =
      let (in_log, h1) = assert-eq-ok (leb match_index n.log.last_index) _ h in
      let (in_seq, h2) = assert-eq-ok (leb read_seq n.role.read_seq) _ h1 in
      let (q, a, h3) = >>=-eq-ok (on_progress n from (λ x. ok (advance_read x read_seq))) _ h2 in
      let (n2, b, h4) = >>=-eq-ok (if q.1 then maybe_read sm q.0 else ok q.0) _ h3 in
      let (n3, c, h5) =
        >>=-eq-ok
          (if match_index == 0
            then (on_progress n2 from (λ x. regress_next x n.log.last_index) >>= λ r.
                maybe_send_append sm r.0 from true)
            else ok n2)
          _ h4 in
      let (r, d, h6) = >>=-eq-ok (on_progress n3 from (λ x. advance x match_index)) _ h5 in
      let first : q.0.log ≡ n.log = log-on_progress n from (λ x. ok (advance_read x read_seq)) a in
      let second : n2.log ≡ q.0.log = ground (arith, log-maybe_read sm q.0 {n' = n2}) in
      let third : n3.log ≡ n2.log = probed n2 from match_index n.log.last_index n3 c in
      let fourth : r.0.log ≡ n3.log = log-on_progress n3 from (λ x. advance x match_index) d in
      Grows-trans (Grows-of_eq (fourth ∙ third ∙ second ∙ first))
        (commit_if-Grows sm services r.1 r.0 h6)

  on_append_accepted-Grows :
      (n : RawNode Machine Leader) (from match_index : ℕ) {p : RawNode Machine Leader × Bool}
      → on_append_accepted sm services n from match_index ≡ ok p
      → Grows n.log p.0.log
  unfolding on_append_accepted
  on_append_accepted-Grows n from match_index {p} h =
      let (in_log, h1) = assert-eq-ok (leb match_index n.log.last_index) _ h in
      then_commit n from match_index h1

  on_read_response-Grows :
      (n : RawNode Machine Leader) (from seq : ℕ) {p : RawNode Machine Leader × Bool}
      → on_read_response sm services n from seq ≡ ok p
      → Grows n.log p.0.log
  unfolding on_read_response
  on_read_response-Grows n from seq {p} h =
      let (q, a, h1) = >>=-eq-ok (on_progress n from (λ x. ok (advance_read x seq))) _ h in
      let (n2, b, same) = >>=-eq-ok (if q.1 then maybe_read sm q.0 else ok q.0) _ h1 in
      let first : q.0.log ≡ n.log = log-on_progress n from (λ x. ok (advance_read x seq)) a in
      let second : n2.log ≡ q.0.log = ground (arith, log-maybe_read sm q.0 {n' = n2}) in
      Grows-of_eq (ground (arith, first, second))

  on_append_rejected-Grows :
      (n : RawNode Machine Leader) (from reject_index : ℕ) (x : Progress)
      {p : RawNode Machine Leader × Bool}
      → on_append_rejected sm services n from reject_index x ≡ ok p
      → Grows n.log p.0.log
  unfolding on_append_rejected
  on_append_rejected-Grows n from reject_index x {p} h =
      let (in_log, h1) = assert-eq-ok (leb reject_index n.log.last_index) _ h in
      elim (Bool-cases (leb reject_index x.match_index)) [
        | inl known ↦ Grows-of_eq (ground arith)
        | inr new ↦
            let (q, a, h2) =
              >>=-eq-ok (on_progress n from (λ y. regress_next y reject_index)) _ (rw new at h1) in
            let (n2, b, same) =
              >>=-eq-ok (if q.1 then maybe_send_append sm q.0 from true else ok q.0) _ h2 in
            let first : q.0.log ≡ n.log =
              log-on_progress n from (λ y. regress_next y reject_index) a in
            let second : n2.log ≡ q.0.log =
              ground (arith, log-maybe_send_append sm q.0 from true {n' = n2}) in
            Grows-of_eq (ground (arith, first, second))
      ]

  on_snapshot_installed-Grows :
      (n : RawNode Machine Leader) (from index : ℕ) {p : RawNode Machine Leader × Bool}
      → on_snapshot_installed sm services n from index ≡ ok p
      → Grows n.log p.0.log
  unfolding on_snapshot_installed
  on_snapshot_installed-Grows n from index {p} h = then_commit n from index h

  from_peer-Grows :
      (n : RawNode Machine Leader) (from : ℕ)
      (handle : RawNode Machine Leader → Progress → Outcome (RawNode Machine Leader × Bool))
      {p : RawNode Machine Leader × Bool}
      → ((m : RawNode Machine Leader) (x : Progress) → handle m x ≡ ok p → Grows m.log p.0.log)
      → from_peer sm services n from handle ≡ ok p
      → Grows n.log p.0.log
  unfolding from_peer note_peer_response
  from_peer-Grows n from handle {p} each h =
      elim (Option-cases (progress_of from n.role.progress)) [
        | inl unknown ↦ Grows-of_eq (ground arith)
        | inr (x, known) ↦ each (note_peer_response n from) x (rw (from_peer, known) at h)
      ]

  pub leader_dispatch-Grows :
      (n : RawNode Machine Leader) (msg : Envelope) (m : Message)
      {p : RawNode Machine Leader × Bool}
      → leader_dispatch sm services n msg m ≡ ok p
      → Grows n.log p.0.log
  unfolding leader_dispatch
  leader_dispatch-Grows n msg (Message.heartbeat_response match_index read_seq) h =
      from_peer-Grows n msg.from
        (λ m x. on_heartbeat_response sm services m msg.from match_index read_seq)
        (λ m x g. on_heartbeat_response-Grows m msg.from match_index read_seq g) h
  leader_dispatch-Grows n msg (Message.append_response match_index reject_index) {p} h =
      elim (Bool-cases (reject_index == 0 && ltb 0 match_index)) [
        | inl yes_it ↦
            from_peer-Grows n msg.from
              (λ m x. on_append_accepted sm services m msg.from match_index)
              (λ m x g. on_append_accepted-Grows m msg.from match_index g) (rw yes_it at h)
        | inr no_it ↦ elim (Bool-cases (match_index == 0 && ltb 0 reject_index)) [
          | inl rejected ↦
              from_peer-Grows n msg.from
                (λ m x. on_append_rejected sm services m msg.from reject_index x)
                (λ m x g. on_append_rejected-Grows m msg.from reject_index x g)
                (rw rejected at (rw no_it at h))
          | inr invalid ↦ absurd (ground arith)
        ]
      ]
  leader_dispatch-Grows n msg (Message.read_response seq) h =
      from_peer-Grows n msg.from (λ m x. on_read_response sm services m msg.from seq)
        (λ m x g. on_read_response-Grows m msg.from seq g) h
  leader_dispatch-Grows n msg (Message.client_request id request) h =
      on_request-Grows sm services n msg.from id request h
  leader_dispatch-Grows n msg (Message.campaign last_index last_term) h =
      Grows-of_eq (unfold send in ground arith)
  leader_dispatch-Grows n msg (Message.campaign_response vote) h = Grows-of_eq (ground arith)
  leader_dispatch-Grows n msg (Message.heartbeat last_index commit_index read_seq) h =
      Grows-of_eq (ground arith)
  leader_dispatch-Grows n msg (Message.append base_index base_term entries) h =
      Grows-of_eq (ground arith)
  leader_dispatch-Grows n msg (Message.read seq) h = Grows-of_eq (ground arith)
  leader_dispatch-Grows n msg (Message.install_snapshot index term bytes membership) h =
      Grows-of_eq (ground arith)
  leader_dispatch-Grows n msg (Message.install_snapshot_response index) h =
      from_peer-Grows n msg.from (λ m x. on_snapshot_installed sm services m msg.from index)
        (λ m x g. on_snapshot_installed-Grows m msg.from index g) h
  leader_dispatch-Grows n msg (Message.client_response id reply) h = absurd (ground arith)
  leader_dispatch-Grows n msg (Message.pre_campaign last_index last_term) h = absurd (ground arith)
  leader_dispatch-Grows n msg (Message.pre_campaign_response vote) h = absurd (ground arith)
