-- ===== src/Election/Responses.antt =====
-- The messages and ticks of a leader, none of which sends a vote: `RawNode<Leader>::step` and
-- `tick` of src/raft/node.rs.
use raft_rust.Base.{
  ℕ, ◌≡◌, refl, sym, ap, ◌∙◌, inl, inr, Bool, true, false, ◌&&◌, Outcome, ok, ◌>>=◌, >>=-eq-ok,
  assert-eq-ok, ltb, leb, ◌==◌, if◌then◌else◌, arith, Bool-cases, Option-cases,
}
use raft_rust.Message.{Envelope, Message}
use raft_rust.StateMachine.{StateMachine}
use raft_rust.Node.Types.{RawNode, Leader, Progress}
use raft_rust.Node.Common.{send}
use raft_rust.Node.Progress.{progress_of, advance, advance_read, regress_next}
use raft_rust.Node.Replicate.{maybe_send_append}
use raft_rust.Node.Reads.{maybe_read}
use raft_rust.Node.Lead.{note_peer_response, on_progress}
use raft_rust.Node.LeaderStep.{
  Services, commit_if, on_heartbeat_response, on_append_accepted, on_append_rejected,
  on_read_response, on_snapshot_installed, from_peer, leader_dispatch,
}
use raft_rust.Election.Ballots.{grants, ballots, ballots-send}
use raft_rust.Election.Leaders.{ballots-on_progress, ballots-maybe_send_append, ballots-maybe_read}
use raft_rust.Election.Asked.{ballots-commit_if, ballots-on_request}

module _ (sm : StateMachine) (services : Services) where
  open sm use {Machine}

  probed :
      (n : RawNode Machine Leader) (from match_index last : ℕ) (n' : RawNode Machine Leader)
      → (if match_index == 0
          then (on_progress n from (λ x. regress_next x last) >>= λ r.
              maybe_send_append sm r.0 from true)
          else ok n)
        ≡ ok n'
      → ballots n' ≡ ballots n
  probed n from match_index last n' h = elim (Bool-cases (match_index == 0)) [
    | inr matched ↦ ground arith
    | inl zero_match ↦
        let (r, a, sent) =
          >>=-eq-ok (on_progress n from (λ x. regress_next x last)) _ (rw zero_match at h) in
        ballots-maybe_send_append sm r.0 from true sent
        ∙ ballots-on_progress n from (λ x. regress_next x last) a
  ]

  -- What a confirmed index leads to.
  then_commit :
      (n : RawNode Machine Leader) (from index : ℕ) {p : RawNode Machine Leader × Bool}
      → (do
        q ← on_progress n from (λ x. advance x index)
        r ← commit_if sm services q.1 q.0
        m ← maybe_send_append sm r.0 from false
        ok (m, r.1))
        ≡ ok p
      → ballots p.0 ≡ ballots n
  then_commit n from index {p} h =
      let (q, a, h1) = >>=-eq-ok (on_progress n from (λ x. advance x index)) _ h in
      let (r, b, h2) = >>=-eq-ok (commit_if sm services q.1 q.0) _ h1 in
      let (m, c, same) = >>=-eq-ok (maybe_send_append sm r.0 from false) _ h2 in
      let last : ballots p.0 ≡ ballots r.0 =
        ground (arith, ballots-maybe_send_append sm r.0 from false c) in
      last
      ∙ ballots-commit_if sm services q.1 q.0 b
      ∙ ballots-on_progress n from (λ x. advance x index) a

  ballots-on_heartbeat_response :
      (n : RawNode Machine Leader) (from match_index read_seq : ℕ)
      {p : RawNode Machine Leader × Bool}
      → on_heartbeat_response sm services n from match_index read_seq ≡ ok p
      → ballots p.0 ≡ ballots n
  unfolding on_heartbeat_response
  ballots-on_heartbeat_response n from match_index read_seq {p} h =
      let (in_log, h1) = assert-eq-ok (leb match_index n.log.last_index) _ h in
      let (in_seq, h2) = assert-eq-ok (leb read_seq n.role.read_seq) _ h1 in
      let (q, a, h3) = >>=-eq-ok (on_progress n from (λ x. ok (advance_read x read_seq))) _ h2 in
      let (n2, b, h4) = >>=-eq-ok (if q.1 then maybe_read sm q.0 else ok q.0) _ h3 in
      let (n3, c, h5) =
        >>=-eq-ok
          (if match_index == 0
            then (on_progress n2 from (λ x. regress_next x n.log.last_index) >>= λ r.
                maybe_send_append sm r.0 from true)
            else ok n2)
          _ h4 in
      let (r, d, h6) = >>=-eq-ok (on_progress n3 from (λ x. advance x match_index)) _ h5 in
      let second : ballots n2 ≡ ballots q.0 = ground (arith, ballots-maybe_read sm q.0 {n' = n2}) in
      ballots-commit_if sm services r.1 r.0 h6
      ∙ ballots-on_progress n3 from (λ x. advance x match_index) d
      ∙ probed n2 from match_index n.log.last_index n3 c
      ∙ second
      ∙ ballots-on_progress n from (λ x. ok (advance_read x read_seq)) a

  ballots-on_append_accepted :
      (n : RawNode Machine Leader) (from match_index : ℕ) {p : RawNode Machine Leader × Bool}
      → on_append_accepted sm services n from match_index ≡ ok p
      → ballots p.0 ≡ ballots n
  unfolding on_append_accepted
  ballots-on_append_accepted n from match_index {p} h =
      let (in_log, h1) = assert-eq-ok (leb match_index n.log.last_index) _ h in
      then_commit n from match_index h1

  ballots-on_read_response :
      (n : RawNode Machine Leader) (from seq : ℕ) {p : RawNode Machine Leader × Bool}
      → on_read_response sm services n from seq ≡ ok p
      → ballots p.0 ≡ ballots n
  unfolding on_read_response
  ballots-on_read_response n from seq {p} h =
      let (q, a, h1) = >>=-eq-ok (on_progress n from (λ x. ok (advance_read x seq))) _ h in
      let (n2, b, same) = >>=-eq-ok (if q.1 then maybe_read sm q.0 else ok q.0) _ h1 in
      let second : ballots n2 ≡ ballots q.0 = ground (arith, ballots-maybe_read sm q.0 {n' = n2}) in
      let last : ballots p.0 ≡ ballots n2 = ground arith in
      last ∙ second ∙ ballots-on_progress n from (λ x. ok (advance_read x seq)) a

  ballots-on_append_rejected :
      (n : RawNode Machine Leader) (from reject_index : ℕ) (x : Progress)
      {p : RawNode Machine Leader × Bool}
      → on_append_rejected sm services n from reject_index x ≡ ok p
      → ballots p.0 ≡ ballots n
  unfolding on_append_rejected
  ballots-on_append_rejected n from reject_index x {p} h =
      let (in_log, h1) = assert-eq-ok (leb reject_index n.log.last_index) _ h in
      elim (Bool-cases (leb reject_index x.match_index)) [
        | inl known ↦ ground arith
        | inr new ↦
            let (q, a, h2) =
              >>=-eq-ok (on_progress n from (λ y. regress_next y reject_index)) _ (rw new at h1) in
            let (n2, b, same) =
              >>=-eq-ok (if q.1 then maybe_send_append sm q.0 from true else ok q.0) _ h2 in
            let second : ballots n2 ≡ ballots q.0 =
              ground (arith, ballots-maybe_send_append sm q.0 from true {n' = n2}) in
            let last : ballots p.0 ≡ ballots n2 = ground arith in
            last ∙ second ∙ ballots-on_progress n from (λ y. regress_next y reject_index) a
      ]

  ballots-from_peer :
      (n : RawNode Machine Leader) (from : ℕ)
      (handle : RawNode Machine Leader → Progress → Outcome (RawNode Machine Leader × Bool))
      {p : RawNode Machine Leader × Bool}
      → ((m : RawNode Machine Leader) (x : Progress) → handle m x ≡ ok p → ballots p.0 ≡ ballots m)
      → from_peer sm services n from handle ≡ ok p
      → ballots p.0 ≡ ballots n
  unfolding from_peer note_peer_response ballots
  ballots-from_peer n from handle {p} each h =
      elim (Option-cases (progress_of from n.role.progress)) [
        | inl unknown ↦ ground arith
        | inr (x, known) ↦ each (note_peer_response n from) x (rw (from_peer, known) at h)
      ]

  pub ballots-dispatch :
      (n : RawNode Machine Leader) (msg : Envelope) (m : Message)
      {p : RawNode Machine Leader × Bool}
      → leader_dispatch sm services n msg m ≡ ok p
      → ballots p.0 ≡ ballots n
  unfolding leader_dispatch grants
  ballots-dispatch n msg (Message.heartbeat_response match_index read_seq) h =
      ballots-from_peer n msg.from
        (λ m x. on_heartbeat_response sm services m msg.from match_index read_seq)
        (λ m x g. ballots-on_heartbeat_response m msg.from match_index read_seq g) h
  ballots-dispatch n msg (Message.append_response match_index reject_index) {p} h =
      elim (Bool-cases (reject_index == 0 && ltb 0 match_index)) [
        | inl yes_it ↦
            ballots-from_peer n msg.from
              (λ m x. on_append_accepted sm services m msg.from match_index)
              (λ m x g. ballots-on_append_accepted m msg.from match_index g) (rw yes_it at h)
        | inr no_it ↦ elim (Bool-cases (match_index == 0 && ltb 0 reject_index)) [
          | inl rejected ↦
              ballots-from_peer n msg.from
                (λ m x. on_append_rejected sm services m msg.from reject_index x)
                (λ m x g. ballots-on_append_rejected m msg.from reject_index x g)
                (rw rejected at (rw no_it at h))
          | inr invalid ↦ absurd (ground arith)
        ]
      ]
  ballots-dispatch n msg (Message.read_response seq) h =
      ballots-from_peer n msg.from (λ m x. on_read_response sm services m msg.from seq)
        (λ m x g. ballots-on_read_response m msg.from seq g) h
  ballots-dispatch n msg (Message.client_request id request) h =
      ballots-on_request sm services n msg.from id request h
  ballots-dispatch n msg (Message.campaign last_index last_term) {p} h =
      let same : send n msg.from (Message.campaign_response false) ≡ p.0 = ground arith in
      ap (λ (y : RawNode Machine Leader). ballots y) (sym same)
      ∙ ballots-send n msg.from (Message.campaign_response false) refl
  ballots-dispatch n msg (Message.campaign_response vote) h = ground arith
  ballots-dispatch n msg (Message.heartbeat last_index commit_index read_seq) h = ground arith
  ballots-dispatch n msg (Message.append base_index base_term entries) h = ground arith
  ballots-dispatch n msg (Message.read seq) h = ground arith
  ballots-dispatch n msg (Message.install_snapshot index term bytes membership) h = ground arith
  ballots-dispatch n msg (Message.install_snapshot_response index) h =
      ballots-from_peer n msg.from (λ m x. on_snapshot_installed sm services m msg.from index)
        (λ m x g. then_commit m msg.from index (unfold on_snapshot_installed in g)) h
  ballots-dispatch n msg (Message.client_response id reply) h = absurd (ground arith)
  ballots-dispatch n msg (Message.pre_campaign last_index last_term) h = absurd (ground arith)
  ballots-dispatch n msg (Message.pre_campaign_response vote) h = absurd (ground arith)
