-- ===== src/Node/Steps.antt =====
-- Every step of a follower changes its log by the log's own operations.
use raft_rust.Base.{
  ℕ, ◌≤◌, ◌<◌, ◌≡◌, refl, sym, ap, none, some, ok, arith, ◌∙◌, inl, inr, subst, Bool-cases,
  Option-cases, ◌==◌, ltb, leb, Outcome, >>=-eq-ok, assert-eq-ok, ◌>>=◌,
}
use raft_rust.Message.{Envelope, Message}
use raft_rust.Log.Ops.{Log}
use raft_rust.Log.Reach.{
  Reach, here, next, Reach-trans, Reach-of_eq, voted, spliced, committed, installed, stored,
}
use raft_rust.StateMachine.{StateMachine}
use raft_rust.Node.Types.{RawNode, Follower}
use raft_rust.Node.Common.{send}
use raft_rust.Node.Follower.{into_follower, from_leader}
use raft_rust.Node.Receive.{check_first, dispatch, is_prevote, note_leader, follower_step}
use raft_rust.Node.Logs.{
  on_heartbeat_log, on_append_log, on_install_snapshot_log, into_follower_lem, leaderless_lem,
  log-note_leader, log-step_prevote, log-on_client_request, log-on_client_response,
}
use raft_rust.Node.Votes.{on_campaign_log}

-- A snapshot that a leader sends covers an entry, of a term that is not later than the message's.
abbrev pub IsSane : ℕ → Message → Type 0
IsSane term (Message.install_snapshot index t bytes membership) = (0 < index) × (t ≤ term)
IsSane term _ = Unit

module _ (sm : StateMachine) where
  open sm use {Machine}

  from_leader-Reach :
      (n : RawNode Machine Follower) (from term : ℕ)
      (handle : RawNode Machine Follower → Outcome (RawNode Machine Follower))
      {n' : RawNode Machine Follower}
      → ((m m' : RawNode Machine Follower) → m.log ≡ n.log → handle m ≡ ok m' → Reach m.log m'.log)
      → from_leader n from term handle ≡ ok n'
      → Reach n.log n'.log
  from_leader-Reach n from term handle {n'} each h = elim (Option-cases n.role.leader) [
    | inl unknown ↦
        let called : (into_follower n term (some from) >>= handle) ≡ ok n' =
          unfold from_leader in ground arith in
        let (m, followed, handled) = >>=-eq-ok (into_follower n term (some from)) handle called in
        let (at, keeps, same, leads) = into_follower_lem n term (some from) followed in
        let alone : m.log ≡ n.log = same (λ e. ground arith) in
        subst (λ (l : Log). Reach l n'.log) alone (each m n' alone handled)
    | inr (leader, known) ↦ elim (Bool-cases (from == leader)) [
      | inl it ↦ each n n' refl (unfold from_leader in ground arith)
      | inr other ↦
          let same : n ≡ n' = unfold from_leader in ground arith in
          subst (λ (m : RawNode Machine Follower). Reach n.log m.log) same here
    ]
  ]

  dispatch-Reach :
      (n : RawNode Machine Follower) (msg : Envelope) (m : Message) {n' : RawNode Machine Follower}
      → IsSane msg.term m
      → msg.term ≡ n.log.term
      → dispatch sm n msg m ≡ ok n'
      → Reach n.log n'.log
  unfolding dispatch
  dispatch-Reach n msg (Message.heartbeat last_index commit_index read_seq) {n'} sane at h =
      let (checked, handled) = assert-eq-ok (leb commit_index last_index) _ h in
      from_leader-Reach n msg.from msg.term _
        (λ m m' e g.
          elim (on_heartbeat_log sm msg.from msg.term last_index commit_index read_seq m m' g) [
            | inl same ↦ Reach-of_eq same
            | inr (has_it, ahead, done) ↦ next here (committed commit_index done.0 done.1)
          ])
        handled
  dispatch-Reach n msg (Message.append base_index base_term entries) {n'} sane at h =
      let (u, checked, handled) = >>=-eq-ok (check_first base_index entries) _ h in
      from_leader-Reach n msg.from msg.term _
        (λ m m' e g. elim (on_append_log sm msg.from base_index base_term entries m m' g) [
          | inl same ↦ Reach-of_eq same
          | inr done ↦ next here (spliced entries done.0 done.1)
        ])
        handled
  dispatch-Reach n msg (Message.read seq) {n'} sane at h =
      from_leader-Reach n msg.from msg.term
        (λ n'. ok (send n' msg.from (Message.read_response seq)))
        (λ m m' e (g : ok (send m msg.from (Message.read_response seq)) ≡ ok m').
          Reach-of_eq (unfold send in ground arith))
        h
  dispatch-Reach n msg (Message.campaign last_index last_term) {n'} sane at h =
      elim (on_campaign_log n msg.from msg.term last_index last_term h) [
        | inl same ↦ Reach-of_eq same
        | inr set ↦ next here (voted msg.term (some msg.from) set)
      ]
  dispatch-Reach n msg (Message.client_request id request) {n'} sane at h =
      Reach-of_eq
        (ground (arith, log-on_client_request n msg.from id (Message.client_request id request)))
  dispatch-Reach n msg (Message.client_response id response) {n'} sane at h =
      Reach-of_eq (ground (arith, log-on_client_response n msg.from id response))
  dispatch-Reach n msg (Message.campaign_response vote) {n'} sane at h = Reach-of_eq (ground arith)
  dispatch-Reach n msg (Message.install_snapshot index term bytes membership) {n'} sane at h =
      from_leader-Reach n msg.from msg.term _
        (λ m m' e g. elim (on_install_snapshot_log sm msg.from index term bytes membership m m' g) [
          | inl same ↦ Reach-of_eq same
          | inr (newer, done) ↦
              next (next here (stored bytes refl))
                (installed index term sane.0 (ground (arith, ap (λ (l : Log). l.term) e)) done)
        ])
        h
  dispatch-Reach n msg (Message.install_snapshot_response index) {n'} sane at h =
      Reach-of_eq (ground arith)
  dispatch-Reach n msg _ sane at h = absurd (ground arith)

  -- A step of a follower takes its log from one state to another by operations of the log.
  pub follower_step-Reach :
      (n : RawNode Machine Follower) (msg : Envelope) {n' : RawNode Machine Follower}
      → IsSane msg.term msg.message
      → follower_step sm n msg ≡ ok n'
      → Reach n.log n'.log
  unfolding follower_step
  follower_step-Reach n msg {n'} sane h = elim (Bool-cases (is_prevote sm msg.message)) [
    | inl pre ↦ Reach-of_eq (ground (arith, log-step_prevote n msg))
    | inr ordinary ↦ elim (Bool-cases (ltb msg.term n.log.term)) [
      | inl stale ↦ Reach-of_eq (ground arith)
      | inr fresh ↦ elim (Bool-cases (ltb n.log.term msg.term)) [
        | inl newer ↦
            let called : (into_follower n msg.term none >>= λ m.
            dispatch sm (note_leader sm m msg.from) msg msg.message)
                ≡ ok n' =
              ground arith in
            let (m, moved, handled) = >>=-eq-ok (into_follower n msg.term none) _ called in
            let (at, keeps, alone, set) = leaderless_lem n msg.term moved in
            let noted = log-note_leader sm m msg.from in
            let moved_on = next here (voted msg.term none set) in
            Reach-trans moved_on (
              subst (λ (l : Log). Reach l n'.log) noted
                (dispatch-Reach (note_leader sm m msg.from) msg msg.message sane
                  (sym at ∙ ap (λ (l : Log). l.term) (sym noted)) handled))
        | inr equal ↦
            let noted = log-note_leader sm n msg.from in
            let same : msg.term ≡ n.log.term = ground arith in
            let handled : dispatch sm (note_leader sm n msg.from) msg msg.message ≡ ok n' =
              ground arith in
            subst (λ (l : Log). Reach l n'.log) noted
              (dispatch-Reach (note_leader sm n msg.from) msg msg.message sane
                (same ∙ ap (λ (l : Log). l.term) (sym noted)) handled)
      ]
    ]
  ]
