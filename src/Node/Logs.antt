-- ===== src/Node/Logs.antt =====
-- What the steps of a follower leave alone in its log.
use raft_rust.Base.{
  ℕ, ◌≤◌, ◌<◌, ◌≡◌, ◌≢◌, refl, sym, ap, List, [], ◌∷◌, true, not, ◌&&◌, Option, none, some, ok,
  arith, ◌∙◌, ◌⊎◌, inl, inr, subst, Bool-cases, ◌==◌, ltb, leb, if◌then◌else◌, ◌||◌, Outcome,
  >>=-eq-ok, assert-eq-ok, ◌>>=◌, Option-cases,
}
use raft_rust.Membership.{MembershipEntry}
use raft_rust.Message.{Envelope, Message, Reply}
use raft_rust.Log.Entry.{Entry, Bytes}
use raft_rust.Log.Ops.{
  Log, set_term_vote, commit, reset_with_snapshot, set_snapshot_data, has, get_snapshot_meta,
}
use raft_rust.Log.Splice.{splice}
use raft_rust.Log.Votes.{KeepsVote, SameVote, SameVote-KeepsVote, set_term_vote_lem}
use raft_rust.StateMachine.{StateMachine}
use raft_rust.Node.Types.{RawNode, Follower}
use raft_rust.Node.Common.{send, random_election_timeout, adopt, adopt_memberships}
use raft_rust.Node.Follower.{
  abort_all, abort_forwarded, into_follower, from_leader, on_client_request, on_client_response,
  step_prevote, discard,
}
use raft_rust.Node.Receive.{
  apply_entries, maybe_apply, on_heartbeat, on_append, on_install_snapshot, note_leader,
}

module _ {S : Type 0} where
  log-abort_all : (ids : List ℕ) (n : RawNode S Follower) → (abort_all ids n).log ≡ n.log
  unfolding abort_all send
  log-abort_all [] n = refl
  log-abort_all (id ∷ ids) n = log-abort_all ids _

  pub log-abort_forwarded : (n : RawNode S Follower) → (abort_forwarded n).log ≡ n.log
  unfolding abort_forwarded
  log-abort_forwarded n = log-abort_all n.role.forwarded _

  pub log-draw :
      (n : RawNode S Follower) {p : ℕ × RawNode S Follower}
      → random_election_timeout n ≡ ok p
      → p.1.log ≡ n.log
  unfolding random_election_timeout
  log-draw n h = ground arith

  log-adopt : (n : RawNode S Follower) (m : Option MembershipEntry) → (adopt n m).log ≡ n.log
  unfolding adopt
  log-adopt n none = refl
  log-adopt n (some m) = refl

  pub log-adopt_memberships :
      (entries : List Entry) (n : RawNode S Follower) → (adopt_memberships entries n).log ≡ n.log
  unfolding adopt_memberships
  log-adopt_memberships [] n = refl
  log-adopt_memberships (e ∷ entries) n =
      log-adopt_memberships entries (adopt n e.membership) ∙ log-adopt n e.membership

  pub log-step_prevote :
      (n : RawNode S Follower) (msg : Envelope) → (step_prevote n msg).log ≡ n.log
  log-step_prevote n msg = go n msg msg.message refl
    where
      go :
          (n : RawNode S Follower) (msg : Envelope) (m : Message)
          → msg.message ≡ m
          → (step_prevote n msg).log ≡ n.log
      go n msg (Message.pre_campaign last_index last_term) e =
          unfold step_prevote send in ground arith
      go n msg _ e = unfold step_prevote send in ground arith

  pub log-on_client_request :
      (n : RawNode S Follower) (from id : ℕ) (message : Message)
      → (on_client_request n from id message).log ≡ n.log
  unfolding on_client_request send
  log-on_client_request n from id message = ground arith

  pub log-on_client_response :
      (n : RawNode S Follower) (from id : ℕ) (reply : Reply)
      → (on_client_response n from id reply).log ≡ n.log
  unfolding on_client_response send
  log-on_client_response n from id message = ground arith

  pub leaderless_lem :
      (n : RawNode S Follower) (term : ℕ) {n' : RawNode S Follower}
      → into_follower n term none ≡ ok n'
      → (n'.log.term ≡ term)
        × KeepsVote n.log n'.log
        × (n'.role.leader ≡ none)
        × (set_term_vote n.log term none ≡ ok n'.log)
  unfolding into_follower
  leaderless_lem n term {n'} h =
      let (nonzero, h1) = assert-eq-ok (not (term == 0)) _ h in
      let (newer, h2) = assert-eq-ok (not (term == n.log.term)) _ h1 in
      let (log, set, h3) = >>=-eq-ok (set_term_vote n.log term none) _ h2 in
      let (drawn, got, h4) =
        >>=-eq-ok (random_election_timeout (record (abort_forwarded n) { log = log })) _ h3 in
      let (keeps, at, voted, stored) = set_term_vote_lem n.log term none set in
      let took : drawn.1.log ≡ log = log-draw (record (abort_forwarded n) { log = log }) got in
      let same : n'.log ≡ log = ground (arith, took) in
      (
        ap (λ (l : Log). l.term) same ∙ at,
        subst (KeepsVote n.log) (sym same) keeps,
        ground arith,
        set ∙ ap (λ (l : Log). ok l) (sym same),
      )

  -- Following a leader leaves the log alone; following none takes up the new term.
  pub into_follower_lem :
      (n : RawNode S Follower) (term : ℕ) (leader : Option ℕ) {n' : RawNode S Follower}
      → into_follower n term leader ≡ ok n'
      → (n'.log.term ≡ term)
        × KeepsVote n.log n'.log
        × (leader ≢ none → n'.log ≡ n.log)
        × (n'.role.leader ≡ leader)
  into_follower_lem n term (some leader) {n'} h =
      let same : n'.log ≡ n.log = unfold into_follower in ground (arith, log-abort_forwarded n) in
      let at : term ≡ n.log.term = unfold into_follower in ground arith in
      (
        ap (λ (l : Log). l.term) same ∙ sym at,
        SameVote-KeepsVote n.log n'.log
            (ap (λ (l : Log). l.term) same, ap (λ (l : Log). l.vote) same),
        λ e. same,
        unfold into_follower in ground arith,
      )
  into_follower_lem n term none {n'} h =
      let (at, keeps, alone, set) = leaderless_lem n term h in
      (at, keeps, λ e. absurd (e refl), alone)

  from_leader_lem :
      (n : RawNode S Follower) (from term : ℕ)
      (handle : RawNode S Follower → Outcome (RawNode S Follower)) {n' : RawNode S Follower}
      → ((m m' : RawNode S Follower) → handle m ≡ ok m' → SameVote m.log m'.log)
      → from_leader n from term handle ≡ ok n'
      → SameVote n.log n'.log
  from_leader_lem n from term handle {n'} each h = elim (Option-cases n.role.leader) [
    | inl unknown ↦
        let called : (into_follower n term (some from) >>= handle) ≡ ok n' =
          unfold from_leader in ground arith in
        let (m, followed, handled) = >>=-eq-ok (into_follower n term (some from)) handle called in
        let (at, keeps, same, leads) = into_follower_lem n term (some from) followed in
        subst (λ (l : Log). SameVote l n'.log) (same (λ e. ground arith)) (each m n' handled)
    | inr (leader, known) ↦ elim (Bool-cases (from == leader)) [
      | inl it ↦ each n n' (unfold from_leader in ground arith)
      | inr other ↦
          let same : n ≡ n' = unfold from_leader in ground arith in
          subst (λ (m : RawNode S Follower). SameVote n.log m.log) same (refl, refl)
    ]
  ]

module _ (sm : StateMachine) where
  open sm use {Machine}

  pub log-apply_entries :
      (entries : List Entry) (n : RawNode Machine Follower) {n' : RawNode Machine Follower}
      → apply_entries sm entries n ≡ ok n'
      → n'.log ≡ n.log
  unfolding apply_entries
  log-apply_entries [] n h = ground arith
  log-apply_entries (e ∷ entries) n h =
      let (u, dropped, rest) = >>=-eq-ok (discard (sm.apply n.state e).1) _ h in
      log-apply_entries entries _ rest

  pub log-maybe_apply :
      (n : RawNode Machine Follower) {n' : RawNode Machine Follower}
      → maybe_apply sm n ≡ ok n'
      → n'.log ≡ n.log
  unfolding maybe_apply
  log-maybe_apply n h = log-apply_entries _ n h

  pub log-note_leader :
      (n : RawNode Machine Follower) (from : ℕ) → (note_leader sm n from).log ≡ n.log
  unfolding note_leader
  log-note_leader n from = ground arith

  -- A heartbeat changes the log by a commit at most, and only if the log has the leader's last
  -- entry.
  pub on_heartbeat_log :
      (from term last_index commit_index read_seq : ℕ) (n n' : RawNode Machine Follower)
      → on_heartbeat sm from term last_index commit_index read_seq n ≡ ok n'
      → (n'.log ≡ n.log)
        ⊎ ((has n.log last_index term ≡ true)
            × (n.log.commit_index < commit_index)
            × ((k : ℕ) × (commit n.log commit_index ≡ ok (n'.log, k))))
  unfolding on_heartbeat
  on_heartbeat_log from term last_index commit_index read_seq n n' h =
      let match_index = if has n.log last_index term then last_index else 0 in
      elim (Bool-cases (not (match_index == 0) && ltb n.log.commit_index commit_index)) [
        | inr stay ↦ inl (unfold send in ground arith)
        | inl go ↦
            let answered = send n from (Message.heartbeat_response match_index read_seq) in
            let called : (commit n.log commit_index >>= λ p.
            maybe_apply sm (record answered { log = p.0 }))
                ≡ ok n' =
              ground arith in
            let (p, committed, applied) = >>=-eq-ok (commit n.log commit_index) _ called in
            let same : n'.log ≡ p.0 = log-maybe_apply (record answered { log = p.0 }) applied in
            inr (ground arith, ground arith, (p.1, ground arith))
      ]

  -- An append changes the log by a splice of its entries at most.
  pub on_append_log :
      (from base_index base_term : ℕ) (entries : List Entry) (n n' : RawNode Machine Follower)
      → on_append sm from base_index base_term entries n ≡ ok n'
      → (n'.log ≡ n.log) ⊎ ((k : ℕ) × (splice n.log entries ≡ ok (n'.log, k)))
  unfolding on_append
  on_append_log from base_index base_term entries n n' h =
      elim (Bool-cases (base_index == 0 || has n.log base_index base_term)) [
        | inr refused ↦ inl (unfold send in ground arith)
        | inl matches ↦
            let (p, spliced, sent) = >>=-eq-ok (splice n.log entries) _ (rw matches at h) in
            let same : n'.log ≡ p.0 =
              unfold send in
              ground (arith, log-adopt_memberships entries (record n { log = p.0 })) in
            inr (p.1, ground arith)
      ]

  -- A snapshot is installed by a reset of the log at most.
  pub on_install_snapshot_log :
      (from index term : ℕ) (bytes : Bytes) (membership : MembershipEntry)
      (n n' : RawNode Machine Follower)
      → on_install_snapshot sm from index term bytes membership n ≡ ok n'
      → (n'.log ≡ n.log)
        ⊎ ((sm.get_applied_index n.state ≤ index)
            × (reset_with_snapshot (set_snapshot_data n.log bytes) index term ≡ ok n'.log))
  unfolding on_install_snapshot
  on_install_snapshot_log from index term bytes membership n n' h =
      elim (Bool-cases
        (leb (get_snapshot_meta n.log).0 index && leb (sm.get_applied_index n.state) index)) [
          | inr old ↦ inl (unfold send in ground arith)
          | inl newer ↦
              let (u, restored, h1) =
                >>=-eq-ok (sm.restore n.state bytes index).1 _ (rw newer at h) in
              let (log, reset, sent) =
                >>=-eq-ok (reset_with_snapshot (set_snapshot_data n.log bytes) index term) _ h1 in
              let same : n'.log ≡ log = unfold send in ground arith in
              inr (ground arith, ground arith)
        ]
