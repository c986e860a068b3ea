-- ===== src/Session/Noted.antt =====
-- What a command of a session does to the replies that are kept (src/raft/session.rs).
use raft_rust.Base.{
  ℕ, ◌≡◌, ◌≤◌, ◌<◌, refl, ap, ◌⊎◌, inl, inr, Option, none, some, [], Outcome, ok, err, panic, ltb,
  ◌==◌, arith, Bool-cases, Option-cases,
}
use raft_rust.KeyMap
use raft_rust.KeyMap.{IsAscending, get-insert_same, get-insert_other, insert-IsAscending}
use raft_rust.KeyMap.Order.{number_keys}
use raft_rust.Log.Entry.{Entry, Bytes}
use raft_rust.StateMachine.{StateMachine}
use raft_rust.Session.{
  SessionCommand, SessionCodecs, SessionState, apply_inner, skip, keep_reply, execute,
  apply_session,
}

module _ (codecs : SessionCodecs) where
  module _ (inner : StateMachine) where
    -- The sequence number of a client's last command, if it has had one.
    unfoldable pub last_seq : ℕ → SessionState codecs inner → Option ℕ
    last_seq client s = elim (KeyMap.get client s.sessions) [
      | none ↦ none
      | some (last, cached) ↦ some last
    ]

    -- The client has executed a command numbered `seq` or later.
    abbrev pub HasReached : SessionState codecs inner → ℕ → ℕ → Type 0
    HasReached s client seq = (last : ℕ) × (last_seq client s ≡ some last) × (seq ≤ last)

    -- What a command of a session does to the replies that are kept: nothing, or it is new and its
    -- reply replaces that of the client's last one.
    pub Noted :
        SessionState codecs inner
        → SessionCommand
        → SessionState codecs inner × Outcome Bytes
        → Type 0
    Noted s sess (t, result) =
        ((t.sessions ≡ s.sessions)
          × ((reply : Bytes) → result ≡ ok reply → HasReached s sess.client_id sess.seq))
        ⊎ ((reply : Bytes) × (result ≡ ok reply)
            × (t.sessions ≡ KeyMap.insert sess.client_id (sess.seq, reply) s.sessions)
            × ((last : ℕ) → last_seq sess.client_id s ≡ some last → last < sess.seq))

    keep_reply-Noted :
        (s : SessionState codecs inner) (sess : SessionCommand)
        (r : SessionState codecs inner × Outcome Bytes)
        → r.0.sessions ≡ s.sessions
        → ((last : ℕ) → last_seq sess.client_id s ≡ some last → last < sess.seq)
        → Noted s sess (keep_reply codecs inner sess r)
    unfolding keep_reply Noted
    keep_reply-Noted s sess (t, ok reply) same new =
        inr (reply, refl, ap (KeyMap.insert sess.client_id (sess.seq, reply)) same, new)
    keep_reply-Noted s sess (t, err e) same new = inl (same, λ reply h. absurd (ground arith))
    keep_reply-Noted s sess (t, panic) same new = inl (same, λ reply h. absurd (ground arith))

    execute-Noted :
        (s : SessionState codecs inner) (entry : Entry) (sess : SessionCommand)
        → ((last : ℕ) → last_seq sess.client_id s ≡ some last → last < sess.seq)
        → Noted s sess (execute codecs inner s entry sess)
    unfolding execute
    execute-Noted s entry sess new =
        keep_reply-Noted s sess
          (apply_inner codecs inner s (record {
            index = entry.index;
            term = entry.term;
            command = some sess.payload;
            membership = none;
          }))
          refl new

    skip-Noted :
        (s : SessionState codecs inner) (entry : Entry) (sess : SessionCommand) (reply : Bytes)
        → HasReached s sess.client_id sess.seq
        → Noted s sess (skip codecs inner s entry reply)
    unfolding skip Noted
    skip-Noted s entry sess reply known = inl (refl, λ r h. known)

    pub apply_session-Noted :
        (s : SessionState codecs inner) (entry : Entry) (sess : SessionCommand)
        → Noted s sess (apply_session codecs inner s entry sess)
    unfolding last_seq apply_session
    apply_session-Noted s entry sess = elim (Option-cases (KeyMap.get sess.client_id s.sessions)) [
      | inl unknown ↦
          rw (apply_session, unknown) (execute-Noted s entry sess (λ last h. absurd (ground arith)))
      | inr ((last, cached), found) ↦
          let known : last_seq sess.client_id s ≡ some last = ground arith in
          elim (Bool-cases (sess.seq == last)) [
            | inl again ↦
                rw (apply_session, found, again)
                  (skip-Noted s entry sess cached (last, known, ground arith))
            | inr other ↦ elim (Bool-cases (ltb sess.seq last)) [
              | inl stale ↦
                  rw (apply_session, found, other, stale)
                    (skip-Noted s entry sess [] (last, known, ground arith))
              | inr new ↦
                  rw (apply_session, found, other, new)
                    (execute-Noted s entry sess
                      (λ l h. let same : l ≡ last = ground arith in ground arith))
            ]
          ]
    ]

    pub Noted-HasReached :
        (s : SessionState codecs inner) (sess : SessionCommand)
        (r : SessionState codecs inner × Outcome Bytes) (client seq : ℕ)
        → Noted s sess r
        → HasReached s client seq
        → HasReached r.0 client seq
    unfolding Noted last_seq
    Noted-HasReached s sess r client seq (inl (same, told)) (last, found, le) =
        (last, rw same found, le)
    Noted-HasReached s sess r client seq (inr (reply, answered, noted, new)) (last, found, le) =
        elim (Bool-cases (client == sess.client_id)) [
          | inr other ↦ (
            last,
            rw
                (
                  noted,
                  last_seq,
                  get-insert_other client sess.client_id (sess.seq, reply) s.sessions other,
                )
                found,
            le,
          )
          | inl mine ↦
              let met : client ≡ sess.client_id = ground arith in
              let put = get-insert_same sess.client_id (sess.seq, reply) s.sessions in
              (
                sess.seq,
                rw (met, noted, last_seq, put) refl,
                omega (arith, new last (rw met at found)),
              )
        ]

    -- A command that was answered has been reached.
    pub Noted-reached :
        (s : SessionState codecs inner) (sess : SessionCommand)
        (r : SessionState codecs inner × Outcome Bytes) {reply : Bytes}
        → Noted s sess r
        → r.1 ≡ ok reply
        → HasReached r.0 sess.client_id sess.seq
    unfolding Noted last_seq
    Noted-reached s sess r {reply} (inl (same, told)) h =
        Noted-HasReached s sess r sess.client_id sess.seq (inl (same, told)) (told reply h)
    Noted-reached s sess r (inr (reply, answered, noted, new)) h = (
      sess.seq,
      rw (noted, last_seq, get-insert_same sess.client_id (sess.seq, reply) s.sessions) refl,
      omega arith,
    )

    pub Noted-IsAscending :
        (s : SessionState codecs inner) (sess : SessionCommand)
        (r : SessionState codecs inner × Outcome Bytes)
        → Noted s sess r
        → IsAscending s.sessions
        → IsAscending r.0.sessions
    unfolding Noted
    Noted-IsAscending s sess r (inl (same, told)) sorted = rw same sorted
    Noted-IsAscending s sess r (inr (reply, answered, noted, new)) sorted =
        rw noted (insert-IsAscending sess.client_id (sess.seq, reply) s.sessions sorted)
