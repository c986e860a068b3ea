-- ===== src/Session/Once.antt =====
-- Repeated commands of a session: `SessionState::apply` of src/raft/session.rs.
use raft_rust.Base.{
  ℕ, ◌≡◌, ◌≤◌, refl, sym, ap, ◌∙◌, inl, inr, true, some, List, [], ◌∷◌, ok, ltb, ◌==◌, arith,
  Bool-cases, Option-cases,
}
use raft_rust.KeyMap
use raft_rust.KeyMap.{IsAscending, get-insert_same, get-insert_other, insert-IsAscending}
use raft_rust.KeyMap.Order.{number_keys, bytes_equal}
use raft_rust.Codec.{RoundTrips}
use raft_rust.Log.Entry.{Entry, Bytes}
use raft_rust.StateMachine.{StateMachine}
use raft_rust.Session.{
  SessionCommand, SessionCodecs, SessionState, encode_session, decode_session, apply_inner, noop,
  skip, apply_session, apply,
}
use raft_rust.Session.Noted.{
  last_seq, HasReached, apply_session-Noted, Noted-HasReached, Noted-reached, Noted-IsAscending,
}

module _ (codecs : SessionCodecs) where
  open codecs use {commands}

  -- What a leader writes for a session is read back as that session's command.
  pub decode_session-encode_session :
      (client_id seq : ℕ) (payload : Bytes)
      → RoundTrips commands (record { client_id = client_id; seq = seq; payload = payload })
      → decode_session codecs (encode_session codecs client_id seq payload)
        ≡ some (record { client_id = client_id; seq = seq; payload = payload })
  unfolding decode_session encode_session bytes_equal
  decode_session-encode_session client_id seq payload back = ground (arith, back)

  module _ (inner : StateMachine) where
    open inner use {Machine}

    pub apply-HasReached :
        (s : SessionState codecs inner) (entry : Entry) (client seq : ℕ)
        → HasReached codecs inner s client seq
        → HasReached codecs inner (apply codecs inner s entry).0 client seq
    unfolding apply apply_inner last_seq
    apply-HasReached s entry client seq held = elim (Option-cases entry.command) [
      | inl empty ↦ rw (apply, empty) held
      | inr (bytes, given) ↦ elim (Option-cases (decode_session codecs bytes)) [
        | inl plain ↦ rw (apply, given, plain) held
        | inr (sess, decoded) ↦
            rw (apply, given, decoded)
              (Noted-HasReached codecs inner s sess (apply_session codecs inner s entry sess) client
                seq (apply_session-Noted codecs inner s entry sess) held)
      ]
    ]

    -- Every entry keeps one reply for each client.
    apply-IsAscending :
        (s : SessionState codecs inner) (entry : Entry)
        → IsAscending s.sessions
        → IsAscending (apply codecs inner s entry).0.sessions
    unfolding apply apply_inner
    apply-IsAscending s entry sorted = elim (Option-cases entry.command) [
      | inl empty ↦ rw (apply, empty) sorted
      | inr (bytes, given) ↦ elim (Option-cases (decode_session codecs bytes)) [
        | inl plain ↦ rw (apply, given, plain) sorted
        | inr (sess, decoded) ↦
            rw (apply, given, decoded)
              (Noted-IsAscending codecs inner s sess (apply_session codecs inner s entry sess)
                (apply_session-Noted codecs inner s entry sess) sorted)
      ]
    ]

    unfoldable pub apply_all : SessionState codecs inner → List Entry → SessionState codecs inner
    apply_all s [] = s
    apply_all s (entry ∷ entries) = apply_all (apply codecs inner s entry).0 entries

    apply_all-HasReached :
        (s : SessionState codecs inner) (entries : List Entry) (client seq : ℕ)
        → HasReached codecs inner s client seq
        → HasReached codecs inner (apply_all s entries) client seq
    unfolding apply_all
    apply_all-HasReached s [] client seq held = held
    apply_all-HasReached s (entry ∷ entries) client seq held =
        apply_all-HasReached (apply codecs inner s entry).0 entries client seq
          (apply-HasReached s entry client seq held)

    apply_session-again :
        (s : SessionState codecs inner) (entry : Entry) (sess : SessionCommand)
        → HasReached codecs inner s sess.client_id sess.seq
        → (apply_session codecs inner s entry sess).0
          ≡ (apply_inner codecs inner s (noop codecs inner entry)).0
    unfolding last_seq apply_session skip
    apply_session-again s entry sess (reached, known, le) =
        elim (Option-cases (KeyMap.get sess.client_id s.sessions)) [
          | inl unknown ↦ absurd (ground arith)
          | inr ((last, cached), found) ↦
              let same : last ≡ reached = ground arith in
              elim (Bool-cases (sess.seq == last)) [
                | inl again ↦ rw (apply_session, found, again) refl
                | inr other ↦
                    let stale : ltb sess.seq last ≡ true = ground arith in
                    rw (apply_session, found, other, stale) refl
              ]
        ]

    -- The command of an entry, wrapped for a session.
    abbrev pub CarriesSession : Entry → SessionCommand → Type 0
    CarriesSession entry sess =
        (bytes : Bytes) × (entry.command ≡ some bytes) × (decode_session codecs bytes ≡ some sess)

    apply-eq-apply_session :
        (s : SessionState codecs inner) (entry : Entry) (sess : SessionCommand)
        → CarriesSession entry sess
        → apply codecs inner s entry ≡ apply_session codecs inner s entry sess
    unfolding apply
    apply-eq-apply_session s entry sess (bytes, given, decoded) = rw (apply, given, decoded) refl

    -- Once a command of a session was applied and answered, then after any further entries a
    -- command of that client with the same or a lower number only has the inner machine apply an
    -- empty entry, and changes no reply that is kept.
    pub applied_once :
        (s : SessionState codecs inner) (first again : Entry) (between : List Entry)
        (sess repeated : SessionCommand) {reply : Bytes}
        → CarriesSession first sess
        → CarriesSession again repeated
        → repeated.client_id ≡ sess.client_id
        → repeated.seq ≤ sess.seq
        → (apply codecs inner s first).1 ≡ ok reply
        → (apply codecs inner (apply_all (apply codecs inner s first).0 between) again).0
          ≡ (apply_inner codecs inner
              (apply_all (apply codecs inner s first).0 between)
              (noop codecs inner again)).0
    applied_once s first again between sess repeated carries carries_again same_client le answered =
        let called = apply-eq-apply_session s first sess carries in
        let (last, known, reached) =
          Noted-reached codecs inner s sess (apply_session codecs inner s first sess)
            (apply_session-Noted codecs inner s first sess)
            (sym (ap (λ r. r.1) called) ∙ answered) in
        let held : HasReached codecs inner (apply codecs inner s first).0 repeated.client_id
            repeated.seq =
          (last, rw (same_client, called) known, omega arith) in
        let then_held =
          apply_all-HasReached (apply codecs inner s first).0 between repeated.client_id
            repeated.seq held in
        ap (λ r. r.0) (apply-eq-apply_session _ again repeated carries_again)
        ∙ apply_session-again _ again repeated then_held
