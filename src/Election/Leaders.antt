-- ===== src/Election/Leaders.antt =====
-- The functions of a leader that send no vote: sending, reading and stepping down in
-- src/raft/node.rs.
use raft_rust.Base.{
  ℕ, ◌≡◌, refl, sym, ap, ◌∙◌, inl, inr, Bool, false, not, none, List, [], ◌∷◌, Outcome, ok,
  >>=-eq-ok, ◌==◌, ltb, map, ◌>>=◌, ◌+◌, ◌&&◌, take, if◌then◌else◌, arith, Option-cases, Bool-cases,
  u64_add,
}
use raft_rust.NodeSet.{NodeSet}
use raft_rust.Message.{Message}
use raft_rust.Log.Entry.{Entry}
use raft_rust.Log.Ops.{scan, included, unbounded, set_term_vote, get_snapshot_meta}
use raft_rust.StateMachine.{StateMachine}
use raft_rust.Node.Types.{RawNode, Leader, Follower, Progress, Write, Read}
use raft_rust.Node.Common.{send, random_election_timeout}
use raft_rust.Node.Follower.{abort_message}
use raft_rust.Node.Progress.{progress_of}
use raft_rust.Node.Replicate.{
  set_peer, send_entries, send_snapshot, maybe_send_append, send_new, heartbeat,
  sync_progress_with_membership, base_of, move_next,
}
use raft_rust.Node.Reads.{serve, read_waiting, read_reply, quorum_read_seq, maybe_read}
use raft_rust.Node.Lead.{on_progress, abort_writes, step_down, sort_by_id}
use raft_rust.Election.Ballots.{grants, ballots, ballots-send, ballots-broadcast, ballots-timeout}

module _ {S : Type 0} where
  ballots-send_entries :
      (n : RawNode S Leader) (peer : ℕ) (p : Progress) (probe : Bool) {n' : RawNode S Leader}
      → send_entries n peer p probe ≡ ok n'
      → ballots n' ≡ ballots n
  unfolding send_entries grants
  ballots-send_entries n peer p probe {n'} h =
      let probing = probe && ltb (p.match_index + 1) p.next_index in
      elim (Bool-cases (p.match_index == n.log.last_index)) [
        | inl all_there ↦ ground arith
        | inr behind ↦ elim (Bool-cases (ltb n.log.last_index p.next_index && not probing)) [
          | inl sent_all ↦ ground arith
          | inr more ↦
              let entries : List Entry =
                if probing
                then []
                else take n.opts.max_append_entries
                    (scan n.log (included p.next_index) unbounded) in
              let called : (base_of n.log p.next_index >>= λ base. move_next p entries >>= λ q.
              ok (send (set_peer n peer q) peer (Message.append base.0 base.1 entries)))
                  ≡ ok n' =
                ground arith in
              let (base, a, h1) = >>=-eq-ok (base_of n.log p.next_index) _ called in
              let (q, b, sent) = >>=-eq-ok (move_next p entries) _ h1 in
              let m = Message.append base.0 base.1 entries in
              let same : send (set_peer n peer q) peer m ≡ n' = ground arith in
              let kept : ballots (set_peer n peer q) ≡ ballots n =
                unfold ballots set_peer in refl in
              ap (λ (y : RawNode S Leader). ballots y) (sym same)
              ∙ ballots-send (set_peer n peer q) peer m refl
              ∙ kept
        ]
      ]

  pub ballots-heartbeat :
      (n : RawNode S Leader) {n' : RawNode S Leader} → heartbeat n ≡ ok n' → ballots n' ≡ ballots n
  unfolding heartbeat ballots grants
  ballots-heartbeat n h = ground (
    arith,
    ballots-broadcast (record n { role = record (n.role) { since_heartbeat = 0 } })
        (Message.heartbeat n.log.last_index n.log.commit_index n.role.read_seq) refl,
  )

  pub ballots-sync :
      (n : RawNode S Leader) {n' : RawNode S Leader}
      → sync_progress_with_membership n ≡ ok n'
      → ballots n' ≡ ballots n
  unfolding sync_progress_with_membership u64_add ballots
  ballots-sync n h = ground arith

  pub ballots-on_progress :
      (n : RawNode S Leader) (peer : ℕ) (change : Progress → Outcome (Progress × Bool))
      {p : RawNode S Leader × Bool}
      → on_progress n peer change ≡ ok p
      → ballots p.0 ≡ ballots n
  unfolding on_progress set_peer ballots
  ballots-on_progress n peer change {p} h = elim (Option-cases (progress_of peer n.role.progress)) [
    | inl unknown ↦ absurd (ground arith)
    | inr (q, known) ↦
        let (r, changed, set) = >>=-eq-ok (change q) _ (rw (on_progress, known) at h) in
        ground arith
  ]

  ballots-abort_writes :
      (l : List Write) (n : RawNode S Leader) → ballots (abort_writes l n) ≡ ballots n
  unfolding abort_writes abort_message grants
  ballots-abort_writes [] n = refl
  ballots-abort_writes (w ∷ l) n =
      ballots-abort_writes l (send n w.from (abort_message w.id))
      ∙ ballots-send n w.from (abort_message w.id) refl

  pub ballots-step_down :
      (n : RawNode S Leader) (term : ℕ) {f : RawNode S Follower}
      → step_down n term ≡ ok f
      → ballots f ≡ ballots n
  unfolding step_down
  ballots-step_down n term {f} h =
      let (log, set, h1) =
        >>=-eq-ok (if ltb n.log.term term then set_term_vote n.log term none else ok n.log) _ h in
      let n1 = record n { log = log } in
      let first = sort_by_id (map (λ w. w.1) n.role.writes) in
      let second = sort_by_id (map (λ w. w.1) n.role.membership_writes) in
      let third =
        sort_by_id (map (λ (r : Read). record { from = r.from; id = r.id }) n.role.reads) in
      let n2 = abort_writes first n1 in
      let n3 = abort_writes second n2 in
      let n4 = abort_writes third n3 in
      let (drawn, got, same) = >>=-eq-ok (random_election_timeout n4) _ h1 in
      let last : ballots f ≡ ballots drawn.1 = unfold ballots in ground arith in
      let kept : ballots n1 ≡ ballots n = unfold ballots in refl in
      last
      ∙ ballots-timeout n4 got
      ∙ ballots-abort_writes third n3
      ∙ ballots-abort_writes second n2
      ∙ ballots-abort_writes first n1
      ∙ kept

module _ (sm : StateMachine) where
  open sm use {Machine}

  ballots-send_snapshot :
      (n : RawNode Machine Leader) (peer : ℕ) {n' : RawNode Machine Leader}
      → send_snapshot sm n peer ≡ ok n'
      → ballots n' ≡ ballots n
  unfolding send_snapshot
  ballots-send_snapshot n peer {n'} h =
      let (bytes, a, sent) = >>=-eq-ok (sm.snapshot n.state) _ h in
      let base = get_snapshot_meta n.log in
      let m = Message.install_snapshot base.0 base.1 bytes n.membership.active in
      let same : send n peer m ≡ n' = ground arith in
      ap (λ (y : RawNode Machine Leader). ballots y) (sym same)
      ∙ ballots-send n peer m (unfold grants in refl)

  pub ballots-maybe_send_append :
      (n : RawNode Machine Leader) (peer : ℕ) (probe : Bool) {n' : RawNode Machine Leader}
      → maybe_send_append sm n peer probe ≡ ok n'
      → ballots n' ≡ ballots n
  unfolding maybe_send_append u64_add
  ballots-maybe_send_append n peer probe {n'} h =
      elim (Option-cases (progress_of peer n.role.progress)) [
        | inl unknown ↦ ground arith
        | inr (p, known) ↦ ground (
          arith,
          ballots-send_entries n peer p probe {n' = n'},
          ballots-send_snapshot n peer {n' = n'},
        )
      ]

  pub ballots-send_new :
      (index : ℕ) (ids : NodeSet) (n : RawNode Machine Leader) {n' : RawNode Machine Leader}
      → send_new sm index ids n ≡ ok n'
      → ballots n' ≡ ballots n
  unfolding send_new
  ballots-send_new index [] n h = ground arith
  ballots-send_new index (peer ∷ ids) n {n'} h =
      elim (Option-cases (progress_of peer n.role.progress)) [
        | inl unknown ↦ absurd (ground arith)
        | inr (p, known) ↦
            let (m, told, rest) =
              >>=-eq-ok (if index == p.next_index then maybe_send_append sm n peer false else ok n)
                _ (rw (send_new, known) at h) in
            ballots-send_new index ids m rest
            ∙ (ground (arith, ballots-maybe_send_append n peer false {n' = m}))
      ]

  ballots-serve :
      (seq : ℕ) (l : List Read) (n : RawNode Machine Leader) {n' : RawNode Machine Leader}
      → serve sm seq l n ≡ ok n'
      → ballots n' ≡ ballots n
  unfolding serve grants
  ballots-serve seq [] n h = unfold ballots in ground arith
  ballots-serve seq (r ∷ reads) n {n'} h = elim (Bool-cases (ltb seq r.seq)) [
    | inl later ↦ unfold ballots in ground arith
    | inr now ↦
        let (reply, a, rest) =
          >>=-eq-ok (read_reply (sm.read n.state r.command)) _ (rw (serve, now) at h) in
        ballots-serve seq reads (send n r.from (Message.client_response r.id reply)) rest
        ∙ ballots-send n r.from (Message.client_response r.id reply) refl
  ]

  ballots-read_waiting :
      (n : RawNode Machine Leader) (l : List Read) {n' : RawNode Machine Leader}
      → read_waiting sm n l ≡ ok n'
      → ballots n' ≡ ballots n
  unfolding read_waiting
  ballots-read_waiting n [] h = ground arith
  ballots-read_waiting n (r ∷ reads) {n'} h =
      ground (arith, ballots-serve (quorum_read_seq n) (r ∷ reads) n {n' = n'})

  pub ballots-maybe_read :
      (n : RawNode Machine Leader) {n' : RawNode Machine Leader}
      → maybe_read sm n ≡ ok n'
      → ballots n' ≡ ballots n
  unfolding maybe_read
  ballots-maybe_read n h = ballots-read_waiting n n.role.reads h
