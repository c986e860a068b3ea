-- ===== src/Node/Appends.antt =====
-- What a leader sends to a peer that is behind: `maybe_send_append` of src/raft/node.rs.
use raft_rust.Base.{
  ℕ, suc, ◌+◌, ◌-◌, ◌≤◌, ◌<◌, ◌≡◌, ◌⊎◌, inl, inr, refl, ap, ◌∙◌, Bool, false, not, ◌&&◌, none, some,
  List, [], ◌∷◌, ◌++◌, length, take, get_elem?, ok, panic, ◌>>=◌, arith, u64_add, u64_limit, ltb,
  ◌==◌, Bool-cases, length-take, ◌||◌,
}
use raft_rust.Message.{Message}
use raft_rust.Log.Entry.{Entry}
use raft_rust.Log.Ops.{Log, get, rows, scan, included, unbounded}
use raft_rust.Log.Rows.{IsRunOf}
use raft_rust.Log.Runs.{lookup-eq-some, lookup_in_run, lookup_before_run}
use raft_rust.Log.Tail.{tail_lem}
use raft_rust.Log.Invariant.{IsWellFormed}
use raft_rust.StateMachine.{StateMachine}
use raft_rust.Node.Types.{RawNode, Progress, Leader}
use raft_rust.Node.Common.{send}
use raft_rust.Node.Progress.{progress_of, set_progress, IsWithin}
use raft_rust.Node.Replicate.{
  position_of, base_of, move_next, set_peer, send_entries, maybe_send_append,
}

-- Behind entries with the indices from `i` on the next index is the one after the last.
move_next_run :
    (p : Progress) (i : ℕ) (e : Entry) (entries : List Entry)
    → IsRunOf i (e ∷ entries)
    → suc i + length entries < u64_limit
    → move_next p (e ∷ entries) ≡ ok (record p { next_index = suc i + length entries })
unfolding move_next u64_add
move_next_run p i e [] run fits = ground (arith, run.0)
move_next_run p i e (f ∷ entries) run fits =
    let n : suc (suc i) + length entries ≡ suc i + suc (length entries) = omega arith in
    move_next_run p (suc i) f entries run.1 (omega arith)
    ∙ ap (λ t. ok (record p { next_index = t })) n

move_next-eq-ok :
    (p : Progress) (entries : List Entry)
    → IsRunOf p.next_index entries
    → p.next_index + length entries < u64_limit
    → move_next p entries ≡ ok (record p { next_index = p.next_index + length entries })
move_next-eq-ok p [] run fits =
    let n : p.next_index ≡ p.next_index + 0 = omega arith in
    unfold move_next in ap (λ t. ok (record p { next_index = t })) n
move_next-eq-ok p (e ∷ entries) run fits =
    let n : suc p.next_index + length entries ≡ p.next_index + suc (length entries) = omega arith in
    move_next_run p p.next_index e entries run (omega arith)
    ∙ ap (λ t. ok (record p { next_index = t })) n

progress_of-set_progress :
    (peer : ℕ) (p q : Progress) (l : List (ℕ × Progress))
    → progress_of peer l ≡ some p
    → progress_of peer (set_progress peer q l) ≡ some q
unfolding progress_of set_progress
progress_of-set_progress peer p q [] known = absurd (ground arith)
progress_of-set_progress peer p q ((other, b) ∷ l) known =
    ground (arith, progress_of-set_progress peer p q l)

-- The base that is sent is the entry before the first one, or the start of the log.
base_lem :
    (log : Log) (next : ℕ)
    → IsWellFormed log
    → (log.first_index ≡ 1) ⊎ (log.first_index < next)
    → 0 < next
    → next ≤ log.last_index + 1
    → (term : ℕ) × (base_of log next ≡ ok (next - 1, term))
      × (((next ≡ 1) × (term ≡ 0))
          ⊎ ((b : Entry) × (get log (next - 1) ≡ some b) × (b.term ≡ term)))
unfolding base_of position_of
base_lem log next w there pos hi = elim (Bool-cases (next == 1)) [
  | inl one ↦ (0, ground arith, inl (ground arith, refl))
  | inr more ↦
      let (b, found) =
        lookup_in_run log.first_index (next - 1) (rows log) w.run (ground arith)
          (omega (arith, w.ends)) in
      let (x, y, at) = lookup-eq-some log.first_index (next - 1) (rows log) w.run found in
      (b.term, rw (more, found) (ap (λ t. ok (t, b.term)) at), inr (b, found, refl))
]

-- One message to the peer, whose entries follow its base in the leader's log, at most as many as
-- an append may hold; the next index moves behind them and stays within the log.
pub record Sent {S : Type 0} (n : RawNode S Leader) (peer : ℕ) (p : Progress)
    (n' : RawNode S Leader) : Type 0 where
  pub base_term : ℕ
  pub entries : List Entry
  pub sent :
      n'.tx
      ≡ n.tx
        ++ record {
          from = n.id;
          term = n.log.term;
          to = peer;
          message = Message.append (p.next_index - 1) base_term entries;
        }
          ∷ []
  pub base :
      ((p.next_index ≡ 1) × (base_term ≡ 0))
      ⊎ ((b : Entry) × (get n.log (p.next_index - 1) ≡ some b) × (b.term ≡ base_term))
  pub bounded : length entries ≤ n.opts.max_append_entries
  pub copied :
      (j : ℕ) (e : Entry) → get_elem? entries j ≡ some e → get n.log (p.next_index + j) ≡ some e
  pub moved :
      progress_of peer n'.role.progress
      ≡ some (record p { next_index = p.next_index + length entries })
  pub stays_within :
      IsWithin n.log.last_index (record p { next_index = p.next_index + length entries })

module _ {S : Type 0} (n : RawNode S Leader) (peer : ℕ) (p : Progress) (w : IsWellFormed n.log)
    (room : n.log.last_index + 1 < u64_limit) (known : progress_of peer n.role.progress ≡ some p)
    (within : IsWithin n.log.last_index p)
    (there : (n.log.first_index ≡ 1) ⊎ (n.log.first_index < p.next_index)) where
  sending :
      (probe : Bool) (entries : List Entry)
      → IsRunOf p.next_index entries
      → p.next_index + length entries ≤ n.log.last_index + 1
      → length entries ≤ n.opts.max_append_entries
      → ((j : ℕ) (e : Entry) → get_elem? entries j ≡ some e → get n.log (p.next_index + j) ≡ some e)
      → (n' : RawNode S Leader) × ((do
        base ← base_of n.log p.next_index
        q ← move_next p entries
        ok (send (set_peer n peer q) peer (Message.append base.0 base.1 entries)))
          ≡ ok n')
        × (n'.log ≡ n.log)
        × Sent n peer p n'
  sending probe entries run ends short copies =
      let (term, based, base) =
        base_lem n.log p.next_index w there (omega (arith, within.match_lt)) within.next_le in
      let q = record p { next_index = p.next_index + length entries } in
      let moved = move_next-eq-ok p entries run (omega arith) in
      (
        send (set_peer n peer q) peer (Message.append (p.next_index - 1) term entries),
        rw (based, moved) refl,
        unfold send set_peer in refl,
        record {
          base_term = term;
          entries = entries;
          sent = unfold send set_peer in refl;
          base = base;
          bounded = short;
          copied = copies;
          moved = unfold send set_peer in progress_of-set_progress peer p q n.role.progress known;
          stays_within = record { match_lt = omega (arith, within.match_lt); next_le = ends };
        },
      )

  send_entries_lem :
      (probe : Bool)
      → (n' : RawNode S Leader) × (send_entries n peer p probe ≡ ok n')
        × (n'.log ≡ n.log)
        × ((n' ≡ n) ⊎ Sent n peer p n')
  unfolding send_entries
  send_entries_lem probe =
      let quiet =
        p.match_index == n.log.last_index
        || (ltb n.log.last_index p.next_index
            && not (probe && ltb (p.match_index + 1) p.next_index)) in
      let (run, copies, ends) =
        tail_lem n.log w p.next_index (ground (arith, within.match_lt)) within.next_le room
          n.opts.max_append_entries in
      elim (Bool-cases quiet) [
        | inl nothing ↦ (n, ground arith, refl, inl refl)
        | inr due ↦
            let behind : (p.match_index == n.log.last_index) ≡ false = ground arith in
            let sends : (ltb n.log.last_index p.next_index
                  && not (probe && ltb (p.match_index + 1) p.next_index))
                ≡ false =
              ground arith in
            elim (Bool-cases (probe && ltb (p.match_index + 1) p.next_index)) [
              | inl probing ↦
                  let (n', done, same, sent) =
                    sending probe [] tt (omega (arith, within.next_le)) (omega arith)
                      (λ j e f. absurd (ground arith)) in
                  (n', rw (behind, sends, probing) done, same, inr sent)
              | inr full ↦
                  let entries =
                    take n.opts.max_append_entries (scan n.log (included p.next_index) unbounded) in
                  let (n', done, same, sent) =
                    sending probe entries run ends
                      (omega (
                        arith,
                        length-take n.opts.max_append_entries
                            (scan n.log (included p.next_index) unbounded),
                      ))
                      copies in
                  (n', rw (behind, sends, full) done, same, inr sent)
            ]
      ]

module _ (sm : StateMachine) where
  open sm use {Machine}

  passes :
      (n : RawNode Machine Leader) (peer : ℕ) (probe : Bool) (p : Progress)
      → n.log.last_index + 1 < u64_limit
      → progress_of peer n.role.progress ≡ some p
      → IsWithin n.log.last_index p
      → n.log.first_index ≤ p.next_index
      → maybe_send_append sm n peer probe ≡ send_entries n peer p probe
  unfolding maybe_send_append u64_add
  passes n peer probe p room known within lo =
      rw (maybe_send_append, known) (ground (arith, within.match_lt, within.next_le))

  -- On a well-formed log that leaves room in `u64`, for a peer whose progress is within the log
  -- and whose next entry has its base there, `maybe_send_append` returns, leaves the log alone,
  -- and does nothing or sends the peer one append: its base is the entry before the next index, or
  -- the start of the log, its entries are the log's from that index on, at most as many as an
  -- append may hold, and the next index moves behind them and stays within the log.
  pub maybe_send_append_lem :
      (n : RawNode Machine Leader) (peer : ℕ) (probe : Bool) (p : Progress)
      → IsWellFormed n.log
      → n.log.last_index + 1 < u64_limit
      → progress_of peer n.role.progress ≡ some p
      → IsWithin n.log.last_index p
      → (n.log.first_index ≡ 1) ⊎ (n.log.first_index < p.next_index)
      → (n' : RawNode Machine Leader) × (maybe_send_append sm n peer probe ≡ ok n')
        × (n'.log ≡ n.log)
        × ((n' ≡ n) ⊎ Sent n peer p n')
  maybe_send_append_lem n peer probe p w room known within there =
      let (n', done, same, sent) = send_entries_lem n peer p w room known within there probe in
      (
        n',
        passes n peer probe p room known within (ground (arith, within.match_lt, w.first_pos))
            ∙ done,
        same,
        sent,
      )

  -- A leader whose log was cut panics when it is to send a peer the entries right behind its
  -- snapshot: the entry before them is gone, and no snapshot is sent.
  pub append_behind_snapshot :
      (n : RawNode Machine Leader) (peer : ℕ) (probe : Bool) (p : Progress)
      → IsWellFormed n.log
      → n.log.last_index + 1 < u64_limit
      → progress_of peer n.role.progress ≡ some p
      → IsWithin n.log.last_index p
      → 1 < n.log.first_index
      → p.next_index ≡ n.log.first_index
      → p.next_index ≤ n.log.last_index
      → maybe_send_append sm n peer probe ≡ panic
  unfolding send_entries base_of position_of
  append_behind_snapshot n peer probe p w room known within cut at more =
      let missing : get n.log (p.next_index - 1) ≡ none =
        lookup_before_run n.log.first_index (p.next_index - 1) (rows n.log) w.run (omega arith) in
      passes n peer probe p room known within (omega arith)
      ∙ ground (arith, missing, within.match_lt)
