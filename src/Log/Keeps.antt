-- ===== src/Log/Keeps.antt =====
-- Each operation of the log but `splice` keeps the invariant.
use raft_rust.Base.{
  ℕ, ◌+◌, ◌≤◌, ◌<◌, ◌≡◌, refl, List, [], ◌∷◌, ◌++◌, Option, some, ok, arith, inl, inr, Option-cases,
  u64_add, length-append,
}
use raft_rust.Membership.{MembershipEntry}
use raft_rust.Log.Entry.{Entry, Bytes}
use raft_rust.Log.Table.{Row, write, flush, flush_if}
use raft_rust.Log.Ops.{Log, rows, get, reset_with_snapshot, set_term_vote, append_entry, commit}
use raft_rust.Log.Rows.{IsRun-append, IsRun-IsBelow, write-append_below}
use raft_rust.Log.Runs.{lookup-eq-some}
use raft_rust.Log.Invariant.{Climbs, final_term, IsWellFormed}
use mathlib.Core.List.{append-nil}

pub set_term_vote-IsWellFormed :
    (log : Log) (term : ℕ) (vote : Option ℕ) {log' : Log}
    → IsWellFormed log
    → set_term_vote log term vote ≡ ok log'
    → IsWellFormed log'
unfolding set_term_vote flush
set_term_vote-IsWellFormed log term vote w h = ground arith

pub reset_with_snapshot-IsWellFormed :
    (log : Log) (index term : ℕ) {log' : Log}
    → 0 < index
    → term ≤ log.term
    → reset_with_snapshot log index term ≡ ok log'
    → IsWellFormed log'
unfolding reset_with_snapshot flush_if u64_add
reset_with_snapshot-IsWellFormed log index term pos le h = ground arith

pub commit-IsWellFormed :
    (log : Log) (index : ℕ) {p : Log × ℕ}
    → IsWellFormed log
    → commit log index ≡ ok p
    → IsWellFormed (p.0)
unfolding commit
commit-IsWellFormed log index {p} w h = elim (Option-cases (get log index)) [
  | inl missing ↦ absurd (ground arith)
  | inr (e, found) ↦ ground (arith, lookup-eq-some log.first_index index (rows log) w.run found)
]

-- An entry for the index after the last goes behind the rows.
pub write-eq-append :
    (log : Log) (e : Entry)
    → IsWellFormed log
    → write (log.last_index + 1) e (rows log) ≡ rows log ++ (log.last_index + 1, e) ∷ []
unfolding write
write-eq-append log e w =
    let below = IsRun-IsBelow log.first_index (log.last_index + 1) (rows log) w.run (omega arith) in
    let p = write-append_below (log.last_index + 1) e (rows log) [] below in rw append-nil at p

Climbs-snoc :
    (t : ℕ) (l : List Row) (row : Row)
    → Climbs t l
    → final_term t l ≤ row.1.term
    → 0 < row.1.term
    → Climbs t (l ++ row ∷ []) × (final_term t (l ++ row ∷ []) ≡ row.1.term)
Climbs-snoc t [] row c le pos = ((le, pos, tt), refl)
Climbs-snoc t (r ∷ l) row c le pos =
    let (c', e) = Climbs-snoc r.1.term l row c.2 le pos in ((c.0, c.1, c'), e)

pub append_entry-IsWellFormed :
    (log : Log) (command : Option Bytes) (membership : Option MembershipEntry) {p : Log × ℕ}
    → IsWellFormed log
    → append_entry log command membership ≡ ok p
    → IsWellFormed (p.0)
unfolding append_entry u64_add flush_if
append_entry-IsWellFormed log command membership {p} w h =
    let e : Entry = record {
      index = log.last_index + 1;
      term = log.term;
      command = command;
      membership = membership;
    } in
    let last_row : Row = (log.last_index + 1, e) in
    ground (
      arith,
      write-eq-append log e w,
      IsRun-append log.first_index (rows log) (last_row ∷ []) w.run,
      Climbs-snoc log.snapshot_term (rows log) last_row w.climbs,
      length-append (rows log) (last_row ∷ []),
    )

-- An entry of the log that is not committed yet can be.
pub commit-eq-ok :
    (log : Log) (index : ℕ) (e : Entry)
    → IsWellFormed log
    → get log index ≡ some e
    → log.commit_index < index
    → (log' : Log) × (commit log index ≡ ok (log', index)) × (log'.commit_index ≡ index)
unfolding commit
commit-eq-ok log index e w found ahead =
    let at = lookup-eq-some log.first_index index (rows log) w.run found in
    let table = record (log.engine.table) { commit_index = some (index, e.term) } in
    (
      record log {
        engine = record (log.engine) { table = table };
        commit_index = index;
        commit_term = e.term;
      },
      ground (arith, at),
      refl,
    )
