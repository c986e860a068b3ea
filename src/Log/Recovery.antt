-- ===== src/Log/Recovery.antt =====
-- A restart: `Log::new` in raft/log.rs under src/ on what the operations have stored.
use raft_rust.Base.{
  ℕ, suc, ◌+◌, ◌-◌, ◌≡◌, refl, ap, subst, ◌∙◌, List, [], ◌∷◌, length, Option, none, some, ok, arith,
  true, last?, head?, Option-cases, inl, inr, u64_add,
}
use raft_rust.Membership.{MembershipEntry}
use raft_rust.Log.Entry.{Entry, Bytes}
use raft_rust.Log.Table.{Row, flush, flush_if}
use raft_rust.Log.Ops.{
  Log, rows, get, new, unwrap_or, raise_to, set_term_vote, append_entry, commit, compact_to,
  reset_with_snapshot,
}
use raft_rust.Log.Rows.{IsRun}
use raft_rust.Log.Runs.{lookup-eq-some}
use raft_rust.Log.Invariant.{final_term, IsWellFormed}
use raft_rust.Log.Splice.{splice, last_of, write_remaining}
use raft_rust.Log.Splice.Shape.{splice-Passed}

-- The stored metadata tells the term, the vote, the base of the snapshot and, unless the snapshot
-- is ahead of it, the commit index.
pub record IsStored (log : Log) : Type 0 where
  pub term_vote : unwrap_or (0, none) log.engine.table.term_vote ≡ (log.term, log.vote)
  pub base :
      unwrap_or (0, 0) log.engine.table.snapshot_meta ≡ (log.first_index - 1, log.snapshot_term)
  pub commit_mark :
      raise_to
        (log.first_index - 1, log.snapshot_term)
        (unwrap_or (0, 0) log.engine.table.commit_index)
      ≡ (log.commit_index, log.commit_term)

-- The last row of a run.
last_of_run :
    (i t : ℕ) (row : Row) (l : List Row)
    → IsRun i (row ∷ l)
    → (r : Row) × (last? (row ∷ l) ≡ some r)
      × (r.1.index + 1 ≡ i + suc (length l))
      × (r.1.term ≡ final_term t (row ∷ l))
last_of_run i t row [] h = (row, refl, omega (arith, h.1), refl)
last_of_run i t row (row' ∷ l) h =
    let (r, found, at, term) = last_of_run (suc i) row.1.term row' l h.2 in
    (r, found, omega arith, term)

new_at :
    (log : Log) (l : List Row)
    → IsWellFormed log
    → IsStored log
    → rows log ≡ l
    → new log.engine ≡ ok (record log { fsync = true })
unfolding new u64_add
new_at log [] w s e = ground (
  arith,
  w.last ∙ ap (final_term log.snapshot_term) e,
  ap (last? {A = Row}) e,
  ap (head? {A = Row}) e,
  w.ends ∙ ap (λ (l : List Row). log.first_index + length l) e,
)
new_at log (row ∷ l) w s e =
    let run : IsRun log.first_index (row ∷ l) = subst (IsRun log.first_index) e w.run in
    let (r, found, at, term) = last_of_run log.first_index log.snapshot_term row l run in
    ground (
      arith,
      w.last ∙ ap (final_term log.snapshot_term) e,
      ap (last? {A = Row}) e ∙ found,
      ap (head? {A = Row}) e,
      run.1,
      at,
      term,
      w.ends ∙ ap (λ (l : List Row). log.first_index + length l) e,
    )

-- A restart on what is stored gives back the log as it was, with `fsync` on.
pub new-engine :
    (log : Log)
    → IsWellFormed log
    → IsStored log
    → new log.engine ≡ ok (record log { fsync = true })
new-engine log w s = new_at log (rows log) w s refl

pub set_term_vote-IsStored :
    (log : Log) (term : ℕ) (vote : Option ℕ) {log' : Log}
    → IsStored log
    → set_term_vote log term vote ≡ ok log'
    → IsStored log'
unfolding set_term_vote flush
set_term_vote-IsStored log term vote s h = ground arith

pub append_entry-IsStored :
    (log : Log) (command : Option Bytes) (membership : Option MembershipEntry) {p : Log × ℕ}
    → IsStored log
    → append_entry log command membership ≡ ok p
    → IsStored (p.0)
unfolding append_entry flush_if u64_add
append_entry-IsStored log command membership s h = ground arith

pub commit-IsStored :
    (log : Log) (index : ℕ) {p : Log × ℕ}
    → IsWellFormed log
    → IsStored log
    → commit log index ≡ ok p
    → IsStored (p.0)
unfolding commit raise_to
commit-IsStored log index {p} w s h = elim (Option-cases (get log index)) [
  | inl missing ↦ absurd (ground arith)
  | inr (e, found) ↦ ground (arith, lookup-eq-some log.first_index index (rows log) w.run found)
]

pub compact_to-IsStored :
    (log : Log) (index : ℕ) (e : Entry) {log' : Log}
    → IsWellFormed log
    → IsStored log
    → get log index ≡ some e
    → compact_to log index e.term ≡ ok log'
    → IsStored log'
unfolding compact_to flush_if u64_add raise_to
compact_to-IsStored log index e w s found h =
    ground (arith, lookup-eq-some log.first_index index (rows log) w.run found)

pub reset_with_snapshot-IsStored :
    (log : Log) (index term : ℕ) {log' : Log}
    → IsStored log
    → reset_with_snapshot log index term ≡ ok log'
    → IsStored log'
unfolding reset_with_snapshot flush_if u64_add raise_to
reset_with_snapshot-IsStored log index term s h = ground arith

write_remaining-IsStored :
    (log : Log) (last : Entry) (remaining : List Entry) {p : Log × ℕ}
    → IsStored log
    → write_remaining log last remaining ≡ ok p
    → IsStored (p.0)
unfolding write_remaining flush_if u64_add
write_remaining-IsStored log last [] s h = ground arith
write_remaining-IsStored log last (r ∷ rs) s h = ground arith

pub splice-IsStored :
    (log : Log) (first : Entry) (rest : List Entry) {p : Log × ℕ}
    → IsStored log
    → splice log (first ∷ rest) ≡ ok p
    → IsStored (p.0)
splice-IsStored log first rest s h =
    let passed = splice-Passed log first rest h in
    write_remaining-IsStored log (last_of first rest) passed.remaining s passed.written
