-- ===== src/Log/Compact.antt =====
-- Cutting off the front of the log after a snapshot: `Log::compact_to` in raft/log.rs under src/.
use raft_rust.Base.{
  ℕ, zero, suc, ◌+◌, ◌-◌, ◌≤◌, ◌<◌, ◌≡◌, refl, List, [], ◌∷◌, none, some, ok, arith, drop, true,
  inl, inr, Bool-cases, ◌==◌, u64_add, length-drop,
}
use raft_rust.Log.Entry.{Entry}
use raft_rust.Log.Table.{Row, lookup, flush_if}
use raft_rust.Log.Ops.{Log, rows, get, has, compact_to}
use raft_rust.Log.Rows.{IsRun, IsRun-drop}
use raft_rust.Log.Runs.{delete_range_run, lookup-eq-some, lookup_before_run}
use raft_rust.Log.Invariant.{Climbs, final_term, IsWellFormed}

-- Cutting behind the row with index `j` leaves rows that climb from its term.
Climbs-drop :
    (t i j : ℕ) (l : List Row) (e : Entry)
    → IsRun i l
    → Climbs t l
    → lookup j l ≡ some e
    → Climbs e.term (drop (suc j - i) l) × (final_term e.term (drop (suc j - i) l) ≡ final_term t l)
unfolding lookup
Climbs-drop t i j [] e r c found = absurd (ground arith)
Climbs-drop t i j ((k, x) ∷ l) e r c found = elim (Bool-cases (j == k)) [
  | inl here ↦
      let n : suc j - i ≡ 1 = ground arith in
      let same : e ≡ x = ground arith in rw (n, same) (c.2, refl)
  | inr other ↦
      let later : lookup j l ≡ some e = ground arith in
      let ahead = lookup-eq-some (suc i) j l r.2 later in
      let n : suc j - i ≡ suc (suc j - suc i) = omega arith in
      rw n (Climbs-drop x.term (suc i) j l e r.2 c.2 later)
]

-- Cutting changes no lookup behind the cut.
pub lookup-drop :
    (n i j : ℕ) (l : List Row) → IsRun i l → i + n ≤ j → lookup j (drop n l) ≡ lookup j l
unfolding lookup
lookup-drop zero i j l r le = refl
lookup-drop (suc n) i j [] r le = refl
lookup-drop (suc n) i j ((k, x) ∷ l) r le = ground (arith, lookup-drop n (suc i) j l r.2)

module _ (log : Log) (index : ℕ) (e : Entry) {log' : Log} (w : IsWellFormed log)
    (found : get log index ≡ some e) (done : compact_to log index e.term ≡ ok log') where
  compact_shape :
      (rows log' ≡ drop (suc index - log.first_index) (rows log))
      × (log'.first_index ≡ index + 1)
      × (log'.snapshot_term ≡ e.term)
      × (log'.last_index ≡ log.last_index)
      × (log'.commit_index ≡ log.commit_index)
  unfolding compact_to flush_if u64_add
  compact_shape =
      let n = suc index - log.first_index in
      ground (
        arith,
        lookup-eq-some log.first_index index (rows log) w.run found,
        delete_range_run n log.first_index (rows log) w.run,
      )

  -- Compaction through an entry of the log, with that entry's term, keeps the invariant.
  pub compact_to-IsWellFormed : IsWellFormed log'
  unfolding compact_to flush_if u64_add
  compact_to-IsWellFormed =
      let n = suc index - log.first_index in
      let at = lookup-eq-some log.first_index index (rows log) w.run found in
      ground (
        arith,
        at,
        delete_range_run n log.first_index (rows log) w.run,
        IsRun-drop n log.first_index (rows log) w.run,
        length-drop n (rows log),
        Climbs-drop log.snapshot_term log.first_index index (rows log) e w.run w.climbs found,
      )

  -- When a compaction of a well-formed log through an entry that it has, with that entry's term,
  -- returns, it loses nothing behind the base: later entries and the indices of the end and of the
  -- commit stay, nothing is left up to the base, and the base itself is still known with its term.
  pub compact_to_lem :
      (log'.first_index ≡ index + 1)
      × (log'.last_index ≡ log.last_index)
      × (log'.commit_index ≡ log.commit_index)
      × ((j : ℕ) → index < j → get log' j ≡ get log j)
      × ((j : ℕ) → j ≤ index → get log' j ≡ none)
      × (has log' index e.term ≡ true)
  compact_to_lem =
      let (cut, first, base, last, committed) = compact_shape in
      let at = lookup-eq-some log.first_index index (rows log) w.run found in
      let n = suc index - log.first_index in
      let run = IsRun-drop n log.first_index (rows log) w.run in
      (
        first,
        last,
        committed,
        λ j lt. rw cut (lookup-drop n log.first_index j (rows log) w.run (omega arith)),
        λ j le.
            rw cut
              (lookup_before_run (log.first_index + n) j (drop n (rows log)) run (omega arith)),
        unfold has in ground arith,
      )
