-- ===== src/Log/Invariant.antt =====
-- The invariant of the log that the comment on `Log` in raft/log.rs under src/ lists.
use raft_rust.Base.{ℕ, ◌+◌, ◌≤◌, ◌<◌, ◌≡◌, List, [], ◌∷◌, length, u64_limit}
use raft_rust.Log.Table.{Row}
use raft_rust.Log.Ops.{Log, rows}
use raft_rust.Log.Rows.{IsRun}

-- The terms of the rows are positive and do not fall, starting from term `t`.
abbrev pub Climbs : ℕ → List Row → Type 0
Climbs t [] = Unit
Climbs t (row ∷ l) = (t ≤ row.1.term) × (0 < row.1.term) × Climbs row.1.term l

-- The term of the last row, or `t` if there is none.
abbrev pub final_term : ℕ → List Row → ℕ
final_term t [] = t
final_term t (row ∷ l) = final_term row.1.term l

-- The entries have the indices from `first_index` to `last_index` without a gap; their terms are
-- positive, never fall and do not pass the current term; what was cut off is committed, and what
-- is committed is there.
pub record IsWellFormed (log : Log) : Type 0 where
  pub first_pos : 0 < log.first_index
  pub first_fits : log.first_index < u64_limit
  pub last_fits : log.last_index < u64_limit
  pub run : IsRun log.first_index (rows log)
  pub ends : log.last_index + 1 ≡ log.first_index + length (rows log)
  pub climbs : Climbs log.snapshot_term (rows log)
  pub last : log.last_term ≡ final_term log.snapshot_term (rows log)
  pub current : log.last_term ≤ log.term
  pub cut : log.first_index ≤ log.commit_index + 1
  pub committed : log.commit_index ≤ log.last_index
  pub uncut : log.first_index ≡ 1 → log.snapshot_term ≡ 0
