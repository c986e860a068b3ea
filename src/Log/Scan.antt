-- ===== src/Log/Scan.antt =====
-- What a scan of a well-formed log yields: `Log::scan` and `Log::scan_apply` in raft/log.rs
-- under src/.
use raft_rust.Base.{
  ℕ, suc, ◌+◌, ◌-◌, ◌≤◌, ◌≡◌, ap, arith, take, drop, take-append-drop, sym, length-take, ◌∙◌, ◌++◌,
  subst,
}
use raft_rust.Log.Table.{range, values}
use raft_rust.Log.Ops.{Log, rows, scan, included}
use raft_rust.Log.Rows.{IsRun, IsBelow, IsRun-drop, IsRun-take, IsRun-IsBelow, range-append_below}
use raft_rust.Log.Runs.{range_run}
use raft_rust.Log.Invariant.{IsWellFormed}

module _ (log : Log) (w : IsWellFormed log) (a b : ℕ) (some_range : a ≤ b) where
  scan-range : scan log (included a) (included b) ≡ values (range a b (rows log))
  unfolding scan
  scan-range = ground arith

  -- From an index that is not behind the start, a scan yields the first entries.
  pub scan_front :
      a ≤ log.first_index
      → scan log (included a) (included b) ≡ values (take (suc b - log.first_index) (rows log))
  scan_front le = scan-range ∙ ap values (range_run a b log.first_index (rows log) w.run le)

  -- The rows before index `a` lie below it, and those from there on begin with it.
  pub rows_split :
      log.first_index ≤ a
      → a ≤ log.last_index + 1
      → IsBelow a (take (a - log.first_index) (rows log))
        × IsRun a (drop (a - log.first_index) (rows log))
  rows_split lo hi =
      let k = a - log.first_index in
      let front = IsRun-take k log.first_index (rows log) w.run in
      let at : log.first_index + k ≡ a = omega arith in
      (
        IsRun-IsBelow log.first_index a (take k (rows log)) front
            (omega (arith, length-take k (rows log))),
        subst (λ i. IsRun i (drop k (rows log))) at (IsRun-drop k log.first_index (rows log) w.run),
      )

  -- From an index within the log, a scan yields the entries from there on.
  pub scan_within :
      log.first_index ≤ a
      → a ≤ log.last_index + 1
      → scan log (included a) (included b)
        ≡ values (take (suc b - a) (drop (a - log.first_index) (rows log)))
  scan_within lo hi =
      let k = a - log.first_index in
      let (below, run) = rows_split lo hi in
      let split : range a b (rows log) ≡ range a b (take k (rows log) ++ drop k (rows log)) =
        ap (range a b) (sym (take-append-drop k (rows log))) in
      scan-range
      ∙ ap values (
          split
          ∙ range-append_below a b (take k (rows log)) (drop k (rows log)) below
          ∙ range_run a b a (drop k (rows log)) run (omega arith))
