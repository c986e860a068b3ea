-- ===== src/Log/Restart.antt =====
-- What a log that flushes is after a restart and after a crash: `Log::new` of raft/log.rs under src/.
use raft_rust.Base.{
  ℕ, ◌+◌, ◌-◌, ◌≤◌, ◌≡◌, refl, sym, ap, ◌∙◌, subst, true, false, List, length, none, ok, arith,
}
use raft_rust.Log.Table.{Row, lose}
use raft_rust.Log.Ops.{Log, rows, new, raise_to, unwrap_or}
use raft_rust.Log.Invariant.{IsWellFormed, Climbs, final_term}
use raft_rust.Log.Rows.{IsRun}
use raft_rust.Log.Recovery.{IsStored, new-engine}
use raft_rust.Log.Reach.{IsSound, restarted, fresh, fresh-IsSound}
use raft_rust.Log.Crash.{
  Reopens, kept, lost, Life, begins, operates, reopens, switches, Life-IsKept, fresh-IsDurable,
}
use raft_rust.Log.Synced.{commit_on_disk, IsSynced, Step-IsSynced}

-- The log as a crash leaves it.
abbrev set_back : Log → Log
set_back log = record log {
  engine = lose log.engine;
  commit_index = (commit_on_disk log).0;
  commit_term = (commit_on_disk log).1;
  fsync = true;
}

raise_to-le : (first term : ℕ) (p : ℕ × ℕ) → first ≤ (raise_to (first - 1, term) p).0 + 1
unfolding raise_to
raise_to-le first term p = ground arith

set_back-IsWellFormed : (log : Log) → IsWellFormed log → IsSynced log → IsWellFormed (set_back log)
unfolding lose
set_back-IsWellFormed log w y = record {
  first_pos = w.first_pos;
  first_fits = w.first_fits;
  last_fits = w.last_fits;
  run = subst (IsRun log.first_index) (sym y.entries) w.run;
  ends = w.ends ∙ ap (λ (l : List Row). log.first_index + length l) (sym y.entries);
  climbs = subst (Climbs log.snapshot_term) (sym y.entries) w.climbs;
  last = w.last ∙ ap (final_term log.snapshot_term) (sym y.entries);
  current = w.current;
  cut =
      raise_to-le log.first_index log.snapshot_term
        (unwrap_or (0, 0) log.engine.durable.commit_index);
  committed = omega (arith, y.behind, w.committed);
  uncut = w.uncut;
}

set_back-IsStored : (log : Log) → IsStored log → IsSynced log → IsStored (set_back log)
unfolding lose
set_back-IsStored log t y = record {
  term_vote = ap (unwrap_or (0, none)) y.term_vote ∙ t.term_vote;
  base = ap (unwrap_or (0, 0)) y.base ∙ t.base;
  commit_mark = refl;
}

-- A crash sets the commit index back at most, and nothing else.
crash_lem : (log : Log) → IsSound log → IsSynced log → new (lose log.engine) ≡ ok (set_back log)
crash_lem log s y =
    new-engine (set_back log) (set_back-IsWellFormed log s.formed y)
      (set_back-IsStored log s.stored y)

set_back-IsSynced : (log : Log) → IsSynced log → IsSynced (set_back log)
unfolding lose
set_back-IsSynced log y = record {
  on = refl;
  entries = refl;
  term_vote = refl;
  base = refl;
  behind = omega arith;
}

pub Reopens-IsSynced :
    {log log' : Log} → IsSound log → IsSynced log → Reopens log log' → IsSynced log'
Reopens-IsSynced s y (kept h) = Step-IsSynced s y (restarted h)
Reopens-IsSynced {log} {log'} s y (lost h) =
    let both : ok (set_back log) ≡ ok log' = sym (crash_lem log s y) ∙ h in
    let is : set_back log ≡ log' = ground arith in subst IsSynced is (set_back-IsSynced log y)

pub Life-IsSynced : {log : Log} → Life false fresh log → IsSynced log
unfolding raise_to
Life-IsSynced begins = record {
  on = refl;
  entries = refl;
  term_vote = refl;
  base = refl;
  behind = omega arith;
}
Life-IsSynced (operates l step) =
    Step-IsSynced (Life-IsKept fresh-IsSound fresh-IsDurable l).sound (Life-IsSynced l) step
Life-IsSynced (reopens l again) =
    Reopens-IsSynced (Life-IsKept fresh-IsSound fresh-IsDurable l).sound (Life-IsSynced l) again
Life-IsSynced (switches fsync may l) = absurd (ground arith)

-- The log `d` has all of `log` but for the commit index, which may be an earlier one.
pub record IsSetBack (log d : Log) : Type 0 where
  pub entries : rows d ≡ rows log
  pub term : d.term ≡ log.term
  pub vote : d.vote ≡ log.vote
  pub first_index : d.first_index ≡ log.first_index
  pub snapshot_term : d.snapshot_term ≡ log.snapshot_term
  pub last_index : d.last_index ≡ log.last_index
  pub last_term : d.last_term ≡ log.last_term
  pub commit_index : d.commit_index ≤ log.commit_index

-- What a restart of the process and a crash of the machine make of a log.
abbrev pub Recovers : Log → Type 0
Recovers log =
    IsWellFormed log
    × (new log.engine ≡ ok (record log { fsync = true }))
    × ((d : Log) × (new (lose log.engine) ≡ ok d) × IsWellFormed d × IsSetBack log d)

pub sound-Recovers : (log : Log) → IsSound log → IsSynced log → Recovers log
unfolding lose
sound-Recovers log s y = (
  s.formed,
  new-engine log s.formed s.stored,
  (
    set_back log,
    crash_lem log s y,
    set_back-IsWellFormed log s.formed y,
    record {
      entries = y.entries;
      term = refl;
      vote = refl;
      first_index = refl;
      snapshot_term = refl;
      last_index = refl;
      last_term = refl;
      commit_index = y.behind;
    },
  ),
)

-- Whatever operations, restarts and crashes a log has gone through from an empty engine, where
-- `enable_fsync` is not called: it is well formed; a start on all that was written gives it back unchanged
-- but for `fsync`, which is on; and a start on what was flushed gives a well-formed log with the same
-- entries, term, vote, start and end, and the same commit index or an earlier one.
pub restart_after_any_steps : (log : Log) → Life false fresh log → Recovers log
restart_after_any_steps log l =
    sound-Recovers log (Life-IsKept fresh-IsSound fresh-IsDurable l).sound (Life-IsSynced l)
