-- ===== src/Tests/Logs.antt =====
-- The theorems on the log, at logs of a few entries.
use raft_rust.Base.{
  ℕ, ◌+◌, ◌≤◌, ◌<◌, ◌≡◌, refl, some, none, true, [], ◌∷◌, panic, ◌-◌, arith, false,
}
use raft_rust.Log.Ops.{get, has}
use raft_rust.Log.Splice.{splice}
use raft_rust.Log.Splice.Laws.{get-splice_committed, get-splice_new}
use raft_rust.Log.Splice.Gap.{splice_behind_snapshot}
use raft_rust.Log.Compact.{compact_to_lem}
use raft_rust.Log.Reach.{fresh, fresh-IsSound, Reach-IsSound}
use raft_rust.Log.Crash.{
  Life, begins, reopens, switches, lost, Reach-Life, Life-IsKept, IsKept, fresh-IsDurable,
}
use raft_rust.Log.Restart.{restart_after_any_steps, Recovers}
use raft_rust.Tests.Data.{
  one_back, two_back, one_back-new, two_back-new, entry, one_committed, in_term_two, one_compacted,
  spliced_log, in_term_two-Reach, one_committed-get, one_compacted-compact_to, in_term_two-commit,
  one_compacted-start, spliced_log-splice, in_term_two-IsSound, one_compacted-IsSound,
  one_committed-Reach,
}

restart_after_any_steps_example : Recovers one_back
restart_after_any_steps_example =
    restart_after_any_steps one_back
      (reopens (Reach-Life begins one_committed-Reach) (lost one_back-new))

two_lived : Life true fresh in_term_two
two_lived = Reach-Life begins in_term_two-Reach

Life-IsKept_example : IsKept fresh two_back
Life-IsKept_example =
    Life-IsKept fresh-IsSound fresh-IsDurable
      (reopens (switches false refl two_lived) (lost two_back-new))

get-splice_committed_example : get spliced_log.0 1 ≡ get in_term_two 1
get-splice_committed_example =
    get-splice_committed in_term_two (entry 2 2) (entry 3 2 ∷ []) in_term_two-IsSound.formed
      spliced_log-splice 1 (omega (arith, in_term_two-commit))

get-splice_new_example : get spliced_log.0 (2 + 1) ≡ some (entry 3 2)
get-splice_new_example =
    get-splice_new in_term_two (entry 2 2) (entry 3 2 ∷ []) in_term_two-IsSound.formed
      spliced_log-splice 1 (entry 3 2) refl

splice_behind_snapshot_example :
    (splice one_compacted (entry 2 2 ∷ []) ≡ panic)
    × (has one_compacted (2 - 1) one_compacted.snapshot_term ≡ true)
splice_behind_snapshot_example =
    splice_behind_snapshot one_compacted (entry 2 2) [] one_compacted-IsSound.formed
      (omega (arith, one_compacted-start)) (omega (arith, one_compacted-start))

compact_to_lem_example :
    (one_compacted.first_index ≡ 1 + 1)
    × (one_compacted.last_index ≡ one_committed.last_index)
    × (one_compacted.commit_index ≡ one_committed.commit_index)
    × ((j : ℕ) → 1 < j → get one_compacted j ≡ get one_committed j)
    × ((j : ℕ) → j ≤ 1 → get one_compacted j ≡ none)
    × (has one_compacted 1 1 ≡ true)
compact_to_lem_example =
    compact_to_lem one_committed 1 (entry 1 1)
      (Reach-IsSound fresh-IsSound one_committed-Reach).formed one_committed-get
      one_compacted-compact_to
