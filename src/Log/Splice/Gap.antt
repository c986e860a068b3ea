-- ===== src/Log/Splice/Gap.antt =====
-- `splice` on a log that was cut: `Log::splice` in raft/log.rs under src/.
use raft_rust.Base.{◌-◌, ◌<◌, ◌≡◌, true, List, ◌∷◌, none, panic, arith}
use raft_rust.Log.Entry.{Entry}
use raft_rust.Log.Ops.{Log, get, rows, has}
use raft_rust.Log.Splice.{splice, check_base}
use raft_rust.Log.Runs.{lookup_before_run}
use raft_rust.Log.Invariant.{IsWellFormed}

-- On a well-formed log whose front was cut off, entries that start right behind the snapshot never
-- get in: `splice` panics, although `has` knows the position of the snapshot's last entry.
pub splice_behind_snapshot :
    (log : Log) (first : Entry) (rest : List Entry)
    → IsWellFormed log
    → 1 < log.first_index
    → first.index ≡ log.first_index
    → (splice log (first ∷ rest) ≡ panic) × (has log (first.index - 1) log.snapshot_term ≡ true)
unfolding splice check_base has
splice_behind_snapshot log first rest w cut at =
    let missing : get log (first.index - 1) ≡ none =
      lookup_before_run log.first_index (first.index - 1) (rows log) w.run (omega arith) in
    (ground arith, ground arith)
