-- ===== src/Log/Synced.antt =====
-- What a log that flushes has left after a restart and after a crash: `Log` of raft/log.rs under src/,
-- where `enable_fsync` was not called.
use raft_rust.Base.{
  ℕ, ◌+◌, ◌-◌, ◌≤◌, ◌≡◌, refl, sym, ap, ◌∙◌, subst, inl, inr, ◌⊎◌, true, Option, List, [], ◌∷◌, ok,
  arith, Option-cases, Bool-cases, u64_add, ltb, leb, ◌==◌, ◌&&◌,
}
use raft_rust.Log.Entry.{Entry}
use raft_rust.Log.Table.{Table, flush, flush_if}
use raft_rust.Log.Ops.{
  Log, same_vote, rows, get, raise_to, unwrap_or, set_term_vote, append_entry, commit, compact_to,
  reset_with_snapshot, set_snapshot_data,
}
use raft_rust.Log.Splice.{splice, write_remaining, last_of}
use raft_rust.Log.Splice.Shape.{splice-Passed}
use raft_rust.Log.Runs.{lookup-eq-some}
use raft_rust.Log.Recovery.{new-engine}
use raft_rust.Log.Reach.{
  Step, voted, appended, spliced, committed, compacted, installed, restarted, stored, IsSound,
  Step-IsSound, Reach, here, next, Reach-IsSound,
}

-- The commit index that the disk holds for certain, as a start raises it.
abbrev pub commit_on_disk : Log → ℕ × ℕ
commit_on_disk log =
    raise_to (log.first_index - 1, log.snapshot_term)
      (unwrap_or (0, 0) log.engine.durable.commit_index)

-- `fsync` is on, and all but the commit index and the snapshot's data is on disk.
pub record IsSynced (log : Log) : Type 0 where
  pub on : log.fsync ≡ true
  pub entries : log.engine.durable.entries ≡ log.engine.table.entries
  pub term_vote : log.engine.durable.term_vote ≡ log.engine.table.term_vote
  pub base : log.engine.durable.snapshot_meta ≡ log.engine.table.snapshot_meta
  pub behind : (commit_on_disk log).0 ≤ log.commit_index

-- Nothing but the commit index, or the snapshot's data, is written.
record OnlyCommits (log log' : Log) : Type 0 where
  disk : log'.engine.durable ≡ log.engine.durable
  entries : log'.engine.table.entries ≡ log.engine.table.entries
  term_vote : log'.engine.table.term_vote ≡ log.engine.table.term_vote
  base : log'.engine.table.snapshot_meta ≡ log.engine.table.snapshot_meta
  first_index : log'.first_index ≡ log.first_index
  snapshot_term : log'.snapshot_term ≡ log.snapshot_term
  climbs : log.commit_index ≤ log'.commit_index

OnlyCommits-refl : (log : Log) → OnlyCommits log log
OnlyCommits-refl log = record {
  disk = refl;
  entries = refl;
  term_vote = refl;
  base = refl;
  first_index = refl;
  snapshot_term = refl;
  climbs = omega arith;
}

-- What a step does to the disk while `fsync` is on.
Syncs : Log → Log → Type 0
Syncs log log' =
    (log'.fsync ≡ true) × ((log'.engine.durable ≡ log'.engine.table) ⊎ OnlyCommits log log')

splice-Syncs :
    (log : Log) (entries : List Entry) {p : Log × ℕ}
    → log.fsync ≡ true
    → splice log entries ≡ ok p
    → Syncs log p.0
unfolding Syncs
splice-Syncs log [] {p} on h =
    let e : log ≡ p.0 = unfold splice in ground arith in
    subst (Syncs log) e (on, inr (OnlyCommits-refl log))
splice-Syncs log (first ∷ rest) {p} on h =
    let passed = splice-Passed log first rest h in go passed.remaining passed.written
  where
    go :
        (remaining : List Entry)
        → write_remaining log (last_of first rest) remaining ≡ ok p
        → Syncs log p.0
    go [] w =
        let e : log ≡ p.0 = unfold write_remaining in ground arith in
        subst (Syncs log) e (on, inr (OnlyCommits-refl log))
    go (r ∷ rs) w =
        unfold write_remaining flush_if flush u64_add in (ground arith, inl (ground arith))

commit-climbs :
    (log : Log) (index : ℕ) {p : Log × ℕ}
    → IsSound log
    → commit log index ≡ ok p
    → log.commit_index ≤ p.0.commit_index
unfolding commit
commit-climbs log index s h = elim (Option-cases (get log index)) [
  | inl missing ↦ absurd (ground arith)
  | inr (e, found) ↦
      ground (arith, lookup-eq-some log.first_index index (rows log) s.formed.run found)
]

set_term_vote-Syncs :
    (log : Log) (term : ℕ) (vote : Option ℕ) {log' : Log}
    → log.fsync ≡ true
    → set_term_vote log term vote ≡ ok log'
    → Syncs log log'
unfolding Syncs set_term_vote flush
set_term_vote-Syncs log term vote {log'} on h =
    elim (Bool-cases (term == log.term && same_vote vote log.vote)) [
      | inl same ↦
          let e : log ≡ log' = ground arith in subst (Syncs log) e (on, inr (OnlyCommits-refl log))
      | inr changed ↦ (ground arith, inl (ground arith))
    ]

compact_to-Syncs :
    (log : Log) (index term : ℕ) {log' : Log}
    → log.fsync ≡ true
    → compact_to log index term ≡ ok log'
    → Syncs log log'
unfolding Syncs compact_to flush flush_if u64_add
compact_to-Syncs log index term {log'} on h =
    elim (Bool-cases (leb (index + 1) log.first_index && ltb 0 index)) [
      | inl same ↦
          let e : log ≡ log' = ground arith in subst (Syncs log) e (on, inr (OnlyCommits-refl log))
      | inr changed ↦ (ground arith, inl (ground arith))
    ]

Step-Syncs : {log log' : Log} → IsSound log → log.fsync ≡ true → Step log log' → Syncs log log'
unfolding Syncs flush flush_if
Step-Syncs {log} {log'} s on (voted term vote h) = set_term_vote-Syncs log term vote on h
Step-Syncs {log} {log'} s on (appended command membership n h) =
    unfold append_entry u64_add in (ground arith, inl (ground arith))
Step-Syncs s on (spliced entries n h) = splice-Syncs _ entries on h
Step-Syncs {log} {log'} s on (committed index n h) =
    unfold commit in
    (
      ground arith,
      inr (record {
        disk = ground arith;
        entries = ground arith;
        term_vote = ground arith;
        base = ground arith;
        first_index = ground arith;
        snapshot_term = ground arith;
        climbs = commit-climbs log index s h;
      }),
    )
Step-Syncs {log} {log'} s on (compacted index e found h) = compact_to-Syncs log index e.term on h
Step-Syncs {log} {log'} s on (installed index term pos le h) =
    unfold reset_with_snapshot u64_add in (ground arith, inl (ground arith))
Step-Syncs {log} {log'} s on (restarted h) =
    let e : record log { fsync = true } ≡ log' = ground (arith, new-engine log s.formed s.stored) in
    let same : OnlyCommits log (record log { fsync = true }) = record {
      disk = refl;
      entries = refl;
      term_vote = refl;
      base = refl;
      first_index = refl;
      snapshot_term = refl;
      climbs = omega arith;
    } in
    subst (Syncs log) e (refl, inr same)
Step-Syncs {log} {log'} s on (stored bytes e) =
    let same : OnlyCommits log (set_snapshot_data log bytes) = record {
      disk = refl;
      entries = refl;
      term_vote = refl;
      base = refl;
      first_index = refl;
      snapshot_term = refl;
      climbs = omega arith;
    } in
    subst (Syncs log) (sym e) (on, inr same)

flushed-IsSynced :
    (log : Log)
    → IsSound log
    → log.fsync ≡ true
    → log.engine.durable ≡ log.engine.table
    → IsSynced log
flushed-IsSynced log s on all =
    let mark = ap (λ (c : ℕ × ℕ). c.0) s.stored.commit_mark in
    let same : (commit_on_disk log).0 ≡ log.commit_index =
      ap
        (λ (t : Table).
          (raise_to (log.first_index - 1, log.snapshot_term) (unwrap_or (0, 0) t.commit_index)).0)
        all
      ∙ mark in
    record {
      on = on;
      entries = ap (λ (t : Table). t.entries) all;
      term_vote = ap (λ (t : Table). t.term_vote) all;
      base = ap (λ (t : Table). t.snapshot_meta) all;
      behind = omega (arith, same);
    }

pub Step-IsSynced : {log log' : Log} → IsSound log → IsSynced log → Step log log' → IsSynced log'
unfolding Syncs
Step-IsSynced {log} {log'} s y step =
    let (on, either) = Step-Syncs s y.on step in
    elim either [
      | inl all ↦ flushed-IsSynced log' (Step-IsSound s step) on all
      | inr only ↦
          let same : commit_on_disk log' ≡ commit_on_disk log =
            ap
              (λ (t : Table).
                raise_to (log'.first_index - 1, log'.snapshot_term)
                  (unwrap_or (0, 0) t.commit_index))
              only.disk
            ∙ ap
                (λ i.
                  raise_to (i - 1, log'.snapshot_term)
                    (unwrap_or (0, 0) log.engine.durable.commit_index))
                only.first_index
            ∙ ap
                (λ t.
                  raise_to (log.first_index - 1, t)
                    (unwrap_or (0, 0) log.engine.durable.commit_index))
                only.snapshot_term in
          let le = ap (λ (c : ℕ × ℕ). c.0) same in
          record {
            on = on;
            entries = ap (λ (t : Table). t.entries) only.disk ∙ y.entries ∙ sym only.entries;
            term_vote =
                ap (λ (t : Table). t.term_vote) only.disk ∙ y.term_vote ∙ sym only.term_vote;
            base = ap (λ (t : Table). t.snapshot_meta) only.disk ∙ y.base ∙ sym only.base;
            behind = omega (arith, le, y.behind, only.climbs);
          }
    ]

pub Reach-IsSynced : {log log' : Log} → IsSound log → IsSynced log → Reach log log' → IsSynced log'
Reach-IsSynced s y here = y
Reach-IsSynced s y (next r step) = Step-IsSynced (Reach-IsSound s r) (Reach-IsSynced s y r) step
