-- ===== src/Log/Ops.antt =====
-- The operations of `Log` in raft/log.rs under src/. An operation returns the new log beside its
-- result; a failed `assert!` and a `panic!` are the outcome `panic`.
use raft_rust.Base.{
  ℕ, ◌+◌, ◌-◌, min, Bool, true, false, ◌&&◌, ◌||◌, Option, none, some, List, [], ◌∷◌, head?, last?,
  is_none, Outcome, ok, panic, ◌>>=◌, ◌>>◌, assert, u64_add, u64_limit, ltb, leb, ◌==◌,
  if◌then◌else◌,
}
use raft_rust.Membership.{MembershipEntry}
use raft_rust.Log.Entry.{Entry, Bytes}
use raft_rust.Log.Table
use raft_rust.Log.Table.{Row, Engine, values, flush, flush_if}

pub record Log : Type 0 where
  pub engine : Engine
  pub term : ℕ
  pub vote : Option ℕ
  pub first_index : ℕ
  pub snapshot_term : ℕ
  pub last_index : ℕ
  pub last_term : ℕ
  pub commit_index : ℕ
  pub commit_term : ℕ
  pub fsync : Bool

abbrev pub rows : Log → List Row
rows log = log.engine.table.entries

abbrev pub unwrap_or {ℓ} : {A : Type ℓ} → A → Option A → A
unwrap_or d none = d
unwrap_or d (some a) = a

-- `e.index` and `e.term` of an entry that was found, or a default.
position : Option Row → ℕ × ℕ
position none = (0, 0)
position (some (k, e)) = (e.index, e.term)

start_of : Option Row → ℕ
start_of none = 1
start_of (some (k, e)) = e.index

-- The last index or the commit index, raised to the base of the snapshot.
unfoldable pub raise_to : ℕ × ℕ → ℕ × ℕ → ℕ × ℕ
raise_to base p = if ltb 0 base.0 && ltb p.0 base.0 then base else p

-- `Log::new`
unfoldable pub new : Engine → Outcome Log
unfolding position start_of raise_to
new engine =
    let table = engine.table in
    let base : ℕ × ℕ = unwrap_or (0, 0) table.snapshot_meta in
    let last = position (last? table.entries) in
    let commit : ℕ × ℕ = unwrap_or (0, 0) table.commit_index in
    let term_vote : ℕ × Option ℕ = unwrap_or (0, none) table.term_vote in
    do
      first ←
          (if ltb 0 base.0
            then u64_add base.0 1
            else ok (if last.0 == 0 then 1 else start_of (head? table.entries)))
      ok (record {
        engine = engine;
        term = term_vote.0;
        vote = term_vote.1;
        first_index = first;
        snapshot_term = base.1;
        last_index = (raise_to base last).0;
        last_term = (raise_to base last).1;
        commit_index = (raise_to base commit).0;
        commit_term = (raise_to base commit).1;
        fsync = true;
      })

unfoldable pub get_snapshot_meta : Log → ℕ × ℕ
get_snapshot_meta log =
    if leb log.first_index 1 then (0, 0) else (log.first_index - 1, log.snapshot_term)

abbrev pub get : Log → ℕ → Option Entry
get log i = Table.lookup i (rows log)

compact_from : Log → ℕ → ℕ → ℕ → Log
compact_from log index term next =
    let n = next - log.first_index in
    let table = record (log.engine.table) {
      entries = Table.delete_range n log.first_index (rows log);
      snapshot_meta = some (index, term);
    } in
    record log {
      engine = flush_if log.fsync (record (log.engine) { table = table });
      first_index = next;
      snapshot_term = term;
      last_index = (if ltb log.last_index index then index else log.last_index);
      last_term = (if ltb log.last_index index then term else log.last_term);
    }

unfoldable pub compact_to : Log → ℕ → ℕ → Outcome Log
unfolding compact_from
compact_to log index term = do
  assert (leb index log.commit_index)
  next ← u64_add index 1
  ok (if leb next log.first_index && ltb 0 index then log else compact_from log index term next)

unfoldable pub reset_with_snapshot : Log → ℕ → ℕ → Outcome Log
reset_with_snapshot log index term = do
  first ← u64_add index 1
  let table = record (log.engine.table) {
    entries = [];
    snapshot_meta = some (index, term);
    commit_index = some (index, term);
  }
  ok (record log {
    engine = flush_if log.fsync (record (log.engine) { table = table });
    first_index = first;
    snapshot_term = term;
    last_index = index;
    last_term = term;
    commit_index = index;
    commit_term = term;
  })

-- `log.engine.set(Key::SnapshotData, bytes)`, which the node calls
abbrev pub set_snapshot_data : Log → Bytes → Log
set_snapshot_data log bytes =
    let table = record (log.engine.table) { snapshot_data = some bytes } in
    record log { engine = record (log.engine) { table = table } }

abbrev pub enable_fsync : Log → Bool → Log
enable_fsync log fsync = record log { fsync = fsync }

-- `vote == self.vote`
unfoldable pub same_vote : Option ℕ → Option ℕ → Bool
same_vote none none = true
same_vote none (some b) = false
same_vote (some a) none = false
same_vote (some a) (some b) = a == b

-- The term and the vote are flushed whether or not `fsync` is set.
unfoldable pub set_term_vote : Log → ℕ → Option ℕ → Outcome Log
unfolding same_vote
set_term_vote log term vote = do
  assert (ltb 0 term)
  assert (leb log.term term)
  assert (ltb log.term term || (is_none log.vote || same_vote vote log.vote))
  if term == log.term && same_vote vote log.vote
      then ok log
      else (let table = record (log.engine.table) { term_vote = some (term, vote) } in
          ok (record log {
            engine = flush (record (log.engine) { table = table });
            term = term;
            vote = vote;
          }))

unfoldable pub append_entry : Log → Option Bytes → Option MembershipEntry → Outcome (Log × ℕ)
append_entry log command membership = do
  assert (ltb 0 log.term)
  assert (is_none command || is_none membership)
  index ← u64_add log.last_index 1
  let entry : Entry = record {
    index = index;
    term = log.term;
    command = command;
    membership = membership;
  }
  let table = record (log.engine.table) { entries = Table.write index entry (rows log) }
  ok (
    record log {
      engine = flush_if log.fsync (record (log.engine) { table = table });
      last_index = index;
      last_term = log.term;
    },
    index,
  )

abbrev pub append : Log → Option Bytes → Outcome (Log × ℕ)
append log command = append_entry log command none

abbrev pub append_membership : Log → MembershipEntry → Outcome (Log × ℕ)
append_membership log membership = append_entry log none (some membership)

commit_found : Log → ℕ → Option Entry → Outcome (Log × ℕ)
commit_found log index none = panic
commit_found log index (some entry) =
    if ltb entry.index log.commit_index
    then panic
    else if entry.index == log.commit_index
    then ok (log, index)
    else (let table = record (log.engine.table) { commit_index = some (index, entry.term) } in
        ok (
          record log {
            engine = record (log.engine) { table = table };
            commit_index = index;
            commit_term = entry.term;
          },
          index,
        ))

-- The commit index is written and not flushed.
unfoldable pub commit : Log → ℕ → Outcome (Log × ℕ)
unfolding commit_found
commit log index = commit_found log index (get log index)

has_term : ℕ → Option Entry → Bool
has_term term none = false
has_term term (some e) = e.term == term

unfoldable pub has : Log → ℕ → ℕ → Bool
unfolding has_term
has log index term =
    if index == 0 || ltb log.last_index index
    then false
    else if index + 1 == log.first_index && (term == log.snapshot_term && ltb 0 index)
    then true
    else if ltb index log.first_index
    then false
    else if index == log.last_index && term == log.last_term
    then true
    else has_term term (get log index)

-- `std::ops::Bound`
pub data Bound : Type 0 where
  included excluded : ℕ → Bound
  unbounded : Bound

start_index : Bound → ℕ
start_index (included i) = i
start_index (excluded i) = min (i + 1) (u64_limit - 1)
start_index unbounded = 0

end_index : Bound → ℕ
end_index (included i) = i
end_index (excluded i) = i - 1
end_index unbounded = u64_limit - 1

-- The entries that the iterator of `scan` yields.
unfoldable pub scan : Log → Bound → Bound → List Entry
unfolding start_index end_index
scan log start end =
    if ltb (end_index end) (start_index start)
    then []
    else values (Table.range (start_index start) (end_index end) (rows log))

unfoldable pub scan_apply : Log → ℕ → List Entry
unfolding scan
scan_apply log applied =
    if leb log.commit_index applied
    then []
    else scan log (included (applied + 1)) (included log.commit_index)

-- The last membership entry of a list, or what was found before it.
latest_of : Option (ℕ × MembershipEntry) → List Entry → Option (ℕ × MembershipEntry)
latest_of found [] = found
latest_of found (e ∷ entries) =
    latest_of (elim e.membership [ none ↦ found | some m ↦ some (e.index, m) ]) entries

unfoldable pub latest_membership : Log → Option (ℕ × MembershipEntry)
unfolding latest_of scan
latest_membership log = latest_of none (scan log (included 1) (included log.last_index))
