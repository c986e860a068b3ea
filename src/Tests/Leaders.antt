-- ===== src/Tests/Leaders.antt =====
-- The theorems on the leader, at a leader of three nodes.
use raft_rust.Base.{
  ℕ, ◌+◌, ◌≡◌, ◌≤◌, ◌<◌, ◌⊎◌, inl, refl, ok, some, true, false, Bool, [], ◌∷◌, panic, arith,
  u64_limit, u64_add,
}
use raft_rust.NodeSet
use raft_rust.Membership.{simple, has_quorum}
use raft_rust.Log.Entry.{Entry}
use raft_rust.Log.Table
use raft_rust.Log.Ops.{Log, get, set_term_vote, append_entry, commit, compact_to}
use raft_rust.Log.Invariant.{IsWellFormed}
use raft_rust.Log.Reach.{Reach-IsSound, fresh-IsSound}
use raft_rust.Node.Types.{RawNode, Progress, Leader}
use raft_rust.Node.Progress.{IsWithin, progress_of}
use raft_rust.Node.Commit.{advance_commit, matched_at, can_commit}
use raft_rust.Node.Majority.{Confirmed, advance_commit_lem}
use raft_rust.Node.Replicate.{maybe_send_append}
use raft_rust.Node.Appends.{Sent, maybe_send_append_lem, append_behind_snapshot}
use raft_rust.Tests.Data.{
  one_committed, one_committed-Reach, one_compacted, one_compacted-IsSound, one_compacted-start,
}
use raft_rust.Tests.Nodes.{counter, options}

abbrev progress : ℕ → ℕ → Progress
progress index next = record { match_index = index; next_index = next; read_seq = 0 }

-- Node 1 leads; node 2 has confirmed both entries, node 3 the first.
abbrev pub lead : Log → RawNode ℕ Leader
lead log = record {
  id = 1;
  membership = record {
    active = simple (record { voters = 1 ∷ 2 ∷ 3 ∷ [] });
    change_pending = false;
  };
  log = log;
  state = 1;
  tx = [];
  opts = options;
  draws = [];
  role = record {
    progress = (2, progress 2 3) ∷ (3, progress 1 2) ∷ [];
    writes = [];
    membership_writes = [];
    reads = [];
    read_seq = 0;
    since_heartbeat = 0;
    peer_seen = [];
  };
}

abbrev before : Log
before = one_committed

before-IsWellFormed : IsWellFormed before
before-IsWellFormed = (Reach-IsSound fresh-IsSound one_committed-Reach).formed

before-end : before.last_index ≡ 2
unfolding append_entry u64_add u64_limit commit set_term_vote Table.lookup Table.flush_if
    Table.write
before-end = refl

before-start : before.first_index ≡ 1
unfolding append_entry u64_add u64_limit commit set_term_vote Table.lookup Table.flush_if
    Table.write
before-start = refl

before-room : before.last_index + 1 < u64_limit
unfolding u64_limit
before-room = omega (arith, before-end)

advance_commit_lem_example :
    (n' : RawNode ℕ Leader) × (moved : Bool) × (advance_commit (lead before) ≡ ok (n', moved))
    × IsWellFormed n'.log
    × (before.commit_index ≤ n'.log.commit_index)
    × ((n'.log.commit_index ≡ before.commit_index)
        ⊎ ((e : Entry) × (get before n'.log.commit_index ≡ some e)
            × (e.term ≡ before.term)
            × (has_quorum
                  (lead before).membership.active
                  (matched_at 1 n'.log.commit_index (lead before).role.progress)
                ≡ true)
            × ((node : ℕ)
                → NodeSet.contains
                    (matched_at 1 n'.log.commit_index (lead before).role.progress)
                    node
                  ≡ true
                → Confirmed 1 n'.log.commit_index (lead before).role.progress node)))
    × ((j : ℕ)
        → n'.log.commit_index < j
        → j ≤ before.last_index
        → can_commit (lead before) j ≡ false)
advance_commit_lem_example = advance_commit_lem (lead before) before-IsWellFormed before-room

to_third : progress_of 3 (lead before).role.progress ≡ some (progress 1 2)
unfolding progress_of
to_third = refl

third-IsWithin : IsWithin before.last_index (progress 1 2)
third-IsWithin = record { match_lt = omega arith; next_le = omega (arith, before-end) }

maybe_send_append_lem_example :
    (n' : RawNode ℕ Leader) × (maybe_send_append counter (lead before) 3 false ≡ ok n')
    × (n'.log ≡ before)
    × ((n' ≡ lead before) ⊎ Sent (lead before) 3 (progress 1 2) n')
maybe_send_append_lem_example =
    maybe_send_append_lem counter (lead before) 3 false (progress 1 2) before-IsWellFormed
      before-room to_third third-IsWithin (inl before-start)

after-end : one_compacted.last_index ≡ 2
unfolding append_entry u64_add u64_limit commit set_term_vote compact_to Table.lookup Table.flush_if
    Table.write
after-end = refl

after-room : one_compacted.last_index + 1 < u64_limit
unfolding u64_limit
after-room = omega (arith, after-end)

after-IsWithin : IsWithin one_compacted.last_index (progress 1 2)
after-IsWithin = record { match_lt = omega arith; next_le = omega (arith, after-end) }

append_behind_snapshot_example : maybe_send_append counter (lead one_compacted) 3 false ≡ panic
unfolding progress_of
append_behind_snapshot_example =
    append_behind_snapshot counter (lead one_compacted) 3 false (progress 1 2)
      one_compacted-IsSound.formed after-room to_third after-IsWithin
      (omega (arith, one_compacted-start)) (omega (arith, one_compacted-start))
      (omega (arith, after-end))
