-- ===== src/Node/Commit.antt =====
-- Which index a leader commits: the first part of `maybe_commit_and_apply` of src/raft/node.rs.
use raft_rust.Base.{
  ℕ, zero, suc, ◌+◌, ◌-◌, Bool, true, false, ◌&&◌, Option, none, some, List, [], ◌∷◌, Outcome, ok,
  panic, u64_add, ◌>>=◌, leb, ◌==◌, if◌then◌else◌,
}
use raft_rust.NodeSet
use raft_rust.NodeSet.{NodeSet}
use raft_rust.Membership.{has_quorum}
use raft_rust.Log.Entry.{Entry}
use raft_rust.Log.Ops.{Log, get, commit}
use raft_rust.Node.Types.{RawNode, Progress, Leader}

-- The nodes that hold the log up to `index`: the leader, and every peer that has confirmed it.
unfoldable pub matched_at : ℕ → ℕ → List (ℕ × Progress) → NodeSet
matched_at id index [] = NodeSet.insert id []
matched_at id index ((peer, p) ∷ progress) =
    let rest = matched_at id index progress in
    if leb index p.match_index then NodeSet.insert peer rest else rest

unfoldable pub is_of_term : ℕ → Option Entry → Bool
is_of_term term none = false
is_of_term term (some e) = e.term == term

-- The entry that is found must be of the current term.
unfoldable pub check_term : Log → ℕ → Option Entry → Outcome (Log × Bool)
check_term log index none = panic
check_term log index (some e) =
    if e.term == log.term
    then (do (log', _) ← commit log index; ok (log', true))
    else ok (log, false)

module _ {S : Type 0} where
  -- The test of the loop at one index.
  unfoldable pub can_commit : RawNode S Leader → ℕ → Bool
  unfolding matched_at is_of_term
  can_commit n index =
      is_of_term n.log.term (get n.log index)
      && has_quorum n.membership.active (matched_at n.id index n.role.progress)

  -- The loop, from `commit_index + k` down.
  unfoldable pub search_commit : RawNode S Leader → ℕ → ℕ
  unfolding can_commit
  search_commit n zero = n.log.commit_index
  search_commit n (suc k) =
      let rest = search_commit n k in
      if can_commit n (n.log.commit_index + suc k) then n.log.commit_index + suc k else rest

  unfoldable pub commit_candidate : RawNode S Leader → ℕ
  unfolding search_commit
  commit_candidate n = search_commit n (n.log.last_index - n.log.commit_index)

  -- Up to `self.log.commit(commit_index)`, with whether anything was committed.
  unfoldable pub advance_commit : RawNode S Leader → Outcome (RawNode S Leader × Bool)
  unfolding commit_candidate check_term
  advance_commit n =
      let index = commit_candidate n in
      do
        _ ← u64_add n.log.commit_index 1
        if leb index n.log.commit_index then ok (n, false) else (do
          (log, moved) ← check_term n.log index (get n.log index)
          ok (record n { log = log }, moved))
