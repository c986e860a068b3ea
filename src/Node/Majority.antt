-- ===== src/Node/Majority.antt =====
-- What a leader commits is on a quorum: `maybe_commit_and_apply` of src/raft/node.rs.
use raft_rust.Base.{
  ℕ, zero, suc, ◌+◌, ◌-◌, ◌≤◌, ◌<◌, ◌≡◌, refl, Bool, true, false, some, List, [], ◌∷◌, ok, leb,
  ◌==◌, arith, Bool-cases, Option-cases, inl, inr, ◌⊎◌, get_elem?, u64_add, u64_limit, ap, ◌∙◌,
}
use raft_rust.NodeSet
use raft_rust.NodeSet.Order.{contains-insert}
use raft_rust.Membership.{has_quorum}
use raft_rust.Log.Entry.{Entry}
use raft_rust.Log.Ops.{get}
use raft_rust.Log.Invariant.{IsWellFormed}
use raft_rust.Log.Keeps.{commit-IsWellFormed, commit-eq-ok}
use raft_rust.Node.Types.{RawNode, Progress, Leader}
use raft_rust.Node.Commit.{
  matched_at, is_of_term, can_commit, search_commit, commit_candidate, check_term, advance_commit,
}

-- A node that is counted for an index is the leader, or a peer that has confirmed the index.
abbrev pub Confirmed : ℕ → ℕ → List (ℕ × Progress) → ℕ → Type 0
Confirmed id index progress node =
    (node ≡ id)
    ⊎ ((k : ℕ) × (p : Progress) × (get_elem? progress k ≡ some (node, p)) × (index ≤ p.match_index))

contains-nil : (node : ℕ) → NodeSet.contains [] node ≡ false
unfolding NodeSet.contains
contains-nil node = refl

pub matched_at-Confirmed :
    (id index : ℕ) (progress : List (ℕ × Progress)) (node : ℕ)
    → NodeSet.contains (matched_at id index progress) node ≡ true
    → Confirmed id index progress node
unfolding matched_at
matched_at-Confirmed id index [] node h =
    inl (ground (arith, contains-insert id node [], contains-nil node))
matched_at-Confirmed id index ((peer, p) ∷ progress) node h =
    let later : NodeSet.contains (matched_at id index progress) node ≡ true
        → Confirmed id index ((peer, p) ∷ progress) node =
      λ g. elim (matched_at-Confirmed id index progress node g) [
        | inl me ↦ inl me
        | inr other ↦ inr (suc other.0, other.1, other.2, other.3)
      ] in
    elim (Bool-cases (leb index p.match_index)) [
      | inr behind ↦ later (ground arith)
      | inl ahead ↦ elim (Bool-cases (peer == node)) [
        | inl it ↦ inr (0, p, ground arith, ground arith)
        | inr other ↦
            later (ground (arith, contains-insert peer node (matched_at id index progress)))
      ]
    ]

module _ {S : Type 0} where
  -- The loop finds the last index that can be committed, or stays where it is.
  search_commit_lem :
      (n : RawNode S Leader) (k : ℕ)
      → ((search_commit n k ≡ n.log.commit_index)
          ⊎ ((n.log.commit_index < search_commit n k) × (can_commit n (search_commit n k) ≡ true)))
        × (n.log.commit_index ≤ search_commit n k)
        × (search_commit n k ≤ n.log.commit_index + k)
        × ((j : ℕ) → search_commit n k < j → j ≤ n.log.commit_index + k → can_commit n j ≡ false)
  unfolding search_commit
  search_commit_lem n zero = (inl refl, omega arith, omega arith, λ j a b. absurd (omega arith))
  search_commit_lem n (suc k) =
      let (found, low, high, rest) = search_commit_lem n k in
      elim (Bool-cases (can_commit n (n.log.commit_index + suc k))) [
        | inl yes_it ↦
            rw yes_it
              (inr (omega arith, yes_it), omega arith, omega arith, λ j a b. absurd (omega arith))
        | inr no_it ↦ rw no_it (
          found,
          low,
          omega (arith, high),
          λ j a b. elim (Bool-cases (j == n.log.commit_index + suc k)) [
            | inl last ↦
                let at : j ≡ n.log.commit_index + suc k = ground arith in
                ap (can_commit n) at ∙ no_it
            | inr before ↦ rest j a (ground arith)
          ],
        )
      ]

  can_commit_lem :
      (n : RawNode S Leader) (index : ℕ)
      → can_commit n index ≡ true
      → (e : Entry) × (get n.log index ≡ some e)
        × (e.term ≡ n.log.term)
        × (has_quorum n.membership.active (matched_at n.id index n.role.progress) ≡ true)
  unfolding can_commit is_of_term
  can_commit_lem n index h = elim (Option-cases (get n.log index)) [
    | inl missing ↦ absurd (ground arith)
    | inr (e, found) ↦ (e, found, ground arith, ground arith)
  ]

  -- `advance_commit` on a well-formed log whose end leaves room in `u64` returns, keeps the log well
  -- formed, and does not lower the commit index. Either that index stays, or it is then the index of
  -- an entry of the current term, every node counted for it is the leader or has confirmed it, and
  -- those nodes are a quorum. No later index of the log could be committed.
  pub advance_commit_lem :
      (n : RawNode S Leader)
      → IsWellFormed n.log
      → n.log.last_index + 1 < u64_limit
      → (n' : RawNode S Leader) × (moved : Bool) × (advance_commit n ≡ ok (n', moved))
        × IsWellFormed n'.log
        × (n.log.commit_index ≤ n'.log.commit_index)
        × ((n'.log.commit_index ≡ n.log.commit_index)
            ⊎ ((e : Entry) × (get n.log n'.log.commit_index ≡ some e)
                × (e.term ≡ n.log.term)
                × (has_quorum n.membership.active
                      (matched_at n.id n'.log.commit_index n.role.progress)
                    ≡ true)
                × ((node : ℕ)
                    → NodeSet.contains (matched_at n.id n'.log.commit_index n.role.progress) node
                      ≡ true
                    → Confirmed n.id n'.log.commit_index n.role.progress node)))
        × ((j : ℕ) → n'.log.commit_index < j → j ≤ n.log.last_index → can_commit n j ≡ false)
  unfolding advance_commit commit_candidate
  advance_commit_lem n w fits =
      let k = n.log.last_index - n.log.commit_index in
      let (found, low, high, rest) = search_commit_lem n k in
      let room : u64_add n.log.commit_index 1 ≡ ok (n.log.commit_index + 1) =
        unfold u64_add in ground (arith, w.committed) in
      elim found [
        | inl stays ↦ (
          n,
          false,
          ground arith,
          w,
          omega arith,
          inl refl,
          λ j a b. rest j (omega arith) (omega (arith, w.committed)),
        )
        | inr (higher, good) ↦
            let index = search_commit n k in
            let (e, there, current, quorum) = can_commit_lem n index good in
            let (log, committed, at) = commit-eq-ok n.log index e w there higher in
            let checked : check_term n.log index (get n.log index) ≡ ok (log, true) =
              unfold check_term in rw there (ground (arith, committed)) in
            (
              record n { log = log },
              true,
              ground (arith, room, checked, higher),
              commit-IsWellFormed n.log index w committed,
              omega arith,
              inr (
                e,
                ap (get n.log) at ∙ there,
                current,
                ap (λ i. has_quorum n.membership.active (matched_at n.id i n.role.progress)) at
                    ∙ quorum,
                matched_at-Confirmed n.id log.commit_index n.role.progress,
              ),
              λ j a b. rest j (omega arith) (omega (arith, w.committed)),
            )
      ]
