-- ===== src/Node/Progress.antt =====
-- What a leader knows of its peers: `Progress` and `Leader::new` of src/raft/node.rs. A map is an
-- association list, where a key stands once.
use raft_rust.Base.{
  ℕ, ◌+◌, ◌≤◌, ◌<◌, max, Bool, true, false, Option, none, some, List, [], ◌∷◌, Outcome, ok, ◌>>=◌,
  u64_add, leb, ◌==◌, if◌then◌else◌,
}
use raft_rust.NodeSet
use raft_rust.NodeSet.{NodeSet}
use raft_rust.Node.Types.{Progress, Leader}

-- `Progress::advance`, with whether anything is new
unfoldable pub advance : Progress → ℕ → Outcome (Progress × Bool)
advance p index = if leb index p.match_index then ok (p, false) else (do
  next ← u64_add index 1
  ok (record p { match_index = index; next_index = max p.next_index next }, true))

-- `Progress::advance_read`
unfoldable pub advance_read : Progress → ℕ → Progress × Bool
advance_read p seq = if leb seq p.read_seq then (p, false) else (record p { read_seq = seq }, true)

-- `Progress::regress_next`
unfoldable pub regress_next : Progress → ℕ → Outcome (Progress × Bool)
regress_next p next = if leb p.next_index next then ok (p, false) else (do
  floor ← u64_add p.match_index 1
  if leb p.next_index floor
      then ok (p, false)
      else ok (record p { next_index = max next floor }, true))

-- The progress of a peer lies within a log that ends at `last`.
pub record IsWithin (last : ℕ) (p : Progress) : Type 0 where
  pub match_lt : p.match_index < p.next_index
  pub next_le : p.next_index ≤ last + 1

-- `HashMap::get`, and a change of a value that is there
unfoldable pub progress_of {ℓ} : {A : Type ℓ} → ℕ → List (ℕ × A) → Option A
progress_of id [] = none
progress_of id ((other, a) ∷ l) = if id == other then some a else progress_of id l

unfoldable pub set_progress {ℓ} : {A : Type ℓ} → ℕ → A → List (ℕ × A) → List (ℕ × A)
set_progress id a [] = []
set_progress id a ((other, b) ∷ l) =
    let rest = set_progress id a l in if id == other then (other, a) ∷ l else (other, b) ∷ rest

-- `for p in peers { map.entry(*p).or_insert(a) }`
unfoldable pub or_insert {ℓ} : {A : Type ℓ} → NodeSet → A → List (ℕ × A) → List (ℕ × A)
unfolding progress_of
or_insert [] a l = l
or_insert (id ∷ peers) a l = elim (progress_of id l) [
  | none ↦ or_insert peers a ((id, a) ∷ l)
  | some b ↦ or_insert peers a l
]

-- `map.retain(|id, _| peers.contains(id))`
unfoldable pub retain {ℓ} : {A : Type ℓ} → NodeSet → List (ℕ × A) → List (ℕ × A)
retain peers [] = []
retain peers ((id, a) ∷ l) =
    let rest = retain peers l in if NodeSet.contains peers id then (id, a) ∷ rest else rest

-- `Leader::new`
unfoldable pub new_leader : NodeSet → ℕ → Outcome Leader
unfolding or_insert
new_leader peers last_index = do
  next ← u64_add last_index 1
  ok (record {
    progress = or_insert peers (record { match_index = 0; next_index = next; read_seq = 0 }) [];
    writes = [];
    membership_writes = [];
    reads = [];
    read_seq = 0;
    since_heartbeat = 0;
    peer_seen = or_insert peers 0 [];
  })
