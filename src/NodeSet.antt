-- ===== src/NodeSet.antt =====
-- `BTreeSet<NodeID>` and `HashSet<NodeID>` as the program uses them (raft/membership.rs and
-- raft/node.rs under src/): an ascending list without repetition, in the order of iteration.
pub mod Order
pub mod Count
use raft_rust.Base.{
  ℕ, zero, suc, ◌+◌, Bool, true, false, ◌&&◌, ◌||◌, not, List, [], ◌∷◌, ltb, ◌==◌, if◌then◌else◌,
}

abbrev pub NodeSet : Type 0
NodeSet = List ℕ

unfoldable pub contains : NodeSet → ℕ → Bool
contains [] a = false
contains (x ∷ s) a = (x == a) || contains s a

unfoldable pub insert : ℕ → NodeSet → NodeSet
insert a [] = a ∷ []
insert a (x ∷ s) =
    let rest = insert a s in if ltb a x then a ∷ x ∷ s else if a == x then x ∷ s else x ∷ rest

unfoldable pub remove : ℕ → NodeSet → NodeSet
remove a [] = []
remove a (x ∷ s) = let rest = remove a s in if x == a then rest else x ∷ rest

-- `iter.into_iter().collect()`, and `extend`
unfoldable pub extend : NodeSet → List ℕ → NodeSet
unfolding insert
extend s [] = s
extend s (a ∷ l) = extend (insert a s) l

unfoldable pub union : NodeSet → NodeSet → NodeSet
unfolding extend
union s t = extend s t

-- The members of `s` that pass a test, and their number.
unfoldable pub count : (ℕ → Bool) → NodeSet → ℕ
count p [] = 0
count p (x ∷ s) = if p x then suc (count p s) else count p s

-- `s.intersection(t).count()`
unfoldable pub count_common : NodeSet → NodeSet → ℕ
unfolding count contains
count_common s t = count (contains t) s
