-- ===== src/NodeSet/Order.antt =====
-- The order of a set's list is kept, and membership after each operation.
use raft_rust.Base.{ℕ, ◌<◌, ◌≡◌, refl, false, ◌||◌, [], ◌∷◌, arith, ◌==◌, if◌then◌else◌}
use raft_rust.NodeSet.{NodeSet, contains, insert, remove, extend, union}

abbrev pub Above : ℕ → NodeSet → Type 0
Above a [] = Unit
Above a (x ∷ s) = (a < x) × Above a s

abbrev pub IsAscending : NodeSet → Type 0
IsAscending [] = Unit
IsAscending (x ∷ s) = Above x s × IsAscending s

pub contains-insert : (a b : ℕ) (s : NodeSet) → contains (insert a s) b ≡ ((a == b) || contains s b)
unfolding contains insert
contains-insert a b [] = refl
contains-insert a b (x ∷ s) = ground (arith, contains-insert a b s)

pub contains-remove :
    (a b : ℕ) (s : NodeSet) → contains (remove a s) b ≡ (if a == b then false else contains s b)
unfolding contains remove
contains-remove a b [] = ground arith
contains-remove a b (x ∷ s) = ground (arith, contains-remove a b s)

pub contains-extend :
    (b : ℕ) (s l : NodeSet) → contains (extend s l) b ≡ (contains s b || contains l b)
unfolding contains extend
contains-extend b s [] = ground arith
contains-extend b s (a ∷ l) =
    ground (arith, contains-extend b (insert a s) l, contains-insert a b s)

pub contains-union :
    (b : ℕ) (s t : NodeSet) → contains (union s t) b ≡ (contains s b || contains t b)
unfolding union
contains-union b s t = contains-extend b s t

Above-trans : (a b : ℕ) (s : NodeSet) → a < b → Above b s → Above a s
Above-trans a b [] lt h = tt
Above-trans a b (x ∷ s) lt h = (omega arith, Above-trans a b s lt h.1)

Above-insert : (a b : ℕ) (s : NodeSet) → a < b → Above a s → Above a (insert b s)
unfolding insert
Above-insert a b [] lt h = (lt, tt)
Above-insert a b (x ∷ s) lt h = ground (arith, Above-insert a b s)

pub insert-IsAscending : (a : ℕ) (s : NodeSet) → IsAscending s → IsAscending (insert a s)
unfolding insert
insert-IsAscending a [] h = (tt, tt)
insert-IsAscending a (x ∷ s) h =
    ground (arith, insert-IsAscending a s, Above-insert x a s, Above-trans a x s)

Above-remove : (a b : ℕ) (s : NodeSet) → Above a s → Above a (remove b s)
unfolding remove
Above-remove a b [] h = tt
Above-remove a b (x ∷ s) h = ground (arith, Above-remove a b s)

pub remove-IsAscending : (a : ℕ) (s : NodeSet) → IsAscending s → IsAscending (remove a s)
unfolding remove
remove-IsAscending a [] h = tt
remove-IsAscending a (x ∷ s) h = ground (arith, remove-IsAscending a s, Above-remove x a s)

pub extend-IsAscending : (s l : NodeSet) → IsAscending s → IsAscending (extend s l)
unfolding extend
extend-IsAscending s [] h = h
extend-IsAscending s (a ∷ l) h = extend-IsAscending (insert a s) l (insert-IsAscending a s h)
