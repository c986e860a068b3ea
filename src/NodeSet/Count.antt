-- ===== src/NodeSet/Count.antt =====
-- Counting the members of a set that pass a test.
use raft_rust.Base.{
  ℕ, suc, ◌+◌, ◌≤◌, ◌<◌, ◌≡◌, Bool, true, [], ◌∷◌, arith, length, ◌⊎◌, inl, inr, Bool-cases,
}
use raft_rust.NodeSet.{NodeSet, contains, count}

pub count-le-length : (p : ℕ → Bool) (s : NodeSet) → count p s ≤ length s
unfolding count
count-le-length p [] = omega arith
count-le-length p (x ∷ s) = ground (arith, count-le-length p s)

-- A larger test counts at least as many.
pub count_mono :
    (p q : ℕ → Bool) (s : NodeSet) → ((x : ℕ) → p x ≡ true → q x ≡ true) → count p s ≤ count q s
unfolding count
count_mono p q [] h = omega arith
count_mono p q (x ∷ s) h = ground (arith, count_mono p q s h, h x)

-- One of two tests that together count more members than there are of a longer list.
both_or_fewer :
    (p q : ℕ → Bool) (x : ℕ) (s : NodeSet)
    → ((p x ≡ true) × (q x ≡ true))
      ⊎ (count p (x ∷ s) + count q (x ∷ s) ≤ suc (count p s + count q s))
unfolding count
both_or_fewer p q x s = elim (Bool-cases (p x)) [
  | inl hp ↦ elim (Bool-cases (q x)) [ inl hq ↦ inl (hp, hq) | inr hq ↦ inr (ground arith) ]
  | inr hp ↦ inr (ground arith)
]

-- Two tests that together count more members than there are share one.
pub count_overlap :
    (p q : ℕ → Bool) (s : NodeSet)
    → length s < count p s + count q s
    → (x : ℕ) × (contains s x ≡ true) × (p x ≡ true) × (q x ≡ true)
unfolding contains
count_overlap p q [] h = absurd (unfold count in omega arith)
count_overlap p q (x ∷ s) h = elim (both_or_fewer p q x s) [
  | inl both ↦ (x, ground arith, both.0, both.1)
  | inr fewer ↦
      let (y, member, hp, hq) = count_overlap p q s (omega arith) in (y, ground arith, hp, hq)
]
