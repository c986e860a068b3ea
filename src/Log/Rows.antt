-- ===== src/Log/Rows.antt =====
-- Rows without gaps, and what the table's operations do to them.
use raft_rust.Base.{
  ℕ, zero, suc, ◌+◌, ◌≤◌, ◌<◌, ◌≡◌, refl, ap, sym, subst, List, [], ◌∷◌, ◌++◌, arith, length, take,
  drop,
}
use raft_rust.Log.Entry.{Entry}
use raft_rust.Log.Table.{Row, lookup, write, delete, delete_range, write_all, range}

-- The rows have the indices `i`, `i + 1`, and so on.
abbrev pub IsRun : ℕ → List Row → Type 0
IsRun i [] = Unit
IsRun i (row ∷ rows) = (row.0 ≡ i) × (row.1.index ≡ i) × IsRun (suc i) rows

-- All rows lie before index `i`.
abbrev pub IsBelow : ℕ → List Row → Type 0
IsBelow i [] = Unit
IsBelow i (row ∷ rows) = (row.0 < i) × IsBelow i rows

-- An entry as the row that is written for it.
abbrev pub as_rows : List Entry → List Row
as_rows [] = []
as_rows (e ∷ entries) = (e.index, e) ∷ as_rows entries

-- The entries have the indices `i`, `i + 1`, and so on.
abbrev pub IsRunOf : ℕ → List Entry → Type 0
IsRunOf i [] = Unit
IsRunOf i (e ∷ entries) = (e.index ≡ i) × IsRunOf (suc i) entries

pub IsRun-as_rows : (i : ℕ) (entries : List Entry) → IsRunOf i entries → IsRun i (as_rows entries)
IsRun-as_rows i [] h = tt
IsRun-as_rows i (e ∷ entries) h = (h.0, h.0, IsRun-as_rows (suc i) entries h.1)

pub IsRun-append : (i : ℕ) (p s : List Row) → IsRun i p → IsRun (i + length p) s → IsRun i (p ++ s)
IsRun-append i [] s hp hs = subst (λ k. IsRun k s) (omega arith) hs
IsRun-append i (row ∷ p) s hp hs =
    (hp.0, hp.1, IsRun-append (suc i) p s hp.2 (subst (λ k. IsRun k s) (omega arith) hs))

pub IsRun-take : (n i : ℕ) (l : List Row) → IsRun i l → IsRun i (take n l)
IsRun-take zero i l h = tt
IsRun-take (suc n) i [] h = tt
IsRun-take (suc n) i (row ∷ l) h = (h.0, h.1, IsRun-take n (suc i) l h.2)

pub IsRun-drop : (n i : ℕ) (l : List Row) → IsRun i l → IsRun (i + n) (drop n l)
IsRun-drop zero i l h = subst (λ k. IsRun k l) (omega arith) h
IsRun-drop (suc n) i [] h = tt
IsRun-drop (suc n) i (row ∷ l) h =
    subst (λ k. IsRun k (drop n l)) (omega arith) (IsRun-drop n (suc i) l h.2)

pub IsRun-IsBelow : (i j : ℕ) (l : List Row) → IsRun i l → i + length l ≤ j → IsBelow j l
IsRun-IsBelow i j [] h le = tt
IsRun-IsBelow i j (row ∷ l) h le = (omega arith, IsRun-IsBelow (suc i) j l h.2 (omega arith))

pub length-as_rows : (entries : List Entry) → length (as_rows entries) ≡ length entries
length-as_rows [] = refl
length-as_rows (e ∷ entries) = omega (arith, length-as_rows entries)

pub IsBelow-append : (i : ℕ) (p s : List Row) → IsBelow i p → IsBelow i s → IsBelow i (p ++ s)
IsBelow-append i [] s hp hs = hs
IsBelow-append i (row ∷ p) s hp hs = (hp.0, IsBelow-append i p s hp.1 hs)

pub IsRunOf-drop :
    (n i : ℕ) (entries : List Entry) → IsRunOf i entries → IsRunOf (i + n) (drop n entries)
IsRunOf-drop zero i l h = subst (λ k. IsRunOf k l) (omega arith) h
IsRunOf-drop (suc n) i [] h = tt
IsRunOf-drop (suc n) i (e ∷ l) h =
    subst (λ k. IsRunOf k (drop n l)) (omega arith) (IsRunOf-drop n (suc i) l h.1)

pub as_rows-append : (xs ys : List Entry) → as_rows (xs ++ ys) ≡ as_rows xs ++ as_rows ys
as_rows-append [] ys = refl
as_rows-append (e ∷ xs) ys = ap (◌∷◌ (e.index, e)) (as_rows-append xs ys)

-- The operations pass over rows below the index that they are about.

pub lookup-append_below : (i : ℕ) (p s : List Row) → IsBelow i p → lookup i (p ++ s) ≡ lookup i s
unfolding lookup
lookup-append_below i [] s h = refl
lookup-append_below i ((j, e) ∷ p) s h = ground (arith, lookup-append_below i p s)

pub write-append_below :
    (i : ℕ) (e : Entry) (p s : List Row) → IsBelow i p → write i e (p ++ s) ≡ p ++ write i e s
unfolding write
write-append_below i e [] s h = refl
write-append_below i e ((j, x) ∷ p) s h = ground (arith, write-append_below i e p s)

pub delete-append_below :
    (i : ℕ) (p s : List Row) → IsBelow i p → delete i (p ++ s) ≡ p ++ delete i s
unfolding delete
delete-append_below i [] s h = refl
delete-append_below i ((j, x) ∷ p) s h = ground (arith, delete-append_below i p s)

pub range-append_below : (i k : ℕ) (p s : List Row) → IsBelow i p → range i k (p ++ s) ≡ range i k s
unfolding range
range-append_below i k [] s h = refl
range-append_below i k ((j, x) ∷ p) s h = ground (arith, range-append_below i k p s)

pub IsBelow-mono : (i j : ℕ) (p : List Row) → i ≤ j → IsBelow i p → IsBelow j p
IsBelow-mono i j [] le h = tt
IsBelow-mono i j (row ∷ p) le h = (omega arith, IsBelow-mono i j p le h.1)

pub delete_range-append_below :
    (n i : ℕ) (p s : List Row) → IsBelow i p → delete_range n i (p ++ s) ≡ p ++ delete_range n i s
unfolding delete_range
delete_range-append_below zero i p s h = refl
delete_range-append_below (suc n) i p s h =
    rw (delete-append_below i p s h) (
      delete_range-append_below n (suc i) p (delete i s) (IsBelow-mono i (suc i) p (omega arith) h))

pub write_all-append_below :
    (i : ℕ) (entries : List Entry) (p s : List Row)
    → IsBelow i p
    → IsRunOf i entries
    → write_all entries (p ++ s) ≡ p ++ write_all entries s
unfolding write_all
write_all-append_below i [] p s h r = refl
write_all-append_below i (e ∷ entries) p s h r =
    let b : IsBelow e.index p = subst (λ k. IsBelow k p) (sym r.0) h in
    rw (write-append_below e.index e p s b) (
      write_all-append_below (suc i) entries p (write e.index e s)
        (IsBelow-mono i (suc i) p (omega arith) h) r.1)
