-- ===== src/Log/Runs.antt =====
-- What the table's operations do to rows without gaps, from the row where they begin.
use raft_rust.Base.{
  ℕ, zero, suc, ◌+◌, ◌-◌, ◌≤◌, ◌<◌, ◌≡◌, refl, sym, ap, ◌∙◌, inl, inr, Bool-cases, le→leb, leb,
  ◌==◌, none, some, List, [], ◌∷◌, ◌++◌, arith, length, get_elem?, take, drop,
}
use raft_rust.Log.Entry.{Entry}
use raft_rust.Log.Table.{Row, lookup, write, delete, delete_range, write_all, range}
use raft_rust.Log.Rows.{IsRun, IsRunOf, as_rows, write_all-append_below}

drop_nil {ℓ} : {A : Type ℓ} (n : ℕ) → drop {A = A} n [] ≡ []
drop_nil zero = refl
drop_nil (suc n) = refl

take_nil {ℓ} : {A : Type ℓ} (n : ℕ) → take {A = A} n [] ≡ []
take_nil zero = refl
take_nil (suc n) = refl

pub lookup_before_run : (i j : ℕ) (l : List Row) → IsRun i l → j < i → lookup j l ≡ none
unfolding lookup
lookup_before_run i j [] h lt = refl
lookup_before_run i j ((k, e) ∷ l) h lt = ground (arith, lookup_before_run (suc i) j l h.2)

pub lookup_in_run :
    (i j : ℕ) (l : List Row)
    → IsRun i l
    → i ≤ j
    → j < i + length l
    → (e : Entry) × (lookup j l ≡ some e)
unfolding lookup
lookup_in_run i j [] h le lt = absurd (omega arith)
lookup_in_run i j ((k, e) ∷ l) h le lt = elim (Bool-cases (j == k)) [
  | inl here ↦ (e, rw here)
  | inr other ↦ rw other (lookup_in_run (suc i) j l h.2 (ground arith) (omega arith))
]

-- Rows behind a run do not change what is found in it.
pub lookup-append_front :
    (i j : ℕ) (p s : List Row)
    → IsRun i p
    → i ≤ j
    → j < i + length p
    → lookup j (p ++ s) ≡ lookup j p
unfolding lookup
lookup-append_front i j [] s h le lt = absurd (omega arith)
lookup-append_front i j ((k, e) ∷ p) s h le lt =
    ground (arith, lookup-append_front (suc i) j p s h.2)

-- A row that is written for an entry is found at its index.
pub lookup-as_rows :
    (i n : ℕ) (es : List Entry) (e : Entry)
    → IsRunOf i es
    → get_elem? es n ≡ some e
    → lookup (i + n) (as_rows es) ≡ some e
unfolding lookup
lookup-as_rows i n [] e r at = absurd (ground arith)
lookup-as_rows i zero (x ∷ es) e r at = ground arith
lookup-as_rows i (suc n) (x ∷ es) e r at =
    let next : suc i + n ≡ i + suc n = omega arith in
    let later : lookup (i + suc n) (as_rows es) ≡ some e =
      rw (← next) (lookup-as_rows (suc i) n es e r.1 at) in
    ground arith

pub lookup-eq-some :
    (i j : ℕ) (l : List Row) {e : Entry}
    → IsRun i l
    → lookup j l ≡ some e
    → (i ≤ j) × (j < i + length l) × (e.index ≡ j)
unfolding lookup
lookup-eq-some i j [] h found = cc
lookup-eq-some i j ((k, x) ∷ l) {e} h found =
    ground (arith, λ (p : lookup j l ≡ some e). lookup-eq-some (suc i) j l h.2 p)

pub delete_range_run : (n i : ℕ) (l : List Row) → IsRun i l → delete_range n i l ≡ drop n l
unfolding delete_range delete
delete_range_run zero i l h = refl
delete_range_run (suc n) i [] h = delete_range_run n (suc i) [] tt ∙ drop_nil n
delete_range_run (suc n) i ((k, x) ∷ l) h = ground (arith, delete_range_run n (suc i) l h.2)

pub range_run : (a k i : ℕ) (l : List Row) → IsRun i l → a ≤ i → range a k l ≡ take (suc k - i) l
unfolding range
range_run a k i [] h le = sym (take_nil (suc k - i))
range_run a k i ((j, x) ∷ l) h le = elim (Bool-cases (leb i k)) [
  | inl more ↦
      let n : suc k - i ≡ suc (suc k - suc i) = ground arith in
      rw (n, h.0, le→leb a i le, more) (ap (◌∷◌ (i, x)) (range_run a k (suc i) l h.2 (omega arith)))
  | inr past ↦
      let n : suc k - i ≡ 0 = ground arith in
      let m : suc k - suc i ≡ 0 = ground arith in
      rw (n, h.0, le→leb a i le, past) (range_run a k (suc i) l h.2 (omega arith) ∙ rw m)
]

pub write_all_run :
    (i : ℕ) (entries : List Entry) (l : List Row)
    → IsRun i l
    → IsRunOf i entries
    → write_all entries l ≡ as_rows entries ++ drop (length entries) l
unfolding write_all
write_all_run i [] l h r = refl
write_all_run i (e ∷ entries) [] h r =
    write_all-append_below (suc i) entries ((e.index, e) ∷ []) [] (omega arith, tt) r.1
    ∙ ap (◌∷◌ (e.index, e))
        (write_all_run (suc i) entries [] tt r.1 ∙ rw (drop_nil (length entries)))
write_all_run i (e ∷ entries) ((k, x) ∷ l) h r =
    let same : write e.index e ((k, x) ∷ l) ≡ (e.index, e) ∷ l = unfold write in ground arith in
    rw same (
      write_all-append_below (suc i) entries ((e.index, e) ∷ []) l (omega arith, tt) r.1
      ∙ ap (◌∷◌ (e.index, e)) (write_all_run (suc i) entries l h.2 r.1))
