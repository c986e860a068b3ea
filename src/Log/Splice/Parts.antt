-- ===== src/Log/Splice/Parts.antt =====
-- The steps of `splice`, one lemma for each.
use raft_rust.Base.{
  ℕ, zero, suc, ◌+◌, ◌-◌, ◌≤◌, ◌<◌, ◌≡◌, refl, subst, ◌∙◌, List, [], ◌∷◌, ◌++◌, length, some, ok,
  arith, take, drop, true, inl, inr, Bool-cases, ◌==◌, drop_of_length-le, length-drop,
}
use mathlib.Core.List.{append-nil, append_assoc}
use raft_rust.Log.Entry.{Entry, same_payload, eq_of_same_payload}
use raft_rust.Log.Table.{Row, lookup, delete_range, write_all, values}
use raft_rust.Log.Rows.{
  IsRun, IsRunOf, IsBelow, IsRun-drop, IsRun-IsBelow, IsRun-as_rows, as_rows, IsBelow-append,
  IsBelow-mono, length-as_rows, write_all-append_below, delete_range-append_below,
}
use raft_rust.Log.Runs.{delete_range_run, lookup-eq-some, write_all_run}
use raft_rust.Log.Invariant.{Climbs, final_term}
use raft_rust.Log.Splice.{last_of, is_contiguous, terms_ascend, skip_existing}

-- Entries that pass the test of contiguity have consecutive indices.
pub is_contiguous-IsRunOf :
    (e : Entry) (es : List Entry)
    → is_contiguous e es ≡ true
    → IsRunOf e.index (e ∷ es) × ((last_of e es).index ≡ e.index + length es)
unfolding is_contiguous last_of
is_contiguous-IsRunOf e [] h = ((refl, tt), omega arith)
is_contiguous-IsRunOf e (f ∷ es) h =
    let (run, end) = is_contiguous-IsRunOf f es (ground arith) in
    let next : f.index ≡ suc e.index = ground arith in
    ((refl, subst (λ k. IsRunOf k (f ∷ es)) next run), omega arith)

-- Entries that pass the test of their terms climb from any term that is no larger than the first.
pub terms_ascend-Climbs :
    (t : ℕ) (e : Entry) (es : List Entry)
    → terms_ascend e es ≡ true
    → t ≤ e.term
    → 0 < e.term
    → Climbs t (as_rows (e ∷ es)) × (final_term t (as_rows (e ∷ es)) ≡ (last_of e es).term)
unfolding terms_ascend last_of
terms_ascend-Climbs t e [] h le pos = ((le, pos, tt), refl)
terms_ascend-Climbs t e (f ∷ es) h le pos =
    let (c, end) = terms_ascend-Climbs e.term f es (ground arith) (ground arith) (ground arith) in
    ((le, pos, c), end)

-- What the scan and the new entries share is skipped: those rows hold the entries already.
pub skip_existing_lem :
    (i : ℕ) (l : List Row) (es remaining : List Entry)
    → IsRun i l
    → skip_existing (values (take (length es) l)) es ≡ ok remaining
    → (m : ℕ) × (m ≤ length es)
      × (m ≤ length l)
      × (remaining ≡ drop m es)
      × (take m l ≡ as_rows (take m es))
unfolding skip_existing
skip_existing_lem i l [] remaining r h = (0, omega arith, omega arith, ground arith, refl)
skip_existing_lem i [] (e ∷ es) remaining r h = (0, omega arith, omega arith, ground arith, refl)
skip_existing_lem i ((k, x) ∷ l) (e ∷ es) remaining r h = elim (Bool-cases (x.term == e.term)) [
  | inr differs ↦ (0, omega arith, omega arith, ground arith, refl)
  | inl agrees ↦
      let rest : skip_existing (values (take (length es) l)) es ≡ ok remaining = ground arith in
      let same : same_payload x e ≡ true = ground arith in
      let index : x.index ≡ e.index = ground arith in
      let eq : x ≡ e = eq_of_same_payload x e index (ground arith) same in
      let (m, a, b, c, d) = skip_existing_lem (suc i) l es remaining r.2 rest in
      let key : k ≡ e.index = omega arith in (suc m, omega arith, omega arith, c, cc)
]

-- The term before the place where the new entries go.
pub final_term-take :
    (t i j : ℕ) (l : List Row) (e : Entry)
    → IsRun i l
    → lookup j l ≡ some e
    → final_term t (take (suc j - i) l) ≡ e.term
unfolding lookup
final_term-take t i j [] e r found = absurd (ground arith)
final_term-take t i j ((k, x) ∷ l) e r found = elim (Bool-cases (j == k)) [
  | inl here ↦
      let n : suc j - i ≡ 1 = ground arith in let same : e ≡ x = ground arith in rw (n, same)
  | inr other ↦
      let later : lookup j l ≡ some e = ground arith in
      let ahead = lookup-eq-some (suc i) j l r.2 later in
      let n : suc j - i ≡ suc (suc j - suc i) = omega arith in
      rw n (final_term-take x.term (suc i) j l e r.2 later)
]

pub Climbs-append :
    (t : ℕ) (p s : List Row)
    → Climbs t p
    → Climbs (final_term t p) s
    → Climbs t (p ++ s) × (final_term t (p ++ s) ≡ final_term (final_term t p) s)
Climbs-append t [] s cp cs = (cs, refl)
Climbs-append t (row ∷ p) s cp cs =
    let (c, e) = Climbs-append row.1.term p s cp.2 cs in ((cp.0, cp.1, c), e)

pub Climbs-take : (t n : ℕ) (l : List Row) → Climbs t l → Climbs t (take n l)
Climbs-take t zero l c = tt
Climbs-take t (suc n) [] c = tt
Climbs-take t (suc n) (row ∷ l) c = (c.0, c.1, Climbs-take row.1.term n l c.2)

-- Writing entries over the rows from index `i` on and deleting what lies behind the last of them
-- leaves the rows before `i` and the entries.
pub overwrite_tail :
    (i n : ℕ) (p s : List Row) (es : List Entry)
    → IsBelow i p
    → IsRun i s
    → IsRunOf i es
    → length s ≤ length es + n
    → delete_range n (i + length es) (write_all es (p ++ s)) ≡ p ++ as_rows es
overwrite_tail i n p s es below run es_run le =
    let k = length es in
    let tail = drop k s in
    let front =
      IsBelow-append (i + k) p (as_rows es) (IsBelow-mono i (i + k) p (omega arith) below) (
        IsRun-IsBelow i (i + k) (as_rows es) (IsRun-as_rows i es es_run)
          (omega (arith, length-as_rows es))) in
    let gone : drop n tail ≡ [] = drop_of_length-le n tail (omega (arith, length-drop k s)) in
    rw (write_all-append_below i es p s below es_run, write_all_run i es s run es_run)
      (rw (← append_assoc p (as_rows es) tail) (
        delete_range-append_below n (i + k) (p ++ as_rows es) tail front
        ∙ rw (delete_range_run n (i + k) tail (IsRun-drop k i s run), gone)
            (append-nil (p ++ as_rows es))))
