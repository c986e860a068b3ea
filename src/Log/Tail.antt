-- ===== src/Log/Tail.antt =====
-- The entries from an index on: `scan(index..)` of `Log::scan` in src/raft/log.rs.
use raft_rust.Base.{
  ℕ, zero, suc, ◌+◌, ◌-◌, ◌≤◌, ◌<◌, ◌≡◌, refl, sym, ap, ◌∙◌, List, [], ◌∷◌, some, arith, take, drop,
  length, get_elem?, u64_limit, take_of_length-le, length-drop, length-take, subst,
}
use raft_rust.Log.Entry.{Entry}
use raft_rust.Log.Table.{Row, lookup, values}
use raft_rust.Log.Ops.{Log, rows, get, scan, included, unbounded}
use raft_rust.Log.Rows.{IsRun, IsRunOf, IsRun-drop}
use raft_rust.Log.Invariant.{IsWellFormed}
use raft_rust.Log.Scan.{scan_within}
use raft_rust.Log.Compact.{lookup-drop}

values-IsRunOf : (m i : ℕ) (l : List Row) → IsRun i l → IsRunOf i (take m (values l))
values-IsRunOf zero i l r = tt
values-IsRunOf (suc m) i [] r = tt
values-IsRunOf (suc m) i (row ∷ l) r = (r.1, values-IsRunOf m (suc i) l r.2)

length-values : (l : List Row) → length (values l) ≡ length l
length-values [] = refl
length-values (row ∷ l) = ap suc (length-values l)

lookup_of_taken :
    (m i j : ℕ) (l : List Row) (e : Entry)
    → IsRun i l
    → get_elem? (take m (values l)) j ≡ some e
    → lookup (i + j) l ≡ some e
unfolding lookup
lookup_of_taken zero i j l e r at = absurd (ground arith)
lookup_of_taken (suc m) i j [] e r at = absurd (ground arith)
lookup_of_taken (suc m) i zero ((k, x) ∷ l) e r at = ground arith
lookup_of_taken (suc m) i (suc j) ((k, x) ∷ l) e r at =
    let later = lookup_of_taken m (suc i) j l e r.2 at in
    let n : suc i + j ≡ i + suc j = omega arith in
    let there : lookup (i + suc j) l ≡ some e = ap (λ t. lookup t l) (sym n) ∙ later in ground arith

module _ (log : Log) (w : IsWellFormed log) (a : ℕ) (lo : log.first_index ≤ a)
    (hi : a ≤ log.last_index + 1) (room : log.last_index + 1 < u64_limit) where
  scan_tail : scan log (included a) unbounded ≡ values (drop (a - log.first_index) (rows log))
  scan_tail =
      let k = a - log.first_index in
      let top = u64_limit - 1 in
      let fits : a ≤ top = omega arith in
      let within = scan_within log w a top fits lo hi in
      let all =
        take_of_length-le (suc top - a) (drop k (rows log))
          (omega (arith, length-drop k (rows log), w.ends)) in
      let same : scan log (included a) unbounded ≡ scan log (included a) (included top) =
        unfold scan in refl in
      same ∙ within ∙ ap values all

  -- What is taken from the end of a well-formed log has the next indices, and is in the log.
  pub tail_lem :
      (m : ℕ)
      → IsRunOf a (take m (scan log (included a) unbounded))
        × ((j : ℕ) (e : Entry)
            → get_elem? (take m (scan log (included a) unbounded)) j ≡ some e
            → get log (a + j) ≡ some e)
        × (a + length (take m (scan log (included a) unbounded)) ≤ log.last_index + 1)
  tail_lem m =
      let k = a - log.first_index in
      let at : log.first_index + k ≡ a = omega arith in
      let run = IsRun-drop k log.first_index (rows log) w.run in
      let behind : IsRun a (drop k (rows log)) = subst (λ i. IsRun i (drop k (rows log))) at run in
      rw scan_tail (
        values-IsRunOf m a (drop k (rows log)) behind,
        λ j e found.
            sym (lookup-drop k log.first_index (a + j) (rows log) w.run (omega arith))
            ∙ lookup_of_taken m a j (drop k (rows log)) e behind found,
        omega (
          arith,
          length-take m (values (drop k (rows log))),
          length-values (drop k (rows log)),
          length-drop k (rows log),
          w.ends,
        ),
      )
