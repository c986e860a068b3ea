-- ===== src/Log/Splice/Shape.antt =====
-- What a `splice` that returns has done to the rows of the log.
use raft_rust.Base.{
  ℕ, suc, ◌+◌, ◌-◌, ◌≤◌, ◌<◌, ◌≡◌, sym, ap, subst, ◌∙◌, List, [], ◌∷◌, ◌++◌, length, ok, arith,
  take, drop, true, inl, inr, Bool-cases, Option-cases, ltb, leb, take_of_length-le, length-drop,
  length-take, take-append-drop, assert-eq-ok, >>=-eq-ok, u64_add, u64_limit, ◌&&◌,
}
use mathlib.Core.List.{append_assoc}
use raft_rust.Log.Entry.{Entry}
use raft_rust.Log.Table.{Row, delete_range, write_all, values, flush_if}
use raft_rust.Log.Ops.{Log, rows, get, scan, included}
use raft_rust.Log.Rows.{
  IsRun, IsRunOf, IsBelow, IsRun-drop, IsRun-take, IsRun-IsBelow, as_rows, IsBelow-append,
  IsBelow-mono, IsRunOf-drop, as_rows-append,
}
use raft_rust.Log.Runs.{lookup-eq-some}
use raft_rust.Log.Scan.{scan_front, rows_split, scan_within}
use raft_rust.Log.Invariant.{IsWellFormed}
use raft_rust.Log.Splice.{
  last_of, is_contiguous, terms_ascend, check_base, skip_existing, splice, write_remaining,
}
use raft_rust.Log.Splice.Parts.{is_contiguous-IsRunOf, skip_existing_lem, overwrite_tail}

-- The checks that the entries passed, and the calls that were made with them.
pub record Passed (log : Log) (first : Entry) (rest : List Entry) (p : Log × ℕ) : Type 0 where
  pub index_pos : 0 < first.index
  pub term_pos : 0 < first.term
  pub contiguous : is_contiguous first rest ≡ true
  pub ascend : terms_ascend first rest ≡ true
  pub current : (last_of first rest).term ≤ log.term
  pub base : check_base first (get log (first.index - 1)) ≡ ok tt
  pub remaining : List Entry
  pub skipped :
      skip_existing
        (scan log (included first.index) (included (last_of first rest).index))
        (first ∷ rest)
      ≡ ok remaining
  pub written : write_remaining log (last_of first rest) remaining ≡ ok p

pub splice-Passed :
    (log : Log) (first : Entry) (rest : List Entry) {p : Log × ℕ}
    → splice log (first ∷ rest) ≡ ok p
    → Passed log first rest p
unfolding splice
splice-Passed log first rest h =
    let (pos, h1) = assert-eq-ok (ltb 0 first.index && ltb 0 first.term) _ h in
    let (contiguous, h2) = assert-eq-ok (is_contiguous first rest) _ h1 in
    let (ascend, h3) = assert-eq-ok (terms_ascend first rest) _ h2 in
    let (current, h4) = assert-eq-ok (leb (last_of first rest).term log.term) _ h3 in
    let (u, base, h5) = >>=-eq-ok (check_base first (get log (first.index - 1))) _ h4 in
    let (remaining, skipped, written) = >>=-eq-ok _ _ h5 in
    record {
      index_pos = ground arith;
      term_pos = ground arith;
      contiguous = contiguous;
      ascend = ascend;
      current = ground arith;
      base = base;
      remaining = remaining;
      skipped = skipped;
      written = written;
    }

-- Entries from index 1 on are refused where the log begins later.
not_cut_off :
    (log : Log) (first : Entry) (rest remaining : List Entry) {p : Log × ℕ} (l : List Row)
    → IsWellFormed log
    → first.index ≡ 1
    → 1 < log.first_index
    → IsRun log.first_index l
    → skip_existing (values l) (first ∷ rest) ≡ ok remaining
    → write_remaining log (last_of first rest) remaining ≡ ok p
    → ⊥
unfolding skip_existing write_remaining
not_cut_off log first rest remaining [] w one later run skipped written = ground arith
not_cut_off log first rest remaining (row ∷ l) w one later run skipped written = ground arith

-- The new entries begin within the log or directly behind it.
pub starts_within :
    (log : Log) (first : Entry) (rest : List Entry) {p : Log × ℕ}
    → IsWellFormed log
    → Passed log first rest p
    → (log.first_index ≤ first.index) × (first.index ≤ log.last_index + 1)
unfolding check_base
starts_within log first rest w h = elim (Option-cases (get log (first.index - 1))) [
  | inr (base, found) ↦
      let at = lookup-eq-some log.first_index (first.index - 1) (rows log) w.run found in
      let pos = h.index_pos in (omega arith, omega arith)
  | inl missing ↦
      let one : first.index ≡ 1 = ground (arith, h.base) in
      elim (Bool-cases (ltb 1 log.first_index)) [
        | inr early ↦ (ground arith, omega (arith, w.first_pos))
        | inl later ↦
            let last = (last_of first rest).index in
            let end = (is_contiguous-IsRunOf first rest h.contiguous).1 in
            let front = take (suc last - log.first_index) (rows log) in
            let late : 1 < log.first_index = ground arith in
            let all = scan_front log w first.index last (omega arith) (omega arith) in
            absurd (
              not_cut_off log first rest h.remaining front w one late
                (IsRun-take _ log.first_index (rows log) w.run) (rw (← all) h.skipped) h.written)
      ]
]

-- After a splice that returns, either the log had the entries already and is unchanged, or its rows
-- are those before the first entry and the entries; the first of them that was not there already
-- lies behind the commit index, and but for the end of the log nothing else has changed.
pub data Spliced (log : Log) (first : Entry) (rest : List Entry) (p : Log × ℕ) : Type 0 where
  present :
      p ≡ (log, log.last_index)
      → take (suc (length rest)) (drop (first.index - log.first_index) (rows log))
        ≡ as_rows (first ∷ rest)
      → Spliced log first rest p
  joined :
      (m : ℕ)
      → m ≤ length rest
      → log.commit_index < first.index + m
      → take m (drop (first.index - log.first_index) (rows log)) ≡ as_rows (take m (first ∷ rest))
      → rows p.0 ≡ take (first.index - log.first_index) (rows log) ++ as_rows (first ∷ rest)
      → p.0 ≡ record log {
        engine = p.0.engine;
        last_index = (last_of first rest).index;
        last_term = (last_of first rest).term;
      }
      → p.1 ≡ (last_of first rest).index
      → p.1 < u64_limit
      → Spliced log first rest p

-- What is written for the entries that were not there.
write_remaining_lem :
    (log : Log) (last r : Entry) (rs : List Entry) {p : Log × ℕ}
    → write_remaining log last (r ∷ rs) ≡ ok p
    → (log.commit_index < r.index)
      × (rows p.0
          ≡ delete_range
              (log.last_index - last.index)
              (last.index + 1)
              (write_all (r ∷ rs) (rows log)))
      × (p.0 ≡ record log { engine = p.0.engine; last_index = last.index; last_term = last.term })
      × (p.1 ≡ last.index)
      × (last.index < u64_limit)
unfolding write_remaining u64_add flush_if
write_remaining_lem log last r rs h = ground arith

-- The rows that result, where `m` entries were there and `remaining` are written.
written_rows :
    (i m n : ℕ) (p s : List Row) (es remaining : List Entry)
    → IsBelow i p
    → IsRun i s
    → IsRunOf i es
    → m ≤ length s
    → take m s ≡ as_rows (take m es)
    → remaining ≡ drop m es
    → length s ≤ m + length remaining + n
    → delete_range n (i + m + length remaining) (write_all remaining (p ++ s)) ≡ p ++ as_rows es
written_rows i m n p s es remaining below run run_of fits same left le =
    let kept = take m s in
    let split : p ++ s ≡ (p ++ kept) ++ drop m s =
      ap (λ (t : List Row). p ++ t) (sym (take-append-drop m s))
      ∙ sym (append_assoc p kept (drop m s)) in
    let front =
      IsBelow-append (i + m) p kept (IsBelow-mono i (i + m) p (omega arith) below)
        (IsRun-IsBelow i (i + m) kept (IsRun-take m i s run) (omega (arith, length-take m s))) in
    let run_left : IsRunOf (i + m) remaining = rw left (IsRunOf-drop m i es run_of) in
    rw split (
      overwrite_tail (i + m) n (p ++ kept) (drop m s) remaining front (IsRun-drop m i s run)
        run_left (omega (arith, length-drop m s))
      ∙ append_assoc p kept (as_rows remaining)
      ∙ rw (same, left)
          (ap (λ (t : List Row). p ++ t)
            (sym (as_rows-append (take m es) (drop m es)) ∙ ap as_rows (take-append-drop m es))))

module _ (log : Log) (first : Entry) (rest : List Entry) {p : Log × ℕ} (w : IsWellFormed log) where
  finish :
      (m : ℕ) (remaining : List Entry)
      → Passed log first rest p
      → IsBelow first.index (take (first.index - log.first_index) (rows log))
      → IsRun first.index (drop (first.index - log.first_index) (rows log))
      → m ≤ suc (length rest)
      → m ≤ length (drop (first.index - log.first_index) (rows log))
      → remaining ≡ drop m (first ∷ rest)
      → take m (drop (first.index - log.first_index) (rows log)) ≡ as_rows (take m (first ∷ rest))
      → write_remaining log (last_of first rest) remaining ≡ ok p
      → Spliced log first rest p
  finish m [] h below run le fits left same written =
      let entries = first ∷ rest in
      let none_left : suc (length rest) - m ≡ 0 =
        sym (length-drop m entries) ∙ ap length (sym left) in
      let all : m ≡ suc (length rest) = omega arith in
      let whole : take (suc (length rest)) entries ≡ entries =
        take_of_length-le (suc (length rest)) entries (omega arith) in
      let held : take (suc (length rest)) (drop (first.index - log.first_index) (rows log))
          ≡ as_rows (take (suc (length rest)) entries) =
        subst
          (λ c. take c (drop (first.index - log.first_index) (rows log)) ≡ as_rows (take c entries))
          all same in
      present (unfold write_remaining in ground arith) (held ∙ ap as_rows whole)
  finish m (r ∷ rs) h below run le fits left same written =
      let entries = first ∷ rest in
      let k = first.index - log.first_index in
      let last = last_of first rest in
      let (run_of, end) = is_contiguous-IsRunOf first rest h.contiguous in
      let left_over : suc (length rs) ≡ suc (length rest) - m =
        ap length left ∙ length-drop m entries in
      let at : r.index ≡ first.index + m =
        (subst (λ l. IsRunOf (first.index + m) l) (sym left)
          (IsRunOf-drop m first.index entries run_of)).0 in
      let (uncommitted, result, frame, returned, bound) =
        write_remaining_lem log last r rs written in
      let n = log.last_index - last.index in
      let behind : last.index + 1 ≡ first.index + m + suc (length rs) = omega arith in
      let split : rows log ≡ take k (rows log) ++ drop k (rows log) =
        sym (take-append-drop k (rows log)) in
      let joined_rows : rows p.0 ≡ take k (rows log) ++ as_rows entries =
        result
        ∙ rw behind (
            ap
              (λ (l : List Row).
                delete_range n (first.index + m + suc (length rs)) (write_all (r ∷ rs) l))
              split
            ∙ written_rows first.index m n (take k (rows log)) (drop k (rows log)) entries (r ∷ rs)
                below run run_of fits same left
                (omega (arith, length-drop k (rows log), w.ends))) in
      joined m (omega arith) (omega arith) same joined_rows frame returned (omega arith)

pub splice-Spliced :
    (log : Log) (first : Entry) (rest : List Entry) {p : Log × ℕ}
    → IsWellFormed log
    → Passed log first rest p
    → Spliced log first rest p
splice-Spliced log first rest {p} w h =
    let k = first.index - log.first_index in
    let (run_of, end) = is_contiguous-IsRunOf first rest h.contiguous in
    let last = (last_of first rest).index in
    let (lo, hi) = starts_within log first rest w h in
    let (below, run) = rows_split log w first.index last (omega arith) lo hi in
    let n : suc last - first.index ≡ suc (length rest) = omega arith in
    let scanned = scan_within log w first.index last (omega arith) lo hi in
    let (m, le, fits, left, same) =
      skip_existing_lem first.index (drop k (rows log)) (first ∷ rest) h.remaining run
        (rw (← n, ← scanned) h.skipped) in
    finish log first rest w m h.remaining h below run le fits left same h.written
