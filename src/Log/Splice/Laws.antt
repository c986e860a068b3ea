-- ===== src/Log/Splice/Laws.antt =====
-- What `splice` promises: the invariant, the new entries, and the committed ones.
use raft_rust.Base.{
  ℕ, suc, ◌+◌, ◌-◌, ◌≤◌, ◌<◌, ◌≡◌, sym, ap, subst, ◌∙◌, List, ◌∷◌, ◌++◌, length, some, ok, arith,
  take, drop, inl, inr, ltb, Bool-cases, Option-cases, get_elem?, get_elem?-lt, length-append,
  length-take, take-append-drop, u64_limit,
}
use mathlib.Core.List.{append_assoc}
use raft_rust.Log.Entry.{Entry}
use raft_rust.Log.Table.{Row, lookup}
use raft_rust.Log.Ops.{Log, rows, get}
use raft_rust.Log.Rows.{
  IsRun, IsRun-take, IsRun-as_rows, IsRun-append, as_rows, IsBelow-mono, length-as_rows,
  as_rows-append, lookup-append_below,
}
use raft_rust.Log.Runs.{lookup-eq-some, lookup_before_run, lookup-append_front, lookup-as_rows}
use raft_rust.Log.Scan.{rows_split}
use raft_rust.Log.Invariant.{final_term, IsWellFormed}
use raft_rust.Log.Splice.{last_of, check_base, splice}
use raft_rust.Log.Splice.Parts.{
  is_contiguous-IsRunOf, terms_ascend-Climbs, final_term-take, Climbs-append, Climbs-take,
}
use raft_rust.Log.Splice.Shape.{
  Passed, splice-Passed, present, joined, splice-Spliced, starts_within,
}

-- The term before the new entries is no larger than their first.
base_term :
    (log : Log) (first : Entry) (rest : List Entry) {p : Log × ℕ}
    → IsWellFormed log
    → Passed log first rest p
    → final_term log.snapshot_term (take (first.index - log.first_index) (rows log)) ≤ first.term
unfolding check_base
base_term log first rest w h = elim (Option-cases (get log (first.index - 1))) [
  | inr (base, found) ↦
      let at = lookup-eq-some log.first_index (first.index - 1) (rows log) w.run found in
      let n : suc (first.index - 1) - log.first_index ≡ first.index - log.first_index =
        omega (arith, h.index_pos) in
      let end : final_term log.snapshot_term (take (first.index - log.first_index) (rows log))
          ≡ base.term =
        rw (← n) (
          final_term-take log.snapshot_term log.first_index (first.index - 1) (rows log) base w.run
            found) in
      rw end (ground (arith, h.base))
  | inl missing ↦
      let one : first.index ≡ 1 = ground (arith, h.base) in
      let lo = (starts_within log first rest w h).0 in
      let n : first.index - log.first_index ≡ 0 = omega (arith, w.first_pos) in
      rw n (omega (arith, w.uncut (omega (arith, w.first_pos))))
]

old_rows : (p s : List Row) (m : ℕ) (l : List Row) → l ≡ p ++ s → l ≡ (p ++ take m s) ++ drop m s
old_rows p s m l h =
    h
    ∙ ap (λ (t : List Row). p ++ t) (sym (take-append-drop m s))
    ∙ sym (append_assoc p (take m s) (drop m s))

new_rows :
    (p : List Row) (es : List Entry) (m : ℕ)
    → p ++ as_rows es ≡ (p ++ as_rows (take m es)) ++ as_rows (drop m es)
new_rows p es m =
    ap (λ (t : List Row). p ++ t)
      (ap as_rows (sym (take-append-drop m es)) ∙ as_rows-append (take m es) (drop m es))
    ∙ sym (append_assoc p (as_rows (take m es)) (as_rows (drop m es)))

module _ (log : Log) (first : Entry) (rest : List Entry) {p : Log × ℕ} (w : IsWellFormed log)
    (done : splice log (first ∷ rest) ≡ ok p) where
  joined-IsWellFormed :
      rows p.0 ≡ take (first.index - log.first_index) (rows log) ++ as_rows (first ∷ rest)
      → p.0 ≡ record log {
        engine = p.0.engine;
        last_index = (last_of first rest).index;
        last_term = (last_of first rest).term;
      }
      → p.1 ≡ (last_of first rest).index
      → p.1 < u64_limit
      → log.commit_index ≤ (last_of first rest).index
      → IsWellFormed p.0
  joined-IsWellFormed result frame returned bound behind =
      let h = splice-Passed log first rest done in
      let k = first.index - log.first_index in
      let (run_of, end) = is_contiguous-IsRunOf first rest h.contiguous in
      let (lo, hi) = starts_within log first rest w h in
      let front = take k (rows log) in
      let size : length front ≡ k = omega (arith, length-take k (rows log), w.ends) in
      let at : first.index ≡ log.first_index + length front = omega arith in
      let entries = as_rows (first ∷ rest) in
      let run =
        IsRun-append log.first_index front entries (IsRun-take k log.first_index (rows log) w.run)
          (subst (λ i. IsRun i entries) at (IsRun-as_rows first.index (first ∷ rest) run_of)) in
      let t = final_term log.snapshot_term front in
      let (climbs, final) =
        terms_ascend-Climbs t first rest h.ascend (base_term log first rest w h) h.term_pos in
      let (all_climb, all_final) =
        Climbs-append log.snapshot_term front entries
          (Climbs-take log.snapshot_term k (rows log) w.climbs) climbs in
      ground (
        arith,
        run,
        all_climb,
        all_final,
        final,
        h.current,
        length-append front entries,
        length-as_rows rest,
        size,
        at,
        end,
        frame,
        result,
      )

  first_index-splice : p.0.first_index ≡ log.first_index
  first_index-splice = elim (splice-Spliced log first rest w (splice-Passed log first rest done)) [
    | present same held ↦ ap (λ (q : Log × ℕ). q.0.first_index) same
    | joined m le uncommitted held result frame returned bound ↦
        ap (λ (l : Log). l.first_index) frame
  ]

  -- When `splice` returns on a well-formed log, the log is well formed again.
  pub splice-IsWellFormed : IsWellFormed p.0
  splice-IsWellFormed = elim (splice-Spliced log first rest w (splice-Passed log first rest done)) [
    | present same held ↦ subst (λ (q : Log × ℕ). IsWellFormed q.0) (sym same) w
    | joined m le uncommitted held result frame returned bound ↦
        joined-IsWellFormed result frame returned bound (
          omega (
            arith,
            (is_contiguous-IsRunOf first rest (splice-Passed log first rest done).contiguous).1,
          ))
  ]

  -- What lies below index `i` stays, where both logs begin with the same rows up to there.
  same_below :
      (q x y : List Row) (j : ℕ)
      → rows log ≡ q ++ x
      → rows p.0 ≡ q ++ y
      → IsRun log.first_index q
      → j < log.first_index + length q
      → get p.0 j ≡ get log j
  same_below q x y j old new run lt = elim (Bool-cases (ltb j log.first_index)) [
    | inl early ↦
        let before : j < log.first_index = ground arith in
        let same : p.0.first_index ≡ log.first_index = first_index-splice in
        lookup_before_run p.0.first_index j (rows p.0) splice-IsWellFormed.run (omega arith)
        ∙ sym (lookup_before_run log.first_index j (rows log) w.run before)
    | inr within ↦
        let after : log.first_index ≤ j = ground arith in
        rw (old, new)
          (lookup-append_front log.first_index j q y run after lt
            ∙ sym (lookup-append_front log.first_index j q x run after lt))
  ]

  -- When `splice` returns on a well-formed log, what lies below the first new index stays.
  get-splice_before : (j : ℕ) → j < first.index → get p.0 j ≡ get log j
  get-splice_before j lt =
      let h = splice-Passed log first rest done in
      let k = first.index - log.first_index in
      let (lo, hi) = starts_within log first rest w h in
      let split = sym (take-append-drop k (rows log)) in
      elim (splice-Spliced log first rest w h) [
        | present same held ↦ ap (λ (q : Log × ℕ). get q.0 j) same
        | joined m le uncommitted held result frame returned bound ↦
            same_below (take k (rows log)) (drop k (rows log)) (as_rows (first ∷ rest)) j split
              result (IsRun-take k log.first_index (rows log) w.run)
              (omega (arith, length-take k (rows log), w.ends))
      ]

  kept-IsRun :
      (m : ℕ)
      → IsRun log.first_index (
          take (first.index - log.first_index) (rows log)
          ++ take m (drop (first.index - log.first_index) (rows log)))
  kept-IsRun m =
      let h = splice-Passed log first rest done in
      let k = first.index - log.first_index in
      let (lo, hi) = starts_within log first rest w h in
      let (below, run) = rows_split log w first.index first.index (omega arith) lo hi in
      let at : first.index ≡ log.first_index + length (take k (rows log)) =
        omega (arith, length-take k (rows log), w.ends) in
      IsRun-append log.first_index (take k (rows log)) (take m (drop k (rows log)))
        (IsRun-take k log.first_index (rows log) w.run)
        (subst (λ i. IsRun i (take m (drop k (rows log)))) at
          (IsRun-take m first.index (drop k (rows log)) run))

  -- When `splice` returns on a well-formed log, every entry up to the commit index stays.
  pub get-splice_committed : (j : ℕ) → j ≤ log.commit_index → get p.0 j ≡ get log j
  get-splice_committed j le =
      let h = splice-Passed log first rest done in
      let k = first.index - log.first_index in
      let entries = first ∷ rest in
      let (run_of, end) = is_contiguous-IsRunOf first rest h.contiguous in
      let (lo, hi) = starts_within log first rest w h in
      let (below, run) = rows_split log w first.index first.index (omega arith) lo hi in
      let front = take k (rows log) in
      let s = drop k (rows log) in
      elim (splice-Spliced log first rest w h) [
        | present same held ↦ ap (λ (q : Log × ℕ). get q.0 j) same
        | joined m fits uncommitted held result frame returned bound ↦
            same_below (front ++ take m s) (drop m s) (as_rows (drop m entries)) j
              (old_rows front s m (rows log) (sym (take-append-drop k (rows log))))
              (result
                ∙ new_rows front entries m
                ∙ ap (λ (l : List Row). (front ++ l) ++ as_rows (drop m entries)) (sym held))
              (kept-IsRun m)
              (omega (
                arith,
                length-append front (take m s),
                length-take k (rows log),
                ap length held ∙ length-as_rows (take m entries),
                length-take m entries,
                w.ends,
              ))
      ]

  -- When `splice` returns on a well-formed log, every new entry is in the log, at its place.
  pub get-splice_new :
      (n : ℕ) (e : Entry) → get_elem? (first ∷ rest) n ≡ some e → get p.0 (first.index + n) ≡ some e
  get-splice_new n e at =
      let h = splice-Passed log first rest done in
      let k = first.index - log.first_index in
      let last = (last_of first rest).index in
      let entries = first ∷ rest in
      let (run_of, end) = is_contiguous-IsRunOf first rest h.contiguous in
      let (lo, hi) = starts_within log first rest w h in
      let (below, run) = rows_split log w first.index last (omega arith) lo hi in
      let front =
        IsBelow-mono first.index (first.index + n) (take k (rows log)) (omega arith) below in
      let found = lookup-as_rows first.index n entries e run_of at in
      elim (splice-Spliced log first rest w h) [
        | present same held ↦
            let s = drop k (rows log) in
            let c = suc (length rest) in
            let kept : s ≡ as_rows entries ++ drop c s =
              sym (take-append-drop c s) ∙ ap (λ (l : List Row). l ++ drop c s) held in
            ap (λ (q : Log × ℕ). get q.0 (first.index + n)) same
            ∙ ap (lookup (first.index + n)) (sym (take-append-drop k (rows log)))
            ∙ lookup-append_below (first.index + n) (take k (rows log)) s front
            ∙ ap (lookup (first.index + n)) kept
            ∙ lookup-append_front first.index (first.index + n) (as_rows entries) (drop c s)
                (IsRun-as_rows first.index entries run_of) (omega arith)
                (omega (arith, get_elem?-lt entries n at, length-as_rows entries))
            ∙ found
        | joined m le uncommitted held result frame returned bound ↦
            ap (lookup (first.index + n)) result
            ∙ lookup-append_below (first.index + n) (take k (rows log)) (as_rows entries) front
            ∙ found
      ]
