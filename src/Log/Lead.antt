-- ===== src/Log/Lead.antt =====
-- The operations of a leader on its log: appends, commits and cuts (src/raft/log.rs).
use raft_rust.Base.{
  ℕ, ◌+◌, ◌≤◌, ◌≡◌, refl, sym, ap, ◌∙◌, subst, List, [], ◌∷◌, ◌++◌, Option, some, ok, arith, inl,
  inr, Option-cases, u64_add,
}
use raft_rust.Membership.{MembershipEntry}
use raft_rust.Log.Entry.{Entry, Bytes}
use raft_rust.Log.Table.{Row, lookup, flush_if}
use raft_rust.Log.Ops.{Log, get, rows, append_entry, commit, compact_to, set_snapshot_data}
use raft_rust.Log.Runs.{lookup-append_front, lookup-eq-some}
use raft_rust.Log.Keeps.{write-eq-append}
use raft_rust.Log.Compact.{compact_to_lem}
use raft_rust.Log.Votes.{compact_vote}
use raft_rust.Log.Reach.{
  Step, Reach, here, next, appended, committed, compacted, stored, IsSound, Reach-IsSound,
}

pub data LeadStep (log log' : Log) : Type 0 where
  adds :
      (command : Option Bytes) (membership : Option MembershipEntry) (n : ℕ)
      → append_entry log command membership ≡ ok (log', n)
      → LeadStep log log'
  commits : (index n : ℕ) → commit log index ≡ ok (log', n) → LeadStep log log'
  compacts :
      (index : ℕ) (e : Entry)
      → get log index ≡ some e
      → compact_to log index e.term ≡ ok log'
      → LeadStep log log'
  stores : (bytes : Bytes) → log' ≡ set_snapshot_data log bytes → LeadStep log log'

pub data LeadReach (log : Log) : Log → Type 0 where
  start : LeadReach log log
  more : {b c : Log} → LeadReach log b → LeadStep b c → LeadReach log c

pub LeadReach-trans : {a b c : Log} → LeadReach a b → LeadReach b c → LeadReach a c
LeadReach-trans p start = p
LeadReach-trans p (more r h) = more (LeadReach-trans p r) h

pub LeadStep-Step : {log log' : Log} → LeadStep log log' → Step log log'
LeadStep-Step (adds command membership n h) = appended command membership n h
LeadStep-Step (commits index n h) = committed index n h
LeadStep-Step (compacts index e found h) = compacted index e found h
LeadStep-Step (stores bytes h) = stored bytes h

pub LeadReach-Reach : {log log' : Log} → LeadReach log log' → Reach log log'
LeadReach-Reach start = here
LeadReach-Reach (more r h) = next (LeadReach-Reach r) (LeadStep-Step h)

-- The operations of a leader on a log that is sound.
abbrev pub Grows : Log → Log → Type 0
Grows log log' = IsSound log → LeadReach log log'

pub Grows-of_eq : {log log' : Log} → log' ≡ log → Grows log log'
Grows-of_eq {log} e s = subst (LeadReach log) (sym e) start

pub Grows-trans : {a b c : Log} → Grows a b → Grows b c → Grows a c
Grows-trans p q s = LeadReach-trans (p s) (q (Reach-IsSound s (LeadReach-Reach (p s))))

-- The log goes on: no entry is changed or lost but by a cut, the end, the start and the commit index
-- never move back, and the term and the vote stay.
pub record Extends (log log' : Log) : Type 0 where
  pub last_le : log.last_index ≤ log'.last_index
  pub first_le : log.first_index ≤ log'.first_index
  pub commit_le : log.commit_index ≤ log'.commit_index
  pub same_term : log'.term ≡ log.term
  pub same_vote : log'.vote ≡ log.vote
  pub kept : (j : ℕ) → log'.first_index ≤ j → j ≤ log.last_index → get log' j ≡ get log j

Extends-refl : (log : Log) → Extends log log
Extends-refl log = record {
  last_le = omega arith;
  first_le = omega arith;
  commit_le = omega arith;
  same_term = refl;
  same_vote = refl;
  kept = λ j a b. refl;
}

Extends-trans : {a b c : Log} → Extends a b → Extends b c → Extends a c
Extends-trans p q = record {
  last_le = omega (arith, p.last_le, q.last_le);
  first_le = omega (arith, p.first_le, q.first_le);
  commit_le = omega (arith, p.commit_le, q.commit_le);
  same_term = q.same_term ∙ p.same_term;
  same_vote = q.same_vote ∙ p.same_vote;
  kept =
      λ j lo hi. q.kept j lo (omega (arith, p.last_le)) ∙ p.kept j (omega (arith, q.first_le)) hi;
}

appended-Extends :
    (log : Log) (command : Option Bytes) (membership : Option MembershipEntry) (n : ℕ) {log' : Log}
    → IsSound log
    → append_entry log command membership ≡ ok (log', n)
    → Extends log log'
unfolding append_entry u64_add flush_if
appended-Extends log command membership n {log'} s h =
    let w = s.formed in
    let e : Entry = record {
      index = log.last_index + 1;
      term = log.term;
      command = command;
      membership = membership;
    } in
    let written = write-eq-append log e w in
    let added : List Row = (log.last_index + 1, e) ∷ [] in
    let result : rows log' ≡ rows log ++ added = ground (arith, written) in
    let first : log'.first_index ≡ log.first_index = ground arith in
    record {
      last_le = ground arith;
      first_le = omega arith;
      commit_le = ground arith;
      same_term = ground arith;
      same_vote = ground arith;
      kept = λ j lo hi.
          ap (lookup j) result
          ∙ lookup-append_front log.first_index j (rows log) added w.run (omega arith)
              (omega (arith, w.ends));
    }

committed-Extends :
    (log : Log) (index n : ℕ) {log' : Log}
    → IsSound log
    → commit log index ≡ ok (log', n)
    → Extends log log'
unfolding commit
committed-Extends log index n {log'} s h = elim (Option-cases (get log index)) [
  | inl missing ↦ absurd (ground arith)
  | inr (e, found) ↦ record {
    last_le = ground arith;
    first_le = ground arith;
    commit_le = ground (arith, lookup-eq-some log.first_index index (rows log) s.formed.run found);
    same_term = ground arith;
    same_vote = ground arith;
    kept = λ j lo hi. let same : rows log' ≡ rows log = ground arith in ap (lookup j) same;
  }
]

compacted-Extends :
    (log : Log) (index : ℕ) (e : Entry) {log' : Log}
    → IsSound log
    → get log index ≡ some e
    → compact_to log index e.term ≡ ok log'
    → Extends log log'
compacted-Extends log index e {log'} s found h =
    let (first, last, commits_same, later, gone, base) =
      compact_to_lem log index e s.formed found h in
    let vote = compact_vote log index e.term h in
    let at = lookup-eq-some log.first_index index (rows log) s.formed.run found in
    record {
      last_le = omega arith;
      first_le = omega arith;
      commit_le = omega (arith, commits_same);
      same_term = vote.0;
      same_vote = vote.1;
      kept = λ j lo hi. later j (omega arith);
    }

pub LeadStep-Extends : {log log' : Log} → IsSound log → LeadStep log log' → Extends log log'
LeadStep-Extends {log} s (adds command membership n h) =
    appended-Extends log command membership n s h
LeadStep-Extends {log} s (commits index n h) = committed-Extends log index n s h
LeadStep-Extends {log} s (compacts index e found h) = compacted-Extends log index e s found h
LeadStep-Extends {log} {log'} s (stores bytes h) = record {
  last_le = omega (arith, ap (λ (l : Log). l.last_index) h);
  first_le = omega (arith, ap (λ (l : Log). l.first_index) h);
  commit_le = omega (arith, ap (λ (l : Log). l.commit_index) h);
  same_term = ap (λ (l : Log). l.term) h;
  same_vote = ap (λ (l : Log). l.vote) h;
  kept = λ j lo hi. ap (λ (l : Log). lookup j (rows l)) h;
}

-- What a leader's operations make of a sound log is an extension of it.
pub LeadReach-Extends : {log log' : Log} → IsSound log → LeadReach log log' → Extends log log'
LeadReach-Extends {log} s start = Extends-refl log
LeadReach-Extends s (more r h) =
    Extends-trans (LeadReach-Extends s r) (LeadStep-Extends (Reach-IsSound s (LeadReach-Reach r)) h)
