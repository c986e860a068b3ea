-- ===== src/Log/Reach.antt =====
-- The operations of a log in any order, restarts among them, of raft/log.rs under src/.
use raft_rust.Base.{
  ℕ, ◌≤◌, ◌<◌, ◌≡◌, refl, ap, List, [], ◌∷◌, Option, none, some, ok, arith, Bool, one-lt-u64_limit,
  true, subst, sym,
}
use raft_rust.Membership.{MembershipEntry}
use raft_rust.Log.Entry.{Entry, Bytes}
use raft_rust.Log.Table.{empty}
use raft_rust.Log.Ops.{
  Log, get, new, set_term_vote, append_entry, commit, compact_to, reset_with_snapshot, raise_to,
  set_snapshot_data,
}
use raft_rust.Log.Splice.{splice}
use raft_rust.Log.Splice.Laws.{splice-IsWellFormed}
use raft_rust.Log.Keeps.{
  set_term_vote-IsWellFormed, append_entry-IsWellFormed, commit-IsWellFormed,
  reset_with_snapshot-IsWellFormed,
}
use raft_rust.Log.Compact.{compact_to-IsWellFormed}
use raft_rust.Log.Votes.{
  KeepsVote, KeepsVote-refl, KeepsVote-trans, SameVote-KeepsVote, set_term_vote_lem, append_vote,
  splice_vote, commit_vote, reset_vote, compact_vote,
}
use raft_rust.Log.Invariant.{IsWellFormed}
use raft_rust.Log.Recovery.{
  IsStored, new-engine, set_term_vote-IsStored, append_entry-IsStored, commit-IsStored,
  compact_to-IsStored, reset_with_snapshot-IsStored, splice-IsStored,
}

-- One operation that returns, with what the callers see to: a log is compacted through an entry
-- that it has, and a snapshot that is installed is not empty and not of a later term.
pub data Step (log log' : Log) : Type 0 where
  voted : (term : ℕ) (vote : Option ℕ) → set_term_vote log term vote ≡ ok log' → Step log log'
  appended :
      (command : Option Bytes) (membership : Option MembershipEntry) (n : ℕ)
      → append_entry log command membership ≡ ok (log', n)
      → Step log log'
  spliced : (entries : List Entry) (n : ℕ) → splice log entries ≡ ok (log', n) → Step log log'
  committed : (index n : ℕ) → commit log index ≡ ok (log', n) → Step log log'
  compacted :
      (index : ℕ) (e : Entry)
      → get log index ≡ some e
      → compact_to log index e.term ≡ ok log'
      → Step log log'
  installed :
      (index term : ℕ)
      → 0 < index
      → term ≤ log.term
      → reset_with_snapshot log index term ≡ ok log'
      → Step log log'
  restarted : new log.engine ≡ ok log' → Step log log'
  stored : (bytes : Bytes) → log' ≡ set_snapshot_data log bytes → Step log log'

pub data Reach (log : Log) : Log → Type 0 where
  here : Reach log log
  next : {b c : Log} → Reach log b → Step b c → Reach log c

pub record IsSound (log : Log) : Type 0 where
  pub formed : IsWellFormed log
  pub stored : IsStored log

pub fsync-IsSound :
    (log : Log) (fsync : Bool) → IsSound log → IsSound (record log { fsync = fsync })
unfolding raise_to
fsync-IsSound log fsync s =
    let w = s.formed in
    let t = s.stored in
    record {
      formed = record {
        first_pos = w.first_pos;
        first_fits = w.first_fits;
        last_fits = w.last_fits;
        run = w.run;
        ends = w.ends;
        climbs = w.climbs;
        last = w.last;
        current = w.current;
        cut = w.cut;
        committed = w.committed;
        uncut = w.uncut;
      };
      stored = record { term_vote = t.term_vote; base = t.base; commit_mark = t.commit_mark };
    }

data-IsSound : (log : Log) (bytes : Bytes) → IsSound log → IsSound (set_snapshot_data log bytes)
unfolding raise_to
data-IsSound log bytes s =
    let w = s.formed in
    let t = s.stored in
    record {
      formed = record {
        first_pos = w.first_pos;
        first_fits = w.first_fits;
        last_fits = w.last_fits;
        run = w.run;
        ends = w.ends;
        climbs = w.climbs;
        last = w.last;
        current = w.current;
        cut = w.cut;
        committed = w.committed;
        uncut = w.uncut;
      };
      stored = record { term_vote = t.term_vote; base = t.base; commit_mark = t.commit_mark };
    }

-- Each operation keeps the log sound.
pub Step-IsSound : {log log' : Log} → IsSound log → Step log log' → IsSound log'
Step-IsSound {log} s (voted term vote h) = record {
  formed = set_term_vote-IsWellFormed log term vote s.formed h;
  stored = set_term_vote-IsStored log term vote s.stored h;
}
Step-IsSound {log} s (appended command membership n h) = record {
  formed = append_entry-IsWellFormed log command membership s.formed h;
  stored = append_entry-IsStored log command membership s.stored h;
}
Step-IsSound {log} {log'} s (spliced [] n h) =
    let e : log ≡ log' = unfold splice in ground arith in subst IsSound e s
Step-IsSound {log} s (spliced (first ∷ rest) n h) = record {
  formed = splice-IsWellFormed log first rest s.formed h;
  stored = splice-IsStored log first rest s.stored h;
}
Step-IsSound {log} s (committed index n h) = record {
  formed = commit-IsWellFormed log index s.formed h;
  stored = commit-IsStored log index s.formed s.stored h;
}
Step-IsSound {log} s (compacted index e found h) = record {
  formed = compact_to-IsWellFormed log index e s.formed found h;
  stored = compact_to-IsStored log index e s.formed s.stored found h;
}
Step-IsSound {log} s (installed index term pos le h) = record {
  formed = reset_with_snapshot-IsWellFormed log index term pos le h;
  stored = reset_with_snapshot-IsStored log index term s.stored h;
}
Step-IsSound {log} {log'} s (restarted h) =
    let e : record log { fsync = true } ≡ log' = ground (arith, new-engine log s.formed s.stored) in
    subst IsSound e (fsync-IsSound log true s)
Step-IsSound {log} s (stored bytes e) = subst IsSound (sym e) (data-IsSound log bytes s)

pub Reach-IsSound : {log log' : Log} → IsSound log → Reach log log' → IsSound log'
Reach-IsSound s here = s
Reach-IsSound s (next r h) = Step-IsSound (Reach-IsSound s r) h

pub Reach-trans : {a b c : Log} → Reach a b → Reach b c → Reach a c
Reach-trans p here = p
Reach-trans p (next r h) = next (Reach-trans p r) h

pub Reach-of_eq : {log log' : Log} → log' ≡ log → Reach log log'
Reach-of_eq {log} e = subst (Reach log) (sym e) here

pub Step-KeepsVote : {log log' : Log} → IsSound log → Step log log' → KeepsVote log log'
Step-KeepsVote {log} s (voted term vote h) = (set_term_vote_lem log term vote h).0
Step-KeepsVote {log} s (appended command membership n h) =
    let e = append_vote log command membership h in SameVote-KeepsVote log _ e
Step-KeepsVote {log} s (spliced entries n h) = SameVote-KeepsVote log _ (splice_vote log entries h)
Step-KeepsVote {log} s (committed index n h) = SameVote-KeepsVote log _ (commit_vote log index h)
Step-KeepsVote {log} s (compacted index e found h) =
    SameVote-KeepsVote log _ (compact_vote log index e.term h)
Step-KeepsVote {log} s (installed index term pos le h) =
    SameVote-KeepsVote log _ (reset_vote log index term h)
Step-KeepsVote {log} {log'} s (restarted h) =
    let e : record log { fsync = true } ≡ log' = ground (arith, new-engine log s.formed s.stored) in
    SameVote-KeepsVote log log' (ap (λ (l : Log). l.term) (sym e), ap (λ (l : Log). l.vote) (sym e))
Step-KeepsVote {log} {log'} s (stored bytes e) =
    SameVote-KeepsVote log log' (ap (λ (l : Log). l.term) e, ap (λ (l : Log). l.vote) e)

-- Through any operations and restarts, from a sound log on, the term does not fall, and a vote that
-- was given stays within its term.
pub Reach-KeepsVote : {log log' : Log} → IsSound log → Reach log log' → KeepsVote log log'
Reach-KeepsVote {log} s here = KeepsVote-refl log
Reach-KeepsVote s (next r h) =
    KeepsVote-trans (Reach-KeepsVote s r) (Step-KeepsVote (Reach-IsSound s r) h)

-- The log of an empty engine.
abbrev pub fresh : Log
fresh = record {
  engine = empty;
  term = 0;
  vote = none;
  first_index = 1;
  snapshot_term = 0;
  last_index = 0;
  last_term = 0;
  commit_index = 0;
  commit_term = 0;
  fsync = true;
}

pub new-empty : new empty ≡ ok fresh
unfolding new
new-empty = refl

pub fresh-IsSound : IsSound fresh
unfolding raise_to
fresh-IsSound = record {
  formed = omega (arith, one-lt-u64_limit);
  stored = record { term_vote = refl; base = refl; commit_mark = refl };
}
