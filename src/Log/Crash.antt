-- ===== src/Log/Crash.antt =====
-- What a log has left after a crash: `Log` of raft/log.rs under src/ and its flushes.
use raft_rust.Base.{
  ℕ, ◌≡◌, refl, sym, ap, ◌∙◌, subst, inl, inr, ◌⊎◌, Bool, true, false, List, [], ◌∷◌, ok, arith,
  u64_add,
}
use raft_rust.Log.Entry.{Entry}
use raft_rust.Log.Table.{Table, Engine, lose, flush, flush_if}
use raft_rust.Log.Ops.{
  Log, new, set_term_vote, append_entry, commit, compact_to, reset_with_snapshot, enable_fsync,
}
use raft_rust.Log.Splice.{splice, write_remaining, last_of}
use raft_rust.Log.Splice.Shape.{splice-Passed}
use raft_rust.Log.Recovery.{new-engine}
use raft_rust.Log.Votes.{
  KeepsVote, KeepsVote-refl, KeepsVote-trans, SameVote, SameVote-KeepsVote, append_vote,
  splice_vote, commit_vote, reset_vote, compact_vote,
}
use raft_rust.Log.Reach.{
  Step, voted, appended, spliced, committed, compacted, installed, restarted, stored, IsSound,
  Step-IsSound, Step-KeepsVote, Reach, here, next, Reach-IsSound, fsync-IsSound, fresh,
  fresh-IsSound,
}

-- What the disk holds for certain opens to a sound log with the term and the vote.
pub record IsDurable (log : Log) : Type 0 where
  pub opened : Log
  pub opens : new (lose log.engine) ≡ ok opened
  pub sound : IsSound opened
  pub same : SameVote log opened

-- All is on disk.
IsFlushed : Log → Type 0
IsFlushed log = log.engine.durable ≡ log.engine.table

-- Either all is on disk, or the disk, the term and the vote are as they were.
Settles : Log → Log → Type 0
unfolding IsFlushed
Settles log log' = IsFlushed log' ⊎ ((log'.engine.durable ≡ log.engine.durable) × SameVote log log')

Settles-if :
    (log log' : Log)
    → SameVote log log'
    → (IsFlushed log') ⊎ (log'.engine.durable ≡ log.engine.durable)
    → Settles log log'
unfolding Settles
Settles-if log log' same (inl all) = inl all
Settles-if log log' same (inr kept) = inr (kept, same)

disk-flush_if :
    (b : Bool) (e : Engine)
    → ((flush_if b e).durable ≡ (flush_if b e).table) ⊎ ((flush_if b e).durable ≡ e.durable)
unfolding flush_if flush
disk-flush_if true e = inl refl
disk-flush_if false e = inr refl

splice-disk :
    (log : Log) (entries : List Entry) {p : Log × ℕ}
    → splice log entries ≡ ok p
    → (p.0.engine.durable ≡ p.0.engine.table) ⊎ (p.0.engine.durable ≡ log.engine.durable)
splice-disk log [] h = unfold splice in inr (ground arith)
splice-disk log (first ∷ rest) {p} h =
    let passed = splice-Passed log first rest h in go passed.remaining passed.written
  where
    go :
        (remaining : List Entry)
        → write_remaining log (last_of first rest) remaining ≡ ok p
        → (p.0.engine.durable ≡ p.0.engine.table) ⊎ (p.0.engine.durable ≡ log.engine.durable)
    go [] w = unfold write_remaining in ground arith
    go (r ∷ rs) w = unfold write_remaining flush_if flush u64_add in ground arith

Step-Settles : {log log' : Log} → IsSound log → Step log log' → Settles log log'
unfolding Settles IsFlushed flush flush_if
Step-Settles {log} {log'} s (voted term vote h) = unfold set_term_vote in ground arith
Step-Settles {log} {log'} s (appended command membership n h) =
    Settles-if log log' (append_vote log command membership h)
      (unfold append_entry u64_add in ground arith)
Step-Settles {log} {log'} s (spliced entries n h) =
    Settles-if log log' (splice_vote log entries h) (splice-disk log entries h)
Step-Settles {log} {log'} s (committed index n h) =
    Settles-if log log' (commit_vote log index h) (unfold commit in ground arith)
Step-Settles {log} {log'} s (compacted index e found h) =
    Settles-if log log' (compact_vote log index e.term h)
      (unfold compact_to u64_add in ground arith)
Step-Settles {log} {log'} s (installed index term pos le h) =
    Settles-if log log' (reset_vote log index term h)
      (unfold reset_with_snapshot u64_add in ground arith)
Step-Settles {log} {log'} s (restarted h) =
    let e : record log { fsync = true } ≡ log' = ground (arith, new-engine log s.formed s.stored) in
    inr (
      ap (λ (l : Log). l.engine.durable) (sym e),
      (ap (λ (l : Log). l.term) (sym e), ap (λ (l : Log). l.vote) (sym e)),
    )
Step-Settles {log} {log'} s (stored bytes e) =
    inr (
      ap (λ (l : Log). l.engine.durable) e,
      (ap (λ (l : Log). l.term) e, ap (λ (l : Log). l.vote) e),
    )

flushed-IsDurable : (log : Log) → IsSound log → IsFlushed log → IsDurable log
unfolding lose IsFlushed
flushed-IsDurable log s all = record {
  opened = record log { fsync = true };
  opens =
      ap (λ (t : Table). new (record { table = t; durable = t })) all
      ∙ ap (λ (t : Table). new (record { table = log.engine.table; durable = t })) (sym all)
      ∙ new-engine log s.formed s.stored;
  sound = fsync-IsSound log true s;
  same = (refl, refl);
}

pub Step-IsDurable : {log log' : Log} → IsSound log → IsDurable log → Step log log' → IsDurable log'
unfolding Settles lose
Step-IsDurable {log} {log'} s d step = elim (Step-Settles s step) [
  | inl all ↦ flushed-IsDurable log' (Step-IsSound s step) all
  | inr (kept, same) ↦ record {
    opened = d.opened;
    opens = ap (λ (t : Table). new (record { table = t; durable = t })) kept ∙ d.opens;
    sound = d.sound;
    same = (d.same.0 ∙ sym same.0, d.same.1 ∙ sym same.1);
  }
]

pub Reach-IsDurable :
    {log log' : Log} → IsSound log → IsDurable log → Reach log log' → IsDurable log'
Reach-IsDurable s d here = d
Reach-IsDurable s d (next r step) = Step-IsDurable (Reach-IsSound s r) (Reach-IsDurable s d r) step

pub fresh-IsDurable : IsDurable fresh
unfolding IsFlushed
fresh-IsDurable = flushed-IsDurable fresh fresh-IsSound refl

-- A start on what a log leaves behind: on all that was written, after its process has ended, or on
-- what was flushed, after a crash of the machine.
pub data Reopens (log log' : Log) : Type 0 where
  kept : new log.engine ≡ ok log' → Reopens log log'
  lost : new (lose log.engine) ≡ ok log' → Reopens log log'

engine-new : (e : Engine) {log : Log} → new e ≡ ok log → log.engine ≡ e
unfolding new u64_add
engine-new e h = ground arith

pub record IsKept (log log' : Log) : Type 0 where
  pub sound : IsSound log'
  pub durable : IsDurable log'
  pub votes : KeepsVote log log'

pub Reopens-IsKept :
    {log log' : Log} → IsSound log → IsDurable log → Reopens log log' → IsKept log log'
unfolding lose
Reopens-IsKept s d (kept h) = record {
  sound = Step-IsSound s (restarted h);
  durable = Step-IsDurable s d (restarted h);
  votes = Step-KeepsVote s (restarted h);
}
Reopens-IsKept {log} {log'} s d (lost h) =
    let both : ok d.opened ≡ ok log' = sym d.opens ∙ h in
    let is : d.opened ≡ log' = ground arith in
    let again : new (lose log'.engine) ≡ ok log' =
      ap (λ (e : Engine). new (lose e)) (engine-new (lose log.engine) h) ∙ h in
    record {
      sound = subst IsSound is d.sound;
      durable = record {
        opened = log';
        opens = again;
        sound = subst IsSound is d.sound;
        same = (refl, refl);
      };
      votes = SameVote-KeepsVote log log' (subst (SameVote log) is d.same);
    }

-- Any operations, restarts and crashes of a log; with `switching`, calls of `enable_fsync` too.
pub data Life (switching : Bool) (log : Log) : Log → Type 0 where
  begins : Life switching log log
  operates : {a b : Log} → Life switching log a → Step a b → Life switching log b
  reopens : {a b : Log} → Life switching log a → Reopens a b → Life switching log b
  switches :
      {a : Log} (fsync : Bool)
      → switching ≡ true
      → Life switching log a
      → Life switching log (enable_fsync a fsync)

pub Reach-Life :
    {switching : Bool} {log a b : Log} → Life switching log a → Reach a b → Life switching log b
Reach-Life l here = l
Reach-Life l (next r step) = operates (Reach-Life l r) step

-- Through any operations, whether or not they are flushed, any calls of `enable_fsync`, any restarts,
-- and any crashes that lose all that was not flushed, a log that was sound, and of which what is on disk
-- opens to a sound log of its term and vote, stays so; its term does not fall, and a vote that was
-- given stays within its term.
pub Life-IsKept :
    {switching : Bool} {log log' : Log}
    → IsSound log
    → IsDurable log
    → Life switching log log'
    → IsKept log log'
Life-IsKept {switching} {log} s d begins = record {
  sound = s;
  durable = d;
  votes = KeepsVote-refl log;
}
Life-IsKept s d (operates l step) =
    let before = Life-IsKept s d l in
    record {
      sound = Step-IsSound before.sound step;
      durable = Step-IsDurable before.sound before.durable step;
      votes = KeepsVote-trans before.votes (Step-KeepsVote before.sound step);
    }
Life-IsKept s d (reopens l again) =
    let before = Life-IsKept s d l in
    let after = Reopens-IsKept before.sound before.durable again in
    record {
      sound = after.sound;
      durable = after.durable;
      votes = KeepsVote-trans before.votes after.votes;
    }
Life-IsKept {switching} {log} s d (switches {a} fsync may l) =
    let before = Life-IsKept s d l in
    record {
      sound = fsync-IsSound a fsync before.sound;
      durable = record {
        opened = before.durable.opened;
        opens = before.durable.opens;
        sound = before.durable.sound;
        same = before.durable.same;
      };
      votes = record { term_le = before.votes.term_le; vote_stays = before.votes.vote_stays };
    }
