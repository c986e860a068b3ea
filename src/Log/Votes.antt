-- ===== src/Log/Votes.antt =====
-- The term and the vote of a log under its operations.
use raft_rust.Base.{
  ℕ, ◌≤◌, ◌≡◌, ◌≢◌, refl, List, [], ◌∷◌, Option, none, ok, arith, u64_add, ◌∙◌, ◌⊎◌,
}
use raft_rust.Membership.{MembershipEntry}
use raft_rust.Log.Entry.{Entry, Bytes}
use raft_rust.Log.Table.{flush}
use raft_rust.Log.Ops.{
  Log, set_term_vote, commit, reset_with_snapshot, append_entry, compact_to, unwrap_or,
}
use raft_rust.Log.Splice.{splice, write_remaining, last_of}
use raft_rust.Log.Splice.Shape.{splice-Passed}

-- The term does not fall, and within a term a vote that was given stays.
pub record KeepsVote (log log' : Log) : Type 0 where
  pub term_le : log.term ≤ log'.term
  pub vote_stays : log'.term ≡ log.term → log.vote ≢ none → log'.vote ≡ log.vote

pub KeepsVote-refl : (log : Log) → KeepsVote log log
KeepsVote-refl log = record { term_le = omega arith; vote_stays = λ e h. refl }

pub KeepsVote-trans : {a b c : Log} → KeepsVote a b → KeepsVote b c → KeepsVote a c
KeepsVote-trans {a} {b} {c} p q = record {
  term_le = omega (arith, p.term_le, q.term_le);
  vote_stays = λ e h.
      let ab : b.term ≡ a.term = omega (arith, p.term_le, q.term_le) in
      let bc : c.term ≡ b.term = omega (arith, p.term_le, q.term_le) in
      let same = p.vote_stays ab h in
      let given : b.vote ≢ none = λ no_vote. h (cc) in q.vote_stays bc given ∙ same;
}

-- The term and the vote are the same.
abbrev pub SameVote : Log → Log → Type 0
SameVote log log' = (log'.term ≡ log.term) × (log'.vote ≡ log.vote)

pub SameVote-KeepsVote : (log log' : Log) → SameVote log log' → KeepsVote log log'
SameVote-KeepsVote log log' s = record { term_le = omega arith; vote_stays = λ e g. s.1 }

-- A call of `set_term_vote` that returns keeps the votes, has set what it was asked to, and has it
-- on disk before it returns if anything is new.
pub set_term_vote_lem :
    (log : Log) (term : ℕ) (vote : Option ℕ) {log' : Log}
    → set_term_vote log term vote ≡ ok log'
    → KeepsVote log log'
      × (log'.term ≡ term)
      × (log'.vote ≡ vote)
      × ((log' ≡ log) ⊎ (unwrap_or (0, none) log'.engine.durable.term_vote ≡ (term, vote)))
unfolding set_term_vote flush
set_term_vote_lem log term vote h = (
  record { term_le = ground arith; vote_stays = λ e g. ground arith },
  ground arith,
  ground arith,
  ground arith,
)

-- The other operations leave both alone.
pub splice_vote :
    (log : Log) (entries : List Entry) {p : Log × ℕ}
    → splice log entries ≡ ok p
    → (p.0.term ≡ log.term) × (p.0.vote ≡ log.vote)
splice_vote log [] h = unfold splice in ground arith
splice_vote log (first ∷ rest) {p} h =
    let passed = splice-Passed log first rest h in go passed.remaining passed.written
  where
    go :
        (remaining : List Entry)
        → write_remaining log (last_of first rest) remaining ≡ ok p
        → (p.0.term ≡ log.term) × (p.0.vote ≡ log.vote)
    go [] w = unfold write_remaining in ground arith
    go (r ∷ rs) w = unfold write_remaining u64_add in ground arith

pub commit_vote :
    (log : Log) (index : ℕ) {p : Log × ℕ}
    → commit log index ≡ ok p
    → (p.0.term ≡ log.term) × (p.0.vote ≡ log.vote)
unfolding commit
commit_vote log index h = ground arith

pub reset_vote :
    (log : Log) (index term : ℕ) {log' : Log}
    → reset_with_snapshot log index term ≡ ok log'
    → (log'.term ≡ log.term) × (log'.vote ≡ log.vote)
unfolding reset_with_snapshot u64_add
reset_vote log index term h = ground arith

pub append_vote :
    (log : Log) (command : Option Bytes) (membership : Option MembershipEntry) {p : Log × ℕ}
    → append_entry log command membership ≡ ok p
    → (p.0.term ≡ log.term) × (p.0.vote ≡ log.vote)
unfolding append_entry u64_add
append_vote log command membership h = ground arith

pub compact_vote :
    (log : Log) (index term : ℕ) {log' : Log}
    → compact_to log index term ≡ ok log'
    → (log'.term ≡ log.term) × (log'.vote ≡ log.vote)
unfolding compact_to u64_add
compact_vote log index term h = ground arith
