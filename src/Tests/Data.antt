-- ===== src/Tests/Data.antt =====
-- Logs and entries that the tests run on.
use raft_rust.Base.{ℕ, none, some, [], ◌∷◌, Outcome, ok, err, panic, ◌≡◌, refl, u64_add, u64_limit}
use raft_rust.Log.Entry.{Entry}
use raft_rust.Log.Table
use raft_rust.Log.Table.{lose}
use raft_rust.Log.Ops.{Log, set_term_vote, append_entry, commit, compact_to, scan, get, new}
use raft_rust.Log.Splice.{
  splice, write_remaining, last_of, is_contiguous, terms_ascend, check_base, skip_existing,
}
use raft_rust.Log.Reach.{
  fresh, Reach, here, next, voted, appended, committed, compacted, IsSound, Reach-IsSound,
  fresh-IsSound,
}

abbrev pub or_else : {A : Type 0} → A → Outcome A → A
or_else a (ok b) = b
or_else a (err e) = a
or_else a panic = a

abbrev pub entry : ℕ → ℕ → Entry
entry index term = record {
  index = index;
  term = term;
  command = some (index ∷ []);
  membership = none;
}

-- The log of a node in term 1, before and after two appends and a commit.
abbrev pub in_term_one : Log
unfolding set_term_vote
in_term_one = or_else fresh (set_term_vote fresh 1 none)

abbrev pub one_entry : Log
unfolding append_entry u64_add u64_limit
one_entry = (or_else (fresh, 0) (append_entry in_term_one (some (1 ∷ [])) none)).0

abbrev pub two_entries : Log
unfolding append_entry u64_add u64_limit
two_entries = (or_else (fresh, 0) (append_entry one_entry (some (2 ∷ [])) none)).0

abbrev pub one_committed : Log
unfolding commit
one_committed = (or_else (fresh, 0) (commit two_entries 1)).0

abbrev pub one_compacted : Log
unfolding compact_to u64_add u64_limit
one_compacted = or_else fresh (compact_to one_committed 1 1)

-- The same log after its node has voted in term 2, and after a leader of that term has replaced
-- the entry that is not committed.
abbrev pub in_term_two : Log
unfolding set_term_vote
in_term_two = or_else fresh (set_term_vote one_committed 2 (some 3))

abbrev pub spliced_log : Log × ℕ
unfolding splice write_remaining u64_add u64_limit
spliced_log = or_else (fresh, 0) (splice in_term_two (entry 2 2 ∷ entry 3 2 ∷ []))

pub one_committed-Reach : Reach fresh one_committed
unfolding set_term_vote append_entry u64_add u64_limit commit Table.lookup Table.flush_if
    Table.write
one_committed-Reach =
    next
      (next (next (next here (voted 1 none refl)) (appended (some (1 ∷ [])) none 1 refl))
        (appended (some (2 ∷ [])) none 2 refl))
      (committed 1 1 refl)

pub in_term_two-Reach : Reach fresh in_term_two
unfolding set_term_vote commit append_entry u64_add u64_limit Table.lookup Table.flush_if
    Table.write
in_term_two-Reach = next one_committed-Reach (voted 2 (some 3) refl)

pub one_compacted-Reach : Reach fresh one_compacted
unfolding set_term_vote append_entry u64_add u64_limit commit compact_to Table.lookup Table.flush_if
    Table.write
one_compacted-Reach = next one_committed-Reach (compacted 1 (entry 1 1) refl refl)

pub spliced_log-splice : splice in_term_two (entry 2 2 ∷ entry 3 2 ∷ []) ≡ ok spliced_log
unfolding set_term_vote append_entry u64_add u64_limit commit splice write_remaining last_of
    is_contiguous terms_ascend check_base skip_existing scan Table.lookup Table.flush_if Table.write
    Table.write_all Table.delete_range Table.delete Table.range
spliced_log-splice = refl

pub in_term_two-IsSound : IsSound in_term_two
in_term_two-IsSound = Reach-IsSound fresh-IsSound in_term_two-Reach

pub one_compacted-IsSound : IsSound one_compacted
one_compacted-IsSound = Reach-IsSound fresh-IsSound one_compacted-Reach

pub one_committed-get : get one_committed 1 ≡ some (entry 1 1)
unfolding append_entry u64_add u64_limit commit set_term_vote Table.lookup Table.flush_if
    Table.write
one_committed-get = refl

pub one_compacted-compact_to : compact_to one_committed 1 1 ≡ ok one_compacted
unfolding append_entry u64_add u64_limit commit set_term_vote compact_to Table.lookup Table.flush_if
    Table.write
one_compacted-compact_to = refl

pub in_term_two-set_term_vote : set_term_vote one_committed 2 (some 3) ≡ ok in_term_two
unfolding append_entry u64_add u64_limit commit set_term_vote Table.lookup Table.flush_if
    Table.write
in_term_two-set_term_vote = refl

pub in_term_two-commit : in_term_two.commit_index ≡ 1
unfolding append_entry u64_add u64_limit commit set_term_vote Table.lookup Table.flush_if
    Table.write
in_term_two-commit = refl

pub one_compacted-start : one_compacted.first_index ≡ 2
unfolding append_entry u64_add u64_limit commit set_term_vote compact_to Table.lookup Table.flush_if
    Table.write
one_compacted-start = refl

-- What a crash leaves of two logs.
abbrev pub one_back : Log
unfolding new
one_back = or_else fresh (new (lose one_committed.engine))

pub one_back-new : new (lose one_committed.engine) ≡ ok one_back
unfolding new lose set_term_vote append_entry u64_add u64_limit commit Table.lookup Table.flush_if
    Table.write
one_back-new = refl

abbrev pub two_back : Log
unfolding new
two_back = or_else fresh (new (lose in_term_two.engine))

pub two_back-new : new (lose in_term_two.engine) ≡ ok two_back
unfolding new lose set_term_vote append_entry u64_add u64_limit commit Table.lookup Table.flush_if
    Table.write
two_back-new = refl

-- The commit index is lost where nothing was flushed after it.
one_back-commit : one_back.commit_index ≡ 0
unfolding new lose set_term_vote append_entry u64_add u64_limit commit Table.lookup Table.flush_if
    Table.write
one_back-commit = refl
