-- ===== src/Log/Splice.antt =====
-- `Log::splice` in raft/log.rs under src/: what the leader sent is joined to the local log.
pub mod Parts
pub mod Shape
pub mod Laws
pub mod Gap
use raft_rust.Base.{
  ℕ, ◌+◌, ◌-◌, Bool, true, not, ◌&&◌, Option, none, some, List, [], ◌∷◌, Outcome, ok, panic,
  u64_add, ◌>>=◌, ◌>>◌, assert, ltb, leb, ◌==◌, if◌then◌else◌,
}
use raft_rust.Log.Entry.{Entry, same_payload}
use raft_rust.Log.Table
use raft_rust.Log.Table.{flush_if}
use raft_rust.Log.Ops.{Log, rows, get, scan, included}

-- `entries.last()` of the entries that begin with `e`
unfoldable pub last_of : Entry → List Entry → Entry
last_of e [] = e
last_of e (f ∷ entries) = last_of f entries

unfoldable pub is_contiguous : Entry → List Entry → Bool
is_contiguous e [] = true
is_contiguous e (f ∷ entries) = (e.index + 1 == f.index) && is_contiguous f entries

unfoldable pub terms_ascend : Entry → List Entry → Bool
terms_ascend e [] = true
terms_ascend e (f ∷ entries) = leb e.term f.term && terms_ascend f entries

-- The entry before the first must be there, with a term that is no larger.
unfoldable pub check_base : Entry → Option Entry → Outcome (Unit {0})
check_base first (some base) = assert (not (ltb first.term base.term))
check_base first none = assert (first.index == 1)

-- Drops the entries that the log holds already, up to the first that has another term.
unfoldable pub skip_existing : List Entry → List Entry → Outcome (List Entry)
skip_existing [] entries = ok entries
skip_existing (old ∷ scan) [] = panic
skip_existing (old ∷ scan) (e ∷ entries) =
    let rest = skip_existing scan entries in
    assert (old.index == e.index)
    >> (if old.term == e.term then assert (same_payload old e) >> rest else ok (e ∷ entries))

-- Writes what is left, and deletes the rest of the old log.
unfoldable pub write_remaining : Log → Entry → List Entry → Outcome (Log × ℕ)
write_remaining log last [] = ok (log, log.last_index)
write_remaining log last (first ∷ rest) = do
  assert (ltb log.commit_index first.index)
  next ← u64_add last.index 1
  let written = Table.write_all (first ∷ rest) (rows log)
  let table = record (log.engine.table) {
    entries = Table.delete_range (log.last_index - last.index) next written;
  }
  ok (
    record log {
      engine = flush_if log.fsync (record (log.engine) { table = table });
      last_index = last.index;
      last_term = last.term;
    },
    last.index,
  )

unfoldable pub splice : Log → List Entry → Outcome (Log × ℕ)
unfolding last_of
splice log [] = ok (log, log.last_index)
splice log (first ∷ rest) = do
  assert (ltb 0 first.index && ltb 0 first.term)
  assert (is_contiguous first rest)
  assert (terms_ascend first rest)
  assert (leb (last_of first rest).term log.term)
  check_base first (get log (first.index - 1))
  remaining ←
      skip_existing (scan log (included first.index) (included (last_of first rest).index))
        (first ∷ rest)
  write_remaining log (last_of first rest) remaining
