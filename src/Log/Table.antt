-- ===== src/Log/Table.antt =====
-- What the log keeps in the storage engine (src/storage/engine.rs), by kind of key. The engine is
-- an ordered map from byte keys to byte values; the keys of entries are ordered by index and lie
-- before all others, so the entries are a list in ascending order of index.
use raft_rust.Base.{
  ℕ, zero, suc, Bool, ◌&&◌, Option, none, some, List, [], ◌∷◌, map, ltb, leb, ◌==◌, if◌then◌else◌,
}
use raft_rust.Log.Entry.{Entry, Bytes}

-- A stored pair: the index in the key `Key::Entry(index)`, and the value.
abbrev pub Row : Type 0
Row = ℕ × Entry

unfoldable pub lookup : ℕ → List Row → Option Entry
lookup i [] = none
lookup i ((j, e) ∷ rows) = if i == j then some e else lookup i rows

-- `engine.set(Key::Entry(i), e)`
unfoldable pub write : ℕ → Entry → List Row → List Row
write i e [] = (i, e) ∷ []
write i e ((j, x) ∷ rows) =
    let rest = write i e rows in
    if ltb i j then (i, e) ∷ (j, x) ∷ rows else if i == j then (i, e) ∷ rows else (j, x) ∷ rest

-- `engine.delete(Key::Entry(i))`
unfoldable pub delete : ℕ → List Row → List Row
delete i [] = []
delete i ((j, x) ∷ rows) = let rest = delete i rows in if i == j then rows else (j, x) ∷ rest

-- `for i in from..from + n { engine.delete(Key::Entry(i)) }`
unfoldable pub delete_range : ℕ → ℕ → List Row → List Row
unfolding delete
delete_range zero from rows = rows
delete_range (suc n) from rows = delete_range n (suc from) (delete from rows)

-- `for entry in entries { engine.set(Key::Entry(entry.index), entry) }`
unfoldable pub write_all : List Entry → List Row → List Row
unfolding write
write_all [] rows = rows
write_all (e ∷ entries) rows = write_all entries (write e.index e rows)

-- The rows with an index in `from..=to`, in ascending order.
unfoldable pub range : ℕ → ℕ → List Row → List Row
range from to [] = []
range from to ((j, x) ∷ rows) =
    let rest = range from to rows in if leb from j && leb j to then (j, x) ∷ rest else rest

-- The values of rows, which is what a scan yields.
abbrev pub values : List Row → List Entry
values = map (λ row. row.1)

-- The stored data, by kind of key.
pub record Table : Type 0 where
  pub entries : List Row
  pub term_vote : Option (ℕ × Option ℕ)
  pub commit_index : Option (ℕ × ℕ)
  pub snapshot_meta : Option (ℕ × ℕ)
  pub snapshot_data : Option Bytes

-- The engine: what reads return, and what is on disk for certain.
pub record Engine : Type 0 where
  pub table : Table
  pub durable : Table

unfoldable pub flush : Engine → Engine
flush e = record { table = e.table; durable = e.table }

unfoldable pub flush_if : Bool → Engine → Engine
unfolding flush
flush_if sync e = if sync then flush e else e

-- What a crash of the machine leaves: all that was not flushed is lost.
unfoldable pub lose : Engine → Engine
lose e = record { table = e.durable; durable = e.durable }

abbrev pub empty : Engine
empty =
    let t : Table = record {
      entries = [];
      term_vote = none;
      commit_index = none;
      snapshot_meta = none;
      snapshot_data = none;
    } in
    record { table = t; durable = t }
