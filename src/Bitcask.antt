-- ===== src/Bitcask.antt =====
-- The log-structured engine: src/storage/bitcask.rs. The file is its bytes; what it holds at an
-- offset is read from there.
pub mod Entries
pub mod Scan
pub mod Open
pub mod Reads
pub mod Laws
pub mod Compaction
use raft_rust.Base.{
  ℕ, zero, suc, ◌&&◌, ◌+◌, ◌-◌, ◌*◌, ◌/◌, ◌%◌, ◌^◌, Bool, Option, none, some, List, [], ◌∷◌, ◌++◌,
  length, take, drop, Outcome, ok, err, panic, ◌>>=◌, io, u32_be, from_be, ltb, leb, ◌==◌,
  if◌then◌else◌, map,
}
use raft_rust.KeyMap
use raft_rust.Message.{StorageStatus}
use raft_rust.KeyMap.Order.{bytes_keys}
use raft_rust.Log.Entry.{Bytes}

pub record ValueLocation : Type 0 where
  pub offset : ℕ
  pub length_of : ℕ

-- `KeyDir`
abbrev pub KeyDir : Type 0
KeyDir = List (Bytes × ValueLocation)

pub record BitCask : Type 0 where
  pub file : Bytes
  pub keydir : KeyDir

unfoldable pub end : ValueLocation → ℕ
end location = location.offset + location.length_of

-- The length of a value as an `i32`, -1 where it is a tombstone.
unfoldable pub value_length : Option Bytes → Bytes
unfolding u32_be
value_length none = 255 ∷ 255 ∷ 255 ∷ 255 ∷ []
value_length (some value) = u32_be (length value)

unfoldable pub value_bytes : Option Bytes → Bytes
value_bytes none = []
value_bytes (some value) = value

-- What `write_entry` adds to the file.
unfoldable pub encode_entry : Bytes → Option Bytes → Bytes
unfolding u32_be value_length value_bytes
encode_entry key value = u32_be (length key) ++ value_length value ++ key ++ value_bytes value

unfoldable pub write_entry : Bytes → Bytes → Option Bytes → Bytes × ValueLocation
unfolding encode_entry
write_entry file key value = (
  file ++ encode_entry key value,
  record { offset = length file + 8 + length key; length_of = length (value_bytes value) },
)

-- `read_exact` of as many bytes as the location has
unfoldable pub read_value : Bytes → ValueLocation → Outcome Bytes
unfolding end
read_value file location =
    if ltb 0 location.length_of && ltb (length file) (end location)
    then err io
    else ok (take location.length_of (drop location.offset file))

-- An entry as it is read back: its key, where its value stands, and its size.
pub record Parsed : Type 0 where
  pub key : Bytes
  pub location : Option ValueLocation
  pub size : ℕ

-- What follows the lengths of an entry at `offset`: the key and, unless it is a tombstone, the value;
-- none if they are torn.
unfoldable pub parse_body : ℕ → ℕ → Bool → ℕ → Bytes → Option Parsed
parse_body offset key_len tombstone value_len body =
    if ltb (length body) key_len
    then none
    else if tombstone
    then some (record { key = take key_len body; location = none; size = 8 + key_len })
    else if ltb (length body) (key_len + value_len)
    then none
    else some (record {
      key = take key_len body;
      location = some (record { offset = offset + 8 + key_len; length_of = value_len });
      size = 8 + key_len + value_len;
    })

-- The entry that starts at `offset`, where the file goes on with the given bytes.
unfoldable pub parse_entry : ℕ → Bytes → Option Parsed
unfolding from_be parse_body
parse_entry offset (k0 ∷ k1 ∷ k2 ∷ k3 ∷ v0 ∷ v1 ∷ v2 ∷ v3 ∷ body) =
    parse_body offset (from_be k0 k1 k2 k3) (leb 128 v0) (from_be v0 v1 v2 v3) body
parse_entry offset _ = none

-- `keydir.insert` or, at a tombstone, `keydir.remove`
unfoldable pub note_entry : KeyDir → Bytes → Option ValueLocation → KeyDir
note_entry keydir key (some location) = KeyMap.insert key location keydir
note_entry keydir key none = KeyMap.remove key keydir

-- The loop of `build_keydir`: where the last whole entry ends, and the directory; none if the fuel is out.
unfoldable pub scan_entries : ℕ → Bytes → ℕ → KeyDir → Option (ℕ × KeyDir)
unfolding parse_entry note_entry
scan_entries zero rest offset keydir = none
scan_entries (suc fuel) [] offset keydir = some (offset, keydir)
scan_entries (suc fuel) (b ∷ rest) offset keydir = elim (parse_entry offset (b ∷ rest)) [
  | none ↦ some (offset, keydir)
  | some p ↦
      scan_entries fuel (drop p.size (b ∷ rest)) (offset + p.size)
        (note_entry keydir p.key p.location)
]

-- The directory of a file, and what is left of it; an entry has at least 8 bytes, so that its
-- length is fuel enough.
unfoldable pub build_keydir : Bytes → Option BitCask
unfolding scan_entries
build_keydir file = elim (scan_entries (suc (length file)) file 0 []) [
  | none ↦ none
  | some (offset, keydir) ↦ some (record { file = take offset file; keydir = keydir })
]

unfoldable pub get : BitCask → Bytes → Outcome (Option Bytes)
unfolding read_value
get b key = elim (KeyMap.get key b.keydir) [
  | none ↦ ok none
  | some location ↦ (do value ← read_value b.file location; ok (some value))
]

unfoldable pub set : BitCask → Bytes → Bytes → BitCask
unfolding write_entry
set b key value =
    let written = write_entry b.file key (some value) in
    record { file = written.0; keydir = KeyMap.insert key written.1 b.keydir }

unfoldable pub delete : BitCask → Bytes → BitCask
unfolding write_entry
delete b key = record {
  file = (write_entry b.file key none).0;
  keydir = KeyMap.remove key b.keydir;
}

-- The loop of `compact`: the live entries of `old`, written behind what `new` has.
unfoldable pub copy_entries : Bytes → KeyDir → BitCask → Outcome BitCask
unfolding set
copy_entries old [] new = ok new
copy_entries old ((key, location) ∷ keydir) new = do
  value ← read_value old location
  copy_entries old keydir (set new key value)

unfoldable pub compact : BitCask → Outcome BitCask
unfolding copy_entries
compact b = copy_entries b.file b.keydir (record { file = []; keydir = [] })

-- `iter.map(|(key, value_loc)| key.len() + value_loc.length).sum()`
unfoldable pub live_size : KeyDir → ℕ
live_size [] = 0
live_size ((key, location) ∷ keydir) = (length key + location.length_of) + live_size keydir

unfoldable pub status : BitCask → StorageStatus
unfolding live_size
status b =
    let keys = length b.keydir in
    let size = live_size b.keydir in
    record { keys = keys; size = size; disk_size = length b.file; live_disk_size = size + 8 * keys }

-- `scan` of a range, given as a test of keys; each value is read when its turn comes.
unfoldable pub scan : BitCask → (Bytes → Bool) → List (Outcome (Bytes × Bytes))
scan b within = go b.keydir
  where
    go : KeyDir → List (Outcome (Bytes × Bytes))
    go [] = []
    go ((key, location) ∷ keydir) =
        let rest = go keydir in
        if within key then (do value ← read_value b.file location; ok (key, value)) ∷ rest else rest

-- `Status::garbage_disk_size`, a subtraction on `u64`
unfoldable pub garbage_disk_size : StorageStatus → Outcome ℕ
garbage_disk_size s =
    if ltb s.disk_size s.live_disk_size then panic else ok (s.disk_size - s.live_disk_size)

-- `exceeds` stands for the test of the fraction of garbage, which is done in floating point.
unfoldable pub new_maybe_compact : (ℕ → ℕ → Bool) → ℕ → BitCask → Outcome BitCask
unfolding compact status garbage_disk_size
new_maybe_compact exceeds garbage_min_bytes b = do
  garbage ← garbage_disk_size (status b)
  if ltb 0 garbage && leb garbage_min_bytes garbage && exceeds garbage (length b.file)
      then compact b
      else ok b
