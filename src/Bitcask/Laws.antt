-- ===== src/Bitcask/Laws.antt =====
-- The engine as a map: `get`, `set` and `delete` of src/storage/bitcask.rs.
use raft_rust.Base.{
  ℕ, ◌^◌, ◌+◌, ◌<◌, ◌≡◌, refl, sym, ap, subst, ◌∙◌, Option, none, some, List, [], ◌∷◌, ◌++◌, length,
  ok, length-append, append_assoc, append_nil, if◌then◌else◌, arith, Bool-cases, inl, inr,
}
use raft_rust.KeyMap
use raft_rust.KeyMap.{get-insert_same, get-insert_other, get-remove_same, get-remove_other}
use raft_rust.KeyMap.Order.{bytes_keys, bytes_equal, bytes_equal_iff}
use raft_rust.Log.Entry.{Bytes}
use raft_rust.Bitcask.{
  ValueLocation, KeyDir, BitCask, encode_entry, write_entry, note_entry, get, set, delete,
}
use raft_rust.Bitcask.Entries.{Fits, location_at}
use raft_rust.Bitcask.Scan.{Record, AllFit, bytes_of, index_of, Holds}
use raft_rust.Bitcask.Reads.{read_value-last, get-append}

-- The value of a key by the last record of it, or `old`.
unfoldable pub value_of : Bytes → List Record → Option Bytes → Option Bytes
value_of key [] old = old
value_of key ((k, value) ∷ records) old =
    value_of key records (if bytes_equal key k then value else old)

bytes_of-append : (a b : List Record) → bytes_of (a ++ b) ≡ bytes_of a ++ bytes_of b
unfolding bytes_of
bytes_of-append [] b = refl
bytes_of-append ((key, value) ∷ a) b =
    ap (λ l. encode_entry key value ++ l) (bytes_of-append a b)
    ∙ sym (append_assoc (encode_entry key value) (bytes_of a) (bytes_of b))

index_of-append :
    (offset : ℕ) (a b : List Record) (keydir : KeyDir)
    → index_of offset (a ++ b) keydir
      ≡ index_of (offset + length (bytes_of a)) b (index_of offset a keydir)
unfolding bytes_of index_of
index_of-append offset [] b keydir = ap (λ o. index_of o b keydir) (omega arith)
index_of-append offset ((key, value) ∷ a) b keydir =
    index_of-append (offset + length (encode_entry key value)) a b
      (note_entry keydir key (location_at offset key value))
    ∙ ap
        (λ o. index_of o b (
          index_of (offset + length (encode_entry key value)) a
            (note_entry keydir key (location_at offset key value))))
        (omega (arith, length-append (encode_entry key value) (bytes_of a)))

AllFit-append : (a b : List Record) → AllFit a → AllFit b → AllFit (a ++ b)
AllFit-append [] b fa fb = fb
AllFit-append ((key, value) ∷ a) b (fits, fa) fb = (fits, AllFit-append a b fa fb)

-- An entry at the end of the file.
unfoldable pub added : BitCask → Bytes → Option Bytes → BitCask
unfolding note_entry location_at
added b key value = record {
  file = b.file ++ encode_entry key value;
  keydir = note_entry b.keydir key (location_at (length b.file) key value);
}

added-Holds :
    (b : BitCask) (records : List Record) (key : Bytes) (value : Option Bytes)
    → Holds b records
    → Fits key value
    → Holds (added b key value) (records ++ (key, value) ∷ [])
unfolding added index_of bytes_of
added-Holds b records key value held fits =
    let entry = encode_entry key value in
    let place : ℕ → KeyDir → KeyDir = λ o k. note_entry k key (location_at o key value) in
    record {
      written =
          ap (λ f. f ++ entry) held.written
          ∙ ap (λ l. bytes_of records ++ l) (sym (append_nil entry))
          ∙ sym (bytes_of-append records ((key, value) ∷ []));
      fit = AllFit-append records ((key, value) ∷ []) held.fit (fits, tt);
      indexed =
          ap (λ f. place (length f) b.keydir) held.written
          ∙ ap (place (length (bytes_of records))) held.indexed
          ∙ ap (λ o. place o (index_of 0 records [])) (omega arith)
          ∙ sym (index_of-append 0 records ((key, value) ∷ []) []);
    }

-- Setting a key whose entry fits adds its record, and deleting one adds its tombstone.
pub updates-Holds :
    (b : BitCask) (records : List Record) (key : Bytes)
    → Holds b records
    → length key < 2 ^ 32
    → Holds (delete b key) (records ++ (key, none) ∷ [])
      × ((value : Bytes)
          → length value < 2 ^ 31
          → Holds (set b key value) (records ++ (key, some value) ∷ []))
unfolding set delete write_entry added
updates-Holds b records key held fits = (
  added-Holds b records key none held (fits, omega arith),
  λ value short. added-Holds b records key (some value) held (fits, short),
)

pub get-added :
    (b : BitCask) (key k : Bytes) (value old : Option Bytes)
    → get b key ≡ ok old
    → get (added b k value) key ≡ ok (if bytes_equal key k then value else old)
unfolding added get note_entry location_at
get-added b key k none old found = elim (Bool-cases (bytes_equal key k)) [
  | inl same ↦
      let met = (bytes_equal_iff key k).0 same in
      let gone : KeyMap.get key (KeyMap.remove k b.keydir) ≡ none =
        subst (λ x. KeyMap.get x (KeyMap.remove k b.keydir) ≡ none) (sym met)
          (get-remove_same k b.keydir) in
      rw (same, get, gone) refl
  | inr other ↦
      let kept = get-append b.file (encode_entry k none) b.keydir key found in
      rw (other, get, get-remove_other key k b.keydir other) kept
]
get-added b key k (some value) old found = elim (Bool-cases (bytes_equal key k)) [
  | inl same ↦
      let met = (bytes_equal_iff key k).0 same in
      let location : ValueLocation = record {
        offset = length b.file + 8 + length k;
        length_of = length value;
      } in
      let put : KeyMap.get key (KeyMap.insert k location b.keydir) ≡ some location =
        subst (λ x. KeyMap.get x (KeyMap.insert k location b.keydir) ≡ some location) (sym met)
          (get-insert_same k location b.keydir) in
      rw (same, get, put, read_value-last b.file k value) refl
  | inr other ↦
      let location : ValueLocation = record {
        offset = length b.file + 8 + length k;
        length_of = length value;
      } in
      let kept = get-append b.file (encode_entry k (some value)) b.keydir key found in
      rw (other, get, get-insert_other key k location b.keydir other) kept
]

get-bytes_of :
    (key file : Bytes) (keydir : KeyDir) (records : List Record) {old : Option Bytes}
    → get (record { file = file; keydir = keydir }) key ≡ ok old
    → get
        (record { file = file ++ bytes_of records; keydir = index_of (length file) records keydir })
        key
      ≡ ok (value_of key records old)
unfolding bytes_of index_of value_of added
get-bytes_of key file keydir [] {old} found =
    ap (λ f. get (record { file = f; keydir = keydir }) key) (append_nil file) ∙ found
get-bytes_of key file keydir ((k, value) ∷ records) {old} found =
    let b : BitCask = added (record { file = file; keydir = keydir }) k value in
    let grown =
      get-bytes_of key b.file b.keydir records
        (get-added (record { file = file; keydir = keydir }) key k value old found) in
    ap
      (λ f.
        get
          (record {
            file = f;
            keydir = index_of (length file + length (encode_entry k value)) records b.keydir;
          })
          key)
      (sym (append_assoc file (encode_entry k value) (bytes_of records)))
    ∙ ap
        (λ o.
          get (record { file = b.file ++ bytes_of records; keydir = index_of o records b.keydir })
            key)
        (sym (length-append file (encode_entry k value)))
    ∙ grown

-- An engine that holds some records answers for each key what the last record of it says: its
-- value, or none if that is a tombstone or there is no record of it.
pub get-Holds :
    (b : BitCask) (records : List Record) (key : Bytes)
    → Holds b records
    → get b key ≡ ok (value_of key records none)
unfolding get KeyMap.get
get-Holds b records key held =
    ap (λ f. get (record { file = f; keydir = b.keydir }) key) held.written
    ∙ ap (λ k. get (record { file = bytes_of records; keydir = k }) key) held.indexed
    ∙ get-bytes_of key [] [] records refl
