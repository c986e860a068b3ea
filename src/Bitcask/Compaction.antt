-- ===== src/Bitcask/Compaction.antt =====
-- Compaction and what is read: `BitCask::compact` of src/storage/bitcask.rs.
use raft_rust.Base.{
  ℕ, ◌+◌, ◌≡◌, refl, sym, ap, subst, ◌∙◌, Option, none, some, List, [], ◌∷◌, ◌++◌, length, ok,
  arith, Bool-cases, inl, inr, append_nil, append_assoc, length-append, if◌then◌else◌, false,
}
use raft_rust.KeyMap
use raft_rust.KeyMap.{IsAbove, IsAscending, insert-IsAscending, remove-IsAscending, get-IsAbove}
use raft_rust.KeyMap.Order.{bytes_keys, bytes_less, bytes_equal, bytes_equal_iff}
use raft_rust.Log.Entry.{Bytes}
use raft_rust.Bitcask.{
  ValueLocation, KeyDir, BitCask, encode_entry, read_value, note_entry, get, set, copy_entries,
  compact,
}
use raft_rust.Bitcask.Entries.{Fits, location_at}
use raft_rust.Bitcask.Scan.{Record, AllFit, bytes_of, index_of, Holds}
use raft_rust.Bitcask.Laws.{value_of, get-Holds, updates-Holds}
use raft_rust.Bitcask.Reads.{read_value-append, read_value-last}

-- Every value of a directory is in the file, and fits into an entry.
abbrev IsReadable : Bytes → KeyDir → Type 0
IsReadable file [] = Unit
IsReadable file ((key, location) ∷ keydir) =
    ((value : Bytes) × (read_value file location ≡ ok value) × Fits key (some value))
    × IsReadable file keydir

IsReadable-append :
    (file more : Bytes) (keydir : KeyDir)
    → IsReadable file keydir
    → IsReadable (file ++ more) keydir
IsReadable-append file more [] readable = tt
IsReadable-append file more ((key, location) ∷ keydir) ((value, was_read, fits), readable) = (
  (value, read_value-append file more location was_read, fits),
  IsReadable-append file more keydir readable,
)

insert-IsReadable :
    (file key value : Bytes) (location : ValueLocation) (keydir : KeyDir)
    → read_value file location ≡ ok value
    → Fits key (some value)
    → IsReadable file keydir
    → IsReadable file (KeyMap.insert key location keydir)
unfolding KeyMap.insert
insert-IsReadable file key value location [] was_read fits readable = ((value, was_read, fits), tt)
insert-IsReadable file key value location ((k, l) ∷ keydir) was_read fits (first, readable) =
    elim (Bool-cases (bytes_equal key k)) [
      | inl same ↦ rw same ((value, was_read, fits), readable)
      | inr other ↦ elim (Bool-cases (bytes_less key k)) [
        | inl before ↦ rw (other, before) ((value, was_read, fits), (first, readable))
        | inr behind ↦
            rw (other, behind)
              (first, insert-IsReadable file key value location keydir was_read fits readable)
      ]
    ]

remove-IsReadable :
    (file key : Bytes) (keydir : KeyDir)
    → IsReadable file keydir
    → IsReadable file (KeyMap.remove key keydir)
unfolding KeyMap.remove
remove-IsReadable file key [] readable = tt
remove-IsReadable file key ((k, l) ∷ keydir) (first, readable) =
    elim (Bool-cases (bytes_equal key k)) [
      | inl same ↦ rw same (remove-IsReadable file key keydir readable)
      | inr other ↦ rw other (first, remove-IsReadable file key keydir readable)
    ]

note-IsReadable :
    (file key : Bytes) (value : Option Bytes) (keydir : KeyDir)
    → Fits key value
    → IsReadable file keydir
    → IsReadable
        (file ++ encode_entry key value)
        (note_entry keydir key (location_at (length file) key value))
unfolding note_entry location_at
note-IsReadable file key none keydir fits readable =
    remove-IsReadable (file ++ encode_entry key none) key keydir
      (IsReadable-append file (encode_entry key none) keydir readable)
note-IsReadable file key (some value) keydir fits readable =
    insert-IsReadable (file ++ encode_entry key (some value)) key value _ keydir
      (read_value-last file key value) fits
      (IsReadable-append file (encode_entry key (some value)) keydir readable)

note-IsAscending :
    (offset : ℕ) (key : Bytes) (value : Option Bytes) (keydir : KeyDir)
    → IsAscending keydir
    → IsAscending (note_entry keydir key (location_at offset key value))
unfolding note_entry location_at
note-IsAscending offset key none keydir sorted = remove-IsAscending key keydir sorted
note-IsAscending offset key (some value) keydir sorted = insert-IsAscending key _ keydir sorted

index_of-IsAscending :
    (offset : ℕ) (records : List Record) (keydir : KeyDir)
    → IsAscending keydir
    → IsAscending (index_of offset records keydir)
unfolding index_of
index_of-IsAscending offset [] keydir sorted = sorted
index_of-IsAscending offset ((key, value) ∷ records) keydir sorted =
    index_of-IsAscending (offset + length (encode_entry key value)) records
      (note_entry keydir key (location_at offset key value))
      (note-IsAscending offset key value keydir sorted)

index_of-IsReadable :
    (file : Bytes) (records : List Record) (keydir : KeyDir)
    → AllFit records
    → IsReadable file keydir
    → IsReadable (file ++ bytes_of records) (index_of (length file) records keydir)
unfolding bytes_of index_of
index_of-IsReadable file [] keydir fit readable = IsReadable-append file [] keydir readable
index_of-IsReadable file ((key, value) ∷ records) keydir (fits, fit) readable =
    let entry = encode_entry key value in
    let noted = note_entry keydir key (location_at (length file) key value) in
    let rest =
      index_of-IsReadable (file ++ entry) records noted fit
        (note-IsReadable file key value keydir fits readable) in
    subst (λ f. IsReadable f (index_of (length file + length entry) records noted))
      (append_assoc file entry (bytes_of records))
      (subst (λ o. IsReadable ((file ++ entry) ++ bytes_of records) (index_of o records noted))
        (length-append file entry) rest)

-- What the records say of a key, in their order.
unfoldable pub records_of : Bytes → List Record → List (Option Bytes)
records_of key [] = []
records_of key ((k, value) ∷ records) =
    let rest = records_of key records in if bytes_equal key k then value ∷ rest else rest

-- No record of the key where it has no value, and one record, of the value, where it has one.
abbrev pub IsOnce : Bytes → List Record → Option Bytes → Type 0
IsOnce key records none = records_of key records ≡ []
IsOnce key records (some value) = records_of key records ≡ some value ∷ []

IsOnce-other :
    (key k : Bytes) (value : Option Bytes) (records : List Record) (v : Option Bytes)
    → bytes_equal key k ≡ false
    → IsOnce key records v
    → IsOnce key ((k, value) ∷ records) v
unfolding records_of
IsOnce-other key k value records none other once = rw other once
IsOnce-other key k value records (some v) other once = rw other once

-- What copying a directory behind `records` gives: the records of its live entries, and an engine
-- that holds them.
record Copied (old : Bytes) (keydir : KeyDir) (new : BitCask) (records : List Record) : Type 0 where
  live : List Record
  copy : BitCask
  done : copy_entries old keydir new ≡ ok copy
  holds : Holds copy (records ++ live)
  others : (key : Bytes) (w : Option Bytes) → KeyMap.get key keydir ≡ none → value_of key live w ≡ w
  absent : (key : Bytes) → KeyMap.get key keydir ≡ none → records_of key live ≡ []
  once : (key : Bytes) → IsOnce key live (value_of key live none)
  values :
      (key : Bytes) → get (record { file = old; keydir = keydir }) key ≡ ok (value_of key live none)

copy_entries-Copied :
    (old : Bytes) (keydir : KeyDir) (new : BitCask) (records : List Record)
    → IsReadable old keydir
    → IsAscending keydir
    → Holds new records
    → Copied old keydir new records
unfolding copy_entries value_of get KeyMap.get records_of
copy_entries-Copied old [] new records readable sorted held = record {
  live = [];
  copy = new;
  done = refl;
  holds = subst (Holds new) (sym (append_nil records)) held;
  others = λ key w missing. refl;
  absent = λ key missing. refl;
  once = λ key. refl;
  values = λ key. refl;
}
copy_entries-Copied old ((k, location) ∷ keydir) new records ((value, was_read, fits), readable)
      (above, sorted) held =
    let put = (updates-Holds new records k held fits.0).1 value fits.1 in
    let rest =
      copy_entries-Copied old keydir (set new k value) (records ++ (k, some value) ∷ []) readable
        sorted put in
    record {
      live = (k, some value) ∷ rest.live;
      copy = rest.copy;
      done = rw (copy_entries, was_read) rest.done;
      holds =
          subst (Holds rest.copy) (append_assoc records ((k, some value) ∷ []) rest.live)
            rest.holds;
      others = λ key w missing. elim (Bool-cases (bytes_equal key k)) [
        | inl same ↦ absurd (ground arith)
        | inr other ↦
            let beyond : KeyMap.get key keydir ≡ none = ground arith in
            rw other (rest.others key w beyond)
      ];
      absent = λ key missing. elim (Bool-cases (bytes_equal key k)) [
        | inl same ↦ absurd (ground arith)
        | inr other ↦
            let beyond : KeyMap.get key keydir ≡ none = ground arith in
            rw other (rest.absent key beyond)
      ];
      once = λ key. elim (Bool-cases (bytes_equal key k)) [
        | inl same ↦
            let met = (bytes_equal_iff key k).0 same in
            let gone : KeyMap.get key keydir ≡ none =
              subst (λ x. KeyMap.get x keydir ≡ none) (sym met) (get-IsAbove k keydir above) in
            let first : records_of key ((k, some value) ∷ rest.live) ≡ some value ∷ [] =
              rw (records_of, same) (ap (λ l. some value ∷ l) (rest.absent key gone)) in
            let has : value_of key ((k, some value) ∷ rest.live) none ≡ some value =
              rw (value_of, same) (rest.others key (some value) gone) in
            subst (IsOnce key ((k, some value) ∷ rest.live)) (sym has) first
        | inr other ↦
            let kept : value_of key ((k, some value) ∷ rest.live) none
                ≡ value_of key rest.live none =
              rw (value_of, other) refl in
            subst (IsOnce key ((k, some value) ∷ rest.live)) (sym kept) (
              IsOnce-other key k (some value) rest.live (value_of key rest.live none) other
                (rest.once key))
      ];
      values = λ key. elim (Bool-cases (bytes_equal key k)) [
        | inl same ↦
            let met = (bytes_equal_iff key k).0 same in
            let gone : KeyMap.get key keydir ≡ none =
              subst (λ x. KeyMap.get x keydir ≡ none) (sym met) (get-IsAbove k keydir above) in
            rw (get, same, was_read) (ap (λ v. ok v) (sym (rest.others key (some value) gone)))
        | inr other ↦ rw (get, other) (rest.values key)
      ];
    }

-- Compaction of an engine that holds some records succeeds, and gives an engine that answers for
-- every key as before, and that holds one record of each key that has a value, which is that
-- value, and no record of any other key.
pub get-compact :
    (b : BitCask) (records : List Record)
    → Holds b records
    → (c : BitCask) × (live : List Record) × (compact b ≡ ok c)
      × Holds c live
      × ((key : Bytes)
          → (get c key ≡ get b key) × ((v : Option Bytes) × (get b key ≡ ok v) × IsOnce key live v))
unfolding compact index_of bytes_of
get-compact b records held =
    let readable : IsReadable b.file b.keydir =
      subst (λ f. IsReadable f b.keydir) (sym held.written)
        (subst (IsReadable (bytes_of records)) (sym held.indexed)
          (index_of-IsReadable [] records [] held.fit tt)) in
    let sorted : IsAscending b.keydir =
      subst (λ k. IsAscending k) (sym held.indexed) (index_of-IsAscending 0 records [] tt) in
    let empty : Holds (record { file = []; keydir = [] }) [] = record {
      written = refl;
      fit = tt;
      indexed = refl;
    } in
    let r =
      copy_entries-Copied b.file b.keydir (record { file = []; keydir = [] }) [] readable sorted
        empty in
    (
      r.copy,
      r.live,
      r.done,
      r.holds,
      λ key. (
        get-Holds r.copy r.live key r.holds ∙ sym (r.values key),
        (value_of key r.live none, r.values key, r.once key),
      ),
    )
