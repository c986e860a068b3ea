-- ===== src/Bitcask/Scan.antt =====
-- The directory that is built from a file of whole entries (src/storage/bitcask.rs).
use raft_rust.Base.{
  ℕ, suc, ◌+◌, ◌-◌, ◌≤◌, ◌<◌, ◌≡◌, refl, sym, ap, subst, ◌∙◌, Option, none, some, List, [], ◌∷◌,
  ◌++◌, length, take, drop, length-append, take-append, drop-append, append_assoc, arith,
}
use raft_rust.Log.Entry.{Bytes}
use raft_rust.Bitcask.{
  KeyDir, BitCask, value_bytes, encode_entry, Parsed, parse_entry, note_entry, scan_entries,
  build_keydir,
}
use raft_rust.Bitcask.Entries.{
  Fits, location_at, length-encode_entry, parse_entry-encode_entry, parse_entry-torn,
}

-- A key with what was written under it; none is a tombstone.
abbrev pub Record : Type 0
Record = Bytes × Option Bytes

abbrev pub AllFit : List Record → Type 0
AllFit [] = Unit
AllFit ((key, value) ∷ records) = Fits key value × AllFit records

unfoldable pub bytes_of : List Record → Bytes
bytes_of [] = []
bytes_of ((key, value) ∷ records) = encode_entry key value ++ bytes_of records

-- The directory of the records that start at `offset`, on top of another one.
unfoldable pub index_of : ℕ → List Record → KeyDir → KeyDir
unfolding note_entry location_at
index_of offset [] keydir = keydir
index_of offset ((key, value) ∷ records) keydir =
    index_of (offset + length (encode_entry key value)) records
      (note_entry keydir key (location_at offset key value))

scan-step :
    (fuel offset : ℕ) (rest : Bytes) (keydir : KeyDir) {p : Parsed}
    → parse_entry offset rest ≡ some p
    → scan_entries (suc fuel) rest offset keydir
      ≡ scan_entries fuel (drop p.size rest) (offset + p.size) (note_entry keydir p.key p.location)
unfolding scan_entries
scan-step fuel offset [] keydir found = absurd (unfold parse_entry in ground arith)
scan-step fuel offset (b ∷ rest) keydir found = rw (scan_entries, found) refl

scan-record :
    (fuel offset : ℕ) (key : Bytes) (value : Option Bytes) (tail : Bytes) (keydir : KeyDir)
    → Fits key value
    → scan_entries (suc fuel) (encode_entry key value ++ tail) offset keydir
      ≡ scan_entries fuel tail
          (offset + length (encode_entry key value))
          (note_entry keydir key (location_at offset key value))
scan-record fuel offset key value tail keydir fits =
    let size = length-encode_entry key value in
    let rest : drop (8 + length key + length (value_bytes value)) (encode_entry key value ++ tail)
        ≡ tail =
      subst (λ n. drop n (encode_entry key value ++ tail) ≡ tail) size
        (drop-append (encode_entry key value) tail) in
    scan-step fuel offset (encode_entry key value ++ tail) keydir
      (parse_entry-encode_entry offset key value tail fits)
    ∙ ap
        (λ r.
          scan_entries fuel r (offset + (8 + length key + length (value_bytes value)))
            (note_entry keydir key (location_at offset key value)))
        rest
    ∙ ap
        (λ n.
          scan_entries fuel tail (offset + n)
            (note_entry keydir key (location_at offset key value)))
        (sym size)

pub scan-bytes_of :
    (fuel offset : ℕ) (records : List Record) (tail : Bytes) (keydir : KeyDir)
    → AllFit records
    → scan_entries (length records + fuel) (bytes_of records ++ tail) offset keydir
      ≡ scan_entries fuel tail (offset + length (bytes_of records)) (index_of offset records keydir)
unfolding bytes_of index_of
scan-bytes_of fuel offset [] tail keydir fit =
    let none_read : 0 + fuel ≡ fuel = omega arith in
    let here : offset ≡ offset + 0 = omega arith in
    ap (λ f. scan_entries f tail offset keydir) none_read
    ∙ ap (λ o. scan_entries fuel tail o keydir) here
scan-bytes_of fuel offset ((key, value) ∷ records) tail keydir (fits, fit) =
    let size = length (encode_entry key value) in
    let noted = note_entry keydir key (location_at offset key value) in
    let fuels : suc (length records) + fuel ≡ suc (length records + fuel) = omega arith in
    let total : offset + size + length (bytes_of records)
        ≡ offset + length (encode_entry key value ++ bytes_of records) =
      omega (arith, length-append (encode_entry key value) (bytes_of records)) in
    ap (λ f. scan_entries f ((encode_entry key value ++ bytes_of records) ++ tail) offset keydir)
      fuels
    ∙ ap (λ r. scan_entries (suc (length records + fuel)) r offset keydir)
        (append_assoc (encode_entry key value) (bytes_of records) tail)
    ∙ scan-record (length records + fuel) offset key value (bytes_of records ++ tail) keydir fits
    ∙ scan-bytes_of fuel (offset + size) records tail noted fit
    ∙ ap (λ o. scan_entries fuel tail o (index_of (offset + size) records noted)) total

scan-stops :
    (fuel offset : ℕ) (rest : Bytes) (keydir : KeyDir)
    → parse_entry offset rest ≡ none
    → scan_entries (suc fuel) rest offset keydir ≡ some (offset, keydir)
unfolding scan_entries
scan-stops fuel offset [] keydir torn = refl
scan-stops fuel offset (b ∷ rest) keydir torn = rw (scan_entries, torn) refl

-- A torn entry at the end stops the scan where it starts.
scan-torn :
    (fuel offset n : ℕ) (key : Bytes) (value : Option Bytes) (keydir : KeyDir)
    → Fits key value
    → n < length (encode_entry key value)
    → scan_entries (suc fuel) (take n (encode_entry key value)) offset keydir
      ≡ some (offset, keydir)
scan-torn fuel offset n key value keydir fits short =
    scan-stops fuel offset (take n (encode_entry key value)) keydir
      (parse_entry-torn offset n key value fits (omega (arith, length-encode_entry key value)))

records-le-bytes : (records : List Record) → length records ≤ length (bytes_of records)
unfolding bytes_of
records-le-bytes [] = omega arith
records-le-bytes ((key, value) ∷ records) = omega (
  arith,
  records-le-bytes records,
  length-encode_entry key value,
  length-append (encode_entry key value) (bytes_of records),
)

-- What an engine holds: its file is these records, and its directory is theirs.
pub record Holds (b : BitCask) (records : List Record) : Type 0 where
  pub written : b.file ≡ bytes_of records
  pub fit : AllFit records
  pub indexed : b.keydir ≡ index_of 0 records []

-- Opening a file that ends in the first `n` bytes of an entry, fewer than all of them, cuts those
-- off and gives back the engine that had written what stands before; with `n` of 0 it is the file that this engine left.
pub build_keydir-torn :
    (b : BitCask) (records : List Record) (key : Bytes) (value : Option Bytes) (n : ℕ)
    → Holds b records
    → Fits key value
    → n < length (encode_entry key value)
    → build_keydir (b.file ++ take n (encode_entry key value)) ≡ some b
unfolding build_keydir
build_keydir-torn b records key value n held fits short =
    let torn = take n (encode_entry key value) in
    let file = bytes_of records ++ torn in
    let left = length file - length records in
    let fuel : suc (length file) ≡ length records + suc left =
      omega (arith, records-le-bytes records, length-append (bytes_of records) torn) in
    let end : ℕ = 0 + length (bytes_of records) in
    let found : scan_entries (suc (length file)) file 0 [] ≡ some (end, index_of 0 records []) =
      ap (λ f. scan_entries f file 0 []) fuel
      ∙ scan-bytes_of (suc left) 0 records torn [] held.fit
      ∙ scan-torn left end n key value (index_of 0 records []) fits short in
    let kept : take end file ≡ bytes_of records =
      ap (λ m. take m file) (omega arith) ∙ take-append (bytes_of records) torn in
    let opened : build_keydir file
        ≡ some (record { file = bytes_of records; keydir = index_of 0 records [] }) =
      rw (build_keydir, found, kept) refl in
    ap (λ f. build_keydir (f ++ torn)) held.written
    ∙ opened
    ∙ ap (λ f. some (record { file = f; keydir = index_of 0 records [] })) (sym held.written)
    ∙ ap (λ k. some (record { file = b.file; keydir = k })) (sym held.indexed)
